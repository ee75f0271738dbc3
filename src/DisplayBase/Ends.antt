-- ===== src/DisplayBase/Ends.antt =====
-- display_base.cpp: the loop of Prepare ends.
use platform_hardware_qcom_d.Base.{
  ℕ, zero, suc, ◌≡◌, ◌≢◌, ◌<◌, refl, ap, true, none, arith, Option-cases, Bool-cases, inl, inr,
  Returns, bind-Returns, Returns_at, Run,
}
use mathlib.Core.Path.{subst, sym}
use platform_hardware_qcom_d.DisplayBase.Validated.{on_comp-KeepsFlag}
use platform_hardware_qcom_d.Base.Float.{Float}
use platform_hardware_qcom_d.Types.{DisplayError, is_ok}
use platform_hardware_qcom_d.Strategy.{Extension, Frame}
use platform_hardware_qcom_d.CompManager.{ResourceInterface, CompManager}
use platform_hardware_qcom_d.CompManager.Frames
use platform_hardware_qcom_d.CompManager.Attempts.{remaining, prepare-remaining}
use platform_hardware_qcom_d.DisplayBase.{Device, Session, on_comp, on_device, members, set_members}
use platform_hardware_qcom_d.DisplayBase.Protocol.{set_frame, validate_loop, is_shut_down}

below : (a b c : ℕ) → a < b → b < suc c → a < c
below a b c h k = omega arith

module _ {F R X H : Type 0} where
  -- What holds of a call of the composition manager holds of it in a session, whose display stays.
  on_comp-Returns :
      {A : Type 0} (P : A → CompManager R X → Type 0) (call : Run (CompManager R X) A)
      (s : Session F R X H)
      → Returns (call s.comp) P
      → Returns (on_comp call s) (λ a t. (t.display ≡ s.display) × P a t.comp)
  unfolding on_comp
  on_comp-Returns P call s h = elim (Option-cases (call s.comp)) [
    | inl e ↦ rw (e, Returns) tt
    | inr ((a, comp), e) ↦ rw (e, Returns) (refl, Returns_at P (call s.comp) a comp e h)
  ]

module _ {F R X H : Type 0} ⦃fl : Float F⦄ (ri : ResourceInterface F R) (ext : Extension F X)
    (device : Device F H) where
  -- The loop of Prepare does not run out of fuel that exceeds the number of strategies which the
  -- display has left, whatever the device says of each frame; a call may fault.
  pub validate_loop-ends :
      (fuel : ℕ) (s : Session F R X H)
      → remaining s.display.display_comp_ctx s.comp < fuel
      → Returns (validate_loop ri ext device fuel s) (λ o t. o ≢ none)
  unfolding validate_loop members set_members set_frame on_device
  validate_loop-ends zero s h = absurd (omega arith)
  validate_loop-ends (suc fuel) s h =
      let call = Frames.prepare ri ext s.display.display_comp_ctx s.display.hw_layers in
      let P : (DisplayError × Frame F) → CompManager R X → Type 0 = λ a t.
        is_ok a.0 ≡ true
        → remaining s.display.display_comp_ctx t < remaining s.display.display_comp_ctx s.comp in
      bind-Returns (λ a t. (t.display ≡ s.display) × P a t.comp) _ (on_comp call s) _
        (on_comp-Returns P call s
          (prepare-remaining ri ext s.display.display_comp_ctx s.display.hw_layers s.comp))
        (λ (error, frame) t (kept, fewer). elim (Bool-cases (is_ok error)) [
          | inr bad ↦ rw (bad, Returns) (λ x. cc)
          | inl ok ↦
              rw (ok, Returns)
                (elim (Bool-cases (is_ok (device.validate frame t.device).0.0)) [
                  | inl fine ↦ rw (fine, Returns) (λ x. cc)
                  | inr refused ↦
                      rw (refused, Returns)
                        (elim (Bool-cases (is_shut_down (device.validate frame t.device).0.0)) [
                          | inl down ↦
                              rw (down, Returns)
                                (let last = Frames.post_prepare ri ext s.display.display_comp_ctx in
                                  let u = record t {
                                    display = record t.display {
                                      hw_layers = (device.validate frame t.device).0.1;
                                    };
                                    device = (device.validate frame t.device).1;
                                  } in
                                  bind-Returns (λ a v. v.display ≡ u.display) _ (on_comp last u) _
                                    (on_comp-KeepsFlag last u) (λ a v same x. cc))
                          | inr again ↦
                              rw (again, Returns)
                                (validate_loop-ends fuel
                                  (record t {
                                    display = record t.display {
                                      hw_layers = (device.validate frame t.device).0.1;
                                    };
                                    device = (device.validate frame t.device).1;
                                  })
                                  (subst (λ c. remaining c t.comp < fuel)
                                    (sym (ap (λ d. d.display_comp_ctx) kept))
                                    (below _ _ fuel (fewer ok) h)))
                        ])
                ])
        ])
