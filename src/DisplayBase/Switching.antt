-- ===== src/DisplayBase/Switching.antt =====
-- display_base.cpp: what SetDisplayState leaves of the power state.
use platform_hardware_qcom_d.Base.{
  ℕ, Bool, true, false, not, Returns, bind-Returns, Returns_at, ◌≡◌, refl, sym, ap, ◌∙◌, Bool-cases,
  inl, inr, some, ==_iff, [], zero, suc,
}
use platform_hardware_qcom_d.Base.Int.{ℤ}
use platform_hardware_qcom_d.Types.{
  DisplayError, is_ok, DisplayType, DisplayState, state_off, state_on, state_doze,
  state_doze_suspend, state_standby,
}
use platform_hardware_qcom_d.Strategy.{Extension}
use platform_hardware_qcom_d.CompManager.{ResourceInterface}
use platform_hardware_qcom_d.CompManager.Displays.{reconfigure_display}
use platform_hardware_qcom_d.CompManager.Power
use platform_hardware_qcom_d.DisplayBase.{Device, Session, on_comp, on_device, members, set_members}
use platform_hardware_qcom_d.DisplayBase.States.{
  state_code, state_eq, is_builtin, disable_partial_update_one_frame, Switched, clear_hw_layers,
  set_last_power_mode, flush_device, switch_power, set_display_state,
}
use platform_hardware_qcom_d.DisplayBase.Validated.{on_comp-KeepsFlag}

-- Whether a display in a state takes frames.
unfoldable pub is_lit : DisplayState → DisplayType → Bool
is_lit state_off type = false
is_lit state_on type = true
is_lit state_doze type = true
is_lit state_doze_suspend type = not (is_builtin type)
is_lit state_standby type = false

abbrev state_of : ℕ → DisplayState
state_of zero = state_off
state_of (suc zero) = state_on
state_of (suc (suc zero)) = state_doze
state_of (suc (suc (suc zero))) = state_doze_suspend
state_of _ = state_standby

state_of-state_code : (x : DisplayState) → state_of (state_code x) ≡ x
state_of-state_code state_off = refl
state_of-state_code state_on = refl
state_of-state_code state_doze = refl
state_of-state_code state_doze_suspend = refl
state_of-state_code state_standby = refl

state_eq-eq : (a b : DisplayState) → state_eq a b ≡ true → a ≡ b
unfolding state_eq
state_eq-eq a b h =
    sym (state_of-state_code a)
    ∙ ap state_of ((==_iff (state_code a) (state_code b)).0 h)
    ∙ state_of-state_code b

module _ {F R X H : Type 0} (ri : ResourceInterface F R) (ext : Extension F X)
    (device : Device F H) where
  -- What the switch leaves of the members, and what it says.
  abbrev Kept : DisplayState → Session F R X H → Switched → Session F R X H → Type 0
  Kept state s r t =
      (t.display.state ≡ s.display.state)
      × (t.display.active ≡ s.display.active)
      × (t.display.display_type ≡ s.display.display_type)
      × (r.returned ≡ true → is_ok r.error ≡ false)
      × (is_ok r.error ≡ true → r.active ≡ is_lit state s.display.display_type)

  switch_power-Kept :
      (state : DisplayState) (fence : ℤ) (s : Session F R X H)
      → Returns (switch_power ri ext device state fence s) (Kept state s)
  unfolding switch_power members set_members on_device clear_hw_layers set_last_power_mode
      flush_device is_lit
  switch_power-Kept state_off fence s =
      let cleared = record s.display.hw_layers {
        hw = record s.display.hw_layers.hw { layers = [] };
      } in
      elim (Bool-cases (is_ok (device.flush cleared s.device).0.0)) [
        | inl e ↦ rw (e, Returns) (refl, refl, refl, λ x. absurd (cc), λ x. refl)
        | inr e ↦ rw (e, Returns) (refl, refl, refl, λ x. absurd (cc), λ x. refl)
      ]
  switch_power-Kept state_on fence s =
      elim (Bool-cases (is_ok (device.power_on fence s.device).0.0)) [
        | inr e ↦ rw (e, Returns) (refl, refl, refl, λ x. e, λ x. absurd (cc))
        | inl e ↦
            rw (e, Returns)
              (let d = s.display in
                let call =
                  reconfigure_display ri ext d.display_comp_ctx d.display_attributes d.hw_panel_info
                    d.mixer_attributes d.fb_config in
                let u = record s { device = (device.power_on fence s.device).1 } in
                bind-Returns (λ a t. t.display ≡ s.display) _ (on_comp call u) _
                  (on_comp-KeepsFlag call u)
                  (λ resized t kept. elim (Bool-cases (is_ok resized)) [
                    | inr f ↦
                        rw (f, Returns)
                          (
                            ap (λ d. d.state) kept,
                            ap (λ d. d.active) kept,
                            ap (λ d. d.display_type) kept,
                            λ x. f,
                            λ x. absurd (cc),
                          )
                    | inl f ↦
                        rw (f, Returns)
                          (
                            ap (λ d. d.state) kept,
                            ap (λ d. d.active) kept,
                            ap (λ d. d.display_type) kept,
                            λ x. absurd (cc),
                            λ x. refl,
                          )
                  ]))
      ]
  switch_power-Kept state_doze fence s = (refl, refl, refl, λ e. absurd (cc), λ e. refl)
  switch_power-Kept state_doze_suspend fence s = (refl, refl, refl, λ e. absurd (cc), λ e. refl)
  switch_power-Kept state_standby fence s = (refl, refl, refl, λ e. absurd (cc), λ e. refl)

  -- The power state after a request for `state`, by its error.
  abbrev pub Outcome : DisplayState → Session F R X H → DisplayError → Session F R X H → Type 0
  Outcome state s error t =
      (is_ok error ≡ true → t.display.state ≡ state)
      × (is_ok error ≡ true
          → state_eq state s.display.state ≡ false
          → t.display.active ≡ is_lit state s.display.display_type)
      × (is_ok error ≡ false
          → (t.display.state ≡ s.display.state) × (t.display.active ≡ s.display.active))

  set_display_state-Returns :
      (state : DisplayState) (fence : ℤ) (s : Session F R X H)
      → Returns
          (set_display_state ri ext device state fence s)
          (λ (error, fence') t. Outcome state s error t)
  unfolding set_display_state members set_members disable_partial_update_one_frame
  set_display_state-Returns state fence s = elim (Bool-cases (state_eq state s.display.state)) [
    | inl same ↦
        rw (same, Returns)
          (λ x. sym (state_eq-eq state s.display.state same), λ x y. absurd (cc), λ x. (refl, refl))
    | inr other ↦
        rw (other, Returns)
          (bind-Returns (Kept state s) _ (switch_power ri ext device state fence s) _
            (switch_power-Kept state fence s)
            (λ r t (kept, active, type, failed, lit). elim (Bool-cases r.returned) [
              | inl e ↦
                  rw (e, Returns)
                    (let bad = failed e in
                      (λ x. absurd (cc), λ x y. absurd (cc), λ x. (kept, active)))
              | inr e ↦
                  rw (e, Returns)
                    (elim (Bool-cases (is_ok r.error)) [
                      | inr f ↦
                          rw (f, Returns)
                            (λ x. absurd (cc), λ x y. absurd (cc), λ x. (kept, active))
                      | inl f ↦
                          rw (f, Returns)
                            (let u = record t {
                              display = record (disable_partial_update_one_frame t.display) {
                                active = r.active;
                                state = state;
                              };
                            } in
                              let call =
                                Power.set_display_state ri ext state t.display.display_comp_ctx
                                  t.display.display_id r.fence in
                              bind-Returns (λ a v. v.display ≡ u.display) _ (on_comp call u) _
                                (on_comp-KeepsFlag call u)
                                (λ told v same. (
                                  λ x. ap (λ d. d.state) same,
                                  λ x y. ap (λ d. d.active) same ∙ lit f,
                                  λ x. absurd (cc),
                                )))
                    ])
            ]))
  ]

  -- SetDisplayState leaves the requested state where its error is NONE, with active_ as the state and
  -- the type of the display want it, unless the display is in that state already. With another error,
  -- from the device or from the composition manager, state_ and active_ are as they were.
  pub set_display_state-Outcome :
      (state : DisplayState) (fence : ℤ) (s : Session F R X H) {error : DisplayError} {fence' : ℤ}
      {t : Session F R X H}
      → set_display_state ri ext device state fence s ≡ some ((error, fence'), t)
      → Outcome state s error t
  set_display_state-Outcome state fence s {error} {fence'} {t} h =
      Returns_at (λ (e, f) u. Outcome state s e u) _ (error, fence') t h
        (set_display_state-Returns state fence s)
