-- ===== src/DisplayBase/Validated.antt =====
-- display_base.cpp: the flag needs_validate_ between Prepare and Commit.
use platform_hardware_qcom_d.Base.{
  ◌%◌, ◌^◌, ℕ, zero, suc, Bool, true, false, not, ◌&&◌, ◌||◌, Run, pure, ◌>>◌, Option, none, some,
  Returns, bind-Returns, Returns_at, ◌≡◌, refl, sym, ap, ◌∙◌, Bool-cases, Option-cases, inl, inr,
  List, [], map, ◌∷◌, ◌==◌,
}
use platform_hardware_qcom_d.Base.Float.{Float}
use platform_hardware_qcom_d.Types.{DisplayError, error_none, error_not_validated, is_ok}
use platform_hardware_qcom_d.Strategy.{Extension}
use platform_hardware_qcom_d.CompManager.{ResourceInterface, CompManager}
use platform_hardware_qcom_d.CompManager.Frames
use platform_hardware_qcom_d.CompManager.Power
use platform_hardware_qcom_d.DisplayBase.{
  Device, Display, Session, on_comp, on_device, members, set_members,
}
use platform_hardware_qcom_d.DisplayBase.States.{disable_partial_update_one_frame}
use platform_hardware_qcom_d.DisplayBase.Protocol.{
  LayerStack, ClientLayer, set_frame, checked, handle_hdr, validate_hdr, build_layer_stack_stats,
  validate_loop, set_hdr_mode, needs_hdr_handling, count_layers, validate_gpu_target_params,
  is_gpu_target, is_shut_down, needs_gpu_fallback,
}
use platform_hardware_qcom_d.DisplayBase.Cycle.{
  update_partial_update, post_validate, finish_prepare, validate_frame, prepare_stack, prepare,
  commit,
}

and_true-left : (a b : Bool) → (a && b) ≡ true → a ≡ true
and_true-left false b h = h
and_true-left true b h = refl

count_layers-needs_validate :
    {F : Type 0} (ls : List (ClientLayer F)) (d : Display F)
    → (count_layers ls d).needs_validate ≡ d.needs_validate
unfolding count_layers
count_layers-needs_validate [] d = refl
count_layers-needs_validate (l ∷ rest) d =
    let counted = record d {
      hw_layers = record d.hw_layers { app_layer_count = suc d.hw_layers.app_layer_count % 2 ^ 32 };
      gpu_fallback = d.gpu_fallback || needs_gpu_fallback l;
    } in
    let ih = count_layers-needs_validate rest counted in
    elim (Bool-cases (is_gpu_target l.layer.composition)) [
      | inl e ↦ rw (e) refl
      | inr e ↦ rw (e) ih
    ]

disable-needs_validate :
    {F : Type 0} (b : Bool) (d : Display F)
    → (elim b as (λ _. Display F) [
      | true ↦ disable_partial_update_one_frame d
      | false ↦ d
    ]).needs_validate
      ≡ d.needs_validate
unfolding disable_partial_update_one_frame
disable-needs_validate true d = refl
disable-needs_validate false d = refl

module _ {F R X H : Type 0} where
  -- The run leaves the flag as it is.
  abbrev KeepsFlag : {A : Type 0} → Bool → Option (A × Session F R X H) → Type 0
  KeepsFlag flag r = Returns r (λ a t. t.display.needs_validate ≡ flag)

  pub on_comp-KeepsFlag :
      {A : Type 0} (call : Run (CompManager R X) A) (s : Session F R X H)
      → Returns (on_comp call s) (λ a t. t.display ≡ s.display)
  unfolding on_comp
  on_comp-KeepsFlag call s = elim (Option-cases (call s.comp)) [
    | inl e ↦ rw (e, Returns) tt
    | inr ((a, comp), e) ↦ rw (e, Returns) refl
  ]

  build-KeepsFlag :
      ⦃fl : Float F⦄ (stack : LayerStack F) (s : Session F R X H)
      → KeepsFlag s.display.needs_validate (build_layer_stack_stats stack s)
  unfolding build_layer_stack_stats members set_members checked
  build-KeepsFlag stack s =
      let counted = count_layers stack.layers (record s.display {
        hw_layers = record s.display.hw_layers { stack = map (λ l. l.layer) stack.layers };
      }) in
      let kept = count_layers-needs_validate stack.layers _ in
      elim (Bool-cases (counted.hw_layers.app_layer_count == 0)) [
        | inl e ↦ rw (e, Returns) kept
        | inr e ↦
            rw (e, Returns)
              (elim (Bool-cases (counted.hw_layers.gpu_target_index == 0)) [
                | inl g ↦ rw (g, Returns) kept
                | inr g ↦
                    rw (g, Returns)
                      (elim (Option-cases (validate_gpu_target_params counted)) [
                        | inl v ↦ rw (v, Returns) tt
                        | inr (error, v) ↦ rw (v, Returns) kept
                      ])
              ])
      ]

  set_hdr_mode-KeepsFlag :
      (device : Device F H) (on : Bool) (s : Session F R X H)
      → KeepsFlag s.display.needs_validate (set_hdr_mode device on s)
  unfolding set_hdr_mode members set_members on_device
  set_hdr_mode-KeepsFlag device on s =
      elim (Bool-cases (s.display.has_color_mgr && not s.display.disable_hdr_lut_gen)) [
        | inl e ↦ rw (e, Returns) refl
        | inr e ↦ rw (e, Returns) refl
      ]

  handle_hdr-KeepsFlag :
      (device : Device F H) (stack : LayerStack F) (s : Session F R X H)
      → KeepsFlag s.display.needs_validate (handle_hdr device stack s)
  unfolding handle_hdr members set_members
  handle_hdr-KeepsFlag device stack s = elim (Bool-cases (needs_hdr_handling s.display)) [
    | inr n ↦ rw (n, Returns) refl
    | inl n ↦
        rw (n, Returns)
          (elim (Bool-cases stack.hdr_present) [
            | inr p ↦
                rw (p, Returns)
                  (elim (Bool-cases s.display.hdr_playback) [
                    | inr b ↦ rw (b, Returns) refl
                    | inl b ↦
                        rw (b, Returns)
                          (elim (Bool-cases s.display.hdr_mode) [
                            | inl m ↦ rw (m, Returns) (set_hdr_mode-KeepsFlag device false _)
                            | inr m ↦ rw (m, Returns) refl
                          ])
                  ])
            | inl p ↦
                rw (p, Returns)
                  (elim (Bool-cases (not s.display.hdr_playback && not stack.animating)) [
                    | inl b ↦ rw (b, Returns) (set_hdr_mode-KeepsFlag device true _)
                    | inr b ↦
                        rw (b, Returns)
                          (elim (Bool-cases (s.display.hdr_playback && not s.display.hdr_mode)) [
                            | inl m ↦ rw (m, Returns) (set_hdr_mode-KeepsFlag device true s)
                            | inr m ↦ rw (m, Returns) refl
                          ])
                  ])
          ])
  ]

  -- ValidateHDR keeps the flag and gives NONE.
  validate_hdr-KeepsFlag :
      (device : Device F H) (stack : LayerStack F) (s : Session F R X H)
      → Returns
          (validate_hdr device stack s)
          (λ e t. (t.display.needs_validate ≡ s.display.needs_validate) × (e ≡ error_none))
  unfolding validate_hdr members
  validate_hdr-KeepsFlag device stack s =
      elim (Bool-cases
        (needs_hdr_handling s.display && s.display.hdr_playback && not stack.bt2020_blending)) [
          | inr n ↦ rw (n, Returns) (refl, refl)
          | inl n ↦
              rw (n, Returns)
                (bind-Returns _ _ (set_hdr_mode device false s) (λ error. pure error_none)
                  (set_hdr_mode-KeepsFlag device false s) (λ error t h. (h, refl)))
        ]

  partial_update_tail-KeepsFlag :
      (t : Session F R X H) {flag : Bool}
      → t.display.needs_validate ≡ flag
      → KeepsFlag flag (
          (elim (not t.display.partial_update_control
                || t.display.disable_pu_one_frame
                || t.display.disable_pu_on_dest_scaler)
              as (λ _. Run (Session F R X H) (Unit {0})) [
                | false ↦ pure tt
                | true ↦
                    on_comp (Power.control_partial_update t.display.display_comp_ctx false)
                    >> set_members (record t.display { disable_pu_one_frame = false })
              ])
            t)
  unfolding set_members
  partial_update_tail-KeepsFlag t kept =
      elim (Bool-cases (
        not t.display.partial_update_control
        || t.display.disable_pu_one_frame
        || t.display.disable_pu_on_dest_scaler)) [
          | inr n ↦ rw (n, Returns) kept
          | inl n ↦
              rw (n, Returns)
                (bind-Returns _ _
                  (on_comp (Power.control_partial_update t.display.display_comp_ctx false) t) _
                  (on_comp-KeepsFlag (Power.control_partial_update t.display.display_comp_ctx false)
                    t)
                  (λ a u h. kept))
        ]

  partial_update-KeepsFlag :
      (device : Device F H) (s : Session F R X H)
      → KeepsFlag s.display.needs_validate (update_partial_update device s)
  unfolding update_partial_update members set_members on_device
  partial_update-KeepsFlag device s = elim (Bool-cases s.display.has_color_mgr) [
    | inr c ↦ rw (c, Returns) (partial_update_tail-KeepsFlag s refl)
    | inl c ↦
        rw (c, Returns)
          (let asked = device.needs_partial_update_disable s.device in
            partial_update_tail-KeepsFlag
              (record s {
                display = elim asked.0 as (λ _. Display F) [
                  | true ↦ disable_partial_update_one_frame s.display
                  | false ↦ s.display
                ];
                device = asked.1;
              })
              (disable-needs_validate asked.0 s.display))
  ]

module _ {F R X H : Type 0} ⦃fl : Float F⦄ (ri : ResourceInterface F R) (ext : Extension F X)
    (device : Device F H) where
  -- Whether an outcome of the loop has the error NONE.
  abbrev validated : Option (DisplayError × Bool) → Bool
  validated none = false
  validated (some (error, returned)) = is_ok error

  -- The flag is set exactly where the error is not NONE; nothing is said where the fuel runs out.
  abbrev Settled : Option DisplayError → Bool → Type 0
  Settled none flag = Unit {0}
  Settled (some error) flag = flag ≡ not (is_ok error)

  loop-needs_validate :
      (fuel : ℕ) (s : Session F R X H)
      → s.display.needs_validate ≡ true
      → Returns
          (validate_loop ri ext device fuel s)
          (λ o t. t.display.needs_validate ≡ not (validated o))
  unfolding validate_loop members set_members set_frame on_device
  loop-needs_validate zero s h = h
  loop-needs_validate (suc fuel) s h =
      bind-Returns (λ a t. t.display ≡ s.display) _
        (on_comp (Frames.prepare ri ext s.display.display_comp_ctx s.display.hw_layers) s) _
        (on_comp-KeepsFlag (Frames.prepare ri ext s.display.display_comp_ctx s.display.hw_layers) s)
        (λ (error, frame) t kept.
          let flag = ap (λ d. d.needs_validate) kept ∙ h in
          elim (Bool-cases (is_ok error)) [
            | inr bad ↦ rw (bad, Returns) (flag ∙ sym (ap not bad))
            | inl ok ↦
                rw (ok, Returns)
                  (elim (Bool-cases (is_ok (device.validate frame t.device).0.0)) [
                    | inl fine ↦ rw (fine, Returns) (ap not (sym fine))
                    | inr refused ↦
                        rw (refused, Returns)
                          (elim (Bool-cases (is_shut_down (device.validate frame t.device).0.0)) [
                            | inl down ↦
                                rw (down, Returns)
                                  (let u = record t {
                                    display = record t.display {
                                      hw_layers = (device.validate frame t.device).0.1;
                                    };
                                    device = (device.validate frame t.device).1;
                                  } in
                                    let call =
                                      Frames.post_prepare ri ext s.display.display_comp_ctx in
                                    bind-Returns (λ a v. v.display ≡ u.display) _ (on_comp call u) _
                                      (on_comp-KeepsFlag call u)
                                      (λ last v same.
                                        ap (λ d. d.needs_validate) same
                                        ∙ flag
                                        ∙ sym (ap not refused)))
                            | inr again ↦ rw (again, Returns) (loop-needs_validate fuel _ flag)
                          ])
                  ])
          ])

  post_validate-needs_validate :
      (ctx : ℕ) (o : Option (DisplayError × Bool)) (s : Session F R X H)
      → s.display.needs_validate ≡ not (validated o)
      → Returns
          (post_validate ri ext device ctx o s)
          (λ o t. t.display.needs_validate ≡ not (validated o))
  unfolding post_validate
  post_validate-needs_validate ctx none s h = h
  post_validate-needs_validate ctx (some (error, true)) s h = h
  post_validate-needs_validate ctx (some (error, false)) s h =
      let call = Frames.post_prepare ri ext ctx in
      bind-Returns (λ a t. t.display ≡ s.display) _ (on_comp call s) _ (on_comp-KeepsFlag call s)
        (λ last t same. ap (λ d. d.needs_validate) same ∙ h)

  validate_frame-needs_validate :
      (fuel : ℕ) (s : Session F R X H)
      → s.display.needs_validate ≡ true
      → Returns
          (validate_frame ri ext device fuel s)
          (λ o t. t.display.needs_validate ≡ not (validated o))
  unfolding validate_frame members set_members set_frame
  validate_frame-needs_validate fuel s h =
      let call = Frames.pre_prepare ext s.display.display_comp_ctx s.display.hw_layers in
      bind-Returns (λ a t. t.display ≡ s.display) _ (on_comp call s) _ (on_comp-KeepsFlag call s)
        (λ frame t kept.
          let u = record t { display = record t.display { hw_layers = frame } } in
          bind-Returns (λ o v. v.display.needs_validate ≡ not (validated o)) _
            (validate_loop ri ext device fuel u) _
            (loop-needs_validate fuel u (ap (λ d. d.needs_validate) kept ∙ h))
            (λ o v k. post_validate-needs_validate s.display.display_comp_ctx o v k))

  finish_prepare-Settled :
      (stack : LayerStack F) (o : Option (DisplayError × Bool)) (s : Session F R X H)
      → s.display.needs_validate ≡ not (validated o)
      → Returns (finish_prepare ri ext device stack o s) (λ e t. Settled e t.display.needs_validate)
  unfolding finish_prepare
  finish_prepare-Settled stack none s h = tt
  finish_prepare-Settled stack (some (error, returned)) s h =
      elim (Bool-cases (is_ok error && not returned)) [
        | inr e ↦ rw (e, Returns) h
        | inl e ↦
            rw (e, Returns)
              (bind-Returns _ _ (validate_hdr device stack s) _
                (validate_hdr-KeepsFlag device stack s)
                (λ last t (kept, ok).
                  kept
                  ∙ h
                  ∙ ap not (and_true-left (is_ok error) (not returned) e)
                  ∙ sym (ap (λ x. not (is_ok x)) ok)))
      ]

  prepare_stack-Settled :
      (fuel : ℕ) (stack : LayerStack F) (s : Session F R X H)
      → s.display.needs_validate ≡ true
      → Returns
          (prepare_stack ri ext device fuel stack s)
          (λ e t. Settled e t.display.needs_validate)
  unfolding prepare_stack
  prepare_stack-Settled fuel stack s h =
      bind-Returns (λ built t. t.display.needs_validate ≡ s.display.needs_validate) _
        (build_layer_stack_stats stack s) _ (build-KeepsFlag stack s)
        (λ built t b. elim (Bool-cases (is_ok built)) [
          | inr e ↦ rw (e, Returns) (b ∙ h ∙ sym (ap not e))
          | inl e ↦
              rw (e, Returns)
                (bind-Returns (λ handled u. u.display.needs_validate ≡ t.display.needs_validate) _
                  (handle_hdr device stack t) _ (handle_hdr-KeepsFlag device stack t)
                  (λ handled u g. elim (Bool-cases (is_ok handled)) [
                    | inr f ↦ rw (f, Returns) (g ∙ b ∙ h ∙ sym (ap not f))
                    | inl f ↦
                        rw (f, Returns)
                          (bind-Returns (λ a v. v.display.needs_validate ≡ u.display.needs_validate)
                            _ (update_partial_update device u) _ (partial_update-KeepsFlag device u)
                            (λ a v k.
                              bind-Returns (λ o w. w.display.needs_validate ≡ not (validated o)) _
                                (validate_frame ri ext device fuel v) _
                                (validate_frame-needs_validate fuel v (k ∙ g ∙ b ∙ h))
                                (λ o w valid. finish_prepare-Settled stack o w valid)))
                  ]))
        ])

  prepare-Settled :
      (fuel : ℕ) (layer_stack : Option (LayerStack F)) (s : Session F R X H)
      → Returns
          (prepare ri ext device fuel layer_stack s)
          (λ e t. Settled e t.display.needs_validate)
  unfolding prepare members set_members
  prepare-Settled fuel none s = elim (Bool-cases s.display.active) [
    | inr idle ↦ rw (idle, Returns) refl
    | inl up ↦ rw (up, Returns) refl
  ]
  prepare-Settled fuel (some stack) s = elim (Bool-cases s.display.active) [
    | inr idle ↦ rw (idle, Returns) refl
    | inl up ↦
        simp (up, Returns)
          (prepare_stack-Settled fuel stack
            (record s {
              display = record s.display {
                active = true;
                needs_validate = true;
                gpu_fallback = false;
              };
            })
            refl)
  ]

  -- Prepare that returns has set needs_validate_ exactly where its error is not NONE, on every path:
  -- an inactive display, a null or an empty layer stack, a failing HDR mode, a refused validation.
  pub prepare-needs_validate :
      (fuel : ℕ) (layer_stack : Option (LayerStack F)) (s : Session F R X H) {error : DisplayError}
      {t : Session F R X H}
      → prepare ri ext device fuel layer_stack s ≡ some (some error, t)
      → t.display.needs_validate ≡ not (is_ok error)
  prepare-needs_validate fuel layer_stack s {error} {t} h =
      Returns_at (λ e u. Settled e u.display.needs_validate) _ (some error) t h
        (prepare-Settled fuel layer_stack s)

  -- A Commit that follows a Prepare with an error gives NOT_VALIDATED, whatever layer stack it has,
  -- and leaves the display, the composition manager and the device as they are, where the display
  -- is active.
  pub commit-prepare :
      (fuel : ℕ) (layer_stack : Option (LayerStack F)) (stack : LayerStack F) (s : Session F R X H)
      {error : DisplayError} {t : Session F R X H}
      → prepare ri ext device fuel layer_stack s ≡ some (some error, t)
      → is_ok error ≡ false
      → t.display.active ≡ true
      → commit ri ext device (some stack) t ≡ some (error_not_validated, t)
  unfolding commit members
  commit-prepare fuel layer_stack stack s {error} {t} h bad up =
      let flag = prepare-needs_validate fuel layer_stack s h ∙ ap not bad in simp (up, flag) refl
