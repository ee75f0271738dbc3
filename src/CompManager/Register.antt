-- ===== src/CompManager/Register.antt =====
-- RegisterDisplay of comp_manager.cpp, on its error paths and on success.
use platform_hardware_qcom_d.Base.{
  ℕ, ◌≡◌, ◌≢◌, refl, ap, ◌∙◌, true, false, some, none, arith, ◌+◌, Option, Option-cases, Bool-cases,
  inl, inr, Returns, Returns_at, bind-Returns,
}
use platform_hardware_qcom_d.Types.{
  DisplayError, is_ok, DisplayType, HwDisplayAttributes, HwPanelInfo, HwMixerAttributes,
  DisplayConfigVariableInfo,
}
use platform_hardware_qcom_d.Strategy.{Strategy, Extension, init}
use platform_hardware_qcom_d.CompManager.{
  ResourceInterface, CompManager, DisplayCompositionContext, get_default_clk, locked_run,
  on_resource, update_heap,
}
use platform_hardware_qcom_d.CompManager.Displays.{
  register_display, register_resources, blank_context, new_context, delete_context,
}

module _ {F R X : Type 0} (ri : ResourceInterface F R) (ext : Extension F X) where
  -- What a failed registration has asked of the resource manager, from its state r to r': nothing,
  -- where the strategy failed; its own failed registration; or a registration, the failed question
  -- for the clock, and the registration's undoing.
  pub data Undone (id : ℕ) (type : DisplayType) (a : HwDisplayAttributes) (p : HwPanelInfo)
      (m : HwMixerAttributes) (e : DisplayError) (r r' : R) : Type 0 where
    strategy_failed : r' ≡ r → Undone id type a p m e r r'
    refused :
        (c : ℕ)
        → ri.register_display id type a p m r ≡ some ((e, c), r')
        → Undone id type a p m e r r'
    unregistered :
        (c : ℕ) (ok undone : DisplayError) (r1 r2 : R)
        → ri.register_display id type a p m r ≡ some ((ok, c), r1)
        → is_ok ok ≡ true
        → ri.perform get_default_clk c r1 ≡ some (e, r2)
        → ri.unregister_display c r2 ≡ some (undone, r')
        → Undone id type a p m e r r'

  -- A context that is made and deleted leaves the others as they were.
  update_heap_twice :
      (f : ℕ → Option (DisplayCompositionContext X)) (h : ℕ) (c : DisplayCompositionContext X)
      → (update_heap (update_heap f h (some c)) h none h ≡ none)
        × ((k : ℕ) → k ≢ h → update_heap (update_heap f h (some c)) h none k ≡ f k)
  update_heap_twice f h c = (ground arith, λ k ne. ground arith)

  -- A registration from the resource manager's part on that fails, for the context at `ctx`.
  abbrev Failed :
      ℕ
      → DisplayType
      → HwDisplayAttributes
      → HwPanelInfo
      → HwMixerAttributes
      → ℕ
      → CompManager R X
      → DisplayError × ℕ
      → CompManager R X
      → Type 0
  Failed id type a p m ctx s (e, h) t =
      is_ok e ≡ false
      → (h ≡ 0)
        × Undone id type a p m e s.resource t.resource
        × (t ≡ record s { resource = t.resource; contexts = update_heap s.contexts ctx none })

  register_resources-Failed :
      (ctx id : ℕ) (type : DisplayType) (a : HwDisplayAttributes) (p : HwPanelInfo)
      (m : HwMixerAttributes) (fb : DisplayConfigVariableInfo) (n : ℕ) (s : CompManager R X)
      → Returns (register_resources ri ext ctx id type a p m fb n s) (Failed id type a p m ctx s)
  unfolding register_resources on_resource delete_context
  register_resources-Failed ctx id type a p m fb n s =
      elim (Option-cases (ri.register_display id type a p m s.resource)) [
        | inl f ↦ rw (f, Returns) tt
        | inr (((e1, c), r1), f) ↦
            rw (f, Returns)
              (elim (Bool-cases (is_ok e1)) [
                | inr bad ↦ rw (bad, Returns) (λ x. (refl, refused c f, refl))
                | inl found ↦
                    rw (found, Returns)
                      (elim (Option-cases (ri.perform get_default_clk c r1)) [
                        | inl g ↦ rw (g, Returns) tt
                        | inr ((clk, r2), g) ↦
                            rw (g, Returns)
                              (elim (Bool-cases (is_ok clk)) [
                                | inl ready ↦
                                    rw (ready, Returns)
                                      (elim (Option-cases (s.contexts ctx)) [
                                        | inl z ↦ rw (z, Returns) tt
                                        | inr (blank, z) ↦ rw (z, Returns) (λ x. absurd (cc))
                                      ])
                                | inr bad ↦
                                    rw (bad, Returns)
                                      (elim (Option-cases (ri.unregister_display c r2)) [
                                        | inl z ↦ rw (z, Returns) tt
                                        | inr ((undone, r3), z) ↦
                                            rw (z, Returns)
                                              (λ x. (
                                                refl,
                                                unregistered c e1 undone r1 r2 f found g z,
                                                refl,
                                              ))
                                      ])
                              ])
                      ])
              ])
      ]

  -- A registration that fails, as a whole.
  abbrev Unchanged :
      ℕ
      → DisplayType
      → HwDisplayAttributes
      → HwPanelInfo
      → HwMixerAttributes
      → CompManager R X
      → DisplayError × ℕ
      → CompManager R X
      → Type 0
  Unchanged id type a p m s (e, h) t =
      is_ok e ≡ false
      → (h ≡ 0)
        × Undone id type a p m e s.resource t.resource
        × (t.contexts s.next_handle ≡ none)
        × ((k : ℕ) → k ≢ s.next_handle → t.contexts k ≡ s.contexts k)
        × (t ≡ record s {
          resource = t.resource;
          contexts = t.contexts;
          next_handle = t.next_handle;
        })

  register_display-Unchanged :
      (id : ℕ) (type : DisplayType) (a : HwDisplayAttributes) (p : HwPanelInfo)
      (m : HwMixerAttributes) (fb : DisplayConfigVariableInfo) (n : ℕ) (fresh : Strategy X)
      (s : CompManager R X)
      → Returns (register_display ri ext id type a p m fb n fresh s) (Unchanged id type a p m s)
  unfolding register_display locked_run new_context delete_context
  register_display-Unchanged id type a p m fb n fresh s = elim (Bool-cases s.locked) [
    | inl held ↦ rw (held, Returns) tt
    | inr idle ↦
        let new = blank_context (init ext fresh).1 in
        let twice = update_heap_twice s.contexts s.next_handle new in
        let made : CompManager R X = record s {
          locked = true;
          contexts = update_heap s.contexts s.next_handle (some new);
          next_handle = s.next_handle + 1;
        } in
        elim (Bool-cases (is_ok (init ext fresh).0)) [
          | inr bad ↦
              rw (idle, bad, Returns) (λ x. (refl, strategy_failed refl, twice.0, twice.1, refl))
          | inl good ↦
              rw (idle, good, Returns)
                (bind-Returns (Failed id type a p m s.next_handle made) _
                  (register_resources ri ext s.next_handle id type a p m fb n made)
                  (λ r t. some (r, record t { locked = false }))
                  (register_resources-Failed s.next_handle id type a p m fb n made)
                  (λ (e, h) t kept x.
                    let (null, undone, left) = kept x in
                    (
                      null,
                      undone,
                      ap (λ q. q.contexts s.next_handle) left ∙ twice.0,
                      λ k ne. ap (λ q. q.contexts k) left ∙ twice.1 k ne,
                      ap {A = CompManager R X}
                          (λ q. record q {
                            locked = false;
                            resource = t.resource;
                            contexts = t.contexts;
                            next_handle = t.next_handle;
                          })
                          left,
                    )))
        ]
  ]

  -- Where RegisterDisplay returns an error, on any of its error paths, the handle that the client
  -- gets is NULL, the new context is deleted and every other one is as it was, nothing else of the
  -- composition manager has changed, and the resource manager has refused the display, or has
  -- registered and unregistered it, or has not been called.
  pub register_display-unchanged :
      (id : ℕ) (type : DisplayType) (a : HwDisplayAttributes) (p : HwPanelInfo)
      (m : HwMixerAttributes) (fb : DisplayConfigVariableInfo) (n : ℕ) (fresh : Strategy X)
      (s t : CompManager R X) (e : DisplayError) (h : ℕ)
      → register_display ri ext id type a p m fb n fresh s ≡ some ((e, h), t)
      → is_ok e ≡ false
      → (h ≡ 0)
        × Undone id type a p m e s.resource t.resource
        × (t.contexts s.next_handle ≡ none)
        × ((k : ℕ) → k ≢ s.next_handle → t.contexts k ≡ s.contexts k)
        × (t ≡ record s {
          resource = t.resource;
          contexts = t.contexts;
          next_handle = t.next_handle;
        })
  register_display-unchanged id type a p m fb n fresh s t e h done failed =
      Returns_at (Unchanged id type a p m s) _ (e, h) t done
        (register_display-Unchanged id type a p m fb n fresh s) failed
