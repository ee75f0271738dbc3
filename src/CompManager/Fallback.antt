-- ===== src/CompManager/Fallback.antt =====
-- Prepare of comp_manager.cpp over the default resource manager, for a display whose strategy falls
-- back to the GPU.
use platform_hardware_qcom_d.Base.{
  ℕ, ◌≡◌, ◌≢◌, ◌≤◌, ◌<◌, refl, sym, ap, ◌∙◌, Bool, true, false, none, some, List, [], ◌∷◌, ◌++◌,
  length, arith, Option-cases, Bool-cases, inl, inr,
}
use platform_hardware_qcom_d.Base.Float.{Float}
use platform_hardware_qcom_d.Types.{
  DisplayError, error_none, error_undefined, is_ok, HwResourceInfo, HwLayers,
}
use platform_hardware_qcom_d.Resource.{ResourceDefault}
use platform_hardware_qcom_d.Resource.Prepare
use platform_hardware_qcom_d.Resource.Display.{start, stop}
use platform_hardware_qcom_d.Resource.Init.{init}
use platform_hardware_qcom_d.Resource.Calls.{Calls, then, starts}
use platform_hardware_qcom_d.Resource.Total.{prepare_total}
use platform_hardware_qcom_d.Strategy.{
  Strategy, StrategyConstraints, Extension, Frame, gpu_fallback, get_next_strategy,
}
use platform_hardware_qcom_d.Strategy.Fallback.{gpu_fallback-composed}
use platform_hardware_qcom_d.CompManager.{
  CompManager, DisplayCompositionContext, on_resource, display, locked_run, update_heap,
}
use platform_hardware_qcom_d.CompManager.Frames.{
  prepare_loop, try_strategies, constrain, prepare, strategy_constraints,
}
use platform_hardware_qcom_d.CompManager.Default.{default_resource}

snoc-ne-nil : {A : Type 0} (xs : List A) (x : A) → xs ++ (x ∷ []) ≢ []
snoc-ne-nil [] x = λ e. cc
snoc-ne-nil (y ∷ xs) x = λ e. cc

module _ {F X : Type 0} ⦃fl : Float F⦄ (ext : Extension F X) where
  -- One strategy that falls back: the loop is the resource manager's answer to the composed frame.
  loop_once :
      (ctx : ℕ) (k : StrategyConstraints) (st : Strategy X) (f g : Frame F) (r r' : ResourceDefault)
      (e : DisplayError) (hw' : HwLayers F)
      → st.extn_start_success ≡ false
      → st.disable_gpu_comp ≡ false
      → gpu_fallback st f ≡ some g
      → Prepare.prepare ctx g.hw r ≡ some ((e, hw'), r')
      → prepare_loop default_resource ext ctx k 1 error_undefined st f r
        ≡ some (record {
          error = e;
          remaining = 0;
          strategy = st;
          frame = record g { hw = hw' };
          resource = r';
        })
  unfolding prepare_loop get_next_strategy default_resource
  loop_once ctx k st f g r r' e hw' off gpu composed answered = elim (Bool-cases (is_ok e)) [
    | inl ok ↦ ground arith
    | inr failed ↦ ground arith
  ]

  tried_once :
      (h : ℕ) (c : DisplayCompositionContext X) (st : Strategy X) (f g : Frame F)
      (s : CompManager ResourceDefault X) (r' : ResourceDefault) (e : DisplayError)
      (hw' : HwLayers F)
      → c.remaining_strategies ≡ 1
      → st.extn_start_success ≡ false
      → st.disable_gpu_comp ≡ false
      → gpu_fallback st f ≡ some g
      → Prepare.prepare c.display_resource_ctx g.hw s.resource ≡ some ((e, hw'), r')
      → try_strategies default_resource ext h c st f s
        ≡ some (
          (e, record g { hw = hw' }),
          record s {
            resource = r';
            contexts =
                update_heap s.contexts h
                  (some (record c { strategy = some st; remaining_strategies = 0 }));
          },
        )
  unfolding try_strategies
  tried_once h c st f g s r' e hw' one off gpu composed answered =
      let looped =
        ap
          (λ n.
            prepare_loop default_resource ext c.display_resource_ctx c.constraints n error_undefined
              st f s.resource)
          one
        ∙ loop_once c.display_resource_ctx c.constraints st f g s.resource r' e hw' off gpu composed
            answered in
      ground arith

  -- Prepare over the default resource manager, on a display that both managers know, whose
  -- strategy falls back to the GPU and has its one attempt left, and on a frame whose GPU target
  -- stands in the layer stack behind the application layers: it returns, an error included, with
  -- both locks free and no attempt left.
  pub prepare-returns :
      (v : Bool) (info : HwResourceInfo) (r : ResourceDefault) (s : CompManager ResourceDefault X)
      (h : ℕ) (c : DisplayCompositionContext X) (st : Strategy X) (f : Frame F)
      → init v info ≡ some (error_none, r)
      → Calls fl r s.resource
      → s.locked ≡ false
      → s.resource.locked ≡ false
      → s.contexts h ≡ some c
      → s.resource.contexts c.display_resource_ctx ≢ none
      → c.strategy ≡ some st
      → c.remaining_strategies ≡ 1
      → st.extn_start_success ≡ false
      → st.disable_gpu_comp ≡ false
      → f.app_layer_count ≤ f.gpu_target_index
      → f.gpu_target_index < length f.stack
      → (e : DisplayError) × (f' : Frame F) × (t : CompManager ResourceDefault X)
        × (c' : DisplayCompositionContext X) × (prepare default_resource ext h f s
            ≡ some ((e, f'), t))
        × (t.locked ≡ false)
        × (t.resource.locked ≡ false)
        × (t.contexts h ≡ some c')
        × (c'.remaining_strategies ≡ 0)
  unfolding prepare locked_run display constrain on_resource default_resource start stop
  prepare-returns v info r s h c st f booted calls free idle known live plan one off gpu behind
        inside =
      let (target, g, _, composed, layers, _, _, _) = gpu_fallback-composed st f behind inside in
      let held : ResourceDefault = record s.resource { locked = true } in
      let some_layer : g.hw.layers ≢ [] = λ e. snoc-ne-nil f.hw.layers _ (sym layers ∙ e) in
      let c₁ : DisplayCompositionContext X = record c {
        constraints = strategy_constraints (record s { locked = true }) c f;
      } in
      elim (Option-cases (Prepare.prepare c.display_resource_ctx g.hw held)) [
        | inl none_left ↦ absurd (
            prepare_total v info c.display_resource_ctx g.hw booted
              (then calls (starts c.display_resource_ctx error_none (ground arith))) live some_layer
              none_left)
        | inr (((e, hw'), r'), answered) ↦
            let tried =
              tried_once h c₁ st f g (record s { locked = true; resource = held }) r' e hw' one off
                gpu composed answered in
            (
              e,
              record g { hw = hw' },
              record s {
                resource = record r' { locked = false };
                contexts =
                    update_heap s.contexts h
                      (some (record c₁ { strategy = some st; remaining_strategies = 0 }));
              },
              record c₁ { strategy = some st; remaining_strategies = 0 },
              ground arith,
              free,
              refl,
              ground arith,
              refl,
            )
      ]
