-- ===== src/CompManager/Default.antt =====
-- The composition manager of comp_manager.cpp over the resource manager of resource_default.cpp.
use platform_hardware_qcom_d.Base.{
  ℕ, ◌≡◌, ◌≢◌, refl, Bool, true, false, Option, none, some, [], arith, Option-cases, Bool-cases,
  inl, inr,
}
use platform_hardware_qcom_d.Base.Float.{Float}
use platform_hardware_qcom_d.Types.{DisplayError, error_none, is_ok, HwResourceInfo, HwLayers}
use platform_hardware_qcom_d.Resource.{ResourceDefault}
use platform_hardware_qcom_d.Resource.Prepare.{prepare}
use platform_hardware_qcom_d.Resource.Display.{
  register_display, unregister_display, reconfigure_display, start, stop, post_prepare, commit,
  post_commit, purge, set_max_mixer_stages, perform,
}
use platform_hardware_qcom_d.Resource.Init.{init}
use platform_hardware_qcom_d.Resource.Calls.{Calls, then, starts}
use platform_hardware_qcom_d.Resource.Total.{prepare_total}
use platform_hardware_qcom_d.CompManager.{
  ResourceInterface, CompManager, DisplayCompositionContext, on_resource, display, locked_run,
}
use platform_hardware_qcom_d.CompManager.Frames.{re_configure}

-- The handle that RegisterDisplay writes, where it writes one.
abbrev handle_or_null : DisplayError × Option ℕ → DisplayError × ℕ
handle_or_null (e, none) = (e, 0)
handle_or_null (e, some h) = (e, h)

module _ {F : Type 0} ⦃fl : Float F⦄ where
  -- class ResourceDefault : public ResourceInterface.
  unfoldable pub default_resource : ResourceInterface F ResourceDefault
  default_resource = record {
    register_display = λ id type attributes panel mixer s.
        elim (register_display type attributes mixer s) [
          | none ↦ none
          | some (r, t) ↦ some (handle_or_null r, t)
        ];
    unregister_display = unregister_display;
    reconfigure_display = λ h attributes panel mixer. reconfigure_display h attributes mixer;
    start = start;
    stop = stop;
    prepare = prepare;
    post_prepare = post_prepare;
    commit = commit;
    post_commit = post_commit;
    purge = purge;
    set_max_mixer_stages = set_max_mixer_stages;
    perform = λ command h s. some (perform, s);
  }

  prepare-locked :
      (h : ℕ) (hw : HwLayers F) (s t : ResourceDefault) (r : DisplayError × HwLayers F)
      → prepare h hw s ≡ some (r, t)
      → t.locked ≡ s.locked
  unfolding prepare
  prepare-locked h hw s t r e = ground arith

  -- ReConfigure over the default resource manager, on a display that both managers know and a
  -- frame with a layer, returns with both locks free and always reports success, also where the
  -- resource manager had no pipes for the frame.
  pub re_configure-none :
      {X : Type 0} (v : Bool) (info : HwResourceInfo) (r : ResourceDefault)
      (s : CompManager ResourceDefault X) (h : ℕ) (c : DisplayCompositionContext X)
      (hw : HwLayers F)
      → init v info ≡ some (error_none, r)
      → Calls fl r s.resource
      → s.locked ≡ false
      → s.resource.locked ≡ false
      → s.contexts h ≡ some c
      → s.resource.contexts c.display_resource_ctx ≢ none
      → hw.layers ≢ []
      → (hw' : HwLayers F) × (t : CompManager ResourceDefault X) × (re_configure default_resource h
            hw s
          ≡ some ((error_none, hw'), t))
        × (t.locked ≡ false)
        × (t.resource.locked ≡ false)
  unfolding re_configure default_resource start stop post_prepare locked_run on_resource display
  re_configure-none v info r s h c hw booted calls free idle known live some_layer =
      elim (Option-cases
        (prepare c.display_resource_ctx hw (record s.resource { locked = true }))) [
          | inl f ↦ absurd (
              prepare_total v info c.display_resource_ctx hw booted
                (then calls (starts c.display_resource_ctx error_none (ground arith))) live
                some_layer f)
          | inr (((e, hw'), t), f) ↦ elim (Bool-cases (is_ok e)) [
            | inl ok ↦ (
              hw',
              record s { resource = record t { locked = false }; locked = false },
              ground arith,
              refl,
              refl,
            )
            | inr failed ↦ (
              hw',
              record s { resource = record t { locked = false }; locked = false },
              ground arith,
              refl,
              refl,
            )
          ]
        ]
