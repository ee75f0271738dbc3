-- ===== src/CompManager/Registry.antt =====
-- RegisterDisplay and UnregisterDisplay of comp_manager.cpp: the keys of registered_displays_.
use platform_hardware_qcom_d.Base.{ℕ, ◌≡◌, ◌≢◌, ◌∙◌, ap, true, false, none, some, arith}
use platform_hardware_qcom_d.Types.{DisplayError, type_code}
use platform_hardware_qcom_d.CompManager.{
  ResourceInterface, CompManager, DisplayCompositionContext, contains, erase, locked_run, display,
  on_resource,
}
use platform_hardware_qcom_d.CompManager.Displays.{unregister_display, drop_display}
use platform_hardware_qcom_d.CompManager.Keys.{contains-erase_ne, contains-erase_self}

module _ {F R X : Type 0} (ri : ResourceInterface F R) where
  -- UnregisterDisplay of a live display, where it returns, takes the display's id out of the
  -- displays that are on and that are configured; but a display's key in registered_displays_ is
  -- its type, and that key stays where the id is another number.
  pub unregister_display-stale :
      (h : ℕ) (s t : CompManager R X) (c : DisplayCompositionContext X) (e : DisplayError)
      → h ≢ 0
      → s.contexts h ≡ some c
      → type_code c.display_type ≢ c.display_id
      → contains (type_code c.display_type) s.registered_displays ≡ true
      → unregister_display ri h s ≡ some (e, t)
      → (contains c.display_id t.powered_on_displays ≡ false)
        × (contains c.display_id t.configured_displays ≡ false)
        × (t.contexts h ≡ none)
        × (contains (type_code c.display_type) t.registered_displays ≡ true)
  unfolding unregister_display drop_display locked_run display on_resource
  unregister_display-stale h s t c e live known apart listed done =
      let on : t.powered_on_displays ≡ erase c.display_id s.powered_on_displays = ground arith in
      let configured : t.configured_displays ≡ erase c.display_id s.configured_displays =
        ground arith in
      let registered : t.registered_displays ≡ erase c.display_id s.registered_displays =
        ground arith in
      (
        ap (contains c.display_id) on ∙ contains-erase_self c.display_id s.powered_on_displays,
        ap (contains c.display_id) configured
            ∙ contains-erase_self c.display_id s.configured_displays,
        ground arith,
        ap (contains (type_code c.display_type)) registered
            ∙ (contains-erase_ne (type_code c.display_type) c.display_id s.registered_displays apart
                ∙ listed),
      )
