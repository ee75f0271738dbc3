-- ===== src/CompManager/Power.antt =====
-- comp_manager.cpp: power states, idle and thermal events, and the settings of a display.
use platform_hardware_qcom_d.Base.{
  ℕ, Bool, true, false, ◌&&◌, not, if◌then◌else◌, none, some, Run, pure, ◌>>=◌, ◌>>◌, ◌==◌, leb,
  length,
}
use platform_hardware_qcom_d.Base.Int.{ℤ, pos, negsuc}
use platform_hardware_qcom_d.Types.{
  DisplayError, error_none, DisplayState, state_off, state_on, state_doze, state_doze_suspend,
  state_standby, LayerComposition,
}
use platform_hardware_qcom_d.Strategy.{
  Strategy, Extension, set_idle_timeout_ms, set_composition_state,
}
use platform_hardware_qcom_d.CompManager.{
  ResourceInterface, CompManager, reset_scalar_lut, update_sync_handle, insert, erase, locked_run,
  on_resource, display, set_display,
}
use platform_hardware_qcom_d.CompManager.Displays.{max_sde_layers}
use platform_hardware_qcom_d.CompManager.Frames.{purge_display}

-- (state == kStateOff) || (state == kStateDozeSuspend).
unfoldable pub is_inactive : DisplayState → Bool
is_inactive state_off = true
is_inactive state_doze_suspend = true
is_inactive _ = false

-- thermal_level >= kMaxThermalLevel.
abbrev is_hot : ℤ → Bool
is_hot (pos n) = leb 3 n
is_hot (negsuc _) = false

module _ {R X : Type 0} where
  -- UpdateStrategyConstraints.
  unfoldable pub update_strategy_constraints : Bool → Bool → Run (CompManager R X) (Unit {0})
  update_strategy_constraints is_primary disabled s = some (
    tt,
    if not is_primary then s else record s {
      max_sde_builtin_layers =
          if disabled && leb (length s.powered_on_displays) 1 then max_sde_layers else 2;
    },
  )

  -- The tables at the start of SetDisplayState, and in the cases of its switch.
  unfoldable pub enter_state : DisplayState → ℕ → Run (CompManager R X) (Unit {0})
  enter_state state id s =
      some (tt, record s { display_state = λ k. if id == k then some state else s.display_state k })

  unfoldable pub configured_off : ℕ → Run (CompManager R X) (Unit {0})
  configured_off id s = some (tt, record s { configured_displays = erase id s.configured_displays })

  unfoldable pub power_off : ℕ → Run (CompManager R X) (Unit {0})
  power_off id s = some (tt, record s { powered_on_displays = erase id s.powered_on_displays })

  unfoldable pub power_on : ℕ → Run (CompManager R X) (Unit {0})
  power_on id s = some (
    tt,
    record s {
      safe_mode = if length s.powered_on_displays == 0 then s.safe_mode else true;
      powered_on_displays = insert id s.powered_on_displays;
    },
  )

  -- ProcessIdleTimeout.
  unfoldable pub process_idle_timeout : ℕ → Run (CompManager R X) (Unit {0})
  process_idle_timeout h = locked_run (elim (h == 0) [
    | true ↦ pure tt
    | false ↦ do c ← display h; set_display h (record c { idle_fallback = true })
  ])

  -- ProcessThermalEvent.
  unfoldable pub process_thermal_event : ℕ → ℤ → Run (CompManager R X) (Unit {0})
  process_thermal_event h thermal_level =
      locked_run
        (do c ← display h; set_display h (record c { thermal_fallback = is_hot thermal_level }))

  -- ControlPartialUpdate.
  unfoldable pub control_partial_update : ℕ → Bool → Run (CompManager R X) (Unit {0})
  control_partial_update h enable =
      locked_run (do c ← display h; set_display h (record c { pu_enable = enable }))

module _ {F R X : Type 0} (ri : ResourceInterface F R) where
  -- ProcessIdlePowerCollapse.
  unfoldable pub process_idle_power_collapse : ℕ → Run (CompManager R X) (Unit {0})
  process_idle_power_collapse h = locked_run (elim (h == 0) [
    | true ↦ pure tt
    | false ↦ do
      c ← display h
      _ ← on_resource (ri.perform reset_scalar_lut c.display_resource_ctx)
      pure tt
  ])

  -- SetMaxMixerStages.
  unfoldable pub set_max_mixer_stages : ℕ → ℕ → Run (CompManager R X) DisplayError
  set_max_mixer_stages h max_mixer_stages = locked_run (elim (h == 0) [
    | true ↦ pure error_none
    | false ↦ do
      c ← display h
      on_resource (ri.set_max_mixer_stages c.display_resource_ctx max_mixer_stages)
  ])

module _ {F R X : Type 0} (ext : Extension F X) where
  -- SetIdleTimeoutMs and SetCompositionState.
  unfoldable pub set_idle_timeout : ℕ → ℕ → Run (CompManager R X) DisplayError
  set_idle_timeout h active_ms = locked_run (do
    c ← display h
    elim c.strategy [
      | none ↦ λ _. none
      | some st ↦
          let r : DisplayError × Strategy X = set_idle_timeout_ms ext active_ms st in
          do set_display h (record c { strategy = some r.1 }); pure r.0
    ])

  unfoldable pub set_composition : ℕ → LayerComposition → Bool → Run (CompManager R X) DisplayError
  set_composition h type enable = locked_run (do
    c ← display h
    elim c.strategy [
      | none ↦ λ _. none
      | some st ↦
          let r : DisplayError × Strategy X = set_composition_state ext type enable st in
          do set_display h (record c { strategy = some r.1 }); pure r.0
    ])

module _ {F R X : Type 0} (ri : ResourceInterface F R) (ext : Extension F X) where
  -- The switch of SetDisplayState.
  unfoldable pub switch_state : DisplayState → ℕ → ℕ → Run (CompManager R X) (Unit {0})
  switch_state state_off h id = do
    purge_display ri ext h
    configured_off id
    c ← display h
    power_off c.display_id
  switch_state state_on h id = do c ← display h; power_on c.display_id
  switch_state state_doze h id = do c ← display h; power_on c.display_id
  switch_state state_doze_suspend h id = do
    c ← display h
    configured_off c.display_id
    power_off c.display_id
  switch_state state_standby h id = pure tt

  -- SetDisplayState. It takes no lock of its own.
  unfoldable pub set_display_state : DisplayState → ℕ → ℕ → ℤ → Run (CompManager R X) Bool
  set_display_state state h id sync_handle = do
    enter_state state id
    switch_state state h id
    c ← display h
    _ ← on_resource (ri.perform (update_sync_handle sync_handle) c.display_resource_ctx)
    update_strategy_constraints c.is_primary_panel (is_inactive state)
    pure true
