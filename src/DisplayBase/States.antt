-- ===== src/DisplayBase/States.antt =====
-- display_base.cpp: power states, the vsync state, and the settings that go to the composition
-- manager.
use platform_hardware_qcom_d.Base.{
  ℕ, Bool, true, false, not, ◌&&◌, ◌||◌, if◌then◌else◌, ◌==◌, ltb, Run, pure, ◌>>=◌, ◌>>◌, [],
}
use platform_hardware_qcom_d.Base.Int.{ℤ}
use platform_hardware_qcom_d.Types.{
  DisplayError, error_none, error_not_supported, error_permission, is_ok, DisplayType, DisplayState,
  state_off, state_on, state_doze, state_doze_suspend, state_standby, type_code,
}
use platform_hardware_qcom_d.Strategy.{Extension, Frame}
use platform_hardware_qcom_d.CompManager.{ResourceInterface}
use platform_hardware_qcom_d.CompManager.Displays.{reconfigure_display}
use platform_hardware_qcom_d.CompManager.Power
use platform_hardware_qcom_d.CompManager.Frames.{purge_display}
use platform_hardware_qcom_d.DisplayBase.{
  Device, Display, Session, on_comp, on_device, members, set_members,
}

abbrev pub state_code : DisplayState → ℕ
state_code state_off = 0
state_code state_on = 1
state_code state_doze = 2
state_code state_doze_suspend = 3
state_code state_standby = 4

-- == on DisplayState.
unfoldable pub state_eq : DisplayState → DisplayState → Bool
state_eq a b = state_code a == state_code b

abbrev pub is_builtin : DisplayType → Bool
is_builtin type = type_code type == 0

-- DisablePartialUpdateOneFrame, which only a built-in display overrides.
unfoldable pub disable_partial_update_one_frame : {F : Type 0} → Display F → Display F
disable_partial_update_one_frame d = record d {
  disable_pu_one_frame = is_builtin d.display_type || d.disable_pu_one_frame;
}

-- What the switch of SetDisplayState leaves: whether it returned, its error, `active`, and the fence.
pub record Switched : Type 0 where
  pub returned : Bool
  pub error : DisplayError
  pub active : Bool
  pub fence : ℤ

module _ {F R X H : Type 0} where
  -- hw_layers_.info.hw_layers.clear().
  unfoldable pub clear_hw_layers : Run (Session F R X H) (Unit {0})
  unfolding members set_members
  clear_hw_layers = do
    d ← members
    set_members
        (record d { hw_layers = record d.hw_layers { hw = record d.hw_layers.hw { layers = [] } } })

  unfoldable pub set_last_power_mode : DisplayState → Run (Session F R X H) (Unit {0})
  unfolding members set_members
  set_last_power_mode mode = do d ← members; set_members (record d { last_power_mode = mode })

  -- hw_intf_->Flush(&hw_layers_).
  unfoldable pub flush_device : Device F H → Run (Session F R X H) DisplayError
  unfolding members set_members on_device
  flush_device device = do
    d ← members
    (error, frame) ← on_device (device.flush d.hw_layers)
    set_members (record d { hw_layers = frame })
    pure error

module _ {F R X H : Type 0} (ri : ResourceInterface F R) (ext : Extension F X)
    (device : Device F H) where
  -- The switch of SetDisplayState.
  unfoldable pub switch_power : DisplayState → ℤ → Run (Session F R X H) Switched
  unfolding members on_device on_comp clear_hw_layers set_last_power_mode flush_device
  switch_power state_off fence = do
    clear_hw_layers
    error ← flush_device device
    elim (is_ok error) [
      | false ↦ pure (record { returned = false; error = error; active = false; fence = fence })
      | true ↦ do
        off ← on_device device.power_off
        pure (record { returned = false; error = off; active = false; fence = fence })
    ]
  switch_power state_on fence = do
    (error, fence') ← on_device (device.power_on fence)
    elim (is_ok error) [
      | false ↦ pure (record { returned = true; error = error; active = false; fence = fence' })
      | true ↦ do
        d ← members
        resized ← on_comp (
            reconfigure_display ri ext d.display_comp_ctx d.display_attributes d.hw_panel_info
              d.mixer_attributes d.fb_config)
        elim (is_ok resized) [
          | false ↦
              pure (record { returned = true; error = resized; active = false; fence = fence' })
          | true ↦ do
            set_last_power_mode state_on
            pure (record { returned = false; error = error_none; active = true; fence = fence' })
        ]
    ]
  switch_power state_doze fence = do
    (error, fence') ← on_device (device.doze fence)
    set_last_power_mode state_doze
    pure (record { returned = false; error = error; active = true; fence = fence' })
  switch_power state_doze_suspend fence = do
    (error, fence') ← on_device (device.doze_suspend fence)
    d ← members
    set_last_power_mode state_doze_suspend
    pure (record {
      returned = false;
      error = error;
      active = not (is_builtin d.display_type);
      fence = fence';
    })
  switch_power state_standby fence = do
    error ← on_device device.standby
    set_last_power_mode state_standby
    pure (record { returned = false; error = error; active = false; fence = fence })

  -- SetDisplayState: the error and *release_fence.
  unfoldable pub set_display_state : DisplayState → ℤ → Run (Session F R X H) (DisplayError × ℤ)
  unfolding members set_members on_comp switch_power state_eq disable_partial_update_one_frame
  set_display_state state fence = do
    before ← members
    elim (state_eq state before.state) [
      | true ↦ pure (error_none, fence)
      | false ↦ do
        r ← switch_power state fence
        elim r.returned [
          | true ↦ pure (r.error, r.fence)
          | false ↦ do
            d ← members
            elim (is_ok r.error) [
              | false ↦ do set_members (disable_partial_update_one_frame d); pure (r.error, r.fence)
              | true ↦ do
                set_members (record (disable_partial_update_one_frame d) {
                  active = r.active;
                  state = state;
                })
                on_comp
                      (Power.set_display_state ri ext state d.display_comp_ctx d.display_id r.fence)
                    >>= λ told. pure (r.error, r.fence)
            ]
        ]
    ]

  -- Flush, of a layer stack.
  unfoldable pub flush : Frame F → Run (Session F R X H) DisplayError
  unfolding members set_members on_comp flush_device
  flush layer_stack = do
    d ← members
    elim d.active [
      | false ↦ pure error_permission
      | true ↦ do
        set_members (record d {
          hw_layers = record d.hw_layers {
            stack = layer_stack.stack;
            hw = record d.hw_layers.hw { layers = [] };
          };
        })
        error ← flush_device device
        elim (is_ok error) [
          | false ↦ pure error
          | true ↦ do
            now ← members
            on_comp (purge_display ri ext now.display_comp_ctx)
            set_members (record now { needs_validate = true })
            pure error
        ]
    ]

module _ {F R X H : Type 0} (device : Device F H) where
  -- The skew test of SetVSyncState, and the event that replaces an unsupported call.
  unfoldable pub vsync_event : Bool → Run (Session F R X H) DisplayError
  unfolding members set_members on_device
  vsync_event enable = do
    d ← members
    set_members (record d {
      drop_hw_vsync =
          if d.drop_skewed_vsync
            && d.is_video_mode
            && enable
            && ltb d.current_refresh_rate d.max_fps
          then true
          else d.drop_hw_vsync;
    })
    on_device (device.set_vsync_event enable)

  -- SetVSyncState.
  unfoldable pub set_vsync_state : Bool → Run (Session F R X H) DisplayError
  unfolding members set_members on_device vsync_event
  set_vsync_state enable = do
    d ← members
    elim (if d.vsync_enable then enable else not enable) [
      | true ↦ pure error_none
      | false ↦ do
        tried ← on_device (device.set_vsync_state enable)
        error ← elim tried [ error_not_supported ↦ vsync_event enable | other ↦ pure other ]
        elim (is_ok error) [
          | false ↦ pure error
          | true ↦ do now ← members; set_members (record now { vsync_enable = enable }); pure error
        ]
    ]

module _ {F R X H : Type 0} (ri : ResourceInterface F R) where
  -- SetMaxMixerStages.
  unfoldable pub set_max_mixer_stages : ℕ → Run (Session F R X H) DisplayError
  unfolding members set_members on_comp
  set_max_mixer_stages stages = do
    d ← members
    error ← on_comp (Power.set_max_mixer_stages ri d.display_comp_ctx stages)
    elim (is_ok error) [
      | false ↦ pure error
      | true ↦ do set_members (record d { max_mixer_stages = stages }); pure error
    ]
