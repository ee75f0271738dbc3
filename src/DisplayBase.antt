-- ===== src/DisplayBase.antt =====
-- sdm/libs/core/display_base.cpp and display_base.h: one display over the composition manager and
-- its device. The device (hw_intf_, hw_events_intf_), and the color manager with the DPPS library,
-- which drive a closed library, are the parameter `Device`, with a state `H`. Each operation holds
-- recursive_mutex_ from its start to its end, so it is one step.
pub mod States
pub mod Protocol
pub mod Cycle
pub mod Validated
pub mod Switching
pub mod Ends
use platform_hardware_qcom_d.Base.{ℕ, Bool, true, false, Run, none, some, List}
use platform_hardware_qcom_d.Base.Int.{ℤ}
use platform_hardware_qcom_d.Types.{
  DisplayError, DisplayType, DisplayState, HwMixerAttributes, HwDisplayAttributes, HwPanelInfo,
  DisplayConfigVariableInfo, Layer,
}
use platform_hardware_qcom_d.Strategy.{Frame}
use platform_hardware_qcom_d.CompManager.{CompManager}

-- HWInterface and the color manager, as the code calls them. A call takes what the caller's pointer
-- holds and gives back what it then holds; a fence is a file descriptor. set_hdr_color_mode is what
-- SetHDRMode asks of the color manager.
pub record Device (F H : Type 0) : Type 0 where
  pub validate : Frame F → H → (DisplayError × Frame F) × H
  pub commit : Frame F → H → (DisplayError × Frame F) × H
  pub flush : Frame F → H → (DisplayError × Frame F) × H
  pub power_on : ℤ → H → (DisplayError × ℤ) × H
  pub doze : ℤ → H → (DisplayError × ℤ) × H
  pub doze_suspend : ℤ → H → (DisplayError × ℤ) × H
  pub power_off : H → DisplayError × H
  pub standby : H → DisplayError × H
  pub set_vsync_state : Bool → H → DisplayError × H
  pub set_vsync_event : Bool → H → DisplayError × H
  pub needs_partial_update_disable : H → Bool × H
  pub color_commit : H → DisplayError × H
  pub set_hdr_color_mode : Bool → H → DisplayError × H
  pub control_dpps : Bool → H → Unit {0} × H

-- The members of DisplayBase that the modelled operations read or write.
pub record Display (F : Type 0) : Type 0 where
  pub display_id : ℕ
  pub display_type : DisplayType
  pub display_comp_ctx : ℕ
  pub state : DisplayState
  pub last_power_mode : DisplayState
  pub active : Bool
  pub needs_validate : Bool
  pub vsync_enable : Bool
  pub gpu_fallback : Bool
  pub partial_update_control : Bool
  pub disable_pu_one_frame : Bool
  pub disable_pu_on_dest_scaler : Bool
  pub drop_hw_vsync : Bool
  pub drop_skewed_vsync : Bool
  pub is_video_mode : Bool
  pub current_refresh_rate : ℕ
  pub max_fps : ℕ
  pub has_color_mgr : Bool
  pub disable_hdr_lut_gen : Bool
  pub num_color_modes : ℕ
  pub hdr_playback : Bool
  pub hdr_mode : Bool
  pub max_mixer_stages : ℕ
  pub display_attributes : HwDisplayAttributes
  pub hw_panel_info : HwPanelInfo
  pub mixer_attributes : HwMixerAttributes
  pub fb_config : DisplayConfigVariableInfo
  pub hw_layers : Frame F

-- A display with the composition manager and the device that it calls.
pub record Session (F R X H : Type 0) : Type 0 where
  pub display : Display F
  pub comp : CompManager R X
  pub device : H

module _ {F R X H : Type 0} where
  -- A call of comp_manager_.
  unfoldable pub on_comp : {A : Type 0} → Run (CompManager R X) A → Run (Session F R X H) A
  on_comp call s = elim (call s.comp) [
    | none ↦ none
    | some (a, comp) ↦ some (a, record s { comp = comp })
  ]

  -- A call of hw_intf_ or color_mgr_.
  unfoldable pub on_device : {A : Type 0} → (H → A × H) → Run (Session F R X H) A
  on_device call s = let (a, device) = call s.device in some (a, record s { device = device })

  -- The members, read and written.
  unfoldable pub members : Run (Session F R X H) (Display F)
  members s = some (s.display, s)

  unfoldable pub set_members : Display F → Run (Session F R X H) (Unit {0})
  set_members d s = some (tt, record s { display = d })
