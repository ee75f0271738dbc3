-- ===== src/Examples/Displays.antt =====
-- A pluggable display over the resource manager `stub` and a device that refuses as many frames as
-- its state says.
use platform_hardware_qcom_d.Base.{
  ℕ, ◌-◌, ◌≡◌, ◌≢◌, refl, arith, Returns, not, true, false, Option, some, none, [], ◌∷◌,
  if◌then◌else◌, ◌==◌,
}
use platform_hardware_qcom_d.Base.Int.{pos}
use platform_hardware_qcom_d.Types.{
  error_none, error_shut_down, error_not_validated, error_hardware, hdmi, is_ok, composition_other,
  state_on, state_off,
}
use platform_hardware_qcom_d.CompManager.{display, set_display, on_resource, locked_run}
use platform_hardware_qcom_d.CompManager.Frames
use platform_hardware_qcom_d.CompManager.Power
use platform_hardware_qcom_d.Strategy
use platform_hardware_qcom_d.DisplayBase.{Device, Display, Session}
use platform_hardware_qcom_d.DisplayBase.Protocol.{LayerStack, validate_loop}
use platform_hardware_qcom_d.DisplayBase.Cycle.{prepare, commit}
use platform_hardware_qcom_d.DisplayBase.States.{set_display_state}
use platform_hardware_qcom_d.DisplayBase.Validated.{prepare-needs_validate, commit-prepare}
use platform_hardware_qcom_d.DisplayBase.Switching.{Outcome, set_display_state-Outcome}
use platform_hardware_qcom_d.DisplayBase.Ends.{validate_loop-ends}
use platform_hardware_qcom_d.Examples.Hardware.{natural, target, mixer, attributes}
use platform_hardware_qcom_d.Examples.Managers.{
  extension, stub, panel, framebuffer, app_frame, manager,
}

abbrev device : Device ℕ ℕ
device = record {
  validate = λ f h. ((if h == 0 then error_none else error_shut_down, f), h - 1);
  commit = λ f h. ((error_none, f), h);
  flush = λ f h. ((error_none, f), h);
  power_on = λ fence h. ((error_none, fence), h);
  doze = λ fence h. ((error_none, fence), h);
  doze_suspend = λ fence h. ((error_hardware, fence), h);
  power_off = λ h. (error_none, h);
  standby = λ h. (error_none, h);
  set_vsync_state = λ on h. (error_none, h);
  set_vsync_event = λ on h. (error_none, h);
  needs_partial_update_disable = λ h. (false, h);
  color_commit = λ h. (error_none, h);
  set_hdr_color_mode = λ on h. (error_none, h);
  control_dpps = λ on h. (tt, h);
}

abbrev lit_display : Display ℕ
lit_display = record {
  display_id = 5;
  display_type = hdmi;
  display_comp_ctx = 1;
  state = state_on;
  last_power_mode = state_on;
  active = true;
  needs_validate = true;
  vsync_enable = false;
  gpu_fallback = false;
  partial_update_control = true;
  disable_pu_one_frame = false;
  disable_pu_on_dest_scaler = false;
  drop_hw_vsync = false;
  drop_skewed_vsync = false;
  is_video_mode = true;
  current_refresh_rate = 60;
  max_fps = 60;
  has_color_mgr = false;
  disable_hdr_lut_gen = false;
  num_color_modes = 0;
  hdr_playback = false;
  hdr_mode = false;
  max_mixer_stages = 2;
  display_attributes = attributes;
  hw_panel_info = panel;
  mixer_attributes = mixer;
  fb_config = framebuffer;
  hw_layers = record app_frame { app_layer_count = 0; gpu_target_index = 0 };
}

abbrev session : ℕ → Session ℕ ℕ (Unit {0}) ℕ
session h = record { display = lit_display; comp = manager 0 [] []; device = h }

-- One application layer before the GPU target.
abbrev stack : LayerStack ℕ
stack = record {
  layers =
      record { layer = record target { composition = composition_other }; extended_range = false }
      ∷ record { layer = target; extended_range = false }
      ∷ [];
  hdr_present = false;
  animating = false;
  attributes_changed = false;
  bt2020_blending = false;
}

-- What a run leaves.
abbrev after : {A S : Type 0} → Option (A × S) → S → S
after none s = s
after (some (a, t)) s = t

abbrev prepared : ℕ → Session ℕ ℕ (Unit {0}) ℕ
prepared h = after (prepare stub extension device 2 (some stack) (session h)) (session h)

prepare-needs_validate_example : (prepared 0).display.needs_validate ≡ not (is_ok error_none)
unfolding prepare natural Frames.pre_prepare locked_run display set_display Frames.prepare
    Frames.constrain on_resource Frames.try_strategies Frames.prepare_loop Strategy.start
    Strategy.get_next_strategy Frames.post_prepare
prepare-needs_validate_example =
    prepare-needs_validate stub extension device 2 (some stack) (session 0) refl

-- A device that shuts down in the first frame.
commit-prepare_example :
    commit stub extension device (some stack) (prepared 1) ≡ some (error_not_validated, prepared 1)
unfolding prepare natural Frames.pre_prepare locked_run display set_display Frames.prepare
    Frames.constrain on_resource Frames.try_strategies Frames.prepare_loop Strategy.start
    Strategy.get_next_strategy Frames.post_prepare
commit-prepare_example =
    commit-prepare stub extension device 2 (some stack) stack (session 1) {error = error_shut_down}
      {t = prepared 1} refl refl refl

abbrev dark : Session ℕ ℕ (Unit {0}) ℕ
dark = after (set_display_state stub extension device state_off (pos 9) (session 0)) (session 0)

set_display_state-Outcome_example :
    Outcome stub extension device state_off (session 0) error_none dark
unfolding set_display_state Power.set_display_state Power.enter_state Power.switch_state
    Frames.purge_display locked_run display on_resource set_display Power.configured_off
    Power.power_off Power.update_strategy_constraints
set_display_state-Outcome_example =
    set_display_state-Outcome stub extension device state_off (pos 9) (session 0) refl

-- Two strategies are left, so fuel for three rounds is enough.
validate_loop-ends_example :
    Returns (validate_loop stub extension device 3 (session 0)) (λ o t. o ≢ none)
validate_loop-ends_example = validate_loop-ends stub extension device 3 (session 0) (omega arith)
