-- ===== src/Examples/Managers.antt =====
-- Strategies and the composition manager. The resource manager of these examples is the default
-- one, or `stub`, which refuses as many frames as its state says.
use platform_hardware_qcom_d.Base.{
  ℕ, ◌-◌, ◌≡◌, ◌≢◌, ◌≤◌, ◌<◌, refl, true, false, some, none, List, [], ◌∷◌, ◌++◌, arith, get_elem?,
  if◌then◌else◌, ◌==◌,
}
use platform_hardware_qcom_d.Base.Int.{pos}
use platform_hardware_qcom_d.Types.{
  DisplayError, error_none, error_resources, error_undefined, hdmi, is_ok, HwLayers, Layer,
  composition_gpu, composition_other, state_on, HwPanelInfo, DisplayConfigVariableInfo,
}
use platform_hardware_qcom_d.Strategy.{
  Strategy, StrategyConstraints, Extension, Frame, gpu_fallback, target_layer, get_next_strategy,
  init,
}
use platform_hardware_qcom_d.Strategy.Target.{on_mixer}
use platform_hardware_qcom_d.Strategy.Fallback.{gpu_fallback-composed}
use platform_hardware_qcom_d.Resource.{ResourceDefault}
use platform_hardware_qcom_d.CompManager.{
  ResourceInterface, CompManager, DisplayCompositionContext, contains, insert, erase, locked_run,
  on_resource, display, set_display, update_heap,
}
use platform_hardware_qcom_d.CompManager.Displays.{
  register_display, register_resources, blank_context, new_context, delete_context,
  unregister_display, drop_display,
}
use platform_hardware_qcom_d.CompManager.Frames.{
  Attempt, prepare, prepare_loop, re_configure, post_commit, mark_configured,
}
use platform_hardware_qcom_d.CompManager.Power.{
  set_display_state, switch_state, enter_state, power_on, update_strategy_constraints, is_inactive,
}
use platform_hardware_qcom_d.CompManager.Loop.{Granted, prepare_loop-Granted}
use platform_hardware_qcom_d.CompManager.SafeMode.{
  Settled, post_commit-Settled, set_display_state-Settled,
}
use platform_hardware_qcom_d.CompManager.Register.{Undone, register_display-unchanged}
use platform_hardware_qcom_d.CompManager.Registry.{unregister_display-stale}
use platform_hardware_qcom_d.CompManager.Fallback.{prepare-returns}
use platform_hardware_qcom_d.CompManager.Default.{default_resource, re_configure-none}
use platform_hardware_qcom_d.Examples.Hardware.{
  natural, info, target, frame, mixer, attributes, upright, booted,
}
use platform_hardware_qcom_d.Examples.Resources.{ready, registered, booted-init}

-- An extension whose strategy leaves every frame as it is.
abbrev pub extension : Extension ℕ (Unit {0})
extension = record {
  strategy_start = λ f x. (error_none, (2, x));
  strategy_stop = λ x. (error_none, x);
  strategy_next = λ k f x. (error_none, (f, x));
  strategy_reconfigure = λ p i m c x. (error_none, x);
  strategy_set_composition_state = λ t e x. (error_none, x);
  strategy_purge = λ x. (error_none, x);
  strategy_set_idle_timeout_ms = λ n x. (error_none, x);
  partial_update_start = λ e x. x;
  partial_update_roi = λ f x. (error_none, (f, x));
  create_strategy = λ i p m c x. (error_none, x);
  create_partial_update = λ p m d c x. (false, x);
  destroy_partial_update = λ x. x;
}

abbrev pub stub : ResourceInterface ℕ ℕ
stub = record {
  register_display = λ i t a p m r. some ((error_none, 1), r);
  unregister_display = λ h r. some (error_none, r);
  reconfigure_display = λ h a p m r. some (error_none, r);
  start = λ h r. some (error_none, r);
  stop = λ h r. some (error_none, r);
  prepare = λ h hw r. some ((if r == 0 then error_none else error_resources, hw), r - 1);
  post_prepare = λ h r. some (error_none, r);
  commit = λ h r. some (error_none, r);
  post_commit = λ h fd r. some (error_none, r);
  purge = λ h r. some (tt, r);
  set_max_mixer_stages = λ h n r. some (error_none, r);
  perform = λ c h r. some (error_none, r);
}

abbrev pub panel : HwPanelInfo
panel = record { is_primary_panel = true; has_s3d_mode = false; panel_orientation = upright }

abbrev pub framebuffer : DisplayConfigVariableInfo
framebuffer = record { x_pixels = 1080; y_pixels = 1920 }

abbrev strategy : Strategy (Unit {0})
strategy = record {
  has_extension = true;
  has_strategy = true;
  has_partial_update = false;
  extension = tt;
  hw_resource_info = info;
  hw_panel_info = panel;
  mixer_attributes = mixer;
  display_attributes = attributes;
  fb_config = framebuffer;
  extn_start_success = true;
  disable_gpu_comp = false;
}

abbrev constraints : StrategyConstraints
constraints = record { safe_mode = false; max_layers = 16 }

-- A frame with one application layer in front of the GPU target.
abbrev pub app_frame : Frame ℕ
app_frame = record {
  stack = record target { composition = composition_other } ∷ target ∷ [];
  app_layer_count = 1;
  gpu_target_index = 1;
  index = [];
  roi_index = [];
  left_frame_roi = [];
  right_frame_roi = [];
  hw = record frame { layers = [] };
}

gpu_fallback-composed_example :
    (t : Layer ℕ) × (g : Frame ℕ) × (get_elem? app_frame.stack 1 ≡ some t)
    × (gpu_fallback strategy app_frame ≡ some g)
    × (g.hw.layers ≡ [] ++ (target_layer strategy t ∷ []))
    × ((target_layer strategy t).dst_rect ≡ on_mixer strategy t)
    × ((i : ℕ) (l : Layer ℕ)
        → i < 1
        → get_elem? g.stack i ≡ some l
        → l.composition ≡ composition_gpu)
    × ((i : ℕ) → 1 ≤ i → get_elem? g.stack i ≡ get_elem? app_frame.stack i)
gpu_fallback-composed_example = gpu_fallback-composed strategy app_frame (omega arith) (omega arith)

-- The second of three strategies is granted.
abbrev second_attempt : Attempt ℕ ℕ (Unit {0})
second_attempt = record {
  error = error_none;
  remaining = 1;
  strategy = strategy;
  frame = app_frame;
  resource = 0;
}

prepare_loop-Granted_example :
    (1 ≤ 3)
    × (0 < 3 → 1 < 3)
    × (is_ok error_none ≡ true → Granted stub extension 1 constraints second_attempt)
unfolding prepare_loop get_next_strategy
prepare_loop-Granted_example =
    prepare_loop-Granted stub extension 1 constraints 3 error_undefined strategy app_frame 1
      second_attempt refl refl

abbrev pub display_context : DisplayCompositionContext (Unit {0})
display_context = record {
  strategy = some strategy;
  constraints = constraints;
  display_resource_ctx = 1;
  display_id = 5;
  display_type = hdmi;
  max_strategies = 2;
  remaining_strategies = 2;
  idle_fallback = false;
  thermal_fallback = false;
  is_primary_panel = true;
  pu_enable = true;
  fb_config = framebuffer;
}

abbrev pub manager : {R : Type 0} → R → List ℕ → List ℕ → CompManager R (Unit {0})
manager r configured on = record {
  locked = false;
  resource = r;
  registered_displays = 1 ∷ [];
  configured_displays = configured;
  powered_on_displays = on;
  display_state = λ k. none;
  safe_mode = true;
  hw_res_info = info;
  max_layers = 16;
  max_sde_ext_layers = 0;
  max_sde_builtin_layers = 2;
  contexts = update_heap (λ k. none) 1 (some display_context);
  next_handle = 2;
}

-- The last of two displays is configured, and safe mode ends.
post_commit-Settled_example : Settled (5 ∷ 7 ∷ []) (5 ∷ 7 ∷ []) false
unfolding post_commit mark_configured insert contains locked_run display on_resource set_display
post_commit-Settled_example =
    post_commit-Settled stub 1 (pos 9) (manager {R = ℕ} 0 (7 ∷ []) (5 ∷ 7 ∷ []))
      (record (manager {R = ℕ} 0 (5 ∷ 7 ∷ []) (5 ∷ 7 ∷ [])) {
        safe_mode = false;
        contexts = update_heap (manager {R = ℕ} 0 [] []).contexts 1 (some display_context);
      })
      display_context error_none refl refl ((refl, tt), λ k m. ground arith, λ off. cc) refl

-- A second display comes on.
set_display_state-Settled_example : Settled [] (5 ∷ 7 ∷ []) true
unfolding set_display_state switch_state enter_state power_on display on_resource insert contains
    is_inactive update_strategy_constraints
set_display_state-Settled_example =
    set_display_state-Settled stub extension state_on 1 (pos 9) (manager {R = ℕ} 0 [] (7 ∷ []))
      (record (manager {R = ℕ} 0 [] (5 ∷ 7 ∷ [])) {
        display_state = λ k. if 5 == k then some state_on else none;
      })
      display_context true refl (tt, λ k m. cc, λ off. cc) refl

re_configure-none_example :
    (hw' : HwLayers ℕ) × (t : CompManager ResourceDefault (Unit {0})) × (re_configure
        default_resource 1 frame
        (manager ready [] (5 ∷ []))
      ≡ some ((error_none, hw'), t))
    × (t.locked ≡ false)
    × (t.resource.locked ≡ false)
re_configure-none_example =
    re_configure-none true info booted (manager ready [] (5 ∷ [])) 1 display_context frame
      booted-init registered refl refl refl (λ e. cc) (λ e. cc)

-- A pluggable display with the id 5: its key 1 stays.
unregister_display-stale_example :
    (contains 5 [] ≡ false)
    × (contains 5 (7 ∷ []) ≡ false)
    × (update_heap (manager {R = ℕ} 0 [] []).contexts 1 none 1 ≡ none)
    × (contains 1 (1 ∷ []) ≡ true)
unfolding unregister_display drop_display locked_run display on_resource erase contains
unregister_display-stale_example =
    unregister_display-stale stub 1 (manager {R = ℕ} 0 (7 ∷ 5 ∷ []) (5 ∷ []))
      (record (manager {R = ℕ} 0 (7 ∷ []) []) {
        contexts = update_heap (manager {R = ℕ} 0 [] []).contexts 1 none;
      })
      display_context error_none (λ e. cc) refl (λ e. cc) refl refl

-- A display whose strategy falls back to the GPU, before its one attempt.
abbrev fallback_strategy : Strategy (Unit {0})
fallback_strategy = record strategy { extn_start_success = false }

abbrev fallback_context : DisplayCompositionContext (Unit {0})
fallback_context = record display_context {
  strategy = some fallback_strategy;
  max_strategies = 1;
  remaining_strategies = 1;
}

abbrev fallback_manager : CompManager ResourceDefault (Unit {0})
fallback_manager = record (manager ready [] (5 ∷ [])) {
  contexts = update_heap (λ k. none) 1 (some fallback_context);
}

prepare-returns_example :
    (e : DisplayError) × (f' : Frame ℕ) × (t : CompManager ResourceDefault (Unit {0}))
    × (c' : DisplayCompositionContext (Unit {0})) × (prepare default_resource extension 1 app_frame
          fallback_manager
        ≡ some ((e, f'), t))
    × (t.locked ≡ false)
    × (t.resource.locked ≡ false)
    × (t.contexts 1 ≡ some c')
    × (c'.remaining_strategies ≡ 0)
prepare-returns_example =
    prepare-returns extension true info booted fallback_manager 1 fallback_context fallback_strategy
      app_frame booted-init registered refl refl refl (λ e. cc) refl refl refl refl (omega arith)
      (omega arith)

-- A resource manager that has no clock to give: the registration is taken back.
abbrev no_clock : ResourceInterface ℕ ℕ
no_clock = record stub { perform = λ c h r. some (error_resources, r) }

abbrev null : ℕ
null = 0

-- The new context, deleted.
abbrev after_refusal : CompManager ℕ (Unit {0})
after_refusal = record (manager {R = ℕ} 0 [] []) {
  contexts =
      update_heap (update_heap (manager {R = ℕ} 0 [] []).contexts 2 (some (blank_context strategy)))
        2 none;
  next_handle = 3;
}

register_display-unchanged_example :
    (null ≡ 0)
    × Undone no_clock extension 5 hdmi attributes panel mixer error_resources 0 0
    × (after_refusal.contexts 2 ≡ none)
    × ((k : ℕ) → k ≢ 2 → after_refusal.contexts k ≡ (manager {R = ℕ} 0 [] []).contexts k)
    × (after_refusal ≡ record (manager {R = ℕ} 0 [] []) {
      resource = 0;
      contexts = after_refusal.contexts;
      next_handle = 3;
    })
unfolding register_display register_resources locked_run on_resource init new_context delete_context
register_display-unchanged_example =
    register_display-unchanged no_clock extension 5 hdmi attributes panel mixer framebuffer 4
      strategy (manager {R = ℕ} 0 [] []) after_refusal error_resources null refl refl
