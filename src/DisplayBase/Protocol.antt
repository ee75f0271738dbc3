-- ===== src/DisplayBase/Protocol.antt =====
-- display_base.cpp: a frame's Prepare and Commit, and the HDR mode.
use platform_hardware_qcom_d.Base.{
  ◌%◌, ◌^◌, ℕ, zero, suc, Bool, true, false, not, ◌&&◌, ◌||◌, if◌then◌else◌, ◌==◌, Run, pure, ◌>>=◌,
  ◌>>◌, Option, none, some, List, [], ◌∷◌, map, get_elem?,
}
use platform_hardware_qcom_d.Base.Float.{Float, of_nat, lt_F, ◌-F◌}
use platform_hardware_qcom_d.Formats.{LayerBufferFormat, invalid}
use platform_hardware_qcom_d.Rect.{LayerRect, is_valid, map_rect, normalize}
use platform_hardware_qcom_d.Types.{
  DisplayError, error_none, error_parameters, error_no_app_layers, error_shut_down, is_ok, Layer,
  LayerComposition, composition_gpu_target,
}
use platform_hardware_qcom_d.Strategy.{Extension, Frame}
use platform_hardware_qcom_d.CompManager.{ResourceInterface}
use platform_hardware_qcom_d.CompManager.Frames
use platform_hardware_qcom_d.DisplayBase.{
  Device, Display, Session, on_comp, on_device, members, set_members,
}
use platform_hardware_qcom_d.DisplayBase.States.{is_builtin}

-- A layer of the client, and whether the range of its colours is Range_Extended.
pub record ClientLayer (F : Type 0) : Type 0 where
  pub layer : Layer F
  pub extended_range : Bool

-- LayerStack; bt2020_blending is blend_cs.first == ColorPrimaries_BT2020.
pub record LayerStack (F : Type 0) : Type 0 where
  pub layers : List (ClientLayer F)
  pub hdr_present : Bool
  pub animating : Bool
  pub attributes_changed : Bool
  pub bt2020_blending : Bool

abbrev is_invalid : LayerBufferFormat → Bool
is_invalid invalid = true
is_invalid _ = false

abbrev pub is_gpu_target : LayerComposition → Bool
is_gpu_target composition_gpu_target = true
is_gpu_target _ = false

module _ {F : Type 0} where
  -- NeedsGpuFallback.
  unfoldable pub needs_gpu_fallback : ClientLayer F → Bool
  needs_gpu_fallback l = is_invalid l.layer.format || l.extended_range

  -- The loop of BuildLayerStackStats.
  unfoldable pub count_layers : List (ClientLayer F) → Display F → Display F
  unfolding needs_gpu_fallback
  count_layers [] d = d
  count_layers (l ∷ rest) d =
      let counted = record d {
        hw_layers = record d.hw_layers {
          app_layer_count = suc d.hw_layers.app_layer_count % 2 ^ 32;
        };
        gpu_fallback = d.gpu_fallback || needs_gpu_fallback l;
      } in
      let next = count_layers rest counted in
      if is_gpu_target l.layer.composition
      then record d {
        hw_layers = record d.hw_layers { gpu_target_index = d.hw_layers.app_layer_count };
      }
      else next

  -- NeedsHdrHandling.
  unfoldable pub needs_hdr_handling : Display F → Bool
  needs_hdr_handling d =
      not (not (is_builtin d.display_type) || (d.num_color_modes == 0) || d.gpu_fallback)

module _ {F : Type 0} ⦃fl : Float F⦄ where
  -- ValidateGPUTargetParams on the target layer.
  unfoldable pub check_gpu_target : Display F → Layer F → DisplayError
  unfolding is_valid map_rect normalize
  check_gpu_target d target =
      let domain : ℕ → ℕ → LayerRect F =
        λ w h. record { left = of_nat 0; top = of_nat 0; right = of_nat w; bottom = of_nat h } in
      let out : LayerRect F = normalize 1 1 (
        map_rect (domain d.fb_config.x_pixels d.fb_config.y_pixels)
          (domain d.mixer_attributes.width d.mixer_attributes.height) target.dst_rect
          target.dst_rect) in
      if not (is_valid target.src_rect)
      then error_parameters
      else if not (is_valid target.dst_rect)
      then error_parameters
      else if lt_F (of_nat d.mixer_attributes.width) (out.right -F out.left)
          || lt_F (of_nat d.mixer_attributes.height) (out.bottom -F out.top)
      then error_parameters
      else error_none

  -- ValidateGPUTargetParams; layers.at throws past the end.
  unfoldable pub validate_gpu_target_params : Display F → Option DisplayError
  unfolding check_gpu_target
  validate_gpu_target_params d = elim (get_elem? d.hw_layers.stack d.hw_layers.gpu_target_index) [
    | none ↦ none
    | some target ↦ some (check_gpu_target d target)
  ]

module _ {F : Type 0} where
  -- CommitLayerParams on the layers to program and their indices: of the parameters that it copies,
  -- the model keeps the secure flag and the format, which it copies for the GPU target.
  unfoldable pub commit_layer_params :
      List (ClientLayer F) → ℕ → List ℕ → List (Layer F) → Option (List (Layer F))
  commit_layer_params client target index [] = some []
  commit_layer_params client target [] (l ∷ rest) = none
  commit_layer_params client target (i ∷ index) (l ∷ rest) =
      let copied = commit_layer_params client target index rest in
      elim (get_elem? client i) [
        | none ↦ none
        | some c ↦ elim copied [
          | none ↦ none
          | some ls ↦ some (
              (if target == i
                then record l { secure = c.layer.secure; format = c.layer.format }
                else l)
              ∷ ls)
        ]
      ]

abbrev pub is_shut_down : DisplayError → Bool
is_shut_down error_shut_down = true
is_shut_down _ = false

module _ {F R X H : Type 0} where
  -- A member of the frame is written.
  unfoldable pub set_frame : Frame F → Run (Session F R X H) (Unit {0})
  unfolding members set_members
  set_frame f = do d ← members; set_members (record d { hw_layers = f })

  -- A result that may be an exception of std::vector.
  unfoldable pub checked : {A : Type 0} → Option A → Run (Session F R X H) A
  checked r s = elim r [ none ↦ none | some a ↦ some (a, s) ]

module _ {F R X H : Type 0} (device : Device F H) where
  -- SetHDRMode.
  unfoldable pub set_hdr_mode : Bool → Run (Session F R X H) DisplayError
  unfolding members set_members on_device
  set_hdr_mode on = do
    d ← members
    error ← elim (d.has_color_mgr && not d.disable_hdr_lut_gen) [
      | true ↦ on_device (device.set_hdr_color_mode on)
      | false ↦ pure error_none
    ]
    on_device (device.control_dpps (not on))
    set_members (record d { hdr_mode = on })
    pure error

  -- HandleHDR.
  unfoldable pub handle_hdr : LayerStack F → Run (Session F R X H) DisplayError
  unfolding members set_members set_hdr_mode needs_hdr_handling
  handle_hdr stack = do
    d ← members
    elim (needs_hdr_handling d) [
      | false ↦ pure error_none
      | true ↦ elim stack.hdr_present [
        | false ↦ elim d.hdr_playback [
          | false ↦ pure error_none
          | true ↦ do
            set_members (record d { hdr_playback = false })
            elim d.hdr_mode [ true ↦ set_hdr_mode false | false ↦ pure error_none ]
        ]
        | true ↦ elim (not d.hdr_playback && not stack.animating) [
          | true ↦ do set_members (record d { hdr_playback = true }); set_hdr_mode true
          | false ↦ elim (d.hdr_playback && not d.hdr_mode) [
            | true ↦ set_hdr_mode true
            | false ↦ pure error_none
          ]
        ]
      ]
    ]

  -- ValidateHDR, which gives NONE whatever SetHDRMode gives.
  unfoldable pub validate_hdr : LayerStack F → Run (Session F R X H) DisplayError
  unfolding members set_hdr_mode needs_hdr_handling
  validate_hdr stack = do
    d ← members
    elim (needs_hdr_handling d && d.hdr_playback && not stack.bt2020_blending) [
      | true ↦ set_hdr_mode false >>= λ error. pure error_none
      | false ↦ pure error_none
    ]

module _ {F R X H : Type 0} ⦃fl : Float F⦄ where
  -- BuildLayerStackStats.
  unfoldable pub build_layer_stack_stats : LayerStack F → Run (Session F R X H) DisplayError
  unfolding members set_members count_layers validate_gpu_target_params checked
  build_layer_stack_stats stack = do
    d ← members
    let counted =
        count_layers stack.layers
          (record d { hw_layers = record d.hw_layers { stack = map (λ l. l.layer) stack.layers } })
    set_members counted
    elim (counted.hw_layers.app_layer_count == 0) [
      | true ↦ pure error_no_app_layers
      | false ↦ elim (counted.hw_layers.gpu_target_index == 0) [
        | true ↦ pure error_none
        | false ↦ checked (validate_gpu_target_params counted)
      ]
    ]

module _ {F R X H : Type 0} ⦃fl : Float F⦄ (ri : ResourceInterface F R) (ext : Extension F X)
    (device : Device F H) where
  -- The loop of Prepare: none is that the fuel has run out. `true` beside the error is a return from
  -- within the loop.
  unfoldable pub validate_loop : ℕ → Run (Session F R X H) (Option (DisplayError × Bool))
  unfolding members set_members set_frame on_comp on_device
  validate_loop zero = pure none
  validate_loop (suc fuel) = do
    d ← members
    (error, frame) ← on_comp (Frames.prepare ri ext d.display_comp_ctx d.hw_layers)
    set_frame frame
    elim (is_ok error) [
      | false ↦ pure (some (error, false))
      | true ↦ do
        (verdict, frame') ← on_device (device.validate frame)
        set_frame frame'
        elim (is_ok verdict) [
          | true ↦ do
            now ← members
            set_members (record now { needs_validate = false })
            pure (some (verdict, false))
          | false ↦ elim (is_shut_down verdict) [
            | true ↦ on_comp (Frames.post_prepare ri ext d.display_comp_ctx) >>= λ last.
                pure (some (verdict, true))
            | false ↦ validate_loop fuel
          ]
        ]
    ]
