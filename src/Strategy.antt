-- ===== src/Strategy.antt =====
-- sdm/libs/core/strategy.cpp and strategy.h: how one display's frame is composed. The extension
-- library behind extension_intf_ is not part of the repository, so its two objects of a display
-- (strategy_intf_ and partial_update_intf_) are the parameter `Extension`, with a state `X`.
pub mod Target
pub mod Fallback
use platform_hardware_qcom_d.Base.{
  ℕ, zero, suc, Bool, true, false, ◌&&◌, ◌||◌, not, if◌then◌else◌, Option, none, some, List, [],
  ◌∷◌, ◌++◌, ◌==◌, get_elem?,
}
use platform_hardware_qcom_d.Base.Float.{Float, of_nat}
use platform_hardware_qcom_d.Rect.{LayerRect, LayerTransform, transform_hv, map_rect}
use platform_hardware_qcom_d.Types.{
  DisplayError, error_none, error_not_supported, is_ok, HwResourceInfo, HwPanelInfo,
  HwMixerAttributes, HwDisplayAttributes, DisplayConfigVariableInfo, Layer, LayerComposition,
  composition_gpu, composition_gpu_target, composition_other, HwLayers,
}

-- StrategyConstraints, the fields that CompManager sets.
pub record StrategyConstraints : Type 0 where
  pub safe_mode : Bool
  pub max_layers : ℕ

-- A frame: HWLayers with its HWLayersInfo. `stack` is stack->layers, and `hw` has the layers to
-- program (hw_layers), the fence and the pipe configuration.
pub record Frame (F : Type 0) : Type 0 where
  pub stack : List (Layer F)
  pub app_layer_count : ℕ
  pub gpu_target_index : ℕ
  pub index : List ℕ
  pub roi_index : List ℕ
  pub left_frame_roi : List (LayerRect F)
  pub right_frame_roi : List (LayerRect F)
  pub hw : HwLayers F

-- StrategyInterface and PartialUpdateInterface, as the code calls them, and the creation of a
-- partial update object, which tells whether there is one.
pub record Extension (F X : Type 0) : Type 0 where
  pub strategy_start : Frame F → X → DisplayError × (ℕ × X)
  pub strategy_stop : X → DisplayError × X
  pub strategy_next : StrategyConstraints → Frame F → X → DisplayError × (Frame F × X)
  pub strategy_reconfigure :
      HwPanelInfo
      → HwResourceInfo
      → HwMixerAttributes
      → DisplayConfigVariableInfo
      → X
      → DisplayError × X
  pub strategy_set_composition_state : LayerComposition → Bool → X → DisplayError × X
  pub strategy_purge : X → DisplayError × X
  pub strategy_set_idle_timeout_ms : ℕ → X → DisplayError × X
  pub partial_update_start : Bool → X → X
  pub partial_update_roi : Frame F → X → DisplayError × (Frame F × X)
  pub create_strategy :
      HwResourceInfo
      → HwPanelInfo
      → HwMixerAttributes
      → DisplayConfigVariableInfo
      → X
      → DisplayError × X
  pub create_partial_update :
      HwPanelInfo
      → HwMixerAttributes
      → HwDisplayAttributes
      → DisplayConfigVariableInfo
      → X
      → Bool × X
  pub destroy_partial_update : X → X

-- Strategy. The three flags tell whether extension_intf_, strategy_intf_ and
-- partial_update_intf_ are not NULL.
pub record Strategy (X : Type 0) : Type 0 where
  pub has_extension : Bool
  pub has_strategy : Bool
  pub has_partial_update : Bool
  pub extension : X
  pub hw_resource_info : HwResourceInfo
  pub hw_panel_info : HwPanelInfo
  pub mixer_attributes : HwMixerAttributes
  pub display_attributes : HwDisplayAttributes
  pub fb_config : DisplayConfigVariableInfo
  pub extn_start_success : Bool
  pub disable_gpu_comp : Bool

abbrev is_gpu : LayerComposition → Bool
is_gpu composition_gpu = true
is_gpu _ = false

abbrev xor : Bool → Bool → Bool
xor true b = not b
xor false b = b

module _ {F : Type 0} ⦃fl : Float F⦄ where
  abbrev rect : ℕ → ℕ → ℕ → ℕ → LayerRect F
  rect left top right bottom = record {
    left = of_nat left;
    top = of_nat top;
    right = of_nat right;
    bottom = of_nat bottom;
  }

module _ {F : Type 0} where
  -- The loop of GetNextStrategy over the first `count` layers; layers.at throws past the end. The
  -- request flags of a layer are not kept.
  unfoldable pub mark_gpu : ℕ → List (Layer F) → Option (List (Layer F))
  mark_gpu zero layers = some layers
  mark_gpu (suc count) [] = none
  mark_gpu (suc count) (l ∷ layers) =
      let rest : Option (List (Layer F)) = mark_gpu count layers in
      elim rest [ none ↦ none | some ls ↦ some (record l { composition = composition_gpu } ∷ ls) ]

module _ {F X : Type 0} where
  -- Init: the two objects of the extension; that there is no partial update is no error.
  unfoldable pub init : Extension F X → Strategy X → DisplayError × Strategy X
  init ext s =
      let r : DisplayError × X =
        ext.create_strategy s.hw_resource_info s.hw_panel_info s.mixer_attributes s.fb_config
          s.extension in
      let pu : Bool × X =
        ext.create_partial_update s.hw_panel_info s.mixer_attributes s.display_attributes
          s.fb_config r.1 in
      if not s.has_extension
      then (error_none, s)
      else if not (is_ok r.0)
      then (r.0, record s { extension = r.1 })
      else (
        error_none,
        record s { has_strategy = true; has_partial_update = pu.0; extension = pu.1 },
      )

  -- Start, behind its check: the extension's start, or one attempt.
  unfoldable pub start_attempts : Extension F X → ℕ → Frame F → Strategy X → ℕ × Strategy X
  start_attempts ext max_attempts f s =
      let started : DisplayError × (ℕ × X) = ext.strategy_start f s.extension in
      let s' : Strategy X = record s { extension = started.1.1 } in
      if s.has_strategy
      then (if is_ok started.0
          then (started.1.0, record s' { extn_start_success = true })
          else (1, s'))
      else (1, s)

  -- Stop and Purge.
  unfoldable pub stop : Extension F X → Strategy X → DisplayError × Strategy X
  stop ext s =
      let r : DisplayError × X = ext.strategy_stop s.extension in
      if s.has_strategy then (r.0, record s { extension = r.1 }) else (error_none, s)

  unfoldable pub purge : Extension F X → Strategy X → DisplayError × Strategy X
  purge ext s =
      let r : DisplayError × X = ext.strategy_purge s.extension in
      if s.has_strategy then (r.0, record s { extension = r.1 }) else (error_none, s)

  -- Reconfigure: without the extension nothing changes.
  unfoldable pub reconfigure :
      Extension F X
      → HwPanelInfo
      → HwDisplayAttributes
      → HwMixerAttributes
      → DisplayConfigVariableInfo
      → Strategy X
      → DisplayError × Strategy X
  reconfigure ext panel display mixer fb s =
      let x : X =
        if s.has_partial_update then ext.destroy_partial_update s.extension else s.extension in
      let created : Bool × X = ext.create_partial_update panel mixer display fb x in
      let r : DisplayError × X =
        ext.strategy_reconfigure panel s.hw_resource_info mixer fb created.1 in
      let s' : Strategy X = record s { has_partial_update = created.0; extension = r.1 } in
      if not s.has_extension then (error_none, s) else if not (is_ok r.0) then (r.0, s') else (
        error_none,
        record s' {
          hw_panel_info = panel;
          display_attributes = display;
          mixer_attributes = mixer;
          fb_config = fb;
        },
      )

  -- SetCompositionState and SetIdleTimeoutMs.
  unfoldable pub set_composition_state :
      Extension F X → LayerComposition → Bool → Strategy X → DisplayError × Strategy X
  set_composition_state ext type enable s =
      let s' : Strategy X = if is_gpu type then record s { disable_gpu_comp = not enable } else s in
      let r : DisplayError × X = ext.strategy_set_composition_state type enable s.extension in
      if s.has_strategy then (r.0, record s' { extension = r.1 }) else (error_none, s')

  unfoldable pub set_idle_timeout_ms : Extension F X → ℕ → Strategy X → DisplayError × Strategy X
  set_idle_timeout_ms ext active_ms s =
      let r : DisplayError × X = ext.strategy_set_idle_timeout_ms active_ms s.extension in
      if s.has_strategy then (r.0, record s { extension = r.1 }) else (error_not_supported, s)

module _ {F X : Type 0} ⦃fl : Float F⦄ where
  -- GenerateROI without partial update.
  unfoldable pub full_roi : Strategy X → Frame F → Frame F
  full_roi s f =
      let m : HwMixerAttributes = s.mixer_attributes in
      if not s.hw_resource_info.is_src_split && s.display_attributes.is_device_split
      then record f {
        left_frame_roi = rect 0 0 m.split_left m.height ∷ [];
        right_frame_roi = rect m.split_left 0 m.width m.height ∷ [];
      }
      else record f {
        left_frame_roi = rect 0 0 m.width m.height ∷ [];
        right_frame_roi = rect 0 0 0 0 ∷ [];
      }

  -- GenerateROI: where the partial update object fails, the whole mixer is the region.
  unfoldable pub generate_roi : Extension F X → Strategy X → Frame F → Frame F × Strategy X
  unfolding full_roi
  generate_roi ext s f =
      let partial : DisplayError × (Frame F × X) = ext.partial_update_roi f s.extension in
      let s' : Strategy X = record s { extension = partial.1.1 } in
      if s.has_partial_update
      then (if is_ok partial.0 then (partial.1.0, s') else (full_roi s' partial.1.0, s'))
      else (full_roi s f, s)

  -- Start. max_attempts keeps its value where the GPU target is missing.
  unfoldable pub start :
      Extension F X → Bool → ℕ → Frame F → Strategy X → DisplayError × (ℕ × (Frame F × Strategy X))
  unfolding generate_roi start_attempts
  start ext pu_enable max_attempts f s =
      let s' : Strategy X = record s { extn_start_success = false } in
      let s'' : Strategy X =
        if s.has_partial_update
        then record s' { extension = ext.partial_update_start pu_enable s.extension }
        else s' in
      let region : Frame F × Strategy X = generate_roi ext s'' f in
      let attempts : ℕ × Strategy X = start_attempts ext max_attempts region.0 region.1 in
      if not s.disable_gpu_comp && (f.gpu_target_index == 0)
      then (error_not_supported, (max_attempts, (f, s')))
      else (error_none, (attempts.0, (region.0, attempts.1)))

  -- The copy of the GPU target that the hardware gets.
  unfoldable pub target_layer : Strategy X → Layer F → Layer F
  target_layer s l =
      let src_domain : LayerRect F = rect 0 0 s.fb_config.x_pixels s.fb_config.y_pixels in
      let dst_domain : LayerRect F = rect 0 0 s.mixer_attributes.width s.mixer_attributes.height in
      let panel : LayerTransform = s.hw_panel_info.panel_orientation in
      let transform : LayerTransform = record l.transform {
        flip_horizontal = xor l.transform.flip_horizontal panel.flip_horizontal;
        flip_vertical = xor l.transform.flip_vertical panel.flip_vertical;
      } in
      let flipped : LayerRect F = transform_hv src_domain l.dst_rect transform l.dst_rect in
      record l { transform = transform; dst_rect = map_rect src_domain dst_domain flipped flipped }

  -- GetNextStrategy without the extension: the GPU composes the application layers.
  unfoldable pub gpu_fallback : Strategy X → Frame F → Option (Frame F)
  unfolding mark_gpu
  gpu_fallback s f = elim (mark_gpu f.app_layer_count f.stack) [
    | none ↦ none
    | some stack ↦ elim (get_elem? stack f.gpu_target_index) [
      | none ↦ none
      | some target ↦ some (record f {
        stack = stack;
        index = f.index ++ (f.gpu_target_index ∷ []);
        roi_index = f.roi_index ++ (0 ∷ []);
        hw = record f.hw { layers = f.hw.layers ++ (target_layer s target ∷ []) };
      })
    ]
  ]

  -- GetNextStrategy.
  unfoldable pub get_next_strategy :
      Extension F X
      → StrategyConstraints
      → Frame F
      → Strategy X
      → Option (DisplayError × (Frame F × Strategy X))
  get_next_strategy ext constraints f s =
      let next : DisplayError × (Frame F × X) = ext.strategy_next constraints f s.extension in
      elim s.extn_start_success [
        | true ↦ some (next.0, (next.1.0, record s { extension = next.1.1 }))
        | false ↦ elim s.disable_gpu_comp [
          | true ↦ some (error_not_supported, (f, s))
          | false ↦ elim (gpu_fallback s f) [ none ↦ none | some f' ↦ some (error_none, (f', s)) ]
        ]
      ]
