-- ===== src/Resource/Scaling.antt =====
-- resource_default.cpp: the checks on a layer's rectangles and their scaling, and decimation.
use platform_hardware_qcom_d.Base.{
  ℕ, Bool, true, false, ◌&&◌, ◌||◌, not, if◌then◌else◌, Option, none, some, ltb, ◌==◌,
}
use platform_hardware_qcom_d.Base.Float.{Float, ◌-F◌, ◌*F◌, ◌/F◌, lt_F, le_F, eq_F, of_nat}
use platform_hardware_qcom_d.Formats.{
  LayerBufferFormat, invalid, BufferLayout, linear, get_buffer_layout,
}
use platform_hardware_qcom_d.Rect.{LayerRect, is_valid}
use platform_hardware_qcom_d.Types.{
  DisplayError, error_none, error_not_supported, and_then, HwResourceInfo, Layer, HwPipeInfo,
}

abbrev pub is_invalid_format : LayerBufferFormat → Bool
is_invalid_format invalid = true
is_invalid_format _ = false

abbrev pub is_linear : BufferLayout → Bool
is_linear linear = true
is_linear _ = false

-- kErrorNotSupported where the test holds.
abbrev pub reject : Bool → DisplayError
reject b = if b then error_not_supported else error_none

module _ {F : Type 0} ⦃fl : Float F⦄ where
  abbrev width : LayerRect F → F
  width r = r.right -F r.left

  abbrev height : LayerRect F → F
  height r = r.bottom -F r.top

  -- coordinate - roundf(coordinate) != 0.0f
  abbrev is_fractional : F → Bool
  is_fractional x = not (eq_F (x -F fl.round x) (of_nat 0))

  -- IsScalingNeeded.
  unfoldable pub is_scaling_needed : HwPipeInfo F → Bool
  is_scaling_needed pipe =
      not (eq_F (width pipe.dst_roi) (width pipe.src_roi))
      || not (eq_F (height pipe.dst_roi) (height pipe.src_roi))

  -- ValidateLayerParams.
  unfoldable pub validate_layer_params : Layer F → DisplayError
  validate_layer_params layer =
      let src : LayerRect F = layer.src_rect in
      let fractional : Bool =
        is_fractional src.left
        || (is_fractional src.top || (is_fractional src.right || is_fractional src.bottom)) in
      and_then (reject (is_invalid_format layer.format)) (
        and_then (reject (not (is_valid src) || not (is_valid layer.dst_rect)))
          (reject (not layer.secure && fractional)))

  -- ValidateDimensions.
  unfoldable pub validate_dimensions : LayerRect F → LayerRect F → DisplayError
  validate_dimensions crop dst = and_then (reject (not (is_valid crop))) (
      and_then (reject (not (is_valid dst))) (
        reject
          (fl.to_u32 (width crop -F width dst) == 1 || fl.to_u32 (height crop -F height dst) == 1)))

  -- ValidateDownScaling. kMaxDecimationDownScaleRatio is 16.
  unfoldable pub validate_down_scaling : HwResourceInfo → F → F → Bool → DisplayError
  validate_down_scaling info scale_x scale_y ubwc_tiled =
      let max_scale : F = of_nat info.max_scale_down in
      let max_scale_down : F =
        if not ubwc_tiled && info.has_decimation then max_scale *F of_nat 16 else max_scale in
      if ltb 1 (fl.to_u32 scale_x) || ltb 1 (fl.to_u32 scale_y)
      then reject (lt_F max_scale_down scale_x || lt_F max_scale_down scale_y)
      else error_none

  -- The test of ValidateUpScaling in one direction.
  abbrev over_up_scaling : HwResourceInfo → F → Bool
  over_up_scaling info scale =
      (ltb (fl.to_u32 scale) 1 && lt_F (of_nat 0) scale)
      && lt_F (of_nat info.max_scale_up) (of_nat 1 /F scale)

  -- ValidateUpScaling.
  unfoldable pub validate_up_scaling : HwResourceInfo → F → F → DisplayError
  validate_up_scaling info scale_x scale_y =
      and_then (reject (over_up_scaling info scale_x)) (reject (over_up_scaling info scale_y))

  -- ValidateScaling, with GetScaleFactor of this class; rotate90 and use_rotator_downscale are not
  -- read.
  unfoldable pub validate_scaling :
      HwResourceInfo → LayerRect F → LayerRect F → BufferLayout → DisplayError
  unfolding validate_down_scaling validate_up_scaling
  validate_scaling info crop dst layout =
      let scale_x : F = width crop /F width dst in
      let scale_y : F = height crop /F height dst in
      and_then (validate_down_scaling info scale_x scale_y (not (is_linear layout)))
        (validate_up_scaling info scale_x scale_y)

  -- ValidatePipeParams.
  unfoldable pub validate_pipe_params :
      HwResourceInfo → HwPipeInfo F → LayerBufferFormat → DisplayError
  validate_pipe_params info pipe format =
      and_then (validate_dimensions pipe.src_roi pipe.dst_roi)
        (validate_scaling info pipe.src_roi pipe.dst_roi (get_buffer_layout format))

  -- CalculateDecimation; none stands for kErrorNotSupported.
  unfoldable pub calculate_decimation : HwResourceInfo → F → Option ℕ
  calculate_decimation info downscale =
      let max_down_scale : F = of_nat info.max_scale_down in
      if le_F downscale max_down_scale
      then some 0
      else if not info.has_decimation
      then none
      else some (fl.to_u8 (fl.ceil (fl.log2 (downscale /F max_down_scale))))

  -- SetDecimationFactor: whether it succeeds, and the pipe as it leaves it.
  unfoldable pub set_decimation_factor : HwResourceInfo → HwPipeInfo F → DisplayError × HwPipeInfo F
  unfolding calculate_decimation
  set_decimation_factor info pipe =
      let cleared : HwPipeInfo F = record pipe {
        horizontal_decimation = 0;
        vertical_decimation = 0;
      } in
      elim (calculate_decimation info (width pipe.src_roi /F width pipe.dst_roi)) [
        | none ↦ (error_not_supported, cleared)
        | some h ↦ elim (calculate_decimation info (height pipe.src_roi /F height pipe.dst_roi)) [
          | none ↦ (error_not_supported, record cleared { horizontal_decimation = h })
          | some v ↦
              (error_none, record cleared { horizontal_decimation = h; vertical_decimation = v })
        ]
      ]
