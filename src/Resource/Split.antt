-- ===== src/Resource/Split.antt =====
-- resource_default.cpp: how a layer is divided between the left and the right pipe.
use platform_hardware_qcom_d.Base.{Bool, true, false, ◌&&◌, ◌||◌, not, if◌then◌else◌}
use platform_hardware_qcom_d.Base.Float.{Float, ◌+F◌, ◌-F◌, ◌*F◌, ◌/F◌, lt_F, of_nat}
use platform_hardware_qcom_d.Constants.{round_up_align_down}
use platform_hardware_qcom_d.Formats.{get_buffer_layout}
use platform_hardware_qcom_d.Rect.{LayerRect, is_valid, normalize, empty_rect}
use platform_hardware_qcom_d.Types.{
  DisplayError, error_none, error_not_supported, and_then, is_ok, HwResourceInfo, HwMixerAttributes,
  Layer, HwPipeInfo, HwLayerConfig,
}
use platform_hardware_qcom_d.Resource.Scaling.{
  validate_layer_params, validate_dimensions, validate_scaling, validate_pipe_params,
}

-- What CalculateCropRects returns and writes.
pub record CropRects (F : Type 0) : Type 0 where
  pub is_cropped_valid : Bool
  pub crop : LayerRect F
  pub dst : LayerRect F

module _ {F : Type 0} ⦃fl : Float F⦄ where
  -- HWPipeInfo().
  unfoldable pub new_pipe_info : HwPipeInfo F
  new_pipe_info = record {
    pipe_id = 0;
    src_roi = empty_rect;
    dst_roi = empty_rect;
    horizontal_decimation = 0;
    vertical_decimation = 0;
    z_order = 0;
    valid = false;
  }

  -- CalculateCropRects: `dst` cut to the scissor, and `crop` in proportion.
  unfoldable pub calculate_crop_rects : LayerRect F → LayerRect F → LayerRect F → CropRects F
  calculate_crop_rects scissor crop dst =
      let crop_width : F = crop.right -F crop.left in
      let crop_height : F = crop.bottom -F crop.top in
      let dst_width : F = dst.right -F dst.left in
      let dst_height : F = dst.bottom -F dst.top in
      let cut_left : Bool = lt_F dst.left scissor.left in
      let cut_right : Bool = lt_F scissor.right dst.right in
      let cut_top : Bool = lt_F dst.top scissor.top in
      let cut_bottom : Bool = lt_F scissor.bottom dst.bottom in
      let left_cut_ratio : F =
        if cut_left then (scissor.left -F dst.left) /F dst_width else of_nat 0 in
      let right_cut_ratio : F =
        if cut_right then (dst.right -F scissor.right) /F dst_width else of_nat 0 in
      let top_cut_ratio : F =
        if cut_top then (scissor.top -F dst.top) /F dst_height else of_nat 0 in
      let bottom_cut_ratio : F =
        if cut_bottom then (dst.bottom -F scissor.bottom) /F dst_height else of_nat 0 in
      let crop' : LayerRect F = normalize 1 1 (record {
        left = crop.left +F crop_width *F left_cut_ratio;
        top = crop.top +F crop_height *F top_cut_ratio;
        right = crop.right -F crop_width *F right_cut_ratio;
        bottom = crop.bottom -F crop_height *F bottom_cut_ratio;
      }) in
      let dst' : LayerRect F = normalize 1 1 (record {
        left = if cut_left then scissor.left else dst.left;
        top = if cut_top then scissor.top else dst.top;
        right = if cut_right then scissor.right else dst.right;
        bottom = if cut_bottom then scissor.bottom else dst.bottom;
      }) in
      if cut_left || (cut_right || (cut_top || cut_bottom))
      then record { is_cropped_valid = is_valid crop' && is_valid dst'; crop = crop'; dst = dst' }
      else record { is_cropped_valid = true; crop = crop; dst = dst }

  -- SplitRect, on the source and the destination of the two pipes.
  unfoldable pub split_rect : LayerRect F → LayerRect F → HwLayerConfig F → HwLayerConfig F
  split_rect src_rect dst_rect c =
      let src_width_ori : F = src_rect.right -F src_rect.left in
      let src_width : F = round_up_align_down (src_width_ori /F of_nat 2) 1 in
      let dst_width : F =
        round_up_align_down ((dst_rect.right -F dst_rect.left) *F src_width /F src_width_ori) 1 in
      let src_middle : F = src_rect.left +F src_width in
      let dst_middle : F = dst_rect.left +F dst_width in
      record {
        left_pipe = record c.left_pipe {
          src_roi = record src_rect { right = src_middle };
          dst_roi = record dst_rect { right = dst_middle };
        };
        right_pipe = record c.right_pipe {
          src_roi = record src_rect { left = src_middle };
          dst_roi = record dst_rect { left = dst_middle };
        };
      }

  abbrev set_valid : HwPipeInfo F → HwPipeInfo F
  set_valid pipe = record pipe { valid = true }

  -- SrcSplitConfig, which never fails.
  unfoldable pub src_split_config :
      HwResourceInfo → LayerRect F → LayerRect F → HwLayerConfig F → HwLayerConfig F
  unfolding split_rect
  src_split_config info src_rect dst_rect c =
      let max_width : F = of_nat info.max_pipe_width in
      let halves : HwLayerConfig F = split_rect src_rect dst_rect c in
      if lt_F max_width (src_rect.right -F src_rect.left)
        || lt_F max_width (dst_rect.right -F dst_rect.left)
      then record {
        left_pipe = set_valid halves.left_pipe;
        right_pipe = set_valid halves.right_pipe;
      }
      else record {
        left_pipe = record c.left_pipe { src_roi = src_rect; dst_roi = dst_rect; valid = true };
        right_pipe = new_pipe_info;
      }

  -- A pipe of DisplaySplitConfig: reset, and set up where its crop is valid.
  abbrev cropped_pipe : Bool → CropRects F → HwPipeInfo F
  cropped_pipe wanted r =
      if wanted && r.is_cropped_valid
      then record new_pipe_info { src_roi = r.crop; dst_roi = r.dst; valid = true }
      else new_pipe_info

  -- DisplaySplitConfig, which never fails.
  unfoldable pub display_split_config :
      HwMixerAttributes → LayerRect F → LayerRect F → HwLayerConfig F
  unfolding calculate_crop_rects
  display_split_config mixer src_rect dst_rect =
      let scissor_left : LayerRect F = record {
        left = of_nat 0;
        top = of_nat 0;
        right = of_nat mixer.split_left;
        bottom = of_nat mixer.height;
      } in
      let scissor_right : LayerRect F = record {
        left = of_nat mixer.split_left;
        top = of_nat 0;
        right = of_nat mixer.width;
        bottom = of_nat mixer.height;
      } in
      record {
        left_pipe = cropped_pipe true (calculate_crop_rects scissor_left src_rect dst_rect);
        right_pipe =
            cropped_pipe (is_valid scissor_right)
              (calculate_crop_rects scissor_right src_rect dst_rect);
      }

  -- AlignPipeConfig: the result, and the right pipe as it leaves it.
  unfoldable pub align_pipe_config :
      HwResourceInfo → Layer F → HwLayerConfig F → DisplayError × HwPipeInfo F
  align_pipe_config info layer c =
      let right : HwPipeInfo F = c.right_pipe in
      let joined : HwPipeInfo F = record right {
        src_roi = record right.src_roi { left = c.left_pipe.src_roi.right };
        dst_roi = record right.dst_roi { left = c.left_pipe.dst_roi.right };
      } in
      let error : DisplayError = validate_pipe_params info c.left_pipe layer.format in
      if not c.left_pipe.valid
      then (error_not_supported, right)
      else if not (is_ok error)
      then (error, right)
      else if right.valid
      then (validate_pipe_params info joined layer.format, joined)
      else (error_none, right)

  -- Config: the result, and config[0] as it leaves it.
  unfoldable pub config :
      HwResourceInfo
      → HwMixerAttributes
      → Layer F
      → HwLayerConfig F
      → DisplayError × HwLayerConfig F
  unfolding align_pipe_config
  config info mixer layer c =
      let error : DisplayError = and_then (validate_layer_params layer) (
        and_then (validate_dimensions layer.src_rect layer.dst_rect)
          (validate_scaling info layer.src_rect layer.dst_rect (get_buffer_layout layer.format))) in
      let halves : HwLayerConfig F =
        if info.is_src_split
        then src_split_config info layer.src_rect layer.dst_rect c
        else display_split_config mixer layer.src_rect layer.dst_rect in
      let aligned : DisplayError × HwPipeInfo F = align_pipe_config info layer halves in
      let right : HwPipeInfo F = aligned.1 in
      if not (is_ok error)
      then (error, c)
      else if not (is_ok aligned.0)
      then (aligned.0, record halves { right_pipe = right })
      else (
        error_none,
        record {
          left_pipe = record halves.left_pipe { z_order = 0 };
          right_pipe = if right.valid then record right { z_order = 0 } else right;
        },
      )
