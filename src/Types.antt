-- ===== src/Types.antt =====
-- Enumerations and records that the display core shares: sdm/include/core/sdm_types.h,
-- display_interface.h, layer_stack.h and sdm/include/private/hw_info_types.h. A record holds the
-- fields that the modelled code reads or writes.
use platform_hardware_qcom_d.Base.{ℕ, Bool, true, false, List, ◌==◌}
use platform_hardware_qcom_d.Base.Int.{ℤ}
use platform_hardware_qcom_d.Formats.{LayerBufferFormat}
use platform_hardware_qcom_d.Rect.{LayerRect, LayerTransform}

-- DisplayError.
pub data DisplayError : Type 0 where
  error_none error_undefined error_not_supported error_permission error_version : DisplayError
  error_data_alignment error_instruction_set error_parameters error_file_descriptor : DisplayError
  error_memory error_resources error_hardware error_time_out error_shut_down : DisplayError
  error_perf_validation error_no_app_layers error_rotator_validation : DisplayError
  error_not_validated error_critical_resource error_no_device error_device_removed : DisplayError
  error_driver_data : DisplayError

-- error == kErrorNone.
abbrev pub is_ok : DisplayError → Bool
is_ok error_none = true
is_ok _ = false

-- The next check runs only after a success.
abbrev pub and_then : DisplayError → DisplayError → DisplayError
and_then error_none next = next
and_then error _ = error

-- DisplayType; kBuiltIn is primary and kPluggable is hdmi.
pub data DisplayType : Type 0 where
  primary hdmi virtual display_max : DisplayType

-- The number of a DisplayType, which an int32_t key converts it to.
abbrev pub type_code : DisplayType → ℕ
type_code primary = 0
type_code hdmi = 1
type_code virtual = 2
type_code display_max = 3

pub data DisplayState : Type 0 where
  state_off state_on state_doze state_doze_suspend state_standby : DisplayState

pub data HwBlockType : Type 0 where
  hw_primary hw_hdmi hw_writeback0 hw_writeback1 hw_writeback2 hw_block_max : HwBlockType

abbrev block_code : HwBlockType → ℕ
block_code hw_primary = 0
block_code hw_hdmi = 1
block_code hw_writeback0 = 2
block_code hw_writeback1 = 3
block_code hw_writeback2 = 4
block_code hw_block_max = 5

-- == on HWBlockType.
unfoldable pub block_eq : HwBlockType → HwBlockType → Bool
block_eq a b = block_code a == block_code b

pub data PipeType : Type 0 where
  pipe_unused pipe_vig pipe_rgb pipe_dma pipe_cursor : PipeType

pub data LayerComposition : Type 0 where
  composition_gpu composition_gpu_target composition_other : LayerComposition

-- HWPipeCaps.
pub record HwPipeCaps : Type 0 where
  pub pipe_type : PipeType
  pub id : ℕ

-- HWResourceInfo.
pub record HwResourceInfo : Type 0 where
  pub num_vig_pipe : ℕ
  pub num_rgb_pipe : ℕ
  pub num_dma_pipe : ℕ
  pub max_scale_up : ℕ
  pub max_scale_down : ℕ
  pub max_pipe_width : ℕ
  pub has_decimation : Bool
  pub has_non_scalar_rgb : Bool
  pub is_src_split : Bool
  pub has_dyn_bw_support : Bool
  pub separate_rotator : Bool
  pub dest_scalar_count : ℕ
  pub hw_pipes : List HwPipeCaps

-- HWMixerAttributes.
pub record HwMixerAttributes : Type 0 where
  pub width : ℕ
  pub height : ℕ
  pub split_left : ℕ

-- HWDisplayAttributes.
pub record HwDisplayAttributes : Type 0 where
  pub is_device_split : Bool

-- DisplayConfigVariableInfo.
pub record DisplayConfigVariableInfo : Type 0 where
  pub x_pixels : ℕ
  pub y_pixels : ℕ

-- HWPanelInfo.
pub record HwPanelInfo : Type 0 where
  pub is_primary_panel : Bool
  pub has_s3d_mode : Bool
  pub panel_orientation : LayerTransform

-- Layer: its geometry, the format and the secure flag of its buffer, its composition.
pub record Layer (F : Type 0) : Type 0 where
  pub src_rect : LayerRect F
  pub dst_rect : LayerRect F
  pub format : LayerBufferFormat
  pub secure : Bool
  pub composition : LayerComposition
  pub transform : LayerTransform

-- HWPipeInfo.
pub record HwPipeInfo (F : Type 0) : Type 0 where
  pub pipe_id : ℕ
  pub src_roi : LayerRect F
  pub dst_roi : LayerRect F
  pub horizontal_decimation : ℕ
  pub vertical_decimation : ℕ
  pub z_order : ℕ
  pub valid : Bool

-- HWLayerConfig: the pipes of the left and the right half.
pub record HwLayerConfig (F : Type 0) : Type 0 where
  pub left_pipe : HwPipeInfo F
  pub right_pipe : HwPipeInfo F

-- HWLayers: the layers to program, the fence of the frame, and config[0].
pub record HwLayers (F : Type 0) : Type 0 where
  pub layers : List (Layer F)
  pub sync_handle : ℤ
  pub config : HwLayerConfig F
