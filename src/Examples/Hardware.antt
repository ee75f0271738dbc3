-- ===== src/Examples/Hardware.antt =====
-- The data of the examples: a float arithmetic on natural numbers, hardware, displays and frames.
use platform_hardware_qcom_d.Base.{
  ℕ, ◌+◌, ◌-◌, ◌*◌, ◌/◌, refl, true, false, none, List, [], ◌∷◌, ltb, leb, ◌==◌,
}
use platform_hardware_qcom_d.Base.Int.{pos, pos_part}
use platform_hardware_qcom_d.Base.Float.{Float, IsOrdered}
use platform_hardware_qcom_d.Formats.{rgba8888}
use platform_hardware_qcom_d.Rect.{LayerRect, LayerTransform}
use platform_hardware_qcom_d.Types.{
  HwResourceInfo, HwMixerAttributes, HwDisplayAttributes, HwPipeInfo, HwLayerConfig, HwLayers,
  Layer, pipe_vig, pipe_rgb, pipe_dma, hw_block_max, hw_primary, composition_gpu_target,
}
use platform_hardware_qcom_d.Resource.{
  SourcePipe, ResourceDefault, DisplayResourceContext, user_mode,
}

instance unfoldable pub natural : Float ℕ
natural = record {
  add = λ a b. a + b;
  sub = λ a b. a - b;
  mul = λ a b. a * b;
  div = λ a b. a / b;
  lt = ltb;
  le = leb;
  eq = λ a b. a == b;
  of_int = pos_part;
  half = 0;
  to_int = pos;
  to_u32 = λ a. a;
  to_u8 = λ a. a;
  round = λ a. a;
  ceil = λ a. a;
  log2 = λ a. 0;
}

unfoldable pub natural_order : IsOrdered natural
unfolding natural
natural_order = record {
  rank = λ a. a;
  lt_rank = λ a b. refl;
  le_rank = λ a b. refl;
  eq_rank = λ a b. refl;
}

abbrev pub rect : ℕ → ℕ → ℕ → ℕ → LayerRect ℕ
rect left top right bottom = record { left = left; top = top; right = right; bottom = bottom }

abbrev pub info : HwResourceInfo
info = record {
  num_vig_pipe = 1;
  num_rgb_pipe = 1;
  num_dma_pipe = 1;
  max_scale_up = 20;
  max_scale_down = 4;
  max_pipe_width = 2048;
  has_decimation = false;
  has_non_scalar_rgb = false;
  is_src_split = true;
  has_dyn_bw_support = false;
  separate_rotator = false;
  dest_scalar_count = 0;
  hw_pipes =
      record { pipe_type = pipe_vig; id = 11 }
      ∷ record { pipe_type = pipe_rgb; id = 12 }
      ∷ record { pipe_type = pipe_dma; id = 13 }
      ∷ [];
}

abbrev pub vig : SourcePipe
vig = record {
  pipe_type = pipe_vig;
  owner = user_mode;
  mdss_pipe_id = 11;
  index = 0;
  hw_block_type = hw_block_max;
  priority = 0;
}

abbrev pub rgb : SourcePipe
rgb = record {
  pipe_type = pipe_rgb;
  owner = user_mode;
  mdss_pipe_id = 12;
  index = 1;
  hw_block_type = hw_block_max;
  priority = 1;
}

abbrev pub dma : SourcePipe
dma = record {
  pipe_type = pipe_dma;
  owner = user_mode;
  mdss_pipe_id = 13;
  index = 2;
  hw_block_type = hw_block_max;
  priority = 2;
}

abbrev pub pipes : List SourcePipe
pipes = vig ∷ rgb ∷ dma ∷ []

-- The resource manager after Init with the virtual driver.
abbrev pub booted : ResourceDefault
booted = record {
  locked = false;
  hw_res_info = info;
  is_in_use = λ b. false;
  src_pipes = pipes;
  num_pipe = 3;
  contexts = λ h. none;
  next_handle = 1;
  closed = [];
}

abbrev pub mixer : HwMixerAttributes
mixer = record { width = 1080; height = 1920; split_left = 540 }

abbrev pub attributes : HwDisplayAttributes
attributes = record { is_device_split = false }

abbrev pub context : DisplayResourceContext
context = record {
  display_attributes = attributes;
  hw_block_type = hw_primary;
  frame_count = 0;
  mixer_attributes = mixer;
}

abbrev pub upright : LayerTransform
upright = record { flip_horizontal = false; flip_vertical = false }

abbrev pub target : Layer ℕ
target = record {
  src_rect = rect 0 0 1080 1920;
  dst_rect = rect 0 0 1080 1920;
  format = rgba8888;
  secure = false;
  composition = composition_gpu_target;
  transform = upright;
}

abbrev pub no_pipe : HwPipeInfo ℕ
no_pipe = record {
  pipe_id = 0;
  src_roi = rect 0 0 0 0;
  dst_roi = rect 0 0 0 0;
  horizontal_decimation = 0;
  vertical_decimation = 0;
  z_order = 0;
  valid = false;
}

abbrev pub no_config : HwLayerConfig ℕ
no_config = record { left_pipe = no_pipe; right_pipe = no_pipe }

abbrev pub frame : HwLayers ℕ
frame = record { layers = target ∷ []; sync_handle = pos 7; config = no_config }
