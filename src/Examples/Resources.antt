-- ===== src/Examples/Resources.antt =====
-- The default resource manager.
use platform_hardware_qcom_d.Base.{
  ℕ, ◌<◌, ◌≡◌, ◌≢◌, refl, true, false, some, none, [], ◌∷◌, arith, get_elem?,
}
use platform_hardware_qcom_d.Base.Int.{◌-ℤ◌, ◌+ℤ◌}
use platform_hardware_qcom_d.Types.{
  error_none, hw_primary, primary, HwPipeInfo, HwBlockType, HwResourceInfo, block_eq,
}
use platform_hardware_qcom_d.Rect.{
  is_valid, empty_rect, is_congruent, normalize, intersection, reposition, union, subtract,
  split_left_right, map_rect, transform_hv,
}
use platform_hardware_qcom_d.Constants.{
  floor_to_multiple_of, ceil_to_multiple_of, round_up_align_down, round_up_align_up,
}
use platform_hardware_qcom_d.Formats.{is_ubwc_format, get_buffer_layout, is_10_bit_format}
use platform_hardware_qcom_d.Resource.Ownership.{Moves}
use platform_hardware_qcom_d.Resource.Isolation.{prepare-Moves}
use platform_hardware_qcom_d.Resource.Assign.{Distinct, reserve_pipes-Distinct}
use platform_hardware_qcom_d.Resource.Roundtrip.{register_display-undone}
use platform_hardware_qcom_d.Resource.{ResourceDefault, kernel_mode, update_context, update_in_use}
use platform_hardware_qcom_d.Resource.Pipes.{
  is_free, reset_pipe, reset_pipes, search_pipe, search_pipe_from, next_pipe, try_pipe, get_pipe,
}
use platform_hardware_qcom_d.Resource.Scaling.{
  is_scaling_needed, validate_layer_params, validate_dimensions, validate_down_scaling,
  validate_up_scaling, validate_scaling, validate_pipe_params, calculate_decimation,
  set_decimation_factor,
}
use platform_hardware_qcom_d.Resource.Split.{
  new_pipe_info, calculate_crop_rects, split_rect, src_split_config, display_split_config,
  align_pipe_config, config,
}
use platform_hardware_qcom_d.Resource.Prepare.{
  assign_single, assign_dual, reserve_pipes, prepare_layer, prepare_layers, prepare, Prepared,
}
use platform_hardware_qcom_d.Resource.Init.{
  modify, place_pipe, place_pipes, set_priorities, keep_splash, new_resource_default, init,
}
use platform_hardware_qcom_d.Resource.Display.{register_display, unregister_display, block_of}
use platform_hardware_qcom_d.Resource.Calls.{Calls, here, then, registers}
use platform_hardware_qcom_d.Resource.Choice.{reserve}
use platform_hardware_qcom_d.Resource.Select.{Chooses, get_pipe-Chooses}
use platform_hardware_qcom_d.Resource.Total.{prepare_total}
use platform_hardware_qcom_d.Resource.Splash.{KernelIdle, owners, Calls-owners}
use platform_hardware_qcom_d.Resource.Boot.{splash_pipes_stay, init_overrun}
use platform_hardware_qcom_d.Resource.Change.{indices, Calls-indices}
use platform_hardware_qcom_d.Examples.Hardware.{
  natural, info, no_pipe, rect, vig, rgb, dma, pipes, booted, context, frame, mixer, attributes,
}

pub booted-init : init true info ≡ some (error_none, booted)
unfolding init place_pipes place_pipe modify set_priorities keep_splash new_resource_default
booted-init = refl

-- The state after RegisterDisplay of the primary display.
abbrev pub ready : ResourceDefault
ready = record booted {
  is_in_use = update_in_use booted.is_in_use hw_primary true;
  contexts = update_context booted.contexts 1 (some context);
  next_handle = 2;
}

ready-register :
    register_display primary attributes mixer booted ≡ some ((error_none, some 1), ready)
unfolding register_display
ready-register = refl

pub registered : Calls natural booted ready
registered = then here (registers primary attributes mixer (error_none, some 1) ready-register)

prepare_total_example : prepare 1 frame ready ≢ none
prepare_total_example = prepare_total true info 1 frame booted-init registered (λ e. cc) (λ e. cc)

Calls-indices_example :
    (indices ready.src_pipes ≡ indices booted.src_pipes) × (ready.num_pipe ≡ booted.num_pipe)
Calls-indices_example = Calls-indices natural registered

Calls-owners_example :
    KernelIdle ready.src_pipes × (owners ready.src_pipes ≡ owners booted.src_pipes)
unfolding block_eq
Calls-owners_example = Calls-owners natural (λ e. refl, (λ e. refl, (λ e. refl, tt))) registered

register_display-undone_example :
    (b : HwBlockType) × (u : ResourceDefault) × (block_of primary ≡ some b)
    × (unregister_display 1 ready ≡ some (error_none, u))
    × (u.locked ≡ false)
    × (u.src_pipes ≡ reset_pipes b booted.src_pipes)
    × ((b' : HwBlockType) → u.is_in_use b' ≡ booted.is_in_use b')
    × ((k : ℕ) → u.contexts k ≡ booted.contexts k)
register_display-undone_example =
    register_display-undone primary attributes mixer booted ready 1 refl refl ready-register

get_pipe-Chooses_example :
    Chooses info true 3 hw_primary pipes (get_pipe info 3 hw_primary true pipes)
get_pipe-Chooses_example =
    get_pipe-Chooses info 3 hw_primary pipes true (omega arith, (omega arith, (omega arith, tt)))

-- The pipes after Init without the virtual driver.
abbrev splash : ResourceDefault
splash = record booted {
  src_pipes = vig ∷ record rgb { owner = kernel_mode } ∷ record dma { owner = kernel_mode } ∷ [];
}

splash_pipes_stay_example :
    (get_elem? (owners splash.src_pipes) 1 ≡ some kernel_mode)
    × (get_elem? (owners splash.src_pipes) 2 ≡ some kernel_mode)
unfolding init place_pipes place_pipe modify set_priorities keep_splash new_resource_default
splash_pipes_stay_example = splash_pipes_stay natural info {s = splash} {t = splash} refl here

-- Hardware that lists three pipes, of which it counts the VIG and the DMA pipe.
abbrev listed_pipes : HwResourceInfo
listed_pipes = record info { num_rgb_pipe = 0 }

init_overrun_example :
    ((i : ℕ) → i < 2 → get_elem? listed_pipes.hw_pipes i ≢ none) × (init false listed_pipes ≡ none)
init_overrun_example = init_overrun listed_pipes (λ e. cc) (omega arith) (omega arith)

prepare-Moves_example :
    Moves hw_primary pipes (vig ∷ rgb ∷ reserve hw_primary dma ∷ [])
    × (record ready { src_pipes = vig ∷ rgb ∷ reserve hw_primary dma ∷ [] }
        ≡ record ready { src_pipes = vig ∷ rgb ∷ reserve hw_primary dma ∷ [] })
unfolding natural block_eq is_valid empty_rect is_congruent normalize intersection reposition union
    subtract split_left_right map_rect transform_hv ◌-ℤ◌ ◌+ℤ◌ floor_to_multiple_of
    ceil_to_multiple_of round_up_align_down round_up_align_up is_ubwc_format get_buffer_layout
    is_10_bit_format is_free reset_pipe reset_pipes search_pipe search_pipe_from next_pipe try_pipe
    get_pipe is_scaling_needed validate_layer_params validate_dimensions validate_down_scaling
    validate_up_scaling validate_scaling validate_pipe_params calculate_decimation
    set_decimation_factor new_pipe_info calculate_crop_rects split_rect src_split_config
    display_split_config align_pipe_config config assign_single assign_dual reserve_pipes
    prepare_layer prepare_layers prepare
prepare-Moves_example =
    prepare-Moves 1 frame _ ready
      (record ready { src_pipes = vig ∷ rgb ∷ reserve hw_primary dma ∷ [] }) context error_none refl
      refl

abbrev half_pipe : HwPipeInfo ℕ
half_pipe = record no_pipe {
  src_roi = rect 0 0 540 1920;
  dst_roi = rect 0 0 540 1920;
  valid = true;
}

-- Two pipes of the primary block: the search gives the DMA pipe first, and the RGB pipe, whose
-- priority number is lower, goes to the left.
abbrev two_pipes : Prepared ℕ
two_pipes = record {
  error = error_none;
  config = record {
    left_pipe = record half_pipe { pipe_id = 12 };
    right_pipe = record half_pipe { pipe_id = 13 };
  };
  src_pipes = vig ∷ reserve hw_primary rgb ∷ reserve hw_primary dma ∷ [];
}

reserve_pipes-Distinct_example : Distinct hw_primary two_pipes
unfolding natural block_eq is_valid empty_rect is_congruent normalize intersection reposition union
    subtract split_left_right map_rect transform_hv ◌-ℤ◌ ◌+ℤ◌ floor_to_multiple_of
    ceil_to_multiple_of round_up_align_down round_up_align_up is_ubwc_format get_buffer_layout
    is_10_bit_format is_free reset_pipe reset_pipes search_pipe search_pipe_from next_pipe try_pipe
    get_pipe is_scaling_needed validate_layer_params validate_dimensions validate_down_scaling
    validate_up_scaling validate_scaling validate_pipe_params calculate_decimation
    set_decimation_factor new_pipe_info calculate_crop_rects split_rect src_split_config
    display_split_config align_pipe_config config assign_single assign_dual reserve_pipes
    prepare_layer prepare_layers prepare
reserve_pipes-Distinct_example =
    reserve_pipes-Distinct info 3 hw_primary
      (record { left_pipe = half_pipe; right_pipe = half_pipe }) pipes two_pipes
      (refl, (refl, (refl, tt))) refl refl refl refl refl refl
