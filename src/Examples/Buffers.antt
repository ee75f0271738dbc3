-- ===== src/Examples/Buffers.antt =====
-- The witnesses of the theorems on gralloc: a platform whose kernel counts its calls, two handles
-- in memory, and a manager that knows one of them.
use platform_hardware_qcom_d.Base.{ℕ, suc, true, false, ◌+◌, ◌==◌, if◌then◌else◌, none, some, ltb}
use platform_hardware_qcom_d.Base.Int.{pos, negsuc}
use platform_hardware_qcom_d.Gralloc.{rgba_8888, unlisted, Usage, access_never, access_other}
use platform_hardware_qcom_d.Gralloc.Adreno.{AdrenoUtils}
use platform_hardware_qcom_d.Gralloc.Dimensions.{Venus, Environment}
use platform_hardware_qcom_d.Gralloc.Allocator.{Headers}
use platform_hardware_qcom_d.Gralloc.Ion.{Kernel}
use platform_hardware_qcom_d.Gralloc.Manager.{Platform}

abbrev pub no_usage : Usage
no_usage = record {
  cpu_read = access_never;
  cpu_write = access_never;
  protected = false;
  gralloc_protected = false;
  secure_display = false;
  camera_output = false;
  camera_input = false;
  video_encoder = false;
  video_decoder = false;
  nv21_encoder = false;
  composer_overlay = false;
  composer_client_target = false;
  gpu_texture = false;
  gpu_render_target = false;
  gpu_mipmap_complete = false;
  gpu_cube_map = false;
  gpu_data_buffer = false;
  sensor_direct_data = false;
  alloc_ubwc = false;
  private_10bit = false;
  private_10bit_tp = false;
  uncached = false;
}

abbrev pub reading : Usage
reading = record no_usage { cpu_read = access_other }

abbrev pub writing : Usage
writing = record no_usage { cpu_write = access_other }

-- A library without symbols, and macros that keep dimensions.
abbrev no_utils : AdrenoUtils (Unit {0})
no_utils = record {
  compute_padding = none;
  compute_aligned = none;
  compute_fmt_aligned = none;
  compute_compressedfmt_aligned = none;
  ubwc_supported_by_gpu = none;
  gpu_pixel_alignment = none;
  metadata_blob_size = none;
  init_memory_layout = none;
  aligned_gpu_buffer_size = none;
}

abbrev plain_venus : Venus
plain_venus = record {
  buffer_size = λ c w h. w + h;
  y_stride = λ c w. w;
  y_scanlines = λ c h. h;
  uv_stride = λ c w. w;
  uv_scanlines = λ c h. h;
  y_meta_stride = λ c w. w;
  y_meta_scanlines = λ c h. h;
  uv_meta_stride = λ c w. w;
  uv_meta_scanlines = λ c h. h;
}

abbrev pub test_env : Environment (Unit {0})
test_env = record {
  adreno = record {
    utils = no_utils;
    gfx_ubwc_disable = false;
    gfx_ahardware_buffer_disable = false;
  };
  venus = plain_venus;
  options = record {
    master_side_cp = true;
    use_ycrcb_camera_preview = false;
    use_ycrcb_camera_preview_venus = false;
    use_aligned_ycrcb_height = false;
    use_unaligned_ycrcb = false;
    use_aligned_ycbcr_height = false;
    use_unaligned_nv21_zsl = false;
  };
  page_size = 4096;
}

-- Format 1 is RGBA_8888, usage 1 a protected one, and ION_SECURE the flag 1.
abbrev pub test_headers : Headers
test_headers = record {
  pixel_format = λ n. if n == 1 then rgba_8888 else unlisted n;
  usage_bits = λ n.
      if n == 1 then record no_usage { protected = true; gralloc_protected = true } else no_usage;
  ion_secure = 1;
  ion_flag_cp_pixel = 2;
  ion_flag_cp_sec_display = 4;
  ion_flag_cp_camera = 8;
  ion_flag_cp_camera_preview = 16;
  ion_flag_allow_non_contig = 32;
}

-- A kernel that counts its calls and maps below the descriptor 9.
abbrev counting : Kernel ℕ
counting = record {
  ioctl_alloc = λ size alignment heap flags cached k. (some (pos 4), suc k);
  ioctl_map = λ handle k. (some (pos 6), suc k);
  ioctl_free = λ handle k. suc k;
  ioctl_import = λ fd k. (some (pos 3), suc k);
  ioctl_cache = λ op handle base offset size k. (true, suc k);
  mmap = λ size fd k.
      (elim fd [ pos n ↦ if ltb n 9 then some 8192 else none | negsuc n ↦ none ], suc k);
  munmap = λ base size k. (ltb base 16384, suc k);
  close = λ fd k. suc k;
  seek_end = λ fd k. 4096;
}

abbrev pub test_platform : Platform (Unit {0}) ℕ
test_platform = record {
  env = test_env;
  headers = test_headers;
  calls = counting;
  use_system_heap = false;
  validate = λ hnd. true;
  fresh = λ heap. 40;
  metadata_size = 512;
  metadata_page_size = 4096;
  zero_blob = tt;
  set_color_space = λ hnd video k. suc k;
  set_graphics_metadata = λ hnd metadata k. suc k;
}
