-- ===== src/Gralloc/Dimensions.antt =====
-- gr_utils.cpp: what a buffer's dimensions stand on. The VENUS_* macros of msm_media_info.h and the
-- page size of the system are parameters.
use platform_hardware_qcom_d.Base.{ℕ, Bool, true, false, not, ◌&&◌, ◌||◌, if◌then◌else◌, ◌/◌}
use platform_hardware_qcom_d.Gralloc.Words.{align, ◌*ʷ◌}
use platform_hardware_qcom_d.Gralloc.Formats.{
  is_ubwc_format, is_ubwc_supported, cpu_can_access, is_uncompressed_rgb_format,
  is_compressed_rgb_format,
}
use platform_hardware_qcom_d.Gralloc.Adreno.{
  AdrenoMemInfo, is_ubwc_supported_by_gpu, align_uncompressed_rgb, align_compressed_rgb,
  get_gpu_pixel_alignment,
}
use platform_hardware_qcom_d.Gralloc.{
  PixelFormat, ycbcr_420_sp, ycbcr_422_sp, ycbcr_420_sp_venus, nv12_encodeable, nv21_encodeable,
  ycbcr_420_sp_venus_ubwc, ycrcb_420_sp, ycrcb_422_sp, ycrcb_420_sp_adreno, ycrcb_420_sp_venus,
  nv21_zsl, raw16, y16, raw12, raw10, raw8, yv12, y8, ycbcr_420_p010, ycbcr_420_tp10_ubwc,
  ycbcr_420_p010_ubwc, ycbcr_420_p010_venus, ycbcr_420_sp_tiled, ycbcr_422_i, ycrcb_422_i, Usage,
  BufferInfo, BuildOptions,
}

-- COLOR_FMT_*.
pub data ColorFormat : Type 0 where
  color_nv12 color_nv21 color_nv12_ubwc color_nv12_bpp10_ubwc color_p010 : ColorFormat
  color_p010_ubwc : ColorFormat

-- The macros of msm_media_info.h.
pub record Venus : Type 0 where
  pub buffer_size : ColorFormat → ℕ → ℕ → ℕ
  pub y_stride : ColorFormat → ℕ → ℕ
  pub y_scanlines : ColorFormat → ℕ → ℕ
  pub uv_stride : ColorFormat → ℕ → ℕ
  pub uv_scanlines : ColorFormat → ℕ → ℕ
  pub y_meta_stride : ColorFormat → ℕ → ℕ
  pub y_meta_scanlines : ColorFormat → ℕ → ℕ
  pub uv_meta_stride : ColorFormat → ℕ → ℕ
  pub uv_meta_scanlines : ColorFormat → ℕ → ℕ

-- What the functions of gr_utils.cpp read besides their arguments.
pub record Environment (M : Type 0) : Type 0 where
  pub adreno : AdrenoMemInfo M
  pub venus : Venus
  pub options : BuildOptions
  pub page_size : ℕ

-- GetYuvUBwcWidthAndHeight.
unfoldable pub get_yuv_ubwc_width_and_height : Venus → ℕ → ℕ → PixelFormat → ℕ × ℕ
get_yuv_ubwc_width_and_height venus width height nv12_encodeable =
    (venus.y_stride color_nv12 width, venus.y_scanlines color_nv12 height)
get_yuv_ubwc_width_and_height venus width height nv21_encodeable =
    (venus.y_stride color_nv12 width, venus.y_scanlines color_nv12 height)
get_yuv_ubwc_width_and_height venus width height ycbcr_420_sp_venus =
    (venus.y_stride color_nv12 width, venus.y_scanlines color_nv12 height)
get_yuv_ubwc_width_and_height venus width height ycbcr_420_sp_venus_ubwc =
    (venus.y_stride color_nv12_ubwc width, venus.y_scanlines color_nv12_ubwc height)
get_yuv_ubwc_width_and_height venus width height ycbcr_420_tp10_ubwc = (
  (venus.y_stride color_nv12_bpp10_ubwc width *ʷ 3) / 4,
  venus.y_scanlines color_nv12_bpp10_ubwc height,
)
get_yuv_ubwc_width_and_height venus width height ycbcr_420_p010_ubwc =
    (venus.y_stride color_p010_ubwc width / 2, venus.y_scanlines color_p010_ubwc height)
get_yuv_ubwc_width_and_height venus width height _ = (0, 0)

module _ {M : Type 0} where
  -- IsUBwcEnabled.
  unfoldable pub is_ubwc_enabled : Environment M → PixelFormat → Usage → Bool
  unfolding is_ubwc_format is_ubwc_supported is_ubwc_supported_by_gpu cpu_can_access
  is_ubwc_enabled env format usage =
      if is_ubwc_format format
      then true
      else if (usage.alloc_ubwc || usage.composer_client_target) && is_ubwc_supported format
      then (if usage.gpu_texture || usage.gpu_render_target
          then is_ubwc_supported_by_gpu env.adreno format
          else true)
        && not (cpu_can_access usage)
      else false

  -- The switch at the end of GetAlignedWidthAndHeight.
  unfoldable pub align_yuv : Environment M → ℕ → ℕ → PixelFormat → ℕ × ℕ
  unfolding align get_gpu_pixel_alignment
  align_yuv env width height ycrcb_420_sp =
      let h = if env.options.use_aligned_ycrcb_height then align height 32 else height in
      if env.options.use_unaligned_ycrcb then (width, h) else (
        align width (get_gpu_pixel_alignment env.adreno),
        if env.options.use_aligned_ycbcr_height then align height 32 else h,
      )
  align_yuv env width height ycbcr_420_sp = (
    align width (get_gpu_pixel_alignment env.adreno),
    if env.options.use_aligned_ycbcr_height then align height 32 else height,
  )
  align_yuv env width height ycrcb_420_sp_adreno = (align width 32, height)
  align_yuv env width height raw16 = (align width 16, height)
  align_yuv env width height y16 = (align width 16, height)
  align_yuv env width height y8 = (align width 16, height)
  align_yuv env width height raw12 = (align ((width *ʷ 12) / 8) 16, height)
  align_yuv env width height raw10 = (align ((width *ʷ 10) / 8) 16, height)
  align_yuv env width height raw8 = (align width 16, height)
  align_yuv env width height ycbcr_420_sp_tiled = (align width 128, height)
  align_yuv env width height yv12 = (align width 16, height)
  align_yuv env width height ycbcr_422_sp = (align width 16, height)
  align_yuv env width height ycrcb_422_sp = (align width 16, height)
  align_yuv env width height ycbcr_422_i = (align width 16, height)
  align_yuv env width height ycrcb_422_i = (align width 16, height)
  align_yuv env width height ycbcr_420_p010 = (align width 16, height)
  align_yuv env width height ycbcr_420_p010_venus =
      (env.venus.y_stride color_p010 width / 2, env.venus.y_scanlines color_p010 height)
  align_yuv env width height ycbcr_420_sp_venus =
      (env.venus.y_stride color_nv12 width, env.venus.y_scanlines color_nv12 height)
  align_yuv env width height nv12_encodeable =
      (env.venus.y_stride color_nv12 width, env.venus.y_scanlines color_nv12 height)
  align_yuv env width height ycrcb_420_sp_venus =
      (env.venus.y_stride color_nv21 width, env.venus.y_scanlines color_nv21 height)
  align_yuv env width height nv21_encodeable =
      (env.venus.y_stride color_nv21 width, env.venus.y_scanlines color_nv21 height)
  align_yuv env width height nv21_zsl =
      if env.options.use_unaligned_nv21_zsl
      then (width, height)
      else (align width 64, align height 64)
  align_yuv env width height _ = (width, height)

  -- GetAlignedWidthAndHeight.
  unfoldable pub get_aligned_width_and_height : Environment M → BufferInfo → ℕ × ℕ
  unfolding is_ubwc_enabled get_yuv_ubwc_width_and_height align_yuv is_uncompressed_rgb_format
      is_compressed_rgb_format align_uncompressed_rgb align_compressed_rgb
  get_aligned_width_and_height env info =
      if is_uncompressed_rgb_format info.format
      then align_uncompressed_rgb env.adreno info.width info.height info.format
          (is_ubwc_enabled env info.format info.usage)
      else if is_ubwc_enabled env info.format info.usage
      then get_yuv_ubwc_width_and_height env.venus info.width info.height info.format
      else if is_compressed_rgb_format info.format
      then align_compressed_rgb env.adreno info.width info.height info.format
      else align_yuv env info.width info.height info.format
