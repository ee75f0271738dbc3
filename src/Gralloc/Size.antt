-- ===== src/Gralloc/Size.antt =====
-- gr_utils.cpp: the size of a buffer.
use platform_hardware_qcom_d.Base.{
  ℕ, Bool, true, false, not, ◌&&◌, ◌||◌, if◌then◌else◌, ◌-◌, ◌/◌, ◌%◌, ◌==◌, Option, none, some,
}
use platform_hardware_qcom_d.Gralloc.Words.{align, ◌*ʷ◌, ◌+ʷ◌}
use platform_hardware_qcom_d.Gralloc.Formats.{
  is_uncompressed_rgb_format, is_compressed_rgb_format, is_gpu_flag_supported, is_yuv_format,
  get_bpp_for_uncompressed_rgb,
}
use platform_hardware_qcom_d.Gralloc.Adreno.{
  GraphicsMetadata, adreno_size_api_avaliable, adreno_init_memory_layout,
  adreno_get_metadata_blob_size, adreno_get_aligned_gpu_buffer_size,
}
use platform_hardware_qcom_d.Gralloc.Dimensions.{
  color_nv12, color_nv21, color_nv12_ubwc, color_nv12_bpp10_ubwc, color_p010, color_p010_ubwc,
  Venus, Environment, is_ubwc_enabled, get_aligned_width_and_height,
}
use platform_hardware_qcom_d.Gralloc.{
  PixelFormat, rgba_8888, rgbx_8888, bgr_565, rgba_1010102, rgbx_1010102, ycbcr_420_sp,
  ycbcr_422_sp, ycbcr_420_sp_venus, nv12_encodeable, nv21_encodeable, ycbcr_420_sp_venus_ubwc,
  ycrcb_420_sp, ycrcb_422_sp, ycrcb_420_sp_adreno, ycrcb_420_sp_venus, nv21_zsl, raw16, y16, raw12,
  raw10, raw8, yv12, y8, ycbcr_420_p010, ycbcr_420_tp10_ubwc, ycbcr_420_p010_ubwc,
  ycbcr_420_p010_venus, blob, raw_opaque, ycbcr_420_sp_tiled, ycbcr_422_i, ycrcb_422_i,
  cbycry_422_i, Usage, BufferInfo,
}

-- GetRgbUBwcBlockSize.
unfoldable pub get_rgb_ubwc_block_size : ℕ → ℕ × ℕ
get_rgb_ubwc_block_size bpp =
    if (bpp == 2) || (bpp == 4)
    then (16, 4)
    else if bpp == 8
    then (8, 4)
    else if bpp == 16
    then (4, 4)
    else (0, 0)

-- The number of blocks that cover a dimension.
abbrev pub blocks : ℕ → ℕ → ℕ
blocks dimension block = (dimension +ʷ (block - 1)) / block

-- GetRgbUBwcMetaBufferSize.
unfoldable pub get_rgb_ubwc_meta_buffer_size : ℕ → ℕ → ℕ → ℕ
unfolding get_rgb_ubwc_block_size align
get_rgb_ubwc_meta_buffer_size width height bpp =
    let (block_width, block_height) = get_rgb_ubwc_block_size bpp in
    if (block_width == 0) || (block_height == 0)
    then 0
    else align (align (blocks width block_width) 64 *ʷ align (blocks height block_height) 16) 4096

-- The case of GetUBwcSize for the RGB formats.
unfoldable pub rgb_ubwc_size : ℕ → ℕ → PixelFormat → ℕ → ℕ → ℕ
unfolding get_bpp_for_uncompressed_rgb get_rgb_ubwc_meta_buffer_size
rgb_ubwc_size width height format alignedw alignedh =
    (alignedw *ʷ alignedh *ʷ get_bpp_for_uncompressed_rgb format)
    +ʷ get_rgb_ubwc_meta_buffer_size width height (get_bpp_for_uncompressed_rgb format)

-- GetUBwcSize.
unfoldable pub get_ubwc_size : Venus → ℕ → ℕ → PixelFormat → ℕ → ℕ → ℕ
unfolding rgb_ubwc_size
get_ubwc_size venus width height bgr_565 w h = rgb_ubwc_size width height bgr_565 w h
get_ubwc_size venus width height rgba_8888 w h = rgb_ubwc_size width height rgba_8888 w h
get_ubwc_size venus width height rgbx_8888 w h = rgb_ubwc_size width height rgbx_8888 w h
get_ubwc_size venus width height rgba_1010102 w h = rgb_ubwc_size width height rgba_1010102 w h
get_ubwc_size venus width height rgbx_1010102 w h = rgb_ubwc_size width height rgbx_1010102 w h
get_ubwc_size venus width height nv12_encodeable w h = venus.buffer_size color_nv12 width height
get_ubwc_size venus width height nv21_encodeable w h = venus.buffer_size color_nv12 width height
get_ubwc_size venus width height ycbcr_420_sp_venus w h = venus.buffer_size color_nv12 width height
get_ubwc_size venus width height ycbcr_420_sp_venus_ubwc w h =
    venus.buffer_size color_nv12_ubwc width height
get_ubwc_size venus width height ycbcr_420_tp10_ubwc w h =
    venus.buffer_size color_nv12_bpp10_ubwc width height
get_ubwc_size venus width height ycbcr_420_p010_ubwc w h =
    venus.buffer_size color_p010_ubwc width height
get_ubwc_size venus width height _ w h = 0

-- The case of the formats 4:2:2, none where the width is odd.
unfoldable pub yuv422_size : ℕ → ℕ → ℕ → Option ℕ
unfolding align
yuv422_size width w h = if width % 2 == 1 then none else some (align (w *ʷ h *ʷ 2) 4096)

-- The case of BLOB and RAW_OPAQUE.
unfoldable pub blob_size : ℕ → ℕ → Option ℕ
blob_size width height = if height == 1 then some width else none

-- The switch of GetSize on the YUV and custom formats; none where it returns 0 at once. SIZE_4K and
-- SIZE_8K are both 4096 in gr_utils.h.
unfoldable pub yuv_size : Venus → ℕ → ℕ → PixelFormat → ℕ → ℕ → Option ℕ
unfolding align yuv422_size blob_size
yuv_size venus width height raw16 w h = some (w *ʷ h *ʷ 2)
yuv_size venus width height y16 w h = some (w *ʷ h *ʷ 2)
yuv_size venus width height raw10 w h = some (align (w *ʷ h) 4096)
yuv_size venus width height raw12 w h = some (align (w *ʷ h) 4096)
yuv_size venus width height raw8 w h = some (w *ʷ h *ʷ 1)
yuv_size venus width height y8 w h = some (w *ʷ h *ʷ 1)
yuv_size venus width height ycrcb_420_sp_adreno w h =
    some (align (w *ʷ h) 4096 +ʷ align (2 *ʷ align (width / 2) 32 *ʷ align (height / 2) 32) 4096)
yuv_size venus width height ycbcr_420_sp_tiled w h =
    some (align (w *ʷ h) 4096 +ʷ align (w *ʷ align (height / 2) 32) 4096)
yuv_size venus width height yv12 w h =
    if (width % 2 == 1) || (height % 2 == 1)
    then none
    else some (align (w *ʷ h +ʷ align (w / 2) 16 *ʷ (h / 2) *ʷ 2) 4096)
yuv_size venus width height ycbcr_420_sp w h = some (align (w *ʷ h +ʷ (w *ʷ h) / 2 +ʷ 1) 4096)
yuv_size venus width height ycrcb_420_sp w h = some (align (w *ʷ h +ʷ (w *ʷ h) / 2 +ʷ 1) 4096)
yuv_size venus width height ycbcr_420_p010 w h = some (align (w *ʷ h *ʷ 2 +ʷ w *ʷ h +ʷ 1) 4096)
yuv_size venus width height ycbcr_420_p010_venus w h =
    some (venus.buffer_size color_p010 width height)
yuv_size venus width height ycbcr_422_sp w h = yuv422_size width w h
yuv_size venus width height ycrcb_422_sp w h = yuv422_size width w h
yuv_size venus width height ycbcr_422_i w h = yuv422_size width w h
yuv_size venus width height ycrcb_422_i w h = yuv422_size width w h
yuv_size venus width height cbycry_422_i w h = yuv422_size width w h
yuv_size venus width height ycbcr_420_sp_venus w h =
    some (venus.buffer_size color_nv12 width height)
yuv_size venus width height nv12_encodeable w h = some (venus.buffer_size color_nv12 width height)
yuv_size venus width height ycrcb_420_sp_venus w h =
    some (venus.buffer_size color_nv21 width height)
yuv_size venus width height blob w h = blob_size width height
yuv_size venus width height raw_opaque w h = blob_size width height
yuv_size venus width height nv21_zsl w h = some (align (w *ʷ h +ʷ (w *ʷ h) / 2) 4096)
yuv_size venus width height _ w h = none

-- format == HAL_PIXEL_FORMAT_YCbCr_420_SP_TILED.
abbrev pub is_tiled : PixelFormat → Bool
is_tiled ycbcr_420_sp_tiled = true
is_tiled _ = false

-- GetBufferType: whether it is BUFFER_TYPE_VIDEO.
unfoldable pub is_video : PixelFormat → Bool
unfolding is_yuv_format
is_video format = is_yuv_format format

module _ {M : Type 0} where
  -- GetDataAlignment.
  unfoldable pub get_data_alignment : Environment M → PixelFormat → Usage → ℕ
  get_data_alignment env format usage =
      if usage.protected
      then (if usage.camera_output || usage.secure_display
          then 2097152
          else if env.options.master_side_cp
          then 4096
          else 1048576)
      else if is_tiled format
      then 8192
      else env.page_size

  -- The branches of GetSize; none where it returns 0 at once.
  unfoldable pub unaligned_size : Environment M → BufferInfo → ℕ → ℕ → Option ℕ
  unfolding is_ubwc_enabled get_ubwc_size is_uncompressed_rgb_format is_compressed_rgb_format
      get_bpp_for_uncompressed_rgb yuv_size
  unaligned_size env info w h =
      if is_ubwc_enabled env info.format info.usage
      then some (get_ubwc_size env.venus info.width info.height info.format w h)
      else if is_uncompressed_rgb_format info.format
      then some (w *ʷ h *ʷ get_bpp_for_uncompressed_rgb info.format)
      else if is_compressed_rgb_format info.format
      then some (w *ʷ h *ʷ 16)
      else yuv_size env.venus info.width info.height info.format w h

  -- GetSize.
  unfoldable pub get_size : Environment M → BufferInfo → ℕ → ℕ → ℕ
  unfolding is_gpu_flag_supported unaligned_size get_data_alignment align
  get_size env info w h =
      if is_gpu_flag_supported info.usage
      then elim (unaligned_size env info w h) [
        | none ↦ 0
        | some size ↦ align size (get_data_alignment env info.format info.usage) *ʷ info.layer_count
      ]
      else 0

  -- CanUseAdrenoForSize, of a buffer type and a usage.
  unfoldable pub can_use_adreno_for_size : Environment M → Bool → Usage → Bool
  unfolding adreno_size_api_avaliable
  can_use_adreno_for_size env video usage =
      if video || not (adreno_size_api_avaliable env.adreno)
      then false
      else if usage.protected && (usage.camera_output || usage.secure_display)
      then false
      else true

  -- GetGpuResourceSizeAndDimensions: the size, the aligned dimensions and the graphics metadata.
  unfoldable pub get_gpu_resource_size_and_dimensions :
      Environment M → BufferInfo → GraphicsMetadata M → ℕ × ℕ × ℕ × GraphicsMetadata M
  unfolding get_aligned_width_and_height is_ubwc_enabled adreno_init_memory_layout
      adreno_get_metadata_blob_size adreno_get_aligned_gpu_buffer_size
  get_gpu_resource_size_and_dimensions env info metadata =
      let (w, h) = get_aligned_width_and_height env info in
      let ubwc = is_ubwc_enabled env info.format info.usage in
      let (done, memory) =
        adreno_init_memory_layout env.adreno metadata.data_blob info.width info.height
          info.layer_count info.format 1 ubwc (record info.usage { alloc_ubwc = ubwc }) 1 in
      (
        if done then adreno_get_aligned_gpu_buffer_size env.adreno memory else 0,
        w,
        h,
        record { size = adreno_get_metadata_blob_size env.adreno; data_blob = memory },
      )

  -- GetBufferSizeAndDimensions.
  unfoldable pub get_buffer_size_and_dimensions :
      Environment M → BufferInfo → GraphicsMetadata M → ℕ × ℕ × ℕ × GraphicsMetadata M
  unfolding is_video can_use_adreno_for_size get_gpu_resource_size_and_dimensions
      get_aligned_width_and_height get_size
  get_buffer_size_and_dimensions env info metadata =
      if can_use_adreno_for_size env (is_video info.format) info.usage
      then get_gpu_resource_size_and_dimensions env info metadata
      else let (w, h) = get_aligned_width_and_height env info in
        (get_size env info w h, w, h, metadata)
