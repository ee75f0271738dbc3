-- ===== src/Gralloc/Adreno.antt =====
-- gr_adreno_info.cpp: AdrenoMemInfo over libadreno_utils, whose symbols are parameters that may be
-- missing. GetInstance never returns null, so its instance is a value here.
use platform_hardware_qcom_d.Base.{ℕ, Bool, true, false, ◌&&◌, Option, none, some, if◌then◌else◌}
use platform_hardware_qcom_d.Gralloc.Words.{align}
use platform_hardware_qcom_d.Gralloc.{
  PixelFormat, rgba_8888, rgbx_8888, rgb_888, rgb_565, bgr_565, bgra_8888, rgba_5551, rgba_4444,
  rgba_1010102, rgbx_1010102, abgr_2101010, rgba_fp16, bgr_888, ycbcr_420_sp_venus, nv12_encodeable,
  ycbcr_420_sp_venus_ubwc, ycbcr_420_p010, ycbcr_420_tp10_ubwc, ycbcr_420_p010_ubwc,
  ycbcr_420_p010_venus, depth_16, depth_24, depth_24_stencil_8, depth_32f, stencil_8, Usage,
}

-- ADRENOPIXELFORMAT, as far as GetGpuPixelFormat names it.
pub data AdrenoPixelFormat : Type 0 where
  unknown r16g16b16a16_float r10g10b10a2_unorm r8g8b8a8 d32_float : AdrenoPixelFormat
  d24_unorm_s8_uint d16_unorm b5g6r5 b8g8r8a8_unorm nv12 p010 nv12_ext : AdrenoPixelFormat
  r8g8b8x8 r8g8b8 a2b10g10r10_unorm r10g10b10x2_unorm d24_unorm_x8_uint : AdrenoPixelFormat
  s8_uint r5g6b5 r5g5b5a1 r4g4b4a4 tp10 : AdrenoPixelFormat

-- The symbols of libadreno_utils; M is the metadata blob. A result of zero from
-- init_memory_layout is the `true` of its pair.
pub record AdrenoUtils (M : Type 0) : Type 0 where
  pub compute_padding : Option (ℕ → ℕ → ℕ → ℕ → ℕ → ℕ)
  pub compute_aligned : Option (ℕ → ℕ → ℕ → Bool → ℕ → ℕ → ℕ × ℕ)
  pub compute_fmt_aligned : Option (ℕ → ℕ → ℕ → AdrenoPixelFormat → ℕ → Bool → ℕ → ℕ → ℕ × ℕ)
  pub compute_compressedfmt_aligned : Option (ℕ → ℕ → PixelFormat → ℕ → ℕ → ℕ → ℕ × ℕ)
  pub ubwc_supported_by_gpu : Option (AdrenoPixelFormat → Bool)
  pub gpu_pixel_alignment : Option ℕ
  pub metadata_blob_size : Option ℕ
  pub init_memory_layout :
      Option (M → ℕ → ℕ → ℕ → AdrenoPixelFormat → ℕ → Bool → Usage → ℕ → Bool × M)
  pub aligned_gpu_buffer_size : Option (M → ℕ)

-- AdrenoMemInfo: its library and what the two properties of its constructor switch off.
pub record AdrenoMemInfo (M : Type 0) : Type 0 where
  pub utils : AdrenoUtils M
  pub gfx_ubwc_disable : Bool
  pub gfx_ahardware_buffer_disable : Bool

-- GraphicsMetadata.
pub record GraphicsMetadata (M : Type 0) : Type 0 where
  pub size : ℕ
  pub data_blob : M

-- GetGpuPixelFormat.
unfoldable pub get_gpu_pixel_format : PixelFormat → AdrenoPixelFormat
get_gpu_pixel_format rgba_8888 = r8g8b8a8
get_gpu_pixel_format rgbx_8888 = r8g8b8x8
get_gpu_pixel_format bgra_8888 = b8g8r8a8_unorm
get_gpu_pixel_format rgb_888 = r8g8b8
get_gpu_pixel_format rgb_565 = b5g6r5
get_gpu_pixel_format bgr_565 = r5g6b5
get_gpu_pixel_format rgba_5551 = r5g5b5a1
get_gpu_pixel_format rgba_4444 = r4g4b4a4
get_gpu_pixel_format rgba_1010102 = r10g10b10a2_unorm
get_gpu_pixel_format rgbx_1010102 = r10g10b10x2_unorm
get_gpu_pixel_format abgr_2101010 = a2b10g10r10_unorm
get_gpu_pixel_format rgba_fp16 = r16g16b16a16_float
get_gpu_pixel_format nv12_encodeable = nv12
get_gpu_pixel_format ycbcr_420_sp_venus = nv12_ext
get_gpu_pixel_format ycbcr_420_sp_venus_ubwc = nv12_ext
get_gpu_pixel_format ycbcr_420_tp10_ubwc = tp10
get_gpu_pixel_format ycbcr_420_p010 = p010
get_gpu_pixel_format ycbcr_420_p010_ubwc = p010
get_gpu_pixel_format ycbcr_420_p010_venus = p010
get_gpu_pixel_format depth_16 = d16_unorm
get_gpu_pixel_format depth_24 = d24_unorm_x8_uint
get_gpu_pixel_format depth_24_stencil_8 = d24_unorm_s8_uint
get_gpu_pixel_format depth_32f = d32_float
get_gpu_pixel_format stencil_8 = s8_uint
get_gpu_pixel_format _ = unknown

-- The bpp that AlignUnCompressedRGB computes for the older entry points.
unfoldable pub align_bpp : PixelFormat → ℕ
align_bpp rgb_888 = 3
align_bpp bgr_888 = 3
align_bpp rgb_565 = 2
align_bpp bgr_565 = 2
align_bpp rgba_5551 = 2
align_bpp rgba_4444 = 2
align_bpp _ = 4

-- Whether dlsym found the symbol.
abbrev has : {A : Type 0} → Option A → Bool
has (some _) = true
has none = false

module _ {M : Type 0} where
  -- AlignUnCompressedRGB: the first entry point that the library has.
  unfoldable pub align_uncompressed_rgb : AdrenoMemInfo M → ℕ → ℕ → PixelFormat → Bool → ℕ × ℕ
  unfolding align align_bpp get_gpu_pixel_format
  align_uncompressed_rgb info width height format tile_enabled =
      elim info.utils.compute_fmt_aligned [
        | some compute ↦ compute width height 0 (get_gpu_pixel_format format) 1 tile_enabled 0 512
        | none ↦ elim info.utils.compute_aligned [
          | some compute ↦ compute width height (align_bpp format) tile_enabled 0 512
          | none ↦ elim info.utils.compute_padding [
            | some compute ↦ (compute width (align_bpp format) 1 0 512, align height 32)
            | none ↦ (align width 32, align height 32)
          ]
        ]
      ]

  -- AlignCompressedRGB.
  unfoldable pub align_compressed_rgb : AdrenoMemInfo M → ℕ → ℕ → PixelFormat → ℕ × ℕ
  unfolding align
  align_compressed_rgb info width height format = elim info.utils.compute_compressedfmt_aligned [
    | some compute ↦ compute width height format 0 0 512
    | none ↦ (align width 32, align height 32)
  ]

  -- IsUBWCSupportedByGPU.
  unfoldable pub is_ubwc_supported_by_gpu : AdrenoMemInfo M → PixelFormat → Bool
  unfolding get_gpu_pixel_format
  is_ubwc_supported_by_gpu info format =
      if info.gfx_ubwc_disable then false else elim info.utils.ubwc_supported_by_gpu [
        | some supported ↦ supported (get_gpu_pixel_format format)
        | none ↦ false
      ]

  -- GetGpuPixelAlignment.
  unfoldable pub get_gpu_pixel_alignment : AdrenoMemInfo M → ℕ
  get_gpu_pixel_alignment info = elim info.utils.gpu_pixel_alignment [ some a ↦ a | none ↦ 1 ]

  -- AdrenoGetMetadataBlobSize.
  unfoldable pub adreno_get_metadata_blob_size : AdrenoMemInfo M → ℕ
  adreno_get_metadata_blob_size info = elim info.utils.metadata_blob_size [ some n ↦ n | none ↦ 0 ]

  -- AdrenoInitMemoryLayout: whether it returns 0, and the blob that it leaves.
  unfoldable pub adreno_init_memory_layout :
      AdrenoMemInfo M → M → ℕ → ℕ → ℕ → PixelFormat → ℕ → Bool → Usage → ℕ → Bool × M
  unfolding get_gpu_pixel_format
  adreno_init_memory_layout info memory width height depth format samples is_ubwc usage planes =
      elim info.utils.init_memory_layout [
        | some init ↦
            init memory width height depth (get_gpu_pixel_format format) samples is_ubwc usage
              planes
        | none ↦ (false, memory)
      ]

  -- AdrenoGetAlignedGpuBufferSize; -1 as an unsigned word where the symbol is missing.
  unfoldable pub adreno_get_aligned_gpu_buffer_size : AdrenoMemInfo M → M → ℕ
  adreno_get_aligned_gpu_buffer_size info memory = elim info.utils.aligned_gpu_buffer_size [
    | some size ↦ size memory
    | none ↦ 4294967295
  ]

  -- AdrenoSizeAPIAvaliable.
  unfoldable pub adreno_size_api_avaliable : AdrenoMemInfo M → Bool
  adreno_size_api_avaliable info =
      if info.gfx_ahardware_buffer_disable
      then false
      else (has info.utils.metadata_blob_size
          && has info.utils.init_memory_layout
          && has info.utils.aligned_gpu_buffer_size)
