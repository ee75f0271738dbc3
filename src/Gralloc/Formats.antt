-- ===== src/Gralloc/Formats.antt =====
-- gr_utils.cpp: what a pixel format is, and which accesses a usage names.
use platform_hardware_qcom_d.Base.{ℕ, Bool, true, false, ◌||◌, not, ◌≡◌, arith}
use platform_hardware_qcom_d.Gralloc.{
  PixelFormat, rgba_8888, rgbx_8888, rgb_888, rgb_565, bgr_565, bgra_8888, rgba_5551, rgba_4444,
  r_8, rg_88, bgrx_8888, rgba_1010102, argb_2101010, rgbx_1010102, xrgb_2101010, bgra_1010102,
  abgr_2101010, bgrx_1010102, xbgr_2101010, rgba_fp16, bgr_888, astc, ycbcr_420_sp, ycbcr_422_sp,
  ycbcr_420_sp_venus, nv12_encodeable, nv21_encodeable, ycbcr_420_sp_venus_ubwc, ycrcb_420_sp,
  ycrcb_422_sp, ycrcb_420_sp_adreno, ycrcb_420_sp_venus, nv21_zsl, raw16, y16, raw12, raw10, yv12,
  y8, ycbcr_420_p010, ycbcr_420_tp10_ubwc, ycbcr_420_p010_ubwc, ycbcr_420_p010_venus, blob,
  raw_opaque, depth_16, depth_24, depth_24_stencil_8, depth_32f, stencil_8, CpuAccess, access_never,
  access_rarely, Usage,
}

-- IsYuvFormat.
unfoldable pub is_yuv_format : PixelFormat → Bool
is_yuv_format ycbcr_420_sp = true
is_yuv_format ycbcr_422_sp = true
is_yuv_format ycbcr_420_sp_venus = true
is_yuv_format nv12_encodeable = true
is_yuv_format nv21_encodeable = true
is_yuv_format ycbcr_420_sp_venus_ubwc = true
is_yuv_format ycrcb_420_sp = true
is_yuv_format ycrcb_422_sp = true
is_yuv_format ycrcb_420_sp_adreno = true
is_yuv_format ycrcb_420_sp_venus = true
is_yuv_format nv21_zsl = true
is_yuv_format raw16 = true
is_yuv_format y16 = true
is_yuv_format raw12 = true
is_yuv_format raw10 = true
is_yuv_format yv12 = true
is_yuv_format y8 = true
is_yuv_format ycbcr_420_p010 = true
is_yuv_format ycbcr_420_tp10_ubwc = true
is_yuv_format ycbcr_420_p010_ubwc = true
is_yuv_format ycbcr_420_p010_venus = true
is_yuv_format blob = true
is_yuv_format raw_opaque = true
is_yuv_format _ = false

-- IsUncompressedRGBFormat.
unfoldable pub is_uncompressed_rgb_format : PixelFormat → Bool
is_uncompressed_rgb_format rgba_8888 = true
is_uncompressed_rgb_format rgbx_8888 = true
is_uncompressed_rgb_format rgb_888 = true
is_uncompressed_rgb_format rgb_565 = true
is_uncompressed_rgb_format bgr_565 = true
is_uncompressed_rgb_format bgra_8888 = true
is_uncompressed_rgb_format rgba_5551 = true
is_uncompressed_rgb_format rgba_4444 = true
is_uncompressed_rgb_format r_8 = true
is_uncompressed_rgb_format rg_88 = true
is_uncompressed_rgb_format bgrx_8888 = true
is_uncompressed_rgb_format rgba_1010102 = true
is_uncompressed_rgb_format argb_2101010 = true
is_uncompressed_rgb_format rgbx_1010102 = true
is_uncompressed_rgb_format xrgb_2101010 = true
is_uncompressed_rgb_format bgra_1010102 = true
is_uncompressed_rgb_format abgr_2101010 = true
is_uncompressed_rgb_format bgrx_1010102 = true
is_uncompressed_rgb_format xbgr_2101010 = true
is_uncompressed_rgb_format rgba_fp16 = true
is_uncompressed_rgb_format bgr_888 = true
is_uncompressed_rgb_format _ = false

-- IsCompressedRGBFormat: the fourteen block sizes, in both colour spaces.
unfoldable pub is_compressed_rgb_format : PixelFormat → Bool
is_compressed_rgb_format (astc block srgb) = true
is_compressed_rgb_format _ = false

-- GetBppForUncompressedRGB.
unfoldable pub get_bpp_for_uncompressed_rgb : PixelFormat → ℕ
get_bpp_for_uncompressed_rgb rgba_fp16 = 8
get_bpp_for_uncompressed_rgb rgba_8888 = 4
get_bpp_for_uncompressed_rgb rgbx_8888 = 4
get_bpp_for_uncompressed_rgb bgra_8888 = 4
get_bpp_for_uncompressed_rgb bgrx_8888 = 4
get_bpp_for_uncompressed_rgb rgba_1010102 = 4
get_bpp_for_uncompressed_rgb argb_2101010 = 4
get_bpp_for_uncompressed_rgb rgbx_1010102 = 4
get_bpp_for_uncompressed_rgb xrgb_2101010 = 4
get_bpp_for_uncompressed_rgb bgra_1010102 = 4
get_bpp_for_uncompressed_rgb abgr_2101010 = 4
get_bpp_for_uncompressed_rgb bgrx_1010102 = 4
get_bpp_for_uncompressed_rgb xbgr_2101010 = 4
get_bpp_for_uncompressed_rgb rgb_888 = 3
get_bpp_for_uncompressed_rgb bgr_888 = 3
get_bpp_for_uncompressed_rgb rgb_565 = 2
get_bpp_for_uncompressed_rgb bgr_565 = 2
get_bpp_for_uncompressed_rgb rgba_5551 = 2
get_bpp_for_uncompressed_rgb rgba_4444 = 2
get_bpp_for_uncompressed_rgb _ = 0

-- IsUBwcFormat.
unfoldable pub is_ubwc_format : PixelFormat → Bool
is_ubwc_format ycbcr_420_sp_venus_ubwc = true
is_ubwc_format ycbcr_420_tp10_ubwc = true
is_ubwc_format ycbcr_420_p010_ubwc = true
is_ubwc_format _ = false

-- IsUBwcSupported.
unfoldable pub is_ubwc_supported : PixelFormat → Bool
is_ubwc_supported bgr_565 = true
is_ubwc_supported rgba_8888 = true
is_ubwc_supported rgbx_8888 = true
is_ubwc_supported nv12_encodeable = true
is_ubwc_supported nv21_encodeable = true
is_ubwc_supported ycbcr_420_sp_venus = true
is_ubwc_supported rgba_1010102 = true
is_ubwc_supported rgbx_1010102 = true
is_ubwc_supported depth_16 = true
is_ubwc_supported depth_24 = true
is_ubwc_supported depth_24_stencil_8 = true
is_ubwc_supported depth_32f = true
is_ubwc_supported stencil_8 = true
is_ubwc_supported _ = false

-- A nonzero value under the mask.
abbrev pub is_accessed : CpuAccess → Bool
is_accessed access_never = false
is_accessed _ = true

-- The value is CPU_READ_RARELY, or CPU_WRITE_RARELY.
abbrev pub is_rare : CpuAccess → Bool
is_rare access_rarely = true
is_rare _ = false

-- CpuCanRead, CpuCanWrite, CpuCanAccess.
unfoldable pub cpu_can_read : Usage → Bool
cpu_can_read usage = is_accessed usage.cpu_read

unfoldable pub cpu_can_write : Usage → Bool
cpu_can_write usage = is_accessed usage.cpu_write

unfoldable pub cpu_can_access : Usage → Bool
unfolding cpu_can_read cpu_can_write
cpu_can_access usage = cpu_can_read usage || cpu_can_write usage

-- IsGPUFlagSupported.
unfoldable pub is_gpu_flag_supported : Usage → Bool
is_gpu_flag_supported usage = not (usage.gpu_mipmap_complete || usage.gpu_cube_map)

is_yuv_format-is_uncompressed_rgb_format :
    (f : PixelFormat) → is_yuv_format f ≡ true → is_uncompressed_rgb_format f ≡ false
unfolding is_yuv_format is_uncompressed_rgb_format
is_yuv_format-is_uncompressed_rgb_format f h = grind arith
