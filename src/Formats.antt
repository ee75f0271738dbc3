-- ===== src/Formats.antt =====
-- sdm/libs/utils/formats.cpp and the enumerations of sdm/include/core/layer_buffer.h that it
-- classifies: UBWC and 10-bit formats, layouts, bytes for each pixel, tile sizes, printed names.
pub mod Names
pub mod Layout
use Prim.Native.String.{String}
use platform_hardware_qcom_d.Base.{ℕ, Bool, true, false, if◌then◌else◌, Option, none, some}
use platform_hardware_qcom_d.Base.Float.{Float, of_nat, ◌*F◌}

-- LayerBufferFormat.
pub data LayerBufferFormat : Type 0 where
  argb8888 rgba8888 bgra8888 xrgb8888 rgbx8888 bgrx8888 rgba5551 rgba4444 : LayerBufferFormat
  rgb888 bgr888 rgb565 bgr565 rgba8888_ubwc rgbx8888_ubwc bgr565_ubwc : LayerBufferFormat
  rgba1010102 argb2101010 rgbx1010102 xrgb2101010 bgra1010102 abgr2101010 : LayerBufferFormat
  bgrx1010102 xbgr2101010 rgba1010102_ubwc rgbx1010102_ubwc rgb101010 : LayerBufferFormat
  ycbcr_420_planar ycrcb_420_planar ycrcb_420_planar_stride16 : LayerBufferFormat
  ycbcr_420_semi_planar ycrcb_420_semi_planar ycbcr_420_semi_planar_venus : LayerBufferFormat
  ycbcr_422_h1v2_semi_planar ycrcb_422_h1v2_semi_planar : LayerBufferFormat
  ycbcr_422_h2v1_semi_planar ycrcb_422_h2v1_semi_planar ycbcr_420_sp_venus_ubwc : LayerBufferFormat
  ycrcb_420_semi_planar_venus ycbcr_420_p010 ycbcr_420_tp10_ubwc : LayerBufferFormat
  ycbcr_420_p010_ubwc ycbcr_420_p010_venus ycbcr_422_h2v1_packed : LayerBufferFormat
  cbycry_422_h2v1_packed invalid : LayerBufferFormat

-- BufferLayout.
pub data BufferLayout : Type 0 where
  linear ubwc tp_tiled : BufferLayout

-- FormatTileSize.
pub record FormatTileSize : Type 0 where
  pub tile_width : ℕ
  pub tile_height : ℕ
  pub uv_tile_width : ℕ
  pub uv_tile_height : ℕ

-- IsUBWCFormat.
unfoldable pub is_ubwc_format : LayerBufferFormat → Bool
is_ubwc_format rgba8888_ubwc = true
is_ubwc_format rgbx8888_ubwc = true
is_ubwc_format bgr565_ubwc = true
is_ubwc_format ycbcr_420_sp_venus_ubwc = true
is_ubwc_format rgba1010102_ubwc = true
is_ubwc_format rgbx1010102_ubwc = true
is_ubwc_format ycbcr_420_tp10_ubwc = true
is_ubwc_format ycbcr_420_p010_ubwc = true
is_ubwc_format _ = false

-- Is10BitFormat.
unfoldable pub is_10_bit_format : LayerBufferFormat → Bool
is_10_bit_format rgba1010102 = true
is_10_bit_format argb2101010 = true
is_10_bit_format rgbx1010102 = true
is_10_bit_format xrgb2101010 = true
is_10_bit_format bgra1010102 = true
is_10_bit_format abgr2101010 = true
is_10_bit_format bgrx1010102 = true
is_10_bit_format xbgr2101010 = true
is_10_bit_format rgba1010102_ubwc = true
is_10_bit_format rgbx1010102_ubwc = true
is_10_bit_format ycbcr_420_p010 = true
is_10_bit_format ycbcr_420_tp10_ubwc = true
is_10_bit_format ycbcr_420_p010_ubwc = true
is_10_bit_format ycbcr_420_p010_venus = true
is_10_bit_format _ = false

-- GetFormatString.
unfoldable pub get_format_string : LayerBufferFormat → String
get_format_string argb8888 = "ARGB_8888"
get_format_string rgba8888 = "RGBA_8888"
get_format_string bgra8888 = "BGRA_8888"
get_format_string xrgb8888 = "XRGB_8888"
get_format_string rgbx8888 = "RGBX_8888"
get_format_string bgrx8888 = "BGRX_8888"
get_format_string rgba5551 = "RGBA_5551"
get_format_string rgba4444 = "RGBA_4444"
get_format_string rgb888 = "RGB_888"
get_format_string bgr888 = "BGR_888"
get_format_string rgb565 = "RGB_565"
get_format_string bgr565 = "BGR_565"
get_format_string rgba8888_ubwc = "RGBA_8888_UBWC"
get_format_string rgbx8888_ubwc = "RGBX_8888_UBWC"
get_format_string bgr565_ubwc = "BGR_565_UBWC"
get_format_string ycbcr_420_planar = "Y_CB_CR_420"
get_format_string ycrcb_420_planar = "Y_CR_CB_420"
get_format_string ycrcb_420_planar_stride16 = "Y_CR_CB_420_STRIDE16"
get_format_string ycbcr_420_semi_planar = "Y_CBCR_420"
get_format_string ycrcb_420_semi_planar = "Y_CRCB_420"
get_format_string ycbcr_420_semi_planar_venus = "Y_CBCR_420_VENUS"
get_format_string ycrcb_420_semi_planar_venus = "Y_CRCB_420_VENUS"
get_format_string ycbcr_422_h1v2_semi_planar = "Y_CBCR_422_H1V2"
get_format_string ycrcb_422_h1v2_semi_planar = "Y_CRCB_422_H1V2"
get_format_string ycbcr_422_h2v1_semi_planar = "Y_CBCR_422_H2V1"
get_format_string ycrcb_422_h2v1_semi_planar = "Y_CRCB_422_H2V2"
get_format_string ycbcr_420_sp_venus_ubwc = "Y_CBCR_420_VENUS_UBWC"
get_format_string ycbcr_422_h2v1_packed = "YCBYCR_422_H2V1"
get_format_string cbycry_422_h2v1_packed = "CBYCRY_422_H2V1"
get_format_string rgba1010102 = "RGBA_1010102"
get_format_string argb2101010 = "ARGB_2101010"
get_format_string rgbx1010102 = "RGBX_1010102"
get_format_string xrgb2101010 = "XRGB_2101010"
get_format_string bgra1010102 = "BGRA_1010102"
get_format_string abgr2101010 = "ABGR_2101010"
get_format_string bgrx1010102 = "BGRX_1010102"
get_format_string xbgr2101010 = "XBGR_2101010"
get_format_string rgba1010102_ubwc = "RGBA_1010102_UBWC"
get_format_string rgbx1010102_ubwc = "RGBX_1010102_UBWC"
get_format_string ycbcr_420_p010 = "Y_CBCR_420_P010"
get_format_string ycbcr_420_tp10_ubwc = "Y_CBCR_420_TP10_UBWC"
get_format_string ycbcr_420_p010_ubwc = "Y_CBCR_420_P010_UBWC"
get_format_string ycbcr_420_p010_venus = "Y_CBCR_420_P010_VENUS"
get_format_string _ = "UNKNOWN"

-- GetBufferLayout.
unfoldable pub get_buffer_layout : LayerBufferFormat → BufferLayout
unfolding is_ubwc_format
get_buffer_layout ycbcr_420_tp10_ubwc = tp_tiled
get_buffer_layout format = if is_ubwc_format format then ubwc else linear

-- GetBufferFormatTileSize: the sizes written through the pointer, or none for kErrorNotSupported.
unfoldable pub get_buffer_format_tile_size : LayerBufferFormat → Option FormatTileSize
get_buffer_format_tile_size ycbcr_420_sp_venus_ubwc =
    some (record { tile_width = 32; tile_height = 8; uv_tile_width = 16; uv_tile_height = 8 })
get_buffer_format_tile_size ycbcr_420_tp10_ubwc =
    some (record { tile_width = 48; tile_height = 4; uv_tile_width = 24; uv_tile_height = 4 })
get_buffer_format_tile_size ycbcr_420_p010_ubwc =
    some (record { tile_width = 32; tile_height = 4; uv_tile_width = 16; uv_tile_height = 4 })
get_buffer_format_tile_size _ = none

-- GetBufferFormatBpp. 1.5f is written 3 * 0.5f.
unfoldable pub get_buffer_format_bpp : {F : Type 0} ⦃fl : Float F⦄ → LayerBufferFormat → F
get_buffer_format_bpp ⦃fl⦄ argb8888 = of_nat 4
get_buffer_format_bpp ⦃fl⦄ rgba8888 = of_nat 4
get_buffer_format_bpp ⦃fl⦄ bgra8888 = of_nat 4
get_buffer_format_bpp ⦃fl⦄ xrgb8888 = of_nat 4
get_buffer_format_bpp ⦃fl⦄ rgbx8888 = of_nat 4
get_buffer_format_bpp ⦃fl⦄ bgrx8888 = of_nat 4
get_buffer_format_bpp ⦃fl⦄ rgba8888_ubwc = of_nat 4
get_buffer_format_bpp ⦃fl⦄ rgbx8888_ubwc = of_nat 4
get_buffer_format_bpp ⦃fl⦄ rgba1010102 = of_nat 4
get_buffer_format_bpp ⦃fl⦄ argb2101010 = of_nat 4
get_buffer_format_bpp ⦃fl⦄ rgbx1010102 = of_nat 4
get_buffer_format_bpp ⦃fl⦄ xrgb2101010 = of_nat 4
get_buffer_format_bpp ⦃fl⦄ bgra1010102 = of_nat 4
get_buffer_format_bpp ⦃fl⦄ abgr2101010 = of_nat 4
get_buffer_format_bpp ⦃fl⦄ bgrx1010102 = of_nat 4
get_buffer_format_bpp ⦃fl⦄ xbgr2101010 = of_nat 4
get_buffer_format_bpp ⦃fl⦄ rgba1010102_ubwc = of_nat 4
get_buffer_format_bpp ⦃fl⦄ rgbx1010102_ubwc = of_nat 4
get_buffer_format_bpp ⦃fl⦄ rgb888 = of_nat 3
get_buffer_format_bpp ⦃fl⦄ bgr888 = of_nat 3
get_buffer_format_bpp ⦃fl⦄ ycbcr_420_p010 = of_nat 3
get_buffer_format_bpp ⦃fl⦄ ycbcr_420_p010_ubwc = of_nat 3
get_buffer_format_bpp ⦃fl⦄ ycbcr_420_p010_venus = of_nat 3
get_buffer_format_bpp ⦃fl⦄ rgb565 = of_nat 2
get_buffer_format_bpp ⦃fl⦄ bgr565 = of_nat 2
get_buffer_format_bpp ⦃fl⦄ rgba5551 = of_nat 2
get_buffer_format_bpp ⦃fl⦄ rgba4444 = of_nat 2
get_buffer_format_bpp ⦃fl⦄ bgr565_ubwc = of_nat 2
get_buffer_format_bpp ⦃fl⦄ ycbcr_422_h2v1_packed = of_nat 2
get_buffer_format_bpp ⦃fl⦄ cbycry_422_h2v1_packed = of_nat 2
get_buffer_format_bpp ⦃fl⦄ ycrcb_422_h2v1_semi_planar = of_nat 2
get_buffer_format_bpp ⦃fl⦄ ycbcr_422_h2v1_semi_planar = of_nat 2
get_buffer_format_bpp ⦃fl⦄ ycbcr_420_tp10_ubwc = of_nat 2
get_buffer_format_bpp ⦃fl⦄ ycbcr_422_h1v2_semi_planar = of_nat 2
get_buffer_format_bpp ⦃fl⦄ ycrcb_422_h1v2_semi_planar = of_nat 2
get_buffer_format_bpp ⦃fl⦄ ycbcr_420_planar = of_nat 3 *F fl.half
get_buffer_format_bpp ⦃fl⦄ ycrcb_420_planar = of_nat 3 *F fl.half
get_buffer_format_bpp ⦃fl⦄ ycrcb_420_planar_stride16 = of_nat 3 *F fl.half
get_buffer_format_bpp ⦃fl⦄ ycbcr_420_semi_planar = of_nat 3 *F fl.half
get_buffer_format_bpp ⦃fl⦄ ycrcb_420_semi_planar = of_nat 3 *F fl.half
get_buffer_format_bpp ⦃fl⦄ ycbcr_420_semi_planar_venus = of_nat 3 *F fl.half
get_buffer_format_bpp ⦃fl⦄ ycrcb_420_semi_planar_venus = of_nat 3 *F fl.half
get_buffer_format_bpp ⦃fl⦄ ycbcr_420_sp_venus_ubwc = of_nat 3 *F fl.half
get_buffer_format_bpp ⦃fl⦄ _ = of_nat 0
