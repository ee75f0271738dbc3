-- ===== src/Formats/Names.antt =====
-- The printed names of formats.cpp read back.
use Prim.Native.String.{String}
use text.Mathlib.Text.{◌==◌ as str_eq}
use platform_hardware_qcom_d.Base.{if◌then◌else◌, Option, none, some}
use platform_hardware_qcom_d.Formats.{
  LayerBufferFormat, argb8888, rgba8888, bgra8888, xrgb8888, rgbx8888, bgrx8888, rgba5551, rgba4444,
  rgb888, bgr888, rgb565, bgr565, rgba8888_ubwc, rgbx8888_ubwc, bgr565_ubwc, rgba1010102,
  argb2101010, rgbx1010102, xrgb2101010, bgra1010102, abgr2101010, bgrx1010102, xbgr2101010,
  rgba1010102_ubwc, rgbx1010102_ubwc, ycbcr_420_planar, ycrcb_420_planar, ycrcb_420_planar_stride16,
  ycbcr_420_semi_planar, ycrcb_420_semi_planar, ycbcr_420_semi_planar_venus,
  ycbcr_422_h1v2_semi_planar, ycrcb_422_h1v2_semi_planar, ycbcr_422_h2v1_semi_planar,
  ycrcb_422_h2v1_semi_planar, ycbcr_420_sp_venus_ubwc, ycrcb_420_semi_planar_venus, ycbcr_420_p010,
  ycbcr_420_tp10_ubwc, ycbcr_420_p010_ubwc, ycbcr_420_p010_venus, ycbcr_422_h2v1_packed,
  cbycry_422_h2v1_packed,
}

-- The format that a name stands for, after the enumerators of LayerBufferFormat.
abbrev pub format_of_string : String → Option LayerBufferFormat
format_of_string s =
    if str_eq s "ARGB_8888"
    then some argb8888
    else if str_eq s "RGBA_8888"
    then some rgba8888
    else if str_eq s "BGRA_8888"
    then some bgra8888
    else if str_eq s "XRGB_8888"
    then some xrgb8888
    else if str_eq s "RGBX_8888"
    then some rgbx8888
    else if str_eq s "BGRX_8888"
    then some bgrx8888
    else if str_eq s "RGBA_5551"
    then some rgba5551
    else if str_eq s "RGBA_4444"
    then some rgba4444
    else if str_eq s "RGB_888"
    then some rgb888
    else if str_eq s "BGR_888"
    then some bgr888
    else if str_eq s "RGB_565"
    then some rgb565
    else if str_eq s "BGR_565"
    then some bgr565
    else if str_eq s "RGBA_8888_UBWC"
    then some rgba8888_ubwc
    else if str_eq s "RGBX_8888_UBWC"
    then some rgbx8888_ubwc
    else if str_eq s "BGR_565_UBWC"
    then some bgr565_ubwc
    else if str_eq s "Y_CB_CR_420"
    then some ycbcr_420_planar
    else if str_eq s "Y_CR_CB_420"
    then some ycrcb_420_planar
    else if str_eq s "Y_CR_CB_420_STRIDE16"
    then some ycrcb_420_planar_stride16
    else if str_eq s "Y_CBCR_420"
    then some ycbcr_420_semi_planar
    else if str_eq s "Y_CRCB_420"
    then some ycrcb_420_semi_planar
    else if str_eq s "Y_CBCR_420_VENUS"
    then some ycbcr_420_semi_planar_venus
    else if str_eq s "Y_CRCB_420_VENUS"
    then some ycrcb_420_semi_planar_venus
    else if str_eq s "Y_CBCR_422_H1V2"
    then some ycbcr_422_h1v2_semi_planar
    else if str_eq s "Y_CRCB_422_H1V2"
    then some ycrcb_422_h1v2_semi_planar
    else if str_eq s "Y_CBCR_422_H2V1"
    then some ycbcr_422_h2v1_semi_planar
    else if str_eq s "Y_CRCB_422_H2V1"
    then some ycrcb_422_h2v1_semi_planar
    else if str_eq s "Y_CBCR_420_VENUS_UBWC"
    then some ycbcr_420_sp_venus_ubwc
    else if str_eq s "YCBYCR_422_H2V1"
    then some ycbcr_422_h2v1_packed
    else if str_eq s "CBYCRY_422_H2V1"
    then some cbycry_422_h2v1_packed
    else if str_eq s "RGBA_1010102"
    then some rgba1010102
    else if str_eq s "ARGB_2101010"
    then some argb2101010
    else if str_eq s "RGBX_1010102"
    then some rgbx1010102
    else if str_eq s "XRGB_2101010"
    then some xrgb2101010
    else if str_eq s "BGRA_1010102"
    then some bgra1010102
    else if str_eq s "ABGR_2101010"
    then some abgr2101010
    else if str_eq s "BGRX_1010102"
    then some bgrx1010102
    else if str_eq s "XBGR_2101010"
    then some xbgr2101010
    else if str_eq s "RGBA_1010102_UBWC"
    then some rgba1010102_ubwc
    else if str_eq s "RGBX_1010102_UBWC"
    then some rgbx1010102_ubwc
    else if str_eq s "Y_CBCR_420_P010"
    then some ycbcr_420_p010
    else if str_eq s "Y_CBCR_420_TP10_UBWC"
    then some ycbcr_420_tp10_ubwc
    else if str_eq s "Y_CBCR_420_P010_UBWC"
    then some ycbcr_420_p010_ubwc
    else if str_eq s "Y_CBCR_420_P010_VENUS"
    then some ycbcr_420_p010_venus
    else none
