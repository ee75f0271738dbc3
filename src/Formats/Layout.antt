-- ===== src/Formats/Layout.antt =====
-- How the classifications of formats.cpp fit together.
use platform_hardware_qcom_d.Base.{◌≡◌, true, some, arith, ◌*◌}
use platform_hardware_qcom_d.Formats.{
  LayerBufferFormat, FormatTileSize, is_ubwc_format, get_buffer_format_tile_size,
}

-- A format with a tile size is a UBWC format, and its chroma tile is half as wide as its luma tile
-- and as high.
pub get_buffer_format_tile_size-ubwc :
    (format : LayerBufferFormat) (t : FormatTileSize)
    → get_buffer_format_tile_size format ≡ some t
    → (is_ubwc_format format ≡ true)
      × (t.tile_width ≡ 2 * t.uv_tile_width)
      × (t.tile_height ≡ t.uv_tile_height)
unfolding get_buffer_format_tile_size is_ubwc_format
get_buffer_format_tile_size-ubwc format t h = (ground arith, ground arith, ground arith)
