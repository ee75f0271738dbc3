-- ===== src/Examples/Rects.antt =====
-- Rectangles and formats.
use platform_hardware_qcom_d.Base.{ℕ, ◌≡◌, refl, true, false, ◌&&◌, ◌*◌, some, List, arith, length}
use platform_hardware_qcom_d.Rect.{
  LayerRect, intersection, union, subtract, is_valid, split_left_right, split_top_bottom,
}
use platform_hardware_qcom_d.Rect.Region.{
  covers, covers-intersection, union-covers, covers-subtract,
}
use platform_hardware_qcom_d.Rect.Split.{
  SideBySide, split_left_right-SideBySide, split_top_bottom-Stacked, Stacked,
}
use platform_hardware_qcom_d.Formats.{
  ycbcr_420_sp_venus_ubwc, is_ubwc_format, get_buffer_format_tile_size, FormatTileSize,
}
use platform_hardware_qcom_d.Formats.Layout.{get_buffer_format_tile_size-ubwc}
use platform_hardware_qcom_d.Examples.Hardware.{natural, natural_order, rect}

covers-intersection_example :
    covers (intersection (rect 0 0 10 10) (rect 5 5 20 20)) 7 8
    ≡ covers (rect 0 0 10 10) 7 8 && covers (rect 5 5 20 20) 7 8
covers-intersection_example =
    covers-intersection natural_order (rect 0 0 10 10) (rect 5 5 20 20) 7 8

union-covers_example : covers (union (rect 0 0 10 10) (rect 5 5 20 20)) 15 16 ≡ true
unfolding natural
union-covers_example = union-covers natural_order (rect 0 0 10 10) (rect 5 5 20 20) 15 16 refl

covers-subtract_example :
    (covers (subtract (rect 0 0 10 10) (rect 0 6 10 10)) 3 4 ≡ true
      → covers (rect 0 0 10 10) 3 4 ≡ true)
    × (covers (rect 0 0 10 10) 3 4 ≡ true
        → covers (rect 0 6 10 10) 3 4 ≡ false
        → covers (subtract (rect 0 0 10 10) (rect 0 6 10 10)) 3 4 ≡ true)
unfolding natural is_valid
covers-subtract_example = covers-subtract natural_order (rect 0 0 10 10) (rect 0 6 10 10) 3 4 refl

split_left_right-SideBySide_example :
    (rs : List (LayerRect ℕ)) × (split_left_right (rect 4 0 100 50) 2 4 true ≡ some rs)
    × (length rs ≡ 2)
    × SideBySide 4 0 50 rs
split_left_right-SideBySide_example =
    split_left_right-SideBySide (rect 4 0 100 50) 2 4 true (omega arith)

split_top_bottom-Stacked_example :
    (rs : List (LayerRect ℕ)) × (split_top_bottom (rect 4 0 100 50) 2 4 false ≡ some rs)
    × (length rs ≡ 2)
    × Stacked 0 4 100 rs
split_top_bottom-Stacked_example =
    split_top_bottom-Stacked (rect 4 0 100 50) 2 4 false (omega arith)

abbrev tile : FormatTileSize
tile = record { tile_width = 32; tile_height = 8; uv_tile_width = 16; uv_tile_height = 8 }

get_buffer_format_tile_size-ubwc_example :
    (is_ubwc_format ycbcr_420_sp_venus_ubwc ≡ true)
    × (tile.tile_width ≡ 2 * tile.uv_tile_width)
    × (tile.tile_height ≡ tile.uv_tile_height)
unfolding get_buffer_format_tile_size
get_buffer_format_tile_size-ubwc_example =
    get_buffer_format_tile_size-ubwc ycbcr_420_sp_venus_ubwc tile refl
