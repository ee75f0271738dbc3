-- ===== src/Rect.antt =====
-- sdm/libs/utils/rect.cpp: the rectangles of layers. A coordinate is a float of the interface
-- `Float`; a result written through a pointer is returned.
pub mod Region
pub mod Split
use platform_hardware_qcom_d.Base.{
  ℕ, zero, suc, ◌/◌, Bool, true, false, ◌&&◌, ◌||◌, not, if◌then◌else◌, Option, none, some, List,
  [], ◌∷◌, ltb, ◌==◌,
}
use platform_hardware_qcom_d.Base.Int.{ℤ, pos, ◌-ℤ◌}
use platform_hardware_qcom_d.Base.Float.{
  Float, ◌+F◌, ◌-F◌, ◌*F◌, ◌/F◌, lt_F, le_F, eq_F, of_nat, max_F, min_F,
}
use platform_hardware_qcom_d.Constants.{round_up_align_down, round_up_align_up, ceil_to_multiple_of}

-- LayerRect of layer_stack.h.
pub record LayerRect (F : Type 0) : Type 0 where
  pub left : F
  pub top : F
  pub right : F
  pub bottom : F

-- The two flips of LayerTransform; the code here reads no rotation.
pub record LayerTransform : Type 0 where
  pub flip_horizontal : Bool
  pub flip_vertical : Bool

pub data RectOrientation : Type 0 where
  orientation_portrait orientation_landscape orientation_unknown : RectOrientation

-- What GetCropAndDestination writes.
pub record CropAndDestination (F : Type 0) : Type 0 where
  pub crop_width : F
  pub crop_height : F
  pub dst_width : F
  pub dst_height : F

module _ {F : Type 0} ⦃fl : Float F⦄ where
  -- LayerRect().
  unfoldable pub empty_rect : LayerRect F
  empty_rect = record { left = of_nat 0; top = of_nat 0; right = of_nat 0; bottom = of_nat 0 }

  -- IsValid.
  unfoldable pub is_valid : LayerRect F → Bool
  is_valid rect = lt_F rect.top rect.bottom && lt_F rect.left rect.right

  -- IsCongruent.
  unfoldable pub is_congruent : LayerRect F → LayerRect F → Bool
  is_congruent rect1 rect2 =
      eq_F rect1.left rect2.left
      && (eq_F rect1.top rect2.top
          && (eq_F rect1.right rect2.right && eq_F rect1.bottom rect2.bottom))

  -- Normalize.
  unfoldable pub normalize : ℕ → ℕ → LayerRect F → LayerRect F
  unfolding round_up_align_up round_up_align_down
  normalize align_x align_y rect = record {
    left = round_up_align_up rect.left align_x;
    right = round_up_align_down rect.right align_x;
    top = round_up_align_up rect.top align_y;
    bottom = round_up_align_down rect.bottom align_y;
  }

  -- Intersection.
  unfoldable pub intersection : LayerRect F → LayerRect F → LayerRect F
  intersection rect1 rect2 =
      let res : LayerRect F = record {
        left = max_F rect1.left rect2.left;
        top = max_F rect1.top rect2.top;
        right = min_F rect1.right rect2.right;
        bottom = min_F rect1.bottom rect2.bottom;
      } in
      if not (is_valid rect1) || not (is_valid rect2)
      then empty_rect
      else if not (is_valid res)
      then empty_rect
      else res

  -- Reposition.
  unfoldable pub reposition : LayerRect F → ℤ → ℤ → LayerRect F
  reposition rect x_offset y_offset = if not (is_valid rect) then empty_rect else record {
    left = rect.left +F fl.of_int x_offset;
    top = rect.top +F fl.of_int y_offset;
    right = rect.right +F fl.of_int x_offset;
    bottom = rect.bottom +F fl.of_int y_offset;
  }

  -- Subtract.
  unfoldable pub subtract : LayerRect F → LayerRect F → LayerRect F
  subtract rect1 rect2 =
      if eq_F rect1.left rect2.left && eq_F rect1.right rect2.right
      then (if eq_F rect1.top rect2.top && le_F rect2.bottom rect1.bottom
          then record rect1 { top = rect2.bottom }
          else if eq_F rect1.bottom rect2.bottom && le_F rect1.top rect2.top
          then record rect1 { bottom = rect2.top }
          else rect1)
      else if eq_F rect1.top rect2.top && eq_F rect1.bottom rect2.bottom
      then (if eq_F rect1.left rect2.left && le_F rect2.right rect1.right
          then record rect1 { left = rect2.right }
          else if eq_F rect1.right rect2.right && le_F rect1.left rect2.left
          then record rect1 { right = rect2.left }
          else rect1)
      else rect1

  -- Union.
  unfoldable pub union : LayerRect F → LayerRect F → LayerRect F
  union rect1 rect2 =
      if not (is_valid rect1) && not (is_valid rect2)
      then empty_rect
      else if not (is_valid rect1)
      then rect2
      else if not (is_valid rect2)
      then rect1
      else record {
        left = min_F rect1.left rect2.left;
        top = min_F rect1.top rect2.top;
        right = max_F rect1.right rect2.right;
        bottom = max_F rect1.bottom rect2.bottom;
      }

  -- The loop of SplitLeftRight: `rect_temp` and the rectangles still to write.
  unfoldable pub split_left_right_loop : ℕ → F → LayerRect F → List (LayerRect F)
  split_left_right_loop zero aligned_width rect_temp = []
  split_left_right_loop (suc n) aligned_width rect_temp =
      let right : F = min_F rect_temp.right (rect_temp.left +F aligned_width) in
      record rect_temp { right = right }
      ∷ split_left_right_loop n aligned_width (record rect_temp { left = right })

  -- The adjustment for a horizontal flip, on the first two rectangles.
  unfoldable pub flip_left_right : List (LayerRect F) → List (LayerRect F)
  flip_left_right [] = []
  flip_left_right (out0 ∷ []) = out0 ∷ []
  flip_left_right (out0 ∷ out1 ∷ rest) =
      let right : F = out0.left +F (out1.right -F out1.left) in
      record out0 { right = right } ∷ record out1 { left = right } ∷ rest

  -- SplitLeftRight. A division by a split count of 0 is a fault.
  unfoldable pub split_left_right : LayerRect F → ℕ → ℕ → Bool → Option (List (LayerRect F))
  split_left_right in_rect split_count align_x flip_horizontal =
      let split_width : ℕ = fl.to_u32 (in_rect.right -F in_rect.left) / split_count in
      let aligned_width : F = of_nat (ceil_to_multiple_of split_width align_x) in
      let out_rects : List (LayerRect F) =
        split_left_right_loop split_count aligned_width in_rect in
      if split_count == 0
      then none
      else some
          (if flip_horizontal && ltb 1 split_count then flip_left_right out_rects else out_rects)

  -- The loop of SplitTopBottom, and its adjustment.
  unfoldable pub split_top_bottom_loop : ℕ → F → LayerRect F → List (LayerRect F)
  split_top_bottom_loop zero aligned_height rect_temp = []
  split_top_bottom_loop (suc n) aligned_height rect_temp =
      let bottom : F = min_F rect_temp.bottom (rect_temp.top +F aligned_height) in
      record rect_temp { bottom = bottom }
      ∷ split_top_bottom_loop n aligned_height (record rect_temp { top = bottom })

  unfoldable pub flip_top_bottom : List (LayerRect F) → List (LayerRect F)
  flip_top_bottom [] = []
  flip_top_bottom (out0 ∷ []) = out0 ∷ []
  flip_top_bottom (out0 ∷ out1 ∷ rest) =
      let bottom : F = out0.top +F (out1.bottom -F out1.top) in
      record out0 { bottom = bottom } ∷ record out1 { top = bottom } ∷ rest

  -- SplitTopBottom.
  unfoldable pub split_top_bottom : LayerRect F → ℕ → ℕ → Bool → Option (List (LayerRect F))
  split_top_bottom in_rect split_count align_y flip_horizontal =
      let split_height : ℕ = fl.to_u32 (in_rect.bottom -F in_rect.top) / split_count in
      let aligned_height : F = of_nat (ceil_to_multiple_of split_height align_y) in
      let out_rects : List (LayerRect F) =
        split_top_bottom_loop split_count aligned_height in_rect in
      if split_count == 0
      then none
      else some
          (if flip_horizontal && ltb 1 split_count then flip_top_bottom out_rects else out_rects)

  -- MapRect. An invalid argument leaves `out_rect` as it was.
  unfoldable pub map_rect : LayerRect F → LayerRect F → LayerRect F → LayerRect F → LayerRect F
  unfolding reposition ◌-ℤ◌
  map_rect src_domain dst_domain in_rect out_rect =
      let x_offset : ℤ = fl.to_int src_domain.left in
      let y_offset : ℤ = fl.to_int src_domain.top in
      let modified_in_rect : LayerRect F =
        reposition in_rect (pos 0 -ℤ x_offset) (pos 0 -ℤ y_offset) in
      let width_ratio : F =
        (dst_domain.right -F dst_domain.left) /F (src_domain.right -F src_domain.left) in
      let height_ratio : F =
        (dst_domain.bottom -F dst_domain.top) /F (src_domain.bottom -F src_domain.top) in
      if not (is_valid src_domain) || (not (is_valid dst_domain) || not (is_valid in_rect))
      then out_rect
      else record {
        left = dst_domain.left +F width_ratio *F modified_in_rect.left;
        top = dst_domain.top +F height_ratio *F modified_in_rect.top;
        right = dst_domain.left +F width_ratio *F modified_in_rect.right;
        bottom = dst_domain.top +F height_ratio *F modified_in_rect.bottom;
      }

  -- TransformHV.
  unfoldable pub transform_hv :
      LayerRect F → LayerRect F → LayerTransform → LayerRect F → LayerRect F
  transform_hv src_domain in_rect transform out_rect =
      let in_width : F = in_rect.right -F in_rect.left in
      let in_height : F = in_rect.bottom -F in_rect.top in
      let x_offset : F = in_rect.left -F src_domain.left in
      let y_offset : F = in_rect.top -F src_domain.top in
      let flipped_right : F = src_domain.right -F x_offset in
      let flipped_bottom : F = src_domain.bottom -F y_offset in
      if not (is_valid src_domain) || not (is_valid in_rect) then out_rect else record {
        left = if transform.flip_horizontal then flipped_right -F in_width else in_rect.left;
        top = if transform.flip_vertical then flipped_bottom -F in_height else in_rect.top;
        right = if transform.flip_horizontal then flipped_right else in_rect.right;
        bottom = if transform.flip_vertical then flipped_bottom else in_rect.bottom;
      }

  -- GetOrientation.
  unfoldable pub get_orientation : LayerRect F → RectOrientation
  get_orientation in_rect =
      if not (is_valid in_rect)
      then orientation_unknown
      else if lt_F (in_rect.right -F in_rect.left) (in_rect.bottom -F in_rect.top)
      then orientation_portrait
      else orientation_landscape

  -- GetCropAndDestination; none stands for kErrorNotSupported.
  unfoldable pub get_crop_and_destination :
      LayerRect F → LayerRect F → Bool → Option (CropAndDestination F)
  get_crop_and_destination crop dst rotated90 =
      let width : F = crop.right -F crop.left in
      let height : F = crop.bottom -F crop.top in
      if not (is_valid crop)
      then none
      else if not (is_valid dst)
      then none
      else some (record {
        crop_width = if rotated90 then height else width;
        crop_height = if rotated90 then width else height;
        dst_width = dst.right -F dst.left;
        dst_height = dst.bottom -F dst.top;
      })

  -- GetScaleFactor: scale_x and scale_y.
  unfoldable pub get_scale_factor : LayerRect F → LayerRect F → Bool → Option (F × F)
  unfolding get_crop_and_destination
  get_scale_factor crop dst rotated90 = elim (get_crop_and_destination crop dst rotated90) [
    | none ↦ none
    | some sizes ↦ some (sizes.crop_width /F sizes.dst_width, sizes.crop_height /F sizes.dst_height)
  ]
