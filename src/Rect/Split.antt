-- ===== src/Rect/Split.antt =====
-- What SplitLeftRight and SplitTopBottom of rect.cpp guarantee about the pieces.
use platform_hardware_qcom_d.Base.{
  ℕ, zero, suc, ◌≡◌, refl, ap, Bool, true, false, some, List, [], ◌∷◌, length, arith, ◌≤◌, ◌/◌, ◌∙◌,
  ◌&&◌, ltb, if◌then◌else◌,
}
use platform_hardware_qcom_d.Base.Float.{Float, of_nat, ◌-F◌}
use platform_hardware_qcom_d.Constants.{ceil_to_multiple_of}
use platform_hardware_qcom_d.Rect.{
  LayerRect, split_left_right, split_left_right_loop, flip_left_right, split_top_bottom,
  split_top_bottom_loop, flip_top_bottom,
}

module _ {F : Type 0} where
  -- Pieces from left to right: the first begins at `x`, and each begins where the one before ends.
  abbrev pub SideBySide : F → F → F → List (LayerRect F) → Type 0
  SideBySide x top bottom [] = Unit {0}
  SideBySide x top bottom (r ∷ rs) =
      (r.left ≡ x) × (r.top ≡ top) × (r.bottom ≡ bottom) × SideBySide r.right top bottom rs

  -- Pieces from top to bottom.
  abbrev pub Stacked : F → F → F → List (LayerRect F) → Type 0
  Stacked y left right [] = Unit {0}
  Stacked y left right (r ∷ rs) =
      (r.top ≡ y) × (r.left ≡ left) × (r.right ≡ right) × Stacked r.bottom left right rs

module _ {F : Type 0} ⦃fl : Float F⦄ where
  flip-SideBySide :
      (x top bottom : F) (rs : List (LayerRect F))
      → SideBySide x top bottom rs
      → SideBySide x top bottom (flip_left_right rs) × (length (flip_left_right rs) ≡ length rs)
  unfolding flip_left_right
  flip-SideBySide x top bottom [] h = (tt, refl)
  flip-SideBySide x top bottom (a ∷ []) h = (h, refl)
  flip-SideBySide x top bottom (a ∷ b ∷ rs) (l, t, m, (l', t', m', rest)) =
      ((l, t, m, (refl, t', m', rest)), refl)

  adjust-SideBySide :
      (adjusts : Bool) (x y z : F) (rs : List (LayerRect F))
      → SideBySide x y z rs
      → SideBySide x y z (if adjusts then flip_left_right rs else rs)
        × (length (if adjusts then flip_left_right rs else rs) ≡ length rs)
  adjust-SideBySide true x y z rs h = flip-SideBySide x y z rs h
  adjust-SideBySide false x y z rs h = (h, refl)

  loop-SideBySide :
      (n : ℕ) (w : F) (r : LayerRect F)
      → SideBySide r.left r.top r.bottom (split_left_right_loop n w r)
  unfolding split_left_right_loop
  loop-SideBySide zero w r = tt
  loop-SideBySide (suc n) w r = (refl, refl, refl, loop-SideBySide n w (record r { left = _ }))

  length-left_right_loop :
      (n : ℕ) (w : F) (r : LayerRect F) → length (split_left_right_loop n w r) ≡ n
  unfolding split_left_right_loop
  length-left_right_loop zero w r = refl
  length-left_right_loop (suc n) w r = ap suc (length-left_right_loop n w _)

  flip-Stacked :
      (y left right : F) (rs : List (LayerRect F))
      → Stacked y left right rs
      → Stacked y left right (flip_top_bottom rs) × (length (flip_top_bottom rs) ≡ length rs)
  unfolding flip_top_bottom
  flip-Stacked y left right [] h = (tt, refl)
  flip-Stacked y left right (a ∷ []) h = (h, refl)
  flip-Stacked y left right (a ∷ b ∷ rs) (l, t, m, (l', t', m', rest)) =
      ((l, t, m, (refl, t', m', rest)), refl)

  adjust-Stacked :
      (adjusts : Bool) (x y z : F) (rs : List (LayerRect F))
      → Stacked x y z rs
      → Stacked x y z (if adjusts then flip_top_bottom rs else rs)
        × (length (if adjusts then flip_top_bottom rs else rs) ≡ length rs)
  adjust-Stacked true x y z rs h = flip-Stacked x y z rs h
  adjust-Stacked false x y z rs h = (h, refl)

  loop-Stacked :
      (n : ℕ) (h : F) (r : LayerRect F) → Stacked r.top r.left r.right (split_top_bottom_loop n h r)
  unfolding split_top_bottom_loop
  loop-Stacked zero h r = tt
  loop-Stacked (suc n) h r = (refl, refl, refl, loop-Stacked n h (record r { top = _ }))

  length-top_bottom_loop :
      (n : ℕ) (h : F) (r : LayerRect F) → length (split_top_bottom_loop n h r) ≡ n
  unfolding split_top_bottom_loop
  length-top_bottom_loop zero h r = refl
  length-top_bottom_loop (suc n) h r = ap suc (length-top_bottom_loop n h _)

  -- SplitLeftRight by a count that is not 0 writes that many rectangles: they keep the height of the
  -- input, the first begins at its left edge and each next one where the one before ends, with and
  -- without a horizontal flip.
  pub split_left_right-SideBySide :
      (r : LayerRect F) (n align : ℕ) (flip : Bool)
      → 1 ≤ n
      → (rs : List (LayerRect F)) × (split_left_right r n align flip ≡ some rs)
        × (length rs ≡ n)
        × SideBySide r.left r.top r.bottom rs
  unfolding split_left_right
  split_left_right-SideBySide r n align flip h =
      let w : F = of_nat (ceil_to_multiple_of (fl.to_u32 (r.right -F r.left) / n) align) in
      let ok =
        adjust-SideBySide (flip && ltb 1 n) r.left r.top r.bottom (split_left_right_loop n w r)
          (loop-SideBySide n w r) in
      (_, ground arith, ok.1 ∙ length-left_right_loop n w r, ok.0)

  -- SplitTopBottom by a count that is not 0 writes that many rectangles: they keep the width of the
  -- input, the first begins at its top edge and each next one where the one before ends, with and
  -- without a horizontal flip.
  pub split_top_bottom-Stacked :
      (r : LayerRect F) (n align : ℕ) (flip : Bool)
      → 1 ≤ n
      → (rs : List (LayerRect F)) × (split_top_bottom r n align flip ≡ some rs)
        × (length rs ≡ n)
        × Stacked r.top r.left r.right rs
  unfolding split_top_bottom
  split_top_bottom-Stacked r n align flip h =
      let w : F = of_nat (ceil_to_multiple_of (fl.to_u32 (r.bottom -F r.top) / n) align) in
      let ok =
        adjust-Stacked (flip && ltb 1 n) r.top r.left r.right (split_top_bottom_loop n w r)
          (loop-Stacked n w r) in
      (_, ground arith, ok.1 ∙ length-top_bottom_loop n w r, ok.0)
