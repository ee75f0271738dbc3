-- ===== src/Rect/Region.antt =====
-- The rectangles of rect.cpp as sets of points.
use platform_hardware_qcom_d.Base.{◌≡◌, Bool, true, false, ◌&&◌, ◌||◌, arith}
use platform_hardware_qcom_d.Base.Float.{Float, IsOrdered, max_F, min_F, lt_F, le_F, of_nat}
use platform_hardware_qcom_d.Rect.{LayerRect, is_valid, empty_rect, intersection, union, subtract}

module _ {F : Type 0} ⦃fl : Float F⦄ where
  -- A coordinate in the half-open span from `lo` to `hi`.
  abbrev pub in_span : F → F → F → Bool
  in_span lo hi x = le_F lo x && lt_F x hi

  -- The points that a rectangle covers.
  abbrev pub covers : LayerRect F → F → F → Bool
  covers r x y = in_span r.left r.right x && in_span r.top r.bottom y

regroup : (a b c d : Bool) → (a && b) && (c && d) ≡ (a && c) && (b && d)
regroup a b c d = ground arith

module _ {F : Type 0} ⦃fl : Float F⦄ (o : IsOrdered fl) where
  open o use {lt_rank, le_rank, eq_rank}

  in_span-max-min :
      (a b c d x : F) → in_span (max_F a b) (min_F c d) x ≡ in_span a c x && in_span b d x
  in_span-max-min a b c d x =
      ground (arith, lt_rank a b, lt_rank d c, le_rank a x, le_rank b x, lt_rank x c, lt_rank x d)

  in_span_empty : (a b x : F) → lt_F a b ≡ false → in_span a b x ≡ false
  in_span_empty a b x h = ground (arith, lt_rank a b, le_rank a x, lt_rank x b)

  -- The rectangle that Intersection computes before it tests its validity.
  abbrev meet : LayerRect F → LayerRect F → LayerRect F
  meet a b = record {
    left = max_F a.left b.left;
    top = max_F a.top b.top;
    right = min_F a.right b.right;
    bottom = min_F a.bottom b.bottom;
  }

  covers-meet : (a b : LayerRect F) (x y : F) → covers (meet a b) x y ≡ covers a x y && covers b x y
  covers-meet a b x y =
      rw
        (
          in_span-max-min a.left b.left a.right b.right x,
          in_span-max-min a.top b.top a.bottom b.bottom y,
        )
        (regroup (in_span a.left a.right x) _ _ _)

  covers_invalid : (r : LayerRect F) (x y : F) → is_valid r ≡ false → covers r x y ≡ false
  unfolding is_valid
  covers_invalid r x y h =
      ground (arith, in_span_empty r.left r.right x, in_span_empty r.top r.bottom y)

  empty-not-is_valid : is_valid (empty_rect {F = F}) ≡ false
  unfolding is_valid empty_rect
  empty-not-is_valid = ground (arith, lt_rank (of_nat 0) (of_nat 0))

  covers-empty : (x y : F) → covers empty_rect x y ≡ false
  covers-empty x y = covers_invalid empty_rect x y empty-not-is_valid

  -- With comparisons that follow one order, the intersection covers exactly the points that both
  -- rectangles cover, also where one of them is invalid or where they are apart.
  pub covers-intersection :
      (a b : LayerRect F) (x y : F) → covers (intersection a b) x y ≡ covers a x y && covers b x y
  unfolding intersection
  covers-intersection a b x y = ground (
    arith,
    covers_invalid a x y,
    covers_invalid b x y,
    covers-empty x y,
    covers_invalid (meet a b) x y,
    covers-meet a b x y,
  )

  -- With comparisons that follow one order, the union covers every point that either rectangle
  -- covers.
  pub union-covers :
      (a b : LayerRect F) (x y : F)
      → covers a x y || covers b x y ≡ true
      → covers (union a b) x y ≡ true
  unfolding union
  union-covers a b x y h = ground (
    arith,
    covers_invalid a x y,
    covers_invalid b x y,
    lt_rank b.left a.left,
    lt_rank b.top a.top,
    lt_rank a.right b.right,
    lt_rank a.bottom b.bottom,
    le_rank a.left x,
    le_rank b.left x,
    lt_rank x a.right,
    lt_rank x b.right,
    le_rank a.top y,
    le_rank b.top y,
    lt_rank y a.bottom,
    lt_rank y b.bottom,
  )

  -- With comparisons that follow one order, deducting a valid rectangle only takes away points that
  -- it covers, and keeps every point that it does not cover.
  pub covers-subtract :
      (a b : LayerRect F) (x y : F)
      → is_valid b ≡ true
      → (covers (subtract a b) x y ≡ true → covers a x y ≡ true)
        × (covers a x y ≡ true → covers b x y ≡ false → covers (subtract a b) x y ≡ true)
  unfolding subtract is_valid
  covers-subtract a b x y v = (
    λ h. ground (
      arith,
      eq_rank a.left b.left,
      eq_rank a.right b.right,
      eq_rank a.top b.top,
      eq_rank a.bottom b.bottom,
      le_rank b.bottom a.bottom,
      le_rank a.top b.top,
      le_rank b.right a.right,
      le_rank a.left b.left,
      lt_rank b.top b.bottom,
      lt_rank b.left b.right,
      le_rank a.left x,
      le_rank b.left x,
      lt_rank x a.right,
      lt_rank x b.right,
      le_rank b.right x,
      lt_rank x b.left,
      le_rank a.top y,
      le_rank b.top y,
      lt_rank y a.bottom,
      lt_rank y b.bottom,
      le_rank b.bottom y,
      lt_rank y b.top,
    ),
    λ h m. ground (
      arith,
      eq_rank a.left b.left,
      eq_rank a.right b.right,
      eq_rank a.top b.top,
      eq_rank a.bottom b.bottom,
      le_rank b.bottom a.bottom,
      le_rank a.top b.top,
      le_rank b.right a.right,
      le_rank a.left b.left,
      lt_rank b.top b.bottom,
      lt_rank b.left b.right,
      le_rank a.left x,
      le_rank b.left x,
      lt_rank x a.right,
      lt_rank x b.right,
      le_rank b.right x,
      lt_rank x b.left,
      le_rank a.top y,
      le_rank b.top y,
      lt_rank y a.bottom,
      lt_rank y b.bottom,
      le_rank b.bottom y,
      lt_rank y b.top,
    ),
  )
