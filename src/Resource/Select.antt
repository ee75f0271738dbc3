-- ===== src/Resource/Select.antt =====
-- GetPipe of resource_default.cpp chooses a free pipe that may serve, and fails only for want of one.
use platform_hardware_qcom_d.Base.{
  ℕ, ◌+◌, ◌≡◌, ◌≤◌, ◌<◌, refl, inl, inr, ◌⊎◌, Bool, true, false, ◌&&◌, ◌||◌, not, if◌then◌else◌,
  some, List, arith, get_elem?, set, ltb,
}
use platform_hardware_qcom_d.Types.{
  HwBlockType, HwResourceInfo, PipeType, pipe_vig, pipe_rgb, pipe_dma,
}
use platform_hardware_qcom_d.Resource.{SourcePipe}
use platform_hardware_qcom_d.Resource.Pipes.{Searched, is_free, next_pipe, try_pipe, get_pipe}
use platform_hardware_qcom_d.Resource.Choice.{
  reserve, Bounded, Bounded-get_elem?, Search, not_found, found, search_pipe_from-Search,
}

-- Whether the pipe of a slot may serve a layer: VIG pipes always, RGB pipes where no scaling is
-- needed or they can scale, DMA pipes where no scaling is needed.
abbrev pub may_serve : HwResourceInfo → Bool → ℕ → Bool
may_serve info need_scale k =
    if ltb k info.num_vig_pipe
    then true
    else if ltb k (info.num_vig_pipe + info.num_rgb_pipe)
    then not need_scale || not info.has_non_scalar_rgb
    else ltb k (info.num_vig_pipe + info.num_rgb_pipe + info.num_dma_pipe) && not need_scale

-- What GetPipe is to return and to write.
pub data Chooses (info : HwResourceInfo) (need_scale : Bool) (n : ℕ) (b : HwBlockType)
    (ps : List SourcePipe) (r : Searched) : Type 0 where
  exhausted :
      r.0 ≡ n
      → r.1 ≡ ps
      → ((k : ℕ) (p : SourcePipe)
          → may_serve info need_scale k ≡ true
          → get_elem? ps k ≡ some p
          → is_free p ≡ false)
      → Chooses info need_scale n b ps r
  chosen :
      (j : ℕ) (p : SourcePipe)
      → may_serve info need_scale j ≡ true
      → get_elem? ps j ≡ some p
      → is_free p ≡ true
      → r.0 ≡ p.index
      → r.0 < n
      → r.1 ≡ set ps j (reserve b p)
      → Chooses info need_scale n b ps r

module _ (info : HwResourceInfo) (n : ℕ) (b : HwBlockType) (ps : List SourcePipe) where
  abbrev BusyFrom : ℕ → ℕ → Type 0
  BusyFrom lo hi =
      (k : ℕ) (p : SourcePipe) → lo ≤ k → k < hi → get_elem? ps k ≡ some p → is_free p ≡ false

  -- A stage that runs with nothing found yet finds a pipe of its class, or all of them are busy.
  abbrev Stage : ℕ → ℕ → Bool → Searched → Type 0
  Stage lo hi wanted r =
      ((o : Bool) × (r ≡ (n, ps, o)) × (wanted ≡ true → BusyFrom lo hi))
      ⊎ ((j : ℕ) × (p : SourcePipe) × (wanted ≡ true)
          × (lo ≤ j)
          × (j < hi)
          × (get_elem? ps j ≡ some p)
          × (is_free p ≡ true)
          × (r.0 ≡ p.index)
          × (r.1 ≡ set ps j (reserve b p)))

  Search-Stage :
      (x : Bool) (lo hi : ℕ) (type : PipeType) (wanted : Bool)
      → Search n b lo hi ps (next_pipe info n type b ps)
      → Stage lo hi wanted (try_pipe info n b type wanted (n, ps, x))
  unfolding try_pipe
  Search-Stage x lo hi type false s = inl (x, ground arith, λ e. cc)
  Search-Stage x lo hi type true (not_found i e busy) =
      inl (x || (next_pipe info n type b ps).2, ground arith, λ _. busy)
  Search-Stage x lo hi type true (found j p l h g f i e) =
      inr (j, p, refl, l, h, g, f, ground arith, ground arith)

  vig_outcome :
      (x wanted : Bool)
      → Stage 0 info.num_vig_pipe wanted (try_pipe info n b pipe_vig wanted (n, ps, x))
  unfolding next_pipe
  vig_outcome x wanted =
      Search-Stage x 0 info.num_vig_pipe pipe_vig wanted
        (search_pipe_from-Search 0 n b info.num_vig_pipe _ ps (omega arith))

  rgb_outcome :
      (x wanted : Bool)
      → Stage info.num_vig_pipe
          (info.num_vig_pipe + info.num_rgb_pipe)
          wanted
          (try_pipe info n b pipe_rgb wanted (n, ps, x))
  unfolding next_pipe
  rgb_outcome x wanted =
      Search-Stage x info.num_vig_pipe (info.num_vig_pipe + info.num_rgb_pipe) pipe_rgb wanted
        (search_pipe_from-Search info.num_vig_pipe n b info.num_rgb_pipe _ ps refl)

  dma_outcome :
      (x wanted : Bool)
      → Stage
          (info.num_vig_pipe + info.num_rgb_pipe)
          (info.num_vig_pipe + info.num_rgb_pipe + info.num_dma_pipe)
          wanted
          (try_pipe info n b pipe_dma wanted (n, ps, x))
  unfolding next_pipe
  dma_outcome x wanted =
      Search-Stage x (info.num_vig_pipe + info.num_rgb_pipe)
        (info.num_vig_pipe + info.num_rgb_pipe + info.num_dma_pipe) pipe_dma wanted
        (search_pipe_from-Search (info.num_vig_pipe + info.num_rgb_pipe) n b info.num_dma_pipe _ ps
          refl)

  -- A later stage does nothing where a pipe has been found.
  try_pipe_found :
      (type : PipeType) (wanted : Bool) (r : Searched)
      → r.0 < n
      → try_pipe info n b type wanted r ≡ r
  unfolding try_pipe
  try_pipe_found type wanted r h = ground arith

  may_serve_cases :
      (need_scale : Bool) (k : ℕ)
      → may_serve info need_scale k ≡ true
      → (k < info.num_vig_pipe)
        ⊎ (((info.num_vig_pipe ≤ k)
              × (k < info.num_vig_pipe + info.num_rgb_pipe)
              × (not need_scale || not info.has_non_scalar_rgb ≡ true))
            ⊎ ((info.num_vig_pipe + info.num_rgb_pipe ≤ k)
                × (k < info.num_vig_pipe + info.num_rgb_pipe + info.num_dma_pipe)
                × (not need_scale ≡ true)))
  may_serve_cases need_scale k m = ground arith

  found_below :
      (r : Searched) (j : ℕ) (p : SourcePipe)
      → Bounded n ps
      → get_elem? ps j ≡ some p
      → r.0 ≡ p.index
      → r.0 < n
  found_below r j p bd g i = omega (arith, Bounded-get_elem? n ps j p bd g)

  -- With every index below the number of pipes, GetPipe reserves one free pipe that may serve the
  -- layer and returns its index field, or it returns the number of pipes, changes nothing, and no
  -- pipe that may serve is free.
  pub get_pipe-Chooses :
      (need_scale : Bool)
      → Bounded n ps
      → Chooses info need_scale n b ps (get_pipe info n b need_scale ps)
  unfolding get_pipe
  get_pipe-Chooses need_scale bd =
      let rgb_wanted : Bool = not need_scale || not info.has_non_scalar_rgb in
      let dma : Searched = try_pipe info n b pipe_dma (not need_scale) (n, ps, false) in
      elim (dma_outcome false (not need_scale)) [
        | inr (j, p, w, l, h, g, f, i, e) ↦
            let below = found_below dma j p bd g i in
            rw
              (try_pipe_found pipe_rgb rgb_wanted dma below, try_pipe_found pipe_vig true dma below)
              (chosen j p (ground arith) g f i below e)
        | inl (x, none_dma, busy_dma) ↦ rw none_dma (elim (rgb_outcome x rgb_wanted) [
          | inr (j, p, w, l, h, g, f, i, e) ↦
              let rgb : Searched = try_pipe info n b pipe_rgb rgb_wanted (n, ps, x) in
              let below = found_below rgb j p bd g i in
              rw (try_pipe_found pipe_vig true rgb below) (chosen j p (ground arith) g f i below e)
          | inl (y, none_rgb, busy_rgb) ↦ rw none_rgb (elim (vig_outcome y true) [
            | inr (j, p, w, l, h, g, f, i, e) ↦
                chosen j p (ground arith) g f i
                  (found_below (try_pipe info n b pipe_vig true (n, ps, y)) j p bd g i) e
            | inl (z, none_vig, busy_vig) ↦ rw none_vig (
                exhausted refl refl (λ k p m g. elim (may_serve_cases need_scale k m) [
                  | inl v ↦ busy_vig refl k p (omega arith) v g
                  | inr (inl (l, h, w)) ↦ busy_rgb w k p l h g
                  | inr (inr (l, h, w)) ↦ busy_dma w k p l h g
                ]))
          ])
        ])
      ]
