-- ===== src/Resource/Ownership.antt =====
-- Which source pipes an operation of resource_default.cpp may touch.
use platform_hardware_qcom_d.Base.{
  ℕ, zero, suc, ◌≡◌, refl, ◌∙◌, ◌⊎◌, inl, inr, Bool, true, false, List, [], ◌∷◌, arith, Bool-cases,
}
use platform_hardware_qcom_d.Types.{
  HwBlockType, PipeType, pipe_vig, pipe_rgb, pipe_dma, hw_block_max, block_eq, HwResourceInfo,
}
use platform_hardware_qcom_d.Resource.{SourcePipe, is_user_mode}
use platform_hardware_qcom_d.Resource.Pipes.{
  Searched, is_free, reset_pipe, reset_pipes, search_pipe, search_pipe_from, next_pipe, try_pipe,
  get_pipe,
}

-- A user-mode pipe that is free or that the block holds.
abbrev pub IsAvailable : HwBlockType → SourcePipe → Type 0
IsAvailable b p =
    (is_user_mode p.owner ≡ true)
    × ((block_eq p.hw_block_type b ≡ true) ⊎ (block_eq p.hw_block_type hw_block_max ≡ true))

-- What a block may do to one pipe: nothing, or reserve or release a pipe that is available to it.
pub data Move (b : HwBlockType) (p q : SourcePipe) : Type 0 where
  kept : q ≡ p → Move b p q
  reserved : IsAvailable b p → q ≡ record p { hw_block_type = b } → Move b p q
  released : IsAvailable b p → q ≡ record p { hw_block_type = hw_block_max } → Move b p q

-- The same for a whole table, pipe by pipe.
pub data Moves (b : HwBlockType) : List SourcePipe → List SourcePipe → Type 0 where
  nil : Moves b [] []
  cons :
      {p q : SourcePipe} {ps qs : List SourcePipe}
      → Move b p q
      → Moves b ps qs
      → Moves b (p ∷ ps) (q ∷ qs)

pub block_eq_refl : (b : HwBlockType) → block_eq b b ≡ true
unfolding block_eq
block_eq_refl b = ground arith

pub block_eq→eq : (a b : HwBlockType) → block_eq a b ≡ true → a ≡ b
unfolding block_eq
block_eq→eq a b h = ground arith

Move-trans : {b : HwBlockType} {p q r : SourcePipe} → Move b p q → Move b q r → Move b p r
Move-trans {b} {p} {q} {r} (kept e) m = rw e at m
Move-trans (reserved a e) (kept f) = reserved a (f ∙ e)
Move-trans (reserved a e) (reserved c f) = reserved a (rw e at f)
Move-trans (reserved a e) (released c f) = released a (rw e at f)
Move-trans (released a e) (kept f) = released a (f ∙ e)
Move-trans (released a e) (reserved c f) = reserved a (rw e at f)
Move-trans (released a e) (released c f) = released a (rw e at f)

pub Moves-trans :
    {b : HwBlockType} {ps qs rs : List SourcePipe} → Moves b ps qs → Moves b qs rs → Moves b ps rs
Moves-trans nil m = m
Moves-trans (cons h t) (cons k u) = cons (Move-trans h k) (Moves-trans t u)

pub Moves-refl : (b : HwBlockType) (ps : List SourcePipe) → Moves b ps ps
Moves-refl b [] = nil
Moves-refl b (p ∷ ps) = cons (kept refl) (Moves-refl b ps)

reset_pipe-Move : (b : HwBlockType) (p : SourcePipe) → Move b p (reset_pipe b p)
unfolding reset_pipe
reset_pipe-Move b p = elim (Bool-cases (block_eq p.hw_block_type b)) [
  | inr e ↦ kept (rw e)
  | inl e ↦ elim (Bool-cases (is_user_mode p.owner)) [
    | inl u ↦ released (u, inl e) (rw (e, u))
    | inr u ↦ kept (rw (e, u))
  ]
]

pub reset_pipes-Moves : (b : HwBlockType) (ps : List SourcePipe) → Moves b ps (reset_pipes b ps)
unfolding reset_pipes
reset_pipes-Moves b [] = nil
reset_pipes-Moves b (p ∷ ps) = cons (reset_pipe-Move b p) (reset_pipes-Moves b ps)

is_free-IsAvailable : (b : HwBlockType) (p : SourcePipe) → is_free p ≡ true → IsAvailable b p
unfolding is_free
is_free-IsAvailable b p h = (ground arith, inr (ground arith))

search_pipe-Moves :
    (n : ℕ) (b : HwBlockType) (num : ℕ) (ps : List SourcePipe)
    → Moves b ps (search_pipe n b num ps).1
unfolding search_pipe
search_pipe-Moves n b zero ps = Moves-refl b ps
search_pipe-Moves n b (suc num) [] = nil
search_pipe-Moves n b (suc num) (p ∷ ps) = elim (Bool-cases (is_free p)) [
  | inl e ↦ rw e (cons (reserved (is_free-IsAvailable b p e) refl) (Moves-refl b ps))
  | inr e ↦ rw e (cons (kept refl) (search_pipe-Moves n b num ps))
]

search_pipe_from-Moves :
    (first n : ℕ) (b : HwBlockType) (num : ℕ) (ps : List SourcePipe)
    → Moves b ps (search_pipe_from first n b num ps).1
unfolding search_pipe_from
search_pipe_from-Moves zero n b num ps = search_pipe-Moves n b num ps
search_pipe_from-Moves (suc first) n b num [] = nil
search_pipe_from-Moves (suc first) n b num (p ∷ ps) =
    cons (kept refl) (search_pipe_from-Moves first n b num ps)

next_pipe-Moves :
    (info : HwResourceInfo) (n : ℕ) (type : PipeType) (b : HwBlockType) (ps : List SourcePipe)
    → Moves b ps (next_pipe info n type b ps).1
unfolding next_pipe
next_pipe-Moves info n pipe_vig b ps = search_pipe_from-Moves 0 n b info.num_vig_pipe ps
next_pipe-Moves info n pipe_rgb b ps = search_pipe_from-Moves info.num_vig_pipe n b _ ps
next_pipe-Moves info n _ b ps = search_pipe_from-Moves _ n b info.num_dma_pipe ps

pub try_pipe-Moves :
    (info : HwResourceInfo) (n : ℕ) (b : HwBlockType) (type : PipeType) (wanted : Bool)
    (found : Searched)
    → Moves b found.1 (try_pipe info n b type wanted found).1
unfolding try_pipe
try_pipe-Moves info n b type wanted found =
    ground (arith, next_pipe-Moves info n type b found.1, Moves-refl b found.1)

pub get_pipe-Moves :
    (info : HwResourceInfo) (n : ℕ) (b : HwBlockType) (need_scale : Bool) (ps : List SourcePipe)
    → Moves b ps (get_pipe info n b need_scale ps).1
unfolding get_pipe
get_pipe-Moves info n b need_scale ps =
    Moves-trans (try_pipe-Moves info n b pipe_dma _ (n, ps, false))
      (Moves-trans (try_pipe-Moves info n b pipe_rgb _ _) (try_pipe-Moves info n b pipe_vig _ _))
