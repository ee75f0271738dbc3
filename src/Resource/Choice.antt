-- ===== src/Resource/Choice.antt =====
-- GetPipe of resource_default.cpp against a description of what it chooses.
use platform_hardware_qcom_d.Base.{
  ℕ, zero, suc, ◌+◌, ◌≡◌, ◌≤◌, ◌<◌, refl, ap, inl, inr, true, false, some, List, [], ◌∷◌, arith,
  Bool-cases, get_elem?, set,
}
use platform_hardware_qcom_d.Types.{HwBlockType}
use platform_hardware_qcom_d.Resource.{SourcePipe}
use platform_hardware_qcom_d.Resource.Pipes.{Searched, is_free, search_pipe, search_pipe_from}

abbrev pub reserve : HwBlockType → SourcePipe → SourcePipe
reserve b p = record p { hw_block_type = b }

-- Every index field lies below the number of pipes.
abbrev pub Bounded : ℕ → List SourcePipe → Type 0
Bounded n [] = Unit {0}
Bounded n (p ∷ ps) = (p.index < n) × Bounded n ps

pub Bounded-get_elem? :
    (n : ℕ) (ps : List SourcePipe) (i : ℕ) (p : SourcePipe)
    → Bounded n ps
    → get_elem? ps i ≡ some p
    → p.index < n
Bounded-get_elem? n [] i p b h = cc
Bounded-get_elem? n (q ∷ ps) zero p b h = let e : q ≡ p = ground arith in rw e at b.0
Bounded-get_elem? n (q ∷ ps) (suc i) p b h = Bounded-get_elem? n ps i p b.1 h

-- The outcome `r` of a search of the slots from `lo` up to `hi`.
pub data Search (n : ℕ) (b : HwBlockType) (lo hi : ℕ) (ps : List SourcePipe) (r : Searched)
    : Type 0 where
  not_found :
      r.0 ≡ n
      → r.1 ≡ ps
      → ((k : ℕ) (p : SourcePipe) → lo ≤ k → k < hi → get_elem? ps k ≡ some p → is_free p ≡ false)
      → Search n b lo hi ps r
  found :
      (j : ℕ) (p : SourcePipe)
      → lo ≤ j
      → j < hi
      → get_elem? ps j ≡ some p
      → is_free p ≡ true
      → r.0 ≡ p.index
      → r.1 ≡ set ps j (reserve b p)
      → Search n b lo hi ps r

-- A search of the tail, behind a pipe that is not free or not looked at.
shift :
    {n : ℕ} {b : HwBlockType} (lo lo' hi : ℕ) {ps : List SourcePipe} {r : Searched} (q : SourcePipe)
    → Search n b lo hi ps r
    → lo' ≤ suc lo
    → (lo' ≤ 0 → is_free q ≡ false)
    → ((k : ℕ) → lo' ≤ suc k → lo ≤ k)
    → Search n b lo' (suc hi) (q ∷ ps) (r.0, q ∷ r.1, r.2)
shift lo lo' hi {ps} {r} q (not_found i e none_free) l busy back =
    not_found i (ap (◌∷◌ q) e) none_free'
  where
    none_free' :
        (k : ℕ) (p : SourcePipe)
        → lo' ≤ k
        → k < suc hi
        → get_elem? (q ∷ ps) k ≡ some p
        → is_free p ≡ false
    none_free' zero p a c h = let e : q ≡ p = ground arith in rw e at (busy a)
    none_free' (suc k) p a c h = none_free k p (back k a) (omega arith) h
shift lo lo' hi {ps} {r} q (found j p a c h f i e) l busy back =
    found (suc j) p (omega arith) (omega arith) h f i (ap (◌∷◌ q) e)

search_pipe-Search :
    (n : ℕ) (b : HwBlockType) (num : ℕ) (ps : List SourcePipe)
    → Search n b 0 num ps (search_pipe n b num ps)
unfolding search_pipe
search_pipe-Search n b zero ps = not_found refl refl (λ k p a c h. absurd (omega arith))
search_pipe-Search n b (suc num) [] = not_found refl refl (λ k p a c h. cc)
search_pipe-Search n b (suc num) (p ∷ ps) = elim (Bool-cases (is_free p)) [
  | inl e ↦ found 0 p (omega arith) (omega arith) refl e (rw e) (rw e)
  | inr e ↦
      rw e (
        shift 0 0 num p (search_pipe-Search n b num ps) (omega arith) (λ _. e) (λ k _. omega arith))
]

pub search_pipe_from-Search :
    (first n : ℕ) (b : HwBlockType) (num hi : ℕ) (ps : List SourcePipe)
    → hi ≡ first + num
    → Search n b first hi ps (search_pipe_from first n b num ps)
unfolding search_pipe_from
search_pipe_from-Search zero n b num hi ps e =
    let e' : hi ≡ num = omega arith in rw e' (search_pipe-Search n b num ps)
search_pipe_from-Search (suc first) n b num zero ps e = absurd (omega arith)
search_pipe_from-Search (suc first) n b num (suc hi) [] e = not_found refl refl (λ k p a c h. cc)
search_pipe_from-Search (suc first) n b num (suc hi) (p ∷ ps) e =
    shift first (suc first) hi p (search_pipe_from-Search first n b num hi ps (omega arith))
      (omega arith) (λ z. absurd (omega arith)) (λ k z. omega arith)
