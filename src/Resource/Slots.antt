-- ===== src/Resource/Slots.antt =====
-- The slots that GetPipe of resource_default.cpp reserves, for a table whose index fields are the
-- positions.
use platform_hardware_qcom_d.Base.{
  ℕ, zero, suc, ◌+◌, ◌≡◌, ◌≢◌, ◌≤◌, ◌<◌, sym, ap, ◌∙◌, Bool, true, false, Option, some, List, [],
  ◌∷◌, arith, get_elem?, set, length, get_elem?-set_self, get_elem?-set_ne,
}
use platform_hardware_qcom_d.Types.{HwBlockType, hw_block_max, block_eq, HwResourceInfo}
use platform_hardware_qcom_d.Resource.{SourcePipe}
use platform_hardware_qcom_d.Resource.Pipes.{is_free, get_pipe}
use platform_hardware_qcom_d.Resource.Ownership.{get_pipe-Moves}
use platform_hardware_qcom_d.Resource.Change.{indices, Moves-indices}
use platform_hardware_qcom_d.Resource.Reads.{length-indices}
use platform_hardware_qcom_d.Resource.Choice.{reserve, Bounded}
use platform_hardware_qcom_d.Resource.Select.{exhausted, chosen, get_pipe-Chooses}

-- From position `k` on, each index field is the position.
abbrev pub Indexed : ℕ → List SourcePipe → Type 0
Indexed k [] = Unit {0}
Indexed k (p ∷ ps) = (p.index ≡ k) × Indexed (suc k) ps

Indexed-get_elem? :
    (k : ℕ) (ps : List SourcePipe) (i : ℕ) (p : SourcePipe)
    → Indexed k ps
    → get_elem? ps i ≡ some p
    → p.index ≡ k + i
Indexed-get_elem? k [] i p x h = cc
Indexed-get_elem? k (q ∷ ps) zero p x h = let e : q.index ≡ p.index = ground arith in omega arith
Indexed-get_elem? k (q ∷ ps) (suc i) p x h = omega (arith, Indexed-get_elem? (suc k) ps i p x.1 h)

Indexed-Bounded : (k n : ℕ) (ps : List SourcePipe) → Indexed k ps → k + length ps ≤ n → Bounded n ps
Indexed-Bounded k n [] x h = tt
Indexed-Bounded k n (p ∷ ps) x h = (omega arith, Indexed-Bounded (suc k) n ps x.1 (omega arith))

pub Indexed-indices :
    (k : ℕ) (ps qs : List SourcePipe) → indices qs ≡ indices ps → Indexed k ps → Indexed k qs
Indexed-indices k [] [] e x = tt
Indexed-indices k [] (q ∷ qs) e x = cc
Indexed-indices k (p ∷ ps) [] e x = cc
Indexed-indices k (p ∷ ps) (q ∷ qs) e x =
    (ground arith, Indexed-indices (suc k) ps qs (ground arith) x.1)

-- Where GetPipe returns a pipe, that slot was free and is the one that it reserved.
get_pipe-at :
    (info : HwResourceInfo) (n : ℕ) (b : HwBlockType) (need_scale : Bool) (ps : List SourcePipe)
    → Indexed 0 ps
    → length ps ≡ n
    → (get_pipe info n b need_scale ps).0 < n
    → (p : SourcePipe) × (get_elem? ps (get_pipe info n b need_scale ps).0 ≡ some p)
      × (is_free p ≡ true)
      × ((get_pipe info n b need_scale ps).1
          ≡ set ps (get_pipe info n b need_scale ps).0 (reserve b p))
get_pipe-at info n b need_scale ps x l below =
    elim (get_pipe-Chooses info n b ps need_scale (Indexed-Bounded 0 n ps x (omega arith))) [
      | exhausted i e busy ↦ absurd (omega arith)
      | chosen j p m g f i lt e ↦
          let at : (get_pipe info n b need_scale ps).0 ≡ j =
            omega (arith, Indexed-get_elem? 0 ps j p x g) in
          (p, rw at g, f, rw (at, e))
    ]

reserved_is_busy :
    (b : HwBlockType) (l q : SourcePipe) {o : Option SourcePipe}
    → block_eq b hw_block_max ≡ false
    → o ≡ some (reserve b l)
    → o ≡ some q
    → is_free q ≡ true
    → ⊥
unfolding is_free
reserved_is_busy b l q busy e f g = ground arith

-- Two pipes that GetPipe finds one after the other are two slots of the display's block.
pub reserved_twice :
    (info : HwResourceInfo) (n : ℕ) (b : HwBlockType) (v w : Bool) (ps : List SourcePipe)
    → Indexed 0 ps
    → length ps ≡ n
    → block_eq b hw_block_max ≡ false
    → (get_pipe info n b v ps).0 < n
    → (get_pipe info n b w (get_pipe info n b v ps).1).0 < n
    → (l q : SourcePipe) × ((get_pipe info n b v ps).0
        ≢ (get_pipe info n b w (get_pipe info n b v ps).1).0)
      × (get_elem? (get_pipe info n b w (get_pipe info n b v ps).1).1 (get_pipe info n b v ps).0
          ≡ some (reserve b l))
      × (get_elem?
            (get_pipe info n b w (get_pipe info n b v ps).1).1
            (get_pipe info n b w (get_pipe info n b v ps).1).0
          ≡ some (reserve b q))
reserved_twice info n b v w ps x len busy below_left below_right =
    let left = get_pipe info n b v ps in
    let right = get_pipe info n b w left.1 in
    let e : indices left.1 ≡ indices ps = Moves-indices (get_pipe-Moves info n b v ps) in
    let len' : length left.1 ≡ n = length-indices ps left.1 e ∙ len in
    let (l, g, _, s) = get_pipe-at info n b v ps x len below_left in
    let (q, g', f', s') =
      get_pipe-at info n b w left.1 (Indexed-indices 0 ps left.1 e x) len' below_right in
    let at_left : get_elem? left.1 left.0 ≡ some (reserve b l) =
      ap (λ z. get_elem? z left.0) s ∙ get_elem?-set_self ps left.0 (reserve b l) (omega arith) in
    let apart : left.0 ≢ right.0 =
      λ same. reserved_is_busy b l q busy (sym (ap (get_elem? left.1) same) ∙ at_left) g' f' in
    (
      l,
      q,
      apart,
      ap (λ z. get_elem? z left.0) s'
          ∙ (get_elem?-set_ne left.1 (reserve b q) (λ same. apart (sym same)) ∙ at_left),
      ap (λ z. get_elem? z right.0) s'
          ∙ get_elem?-set_self left.1 right.0 (reserve b q) (omega arith),
    )
