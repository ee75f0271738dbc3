-- ===== src/Gralloc/Sharing.antt =====
-- gr_allocator.cpp: CheckForBufferSharing finds descriptors of one heap, and the largest of them.
use platform_hardware_qcom_d.Base.{
  ℕ, zero, suc, Bool, true, false, ◌≡◌, ◌+◌, ◌≤◌, ◌<◌, arith, Option, none, some, List, [], ◌∷◌,
  map, get_elem?, if◌then◌else◌, ltb, refl, ◌↔◌, ◌∙◌, sym, ap,
}
use mathlib.Core.Path.{subst}
use platform_hardware_qcom_d.Gralloc.Dimensions.{Environment}
use platform_hardware_qcom_d.Gralloc.Descriptor.{BufferDescriptor}
use platform_hardware_qcom_d.Gralloc.Allocator.{
  Headers, HeapInfo, same_heap_info, heap_code, descriptor_heap, descriptor_size, sharing_loop,
  check_for_buffer_sharing,
}

-- The two heap infos ask ION for the same memory.
pub SameHeap : HeapInfo → HeapInfo → Type 0
SameHeap a b =
    (heap_code a.heap_id ≡ heap_code b.heap_id)
    × (a.secure_buffer ≡ b.secure_buffer)
    × (a.ion_flags ≡ b.ion_flags)

same_heap_info_iff : (a b : HeapInfo) → (same_heap_info a b ≡ true) ↔ SameHeap a b
unfolding same_heap_info SameHeap
same_heap_info_iff a b = ground arith

SameHeap-trans : (a b c : HeapInfo) → SameHeap a b → SameHeap b c → SameHeap a c
unfolding SameHeap
SameHeap-trans a b c h k = ground arith

SameHeap-sym : (a b : HeapInfo) → SameHeap a b → SameHeap b a
unfolding SameHeap
SameHeap-sym a b h = ground arith

-- Position i has the first of the largest sizes, which is more than `bound`.
pub IsFirstLargest : ℕ → List ℕ → ℕ → Type 0
IsFirstLargest bound sizes i =
    (v : ℕ) × (get_elem? sizes i ≡ some v)
    × (bound < v)
    × ((j w : ℕ) → get_elem? sizes j ≡ some w → (w ≤ v) × (j < i → w < v))

-- No size is more than `bound`.
pub IsBounded : ℕ → List ℕ → Type 0
IsBounded bound sizes = (j w : ℕ) → get_elem? sizes j ≡ some w → w ≤ bound

-- What an index option says of the sizes: none that no size exceeds the bound.
pub Picks : ℕ → List ℕ → Option ℕ → Type 0
Picks bound sizes none = IsBounded bound sizes
Picks bound sizes (some i) = IsFirstLargest bound sizes i

-- What a size in front of the list does to the index.
cons_pick : Bool → Option ℕ → Option ℕ
cons_pick bigger (some j) = some (suc j)
cons_pick true none = some 0
cons_pick false none = none

IsBounded-cons :
    (s bound : ℕ) (sizes : List ℕ) → s ≤ bound → IsBounded bound sizes → IsBounded bound (s ∷ sizes)
unfolding IsBounded
IsBounded-cons s bound sizes l h zero w e = ground arith
IsBounded-cons s bound sizes l h (suc j) w e = h j w e

IsFirstLargest-head :
    (s bound : ℕ) (sizes : List ℕ)
    → bound < s
    → IsBounded s sizes
    → IsFirstLargest bound (s ∷ sizes) 0
unfolding IsFirstLargest IsBounded
IsFirstLargest-head s bound sizes l h = (
  s,
  refl,
  l,
  λ j w e. (IsBounded-cons s s sizes (omega arith) h j w e, λ k. absurd (omega arith)),
)

IsFirstLargest-cons :
    (s bound kept : ℕ) (sizes : List ℕ) (i : ℕ)
    → bound ≤ kept
    → s ≤ kept
    → IsFirstLargest kept sizes i
    → IsFirstLargest bound (s ∷ sizes) (suc i)
unfolding IsFirstLargest
IsFirstLargest-cons s bound kept sizes i l k (v, at, above, first) = (v, at, omega arith, rest)
  where
    rest : (j w : ℕ) → get_elem? (s ∷ sizes) j ≡ some w → (w ≤ v) × (j < suc i → w < v)
    rest zero w e = ground arith
    rest (suc j) w e = let (below, before) = first j w e in (below, λ m. before (omega arith))

Picks-cons :
    (s bound : ℕ) (sizes : List ℕ) (o : Option ℕ)
    → Picks (if ltb bound s then s else bound) sizes o
    → Picks bound (s ∷ sizes) (cons_pick (ltb bound s) o)
unfolding Picks cons_pick
Picks-cons s bound sizes o h = split (ltb bound s) refl o h
  where
    split :
        (b : Bool)
        → ltb bound s ≡ b
        → (o : Option ℕ) → Picks (if b then s else bound) sizes o
        → Picks bound (s ∷ sizes) (cons_pick b o)
    split true e none k = IsFirstLargest-head s bound sizes (ground arith) k
    split false e none k = IsBounded-cons s bound sizes (ground arith) k
    split true e (some i) k = IsFirstLargest-cons s bound s sizes i (ground arith) (ground arith) k
    split false e (some i) k =
        IsFirstLargest-cons s bound bound sizes i (ground arith) (ground arith) k

-- Every heap of the list is the given one.
pub AllSame : HeapInfo → List HeapInfo → Type 0
AllSame heap [] = Unit
AllSame heap (other ∷ rest) = SameHeap other heap × AllSame heap rest

AllSame-trans :
    (a b : HeapInfo) → SameHeap a b → (heaps : List HeapInfo) → AllSame a heaps → AllSame b heaps
unfolding AllSame
AllSame-trans a b same [] h = tt
AllSame-trans a b same (c ∷ rest) h =
    (SameHeap-trans c a b h.0 same, AllSame-trans a b same rest h.1)

-- The option of the loop that starts at i, for an index that counts from the list's head.
shift : ℕ → Option ℕ → Option ℕ → Option ℕ
shift i none kept = kept
shift i (some j) kept = some (i + j)

shift_zero : (o : Option ℕ) → shift 0 o none ≡ o
unfolding shift
shift_zero none = refl
shift_zero (some j) = ap some (omega arith)

shift_cons :
    (b : Bool) (i : ℕ) (o kept : Option ℕ)
    → shift (suc i) o (if b then some i else kept) ≡ shift i (cons_pick b o) kept
unfolding shift cons_pick
shift_cons true i none kept = ground arith
shift_cons false i none kept = refl
shift_cons true i (some j) kept = ground arith
shift_cons false i (some j) kept = ground arith

-- The dimensions, ints in the code, are not negative.
abbrev pub AreNatural : List BufferDescriptor → Type 0
AreNatural [] = Unit {0}
AreNatural (d ∷ rest) = ((d.width < 2147483648) × (d.height < 2147483648)) × AreNatural rest

module _ {M : Type 0} (headers : Headers) (env : Environment M) (use_system_heap : Bool) where
  abbrev sizes : List BufferDescriptor → List ℕ
  sizes ds = map (descriptor_size headers env use_system_heap) ds

  abbrev heaps : List BufferDescriptor → List HeapInfo
  heaps ds = map (descriptor_heap headers env use_system_heap) ds

  -- The loop after one descriptor.
  abbrev next : BufferDescriptor → List BufferDescriptor → ℕ → Option ℕ → ℕ → Bool × Option ℕ
  next d rest i kept bound =
      let s = descriptor_size headers env use_system_heap d in
      sharing_loop headers env use_system_heap rest (suc i)
        (some (descriptor_heap headers env use_system_heap d))
        (if ltb bound s then some i else kept) (if ltb bound s then s else bound)

  -- One turn compares the heap and goes on.
  loop_cons :
      (d : BufferDescriptor) (rest : List BufferDescriptor) (i : ℕ) (heap : HeapInfo)
      (kept : Option ℕ) (bound : ℕ)
      → ((sharing_loop headers env use_system_heap (d ∷ rest) i (some heap) kept bound).0 ≡ true)
        ↔ (SameHeap (descriptor_heap headers env use_system_heap d) heap
            × ((next d rest i kept bound).0 ≡ true))
  unfolding sharing_loop
  loop_cons d rest i heap kept bound =
      ground (arith, same_heap_info_iff (descriptor_heap headers env use_system_heap d) heap)

  loop_cons_eq :
      (d : BufferDescriptor) (rest : List BufferDescriptor) (i : ℕ) (previous : Option HeapInfo)
      (kept : Option ℕ) (bound : ℕ)
      → (sharing_loop headers env use_system_heap (d ∷ rest) i previous kept bound).0 ≡ true
      → sharing_loop headers env use_system_heap (d ∷ rest) i previous kept bound
        ≡ next d rest i kept bound
  unfolding sharing_loop
  loop_cons_eq d rest i none kept bound h = refl
  loop_cons_eq d rest i (some heap) kept bound h = ground arith

  -- A run of the loop that returns true went through the whole list.
  loop-Picks :
      (ds : List BufferDescriptor) (i : ℕ) (previous : Option HeapInfo) (kept : Option ℕ)
      (bound : ℕ)
      → (sharing_loop headers env use_system_heap ds i previous kept bound).0 ≡ true
      → (o : Option ℕ) × Picks bound (sizes ds) o
        × ((sharing_loop headers env use_system_heap ds i previous kept bound).1 ≡ shift i o kept)
  unfolding sharing_loop Picks IsBounded shift
  loop-Picks [] i previous kept bound h = (none, (λ j w e. ground arith), refl)
  loop-Picks (d ∷ rest) i previous kept bound h =
      let s = descriptor_size headers env use_system_heap d in
      let b = ltb bound s in
      let turn = loop_cons_eq d rest i previous kept bound h in
      let (o, picks, eq) =
        loop-Picks rest (suc i) (some (descriptor_heap headers env use_system_heap d))
          (if b then some i else kept) (if b then s else bound) (sym (ap (λ r. r.0) turn) ∙ h) in
      (
        cons_pick b o,
        Picks-cons s bound (sizes rest) o picks,
        ap (λ r. r.1) turn ∙ eq ∙ shift_cons b i o kept,
      )

  -- The loop returns true exactly if every heap is the one before the list.
  loop_same_iff :
      (ds : List BufferDescriptor) (i : ℕ) (heap : HeapInfo) (kept : Option ℕ) (bound : ℕ)
      → ((sharing_loop headers env use_system_heap ds i (some heap) kept bound).0 ≡ true)
        ↔ AllSame heap (heaps ds)
  unfolding sharing_loop AllSame
  loop_same_iff [] i heap kept bound = ground arith
  loop_same_iff (d ∷ rest) i heap kept bound =
      let here = descriptor_heap headers env use_system_heap d in
      let s = descriptor_size headers env use_system_heap d in
      let turn = loop_cons d rest i heap kept bound in
      let tail =
        loop_same_iff rest (suc i) here (if ltb bound s then some i else kept)
          (if ltb bound s then s else bound) in
      (
        (λ h.
            let (same, ok) = turn.0 h in
            (same, AllSame-trans here heap same (heaps rest) (tail.0 ok))),
        (λ h.
            turn.1 (
              h.0,
              tail.1 (AllSame-trans heap here (SameHeap-sym here heap h.0) (heaps rest) h.1),
            )),
      )

  -- On descriptors whose dimensions are not negative, CheckForBufferSharing returns true exactly if
  -- all of them ask for the heap, the security and the ION flags of the first. Whether they are
  -- cached plays no part, although a comment in the code says that it is checked. Where the result
  -- is true, max_index is the first descriptor whose size is the largest, or -1 where every size
  -- is 0.
  pub check_for_buffer_sharing_lem :
      (d : BufferDescriptor) (rest : List BufferDescriptor)
      → AreNatural (d ∷ rest)
      → let (shares, max_index) = check_for_buffer_sharing headers env use_system_heap (d ∷ rest) in
        ((shares ≡ true)
          ↔ AllSame
              (descriptor_heap headers env use_system_heap d)
              (map (descriptor_heap headers env use_system_heap) rest))
        × (shares ≡ true
            → Picks 0 (map (descriptor_size headers env use_system_heap) (d ∷ rest)) max_index)
  unfolding check_for_buffer_sharing
  check_for_buffer_sharing_lem d rest natural_dimensions =
      let s = descriptor_size headers env use_system_heap d in
      (
        loop_same_iff rest 1 (descriptor_heap headers env use_system_heap d)
            (if ltb 0 s then some 0 else none) (if ltb 0 s then s else 0),
        λ h.
            let (o, picks, eq) = loop-Picks (d ∷ rest) 0 none none 0 h in
            subst (λ k. Picks 0 (sizes (d ∷ rest)) k) (sym (eq ∙ shift_zero o)) picks,
      )
