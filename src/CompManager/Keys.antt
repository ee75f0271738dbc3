-- ===== src/CompManager/Keys.antt =====
-- The key sets of comp_manager.cpp: std::map and std::set as lists without repetitions.
use platform_hardware_qcom_d.Base.{
  ℕ, suc, ◌≡◌, ◌≢◌, ◌≤◌, ◌<◌, refl, ◌∙◌, true, false, List, [], ◌∷◌, arith, Bool-cases, inl, inr,
  ◌⊎◌, length, ◌==◌,
}
use platform_hardware_qcom_d.CompManager.{contains, insert, erase}

-- No key stands in a list twice, and one list's keys are another's.
abbrev pub Distinct : List ℕ → Type 0
Distinct [] = Unit {0}
Distinct (x ∷ xs) = (contains x xs ≡ false) × Distinct xs

abbrev pub Within : List ℕ → List ℕ → Type 0
Within xs ys = (k : ℕ) → contains k xs ≡ true → contains k ys ≡ true

pub contains-insert :
    (k j : ℕ) (xs : List ℕ) → contains k (insert j xs) ≡ true → (k ≡ j) ⊎ (contains k xs ≡ true)
unfolding insert contains
contains-insert k j xs h = elim (Bool-cases (contains j xs)) [
  | inl e ↦ inr (ground arith)
  | inr e ↦ elim (Bool-cases (k == j)) [ inl f ↦ inl (ground arith) | inr f ↦ inr (ground arith) ]
]

pub contains-insert_old :
    (k j : ℕ) (xs : List ℕ) → contains k xs ≡ true → contains k (insert j xs) ≡ true
unfolding insert contains
contains-insert_old k j xs h = elim (Bool-cases (contains j xs)) [
  | inl e ↦ ground arith
  | inr e ↦ ground arith
]

pub contains-insert_self : (j : ℕ) (xs : List ℕ) → contains j (insert j xs) ≡ true
unfolding insert contains
contains-insert_self j xs = elim (Bool-cases (contains j xs)) [
  | inl e ↦ ground arith
  | inr e ↦ ground arith
]

pub insert-Distinct : (j : ℕ) (xs : List ℕ) → Distinct xs → Distinct (insert j xs)
unfolding insert
insert-Distinct j xs d = elim (Bool-cases (contains j xs)) [ inl e ↦ rw e d | inr e ↦ rw e (e, d) ]

pub length-insert : (j : ℕ) (xs : List ℕ) → length (insert j xs) ≤ suc (length xs)
unfolding insert
length-insert j xs = elim (Bool-cases (contains j xs)) [
  | inl e ↦ ground arith
  | inr e ↦ ground arith
]

pub contains-erase_self : (j : ℕ) (xs : List ℕ) → contains j (erase j xs) ≡ false
unfolding erase contains
contains-erase_self j [] = refl
contains-erase_self j (x ∷ xs) =
    let rest = contains-erase_self j xs in
    elim (Bool-cases (j == x)) [ inl e ↦ ground arith | inr e ↦ ground arith ]

pub contains-erase_ne : (k j : ℕ) (xs : List ℕ) → k ≢ j → contains k (erase j xs) ≡ contains k xs
unfolding erase contains
contains-erase_ne k j [] ne = refl
contains-erase_ne k j (x ∷ xs) ne =
    let rest = contains-erase_ne k j xs ne in
    elim (Bool-cases (j == x)) [ inl e ↦ ground arith | inr e ↦ ground arith ]

contains-erase_absent :
    (k j : ℕ) (xs : List ℕ) → contains k xs ≡ false → contains k (erase j xs) ≡ false
unfolding erase contains
contains-erase_absent k j [] h = refl
contains-erase_absent k j (x ∷ xs) h = let rest = contains-erase_absent k j xs in ground arith

pub erase-Distinct : (j : ℕ) (xs : List ℕ) → Distinct xs → Distinct (erase j xs)
unfolding erase
erase-Distinct j [] d = tt
erase-Distinct j (x ∷ xs) d =
    let rest = erase-Distinct j xs d.1 in
    elim (Bool-cases (j == x)) [
      | inl e ↦ rw e rest
      | inr e ↦ rw e (contains-erase_absent x j xs d.0, rest)
    ]

pub length-erase : (j : ℕ) (xs : List ℕ) → length (erase j xs) ≤ length xs
unfolding erase
length-erase j [] = omega arith
length-erase j (x ∷ xs) = let rest = length-erase j xs in ground arith

length-erase_lt : (j : ℕ) (xs : List ℕ) → contains j xs ≡ true → length (erase j xs) < length xs
unfolding erase contains
length-erase_lt j [] h = cc
length-erase_lt j (x ∷ xs) h = elim (Bool-cases (j == x)) [
  | inl e ↦ let less = length-erase j xs in ground arith
  | inr e ↦ let less = length-erase_lt j xs (ground arith) in ground arith
]

-- A list without repetitions that lies within another one is no longer.
length-Within : (xs ys : List ℕ) → Distinct xs → Within xs ys → length xs ≤ length ys
unfolding contains
length-Within [] ys d w = omega arith
length-Within (x ∷ xs) ys d w =
    let shorter : length xs ≤ length (erase x ys) = length-Within xs (erase x ys) d.1 (λ k m.
      let ne : k ≢ x = λ same. ground arith in contains-erase_ne k x ys ne ∙ w k (ground arith)) in
    let there : contains x ys ≡ true = w x (ground arith) in
    omega (arith, shorter, length-erase_lt x ys there)

-- With as many entries, it has them all.
pub length-Within_all :
    (xs ys : List ℕ) → Distinct xs → Within xs ys → length ys ≡ length xs → Within ys xs
unfolding contains
length-Within_all xs ys d w e k h = elim (Bool-cases (contains k xs)) [
  | inl f ↦ f
  | inr f ↦ absurd (
      omega (
        arith,
        length-Within (k ∷ xs) ys (f, d)
            (λ j m. elim (Bool-cases (j == k)) [
              | inl g ↦ ground arith
              | inr g ↦ w j (ground arith)
            ]),
      ))
]
