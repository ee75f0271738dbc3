-- ===== src/Base/Fault.antt =====
-- State passing with faults. `none` stands for what has no defined outcome in the source: a
-- dangling handle, an index past the end of an array, or a thread that waits for its own lock.
use mathlib.Core.Option.{Option, none, some}
use mathlib.Core.Path.{◌≡◌, refl, subst}

abbrev pub Run : Type 0 → Type 0 → Type 0
Run S A = S → Option (A × S)

abbrev pub pure : {S A : Type 0} → A → Run S A
pure a s = some (a, s)

infixl 5 ◌>>=◌ ◌>>◌
abbrev pub ◌>>=◌ : {S A B : Type 0} → Run S A → (A → Run S B) → Run S B
◌>>=◌ m f s = elim (m s) [ none ↦ none | some (a, s') ↦ f a s' ]

abbrev pub ◌>>◌ : {S B : Type 0} → Run S (Unit {0}) → Run S B → Run S B
m >> k = m >>= λ _. k

abbrev pub get : {S : Type 0} → Run S S
get s = some (s, s)

abbrev pub put : {S : Type 0} → S → Run S (Unit {0})
put s _ = some (tt, s)

-- A successful sequence has a successful first part.
pub >>=-eq-some :
    {S A B : Type 0} (m : Run S A) (f : A → Run S B) (s : S) {b : B} {u : S}
    → (m >>= f) s ≡ some (b, u)
    → (a : A) × (t : S) × (m s ≡ some (a, t)) × (f a t ≡ some (b, u))
>>=-eq-some {S} {A} {B} m f s {b} {u} h = split (m s) refl h
  where
    split :
        (r : Option (A × S))
        → m s ≡ r
        → elim r as (λ _. Option (B × S)) [ none ↦ none | some (a, t) ↦ f a t ] ≡ some (b, u)
        → (a : A) × (t : S) × (m s ≡ some (a, t)) × (f a t ≡ some (b, u))
    split none e k = cc
    split (some (a, t)) e k = (a, t, e, k)

-- The run does not fault, and what it returns satisfies P.
abbrev pub Ensures : {S A : Type 0} → Option (A × S) → (A → S → Type 0) → Type 0
Ensures none P = ⊥
Ensures (some (a, s)) P = P a s

module _ {S A B : Type 0} where
  pub bind-Ensures :
      (Q : A → S → Type 0) (P : B → S → Type 0) (r : Option (A × S)) (f : A → Run S B)
      → Ensures r Q
      → ((a : A) (t : S) → Q a t → Ensures (f a t) P)
      → Ensures (elim r as (λ _. Option (B × S)) [ none ↦ none | some (a, t) ↦ f a t ]) P
  bind-Ensures Q P none f h next = absurd h
  bind-Ensures Q P (some (a, t)) f h next = next a t h

module _ {S A : Type 0} where
  pub Ensures_mono :
      (P Q : A → S → Type 0) (r : Option (A × S))
      → Ensures r P
      → ((a : A) (t : S) → P a t → Q a t)
      → Ensures r Q
  Ensures_mono P Q none h imply = absurd h
  Ensures_mono P Q (some (a, t)) h imply = imply a t h

  pub Ensures_at :
      (P : A → S → Type 0) (r : Option (A × S)) (a : A) (t : S)
      → r ≡ some (a, t)
      → Ensures r P
      → P a t
  Ensures_at P r a t e h = subst (λ x. Ensures x P) e h

-- Where the run does not fault, what it returns satisfies P.
abbrev pub Returns : {S A : Type 0} → Option (A × S) → (A → S → Type 0) → Type 0
Returns none P = Unit
Returns (some (a, s)) P = P a s

module _ {S A B : Type 0} where
  pub bind-Returns :
      (Q : A → S → Type 0) (P : B → S → Type 0) (r : Option (A × S)) (f : A → Run S B)
      → Returns r Q
      → ((a : A) (t : S) → Q a t → Returns (f a t) P)
      → Returns (elim r as (λ _. Option (B × S)) [ none ↦ none | some (a, t) ↦ f a t ]) P
  bind-Returns Q P none f h next = tt
  bind-Returns Q P (some (a, t)) f h next = next a t h

module _ {S A : Type 0} where
  pub Returns_at :
      (P : A → S → Type 0) (r : Option (A × S)) (a : A) (t : S)
      → r ≡ some (a, t)
      → Returns r P
      → P a t
  Returns_at P r a t e h = subst (λ x. Returns x P) e h
