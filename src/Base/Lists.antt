-- ===== src/Base/Lists.antt =====
-- Lists measured by native numbers, and sums over them.
use Prim.Native.Nat.{ℕ, zero, suc}
use mathlib.Core.Path.{◌≡◌, refl}
use mathlib.Core.Bool.{Bool, true, false}
use mathlib.Core.List.{List, [], ◌∷◌}
use mathlib.Core.Option.{Option, none, some}
use native.Mathlib.Omega.{arith}
use spare_part.Base.Tests.{if◌then◌else◌}

module _ {ℓ} {A : Type ℓ} where
  abbrev pub length : List A → ℕ
  length [] = 0
  length (x ∷ xs) = suc (length xs)

  -- `text[:n]`
  abbrev pub take : ℕ → List A → List A
  take zero xs = []
  take (suc n) [] = []
  take (suc n) (x ∷ xs) = x ∷ take n xs

  abbrev pub is_none : Option A → Bool
  is_none none = true
  is_none (some a) = false

  -- `queryset.filter(p).first()` in the order of the table
  abbrev pub find_first : (A → Bool) → List A → Option A
  find_first p [] = none
  find_first p (x ∷ xs) = if p x then some x else find_first p xs

  -- `queryset.filter(p).count()`
  abbrev pub count_if : (A → Bool) → List A → ℕ
  count_if p [] = 0
  count_if p (x ∷ xs) = if p x then suc (count_if p xs) else count_if p xs

  -- `objects.create(...)`: the new row comes last.
  abbrev pub insert_last : A → List A → List A
  insert_last a [] = a ∷ []
  insert_last a (x ∷ xs) = x ∷ insert_last a xs

  pub count_if-insert_last :
      (p : A → Bool) (a : A) (xs : List A)
      → count_if p (insert_last a xs) ≡ (if p a then suc (count_if p xs) else count_if p xs)
  count_if-insert_last p a [] = refl
  count_if-insert_last p a (x ∷ xs) = ground (arith, count_if-insert_last p a xs)

  -- Nothing is found exactly when nothing is counted.
  pub find_first-none_zero :
      (p : A → Bool) (xs : List A) → find_first p xs ≡ none → count_if p xs ≡ 0
  find_first-none_zero p [] e = refl
  find_first-none_zero p (x ∷ xs) e = ground (arith, find_first-none_zero p xs)

  -- What is found passes the test.
  pub find_first-holds :
      (p : A → Bool) (a : A) (xs : List A) → find_first p xs ≡ some a → p a ≡ true
  find_first-holds p a [] e = ground arith
  find_first-holds p a (x ∷ xs) e = ground (arith, find_first-holds p a xs)

  pub length-insert_last : (a : A) (xs : List A) → length (insert_last a xs) ≡ suc (length xs)
  length-insert_last a [] = refl
  length-insert_last a (x ∷ xs) = omega (arith, length-insert_last a xs)

abbrev pub bit : Bool → ℕ
bit true = 1
bit false = 0
