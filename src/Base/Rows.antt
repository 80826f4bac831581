-- ===== src/Base/Rows.antt =====
-- A database table as the list of its rows in the order of their primary keys.
use spare_part.Base.{
  ℕ, suc, ◌≤◌, ◌≡◌, ◌≢◌, refl, List, [], ◌∷◌, Option, none, some, arith, ◌==◌, if◌then◌else◌, leb,
  insert_last, count_if, bit, Bool, false, ◌+◌, Option-cases, inl, inr,
}

pub record Row {ℓ} (A : Type ℓ) : Type ℓ where
  pub key : A → ℕ

module _ {ℓ} {A : Type ℓ} ⦃r : Row A⦄ where
  -- `objects.get(pk=k)`
  abbrev pub get : ℕ → List A → Option A
  get k [] = none
  get k (x ∷ xs) = if r.key x == k then some x else get k xs

  -- `row.save()`
  abbrev pub save : A → List A → List A
  save a [] = []
  save a (x ∷ xs) = if r.key x == r.key a then a ∷ xs else x ∷ save a xs

  -- The key that the table gives to the next row: above every key in it.
  abbrev pub next_pk : List A → ℕ
  next_pk [] = 1
  next_pk (x ∷ xs) = let m = next_pk xs in if leb m (r.key x) then suc (r.key x) else m

  pub get-save_self :
      (a b : A) (xs : List A) → get (r.key a) xs ≡ some b → get (r.key a) (save a xs) ≡ some a
  get-save_self a b [] e = ground arith
  get-save_self a b (x ∷ xs) e = ground (arith, get-save_self a b xs)

  pub get-save_ne : (k : ℕ) (a : A) (xs : List A) → k ≢ r.key a → get k (save a xs) ≡ get k xs
  get-save_ne k a [] h = refl
  get-save_ne k a (x ∷ xs) h = ground (arith, get-save_ne k a xs h)

  pub get-key : (k : ℕ) (a : A) (xs : List A) → get k xs ≡ some a → r.key a ≡ k
  get-key k a [] e = ground arith
  get-key k a (x ∷ xs) e = ground (arith, get-key k a xs)

  -- A row that is found stands under its own key.
  pub get_own : (k : ℕ) (a : A) (xs : List A) → get k xs ≡ some a → get (r.key a) xs ≡ some a
  get_own k a xs e = ground (arith, get-key k a xs e)

  pub get-next_pk : (k : ℕ) (xs : List A) → next_pk xs ≤ k → get k xs ≡ none
  get-next_pk k [] h = refl
  get-next_pk k (x ∷ xs) h = ground (arith, get-next_pk k xs)

  pub get-insert_last :
      (k : ℕ) (a : A) (xs : List A)
      → get k xs ≡ none
      → get k (insert_last a xs) ≡ (if r.key a == k then some a else none)
  get-insert_last k a [] e = refl
  get-insert_last k a (x ∷ xs) e = ground (arith, get-insert_last k a xs)

  pub get-insert_last_old :
      (k : ℕ) (a b : A) (xs : List A) → get k xs ≡ some b → get k (insert_last a xs) ≡ some b
  get-insert_last_old k a b [] e = ground arith
  get-insert_last_old k a b (x ∷ xs) e = ground (arith, get-insert_last_old k a b xs)

  -- A test of the row with key `k`; a missing row fails it.
  abbrev pub flag_at : (A → Bool) → ℕ → List A → Bool
  flag_at f k xs = elim (get k xs) [ none ↦ false | some a ↦ f a ]

  pub flag_at-get :
      (f : A → Bool) (k : ℕ) (a : A) (xs : List A) → get k xs ≡ some a → flag_at f k xs ≡ f a
  flag_at-get f k a xs e = rw (e, flag_at)

  pub flag_at-save :
      (f : A → Bool) (k : ℕ) (a b : A) (xs : List A)
      → get (r.key a) xs ≡ some b
      → flag_at f k (save a xs) ≡ (if r.key a == k then f a else flag_at f k xs)
  flag_at-save f k a b [] e = ground arith
  flag_at-save f k a b (x ∷ xs) e = ground (arith, flag_at-save f k a b xs)

  pub flag_at-insert_last :
      (f : A → Bool) (k : ℕ) (a : A) (xs : List A)
      → r.key a ≡ next_pk xs
      → flag_at f k (insert_last a xs) ≡ (if r.key a == k then f a else flag_at f k xs)
  flag_at-insert_last f k a xs e = elim (Option-cases (get k xs)) [
    | inl missing ↦ ground (arith, get-insert_last k a xs missing)
    | inr (b, found) ↦ ground (arith, get-insert_last_old k a b xs found, get-next_pk k xs)
  ]

  -- A saved row is counted anew in the place of the old one.
  pub count_if-save :
      (p : A → Bool) (a b : A) (xs : List A)
      → get (r.key a) xs ≡ some b
      → count_if p (save a xs) + bit (p b) ≡ count_if p xs + bit (p a)
  count_if-save p a b [] e = ground arith
  count_if-save p a b (x ∷ xs) e = ground (arith, count_if-save p a b xs)
