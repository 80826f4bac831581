-- ===== src/Base/Sums.antt =====
-- Sums over the rows of a table, and tables in which no key comes twice.
use spare_part.Base.{
  ◌≡◌, refl, List, [], ◌∷◌, some, arith, ◌==◌, insert_last, find_first, Bool, is_none, true, ◌&&◌,
  Bool-cases, inl, inr,
}
use spare_part.Base.Int.{ℤ, pos, ◌+ℤ◌, int_laws, +ℤ_assoc}
use spare_part.Base.Rows.{Row, get, save, get-insert_last, get-save_ne}

module _ {ℓ} {A : Type ℓ} where
  abbrev pub total : (A → ℤ) → List A → ℤ
  total f [] = pos 0
  total f (x ∷ xs) = f x +ℤ total f xs

  pub total-insert_last :
      (f : A → ℤ) (a : A) (xs : List A) → total f (insert_last a xs) ≡ total f xs +ℤ f a
  total-insert_last f a [] = omega int_laws
  total-insert_last f a (x ∷ xs) = rw (total-insert_last f a xs, +ℤ_assoc (f x) _ (f a))

swap_head : (x a b s t : ℤ) → s +ℤ b ≡ t +ℤ a → (x +ℤ s) +ℤ b ≡ (x +ℤ t) +ℤ a
swap_head x a b s t e = rw (+ℤ_assoc x s b, e, +ℤ_assoc x t a)

swap_ends : (a b t : ℤ) → (a +ℤ t) +ℤ b ≡ (b +ℤ t) +ℤ a
swap_ends a b t = omega int_laws

module _ {ℓ} {A : Type ℓ} ⦃r : Row A⦄ where
  -- Every row is the one of its key.
  abbrev pub is_unique : List A → Bool
  is_unique [] = true
  is_unique (x ∷ xs) = is_none (get (r.key x) xs) && is_unique xs

  pub total-save :
      (f : A → ℤ) (a b : A) (xs : List A)
      → get (r.key a) xs ≡ some b
      → total f (save a xs) +ℤ f b ≡ total f xs +ℤ f a
  total-save f a b [] e = ground arith
  total-save f a b (x ∷ xs) e = elim (Bool-cases (r.key x == r.key a)) [
    | inl here ↦ ground (arith, swap_ends (f a) (f x) (total f xs))
    | inr other ↦
        ground
          (arith, swap_head (f x) (f a) (f b) _ _ (total-save f a b xs (ground (arith, other))))
  ]

  pub is_unique-save : (a : A) (xs : List A) → is_unique xs ≡ true → is_unique (save a xs) ≡ true
  is_unique-save a [] h = refl
  is_unique-save a (x ∷ xs) h = ground (arith, is_unique-save a xs, get-save_ne (r.key x) a xs)

  pub is_unique-insert_last :
      (a : A) (xs : List A)
      → is_none (get (r.key a) xs) ≡ true
      → is_unique xs ≡ true
      → is_unique (insert_last a xs) ≡ true
  is_unique-insert_last a [] h k = refl
  is_unique-insert_last a (x ∷ xs) h k =
      ground (arith, is_unique-insert_last a xs, get-insert_last (r.key x) a xs)

  pub find_first-get :
      (p : A → Bool) (a : A) (xs : List A)
      → is_unique xs ≡ true
      → find_first p xs ≡ some a
      → get (r.key a) xs ≡ some a
  find_first-get p a [] h e = ground arith
  find_first-get p a (x ∷ xs) h e = ground (arith, find_first-get p a xs)
