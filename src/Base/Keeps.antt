-- ===== src/Base/Keeps.antt =====
-- What a call keeps: a property of the tables that holds after it, or after the rollback of it; and what a
-- call yields if it returns. One lemma for each form of a service's code.
use spare_part.Base.{◌≡◌, refl, Bool, true, false, Option, none, some, arith, ap, subst}
use spare_part.Base.Result.{Result, ok, err, tables_or}
use spare_part.Base.Shut.{◌>>=◌, ◌>>◌, raise_if, or_raise}

-- A predicate on the tables, and one on the result of a call that starts from `w`.
pub data Keeps {S E : Type 0} (P : S → Type 0) (w : S) (r : Result E S) : Type 0 where
  kept : P (tables_or w r) → Keeps P w r

pub kept_after :
    {S E : Type 0} (P : S → Type 0) (w : S) (r : Result E S) → Keeps P w r → P (tables_or w r)
kept_after P w r (kept h) = h

module _ {S E : Type 0} (P : S → Type 0) (w : S) (h : P w) where
  pub Keeps-raise_if :
      (b : Bool) (e : E) (k : Result E S)
      → (b ≡ false → Keeps P w k)
      → Keeps P w (raise_if b e >> k)
  unfolding raise_if ◌>>◌
  Keeps-raise_if true e k f = kept h
  Keeps-raise_if false e k f = f refl

  pub Keeps-or_raise {ℓ} :
      {A : Type ℓ} (o : Option A) (e : E) (k : A → Result E S)
      → ((a : A) → o ≡ some a → Keeps P w (k a))
      → Keeps P w (or_raise o e >>= k)
  unfolding or_raise ◌>>=◌
  Keeps-or_raise none e k f = kept h
  Keeps-or_raise (some a) e k f = f a refl

  pub Keeps-bind {ℓ} :
      {A : Type ℓ} (r : Result E A) (k : A → Result E S)
      → ((a : A) → r ≡ ok a → Keeps P w (k a))
      → Keeps P w (r >>= k)
  unfolding ◌>>=◌
  Keeps-bind (ok a) k f = f a refl
  Keeps-bind (err e) k f = kept h

  pub Keeps-elim {ℓ} :
      {A : Type ℓ} (o : Option A) (a : Result E S) (f : A → Result E S)
      → (o ≡ none → Keeps P w a)
      → ((x : A) → o ≡ some x → Keeps P w (f x))
      → Keeps P w (elim o [ none ↦ a | some x ↦ f x ])
  Keeps-elim none a f g k = g refl
  Keeps-elim (some x) a f g k = k x refl

-- What holds of the tables that a call returns, if it returns.
pub data Yields {S E : Type 0} (Q : S → Type 0) (r : Result E S) : Type 0 where
  yields : ((v : S) → r ≡ ok v → Q v) → Yields Q r

pub yields_of :
    {S E : Type 0} (Q : S → Type 0) (r : Result E S) (v : S) → Yields Q r → r ≡ ok v → Q v
yields_of Q r v (yields f) e = f v e

module _ {S E : Type 0} (Q : S → Type 0) where
  pub Yields-raise_if :
      (b : Bool) (e : E) (k : Result E S) → (b ≡ false → Yields Q k) → Yields Q (raise_if b e >> k)
  unfolding raise_if ◌>>◌
  Yields-raise_if true e k f = yields (λ v same. ground arith)
  Yields-raise_if false e k f = f refl

  pub Yields-or_raise {ℓ} :
      {A : Type ℓ} (o : Option A) (e : E) (k : A → Result E S)
      → ((a : A) → o ≡ some a → Yields Q (k a))
      → Yields Q (or_raise o e >>= k)
  unfolding or_raise ◌>>=◌
  Yields-or_raise none e k f = yields (λ v same. ground arith)
  Yields-or_raise (some a) e k f = f a refl

  pub Yields-bind {ℓ} :
      {A : Type ℓ} (r : Result E A) (k : A → Result E S)
      → ((a : A) → r ≡ ok a → Yields Q (k a))
      → Yields Q (r >>= k)
  unfolding ◌>>=◌
  Yields-bind (ok a) k f = f a refl
  Yields-bind (err e) k f = yields (λ v same. ground arith)

  pub Yields-ok : (u : S) → Q u → Yields {E = E} Q (ok u)
  Yields-ok u q = yields (λ v same. subst Q (ap (tables_or u) same) q)
