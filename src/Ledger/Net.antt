-- ===== src/Ledger/Net.antt =====
-- A posting brings the net amount of its source to the target, and posts no more than the difference.
use spare_part.Base.{
  ◌⊎◌, ℕ, ◌≡◌, refl, Bool, true, false, ◌&&◌, List, [], ◌∷◌, Option, none, some, arith, ◌==◌,
  insert_last, if◌then◌else◌, is_none, Bool-cases, inl, inr,
}
use spare_part.Base.Int.{
  ℤ, pos, ◌+ℤ◌, ◌-ℤ◌, eqb_ℤ, eq_of_parts, +ℤ_assoc, +ℤ_zero, +ℤ_diff, int_laws,
}
use spare_part.Base.Result.{ok}
use spare_part.Ledger.Tables.{SourceType, same_source_type, CostTransaction, Books}
use spare_part.Ledger.Service.{
  is_of, sum_of, last_of, Posting, new_transaction, refresh_wo_cache, refresh_if, post_delta, post,
}

pub sum_of-insert_last :
    (test : CostTransaction → Bool) (x : CostTransaction) (xs : List CostTransaction)
    → sum_of test (insert_last x xs) ≡ sum_of test xs +ℤ (if test x then x.amount else pos 0)
sum_of-insert_last test x [] = omega int_laws
sum_of-insert_last test x (y ∷ ys) = rw (
  sum_of-insert_last test x ys,
  +ℤ_assoc (if test y then y.amount else pos 0) _ (if test x then x.amount else pos 0),
)

-- The journal after a posting of `delta`.
abbrev pub posted : Books → Posting → ℤ → ℕ → Books
posted b p delta now = record b {
  transactions = insert_last (new_transaction b p delta now) b.transactions;
}

-- A refresh of the cache leaves the journal alone.
pub refresh-transactions :
    (wo : Option ℕ) (b : Books) → (refresh_if wo b).transactions ≡ b.transactions
unfolding refresh_wo_cache
refresh-transactions none b = refl
refresh-transactions (some wo) b = ground arith

eqb_true : (a b : ℤ) → eqb_ℤ a b ≡ true → a ≡ b
eqb_true a b h = eq_of_parts a b (ground arith)

eqb_refl : (a : ℤ) → eqb_ℤ a a ≡ true
eqb_refl a = ground arith

-- A posting that succeeds either finds the target reached or posts the difference.
pub post-cases :
    (b : Books) (p : Posting) (now : ℕ) {q : Books} {x : Option CostTransaction}
    → post b p now ≡ ok (q, x)
    → let net = sum_of (is_of p.source_type p.source_id) b.transactions in
      ((q ≡ b) × (net ≡ p.amount))
      ⊎ (q ≡ refresh_if p.work_order (posted b p (p.amount -ℤ net) now))
unfolding post post_delta
post-cases b p now {q} {x} e =
    let net = sum_of (is_of p.source_type p.source_id) b.transactions in
    elim (Bool-cases (eqb_ℤ net p.amount)) [
      | inl reached ↦ inl (ground (arith, rw (reached, post) at e), eqb_true net p.amount reached)
      | inr short ↦ elim (Bool-cases (is_none p.work_order)) [
        | inl missing ↦ absurd (ground (arith, rw (short, missing, post) at e))
        | inr there ↦ inr (ground (arith, rw (short, there, post) at e))
      ]
    ]

is_of_self : (t : SourceType) (k : ℕ) → (same_source_type t t && k == k) ≡ true
is_of_self SourceType.part_issue_line k = ground arith
is_of_self SourceType.external_repair_order k = ground arith
is_of_self SourceType.stock_movement k = ground arith
is_of_self SourceType.cost_adjustment k = ground arith

sum_of-posted :
    (test : CostTransaction → Bool) (b : Books) (p : Posting) (delta : ℤ) (now : ℕ)
    → sum_of test (refresh_if p.work_order (posted b p delta now)).transactions
      ≡ sum_of test b.transactions
        +ℤ (if test (new_transaction b p delta now) then delta else pos 0)
sum_of-posted test b p delta now = rw (
  refresh-transactions p.work_order (posted b p delta now),
  sum_of-insert_last test (new_transaction b p delta now) b.transactions,
)

posted_self :
    (b : Books) (p : Posting) (now : ℕ)
    → let test = is_of p.source_type p.source_id in
      let net = sum_of test b.transactions in
      sum_of test (refresh_if p.work_order (posted b p (p.amount -ℤ net) now)).transactions
      ≡ p.amount
posted_self b p now =
    let test = is_of p.source_type p.source_id in
    let net = sum_of test b.transactions in
    rw (sum_of-posted test b p (p.amount -ℤ net) now, is_of_self p.source_type p.source_id)
      (+ℤ_diff net p.amount)

-- A posting that succeeds makes the net amount of its source the amount posted, and changes the net
-- amount of no other source.
pub post_reaches :
    (b : Books) (p : Posting) (now : ℕ) {q : Books} {x : Option CostTransaction} (t : SourceType)
    (k : ℕ)
    → (same_source_type t p.source_type && p.source_id == k) ≡ false
    → post b p now ≡ ok (q, x)
    → (sum_of (is_of p.source_type p.source_id) q.transactions ≡ p.amount)
      × (sum_of (is_of t k) q.transactions ≡ sum_of (is_of t k) b.transactions)
post_reaches b p now {q} {x} t k other e = elim (post-cases b p now e) [
  | inl (same, reached) ↦ rw same (reached, refl)
  | inr new ↦
      let net = sum_of (is_of p.source_type p.source_id) b.transactions in
      rw new (
        posted_self b p now,
        rw (sum_of-posted (is_of t k) b p (p.amount -ℤ net) now, other) (+ℤ_zero _),
      )
]

net_after :
    (b : Books) (p : Posting) (now : ℕ) {q : Books} {x : Option CostTransaction}
    → post b p now ≡ ok (q, x)
    → sum_of (is_of p.source_type p.source_id) q.transactions ≡ p.amount
net_after b p now e = elim (post-cases b p now e) [
  | inl (same, reached) ↦ rw same reached
  | inr new ↦ rw new (posted_self b p now)
]

-- Posting is idempotent: the same posting again, at any time, changes nothing, and gives the last
-- row of its source.
pub post_twice :
    (b : Books) (p : Posting) (now later : ℕ) {q : Books} {x : Option CostTransaction}
    → post b p now ≡ ok (q, x)
    → post q p later ≡ ok (q, last_of p.source_type p.source_id q.transactions)
unfolding post
post_twice b p now later {q} {x} e = rw (net_after b p now e, eqb_refl p.amount)
