-- ===== src/Ledger/Cache.antt =====
-- The cache of a work order's costs agrees with the journal after every call of the ledger.
use spare_part.Ledger.Steps.{posts_material, LedgerCall, run, step, books_after}
use spare_part.Base.{
  ◌≢◌, ℕ, ◌≡◌, refl, sym, subst, Bool, true, false, ◌&&◌, List, [], ◌∷◌, Option, none, some, arith,
  insert_last, if◌then◌else◌, if_branches, count_if, count_if-insert_last, Option-cases, inl, inr,
}
use spare_part.Base.Int.{ℤ, pos, ◌+ℤ◌, ◌-ℤ◌, +ℤ_zero, int_laws, eqb_ℤ}
use spare_part.Base.Rows.{get, get-save_self, get-save_ne, get-insert_last, get-insert_last_old}
use spare_part.Base.Result.{or_raise, ◌>>◌, raise_if, ok}
use spare_part.Ledger.Tables.{
  same_category, CostAdjustment, CostCategory, CostTransaction, WorkOrderCost, Books, cost_row,
  total_cost,
}
use spare_part.Ledger.Service.{
  consumable_posting, or_else, repair_posting, material_posting, post_adjustment, post_consumable,
  post_vendor_repair, invalid_adjustment, post_material, is_of, post_delta, sum_of, targets,
  in_category, recalculated, refresh_wo_cache, Posting, new_transaction, post,
}
use spare_part.Ledger.Steps.{
  posts_material, posts_vendor_repair, posts_consumable, posts_adjustment,
}
use spare_part.Stock.Depot.{line_row}
use spare_part.Stock.Tables.{stock_movement_row}
use spare_part.Ledger.Tables.{repair_order_row}
use spare_part.Ledger.Net.{sum_of-insert_last, refresh-transactions}
use native.Mathlib.Decide.{ℕ_discrete}

-- A row of the cache next to the journal: the four sums and the count; without a row, no transaction.
abbrev pub AgreesWith : Option WorkOrderCost → ℕ → List CostTransaction → Type 0
AgreesWith none wo xs = count_if (targets wo) xs ≡ 0
AgreesWith (some c) wo xs =
    (c.material_cost ≡ sum_of (in_category wo CostCategory.material) xs)
    × (c.vendor_repair_cost ≡ sum_of (in_category wo CostCategory.vendor_repair) xs)
    × (c.consumables_cost ≡ sum_of (in_category wo CostCategory.consumable) xs)
    × (c.additional_cost ≡ sum_of (in_category wo CostCategory.adjustment) xs)
    × (c.ledger_transaction_count ≡ count_if (targets wo) xs)

abbrev pub IsCached : ℕ → Books → Type 0
IsCached wo b = AgreesWith (get wo b.costs) wo b.transactions

recalculated-AgreesWith :
    (b : Books) (wo : ℕ) → AgreesWith (some (recalculated b wo)) wo b.transactions
unfolding recalculated
recalculated-AgreesWith b wo = (refl, refl, refl, refl, refl)

recalculated-key : (b : Books) (wo : ℕ) → (recalculated b wo).work_order ≡ wo
unfolding recalculated
recalculated-key b wo = refl

get-refresh_self :
    (b : Books) (wo : ℕ) → get wo (refresh_wo_cache b wo).costs ≡ some (recalculated b wo)
unfolding refresh_wo_cache recalculated
get-refresh_self b wo = elim (Option-cases (get wo b.costs)) [
  | inl missing ↦ ground (arith, get-insert_last wo (recalculated b wo) b.costs missing)
  | inr (c, found) ↦ ground (arith, get-save_self (recalculated b wo) c b.costs found)
]

get-refresh_ne :
    (b : Books) (wo k : ℕ) → k ≢ wo → get k (refresh_wo_cache b wo).costs ≡ get k b.costs
unfolding refresh_wo_cache recalculated
get-refresh_ne b wo k ne = elim (Option-cases (get wo b.costs)) [
  | inl missing ↦ elim (Option-cases (get k b.costs)) [
    | inl none_there ↦ ground (arith, get-insert_last k (recalculated b wo) b.costs none_there)
    | inr (c, found) ↦ ground (arith, get-insert_last_old k (recalculated b wo) c b.costs found)
  ]
  | inr (c, found) ↦ ground (arith, get-save_ne k (recalculated b wo) b.costs ne)
]

not_counted :
    (wo w : ℕ) (c : CostCategory) (x : CostTransaction)
    → x.work_order ≡ some w
    → wo ≢ w
    → in_category wo c x ≡ false
not_counted wo w c x to ne = ground arith

other_sum :
    (wo w : ℕ) (c : CostCategory) (x : CostTransaction) (xs : List CostTransaction)
    → x.work_order ≡ some w
    → wo ≢ w
    → sum_of (in_category wo c) (insert_last x xs) ≡ sum_of (in_category wo c) xs
other_sum wo w c x xs to ne =
    rw (sum_of-insert_last (in_category wo c) x xs, not_counted wo w c x to ne) (+ℤ_zero _)

not_targeted :
    (wo w : ℕ) (x : CostTransaction) → x.work_order ≡ some w → wo ≢ w → targets wo x ≡ false
not_targeted wo w x to ne = ground arith

-- A transaction of another order does not matter.
other-AgreesWith :
    (row : Option WorkOrderCost) (wo w : ℕ) (x : CostTransaction) (xs : List CostTransaction)
    → x.work_order ≡ some w
    → wo ≢ w
    → AgreesWith row wo xs
    → AgreesWith row wo (insert_last x xs)
other-AgreesWith none wo w x xs to ne h =
    rw (count_if-insert_last (targets wo) x xs, not_targeted wo w x to ne) h
other-AgreesWith (some c) wo w x xs to ne (m, v, u, a, n) = (
  rw (other_sum wo w CostCategory.material x xs to ne) m,
  rw (other_sum wo w CostCategory.vendor_repair x xs to ne) v,
  rw (other_sum wo w CostCategory.consumable x xs to ne) u,
  rw (other_sum wo w CostCategory.adjustment x xs to ne) a,
  rw (count_if-insert_last (targets wo) x xs, not_targeted wo w x to ne) n,
)

refresh-IsCached :
    (wo w : ℕ) (b : Books) (x : CostTransaction)
    → x.work_order ≡ some w
    → IsCached wo b
    → IsCached wo (refresh_wo_cache (record b { transactions = insert_last x b.transactions }) w)
refresh-IsCached wo w b x to h =
    let m : Books = record b { transactions = insert_last x b.transactions } in
    rw (refresh-transactions (some w) m) (elim (ℕ_discrete wo w) [
      | yes same ↦
          subst (λ k. AgreesWith (get k (refresh_wo_cache m w).costs) k m.transactions) (sym same)
            (rw (get-refresh_self m w) (recalculated-AgreesWith m w))
      | no other ↦
          rw (get-refresh_ne m w wo other)
            (other-AgreesWith (get wo b.costs) wo w x b.transactions to other h)
    ])

post_delta-IsCached :
    (wo : ℕ) (d b : Books) (p : Posting) (delta : ℤ) (now : ℕ) (target : Option ℕ)
    → p.work_order ≡ target
    → IsCached wo d
    → IsCached wo b
    → IsCached wo (books_after d (post_delta b p delta now))
unfolding post_delta
post_delta-IsCached wo d b p delta now none e kept h = rw (e, post_delta) kept
post_delta-IsCached wo d b p delta now (some w) e kept h =
    rw (e, post_delta)
      (refresh-IsCached wo w b (new_transaction b (record p { work_order = some w }) delta now) refl
        h)

-- A posting on the tables `b`, and the tables `d` where it raises.
post-IsCached :
    (wo : ℕ) (d b : Books) (p : Posting) (now : ℕ)
    → IsCached wo d
    → IsCached wo b
    → IsCached wo (books_after d (post b p now))
unfolding post
post-IsCached wo d b p now kept h =
    let net = sum_of (is_of p.source_type p.source_id) b.transactions in
    if_branches (λ r. IsCached wo (books_after d r)) (eqb_ℤ net p.amount) _ _ (λ _. h)
      (λ _. post_delta-IsCached wo d b p (p.amount -ℤ net) now p.work_order refl kept h)

-- The cases of a call: it writes nothing, or it posts.
step_IsCached_if :
    (wo : ℕ) (b : Books) (skip : Bool) (p : Posting) (now : ℕ)
    → IsCached wo b
    → IsCached wo (books_after b (if skip then ok (b, none) else post b p now))
step_IsCached_if wo b skip p now h =
    if_branches (λ r. IsCached wo (books_after b r)) skip _ _ (λ _. h)
      (λ _. post-IsCached wo b b p now h h)

adjust-IsCached :
    (wo : ℕ) (b : Books) (adj : CostAdjustment) (bad : Bool) (p : Posting) (now : ℕ)
    → IsCached wo b
    → IsCached wo (
        books_after b (
          raise_if bad invalid_adjustment
          >> post (record b { adjustments = insert_last adj b.adjustments }) p now))
adjust-IsCached wo b adj true p now h = h
adjust-IsCached wo b adj false p now h =
    post-IsCached wo b (record b { adjustments = insert_last adj b.adjustments }) p now h h

-- Every call of the ledger keeps the cache of a work order in agreement with the journal: its four
-- costs are the sums of the order's transactions by category, and its count is their number.
pub step-IsCached : (wo : ℕ) (b : Books) (c : LedgerCall) → IsCached wo b → IsCached wo (step b c)
unfolding step post_material post_vendor_repair post_consumable post_adjustment
step-IsCached wo b (posts_material line actor memo now) h = elim (Option-cases (get line b.lines)) [
  | inl missing ↦ rw (missing, or_raise) h
  | inr (l, found) ↦
      rw (found, or_raise) (step_IsCached_if wo b _ (material_posting l actor memo) now h)
]
step-IsCached wo b (posts_vendor_repair order actor memo now) h =
    elim (Option-cases (get order b.repair_orders)) [
      | inl missing ↦ rw (missing, or_raise) h
      | inr (o, found) ↦
          rw (found, or_raise)
            (step_IsCached_if wo b _ (repair_posting o (or_else o.actual_cost (pos 0)) actor memo)
              now h)
    ]
step-IsCached wo b (posts_consumable movement actor memo now) h =
    elim (Option-cases (get movement b.stock_movements)) [
      | inl missing ↦ rw (missing, or_raise) h
      | inr (m, found) ↦
          rw (found, or_raise) (step_IsCached_if wo b _ (consumable_posting m actor memo) now h)
    ]
step-IsCached wo b (posts_adjustment order amount memo actor now) h =
    adjust-IsCached wo b _ _ _ now h

-- After any history of calls of the ledger the four cached costs of a work order are the sums of its
-- transactions by category, its cached count is their number, and without a cached row it has no
-- transaction, where that held before.
pub run-IsCached :
    (wo : ℕ) (b : Books) (cs : List LedgerCall) → IsCached wo b → IsCached wo (run b cs)
unfolding run
run-IsCached wo b [] h = h
run-IsCached wo b (c ∷ cs) h = run-IsCached wo (step b c) cs (step-IsCached wo b c h)

-- An amount counts in exactly one of the categories.
one_category :
    (t : Bool) (c : CostCategory) (a : ℤ)
    → (if t && same_category CostCategory.material c then a else pos 0)
        +ℤ (if t && same_category CostCategory.vendor_repair c then a else pos 0)
        +ℤ (if t && same_category CostCategory.consumable c then a else pos 0)
        +ℤ (if t && same_category CostCategory.adjustment c then a else pos 0)
      ≡ (if t then a else pos 0)
one_category false c a = omega int_laws
one_category true CostCategory.material a = omega int_laws
one_category true CostCategory.vendor_repair a = omega int_laws
one_category true CostCategory.consumable a = omega int_laws
one_category true CostCategory.adjustment a = omega int_laws

regroup :
    (a b c d m v u w : ℤ)
    → (a +ℤ m) +ℤ (b +ℤ v) +ℤ (c +ℤ u) +ℤ (d +ℤ w) ≡ (a +ℤ b +ℤ c +ℤ d) +ℤ (m +ℤ v +ℤ u +ℤ w)
regroup a b c d m v u w = omega int_laws

sum_by_category :
    (wo : ℕ) (xs : List CostTransaction)
    → sum_of (in_category wo CostCategory.material) xs
        +ℤ sum_of (in_category wo CostCategory.vendor_repair) xs
        +ℤ sum_of (in_category wo CostCategory.consumable) xs
        +ℤ sum_of (in_category wo CostCategory.adjustment) xs
      ≡ sum_of (targets wo) xs
sum_by_category wo [] = omega int_laws
sum_by_category wo (x ∷ xs) =
    rw (← sum_by_category wo xs, ← one_category (targets wo x) x.category x.amount)
      (regroup _ _ _ _ _ _ _ _)

AgreesWith-total_cost :
    (c : WorkOrderCost) (wo : ℕ) (xs : List CostTransaction)
    → AgreesWith (some c) wo xs
    → total_cost c ≡ sum_of (targets wo) xs
AgreesWith-total_cost c wo xs (m, v, u, a, n) = rw (m, v, u, a) (sum_by_category wo xs)

-- Where the cache agreed with the journal before, the total cost that it shows of a work order after
-- any history of calls is the sum of all of the order's transactions.
run-total_cost :
    (wo : ℕ) (b : Books) (cs : List LedgerCall) (c : WorkOrderCost)
    → IsCached wo b
    → get wo (run b cs).costs ≡ some c
    → total_cost c ≡ sum_of (targets wo) (run b cs).transactions
run-total_cost wo b cs c h found =
    AgreesWith-total_cost c wo (run b cs).transactions
      (subst (λ row. AgreesWith row wo (run b cs).transactions) found (run-IsCached wo b cs h))
