-- ===== src/Ledger/Service.antt =====
-- maintenance/cost_ledger.py and `WorkOrderCost.recalculate_from_ledger` of maintenance/models.py.
-- Each call runs in a transaction; `now` is `timezone.now()`.
use spare_part.Base.{
  ℕ, suc, ◌*◌, ◌/◌, ◌%◌, Bool, true, false, not, ◌&&◌, ◌||◌, List, [], ◌∷◌, Option, none, some,
  ◌==◌, ltb, leb, if◌then◌else◌, insert_last, is_none, length, count_if,
}
use spare_part.Base.Int.{ℤ, pos, sub_ℕ, pos_part, neg_part, ◌+ℤ◌, ◌-ℤ◌, ◌*ℤ◌, eqb_ℤ, ltb_ℤ, leb_ℤ}
use spare_part.Base.Text.{Text, strip}
use spare_part.Base.Rows.{get, save, next_pk}
use spare_part.Base.Result.{Result, ok, err, ◌>>=◌, ◌>>◌, raise_if, or_raise}
use spare_part.Blockers.Tables.{LineStatus}
use spare_part.Stock.Tables.{SparePart, part_row, MovementType, StockMovement, stock_movement_row}
use spare_part.Stock.Depot.{PartIssueLine, line_row}
use spare_part.Ledger.Tables.{
  CostCategory, same_category, SourceType, same_source_type, CostTransaction, WorkOrderCost,
  CostAdjustment, ExternalRepairOrder, Books, transaction_row, cost_row, adjustment_row,
  repair_order_row,
}

-- `no_target` is the exception of `CostTransaction.save`, `invalid_adjustment` the one of
-- `CostAdjustment.full_clean`.
pub data LedgerError : Type 0 where
  does_not_exist no_target invalid_adjustment : LedgerError

-- `quantize(Decimal("0.01"))` of n / d hundredths: to the nearest, a tie to the even one.
abbrev pub round_half_even : ℕ → ℕ → ℕ
round_half_even n d =
    let q = n / d in
    let r = n % d in if ltb (2 * r) d || (2 * r == d && q % 2 == 0) then q else suc q

abbrev pub quantize : ℤ → ℕ → ℤ
quantize a d = sub_ℕ (round_half_even (pos_part a) d) (round_half_even (neg_part a) d)

-- A row of the source: `filter(source_type=..., source_id=...)`.
abbrev pub is_of : SourceType → ℕ → CostTransaction → Bool
is_of t k x = same_source_type t x.source_type && x.source_id == k

-- A sum of amounts over the rows that pass a test.
abbrev pub sum_of : (CostTransaction → Bool) → List CostTransaction → ℤ
sum_of test [] = pos 0
sum_of test (x ∷ xs) = (if test x then x.amount else pos 0) +ℤ sum_of test xs

-- `order_by("-occurred_at", "-pk").first()`
abbrev pub is_later : CostTransaction → CostTransaction → Bool
is_later x y = ltb y.occurred_at x.occurred_at || (x.occurred_at == y.occurred_at && ltb y.pk x.pk)

abbrev pub later : CostTransaction → Option CostTransaction → Option CostTransaction
later x none = some x
later x (some y) = if is_later x y then some x else some y

abbrev pub last_of : SourceType → ℕ → List CostTransaction → Option CostTransaction
last_of t k [] = none
last_of t k (x ∷ xs) = let rest = last_of t k xs in if is_of t k x then later x rest else rest

abbrev pub targets : ℕ → CostTransaction → Bool
targets wo x = elim x.work_order [ none ↦ false | some j ↦ j == wo ]

abbrev pub in_category : ℕ → CostCategory → CostTransaction → Bool
in_category wo c x = targets wo x && same_category c x.category

-- `a or b` of two amounts that may be missing: zero counts as missing.
abbrev pub or_else : Option ℤ → ℤ → ℤ
or_else none d = d
or_else (some a) d = if eqb_ℤ a (pos 0) then d else a

abbrev pub effective_unit_cost : List SparePart → PartIssueLine → ℤ
effective_unit_cost parts l =
    if ltb_ℤ (pos 0) l.unit_cost then l.unit_cost else elim (get l.part parts) [
      | none ↦ pos 0
      | some p ↦ or_else p.last_purchase_cost (or_else p.avg_cost (pos 0))
    ]

abbrev pub is_committed : LineStatus → Bool
is_committed LineStatus.approved = true
is_committed LineStatus.allocated = true
is_committed LineStatus.issued = true
is_committed _ = false

-- The sum of the committed lines of a work order, in units of 10⁻⁷.
abbrev pub committed_total : ℕ → List SparePart → List PartIssueLine → ℤ
committed_total wo parts [] = pos 0
committed_total wo parts (l ∷ ls) =
    (if l.work_order == wo && is_committed l.status
      then l.approved_qty *ℤ effective_unit_cost parts l
      else pos 0)
    +ℤ committed_total wo parts ls

-- `WorkOrderCost.recalculate_from_ledger`: the row that it writes.
unfoldable pub recalculated : Books → ℕ → WorkOrderCost
recalculated b wo = record {
  work_order = wo;
  material_cost = sum_of (in_category wo CostCategory.material) b.transactions;
  vendor_repair_cost = sum_of (in_category wo CostCategory.vendor_repair) b.transactions;
  consumables_cost = sum_of (in_category wo CostCategory.consumable) b.transactions;
  additional_cost = sum_of (in_category wo CostCategory.adjustment) b.transactions;
  committed_material_cost = quantize (committed_total wo b.parts b.lines) 100000;
  ledger_transaction_count = count_if (targets wo) b.transactions;
}

-- `_refresh_wo_cache`: every column of a row that is created here is written again at once.
unfoldable pub refresh_wo_cache : Books → ℕ → Books
refresh_wo_cache b wo = elim (get wo b.costs) [
  | none ↦ record b { costs = insert_last (recalculated b wo) b.costs }
  | some c ↦ record b { costs = save (recalculated b wo) b.costs }
]

-- What a caller hands to `_post`.
pub record Posting : Type 0 where
  pub amount : ℤ
  pub category : CostCategory
  pub quantity : Option ℤ
  pub unit_cost : Option ℤ
  pub work_order : Option ℕ
  pub source_type : SourceType
  pub source_id : ℕ
  pub adjustment : Option ℕ
  pub actor : Option ℕ
  pub memo : Text

abbrev pub asset_of : (ℕ → Option ℕ) → Option ℕ → Option ℕ
asset_of f none = none
asset_of f (some wo) = f wo

abbrev pub new_transaction : Books → Posting → ℤ → ℕ → CostTransaction
new_transaction b p delta now = record {
  pk = next_pk b.transactions;
  amount = delta;
  category = p.category;
  quantity = p.quantity;
  unit_cost = p.unit_cost;
  work_order = p.work_order;
  machine = asset_of b.machine_of p.work_order;
  component = asset_of b.component_of p.work_order;
  source_type = p.source_type;
  source_id = p.source_id;
  adjustment = p.adjustment;
  actor = p.actor;
  occurred_at = now;
  memo = p.memo;
}

abbrev pub refresh_if : Option ℕ → Books → Books
refresh_if none b = b
refresh_if (some wo) b = refresh_wo_cache b wo

-- `CostTransaction.objects.create(...)` and the refresh of the cache. A posting without a work order
-- has no machine and no component either, and is refused.
unfoldable pub post_delta :
    Books → Posting → ℤ → ℕ → Result LedgerError (Books × Option CostTransaction)
post_delta b p delta now =
    let x = new_transaction b p delta now in
    if is_none p.work_order
    then err no_target
    else ok
        (refresh_if p.work_order (record b { transactions = insert_last x b.transactions }), some x)

-- `_post`
unfoldable pub post : Books → Posting → ℕ → Result LedgerError (Books × Option CostTransaction)
post b p now =
    let current_net = sum_of (is_of p.source_type p.source_id) b.transactions in
    if eqb_ℤ current_net p.amount
    then ok (b, last_of p.source_type p.source_id b.transactions)
    else post_delta b p (p.amount -ℤ current_net) now

abbrev pub is_posted_status : LineStatus → Bool
is_posted_status LineStatus.approved = true
is_posted_status LineStatus.issued = true
is_posted_status _ = false

abbrev pub material_posting : PartIssueLine → ℕ → Text → Posting
material_posting l actor memo = record {
  amount = quantize (l.issued_qty *ℤ l.unit_cost) 100000;
  category = CostCategory.material;
  quantity = some l.issued_qty;
  unit_cost = some l.unit_cost;
  work_order = some l.work_order;
  source_type = SourceType.part_issue_line;
  source_id = l.pk;
  adjustment = none;
  actor = some actor;
  memo = memo;
}

-- `post_material`
unfoldable pub post_material :
    Books → ℕ → ℕ → Text → ℕ → Result LedgerError (Books × Option CostTransaction)
post_material b line actor memo now = do
  l ← or_raise (get line b.lines) does_not_exist
  if not (is_posted_status l.status) || leb_ℤ l.issued_qty (pos 0)
      then ok (b, none)
      else post b (material_posting l actor memo) now

abbrev pub repair_posting : ExternalRepairOrder → ℤ → ℕ → Text → Posting
repair_posting o cost actor memo = record {
  amount = cost;
  category = CostCategory.vendor_repair;
  quantity = none;
  unit_cost = none;
  work_order = o.work_order;
  source_type = SourceType.external_repair_order;
  source_id = o.pk;
  adjustment = none;
  actor = some actor;
  memo = memo;
}

-- `post_vendor_repair`; the cost of an order has two places already.
unfoldable pub post_vendor_repair :
    Books → ℕ → ℕ → Text → ℕ → Result LedgerError (Books × Option CostTransaction)
post_vendor_repair b order actor memo now = do
  o ← or_raise (get order b.repair_orders) does_not_exist
  let cost = or_else o.actual_cost (pos 0)
  if not o.is_closed || eqb_ℤ cost (pos 0)
      then ok (b, none)
      else post b (repair_posting o cost actor memo) now

abbrev pub is_consumable_use : MovementType → Bool
is_consumable_use MovementType.consumable_use = true
is_consumable_use _ = false

abbrev pub consumable_posting : StockMovement → ℕ → Text → Posting
consumable_posting m actor memo = record {
  amount = quantize (m.quantity *ℤ or_else m.unit_cost (pos 0)) 100000;
  category = CostCategory.consumable;
  quantity = some m.quantity;
  unit_cost = some (or_else m.unit_cost (pos 0));
  work_order = m.work_order;
  source_type = SourceType.stock_movement;
  source_id = m.pk;
  adjustment = none;
  actor = some actor;
  memo = memo;
}

-- `post_consumable`
unfoldable pub post_consumable :
    Books → ℕ → ℕ → Text → ℕ → Result LedgerError (Books × Option CostTransaction)
post_consumable b movement actor memo now = do
  m ← or_raise (get movement b.stock_movements) does_not_exist
  if not (is_consumable_use m.movement_type)
      then ok (b, none)
      else post b (consumable_posting m actor memo) now

-- Ten characters on one line, as the constraint's `.{10}` asks; a line ends at 10.
abbrev pub has_run : ℕ → ℕ → Text → Bool
has_run n seen [] = leb n seen
has_run n seen (c ∷ s) = leb n seen || has_run n (if c == 10 then 0 else suc seen) s

-- `CostAdjustment.full_clean`
abbrev pub is_valid_adjustment : ℤ → Text → Bool
is_valid_adjustment amount memo =
    not (eqb_ℤ amount (pos 0))
    && leb 10 (length (strip memo))
    && leb (length memo) 300
    && has_run 10 0 memo

abbrev pub adjustment_posting : ℕ → ℕ → ℤ → ℕ → Text → Posting
adjustment_posting k wo amount actor memo = record {
  amount = amount;
  category = CostCategory.adjustment;
  quantity = none;
  unit_cost = none;
  work_order = some wo;
  source_type = SourceType.cost_adjustment;
  source_id = k;
  adjustment = some k;
  actor = some actor;
  memo = memo;
}

-- `post_adjustment`, of an amount in ten-thousandths.
unfoldable pub post_adjustment :
    Books → ℕ → ℤ → Text → ℕ → ℕ → Result LedgerError (Books × Option CostTransaction)
post_adjustment b wo given memo actor now = do
  let amount = quantize given 100
  raise_if (not (is_valid_adjustment amount memo)) invalid_adjustment
  let adj : CostAdjustment = record {
    pk = next_pk b.adjustments;
    work_order = wo;
    amount = amount;
    memo = memo;
    created_by = actor;
  }
  post (record b { adjustments = insert_last adj b.adjustments })
      (adjustment_posting adj.pk wo amount actor memo) now
