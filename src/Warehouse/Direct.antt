-- ===== src/Warehouse/Direct.antt =====
-- inventory/services.py: `_deduct_and_record_issue` and `issue_part_to_work_order`, the issue that no
-- request precedes.
use spare_part.Blockers.Status.{recompute_operational_status}
use spare_part.Blockers.Sync.{sync_from_external_event, part_issued, SyncEvent, SyncPayload}
use spare_part.Base.{
  ℕ, Bool, false, not, ◌&&◌, [], Option, none, some, ◌==◌, if◌then◌else◌, insert_last, find_first,
  is_none,
}
use spare_part.Base.Int.{min_ℤ, ℤ, pos, ◌-ℤ◌, leb_ℤ}
use spare_part.Base.Text.{Text}
use spare_part.Base.Rows.{get, next_pk}
use spare_part.Base.Result.{Result, ok, err}
use spare_part.Base.Shut.{◌>>=◌, ◌>>◌, raise_if, or_raise}
use spare_part.Stock.Tables.{
  SparePart, part_row, Inventory, inventory_row, MovementType, StockMovement, stock_movement_row,
}
use spare_part.Stock.Depot.{PartIssueLine, line_row, compute_quantity_reserved}
use spare_part.Stock.Reservations.{not_positive, is_stock_of, is_open_line}
use spare_part.Ledger.Service.{does_not_exist, or_else, post_material}
use spare_part.Blockers.Tables.{
  is_closed_stage, is_closed_stage, is_part, LineStatus, is_opened, External, part_issue_line,
  WorkOrder, WorkOrderBlocker, Board, order_row,
}
use spare_part.Blockers.Steps.{board_after}
use spare_part.Warehouse.Tables.{Warehouse, books, with_books}
use spare_part.Warehouse.Moves.{
  duplicate_line, out_of_stock, already_issued, order_closed, not_positive, no_default_site,
  does_not_exist, Captions, WarehouseError, refused, of_ledger, site_or_default, move_stock,
}

-- `sync_from_external_event` and then `recompute_operational_status`, in a `try` block that passes over
-- every exception; the second is not called if the first raises.
unfoldable pub fire_event : Board → External → SyncEvent → ℕ → SyncPayload → ℕ → ℕ → Board
fire_event b x event actor payload wo now =
    elim (sync_from_external_event b (some x) event (some actor) payload now) [
      | ok r ↦ board_after r.0 (recompute_operational_status r.0 wo)
      | err e ↦ b
    ]

abbrev pub plain_payload : SyncPayload
plain_payload = record { note = none; reason = none }

abbrev pub fallback_cost : SparePart → ℤ
fallback_cost p = or_else p.last_purchase_cost (or_else p.avg_cost (pos 0))

abbrev pub is_line_for : ℕ → ℕ → PartIssueLine → Bool
is_line_for wo part l = l.work_order == wo && l.part == part

-- `status__in=ACTIVE_REQUEST_STATUSES`, and the condition of the constraint `unique_active_pil_per_wo_part`.
abbrev pub is_active_line_for : ℕ → ℕ → PartIssueLine → Bool
is_active_line_for wo part l = is_line_for wo part l && is_open_line l.status

-- What the two issues out of stock are handed.
pub record IssueOrder : Type 0 where
  pub wo : ℕ
  pub part : ℕ
  pub quantity : ℤ
  pub unit_cost : ℤ
  pub invoice_ref : Text
  pub supplier_name : Text
  pub issued_by : ℕ

-- The line that an issue without a request creates.
abbrev pub issued_line : Warehouse → SparePart → IssueOrder → PartIssueLine
issued_line w p o = record {
  pk = next_pk w.lines;
  work_order = o.wo;
  part = o.part;
  quantity = o.quantity;
  unit_cost = if leb_ℤ o.unit_cost (pos 0) then fallback_cost p else o.unit_cost;
  status = LineStatus.approved;
  requested_qty = o.quantity;
  allocated_qty = pos 0;
  approved_qty = o.quantity;
  issued_qty = o.quantity;
  shortage_qty = pos 0;
  invoice_ref = o.invoice_ref;
  supplier_name = o.supplier_name;
  requested_by = none;
  issued_by = some o.issued_by;
  approved_by = none;
  approved_at = none;
  rejection_reason = [];
  related_shortage_report = none;
  is_emergency_auto_approved = false;
  emergency_review = none;
}

-- The movement of an issue to a work order out of the row `inv`.
abbrev pub issue_movement :
    Warehouse → Inventory → ℤ → ℕ → ℕ → Text → ℤ → Text → Text → ℕ → StockMovement
issue_movement w inv quantity wo by supplier_name unit_cost invoice_ref note now = record {
  pk = next_pk w.stock_movements;
  part = inv.part;
  movement_type = MovementType.issue_to_wo;
  quantity = quantity;
  quantity_before = some inv.quantity_available;
  quantity_after = some (inv.quantity_available -ℤ quantity);
  work_order = some wo;
  site = some inv.site;
  performed_by = by;
  supplier = none;
  supplier_name = supplier_name;
  unit_cost = some unit_cost;
  invoice_ref = invoice_ref;
  note = note;
  created_at = now;
}

-- `_deduct_and_record_issue`, once the row `inv` and the part are read and the constraint lets the line in.
unfoldable pub record_issue : Warehouse → SparePart → Inventory → IssueOrder → Text → ℕ → Warehouse
record_issue w p inv o note now =
    move_stock (record w { lines = insert_last (issued_line w p o) w.lines }) w.inventories inv
      (inv.quantity_available -ℤ o.quantity)
      (issue_movement w inv o.quantity o.wo o.issued_by o.supplier_name o.unit_cost o.invoice_ref
        note now)

-- `_deduct_and_record_issue`: the tables and the key of the line, which is the second active one of its order and
-- part if there is one before.
unfoldable pub deduct_and_record_issue :
    Warehouse → IssueOrder → Option ℕ → Text → ℕ → Result WarehouseError (Warehouse × ℕ)
deduct_and_record_issue w o site note now = do
  p ← or_raise (get o.part w.parts) does_not_exist
  s ← or_raise (site_or_default w site) does_not_exist
  inv ← or_raise (find_first (is_stock_of o.part s) w.inventories) does_not_exist
  raise_if (not (is_none (find_first (is_active_line_for o.wo o.part) w.lines))) duplicate_line
  ok (record_issue w p inv o note now, next_pk w.lines)

-- `post_material` of a line, which rolls the whole call back if it raises.
unfoldable pub cost_line : Warehouse → ℕ → ℕ → Text → ℕ → Result WarehouseError Warehouse
cost_line w line actor memo now = do
  (b, _) ← of_ledger (post_material (books w) line actor memo now)
  ok (with_books w b)

abbrev pub is_part_blocker : ℕ → WorkOrderBlocker → Bool
is_part_blocker wo b = b.work_order == wo && is_part b.kind && is_opened b.status

-- The event of a direct issue, which is fired only if the order has an open blocker for a part.
abbrev pub fire_if_blocked : Board → ℕ → ℕ → ℕ → ℕ → Board
fire_if_blocked b line wo actor now =
    if is_none (find_first (is_part_blocker wo) b.blockers)
    then b
    else fire_event b (part_issue_line line LineStatus.approved) part_issued actor plain_payload wo
        now

abbrev pub is_closed_order : WorkOrder → Bool
is_closed_order o = is_closed_stage o.lifecycle_status

-- `issue_part_to_work_order`. Both its branches issue, the one everything and the other what is free.
unfoldable pub issue_part_to_work_order :
    Warehouse → IssueOrder → Option ℕ → Captions → ℕ → Result WarehouseError Warehouse
issue_part_to_work_order w o site t now = do
  s ← or_raise (site_or_default w site) (refused no_default_site)
  raise_if (leb_ℤ o.quantity (pos 0)) (refused not_positive)
  order ← or_raise (get o.wo w.board.orders) does_not_exist
  raise_if (is_closed_order order) (refused order_closed)
  raise_if (not (is_none (find_first (is_line_for o.wo o.part) w.lines))) (refused already_issued)
  inv ← or_raise (find_first (is_stock_of o.part s) w.inventories) does_not_exist
  let available = inv.quantity_available -ℤ compute_quantity_reserved o.part w.reservations
  raise_if (leb_ℤ (min_ℤ o.quantity available) (pos 0)) (refused out_of_stock)
  (issued, line) ←
      deduct_and_record_issue w (record o { quantity = min_ℤ o.quantity available }) (some s)
        t.movement_note now
  posted ← cost_line issued line o.issued_by t.memo now
  ok (record posted { board = fire_if_blocked posted.board line o.wo o.issued_by now })
