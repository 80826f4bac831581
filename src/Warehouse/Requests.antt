-- ===== src/Warehouse/Requests.antt =====
-- inventory/services.py: the requests for parts on a work order, from `request_part_on_wo` to their
-- approval, rejection, cancellation and review.
use spare_part.Blockers.Status.{recompute_operational_status, get_order}
use spare_part.Blockers.Steps.{board_after}
use spare_part.Stock.Reservations.{is_stock_of, allocate_one}
use spare_part.Stock.Tables.{part_row, SparePart}
use spare_part.Warehouse.Direct.{
  is_active_line_for, is_closed_order, IssueOrder, fallback_cost, cost_line,
  deduct_and_record_issue,
}
use spare_part.Blockers.Service.{open_blocker, Opening}
use spare_part.Base.{
  insert_last, ℕ, Bool, true, false, not, ◌&&◌, [], none, some, ◌==◌, if◌then◌else◌, find_first,
  is_none,
}
use spare_part.Base.Int.{ℤ, pos, ◌-ℤ◌, leb_ℤ}
use spare_part.Base.Text.{codes, Text}
use spare_part.Base.Rows.{get, save, next_pk}
use spare_part.Base.Result.{Result, ok, err}
use spare_part.Base.Shut.{◌>>=◌, ◌>>◌, raise_if, or_raise}
use spare_part.Stock.Depot.{compute_quantity_reserved, PartIssueLine, line_row}
use spare_part.Blockers.Tables.{
  order_row, part_issue_line, is_pending_review, LineStatus, ShortageStatus, Kind,
}
use spare_part.Warehouse.Tables.{
  with_depot, depot, Warehouse, PartShortageReport, shortage_report_row,
}
use spare_part.Warehouse.Moves.{
  order_is_closed, duplicate_report, does_not_exist, quantity_not_positive, WarehouseError,
  Captions,
}

-- The free stock of the default site, which may be negative; none is there without a row.
abbrev pub on_hand_at : Warehouse → ℕ → ℤ
on_hand_at w part = elim w.default_site [
  | none ↦ pos 0
  | some s ↦ elim (find_first (is_stock_of part s) w.inventories) [
    | none ↦ pos 0
    | some inv ↦ inv.quantity_available
  ]
]

abbrev pub has_stock_row : Warehouse → ℕ → Bool
has_stock_row w part = elim w.default_site [
  | none ↦ false
  | some s ↦ not (is_none (find_first (is_stock_of part s) w.inventories))
]

abbrev pub reserved_at : Warehouse → ℕ → ℤ
reserved_at w part =
    if has_stock_row w part then compute_quantity_reserved part w.reservations else pos 0

abbrev pub usable_at : Warehouse → ℕ → ℤ
usable_at w part = on_hand_at w part -ℤ reserved_at w part

-- The line of a new request; the note for the manager is left out.
abbrev pub requested_line : Warehouse → ℕ → ℕ → ℤ → ℕ → PartIssueLine
requested_line w wo part quantity technician = record {
  pk = next_pk w.lines;
  work_order = wo;
  part = part;
  quantity = quantity;
  unit_cost = pos 0;
  status = LineStatus.pending;
  requested_qty = quantity;
  allocated_qty = pos 0;
  approved_qty = pos 0;
  issued_qty = pos 0;
  shortage_qty = if leb_ℤ quantity (usable_at w part) then pos 0 else quantity -ℤ usable_at w part;
  invoice_ref = [];
  supplier_name = [];
  requested_by = some technician;
  issued_by = some technician;
  approved_by = none;
  approved_at = none;
  rejection_reason = [];
  related_shortage_report = none;
  is_emergency_auto_approved = false;
  emergency_review = none;
}

abbrev pub shortage_report : Warehouse → PartIssueLine → Bool → ℕ → PartShortageReport
shortage_report w l is_emergency technician = record {
  pk = next_pk w.shortage_reports;
  status = ShortageStatus.pending_review;
  work_order = l.work_order;
  part = l.part;
  qty_requested = l.quantity;
  qty_issued = pos 0;
  available_qty_snapshot = on_hand_at w l.part;
  reserved_qty_snapshot = reserved_at w l.part;
  usable_qty_snapshot = usable_at w l.part;
  shortage_qty = l.shortage_qty;
  is_emergency = is_emergency;
  reported_by = technician;
}

-- Does the constraint refuse one more pending report of the order and the part?
abbrev pub is_pending_report : ℕ → ℕ → PartShortageReport → Bool
is_pending_report wo part r = r.work_order == wo && r.part == part && is_pending_review r.status

-- The new line, with a report of what is short: the tables and the line.
unfoldable pub add_request :
    Warehouse → PartIssueLine → Bool → ℕ → Result WarehouseError (Warehouse × PartIssueLine)
add_request w l is_emergency technician =
    let linked : PartIssueLine = record l {
      related_shortage_report = some (next_pk w.shortage_reports);
    } in
    if leb_ℤ l.shortage_qty (pos 0)
    then ok (record w { lines = insert_last l w.lines }, l)
    else if not (is_none (find_first (is_pending_report l.work_order l.part) w.shortage_reports))
    then err duplicate_report
    else ok (
      record w {
        lines = insert_last linked w.lines;
        shortage_reports =
            insert_last (shortage_report w l is_emergency technician) w.shortage_reports;
      },
      linked,
    )

-- The allocation of a line, which changes nothing if it raises, and then the status of its order.
unfoldable pub allocate_and_recompute : Warehouse → PartIssueLine → Warehouse
allocate_and_recompute w l = elim (allocate_one (depot w) l) [
  | err e ↦ w
  | ok r ↦ record (with_depot w r.0) {
    board = board_after w.board (recompute_operational_status w.board l.work_order);
  }
]

abbrev pub request_opening : ℕ → Text → Text → Opening
request_opening technician note label = record {
  opened_by = some technician;
  note = note;
  source_work_order = none;
  related_ero = none;
  pause_reason = [];
  external_label = label;
}

-- The blocker of a new request, its allocation and the status, in one `try` block: nothing that follows an
-- exception is done.
unfoldable pub block_for_request : Warehouse → PartIssueLine → ℕ → Text → Text → Warehouse
block_for_request w l technician note label =
    elim (open_blocker w.board l.work_order Kind.part (some (part_issue_line l.pk l.status))
      (request_opening technician note label)) [
        | err e ↦ w
        | ok r ↦ allocate_and_recompute (record w { board = r.0 }) l
      ]

-- `Decimal("10.00")`, where the part has no cost.
abbrev pub emergency_cost : SparePart → ℤ
emergency_cost p = if leb_ℤ (fallback_cost p) (pos 0) then pos 100000 else fallback_cost p

abbrev pub auto_approved : PartIssueLine → SparePart → ℕ → ℕ → PartIssueLine
auto_approved l p technician now = record l {
  status = LineStatus.approved;
  approved_qty = l.quantity;
  issued_qty = l.quantity;
  is_emergency_auto_approved = true;
  approved_by = some technician;
  approved_at = some now;
  unit_cost = emergency_cost p;
}

abbrev pub emergency_order : PartIssueLine → SparePart → ℕ → IssueOrder
emergency_order l p technician = record {
  wo = l.work_order;
  part = l.part;
  quantity = l.quantity;
  unit_cost = emergency_cost p;
  invoice_ref = codes "EMERGENCY_AUTO";
  supplier_name = codes "EMERGENCY_AUTO";
  issued_by = technician;
}

-- The emergency issue of the requested line: the line, a deduction with a line of its own, the cost of the
-- first line, and its last status. The requested line is active by then, so the constraint refuses the second.
unfoldable pub issue_emergency :
    Warehouse → PartIssueLine → ℕ → Captions → ℕ → Result WarehouseError Warehouse
issue_emergency w l technician t now = do
  p ← or_raise (get l.part w.parts) does_not_exist
  let approved = auto_approved l p technician now
  (out, _) ←
      deduct_and_record_issue (record w { lines = save approved w.lines })
        (emergency_order l p technician) w.default_site t.movement_note now
  posted ← cost_line out l.pk technician t.memo now
  ok (record posted { lines = save (record approved { status = LineStatus.issued }) posted.lines })

-- The branches on `wo.is_emergency`, and on the stock that was usable when the request came.
unfoldable pub settle_request :
    Warehouse
    → PartIssueLine
    → Bool
    → Bool
    → ℕ
    → Text
    → Captions
    → ℕ
    → Result WarehouseError Warehouse
settle_request w l is_emergency is_usable technician note t now =
    let flagged : PartIssueLine = record l { is_emergency_auto_approved = true } in
    if not is_emergency
    then ok (block_for_request w l technician note t.memo)
    else if is_usable
    then issue_emergency w l technician t now
    else ok (
        block_for_request (record w { lines = save flagged w.lines }) flagged technician note
          t.memo)

-- `request_part_on_wo`. A line that is still active is left as it is.
unfoldable pub request_part_on_wo :
    Warehouse → ℕ → ℕ → ℤ → ℕ → Text → Captions → ℕ → Result WarehouseError Warehouse
request_part_on_wo w wo part quantity technician note t now = do
  raise_if (leb_ℤ quantity (pos 0)) quantity_not_positive
  order ← or_raise (get wo w.board.orders) does_not_exist
  raise_if (is_closed_order order) order_is_closed
  _ ← or_raise (get_order wo w.board.orders) does_not_exist
  if not (is_none (find_first (is_active_line_for wo part) w.lines))
      then ok w
      else add_request w (requested_line w wo part quantity technician) order.is_emergency
          technician
        >>= λ r.
            settle_request r.0 r.1 order.is_emergency (leb_ℤ quantity (usable_at w part)) technician
              note t now
