-- ===== src/Warehouse/Approval.antt =====
-- inventory/services.py: what a manager does to a request: `approve_part_request`,
-- `reject_part_request`, `cancel_approved_part_request`, `edit_part_request_qty` and
-- `emergency_review_part_line`. A decision that is none of the three texts is none.
use spare_part.Warehouse.Requests.{allocate_and_recompute}
use spare_part.Ledger.Service.{refresh_wo_cache}
use spare_part.Warehouse.Shortage.{cancel_rows}
use spare_part.Stock.Reservations.{no_site, same_line, same_wo}
use spare_part.Warehouse.Direct.{is_part_blocker, fire_event}
use spare_part.Blockers.Sync.{part_rejected, SyncPayload}
use spare_part.Blockers.Service.{record_event}
use spare_part.Base.{
  List, ℕ, Bool, true, false, not, ◌&&◌, ◌||◌, Option, none, some, ◌==◌, if◌then◌else◌, find_first,
  is_none, length, ltb, take,
}
use spare_part.Base.Int.{ℤ, pos, ◌-ℤ◌, ltb_ℤ, leb_ℤ, max_ℤ}
use spare_part.Base.Text.{is_empty, Text, strip}
use spare_part.Base.Rows.{get, save}
use spare_part.Base.Result.{Result, ok}
use spare_part.Base.Shut.{◌>>=◌, ◌>>◌, raise_if, or_raise}
use spare_part.Stock.Depot.{
  PartIssueLine, line_row, InventoryReservation, ReleaseReason, is_active, ReviewDecision,
}
use spare_part.Blockers.Tables.{
  is_cancelled_blocker, is_part, LineStatus, Board, EventType, WorkOrderBlocker, approved_line,
  reviewed_line, part_issue_line,
}
use spare_part.Warehouse.Tables.{books, with_books, Warehouse}
use spare_part.Warehouse.Moves.{
  note_too_short, no_site, quantity_not_positive, not_emergency, invalid_decision, does_not_exist,
  WarehouseError, not_pending, reason_required, reason_too_short, not_cancellable, issued_already,
}

abbrev pub is_pending_line : LineStatus → Bool
is_pending_line LineStatus.pending = true
is_pending_line _ = false

abbrev pub is_approved_line : LineStatus → Bool
is_approved_line LineStatus.approved = true
is_approved_line _ = false

abbrev pub is_reserved_line : LineStatus → Bool
is_reserved_line LineStatus.approved = true
is_reserved_line LineStatus.allocated = true
is_reserved_line _ = false

abbrev pub approved_qty_of : PartIssueLine → Bool → ℤ
approved_qty_of l is_emergency_auto = if is_emergency_auto then l.requested_qty else l.quantity

abbrev pub approved_by_manager : PartIssueLine → ℕ → Bool → ℕ → PartIssueLine
approved_by_manager l manager is_emergency_auto now = record l {
  status = LineStatus.approved;
  approved_qty = approved_qty_of l is_emergency_auto;
  shortage_qty = max_ℤ (pos 0) (l.requested_qty -ℤ approved_qty_of l is_emergency_auto);
  approved_by = some manager;
  approved_at = some now;
  is_emergency_auto_approved = if is_emergency_auto then true else l.is_emergency_auto_approved;
}

-- What an approval of the object `m` writes, its `update_fields`, onto the row.
abbrev pub approval_saved : PartIssueLine → PartIssueLine → PartIssueLine
approval_saved row m = record row {
  status = m.status;
  approved_qty = m.approved_qty;
  shortage_qty = m.shortage_qty;
  approved_by = m.approved_by;
  approved_at = m.approved_at;
  is_emergency_auto_approved = m.is_emergency_auto_approved;
}

-- The allocation writes the quantity and the status of the object onto the row, and no other field.
abbrev pub allocation_saved :
    PartIssueLine → Option PartIssueLine → List PartIssueLine → List PartIssueLine
allocation_saved row none lines = lines
allocation_saved row (some x) lines =
    save (record row { allocated_qty = x.allocated_qty; status = x.status }) lines

abbrev pub allocated_object : Warehouse → PartIssueLine → PartIssueLine → Warehouse
allocated_object w row m =
    let v = allocate_and_recompute w m in
    record v { lines = allocation_saved row (get row.pk v.lines) v.lines }

-- The row that the lock of an approval reads; an approved object is returned before it.
abbrev pub locked_row : Warehouse → PartIssueLine → Option PartIssueLine
locked_row w l = if is_approved_line l.status then some l else get l.pk w.lines

-- The event of an approval, on the first open blocker of the order for a part.
abbrev pub note_approval : Board → PartIssueLine → ℕ → Board
note_approval b l manager = elim (find_first (is_part_blocker l.work_order) b.blockers) [
  | none ↦ b
  | some x ↦
      record_event b x.pk EventType.part_approved (some manager) (approved_line l.pk l.approved_qty)
]

-- `_refresh_wo_cache`
abbrev pub refresh_cost : Warehouse → ℕ → Warehouse
refresh_cost w wo = with_books w (refresh_wo_cache (books w) wo)

-- `approve_part_request` of the object `l` that the caller read: the stock is reserved and not deducted. The tests
-- are of the object, and of the locked row only its being there counts.
unfoldable pub approve_part_request :
    Warehouse → PartIssueLine → ℕ → Bool → ℕ → Result WarehouseError Warehouse
approve_part_request w l manager is_emergency_auto now = do
  raise_if (not (is_approved_line l.status) && not (is_pending_line l.status)) not_pending
  raise_if (not (is_approved_line l.status) && leb_ℤ l.quantity (pos 0)) quantity_not_positive
  row ← or_raise (locked_row w l) does_not_exist
  raise_if (not (is_approved_line l.status) && is_none w.default_site) no_site
  let m = approved_by_manager l manager is_emergency_auto now
  let saved : Warehouse = record w {
    lines = save (approval_saved row m) w.lines;
    board = note_approval w.board m manager;
  }
  if is_approved_line l.status
      then ok w
      else ok (refresh_cost (allocated_object saved (approval_saved row m) m) l.work_order)

abbrev pub rejected_payload : Text → SyncPayload
rejected_payload reason = record { note = none; reason = some reason }

-- The event of a rejection, which cancels the blocker of the line.
abbrev pub fire_rejection : Board → PartIssueLine → ℕ → Text → ℕ → Board
fire_rejection b l manager reason now =
    fire_event b (part_issue_line l.pk LineStatus.rejected) part_rejected manager
      (rejected_payload reason) l.work_order now

-- `reject_part_request` of the caller's object. The write of some fields of a row that is gone raises.
unfoldable pub reject_part_request :
    Warehouse → PartIssueLine → ℕ → Text → ℕ → Result WarehouseError Warehouse
reject_part_request w l manager reason now = do
  raise_if (not (is_pending_line l.status)) not_pending
  raise_if (is_empty (strip reason)) reason_required
  row ← or_raise (get l.pk w.lines) does_not_exist
  ok (record w {
    lines =
        save
          (record row {
            status = LineStatus.rejected;
            rejection_reason = take 1000 (strip reason);
            approved_by = some manager;
          })
          w.lines;
    board = fire_rejection w.board l manager reason now;
  })

-- The reservations that a cancellation releases: those of the line, and those of no line.
abbrev pub is_held_for : PartIssueLine → InventoryReservation → Bool
is_held_for l r =
    r.part == l.part
    && same_wo (some l.work_order) r.work_order
    && is_active r.status
    && (is_none r.source_line || same_line l.pk r.source_line)

abbrev pub cancelled_line : PartIssueLine → Text → PartIssueLine
cancelled_line row reason = record row {
  status = LineStatus.rejected;
  rejection_reason = take 1000 (strip reason);
  approved_qty = pos 0;
  issued_qty = pos 0;
}

-- `cancel_approved_part_request` of the caller's object
unfoldable pub cancel_approved_part_request :
    Warehouse → PartIssueLine → ℕ → Text → ℕ → Result WarehouseError Warehouse
cancel_approved_part_request w l manager reason now = do
  raise_if (not (is_reserved_line l.status)) not_cancellable
  raise_if (ltb_ℤ (pos 0) l.issued_qty) issued_already
  raise_if (ltb (length (strip reason)) 15) reason_too_short
  row ← or_raise (get l.pk w.lines) does_not_exist
  let cut = take 200 (strip reason)
  ok (
      refresh_cost
        (record w {
          reservations =
              cancel_rows (is_held_for l) (ReleaseReason.line_cancelled cut)
                (ReleaseReason.legacy_line_cancelled cut) now w.reservations;
          lines = save (cancelled_line row reason) w.lines;
          board = fire_rejection w.board l manager (strip reason) now;
        })
        l.work_order)

-- `edit_part_request_qty` of the caller's object
unfoldable pub edit_part_request_qty :
    Warehouse → PartIssueLine → ℤ → Result WarehouseError Warehouse
edit_part_request_qty w l new_quantity = do
  raise_if (not (is_pending_line l.status)) not_pending
  raise_if (leb_ℤ new_quantity (pos 0)) quantity_not_positive
  row ← or_raise (get l.pk w.lines) does_not_exist
  ok (record w {
    lines =
        save
          (record row {
            quantity = new_quantity;
            shortage_qty = max_ℤ (pos 0) (l.requested_qty -ℤ new_quantity);
          })
          w.lines;
  })

abbrev pub is_approve : ReviewDecision → Bool
is_approve ReviewDecision.approved = true
is_approve _ = false

abbrev pub review_event : ReviewDecision → EventType
review_event ReviewDecision.approved = EventType.emergency_review_approved
review_event ReviewDecision.exception = EventType.emergency_review_exception
review_event ReviewDecision.investigate = EventType.emergency_review_investigate

-- A blocker for a part of the order that is open or resolved.
abbrev pub is_reviewed_blocker : ℕ → WorkOrderBlocker → Bool
is_reviewed_blocker wo b =
    b.work_order == wo && is_part b.kind && not (is_cancelled_blocker b.status)

-- The event of a review.
abbrev pub note_review : Board → PartIssueLine → ReviewDecision → ℕ → Text → Board
note_review b l decision manager note =
    elim (find_first (is_reviewed_blocker l.work_order) b.blockers) [
      | none ↦ b
      | some x ↦
          record_event b x.pk (review_event decision) (some manager)
            (reviewed_line l.pk (take 200 note))
    ]

-- `emergency_review_part_line` of the caller's object
unfoldable pub emergency_review_part_line :
    Warehouse
    → PartIssueLine
    → ℕ
    → Option ReviewDecision
    → Text
    → ℕ
    → Result WarehouseError Warehouse
emergency_review_part_line w l manager given note now = do
  decision ← or_raise given invalid_decision
  raise_if (not l.is_emergency_auto_approved) not_emergency
  raise_if
      (not (is_empty (strip note)) && not (is_approve decision) && ltb (length (strip note)) 10)
      note_too_short
  row ← or_raise (get l.pk w.lines) does_not_exist
  ok (record w {
    lines =
        save
          (record row {
            emergency_review = some (record {
              decision = decision;
              reviewed_by = manager;
              reviewed_at = now;
              review_note = take 1000 (strip note);
            });
          })
          w.lines;
    board = note_review w.board l decision manager note;
  })
