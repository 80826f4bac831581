-- ===== src/Warehouse/Shortage.antt =====
-- inventory/services.py: the states of a shortage report (`VALID_SHORTAGE_TRANSITIONS`,
-- `transition_shortage_status`, `mark_shortage_fulfilled`).
use spare_part.Blockers.Sync.{is_in_fulfillment}
use spare_part.Blockers.Service.{resolve_blocker, same_reference, cancel_blocker}
use spare_part.Stock.Reservations.{same_wo}
use spare_part.Warehouse.Moves.{
  not_all_issued, no_approval, not_in_fulfillment, invalid_transition, does_not_exist,
  WarehouseError,
}
use spare_part.Base.{
  ◌||◌, ℕ, Bool, true, false, not, ◌&&◌, List, [], ◌∷◌, Option, none, some, ◌==◌, if◌then◌else◌,
  find_first, is_none,
}
use spare_part.Base.Int.{ltb_ℤ}
use spare_part.Base.Text.{Text}
use spare_part.Base.Rows.{get, save}
use spare_part.Base.Result.{Result, ok}
use spare_part.Base.Shut.{◌>>=◌, ◌>>◌, raise_if, or_raise}
use spare_part.Stock.Depot.{
  PartIssueLine, line_row, InventoryReservation, ReservationStatus, ReleaseReason, is_active,
}
use spare_part.Blockers.Tables.{
  is_closed_report, is_shortage, is_rejected_report, ShortageStatus, is_opened, WorkOrderBlocker,
  Board,
}
use spare_part.Blockers.Steps.{board_after}
use spare_part.Warehouse.Tables.{
  is_pending_status, Warehouse, PartShortageReport, PurchaseRequest, RequestStatus,
  shortage_report_row, shortage_decision_row,
}

-- `VALID_SHORTAGE_TRANSITIONS`
abbrev pub is_valid_transition : ShortageStatus → ShortageStatus → Bool
is_valid_transition ShortageStatus.pending_review ShortageStatus.approved = true
is_valid_transition ShortageStatus.pending_review ShortageStatus.rejected = true
is_valid_transition ShortageStatus.approved ShortageStatus.in_fulfillment = true
is_valid_transition ShortageStatus.approved ShortageStatus.blocked = true
is_valid_transition ShortageStatus.approved ShortageStatus.closed = true
is_valid_transition ShortageStatus.in_fulfillment ShortageStatus.fulfilled = true
is_valid_transition ShortageStatus.in_fulfillment ShortageStatus.blocked = true
is_valid_transition ShortageStatus.in_fulfillment ShortageStatus.closed = true
is_valid_transition ShortageStatus.fulfilled ShortageStatus.closed = true
is_valid_transition ShortageStatus.blocked ShortageStatus.in_fulfillment = true
is_valid_transition ShortageStatus.blocked ShortageStatus.closed = true
is_valid_transition _ _ = false

-- `source_line__related_shortage_report=report`, of the line with this key.
abbrev pub line_reports : ℕ → Option ℕ → List PartIssueLine → Bool
line_reports report none lines = false
line_reports report (some k) lines = elim (get k lines) [
  | none ↦ false
  | some l ↦ elim l.related_shortage_report [ none ↦ false | some j ↦ j == report ]
]

-- The reservations that closing a report cancels: those of its lines, and those of no line.
abbrev pub is_of_report : PartShortageReport → List PartIssueLine → InventoryReservation → Bool
is_of_report r lines x =
    x.part == r.part
    && same_wo (some r.work_order) x.work_order
    && is_active x.status
    && (is_none x.source_line || line_reports r.pk x.source_line lines)

abbrev pub cancelled_reservation :
    ReleaseReason → ReleaseReason → ℕ → InventoryReservation → InventoryReservation
cancelled_reservation linked legacy now x = record x {
  status = ReservationStatus.cancelled;
  released_at = some now;
  release_reason = if is_none x.source_line then legacy else linked;
}

-- The loop that cancels the reservations that pass a test.
unfoldable pub cancel_rows :
    (InventoryReservation → Bool)
    → ReleaseReason
    → ReleaseReason
    → ℕ
    → List InventoryReservation
    → List InventoryReservation
cancel_rows test linked legacy now [] = []
cancel_rows test linked legacy now (x ∷ xs) =
    (if test x then cancelled_reservation linked legacy now x else x)
    ∷ cancel_rows test linked legacy now xs

abbrev pub is_pending_request : ℕ → PurchaseRequest → Bool
is_pending_request report q =
    (elim q.source_shortage_report [ none ↦ false | some j ↦ j == report ])
    && is_pending_status q.status

unfoldable pub cancel_requests : ℕ → List PurchaseRequest → List PurchaseRequest
cancel_requests report [] = []
cancel_requests report (q ∷ qs) =
    (if is_pending_request report q then record q { status = RequestStatus.cancelled } else q)
    ∷ cancel_requests report qs

-- What closing a report does to its reservations and purchase requests.
unfoldable pub release_report : Warehouse → PartShortageReport → ℕ → Warehouse
release_report w r now = record w {
  reservations =
      cancel_rows (is_of_report r w.lines) (ReleaseReason.report_closed r.status)
        (ReleaseReason.legacy_report_closed r.status) now w.reservations;
  purchase_requests = cancel_requests r.pk w.purchase_requests;
}

-- The open shortage blocker of a report; the content type of a report is 2.
abbrev pub is_blocker_of : PartShortageReport → WorkOrderBlocker → Bool
is_blocker_of r b =
    b.work_order == r.work_order
    && is_shortage b.kind
    && same_reference (2, r.pk) b.external_ref
    && is_opened b.status

abbrev pub is_final : ShortageStatus → Bool
is_final ShortageStatus.fulfilled = true
is_final ShortageStatus.closed = true
is_final ShortageStatus.rejected = true
is_final _ = false

-- The blocker of a report that has reached a final state, best effort. `label` is the text written.
unfoldable pub settle_report_blocker :
    Board → PartShortageReport → ShortageStatus → ℕ → Text → ℕ → Board
settle_report_blocker b r status actor label now = elim (find_first (is_blocker_of r) b.blockers) [
  | none ↦ b
  | some x ↦
      if is_rejected_report status
      then board_after b (cancel_blocker b x.pk label (some actor) now)
      else board_after b (resolve_blocker b x.pk label (some actor) now)
]

-- `transition_shortage_status`
unfoldable pub transition_shortage_status :
    Warehouse → ℕ → ShortageStatus → ℕ → Text → ℕ → Result WarehouseError Warehouse
transition_shortage_status w report status actor label now = do
  r ← or_raise (get report w.shortage_reports) does_not_exist
  raise_if (not (is_valid_transition r.status status)) invalid_transition
  let moved : Warehouse = record w {
    shortage_reports = save (record r { status = status }) w.shortage_reports;
  }
  let released = if is_closed_report status then release_report moved r now else moved
  ok (record released {
    board =
        if is_final status then settle_report_blocker w.board r status actor label now else w.board;
  })

-- `mark_shortage_fulfilled`
unfoldable pub mark_shortage_fulfilled :
    Warehouse → ℕ → ℕ → Text → ℕ → Result WarehouseError Warehouse
mark_shortage_fulfilled w report actor label now = do
  r ← or_raise (get report w.shortage_reports) does_not_exist
  raise_if (not (is_in_fulfillment r.status)) not_in_fulfillment
  d ← or_raise (get report w.shortage_decisions) no_approval
  raise_if (not d.is_approve) no_approval
  raise_if (ltb_ℤ r.qty_issued d.approved_issue_qty) not_all_issued
  transition_shortage_status w report ShortageStatus.fulfilled actor label now
