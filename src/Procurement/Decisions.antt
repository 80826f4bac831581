-- ===== src/Procurement/Decisions.antt =====
-- inventory/services.py: the decisions on shortages, `create_shortage_decision` and `edit_shortage_decision`. The
-- label of a new request is an argument.
use spare_part.Blockers.Sync.{part_rejected}
use spare_part.Blockers.Status.{recompute_operational_status}
use spare_part.Blockers.Steps.{board_after}
use spare_part.Warehouse.Approval.{refresh_cost, is_pending_line, rejected_payload, note_approval}
use spare_part.Procurement.Requests.{auto_create_pr_for_shortage, is_request_for}
use spare_part.Warehouse.Direct.{fire_event, is_part_blocker}
use spare_part.Base.Rows.{get, save}
use spare_part.Base.Result.{err, ok, Result}
use spare_part.Base.Text.{codes, is_empty, Text}
use spare_part.Base.Int.{◌-ℤ◌, ltb_ℤ, pos, ◌+ℤ◌, eqb_ℤ, ℤ}
use spare_part.Blockers.Tables.{
  part_issue_line, is_pending_review, WorkOrderBlocker, LineStatus, Board, ShortageStatus,
}
use spare_part.Base.{
  Option, ◌==◌, none, insert_last, is_none, ◌||◌, ◌&&◌, reverse, some, not, find_first,
  if◌then◌else◌, List, ℕ, Bool, true, false,
}
use spare_part.Base.Shut.{◌>>=◌, ◌>>◌, raise_if, or_raise}
use spare_part.Stock.Depot.{PartIssueLine, line_row}
use spare_part.Stock.Reservations.{allocate_one, release_reservation, StockError}
use spare_part.Warehouse.Tables.{
  with_depot, depot, PurchaseRequest, PartShortageReport, Warehouse, PartShortageDecision,
  shortage_report_row, shortage_decision_row,
}
use spare_part.Procurement.Tables.{purchase_request_row}
use spare_part.Procurement.Receipt.{
  OfficeError, does_not_exist, not_under_review, decided_already, invalid, decision_locked, refused,
}

-- The quantities of a decision.
pub record Split : Type 0 where
  pub approved_issue_qty : ℤ
  pub approved_procurement_qty : ℤ
  pub rejected_qty : ℤ

abbrev pub decision_of : ℕ → Bool → Split → PartShortageDecision
decision_of report is_approve q = record {
  report = report;
  is_approve = is_approve;
  approved_issue_qty = q.approved_issue_qty;
  approved_procurement_qty = q.approved_procurement_qty;
  rejected_qty = q.rejected_qty;
}

abbrev pub commits_nothing : PartShortageDecision → Bool
commits_nothing d = eqb_ℤ d.approved_issue_qty (pos 0) && eqb_ℤ d.approved_procurement_qty (pos 0)

-- The sum of the three quantities.
abbrev pub decided_total : PartShortageDecision → ℤ
decided_total d = d.approved_issue_qty +ℤ d.approved_procurement_qty +ℤ d.rejected_qty

-- `PartShortageDecision.clean`
abbrev pub is_valid_decision : PartShortageReport → PartShortageDecision → Bool
is_valid_decision r d =
    not (
      ltb_ℤ d.approved_issue_qty (pos 0)
      || ltb_ℤ d.approved_procurement_qty (pos 0)
      || ltb_ℤ d.rejected_qty (pos 0))
    && eqb_ℤ (decided_total d) r.qty_requested
    && (if d.is_approve then not (commits_nothing d) else commits_nothing d)

-- `report.issue_lines`
abbrev pub is_line_of : ℕ → PartIssueLine → Bool
is_line_of report l = elim l.related_shortage_report [ none ↦ false | some j ↦ j == report ]

-- `report.issue_lines.first()`, in the order `-created_at` of the lines: the newest line of the report.
abbrev pub newest_line : Warehouse → ℕ → Option PartIssueLine
newest_line w report = find_first (is_line_of report) (reverse w.lines)

-- An open part blocker of the order whose object has the key of the report, of whatever type it is.
abbrev pub is_blocker_under : PartShortageReport → WorkOrderBlocker → Bool
is_blocker_under r b =
    is_part_blocker r.work_order b && (elim b.external_ref [ none ↦ false | some x ↦ x.1 == r.pk ])

abbrev pub rejection_text : Text → Text
rejection_text reason = if is_empty reason then codes "shortage rejected" else reason

-- What the rejection of a shortage does to the blockers, best effort. A blocker of a report without a line is not
-- cancelled: the call of `cancel_blocker` has keywords that it does not take, its `TypeError` is passed over, and
-- the status is not computed.
unfoldable pub clear_blockers : Warehouse → PartShortageReport → ℕ → Text → ℕ → Board
clear_blockers w r actor reason now = elim (newest_line w r.pk) [
  | some l ↦
      fire_event w.board (part_issue_line l.pk l.status) part_rejected actor
        (rejected_payload (rejection_text reason)) r.work_order now
  | none ↦ elim (find_first (is_blocker_under r) w.board.blockers) [
    | none ↦ board_after w.board (recompute_operational_status w.board r.work_order)
    | some x ↦ w.board
  ]
]

abbrev pub of_stock {ℓ} : {A : Type ℓ} → Result StockError A → Result OfficeError A
of_stock (ok a) = ok a
of_stock (err e) = err (refused e)

-- The line gets the quantity and what is free of it.
unfoldable pub commit_line : Warehouse → PartIssueLine → ℤ → Result OfficeError Warehouse
commit_line w l qty =
    let m : PartIssueLine = record l { approved_qty = qty } in
    let saved : Warehouse = record w { lines = save m w.lines } in
    of_stock (allocate_one (depot saved) m) >>= λ r. ok (with_depot saved r.0)

-- The newest line of the report, if there is one and the test passes.
unfoldable pub commit_related : Warehouse → ℕ → Bool → ℤ → Result OfficeError Warehouse
commit_related w report is_due qty = elim (newest_line w report) [
  | none ↦ ok w
  | some l ↦ if is_due then commit_line w l qty else ok w
]

-- The line of an approved shortage, if the allocation has left it pending.
unfoldable pub approve_linked : Warehouse → PartIssueLine → PartShortageDecision → ℕ → ℕ → Warehouse
approve_linked w l d actor now =
    let m : PartIssueLine = record l {
      status = LineStatus.approved;
      approved_qty = d.approved_issue_qty;
      shortage_qty = d.approved_procurement_qty;
      approved_by = some actor;
      approved_at = some now;
    } in
    let noted = note_approval w.board m actor in
    let saved : Warehouse = record w {
      lines = save m w.lines;
      board = board_after noted (recompute_operational_status noted l.work_order);
    } in
    if is_pending_line l.status then refresh_cost saved l.work_order else w

unfoldable pub approve_related : Warehouse → PartShortageDecision → ℕ → ℕ → Warehouse
approve_related w d actor now = elim (newest_line w d.report) [
  | none ↦ w
  | some l ↦ approve_linked w l d actor now
]

abbrev pub reviewed_report : PartShortageReport → Bool → PartShortageReport
reviewed_report r is_approve = record r {
  status = if is_approve then ShortageStatus.approved else ShortageStatus.rejected;
}

-- What the caller hands over with a decision.
pub record Review : Type 0 where
  pub is_approve : Bool
  pub split : Split
  pub decision_note : Text
  pub rejection_reason : Text
  pub label : Text

-- What an approval sets off.
unfoldable pub carry_out :
    Warehouse → PartShortageDecision → Review → ℕ → ℕ → Result OfficeError Warehouse
carry_out w d t actor now = do
  committed ← commit_related w d.report (ltb_ℤ (pos 0) d.approved_issue_qty) d.approved_issue_qty
  requested ← auto_create_pr_for_shortage committed d.report actor t.decision_note t.label
  ok (approve_related requested d actor now)

-- `create_shortage_decision`
unfoldable pub create_shortage_decision :
    Warehouse → ℕ → Review → ℕ → ℕ → Result OfficeError Warehouse
create_shortage_decision w report t actor now = do
  r ← or_raise (get report w.shortage_reports) does_not_exist
  raise_if (not (is_pending_review r.status)) not_under_review
  raise_if (not (is_none (get report w.shortage_decisions))) decided_already
  let d = decision_of report t.is_approve t.split
  raise_if (not (is_valid_decision r d)) invalid
  let saved : Warehouse = record w {
    shortage_decisions = insert_last d w.shortage_decisions;
    shortage_reports = save (reviewed_report r t.is_approve) w.shortage_reports;
  }
  if t.is_approve
      then carry_out saved d t actor now
      else ok (record saved { board = clear_blockers saved r actor t.rejection_reason now })

abbrev pub is_decision_locked : ShortageStatus → Bool
is_decision_locked ShortageStatus.pending_review = false
is_decision_locked ShortageStatus.approved = false
is_decision_locked _ = true

-- The quantity of the newest request of the report follows the decision.
unfoldable pub sync_request : List PurchaseRequest → ℕ → ℤ → ℤ → List PurchaseRequest
sync_request qs report before after = elim (find_first (is_request_for report) (reverse qs)) [
  | none ↦ qs
  | some q ↦ if eqb_ℤ after before then qs else save (record q { quantity = after }) qs
]

-- Is it a `ValueError`, over which the edit passes?
abbrev pub is_value_error : StockError → Bool
is_value_error StockError.no_inventory = false
is_value_error _ = true

-- The release of what the edit takes back.
unfoldable pub take_back : Warehouse → PartShortageReport → ℤ → ℕ → ℕ → Result OfficeError Warehouse
take_back w r qty actor now =
    elim (release_reservation (depot w) r.part qty (some r.work_order) actor now) [
      | ok d ↦ ok (with_depot w d)
      | err e ↦ if is_value_error e then ok w else err (refused e)
    ]

unfoldable pub adjust_line :
    Warehouse → PartShortageReport → ℤ → ℤ → ℕ → ℕ → Result OfficeError Warehouse
adjust_line w r before after actor now =
    if ltb_ℤ before after
    then commit_related w r.pk true after
    else if ltb_ℤ after before
    then take_back w r (before -ℤ after) actor now
    else ok w

-- The approved quantity of the line, in any case.
unfoldable pub follow_line : Warehouse → ℕ → ℤ → ℤ → Warehouse
follow_line w report before after = elim (newest_line w report) [
  | none ↦ w
  | some l ↦
      if eqb_ℤ before after || eqb_ℤ l.approved_qty after
      then w
      else record w { lines = save (record l { approved_qty = after }) w.lines }
]

-- `edit_shortage_decision`
unfoldable pub edit_shortage_decision : Warehouse → ℕ → Split → ℕ → ℕ → Result OfficeError Warehouse
edit_shortage_decision w report q actor now = do
  r ← or_raise (get report w.shortage_reports) does_not_exist
  raise_if (is_decision_locked r.status) decision_locked
  old ← or_raise (get report w.shortage_decisions) does_not_exist
  let d = decision_of report old.is_approve q
  raise_if (not (is_valid_decision r d)) invalid
  let saved : Warehouse = record w {
    shortage_decisions = save d w.shortage_decisions;
    purchase_requests =
        sync_request w.purchase_requests report old.approved_procurement_qty
          d.approved_procurement_qty;
  }
  v ← adjust_line saved r old.approved_issue_qty d.approved_issue_qty actor now
  ok (follow_line v report old.approved_issue_qty d.approved_issue_qty)
