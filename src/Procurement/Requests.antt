-- ===== src/Procurement/Requests.antt =====
-- procurement/services.py: `auto_create_pr_for_shortage`; procurement/views.py: `create_pr_from_shortage`. The
-- machine of a request is left out.
use spare_part.Base.{
  ℕ, Bool, false, not, List, [], Option, none, some, ◌==◌, if◌then◌else◌, insert_last, find_first,
}
use spare_part.Base.Int.{ℤ, pos, leb_ℤ}
use spare_part.Base.Text.{Text}
use spare_part.Base.Rows.{get, next_pk}
use spare_part.Base.Result.{Result, ok}
use spare_part.Base.Shut.{◌>>=◌, ◌>>◌, raise_if, or_raise}
use spare_part.Blockers.Tables.{Kind, is_closed_report}
use spare_part.Blockers.Service.{Opening, open_blocker}
use spare_part.Blockers.Steps.{board_after}
use spare_part.Warehouse.Tables.{
  Warehouse, PurchaseRequest, RequestStatus, PartShortageReport, shortage_report_row,
  shortage_decision_row,
}
use spare_part.Procurement.Tables.{purchase_request_row}
use spare_part.Procurement.Receipt.{
  OfficeError, does_not_exist, not_closed, no_shortage, report_entity,
}

abbrev pub new_request :
    List PurchaseRequest → PartShortageReport → Option ℕ → ℤ → ℕ → PurchaseRequest
new_request qs r wo quantity by = record {
  pk = next_pk qs;
  part = r.part;
  work_order = wo;
  quantity = quantity;
  unit_price = none;
  purchase_order = none;
  created_by = by;
  source_shortage_report = some r.pk;
  status = RequestStatus.pending;
}

abbrev pub is_request_for : ℕ → PurchaseRequest → Bool
is_request_for report q = elim q.source_shortage_report [ none ↦ false | some j ↦ j == report ]

abbrev pub shortage_opening : ℕ → Text → Text → Opening
shortage_opening by note label = record {
  opened_by = some by;
  note = note;
  source_work_order = none;
  related_ero = none;
  pause_reason = [];
  external_label = label;
}

-- The request of a shortage, and the blocker of its order, best effort.
unfoldable pub request_for_shortage :
    Warehouse → PartShortageReport → ℤ → ℕ → Text → Text → Warehouse
request_for_shortage w r quantity by note label = record w {
  purchase_requests =
      insert_last (new_request w.purchase_requests r (some r.work_order) quantity by)
        w.purchase_requests;
  board = board_after w.board (
      open_blocker w.board r.work_order Kind.shortage (some (report_entity w r))
        (shortage_opening by note label));
}

-- `auto_create_pr_for_shortage`; a request that is there already stands for the report.
unfoldable pub auto_create_pr_for_shortage :
    Warehouse → ℕ → ℕ → Text → Text → Result OfficeError Warehouse
auto_create_pr_for_shortage w report by note label = do
  r ← or_raise (get report w.shortage_reports) does_not_exist
  d ← or_raise (get report w.shortage_decisions) does_not_exist
  if leb_ℤ d.approved_procurement_qty (pos 0)
      then ok w
      else elim (find_first (is_request_for report) w.purchase_requests) [
        | none ↦ ok (request_for_shortage w r d.approved_procurement_qty by note label)
        | some q ↦ ok w
      ]

-- `create_pr_from_shortage`
unfoldable pub create_pr_from_shortage : Warehouse → ℕ → ℕ → Result OfficeError Warehouse
create_pr_from_shortage w report by = do
  r ← or_raise (get report w.shortage_reports) does_not_exist
  raise_if (not (is_closed_report r.status)) not_closed
  raise_if (leb_ℤ r.shortage_qty (pos 0)) no_shortage
  ok (record w {
    purchase_requests =
        insert_last (new_request w.purchase_requests r none r.shortage_qty by) w.purchase_requests;
  })
