-- ===== src/Procurement/Shortages.antt =====
-- inventory/services.py: `raise_shortage_request`. The reason of a report and the snapshots that are only shown are
-- left out.
use spare_part.Warehouse.Approval.{is_pending_line}
use spare_part.Blockers.Tables.{order_row, WorkOrder}
use spare_part.Base.Int.{pos}
use spare_part.Warehouse.Direct.{is_line_for}
use spare_part.Base.Rows.{next_pk, save, flag_at}
use spare_part.Base.Result.{err, ok, Result}
use spare_part.Base.{
  ◌&&◌, if◌then◌else◌, Bool, Option, List, ℕ, none, some, reverse, find_first, insert_last, is_none,
}
use spare_part.Stock.Depot.{PartIssueLine, line_row}
use spare_part.Warehouse.Tables.{PartShortageReport, Warehouse, shortage_report_row}
use spare_part.Warehouse.Requests.{
  on_hand_at, reserved_at, usable_at, is_pending_report, shortage_report,
}
use spare_part.Procurement.Receipt.{OfficeError, no_quantity}

abbrev pub is_pending_line_for : ℕ → ℕ → PartIssueLine → Bool
is_pending_line_for wo part l = is_line_for wo part l && is_pending_line l.status

abbrev pub raised_report : Warehouse → PartIssueLine → ℕ → PartShortageReport
raised_report w l technician =
    record (shortage_report w l
      (flag_at (λ (x : WorkOrder). x.is_emergency) l.work_order w.board.orders) technician) {
        qty_issued = l.issued_qty;
      }

-- A pending report is brought up to date, with what the line says if there is one.
abbrev pub refreshed_report :
    Warehouse → PartShortageReport → Option PartIssueLine → PartShortageReport
refreshed_report w r line = record r {
  available_qty_snapshot = on_hand_at w r.part;
  reserved_qty_snapshot = reserved_at w r.part;
  usable_qty_snapshot = usable_at w r.part;
  qty_requested = elim line [ none ↦ r.qty_requested | some l ↦ l.quantity ];
  qty_issued = elim line [ none ↦ pos 0 | some l ↦ l.issued_qty ];
  shortage_qty = elim line [ none ↦ pos 0 | some l ↦ l.shortage_qty ];
}

-- A line without a report gets this one.
abbrev pub with_report : PartIssueLine → ℕ → PartIssueLine
with_report l report =
    if is_none l.related_shortage_report
    then record l { related_shortage_report = some report }
    else l

abbrev pub linked_lines : List PartIssueLine → Option PartIssueLine → ℕ → List PartIssueLine
linked_lines ls none report = ls
linked_lines ls (some l) report = save (with_report l report) ls

-- `raise_shortage_request`, for the newest pending line; a new report without a line has no quantity.
unfoldable pub raise_shortage_request : Warehouse → ℕ → ℕ → ℕ → Result OfficeError Warehouse
raise_shortage_request w wo part technician =
    let line = find_first (is_pending_line_for wo part) (reverse w.lines) in
    elim (find_first (is_pending_report wo part) w.shortage_reports) [
      | some r ↦ ok (record w {
        shortage_reports = save (refreshed_report w r line) w.shortage_reports;
        lines = linked_lines w.lines line r.pk;
      })
      | none ↦ elim line [
        | none ↦ err no_quantity
        | some l ↦ ok (record w {
          shortage_reports = insert_last (raised_report w l technician) w.shortage_reports;
          lines = linked_lines w.lines (some l) (next_pk w.shortage_reports);
        })
      ]
    ]
