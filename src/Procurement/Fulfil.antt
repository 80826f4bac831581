-- ===== src/Procurement/Fulfil.antt =====
-- inventory/services.py: `auto_fulfill_wo_lines_from_po`, the issue of received parts to the orders that wait for
-- them. `is_enabled` is the setting PO_AUTO_ISSUE.
use spare_part.Base.{
  ℕ, Bool, true, false, not, ◌&&◌, ◌||◌, List, [], ◌∷◌, Option, none, some, ◌==◌, if◌then◌else◌,
}
use spare_part.Base.Int.{ℤ, pos, ◌-ℤ◌, ltb_ℤ, leb_ℤ, min_ℤ}
use spare_part.Base.Text.{Text}
use spare_part.Base.Rows.{get}
use spare_part.Base.Result.{ok, err, tables_or}
use spare_part.Stock.Depot.{PartIssueLine}
use spare_part.Blockers.Tables.{LineStatus, ShortageStatus}
use spare_part.Warehouse.Tables.{
  Warehouse, PurchaseRequest, shortage_report_row, shortage_decision_row, PartShortageReport,
  PartShortageDecision,
}
use spare_part.Warehouse.Moves.{Captions}
use spare_part.Warehouse.Issue.{execute_warehouse_issue}
use spare_part.Warehouse.Shortage.{mark_shortage_fulfilled}
use spare_part.Procurement.Tables.{PurchaseOrderItem}

-- The lines of the order for the part that are approved or allocated.
abbrev pub is_ready : LineStatus → Bool
is_ready LineStatus.approved = true
is_ready LineStatus.allocated = true
is_ready _ = false

abbrev pub open_lines : ℕ → ℕ → List PartIssueLine → List PartIssueLine
open_lines wo part [] = []
open_lines wo part (l ∷ ls) =
    let rest = open_lines wo part ls in
    if l.work_order == wo && l.part == part && is_ready l.status then l ∷ rest else rest

abbrev pub can_be_fulfilled : PartShortageReport → PartShortageDecision → Bool
can_be_fulfilled r d =
    (elim r.status [
      | ShortageStatus.in_fulfillment ↦ true
      | ShortageStatus.approved ↦ true
      | _ ↦ false
    ])
    && d.is_approve
    && not (ltb_ℤ r.qty_issued d.approved_issue_qty)

-- `_try_auto_fulfill_shortage`
unfoldable pub try_auto_fulfill_shortage : Warehouse → Option ℕ → ℕ → Text → ℕ → Warehouse
try_auto_fulfill_shortage w none actor label now = w
try_auto_fulfill_shortage w (some k) actor label now =
    let done = tables_or w (mark_shortage_fulfilled w k actor label now) in
    elim (get k w.shortage_reports) [
      | none ↦ w
      | some r ↦ elim (get k w.shortage_decisions) [
        | none ↦ w
        | some d ↦ if can_be_fulfilled r d then done else w
      ]
    ]

-- What is left to issue on a line.
abbrev pub unissued : PartIssueLine → ℤ
unissued l = l.approved_qty -ℤ l.issued_qty

-- The issue of one line, with the received units that are left after it; an exception is passed over.
unfoldable pub fulfil_line : Warehouse → PartIssueLine → ℤ → ℕ → Captions → Text → ℕ → Warehouse × ℤ
fulfil_line w l left actor t label now =
    let qty = min_ℤ left (unissued l) in
    if leb_ℤ left (pos 0) || leb_ℤ (unissued l) (pos 0)
    then (w, left)
    else elim (execute_warehouse_issue w l.pk qty actor false t now) [
      | ok v ↦ (try_auto_fulfill_shortage v l.related_shortage_report actor label now, left -ℤ qty)
      | err e ↦ (w, left)
    ]

unfoldable pub fulfil_lines :
    List PartIssueLine → Warehouse → ℤ → ℕ → Captions → Text → ℕ → Warehouse
fulfil_lines [] w left actor t label now = w
fulfil_lines (l ∷ ls) w left actor t label now =
    let r = fulfil_line w l left actor t label now in fulfil_lines ls r.0 r.1 actor t label now

-- The loop over the requests of an order for a line of it.
unfoldable pub fulfil_requests :
    List PurchaseRequest → Warehouse → PurchaseOrderItem → ℕ → Captions → Text → ℕ → Warehouse
fulfil_requests [] w i actor t label now = w
fulfil_requests (q ∷ qs) w i actor t label now =
    fulfil_requests qs
      (elim q.work_order [
        | none ↦ w
        | some wo ↦
            if q.part == i.part
            then fulfil_lines (open_lines wo i.part w.lines) w i.received_qty actor t label now
            else w
      ])
      i actor t label now

unfoldable pub fulfil_items :
    List PurchaseOrderItem → List PurchaseRequest → Warehouse → ℕ → Captions → Text → ℕ → Warehouse
fulfil_items [] requests w actor t label now = w
fulfil_items (i ∷ is) requests w actor t label now =
    fulfil_items is requests (fulfil_requests requests w i actor t label now) actor t label now

-- `auto_fulfill_wo_lines_from_po`
unfoldable pub auto_fulfill_wo_lines_from_po :
    Bool
    → List PurchaseOrderItem
    → List PurchaseRequest
    → Warehouse
    → ℕ
    → Captions
    → Text
    → ℕ
    → Warehouse
auto_fulfill_wo_lines_from_po is_enabled items requests w actor t label now =
    if is_enabled then fulfil_items items requests w actor t label now else w
