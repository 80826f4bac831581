-- ===== src/Warehouse/Issue.antt =====
-- inventory/services.py: `execute_warehouse_issue`, the issue of a requested part.
use spare_part.Blockers.Sync.{part_issued}
use spare_part.Warehouse.Shortage.{transition_shortage_status}
use spare_part.Warehouse.Direct.{
  plain_payload, fire_event, cost_line, issue_movement, fallback_cost,
}
use spare_part.Stock.Tables.{part_row, Inventory, SparePart}
use spare_part.Stock.Reservations.{
  is_stock_of, no_site, is_legacy, is_open_line, add_split, release_rows, same_line, Release,
}
use spare_part.Base.{
  ℕ, Bool, not, ◌&&◌, List, [], Option, none, some, ◌==◌, if◌then◌else◌, find_first,
}
use spare_part.Base.Int.{ℤ, pos, ◌+ℤ◌, ◌-ℤ◌, ltb_ℤ, leb_ℤ, eqb_ℤ}
use spare_part.Base.Text.{Text}
use spare_part.Base.Rows.{get, save}
use spare_part.Base.Result.{tables_or, Result, ok}
use spare_part.Base.Shut.{◌>>=◌, ◌>>◌, raise_if, or_raise}
use spare_part.Stock.Depot.{PartIssueLine, line_row, InventoryReservation, ReleaseReason, is_active}
use spare_part.Blockers.Tables.{part_issue_line, is_closed_report, LineStatus, ShortageStatus}
use spare_part.Warehouse.Tables.{Warehouse, shortage_report_row}
use spare_part.Warehouse.Moves.{
  not_enough_stock, nothing_in_stock, no_site, quantity_not_positive, not_approved, cannot_issue,
  move_stock, does_not_exist, WarehouseError, Captions,
}

-- `_effective_unit_cost`
abbrev pub line_cost : SparePart → PartIssueLine → ℤ
line_cost p l = if ltb_ℤ (pos 0) l.unit_cost then l.unit_cost else fallback_cost p

abbrev pub is_linked : ℕ → ℕ → InventoryReservation → Bool
is_linked part line r = r.part == part && same_line line r.source_line && is_active r.status

-- The second loop, over the reservations of the order that have no line.
abbrev pub release_legacy : PartIssueLine → ℤ → ℕ → Release → Release
release_legacy l qty now first =
    let rows = add_split first.split first.rows in
    if leb_ℤ first.remaining (pos 0)
    then record { remaining = first.remaining; rows = rows; split = none }
    else release_rows (is_legacy l.part (some l.work_order))
        (ReleaseReason.legacy_issue qty l.work_order)
        (ReleaseReason.partial_legacy_issue qty l.work_order) now first.remaining rows

-- `reservation_released`, which the issue returns and logs.
unfoldable pub reservation_released : PartIssueLine → ℤ → ℕ → List InventoryReservation → ℤ
reservation_released l qty now rows =
    qty
    -ℤ (release_legacy l qty now (
        release_rows (is_linked l.part l.pk) (ReleaseReason.warehouse_issue qty l.work_order)
          (ReleaseReason.partial_issue qty l.work_order) now qty rows)).remaining

-- The two loops, which release up to `qty` units.
unfoldable pub release_for_issue :
    PartIssueLine → ℤ → ℕ → List InventoryReservation → List InventoryReservation
release_for_issue l qty now rows =
    let done = release_legacy l qty now (
      release_rows (is_linked l.part l.pk) (ReleaseReason.warehouse_issue qty l.work_order)
        (ReleaseReason.partial_issue qty l.work_order) now qty rows) in
    add_split done.split done.rows

-- The line after the issue.
abbrev pub after_issue : PartIssueLine → SparePart → ℤ → ℕ → PartIssueLine
after_issue l p qty actor = record l {
  issued_qty = l.issued_qty +ℤ qty;
  status = LineStatus.issued;
  issued_by = some actor;
  unit_cost =
      if leb_ℤ l.unit_cost (pos 0) && ltb_ℤ (pos 0) (line_cost p l)
      then line_cost p l
      else l.unit_cost;
}

-- The report of the line counts the units, and the first issue moves it on where it can.
unfoldable pub count_report : Warehouse → Option ℕ → Bool → ℤ → ℕ → Text → ℕ → Warehouse
count_report w none is_first qty actor label now = w
count_report w (some k) is_first qty actor label now = elim (get k w.shortage_reports) [
  | none ↦ w
  | some r ↦
      let counted : Warehouse = record w {
        shortage_reports = save (record r { qty_issued = r.qty_issued +ℤ qty }) w.shortage_reports;
      } in
      if is_first && not (is_closed_report r.status)
      then tables_or counted
          (transition_shortage_status counted k ShortageStatus.in_fulfillment actor label now)
      else counted
]

-- The reservations, the stock, the movement and the line of an issue.
unfoldable pub take_for_line :
    Warehouse → PartIssueLine → SparePart → Inventory → ℤ → ℕ → Text → ℕ → Warehouse
take_for_line w l p inv qty actor note now =
    move_stock
      (record w {
        reservations = release_for_issue l qty now w.reservations;
        lines = save (after_issue l p qty actor) w.lines;
      })
      w.inventories inv (inv.quantity_available -ℤ qty)
      (issue_movement w inv qty l.work_order actor [] (line_cost p (after_issue l p qty actor)) []
        note now)

-- The rows that an issue writes before its cost.
unfoldable pub issue_line :
    Warehouse → PartIssueLine → SparePart → Inventory → ℤ → ℕ → Captions → ℕ → Warehouse
issue_line w l p inv qty actor t now =
    count_report (take_for_line w l p inv qty actor t.movement_note now) l.related_shortage_report
      (eqb_ℤ l.issued_qty (pos 0)) qty actor t.memo now

-- `execute_warehouse_issue`
unfoldable pub execute_warehouse_issue :
    Warehouse → ℕ → ℤ → ℕ → Bool → Captions → ℕ → Result WarehouseError Warehouse
execute_warehouse_issue w line qty actor skip_approval_check t now = do
  l ← or_raise (get line w.lines) does_not_exist
  raise_if (not (is_open_line l.status)) cannot_issue
  raise_if (not skip_approval_check && leb_ℤ l.approved_qty (pos 0)) not_approved
  raise_if (leb_ℤ qty (pos 0)) quantity_not_positive
  s ← or_raise w.default_site no_site
  inv ← or_raise (find_first (is_stock_of l.part s) w.inventories) does_not_exist
  raise_if (leb_ℤ inv.quantity_available (pos 0)) nothing_in_stock
  raise_if (ltb_ℤ inv.quantity_available qty) not_enough_stock
  p ← or_raise (get l.part w.parts) does_not_exist
  posted ← cost_line (issue_line w l p inv qty actor t now) l.pk actor t.memo now
  ok (record posted {
    board =
        fire_event posted.board (part_issue_line l.pk LineStatus.issued) part_issued actor
          plain_payload l.work_order now;
  })
