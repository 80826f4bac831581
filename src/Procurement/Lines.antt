-- ===== src/Procurement/Lines.antt =====
-- procurement/views.py: what `purchase_order_receive` does for one line of an order. A quantity that is too large
-- is scaled by exact fractions, where the source divides with 28 digits before it rounds to thousandths.
use spare_part.Base.{ℕ, Bool, ◌&&◌, ◌||◌, List, [], ◌∷◌, none, some, if◌then◌else◌, insert_last}
use spare_part.Base.Int.{ℤ, pos, pos_part, ◌+ℤ◌, ◌-ℤ◌, ◌*ℤ◌, ltb_ℤ, leb_ℤ, eqb_ℤ}
use spare_part.Base.Text.{Text}
use spare_part.Base.Rows.{save, next_pk}
use spare_part.Base.Result.{Result, ok}
use spare_part.Base.Shut.{◌>>=◌}
use spare_part.Stock.Tables.{
  Inventory, inventory_row, MovementType, StockMovement, stock_movement_row,
}
use spare_part.Stock.Reservations.{get_or_create, reallocate_for_part}
use spare_part.Ledger.Service.{quantize}
use spare_part.Warehouse.Tables.{Warehouse, depot, with_depot}
use spare_part.Warehouse.Moves.{WarehouseError, stock_in}
use spare_part.Procurement.Tables.{
  PurchaseOrder, PurchaseOrderItem, Office, purchase_order_item_row, remaining_qty, with_total,
}

-- What the form says of a line, a missing or malformed entry as 0.
pub record Arrival : Type 0 where
  pub good : ℤ
  pub damaged : ℤ
  pub rejected : ℤ
  pub actual_price : ℤ

abbrev pub arrived : Arrival → ℤ
arrived a = a.good +ℤ a.damaged

-- Nothing to do for the line.
abbrev pub is_blank : Arrival → Bool
is_blank a = leb_ℤ (arrived a) (pos 0) && leb_ℤ a.rejected (pos 0) && eqb_ℤ a.actual_price (pos 0)

-- `(q * (remaining / arrived)).quantize(Decimal("0.001"))`
abbrev pub scaled : ℤ → ℤ → ℤ → ℤ
scaled q remaining total = quantize (q *ℤ remaining) (pos_part total)

-- The arrival of more than is left of a line is scaled down, unless nothing is left.
abbrev pub capped : Arrival → ℤ → Arrival
capped a remaining =
    if ltb_ℤ remaining (arrived a) && ltb_ℤ (pos 0) remaining
    then record a {
      good = scaled a.good remaining (arrived a);
      damaged = scaled a.damaged remaining (arrived a);
    }
    else a

abbrev pub backorder : ℤ → ℤ
backorder remaining = if ltb_ℤ (pos 0) remaining then remaining else pos 0

-- The line after the arrival.
unfoldable pub counted_item : PurchaseOrderItem → Arrival → PurchaseOrderItem
counted_item i a =
    let received = i.received_qty +ℤ arrived a in
    with_total (record i {
      received_qty = received;
      damaged_qty = i.damaged_qty +ℤ a.damaged;
      rejected_qty = i.rejected_qty +ℤ a.rejected;
      backordered_qty = backorder (i.ordered_qty -ℤ received);
      actual_unit_price =
          if ltb_ℤ (pos 0) a.actual_price then some a.actual_price else i.actual_unit_price;
    })

-- `actual_price or item.negotiated_unit_price`
abbrev pub paid_price : PurchaseOrderItem → Arrival → ℤ
paid_price i a = if eqb_ℤ a.actual_price (pos 0) then i.negotiated_unit_price else a.actual_price

abbrev pub quarantine_movement :
    Warehouse → PurchaseOrder → Inventory → ℤ → ℤ → Text → ℕ → ℕ → StockMovement
quarantine_movement w po inv damaged price invoice by now = record {
  pk = next_pk w.stock_movements;
  part = inv.part;
  movement_type = MovementType.adjustment;
  quantity = damaged;
  quantity_before = some inv.quantity_quarantine;
  quantity_after = some (inv.quantity_quarantine +ℤ damaged);
  work_order = none;
  site = some inv.site;
  performed_by = by;
  supplier = some po.supplier.0;
  supplier_name = po.supplier.1;
  unit_cost = some price;
  invoice_ref = invoice;
  note = [];
  created_at = now;
}

-- Damaged units are kept apart from the stock.
unfoldable pub quarantine : Warehouse → PurchaseOrder → ℕ → ℕ → ℤ → ℤ → Text → ℕ → ℕ → Warehouse
quarantine w po part site damaged price invoice by now =
    let (d, inv) = get_or_create part site (depot w) in
    record w {
      inventories =
          save (record inv { quantity_quarantine = inv.quantity_quarantine +ℤ damaged })
            d.inventories;
      stock_movements =
          insert_last (quarantine_movement w po inv damaged price invoice by now) w.stock_movements;
    }

unfoldable pub stock_good :
    Warehouse
    → PurchaseOrder
    → PurchaseOrderItem
    → Arrival
    → Text
    → Text
    → ℕ
    → ℕ
    → ℕ
    → Result WarehouseError Warehouse
stock_good w po i a invoice note site by now =
    if ltb_ℤ (pos 0) a.good
    then stock_in w i.part a.good by (some po.supplier) po.supplier.1 (some (paid_price i a))
        invoice note (some site) now
    else ok w

unfoldable pub keep_damaged :
    Warehouse → PurchaseOrder → PurchaseOrderItem → Arrival → Text → ℕ → ℕ → ℕ → Warehouse
keep_damaged w po i a invoice site by now =
    if ltb_ℤ (pos 0) a.damaged
    then quarantine w po i.part site a.damaged (paid_price i a) invoice by now
    else w

unfoldable pub reallocated : Warehouse → ℕ → Arrival → Warehouse
reallocated w part a =
    if ltb_ℤ (pos 0) a.good || ltb_ℤ (pos 0) a.damaged
    then with_depot w (reallocate_for_part part (depot w))
    else w

-- One round of the loop over the lines. `invoice` is the reference that the movements carry.
unfoldable pub receive_item :
    Office
    → PurchaseOrder
    → PurchaseOrderItem
    → Arrival
    → Text
    → Text
    → ℕ
    → ℕ
    → ℕ
    → Result WarehouseError Office
receive_item o po i form invoice note site by now =
    let a = capped form (remaining_qty i) in
    if is_blank form then ok o else (do
      w ← stock_good o.warehouse po i a invoice note site by now
      let kept = keep_damaged w po i a invoice site by now
      ok (record o {
        items = save (counted_item i a) o.items;
        warehouse = reallocated kept i.part a;
      }))

-- The lines were read before the loop.
unfoldable pub receive_items :
    List PurchaseOrderItem
    → Office
    → PurchaseOrder
    → (ℕ → Arrival)
    → Text
    → Text
    → ℕ
    → ℕ
    → ℕ
    → Result WarehouseError Office
receive_items [] o po form invoice note site by now = ok o
receive_items (i ∷ is) o po form invoice note site by now = do
  v ← receive_item o po i (form i.pk) invoice note site by now
  receive_items is v po form invoice note site by now
