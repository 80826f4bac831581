-- ===== src/Procurement/Tables.antt =====
-- procurement/models.py: purchase orders and their lines. The purchase requests stand in the warehouse, whose
-- services write them too. A price is a number of ten-thousandths.
use spare_part.Base.{ℕ, Bool, true, false, List, Option, none, some, ◌==◌}
use spare_part.Base.Int.{ℤ, pos, ◌-ℤ◌, ◌*ℤ◌, eqb_ℤ}
use spare_part.Base.{if◌then◌else◌, ◌||◌}
use spare_part.Base.Text.{Text}
use spare_part.Base.Rows.{Row}
use spare_part.Ledger.Service.{quantize}
use spare_part.Warehouse.Tables.{Warehouse, PurchaseRequest}
use spare_part.Warehouse.Moves.{Supplier}

-- `PurchaseOrder.Status`
pub data OrderStatus : Type 0 where
  draft sent partial_received received closed_short cancelled : OrderStatus

-- `is_locked`
abbrev pub is_locked : OrderStatus → Bool
is_locked OrderStatus.received = true
is_locked OrderStatus.closed_short = true
is_locked OrderStatus.cancelled = true
is_locked _ = false

abbrev pub is_received : OrderStatus → Bool
is_received OrderStatus.received = true
is_received _ = false

-- `supplier` is its key and its name; `po_number` is the text that `save` makes for a new order.
pub record PurchaseOrder : Type 0 where
  pub pk : ℕ
  pub po_number : Text
  pub supplier : Supplier
  pub status : OrderStatus
  pub cancellation_reason : Text
  pub notes : Text
  pub supplier_invoice_number : Text
  pub received_at : Option ℕ
  pub created_by : ℕ
  pub reorder_source : Option ℕ

pub record PurchaseOrderItem : Type 0 where
  pub pk : ℕ
  pub purchase_order : ℕ
  pub part : ℕ
  pub ordered_qty : ℤ
  pub received_qty : ℤ
  pub negotiated_unit_price : ℤ
  pub actual_unit_price : Option ℤ
  pub total_price : ℤ
  pub damaged_qty : ℤ
  pub rejected_qty : ℤ
  pub backordered_qty : ℤ

pub record Office : Type 0 where
  pub warehouse : Warehouse
  pub orders : List PurchaseOrder
  pub items : List PurchaseOrderItem

instance abbrev pub purchase_order_row : Row PurchaseOrder
purchase_order_row = record { key = λ x. x.pk }

instance abbrev pub purchase_order_item_row : Row PurchaseOrderItem
purchase_order_item_row = record { key = λ x. x.pk }

instance abbrev pub purchase_request_row : Row PurchaseRequest
purchase_request_row = record { key = λ x. x.pk }

-- `remaining_qty`
abbrev pub remaining_qty : PurchaseOrderItem → ℤ
remaining_qty i = i.ordered_qty -ℤ i.received_qty

abbrev pub effective_price : PurchaseOrderItem → ℤ
effective_price i = elim i.actual_unit_price [ none ↦ i.negotiated_unit_price | some p ↦ p ]

-- `PurchaseOrderItem.save`: the total follows the price, unless one of its factors is zero.
abbrev pub with_total : PurchaseOrderItem → PurchaseOrderItem
with_total i =
    if eqb_ℤ i.ordered_qty (pos 0) || eqb_ℤ (effective_price i) (pos 0)
    then i
    else record i { total_price = quantize (i.ordered_qty *ℤ effective_price i) 1000 }

abbrev pub is_item_of : ℕ → PurchaseOrderItem → Bool
is_item_of order i = i.purchase_order == order

abbrev pub is_request_of : ℕ → PurchaseRequest → Bool
is_request_of order q = elim q.purchase_order [ none ↦ false | some k ↦ k == order ]
