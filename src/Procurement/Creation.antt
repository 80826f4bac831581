-- ===== src/Procurement/Creation.antt =====
-- procurement/views.py and procurement/services.py: new purchase orders. The number of a new order, which
-- `PurchaseOrder.save` makes, and texts made for display are arguments.
use spare_part.Base.Rows.{next_pk, get, save}
use spare_part.Ledger.Service.{quantize, or_else}
use spare_part.Warehouse.Moves.{Supplier}
use spare_part.Base.Result.{ok, Result}
use spare_part.Base.Text.{Text}
use spare_part.Base.Int.{◌*ℤ◌, ◌+ℤ◌, pos, ℤ}
use spare_part.Warehouse.Tables.{is_pending_status, RequestStatus, PurchaseRequest}
use spare_part.Base.{
  [], reverse, Option, not, none, ◌||◌, ◌&&◌, insert_last, some, false, find_first, ◌==◌,
  if◌then◌else◌, ◌∷◌, Bool, ℕ, List,
}
use spare_part.Base.Shut.{◌>>=◌, ◌>>◌, raise_if, or_raise}
use spare_part.Procurement.Tables.{
  PurchaseOrder, is_locked, OrderStatus, with_total, PurchaseOrderItem, Office, purchase_order_row,
  purchase_request_row, purchase_order_item_row,
}
use spare_part.Procurement.Receipt.{items_of, OfficeError, does_not_exist, not_terminal}
use spare_part.Stock.Tables.{SparePart, part_row}

abbrev pub new_item : List PurchaseOrderItem → ℕ → ℕ → ℤ → ℤ → PurchaseOrderItem
new_item items order part qty price = with_total (record {
  pk = next_pk items;
  purchase_order = order;
  part = part;
  ordered_qty = qty;
  received_qty = pos 0;
  negotiated_unit_price = price;
  actual_unit_price = none;
  total_price = quantize (qty *ℤ price) 1000;
  damaged_qty = pos 0;
  rejected_qty = pos 0;
  backordered_qty = pos 0;
})

abbrev pub new_purchase_order :
    Office → Text → Supplier → OrderStatus → Text → ℕ → Option ℕ → PurchaseOrder
new_purchase_order o number supplier status notes by source = record {
  pk = next_pk o.orders;
  po_number = number;
  supplier = supplier;
  status = status;
  cancellation_reason = [];
  notes = notes;
  supplier_invoice_number = [];
  received_at = none;
  created_by = by;
  reorder_source = source;
}

-- `pr.unit_price or pr.part.last_purchase_cost or 0`
abbrev pub request_price : List SparePart → PurchaseRequest → ℤ
request_price parts q =
    or_else q.unit_price
      (elim (get q.part parts) [ none ↦ pos 0 | some p ↦ or_else p.last_purchase_cost (pos 0) ])

abbrev pub converted : ℕ → PurchaseRequest → PurchaseRequest
converted order q = record q { purchase_order = some order; status = RequestStatus.converted_to_po }

-- `purchase_order_create_from_pr` with a valid form; the status of the request is not looked at.
unfoldable pub purchase_order_create_from_pr :
    Office → ℕ → Text → Supplier → OrderStatus → Text → ℕ → Result OfficeError Office
purchase_order_create_from_pr o request number supplier status notes by = do
  q ← or_raise (get request o.warehouse.purchase_requests) does_not_exist
  let po = new_purchase_order o number supplier status notes by none
  let price = request_price o.warehouse.parts q
  ok (record o {
    orders = insert_last po o.orders;
    items = insert_last (new_item o.items po.pk q.part q.quantity price) o.items;
    warehouse = record o.warehouse {
      purchase_requests = save (converted po.pk q) o.warehouse.purchase_requests;
    };
  })

abbrev pub is_item_for : ℕ → ℕ → PurchaseOrderItem → Bool
is_item_for order part i = i.purchase_order == order && i.part == part

-- A selected request joins the line of its part, or gets a line of its own. The columns that are saved are the
-- quantity and the total, which is computed twice.
unfoldable pub add_request : Office → ℕ → PurchaseRequest → Office
add_request o order q = record o {
  items = elim (find_first (is_item_for order q.part) o.items) [
    | some i ↦
        save
          (with_total (record i {
            ordered_qty = i.ordered_qty +ℤ q.quantity;
            total_price = quantize ((i.ordered_qty +ℤ q.quantity) *ℤ i.negotiated_unit_price) 1000;
          }))
          o.items
    | none ↦
        insert_last (new_item o.items order q.part q.quantity (request_price o.warehouse.parts q))
          o.items
  ];
  warehouse = record o.warehouse {
    purchase_requests = save (converted order q) o.warehouse.purchase_requests;
  };
}

abbrev pub is_selected : ℕ → List ℕ → Bool
is_selected k [] = false
is_selected k (j ∷ js) = j == k || is_selected k js

-- The selected requests, if they are pending. The caller hands over the newest first.
unfoldable pub add_requests : List PurchaseRequest → List ℕ → Office → ℕ → Office
add_requests [] selected o order = o
add_requests (q ∷ qs) selected o order =
    add_requests qs selected
      (if is_selected q.pk selected && is_pending_status q.status then add_request o order q else o)
      order

-- The lines of the form: part, quantity and price.
unfoldable pub add_items : List (ℕ × ℤ × ℤ) → Office → ℕ → Office
add_items [] o order = o
add_items ((part, qty, price) ∷ ls) o order =
    add_items ls (record o { items = insert_last (new_item o.items order part qty price) o.items })
      order

-- `purchase_order_create` with a valid form.
unfoldable pub purchase_order_create :
    Office → Text → Supplier → OrderStatus → Text → ℕ → List (ℕ × ℤ × ℤ) → List ℕ → Office
purchase_order_create o number supplier status notes by lines selected =
    let po = new_purchase_order o number supplier status notes by none in
    let placed : Office = record o { orders = insert_last po o.orders } in
    add_requests (reverse o.warehouse.purchase_requests) selected (add_items lines placed po.pk)
      po.pk

-- A price of zero gives way.
abbrev pub cloned_price : PurchaseOrderItem → ℤ
cloned_price i = or_else i.actual_unit_price i.negotiated_unit_price

unfoldable pub clone_items :
    List PurchaseOrderItem → List PurchaseOrderItem → ℕ → List PurchaseOrderItem
clone_items [] items order = items
clone_items (i ∷ is) items order =
    clone_items is (insert_last (new_item items order i.part i.ordered_qty (cloned_price i)) items)
      order

-- `PurchaseOrderService.reorder`
unfoldable pub reorder : Office → ℕ → Text → Text → ℕ → Result OfficeError Office
reorder o k number notes by = do
  po ← or_raise (get k o.orders) does_not_exist
  raise_if (not (is_locked po.status)) not_terminal
  let fresh = new_purchase_order o number po.supplier OrderStatus.draft notes by (some po.pk)
  ok (record o {
    orders = insert_last fresh o.orders;
    items = clone_items (items_of po.pk o.items) o.items fresh.pk;
  })
