-- ===== src/Procurement/Orders.antt =====
-- procurement/views.py and procurement/services.py: what closes, cancels and edits a purchase order.
use spare_part.Base.{
  ℕ, Bool, true, false, not, ◌&&◌, List, [], ◌∷◌, Option, none, some, if◌then◌else◌, length, ltb,
}
use spare_part.Base.Int.{ℤ, pos, eqb_ℤ}
use spare_part.Base.Text.{Text, strip}
use spare_part.Base.Rows.{get, save}
use spare_part.Base.Result.{Result, ok}
use spare_part.Base.Shut.{◌>>=◌, ◌>>◌, raise_if, or_raise}
use spare_part.Stock.Tables.{part_row}
use spare_part.Blockers.Sync.{SyncEvent, po_closed_short, po_cancelled, sync_from_external_event}
use spare_part.Blockers.Steps.{board_after}
use spare_part.Warehouse.Direct.{plain_payload}
use spare_part.Warehouse.Tables.{Warehouse, PurchaseRequest, RequestStatus, shortage_report_row}
use spare_part.Warehouse.Moves.{Supplier}
use spare_part.Procurement.Tables.{
  OrderStatus, is_locked, PurchaseOrder, PurchaseOrderItem, Office, purchase_order_row,
  purchase_order_item_row, purchase_request_row, with_total, is_item_of,
}
use spare_part.Procurement.Receipt.{
  OfficeError, does_not_exist, locked, not_sent, not_open, reason_too_short, report_entity,
  requests_of,
}

-- `sync_shortage_blocker_after_pr_change`, whose exceptions the views pass over.
unfoldable pub sync_shortage_blocker : Warehouse → PurchaseRequest → SyncEvent → ℕ → ℕ → Warehouse
sync_shortage_blocker w q event actor now = elim q.source_shortage_report [
  | none ↦ w
  | some k ↦ elim (get k w.shortage_reports) [
    | none ↦ w
    | some r ↦ record w {
      board = board_after w.board (
          sync_from_external_event w.board (some (report_entity w r)) event (some actor)
            plain_payload now);
    }
  ]
]

-- The loop over the requests of an order, but for those whose status is left alone.
unfoldable pub change_requests :
    List PurchaseRequest
    → (RequestStatus → Bool)
    → RequestStatus
    → SyncEvent
    → Warehouse
    → ℕ
    → ℕ
    → Warehouse
change_requests [] is_left status event w actor now = w
change_requests (q ∷ qs) is_left status event w actor now =
    let changed : Warehouse = record w {
      purchase_requests = save (record q { status = status }) w.purchase_requests;
    } in
    change_requests qs is_left status event
      (if is_left q.status then w else sync_shortage_blocker changed q event actor now) actor now

abbrev pub is_left_short : RequestStatus → Bool
is_left_short RequestStatus.fulfilled = true
is_left_short RequestStatus.cancelled = true
is_left_short RequestStatus.converted_to_po = true
is_left_short _ = false

abbrev pub is_finished : RequestStatus → Bool
is_finished RequestStatus.fulfilled = true
is_finished RequestStatus.cancelled = true
is_finished _ = false

abbrev pub is_under_delivery : OrderStatus → Bool
is_under_delivery OrderStatus.partial_received = true
is_under_delivery OrderStatus.sent = true
is_under_delivery _ = false

abbrev pub is_early : OrderStatus → Bool
is_early OrderStatus.draft = true
is_early OrderStatus.sent = true
is_early _ = false

unfoldable pub clear_backorders : ℕ → List PurchaseOrderItem → List PurchaseOrderItem
clear_backorders order [] = []
clear_backorders order (i ∷ is) =
    (if is_item_of order i then record i { backordered_qty = pos 0 } else i)
    ∷ clear_backorders order is

-- `purchase_order_close_short`
unfoldable pub purchase_order_close_short : Office → ℕ → ℕ → ℕ → Result OfficeError Office
purchase_order_close_short o k actor now = do
  po ← or_raise (get k o.orders) does_not_exist
  raise_if (not (is_under_delivery po.status)) not_open
  let requests = requests_of po.pk o.warehouse.purchase_requests
  ok (record o {
    orders = save (record po { status = OrderStatus.closed_short }) o.orders;
    items = clear_backorders po.pk o.items;
    warehouse =
        change_requests requests is_left_short RequestStatus.partially_fulfilled po_closed_short
          o.warehouse actor now;
  })

-- `purchase_order_cancel`
unfoldable pub purchase_order_cancel : Office → ℕ → Text → ℕ → ℕ → Result OfficeError Office
purchase_order_cancel o k reason actor now = do
  po ← or_raise (get k o.orders) does_not_exist
  raise_if (not (is_early po.status)) not_sent
  raise_if (ltb (length (strip reason)) 15) reason_too_short
  let requests = requests_of po.pk o.warehouse.purchase_requests
  let cancelled : PurchaseOrder = record po {
    status = OrderStatus.cancelled;
    cancellation_reason = strip reason;
  }
  ok (record o {
    orders = save cancelled o.orders;
    warehouse =
        change_requests requests is_finished RequestStatus.pending po_cancelled o.warehouse actor
          now;
  })

-- The new prices of the lines of an order, where the form gives one that differs.
unfoldable pub reprice : ℕ → (ℕ → Option ℤ) → List PurchaseOrderItem → List PurchaseOrderItem
reprice order price [] = []
reprice order price (i ∷ is) =
    (elim (price i.pk) [
      | none ↦ i
      | some p ↦
          if is_item_of order i && not (eqb_ℤ p i.negotiated_unit_price)
          then with_total (record i { negotiated_unit_price = p })
          else i
    ])
    ∷ reprice order price is

-- `purchase_order_edit` with a valid form, of whose fields the supplier, the status and the notes are modelled.
unfoldable pub purchase_order_edit :
    Office → ℕ → Supplier → OrderStatus → Text → (ℕ → Option ℤ) → Result OfficeError Office
purchase_order_edit o k supplier status notes price = do
  po ← or_raise (get k o.orders) does_not_exist
  raise_if (is_locked po.status) locked
  let edited : PurchaseOrder = record po { supplier = supplier; status = status; notes = notes }
  ok (record o { orders = save edited o.orders; items = reprice po.pk price o.items })
