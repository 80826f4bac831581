-- ===== src/Procurement/Receipt.antt =====
-- procurement/views.py: `purchase_order_receive`. What the form holds, and texts made for display, are arguments;
-- a redirect with a message before the transaction ends as an exception does.
use spare_part.Base.{
  insert_last, ℕ, Bool, false, ◌&&◌, ◌||◌, List, [], ◌∷◌, none, some, if◌then◌else◌, is_none,
}
use spare_part.Base.Int.{ltb_ℤ}
use spare_part.Base.Text.{Text, is_empty, strip}
use spare_part.Base.Rows.{get, save}
use spare_part.Base.Result.{Result, ok, err, tables_or}
use spare_part.Base.Shut.{◌>>=◌, ◌>>◌, raise_if, or_raise}
use spare_part.Blockers.Tables.{External, part_shortage_report, ShortageStatus}
use spare_part.Blockers.Sync.{shortage_fulfilled, sync_from_external_event, is_in_fulfillment}
use spare_part.Blockers.Steps.{board_after}
use spare_part.Warehouse.Tables.{
  Warehouse, PurchaseRequest, RequestStatus, PartShortageReport, shortage_report_row,
  shortage_decision_row,
}
use spare_part.Warehouse.Moves.{WarehouseError, Captions}
use spare_part.Warehouse.Shortage.{transition_shortage_status}
use spare_part.Procurement.Tables.{
  OrderStatus, is_locked, is_received, PurchaseOrder, PurchaseOrderItem, Office, purchase_order_row,
  is_item_of, is_request_of,
}
use spare_part.Stock.Reservations.{StockError}
use spare_part.Procurement.Lines.{Arrival, receive_items}
use spare_part.Procurement.Fulfil.{auto_fulfill_wo_lines_from_po}

-- `no_site` and `locked` are redirects with a message, `not_terminal` is a `ValueError`; `failed` is what a
-- service of the warehouse raises.
pub data OfficeError : Type 0 where
  does_not_exist locked no_site not_sent not_open reason_too_short not_terminal : OfficeError
  not_closed no_shortage not_under_review decided_already invalid decision_locked : OfficeError
  no_quantity : OfficeError
  refused : StockError → OfficeError
  failed : WarehouseError → OfficeError

abbrev pub of_warehouse {ℓ} : {A : Type ℓ} → Result WarehouseError A → Result OfficeError A
of_warehouse (ok a) = ok a
of_warehouse (err e) = err (failed e)

abbrev pub items_of : ℕ → List PurchaseOrderItem → List PurchaseOrderItem
items_of order [] = []
items_of order (i ∷ is) =
    let rest = items_of order is in if is_item_of order i then i ∷ rest else rest

-- Has a line of the order less than was ordered?
abbrev pub lacks_units : ℕ → List PurchaseOrderItem → Bool
lacks_units order [] = false
lacks_units order (i ∷ is) =
    is_item_of order i && ltb_ℤ i.received_qty i.ordered_qty || lacks_units order is

abbrev pub received_order : PurchaseOrder → List PurchaseOrderItem → ℕ → PurchaseOrder
received_order po items now =
    if lacks_units po.pk items
    then record po { status = OrderStatus.partial_received }
    else record po { status = OrderStatus.received; received_at = some now }

-- The requests of an order, the newest first.
abbrev pub requests_of : ℕ → List PurchaseRequest → List PurchaseRequest
requests_of order [] = []
requests_of order (q ∷ qs) =
    let rest = requests_of order qs in if is_request_of order q then insert_last q rest else rest

-- Every request of the order, whatever its status.
unfoldable pub mark_requests : ℕ → RequestStatus → List PurchaseRequest → List PurchaseRequest
mark_requests order status [] = []
mark_requests order status (q ∷ qs) =
    (if is_request_of order q then record q { status = status } else q)
    ∷ mark_requests order status qs

-- The report as the blocker services read it.
abbrev pub report_entity : Warehouse → PartShortageReport → External
report_entity w r =
    part_shortage_report r.pk r.status (some r.qty_issued)
      (elim (get r.pk w.shortage_decisions) [ none ↦ none | some d ↦ some d.approved_issue_qty ])

-- The blocker and the report of a request, best effort.
unfoldable pub fulfil_report : Warehouse → PartShortageReport → ℕ → Text → ℕ → Warehouse
fulfil_report w r actor label now =
    let told : Warehouse = record w {
      board = board_after w.board (
          sync_from_external_event w.board (some (report_entity w r)) shortage_fulfilled
            (some actor) (record { note = some label; reason = none }) now);
    } in
    if is_in_fulfillment r.status
    then tables_or told
        (transition_shortage_status told r.pk ShortageStatus.fulfilled actor label now)
    else told

unfoldable pub fulfil_reports : List PurchaseRequest → Warehouse → ℕ → Text → ℕ → Warehouse
fulfil_reports [] w actor label now = w
fulfil_reports (q ∷ qs) w actor label now =
    fulfil_reports qs
      (elim q.source_shortage_report [
        | none ↦ w
        | some k ↦ elim (get k w.shortage_reports) [
          | none ↦ w
          | some r ↦ if is_none q.work_order then w else fulfil_report w r actor label now
        ]
      ])
      actor label now

-- What the view is handed.
pub record Delivery : Type 0 where
  pub form : ℕ → Arrival
  pub supplier_invoice_ref : Text
  pub note : Text
  pub captions : Captions
  pub label : Text
  pub is_auto_issue : Bool

-- What follows the lines: the order, its requests, and the work orders that wait.
unfoldable pub settle_receipt : Office → PurchaseOrder → Delivery → ℕ → ℕ → Office
settle_receipt o po t actor now =
    let done = received_order po o.items now in
    let w : Warehouse = record o.warehouse {
      purchase_requests =
          mark_requests po.pk
            (if is_received done.status
              then RequestStatus.fulfilled
              else RequestStatus.partially_fulfilled)
            o.warehouse.purchase_requests;
    } in
    let requests = requests_of po.pk w.purchase_requests in
    let issued =
      auto_fulfill_wo_lines_from_po t.is_auto_issue (items_of po.pk o.items) requests w actor
        t.captions t.label now in
    record o {
      orders = save done o.orders;
      warehouse = fulfil_reports requests issued actor t.label now;
    }

abbrev pub invoiced : PurchaseOrder → Text → PurchaseOrder
invoiced po invoice =
    if is_empty invoice then po else record po { supplier_invoice_number = invoice }

-- `purchase_order_receive`
unfoldable pub purchase_order_receive : Office → ℕ → Delivery → ℕ → ℕ → Result OfficeError Office
purchase_order_receive o k t actor now = do
  po ← or_raise (get k o.orders) does_not_exist
  raise_if (is_locked po.status) locked
  site ← or_raise o.warehouse.default_site no_site
  let invoice = strip t.supplier_invoice_ref
  let named = invoiced po invoice
  v ← of_warehouse (
      receive_items (items_of po.pk o.items) o named t.form
        (if is_empty invoice then po.po_number else invoice) t.note site actor now)
  ok (settle_receipt v named t actor now)
