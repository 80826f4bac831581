-- ===== src/Procurement/Locked.antt =====
-- An order that is received, closed short or cancelled is out of reach of every call.
use spare_part.Procurement.Delivered.{of_warehouse-eq-ok}
use spare_part.Base.Result.{tables_or}
use spare_part.Base.Text.{strip, Text}
use spare_part.Base.Keeps.{Keeps-bind, Keeps-raise_if, Keeps-or_raise, kept, Keeps, kept_after}
use spare_part.Warehouse.Tables.{is_pending_status, PurchaseRequest}
use spare_part.Base.Int.{ℤ}
use spare_part.Procurement.Receipt.{
  invoiced, settle_receipt, purchase_order_receive, received_order, Delivery,
}
use spare_part.Base.Rows.{get-insert_last_old, get_own, get-save_ne, save, get}
use spare_part.Procurement.Lines.{
  stock_good, is_blank, capped, Arrival, receive_item, receive_items,
}
use spare_part.Procurement.Orders.{
  purchase_order_edit, purchase_order_cancel, purchase_order_close_short, is_early,
  is_under_delivery,
}
use spare_part.Procurement.Creation.{
  new_purchase_order, reorder, purchase_order_create, purchase_order_create_from_pr, is_selected,
  add_request, add_items, add_requests,
}
use spare_part.Procurement.Steps.{
  raises, orders_missing, redecides, backorders, decides, reorders, creates, converts, edits,
  closes_short, receives, OfficeCall, result, step, run, cancels,
}
use spare_part.Procurement.Tables.{
  remaining_qty, is_locked, PurchaseOrderItem, OrderStatus, PurchaseOrder, Office,
  purchase_order_row,
}
use spare_part.Base.{
  reverse, insert_last, none, subst, ◌&&◌, ◌∙◌, if_branches, arith, ℕ, ◌≡◌, refl, true, false, not,
  List, [], ◌∷◌, some,
}

-- The order with key `k` stands as `po`.
abbrev IsFixed : ℕ → PurchaseOrder → Office → Type 0
IsFixed k po o = get k o.orders ≡ some po

under_delivery_open : (s : OrderStatus) → not (is_under_delivery s) ≡ false → is_locked s ≡ false
under_delivery_open OrderStatus.draft e = refl
under_delivery_open OrderStatus.sent e = refl
under_delivery_open OrderStatus.partial_received e = refl
under_delivery_open OrderStatus.received e = ground (arith, e)
under_delivery_open OrderStatus.closed_short e = ground (arith, e)
under_delivery_open OrderStatus.cancelled e = ground (arith, e)

early_open : (s : OrderStatus) → not (is_early s) ≡ false → is_locked s ≡ false
early_open OrderStatus.draft e = refl
early_open OrderStatus.sent e = refl
early_open OrderStatus.partial_received e = ground (arith, e)
early_open OrderStatus.received e = ground (arith, e)
early_open OrderStatus.closed_short e = ground (arith, e)
early_open OrderStatus.cancelled e = ground (arith, e)

-- The office `v` has the orders of `o`.
abbrev SameOrders : Office → Office → Type 0
SameOrders o v = v.orders ≡ o.orders

receive_item-SameOrders :
    (w o : Office) (p : PurchaseOrder) (i : PurchaseOrderItem) (form : Arrival)
    (invoice note : Text) (s by now : ℕ)
    → SameOrders w o
    → Keeps (SameOrders w) w (receive_item o p i form invoice note s by now)
unfolding receive_item
receive_item-SameOrders w o p i form invoice note s by now e =
    let a = capped form (remaining_qty i) in
    if_branches (Keeps (SameOrders w) w) (is_blank form) _ _ (λ _. kept e)
      (λ _.
        Keeps-bind (SameOrders w) w refl (stock_good o.warehouse p i a invoice note s by now) _
          (λ v _. kept e))

receive_items-SameOrders :
    (is : List PurchaseOrderItem) (w o : Office) (p : PurchaseOrder) (form : ℕ → Arrival)
    (invoice note : Text) (s by now : ℕ)
    → SameOrders w o
    → Keeps (SameOrders w) w (receive_items is o p form invoice note s by now)
unfolding receive_items
receive_items-SameOrders [] w o p form invoice note s by now e = kept e
receive_items-SameOrders (i ∷ is) w o p form invoice note s by now e =
    let r = receive_item o p i (form i.pk) invoice note s by now in
    Keeps-bind (SameOrders w) w refl r _ (λ v done.
      receive_items-SameOrders is w v p form invoice note s by now (
        subst (λ y. SameOrders w (tables_or w y)) done
          (kept_after (SameOrders w) w r
            (receive_item-SameOrders w o p i (form i.pk) invoice note s by now e))))

add_items-SameOrders :
    (ls : List (ℕ × ℤ × ℤ)) (o : Office) (order : ℕ) → SameOrders o (add_items ls o order)
unfolding add_items
add_items-SameOrders [] o order = refl
add_items-SameOrders ((p, qty, price) ∷ ls) o order = add_items-SameOrders ls _ order

add_requests-SameOrders :
    (qs : List PurchaseRequest) (selected : List ℕ) (o : Office) (order : ℕ)
    → SameOrders o (add_requests qs selected o order)
unfolding add_requests add_request
add_requests-SameOrders [] selected o order = refl
add_requests-SameOrders (q ∷ qs) selected o order =
    if_branches (λ (v : Office). SameOrders o (add_requests qs selected v order))
      (is_selected q.pk selected && is_pending_status q.status) _ _
      (λ _. add_requests-SameOrders qs selected (add_request o order q) order)
      (λ _. add_requests-SameOrders qs selected o order)

received_order-pk :
    (x : PurchaseOrder) (t : Delivery) (items : List PurchaseOrderItem) (now : ℕ)
    → (received_order (invoiced x (strip t.supplier_invoice_ref)) items now).pk ≡ x.pk
received_order-pk x t items now = ground arith

module _ (k : ℕ) (po : PurchaseOrder) (shut : is_locked po.status ≡ true) where
  -- The row `y` of another order is saved; `x` is that order as it was read.
  save-IsFixed :
      (orders : List PurchaseOrder) (j : ℕ) (x y : PurchaseOrder)
      → get k orders ≡ some po
      → get j orders ≡ some x
      → is_locked x.status ≡ false
      → y.pk ≡ x.pk
      → get k (save y orders) ≡ some po
  save-IsFixed orders j x y found read is_open same =
      get-save_ne k y orders (λ clash.
        let here : get k orders ≡ some x = rw (clash, same) (get_own j x orders read) in
        ground (arith, found, here, shut, is_open))
      ∙ found

  receive-IsFixed :
      (o : Office) (j : ℕ) (t : Delivery) (actor now : ℕ)
      → IsFixed k po o
      → Keeps (IsFixed k po) o (purchase_order_receive o j t actor now)
  unfolding purchase_order_receive settle_receipt
  receive-IsFixed o j t actor now h =
      let P = IsFixed k po in
      Keeps-or_raise P o h _ _ _ (λ x read. Keeps-raise_if P o h _ _ _ (λ is_open.
        Keeps-or_raise P o h _ _ _ (λ s _. Keeps-bind P o h _ _ (λ v done.
          let same : v.orders ≡ o.orders =
            subst (λ y. SameOrders o (tables_or o y)) (of_warehouse-eq-ok _ v done)
              (kept_after (SameOrders o) o _
                (receive_items-SameOrders _ o o _ _ _ _ s actor now refl)) in
          let named = invoiced x (strip t.supplier_invoice_ref) in
          kept (
            save-IsFixed v.orders j x (received_order named v.items now) (rw same h) (rw same read)
              is_open (received_order-pk x t v.items now))))))

  result-IsFixed :
      (o : Office) (c : OfficeCall) → IsFixed k po o → Keeps (IsFixed k po) o (result o c)
  unfolding result purchase_order_close_short purchase_order_cancel purchase_order_edit
      purchase_order_create_from_pr purchase_order_create reorder
  result-IsFixed o (receives j t actor now) h = receive-IsFixed o j t actor now h
  result-IsFixed o (closes_short j actor now) h =
      let P = IsFixed k po in
      Keeps-or_raise P o h _ _ _ (λ x read. Keeps-raise_if P o h _ _ _ (λ e. kept (
        save-IsFixed o.orders j x (record x { status = OrderStatus.closed_short }) h read
          (under_delivery_open x.status e) refl)))
  result-IsFixed o (cancels j reason actor now) h =
      let P = IsFixed k po in
      Keeps-or_raise P o h _ _ _ (λ x read. Keeps-raise_if P o h _ _ _ (λ e.
        Keeps-raise_if P o h _ _ _ (λ _. kept (
          save-IsFixed o.orders j x
            (record x { status = OrderStatus.cancelled; cancellation_reason = strip reason }) h read
            (early_open x.status e) refl))))
  result-IsFixed o (edits j supplier status notes price) h =
      let P = IsFixed k po in
      Keeps-or_raise P o h _ _ _ (λ x read. Keeps-raise_if P o h _ _ _ (λ e. kept (
        save-IsFixed o.orders j x (record x { supplier = supplier; status = status; notes = notes })
          h read e refl)))
  result-IsFixed o (converts q number supplier status notes by) h =
      Keeps-or_raise (IsFixed k po) o h _ _ _ (λ r _. kept (get-insert_last_old k _ po o.orders h))
  result-IsFixed o (creates number supplier status notes by lines selected) h =
      let x = new_purchase_order o number supplier status notes by none in
      let placed : Office = record o { orders = insert_last x o.orders } in
      kept (
        rw
          (
            add_requests-SameOrders (reverse o.warehouse.purchase_requests) selected
                (add_items lines placed x.pk) x.pk,
            add_items-SameOrders lines placed x.pk,
          )
          (get-insert_last_old k x po o.orders h))
  result-IsFixed o (reorders j number notes by) h =
      let P = IsFixed k po in
      Keeps-or_raise P o h _ _ _
        (λ x _. Keeps-raise_if P o h _ _ _ (λ _. kept (get-insert_last_old k _ po o.orders h)))
  result-IsFixed o (raises wo part technician) h = Keeps-bind (IsFixed k po) o h _ _ (λ w _. kept h)
  result-IsFixed o (decides report t actor now) h =
      Keeps-bind (IsFixed k po) o h _ _ (λ w _. kept h)
  result-IsFixed o (redecides report q actor now) h =
      Keeps-bind (IsFixed k po) o h _ _ (λ w _. kept h)
  result-IsFixed o (orders_missing report by note label) h =
      Keeps-bind (IsFixed k po) o h _ _ (λ w _. kept h)
  result-IsFixed o (backorders report by) h = Keeps-bind (IsFixed k po) o h _ _ (λ w _. kept h)

-- An order that is received, closed short or cancelled keeps its row through any history of calls on purchase
-- orders, requests and shortages: it is never received, edited, closed or cancelled again, under any number of reorders.
pub run-IsFixed :
    (k : ℕ) (po : PurchaseOrder) (o : Office) (cs : List OfficeCall)
    → is_locked po.status ≡ true
    → IsFixed k po o
    → IsFixed k po (run o cs)
unfolding run step
run-IsFixed k po o [] shut h = h
run-IsFixed k po o (c ∷ cs) shut h =
    run-IsFixed k po (step o c) cs shut
      (kept_after (IsFixed k po) o (result o c) (result-IsFixed k po shut o c h))
