-- ===== src/Procurement/History.antt =====
-- Over every history of calls on purchase orders the stock rows stay in step with the movements.
use spare_part.Warehouse.Requests.{is_pending_report}
use spare_part.Procurement.Shortages.{is_pending_line_for, raise_shortage_request}
use spare_part.Procurement.Books.{
  auto_create_pr-IsReconciled, edit_decision-IsReconciled, create_decision-IsReconciled,
}
use spare_part.Procurement.Decisions.{edit_shortage_decision, create_shortage_decision}
use spare_part.Procurement.Delivered.{receive-IsStocked}
use spare_part.Base.Rows.{get, save}
use spare_part.Base.Keeps.{Keeps-bind, kept, Keeps-raise_if, Keeps-or_raise, Keeps, kept_after}
use spare_part.Procurement.Receipt.{requests_of, OfficeError}
use spare_part.Warehouse.Conserved.{IsReconciled}
use spare_part.Blockers.Sync.{po_cancelled, po_closed_short, SyncEvent}
use spare_part.Warehouse.Tables.{
  shortage_report_row, is_pending_status, RequestStatus, PurchaseRequest, Warehouse,
}
use spare_part.Base.Shut.{◌>>=◌}
use spare_part.Base.Result.{tables_or, ok, Result}
use spare_part.Procurement.Stocked.{IsStocked}
use spare_part.Procurement.Tables.{purchase_request_row, Office}
use spare_part.Procurement.Orders.{
  is_finished, is_left_short, purchase_order_edit, purchase_order_cancel,
  purchase_order_close_short, sync_shortage_blocker, change_requests,
}
use spare_part.Procurement.Creation.{
  new_purchase_order, reorder, purchase_order_create, purchase_order_create_from_pr, is_selected,
  add_request, add_requests, add_items,
}
use spare_part.Procurement.Requests.{create_pr_from_shortage, auto_create_pr_for_shortage}
use spare_part.Procurement.Steps.{
  raises, orders_missing, redecides, cancels, backorders, decides, reorders, creates, converts,
  edits, closes_short, receives, with_warehouse, OfficeCall, step, result, run,
}
use spare_part.Base.{
  find_first, reverse, insert_last, none, subst, if_branches, inr, inl, ◌&&◌, Option-cases, Bool,
  if◌then◌else◌, ℕ, List, [], ◌∷◌,
}
use spare_part.Base.Int.{ℤ}

module _ (part site : ℕ) (base : ℤ) where
  sync_shortage_blocker-IsReconciled :
      (w : Warehouse) (q : PurchaseRequest) (event : SyncEvent) (actor now : ℕ)
      → IsReconciled part site base w
      → IsReconciled part site base (sync_shortage_blocker w q event actor now)
  unfolding sync_shortage_blocker
  sync_shortage_blocker-IsReconciled w q event actor now h =
      elim (Option-cases q.source_shortage_report) [
        | inl loose ↦ rw (loose, sync_shortage_blocker) h
        | inr (k, bound) ↦ elim (Option-cases (get k w.shortage_reports)) [
          | inl missing ↦ rw (bound, missing, sync_shortage_blocker) h
          | inr (r, found) ↦ rw (bound, found, sync_shortage_blocker) h
        ]
      ]

  change_requests-IsReconciled :
      (qs : List PurchaseRequest) (is_left : RequestStatus → Bool) (status : RequestStatus)
      (event : SyncEvent) (w : Warehouse) (actor now : ℕ)
      → IsReconciled part site base w
      → IsReconciled part site base (change_requests qs is_left status event w actor now)
  unfolding change_requests
  change_requests-IsReconciled [] is_left status event w actor now h = h
  change_requests-IsReconciled (q ∷ qs) is_left status event w actor now h =
      let changed : Warehouse = record w {
        purchase_requests = save (record q { status = status }) w.purchase_requests;
      } in
      change_requests-IsReconciled qs is_left status event
        (if is_left q.status then w else sync_shortage_blocker changed q event actor now) actor now
        (if_branches (IsReconciled part site base) (is_left q.status) _ _ (λ _. h)
          (λ _. sync_shortage_blocker-IsReconciled changed q event actor now h))

  add_items-IsStocked :
      (ls : List (ℕ × ℤ × ℤ)) (o : Office) (order : ℕ)
      → IsStocked part site base o
      → IsStocked part site base (add_items ls o order)
  unfolding add_items
  add_items-IsStocked [] o order h = h
  add_items-IsStocked ((p, qty, price) ∷ ls) o order h = add_items-IsStocked ls _ order h

  add_requests-IsStocked :
      (qs : List PurchaseRequest) (selected : List ℕ) (o : Office) (order : ℕ)
      → IsStocked part site base o
      → IsStocked part site base (add_requests qs selected o order)
  unfolding add_requests add_request
  add_requests-IsStocked [] selected o order h = h
  add_requests-IsStocked (q ∷ qs) selected o order h =
      add_requests-IsStocked qs selected
        (if is_selected q.pk selected && is_pending_status q.status
          then add_request o order q
          else o)
        order
        (if_branches (IsStocked part site base)
          (is_selected q.pk selected && is_pending_status q.status) _ _ (λ _. h) (λ _. h))

  raise_shortage-IsReconciled :
      (w : Warehouse) (wo p technician : ℕ)
      → IsReconciled part site base w
      → Keeps (IsReconciled part site base) w (raise_shortage_request w wo p technician)
  unfolding raise_shortage_request
  raise_shortage-IsReconciled w wo p technician h =
      elim (Option-cases (find_first (is_pending_report wo p) w.shortage_reports)) [
        | inr (r, found) ↦ rw (found, raise_shortage_request) (kept h)
        | inl missing ↦
            elim (Option-cases (find_first (is_pending_line_for wo p) (reverse w.lines))) [
              | inr (l, linked) ↦ rw (missing, linked, raise_shortage_request) (kept h)
              | inl loose ↦ rw (missing, loose, raise_shortage_request) (kept h)
            ]
      ]

  create_pr-IsReconciled :
      (w : Warehouse) (report by : ℕ)
      → IsReconciled part site base w
      → Keeps (IsReconciled part site base) w (create_pr_from_shortage w report by)
  unfolding create_pr_from_shortage
  create_pr-IsReconciled w report by h =
      let P = IsReconciled part site base in
      Keeps-or_raise P w h _ _ _
        (λ r _. Keeps-raise_if P w h _ _ _ (λ _. Keeps-raise_if P w h _ _ _ (λ _. kept h)))

  -- A service of the warehouse that keeps it in step, called from the office.
  on_warehouse-IsStocked :
      (o : Office) (r : Result OfficeError Warehouse)
      → Keeps (IsReconciled part site base) o.warehouse r
      → IsStocked part site base o
      → Keeps (IsStocked part site base) o (r >>= λ w. ok (with_warehouse o w))
  on_warehouse-IsStocked o r k h = Keeps-bind (IsStocked part site base) o h r _ (λ v e. kept (
      subst (λ y. IsReconciled part site base (tables_or o.warehouse y)) e
        (kept_after (IsReconciled part site base) o.warehouse r k)))

  result-IsStocked :
      (o : Office) (c : OfficeCall)
      → IsStocked part site base o
      → Keeps (IsStocked part site base) o (result o c)
  unfolding result purchase_order_close_short purchase_order_cancel purchase_order_edit
      purchase_order_create_from_pr purchase_order_create reorder
  result-IsStocked o (receives k t actor now) h = receive-IsStocked part site base o k t actor now h
  result-IsStocked o (closes_short k actor now) h =
      let P = IsStocked part site base in
      Keeps-or_raise P o h _ _ _ (λ po _. Keeps-raise_if P o h _ _ _ (λ _. kept (
        change_requests-IsReconciled (requests_of po.pk o.warehouse.purchase_requests) is_left_short
          RequestStatus.partially_fulfilled po_closed_short o.warehouse actor now h)))
  result-IsStocked o (cancels k reason actor now) h =
      let P = IsStocked part site base in
      Keeps-or_raise P o h _ _ _ (λ po _. Keeps-raise_if P o h _ _ _ (λ _.
        Keeps-raise_if P o h _ _ _ (λ _. kept (
          change_requests-IsReconciled (requests_of po.pk o.warehouse.purchase_requests) is_finished
            RequestStatus.pending po_cancelled o.warehouse actor now h))))
  result-IsStocked o (edits k supplier status notes price) h =
      let P = IsStocked part site base in
      Keeps-or_raise P o h _ _ _ (λ po _. Keeps-raise_if P o h _ _ _ (λ _. kept h))
  result-IsStocked o (converts q number supplier status notes by) h =
      Keeps-or_raise (IsStocked part site base) o h _ _ _ (λ r _. kept h)
  result-IsStocked o (creates number supplier status notes by lines selected) h =
      let po = new_purchase_order o number supplier status notes by none in
      let placed : Office = record o { orders = insert_last po o.orders } in
      kept (
        add_requests-IsStocked (reverse o.warehouse.purchase_requests) selected
          (add_items lines placed po.pk) po.pk (add_items-IsStocked lines placed po.pk h))
  result-IsStocked o (reorders k number notes by) h =
      let P = IsStocked part site base in
      Keeps-or_raise P o h _ _ _ (λ po _. Keeps-raise_if P o h _ _ _ (λ _. kept h))
  result-IsStocked o (raises wo p technician) h =
      on_warehouse-IsStocked o (raise_shortage_request o.warehouse wo p technician)
        (raise_shortage-IsReconciled o.warehouse wo p technician h) h
  result-IsStocked o (decides report t actor now) h =
      on_warehouse-IsStocked o (create_shortage_decision o.warehouse report t actor now)
        (create_decision-IsReconciled part site base o.warehouse report t actor now h) h
  result-IsStocked o (redecides report q actor now) h =
      on_warehouse-IsStocked o (edit_shortage_decision o.warehouse report q actor now)
        (edit_decision-IsReconciled part site base o.warehouse report q actor now h) h
  result-IsStocked o (orders_missing report by note label) h =
      on_warehouse-IsStocked o (auto_create_pr_for_shortage o.warehouse report by note label)
        (auto_create_pr-IsReconciled part site base o.warehouse report by note label h) h
  result-IsStocked o (backorders report by) h =
      on_warehouse-IsStocked o (create_pr_from_shortage o.warehouse report by)
        (create_pr-IsReconciled o.warehouse report by h) h

-- For a part at a site, let the available quantity be an opening balance `base` and what the movements there
-- add up to, adjustments left out. After any history of calls on purchase orders, requests and shortages, with the issues
-- to work orders that a receipt sets off and the rollback of the calls that raise, it still is.
pub run-IsStocked :
    (part site : ℕ) (base : ℤ) (o : Office) (cs : List OfficeCall)
    → IsStocked part site base o
    → IsStocked part site base (run o cs)
unfolding run step
run-IsStocked part site base o [] h = h
run-IsStocked part site base o (c ∷ cs) h =
    run-IsStocked part site base (step o c) cs
      (kept_after (IsStocked part site base) o (result o c) (result-IsStocked part site base o c h))
