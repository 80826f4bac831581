-- ===== src/Procurement/Delivered.antt =====
-- What follows the lines of a receipt keeps the stock rows in step with the movements.
use spare_part.Blockers.Sync.{is_in_fulfillment, shortage_fulfilled, sync_from_external_event}
use spare_part.Blockers.Steps.{board_after}
use spare_part.Base.{
  ℕ, ◌≡◌, subst, List, [], ◌∷◌, none, some, ◌==◌, arith, Option-cases, inl, inr, if_branches,
  is_none,
}
use spare_part.Base.Int.{ℤ}
use spare_part.Base.Text.{Text}
use spare_part.Base.Rows.{get}
use spare_part.Base.Result.{Result, ok, err, tables_or}
use spare_part.Base.Keeps.{Keeps, kept, kept_after, Keeps-raise_if, Keeps-or_raise, Keeps-bind}
use spare_part.Blockers.Tables.{ShortageStatus}
use spare_part.Warehouse.Tables.{
  shortage_report_row, Warehouse, PurchaseRequest, PartShortageReport,
}
use spare_part.Warehouse.Moves.{WarehouseError, Captions}
use spare_part.Warehouse.Conserved.{IsReconciled}
use spare_part.Warehouse.Reconciled.{
  transition_shortage_status-SameRows, SameRows, same-IsReconciled,
}
use spare_part.Warehouse.Shortage.{transition_shortage_status}
use spare_part.Procurement.Tables.{PurchaseOrder, PurchaseOrderItem, Office}
use spare_part.Procurement.Fulfil.{
  fulfil_requests, fulfil_items, auto_fulfill_wo_lines_from_po, open_lines,
}
use spare_part.Procurement.Receipt.{
  of_warehouse, report_entity, fulfil_report, fulfil_reports, settle_receipt, Delivery,
  purchase_order_receive,
}
use spare_part.Procurement.Stocked.{IsStocked, receive_items-IsStocked, fulfil_lines-IsReconciled}

pub of_warehouse-eq-ok :
    {A : Type 0} (r : Result WarehouseError A) (v : A) → of_warehouse r ≡ ok v → r ≡ ok v
of_warehouse-eq-ok (ok a) v e = ground (arith, e)
of_warehouse-eq-ok (err x) v e = ground (arith, e)

module _ (part site : ℕ) (base : ℤ) where
  fulfil_requests-IsReconciled :
      (qs : List PurchaseRequest) (w : Warehouse) (i : PurchaseOrderItem) (actor : ℕ) (t : Captions)
      (label : Text) (now : ℕ)
      → IsReconciled part site base w
      → IsReconciled part site base (fulfil_requests qs w i actor t label now)
  unfolding fulfil_requests
  fulfil_requests-IsReconciled [] w i actor t label now h = h
  fulfil_requests-IsReconciled (q ∷ qs) w i actor t label now h = elim (Option-cases q.work_order) [
    | inl loose ↦
        rw (loose, fulfil_requests) (fulfil_requests-IsReconciled qs w i actor t label now h)
    | inr (wo, bound) ↦
        rw (bound, fulfil_requests)
          (fulfil_requests-IsReconciled qs _ i actor t label now (
            if_branches (IsReconciled part site base) (q.part == i.part) _ _
              (λ _.
                fulfil_lines-IsReconciled part site base (open_lines wo i.part w.lines) w
                  i.received_qty actor t label now h)
              (λ _. h)))
  ]

  fulfil_items-IsReconciled :
      (is : List PurchaseOrderItem) (qs : List PurchaseRequest) (w : Warehouse) (actor : ℕ)
      (t : Captions) (label : Text) (now : ℕ)
      → IsReconciled part site base w
      → IsReconciled part site base (fulfil_items is qs w actor t label now)
  unfolding fulfil_items
  fulfil_items-IsReconciled [] qs w actor t label now h = h
  fulfil_items-IsReconciled (i ∷ is) qs w actor t label now h =
      fulfil_items-IsReconciled is qs (fulfil_requests qs w i actor t label now) actor t label now
        (fulfil_requests-IsReconciled qs w i actor t label now h)

  fulfil_report-IsReconciled :
      (w : Warehouse) (r : PartShortageReport) (actor : ℕ) (label : Text) (now : ℕ)
      → IsReconciled part site base w
      → IsReconciled part site base (fulfil_report w r actor label now)
  unfolding fulfil_report
  fulfil_report-IsReconciled w r actor label now h =
      let told : Warehouse = record w {
        board = board_after w.board (
            sync_from_external_event w.board (some (report_entity w r)) shortage_fulfilled
              (some actor) (record { note = some label; reason = none }) now);
      } in
      let call = transition_shortage_status told r.pk ShortageStatus.fulfilled actor label now in
      if_branches (IsReconciled part site base) (is_in_fulfillment r.status) _ _
        (λ _.
          let e = kept_after (SameRows told) told call (
            transition_shortage_status-SameRows told r.pk ShortageStatus.fulfilled actor label
              now) in
          same-IsReconciled part site base told (tables_or told call) (e.0, e.1) h)
        (λ _. h)

  fulfil_reports-IsReconciled :
      (qs : List PurchaseRequest) (w : Warehouse) (actor : ℕ) (label : Text) (now : ℕ)
      → IsReconciled part site base w
      → IsReconciled part site base (fulfil_reports qs w actor label now)
  unfolding fulfil_reports
  fulfil_reports-IsReconciled [] w actor label now h = h
  fulfil_reports-IsReconciled (q ∷ qs) w actor label now h =
      elim (Option-cases q.source_shortage_report) [
        | inl loose ↦
            rw (loose, fulfil_reports) (fulfil_reports-IsReconciled qs w actor label now h)
        | inr (k, bound) ↦ elim (Option-cases (get k w.shortage_reports)) [
          | inl missing ↦
              rw (bound, missing, fulfil_reports)
                (fulfil_reports-IsReconciled qs w actor label now h)
          | inr (r, found) ↦
              rw (bound, found, fulfil_reports)
                (fulfil_reports-IsReconciled qs _ actor label now (
                  if_branches (IsReconciled part site base) (is_none q.work_order) _ _ (λ _. h)
                    (λ _. fulfil_report-IsReconciled w r actor label now h)))
        ]
      ]

  settle_receipt-IsStocked :
      (o : Office) (po : PurchaseOrder) (t : Delivery) (actor now : ℕ)
      → IsStocked part site base o
      → IsStocked part site base (settle_receipt o po t actor now)
  unfolding settle_receipt auto_fulfill_wo_lines_from_po
  settle_receipt-IsStocked o po t actor now h = fulfil_reports-IsReconciled _ _ actor t.label now (
      if_branches (IsReconciled part site base) t.is_auto_issue _ _
        (λ _. fulfil_items-IsReconciled _ _ _ actor t.captions t.label now h) (λ _. h))

  pub receive-IsStocked :
      (o : Office) (k : ℕ) (t : Delivery) (actor now : ℕ)
      → IsStocked part site base o
      → Keeps (IsStocked part site base) o (purchase_order_receive o k t actor now)
  unfolding purchase_order_receive
  receive-IsStocked o k t actor now h =
      let P = IsStocked part site base in
      Keeps-or_raise P o h _ _ _ (λ po _. Keeps-raise_if P o h _ _ _ (λ _.
        Keeps-or_raise P o h _ _ _ (λ s _. Keeps-bind P o h _ _ (λ v e. kept (
          settle_receipt-IsStocked v _ t actor now (
            subst (λ y. P (tables_or o y)) (of_warehouse-eq-ok _ v e)
              (kept_after P o _
                (receive_items-IsStocked part site base _ o o _ _ _ _ s actor now h h))))))))
