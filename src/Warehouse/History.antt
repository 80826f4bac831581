-- ===== src/Warehouse/History.antt =====
-- Over every history of calls the stock rows stay in step with the movements.
use spare_part.Warehouse.Moves.{WarehouseError}
use spare_part.Base.Keeps.{Keeps, kept, kept_after, Keeps-raise_if, Keeps-or_raise}
use spare_part.Warehouse.Requests.{allocate_and_recompute}
use spare_part.Warehouse.Reconciled.{
  execute_warehouse_issue-IsReconciled, request_part_on_wo-IsReconciled,
  allocate_and_recompute-SameStock, transition_shortage_status-SameRows, SameRows,
  same-IsReconciled,
}
use spare_part.Blockers.Tables.{ShortageStatus}
use spare_part.Warehouse.Shortage.{transition_shortage_status, mark_shortage_fulfilled}
use spare_part.Warehouse.Approval.{
  allocated_object, approval_saved, refresh_cost, is_approved_line, note_approval,
  edit_part_request_qty, emergency_review_part_line, approved_by_manager, approve_part_request,
  cancel_approved_part_request, reject_part_request,
}
use spare_part.Base.{ℕ, Bool, List, [], ◌∷◌, Option, if_branches}
use spare_part.Base.Int.{ℤ}
use spare_part.Base.Text.{Text}
use spare_part.Base.Rows.{save}
use spare_part.Base.Result.{Result, tables_or, ok}
use spare_part.Stock.Depot.{PartIssueLine, ReviewDecision, line_row}
use spare_part.Warehouse.Tables.{Warehouse}
use spare_part.Warehouse.Conserved.{
  issue_part_to_work_order-IsReconciled, issue_consumable-IsReconciled, consumable_use-IsReconciled,
  stock_in-IsReconciled, IsReconciled,
}
use spare_part.Warehouse.Steps.{
  on_line, fulfils, transitions, issues, reviews, edits, cancels, rejects, approves, requests,
  issues_directly, hands_out, uses, receives, WarehouseCall, result, step, run,
}

module _ (part site : ℕ) (base : ℤ) (w : Warehouse) (h : IsReconciled part site base w) where
  approve_part_request-IsReconciled :
      (l : PartIssueLine) (manager : ℕ) (auto : Bool) (now : ℕ)
      → Keeps (IsReconciled part site base) w (approve_part_request w l manager auto now)
  unfolding approve_part_request
  approve_part_request-IsReconciled l manager auto now =
      let P = IsReconciled part site base in
      Keeps-raise_if P w h _ _ _ (λ _. Keeps-raise_if P w h _ _ _ (λ _.
        Keeps-or_raise P w h _ _ _ (λ row _. Keeps-raise_if P w h _ _ _ (λ _.
          let m = approved_by_manager l manager auto now in
          let saved : Warehouse = record w {
            lines = save (approval_saved row m) w.lines;
            board = note_approval w.board m manager;
          } in
          if_branches (Keeps P w) (is_approved_line l.status) (ok w)
            (ok (refresh_cost (allocated_object saved (approval_saved row m) m) l.work_order))
            (λ _. kept h)
            (λ _. kept (
              same-IsReconciled part site base saved (allocate_and_recompute saved m)
                (allocate_and_recompute-SameStock saved m) h))))))

  reject_part_request-IsReconciled :
      (l : PartIssueLine) (manager : ℕ) (reason : Text) (now : ℕ)
      → Keeps (IsReconciled part site base) w (reject_part_request w l manager reason now)
  unfolding reject_part_request
  reject_part_request-IsReconciled l manager reason now =
      let P = IsReconciled part site base in
      Keeps-raise_if P w h _ _ _
        (λ _. Keeps-raise_if P w h _ _ _ (λ _. Keeps-or_raise P w h _ _ _ (λ _ _. kept h)))

  cancel_approved_part_request-IsReconciled :
      (l : PartIssueLine) (manager : ℕ) (reason : Text) (now : ℕ)
      → Keeps (IsReconciled part site base) w (cancel_approved_part_request w l manager reason now)
  unfolding cancel_approved_part_request
  cancel_approved_part_request-IsReconciled l manager reason now =
      let P = IsReconciled part site base in
      Keeps-raise_if P w h _ _ _ (λ _.
        Keeps-raise_if P w h _ _ _
          (λ _. Keeps-raise_if P w h _ _ _ (λ _. Keeps-or_raise P w h _ _ _ (λ _ _. kept h))))

  edit_part_request_qty-IsReconciled :
      (l : PartIssueLine) (q : ℤ)
      → Keeps (IsReconciled part site base) w (edit_part_request_qty w l q)
  unfolding edit_part_request_qty
  edit_part_request_qty-IsReconciled l q =
      let P = IsReconciled part site base in
      Keeps-raise_if P w h _ _ _
        (λ _. Keeps-raise_if P w h _ _ _ (λ _. Keeps-or_raise P w h _ _ _ (λ _ _. kept h)))

  emergency_review_part_line-IsReconciled :
      (l : PartIssueLine) (manager : ℕ) (decision : Option ReviewDecision) (note : Text) (now : ℕ)
      → Keeps
          (IsReconciled part site base)
          w
          (emergency_review_part_line w l manager decision note now)
  unfolding emergency_review_part_line
  emergency_review_part_line-IsReconciled l manager decision note now =
      let P = IsReconciled part site base in
      Keeps-or_raise P w h _ _ _ (λ _ _.
        Keeps-raise_if P w h _ _ _
          (λ _. Keeps-raise_if P w h _ _ _ (λ _. Keeps-or_raise P w h _ _ _ (λ _ _. kept h))))

  on_line-IsReconciled :
      (line : ℕ) (call : PartIssueLine → Result WarehouseError Warehouse)
      → ((l : PartIssueLine) → Keeps (IsReconciled part site base) w (call l))
      → Keeps (IsReconciled part site base) w (on_line w line call)
  on_line-IsReconciled line call f =
      Keeps-or_raise (IsReconciled part site base) w h _ _ _ (λ l _. f l)

  transition_shortage_status-IsReconciled :
      (report : ℕ) (status : ShortageStatus) (actor : ℕ) (label : Text) (now : ℕ)
      → Keeps
          (IsReconciled part site base)
          w
          (transition_shortage_status w report status actor label now)
  transition_shortage_status-IsReconciled report status actor label now =
      let v = tables_or w (transition_shortage_status w report status actor label now) in
      let e =
        kept_after (SameRows w) w _
          (transition_shortage_status-SameRows w report status actor label now) in
      kept (same-IsReconciled part site base w v (e.0, e.1) h)

  pub mark_shortage_fulfilled-IsReconciled :
      (report actor : ℕ) (label : Text) (now : ℕ)
      → Keeps (IsReconciled part site base) w (mark_shortage_fulfilled w report actor label now)
  unfolding mark_shortage_fulfilled
  mark_shortage_fulfilled-IsReconciled report actor label now =
      Keeps-or_raise (IsReconciled part site base) w h _ _ _ (λ _ _.
        Keeps-raise_if (IsReconciled part site base) w h _ _ _ (λ _.
          Keeps-or_raise (IsReconciled part site base) w h _ _ _ (λ _ _.
            Keeps-raise_if (IsReconciled part site base) w h _ _ _ (λ _.
              Keeps-raise_if (IsReconciled part site base) w h _ _ _ (λ _.
                transition_shortage_status-IsReconciled report ShortageStatus.fulfilled actor label
                  now)))))

  result-IsReconciled : (c : WarehouseCall) → Keeps (IsReconciled part site base) w (result w c)
  unfolding result
  result-IsReconciled (receives p q by s name cost invoice note at now) =
      stock_in-IsReconciled part site base w p q by s name cost invoice note at now h
  result-IsReconciled (uses p q by note machine at t now) =
      consumable_use-IsReconciled part site base w p q by note machine at t now h
  result-IsReconciled (hands_out p q to by note machine at t now) =
      issue_consumable-IsReconciled part site base w p q to by note machine at t now h
  result-IsReconciled (issues_directly o at t now) =
      issue_part_to_work_order-IsReconciled part site base w o at t now h
  result-IsReconciled (requests wo p q by note t now) =
      request_part_on_wo-IsReconciled part site base w wo p q by note t now h
  result-IsReconciled (approves line by auto now) =
      on_line-IsReconciled line _ (λ l. approve_part_request-IsReconciled l by auto now)
  result-IsReconciled (rejects line by reason now) =
      on_line-IsReconciled line _ (λ l. reject_part_request-IsReconciled l by reason now)
  result-IsReconciled (cancels line by reason now) =
      on_line-IsReconciled line _ (λ l. cancel_approved_part_request-IsReconciled l by reason now)
  result-IsReconciled (edits line q) =
      on_line-IsReconciled line _ (λ l. edit_part_request_qty-IsReconciled l q)
  result-IsReconciled (reviews line by decision note now) =
      on_line-IsReconciled line _
        (λ l. emergency_review_part_line-IsReconciled l by decision note now)
  result-IsReconciled (issues line q by skip t now) =
      execute_warehouse_issue-IsReconciled part site base w line q by skip t now h
  result-IsReconciled (transitions report status by label now) =
      transition_shortage_status-IsReconciled report status by label now
  result-IsReconciled (fulfils report by label now) =
      mark_shortage_fulfilled-IsReconciled report by label now

-- Over any history of calls of the warehouse's services, the requests and the shortage reports included,
-- the stock rows of a part at a site add up to what they did at the start (`base`) plus the received and
-- minus the issued quantities of the stock movements since, and no key of a stock row comes twice, where
-- that held before.
pub run-IsReconciled :
    (part site : ℕ) (base : ℤ) (w : Warehouse) (cs : List WarehouseCall)
    → IsReconciled part site base w
    → IsReconciled part site base (run w cs)
unfolding run step
run-IsReconciled part site base w [] h = h
run-IsReconciled part site base w (c ∷ cs) h = run-IsReconciled part site base (step w c) cs (
    kept_after (IsReconciled part site base) w (result w c)
      (result-IsReconciled part site base w h c))
