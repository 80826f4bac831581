-- ===== src/Warehouse/Followed.antt =====
-- Over every history of calls each part line follows its workflow.
use spare_part.Base.Keeps.{Keeps, kept, kept_after, Keeps-raise_if, Keeps-or_raise, Keeps-bind}
use spare_part.Warehouse.Progress.{request_part_on_wo-IsLater, issue_part_to_work_order-IsLater}
use spare_part.Stock.Reservations.{is_open_line}
use spare_part.Warehouse.Reconciled.{
  transition_shortage_status-SameRows, count_report-SameRows, SameRows,
}
use spare_part.Ledger.Service.{post_consumable}
use spare_part.Warehouse.Issue.{after_issue, take_for_line, execute_warehouse_issue, issue_line}
use spare_part.Warehouse.Moves.{
  WarehouseError, Supplier, Captions, move_stock, of_ledger, issue_consumable, stock_in,
  cost_consumable, hand_out, consumable_use,
}
use spare_part.Warehouse.Shortage.{transition_shortage_status, mark_shortage_fulfilled}
use spare_part.Blockers.Tables.{ShortageStatus, LineStatus}
use spare_part.Base.{ℕ, ◌≡◌, refl, Bool, true, List, [], ◌∷◌, Option, some, arith}
use spare_part.Base.Int.{pos, eqb_ℤ, ℤ}
use spare_part.Base.Text.{Text}
use spare_part.Base.Rows.{get, get_own}
use spare_part.Base.Result.{Result, ok}
use spare_part.Stock.Depot.{line_row, PartIssueLine}
use spare_part.Stock.Tables.{Inventory, StockMovement, SparePart}
use spare_part.Warehouse.Tables.{with_books, books, ConsumableAssignment, Warehouse}
use spare_part.Warehouse.Keeps.{cost_line_ok}
use spare_part.Warehouse.Workflow.{follows, follows_refl, status_in}
use spare_part.Warehouse.Lines.{
  emergency_review_part_line-IsLater, edit_part_request_qty-IsLater,
  cancel_approved_part_request-IsLater, reject_part_request-IsLater, approve_part_request-IsLater,
  IsLater, save-IsLater,
}
use spare_part.Warehouse.Steps.{
  on_line, fulfils, transitions, issues, reviews, edits, cancels, rejects, approves, requests,
  issues_directly, hands_out, uses, receives, WarehouseCall, result, step, run,
}

module _ (k : ℕ) (s : Option LineStatus) (w : Warehouse) (h : IsLater k s w) where
  take_for_line-IsLater :
      (l : PartIssueLine) (p : SparePart) (inv : Inventory) (qty : ℤ) (actor : ℕ) (t : Captions)
      (now : ℕ)
      → get l.pk w.lines ≡ some l
      → is_open_line l.status ≡ true
      → IsLater k s (issue_line w l p inv qty actor t now)
  unfolding issue_line take_for_line move_stock
  take_for_line-IsLater l p inv qty actor t now found is_open =
      let v = take_for_line w l p inv qty actor t.movement_note now in
      let e =
        count_report-SameRows v l.related_shortage_report (eqb_ℤ l.issued_qty (pos 0)) qty actor
          t.memo now in
      rw e.2
        (save-IsLater k s w.lines (after_issue l p qty actor) l found (ground (arith, is_open)) h)

  execute_warehouse_issue-IsLater :
      (line : ℕ) (qty : ℤ) (actor : ℕ) (skip : Bool) (t : Captions) (now : ℕ)
      → Keeps (IsLater k s) w (execute_warehouse_issue w line qty actor skip t now)
  unfolding execute_warehouse_issue
  execute_warehouse_issue-IsLater line qty actor skip t now =
      let P = IsLater k s in
      Keeps-or_raise P w h _ _ _ (λ l found. Keeps-raise_if P w h _ _ _ (λ is_open.
        Keeps-raise_if P w h _ _ _ (λ _. Keeps-raise_if P w h _ _ _ (λ _.
          Keeps-or_raise P w h _ _ _ (λ a _. Keeps-or_raise P w h _ _ _ (λ inv _.
            Keeps-raise_if P w h _ _ _ (λ _. Keeps-raise_if P w h _ _ _ (λ _.
              Keeps-or_raise P w h _ _ _ (λ p _. Keeps-bind P w h _ _ (λ u f.
                let (b, eu) = cost_line_ok _ u l.pk actor t.memo now f in
                kept (
                  rw eu (
                    take_for_line-IsLater l p inv qty actor t now (get_own line l w.lines found)
                      (ground (arith, is_open))))))))))))))

  cost_consumable-IsLater :
      (v : Warehouse) (movement actor : ℕ) (memo : Text) (now : ℕ)
      → v.lines ≡ w.lines
      → Keeps (IsLater k s) w (cost_consumable v movement actor memo now)
  unfolding cost_consumable
  cost_consumable-IsLater v movement actor memo now same =
      Keeps-bind (IsLater k s) w h (of_ledger (post_consumable (books v) movement actor memo now))
        (λ x. ok (with_books v x.0)) (λ _ _. kept (rw same h))

  hand_out-IsLater :
      (inv : Inventory) (m : StockMovement) (a : ConsumableAssignment) (movement actor : ℕ)
      (memo : Text) (now : ℕ)
      → Keeps (IsLater k s) w (cost_consumable (hand_out w inv m a) movement actor memo now)
  unfolding hand_out move_stock
  hand_out-IsLater inv m a movement actor memo now =
      cost_consumable-IsLater (hand_out w inv m a) movement actor memo now refl

  consumable_use-IsLater :
      (p : ℕ) (q : ℤ) (by : ℕ) (note : Text) (machine at : Option ℕ) (t : Captions) (now : ℕ)
      → Keeps (IsLater k s) w (consumable_use w p q by note machine at t now)
  unfolding consumable_use
  consumable_use-IsLater p q by note machine at t now =
      let P = IsLater k s in
      Keeps-or_raise P w h _ _ _ (λ _ _. Keeps-raise_if P w h _ _ _ (λ _.
        Keeps-raise_if P w h _ _ _ (λ _. Keeps-raise_if P w h _ _ _ (λ _.
          Keeps-or_raise P w h _ _ _ (λ _ _. Keeps-raise_if P w h _ _ _ (λ _.
            Keeps-or_raise P w h _ _ _
              (λ inv _. Keeps-raise_if P w h _ _ _ (λ _. hand_out-IsLater inv _ _ _ _ _ _))))))))

  issue_consumable-IsLater :
      (p : ℕ) (q : ℤ) (to by : ℕ) (note : Text) (machine at : Option ℕ) (t : Captions) (now : ℕ)
      → Keeps (IsLater k s) w (issue_consumable w p q to by note machine at t now)
  unfolding issue_consumable
  issue_consumable-IsLater p q to by note machine at t now =
      let P = IsLater k s in
      Keeps-or_raise P w h _ _ _ (λ _ _. Keeps-raise_if P w h _ _ _ (λ _.
        Keeps-raise_if P w h _ _ _ (λ _. Keeps-or_raise P w h _ _ _ (λ _ _.
          Keeps-or_raise P w h _ _ _
            (λ inv _. Keeps-raise_if P w h _ _ _ (λ _. hand_out-IsLater inv _ _ _ _ _ _))))))

  stock_in-IsLater :
      (p : ℕ) (q : ℤ) (by : ℕ) (supplier : Option Supplier) (name : Text) (cost : Option ℤ)
      (invoice note : Text) (at : Option ℕ) (now : ℕ)
      → Keeps (IsLater k s) w (stock_in w p q by supplier name cost invoice note at now)
  unfolding stock_in move_stock
  stock_in-IsLater p q by supplier name cost invoice note at now =
      let P = IsLater k s in
      Keeps-or_raise P w h _ _ _
        (λ _ _. Keeps-or_raise P w h _ _ _ (λ _ _. Keeps-raise_if P w h _ _ _ (λ _. kept h)))

  transition_shortage_status-IsLater :
      (report : ℕ) (status : ShortageStatus) (actor : ℕ) (label : Text) (now : ℕ)
      → Keeps (IsLater k s) w (transition_shortage_status w report status actor label now)
  transition_shortage_status-IsLater report status actor label now =
      let e =
        kept_after (SameRows w) w _
          (transition_shortage_status-SameRows w report status actor label now) in
      kept (rw e.2 h)

  mark_shortage_fulfilled-IsLater :
      (report actor : ℕ) (label : Text) (now : ℕ)
      → Keeps (IsLater k s) w (mark_shortage_fulfilled w report actor label now)
  unfolding mark_shortage_fulfilled
  mark_shortage_fulfilled-IsLater report actor label now =
      let P = IsLater k s in
      Keeps-or_raise P w h _ _ _ (λ _ _. Keeps-raise_if P w h _ _ _ (λ _.
        Keeps-or_raise P w h _ _ _ (λ _ _. Keeps-raise_if P w h _ _ _ (λ _.
          Keeps-raise_if P w h _ _ _ (λ _.
            transition_shortage_status-IsLater report ShortageStatus.fulfilled actor label now)))))

  on_line-IsLater :
      (line : ℕ) (call : PartIssueLine → Result WarehouseError Warehouse)
      → ((l : PartIssueLine) → get l.pk w.lines ≡ some l → Keeps (IsLater k s) w (call l))
      → Keeps (IsLater k s) w (on_line w line call)
  on_line-IsLater line call f =
      Keeps-or_raise (IsLater k s) w h _ _ _ (λ l found. f l (get_own line l w.lines found))

  result-IsLater : (c : WarehouseCall) → Keeps (IsLater k s) w (result w c)
  unfolding result
  result-IsLater (receives p q by a name cost invoice note at now) =
      stock_in-IsLater p q by a name cost invoice note at now
  result-IsLater (uses p q by note machine at t now) =
      consumable_use-IsLater p q by note machine at t now
  result-IsLater (hands_out p q to by note machine at t now) =
      issue_consumable-IsLater p q to by note machine at t now
  result-IsLater (issues_directly o at t now) = issue_part_to_work_order-IsLater k s w h o at t now
  result-IsLater (requests wo p q by note t now) =
      request_part_on_wo-IsLater k s w h wo p q by note t now
  result-IsLater (approves line by auto now) =
      on_line-IsLater line _ (λ l here. approve_part_request-IsLater k s w h l here by auto now)
  result-IsLater (rejects line by reason now) =
      on_line-IsLater line _ (λ l here. reject_part_request-IsLater k s w h l here by reason now)
  result-IsLater (cancels line by reason now) =
      on_line-IsLater line _
        (λ l here. cancel_approved_part_request-IsLater k s w h l here by reason now)
  result-IsLater (edits line q) =
      on_line-IsLater line _ (λ l here. edit_part_request_qty-IsLater k s w h l here q)
  result-IsLater (reviews line by decision note now) =
      on_line-IsLater line _
        (λ l here. emergency_review_part_line-IsLater k s w h l here by decision note now)
  result-IsLater (issues line q by skip t now) =
      execute_warehouse_issue-IsLater line q by skip t now
  result-IsLater (transitions report status by label now) =
      transition_shortage_status-IsLater report status by label now
  result-IsLater (fulfils report by label now) = mark_shortage_fulfilled-IsLater report by label now

run-IsLater :
    (k : ℕ) (s : Option LineStatus) (w : Warehouse) (cs : List WarehouseCall)
    → IsLater k s w
    → IsLater k s (run w cs)
unfolding run step
run-IsLater k s w [] h = h
run-IsLater k s w (c ∷ cs) h =
    run-IsLater k s (step w c) cs
      (kept_after (IsLater k s) w (result w c) (result-IsLater k s w h c))

-- Over any history of calls of the warehouse's services a part line only moves along the workflow pending,
-- approved, allocated, then issued or rejected, with steps left out but none undone; a line may be created in
-- any state, and none disappears. So an issued line stays issued and a rejected line rejected. A
-- decision on a request has the line as it stands: no other call comes between its read and the decision.
pub run-follows :
    (k : ℕ) (w : Warehouse) (cs : List WarehouseCall)
    → follows (status_in k w.lines) (status_in k (run w cs).lines) ≡ true
run-follows k w cs = run-IsLater k (status_in k w.lines) w cs (follows_refl (status_in k w.lines))
