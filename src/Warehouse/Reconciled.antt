-- ===== src/Warehouse/Reconciled.antt =====
-- The requests, the issues and the shortage reports keep the stock rows in step with the movements, and so
-- does every history of calls.
use spare_part.Base.Keeps.{Keeps, kept, kept_after, Keeps-raise_if, Keeps-or_raise, Keeps-bind}
use spare_part.Warehouse.Direct.{is_active_line_for, issue_movement}
use spare_part.Stock.Reservations.{is_stock_of}
use spare_part.Warehouse.Moves.{WarehouseError, Captions, move_stock}
use spare_part.Blockers.Service.{open_blocker}
use spare_part.Blockers.Tables.{is_closed_report, part_issue_line, Kind, ShortageStatus}
use spare_part.Warehouse.Requests.{
  usable_at, requested_line, emergency_order, auto_approved, request_part_on_wo, add_request,
  settle_request, issue_emergency, request_opening, block_for_request, allocate_and_recompute,
}
use spare_part.Warehouse.Issue.{
  take_for_line, after_issue, line_cost, execute_warehouse_issue, issue_line, count_report,
}
use spare_part.Warehouse.Shortage.{release_report, transition_shortage_status}
use spare_part.Base.{
  is_none, not, ◌&&◌, if_branches, ℕ, ◌≡◌, refl, Bool, true, false, [], Option, none, some, arith,
  find_first, Option-cases, inl, inr,
}
use spare_part.Base.Int.{leb_ℤ, pos, eqb_ℤ, ◌+ℤ◌, ℤ}
use spare_part.Base.Text.{Text}
use spare_part.Base.Rows.{get, save}
use spare_part.Base.Result.{Result-cases, ok}
use spare_part.Stock.Depot.{line_row, PartIssueLine}
use spare_part.Stock.Tables.{SparePart, inventory_row, Inventory}
use spare_part.Base.Shut.{◌>>=◌}
use spare_part.Warehouse.Tables.{shortage_report_row, Warehouse}
use spare_part.Warehouse.Stocktaking.{take-IsBooked}
use spare_part.Warehouse.Conserved.{record_issue-IsReconciled, IsReconciled}
use spare_part.Warehouse.Keeps.{deduct_and_record_issue_ok, cost_line_ok}

-- A state of the stock: two tables that most services leave alone.
abbrev pub SameStock : Warehouse → Warehouse → Type 0
SameStock w v = (v.inventories ≡ w.inventories) × (v.stock_movements ≡ w.stock_movements)

pub same-IsReconciled :
    (part site : ℕ) (base : ℤ) (w v : Warehouse)
    → SameStock w v
    → IsReconciled part site base w
    → IsReconciled part site base v
same-IsReconciled part site base w v (ei, em) h = rw (ei, em) h

pub allocate_and_recompute-SameStock :
    (w : Warehouse) (l : PartIssueLine) → SameStock w (allocate_and_recompute w l)
unfolding allocate_and_recompute
allocate_and_recompute-SameStock w l = ground arith

block_for_request-SameStock :
    (w : Warehouse) (l : PartIssueLine) (technician : ℕ) (note label : Text)
    → SameStock w (block_for_request w l technician note label)
unfolding block_for_request
block_for_request-SameStock w l technician note label =
    elim (Result-cases (
      open_blocker w.board l.work_order Kind.part (some (part_issue_line l.pk l.status))
        (request_opening technician note label))) [
          | inl (r, opened) ↦
              rw (opened, block_for_request)
                (allocate_and_recompute-SameStock (record w { board = r.0 }) l)
          | inr (e, failed) ↦ rw (failed, block_for_request) (refl, refl)
        ]

-- The tables that a shortage report leaves alone.
abbrev pub SameRows : Warehouse → Warehouse → Type 0
SameRows w v =
    (v.inventories ≡ w.inventories) × (v.stock_movements ≡ w.stock_movements) × (v.lines ≡ w.lines)

pub transition_shortage_status-SameRows :
    (w : Warehouse) (report : ℕ) (status : ShortageStatus) (actor : ℕ) (label : Text) (now : ℕ)
    → Keeps (SameRows w) w (transition_shortage_status w report status actor label now)
unfolding transition_shortage_status release_report
transition_shortage_status-SameRows w report status actor label now =
    let P = SameRows w in
    Keeps-or_raise P w (refl, refl, refl) _ _ _
      (λ r _. Keeps-raise_if P w (refl, refl, refl) _ _ _ (λ _. kept (ground arith)))

pub count_report-SameRows :
    (w : Warehouse) (report : Option ℕ) (is_first : Bool) (qty : ℤ) (actor : ℕ) (label : Text)
    (now : ℕ)
    → SameRows w (count_report w report is_first qty actor label now)
unfolding count_report
count_report-SameRows w none is_first qty actor label now = (refl, refl, refl)
count_report-SameRows w (some k) is_first qty actor label now =
    elim (Option-cases (get k w.shortage_reports)) [
      | inl missing ↦ rw (missing, count_report) (refl, refl, refl)
      | inr (r, found) ↦
          let counted : Warehouse = record w {
            shortage_reports =
                save (record r { qty_issued = r.qty_issued +ℤ qty }) w.shortage_reports;
          } in
          rw (found, count_report)
            (if_branches (SameRows w) (is_first && not (is_closed_report r.status)) _ _
              (λ _.
                kept_after (SameRows counted) counted
                  (transition_shortage_status counted k ShortageStatus.in_fulfillment actor label
                    now)
                  (transition_shortage_status-SameRows counted k ShortageStatus.in_fulfillment actor
                    label now))
              (λ _. (refl, refl, refl)))
    ]

pub take_for_line-IsReconciled :
    (part site : ℕ) (base : ℤ) (w : Warehouse) (l : PartIssueLine) (p : SparePart) (s : ℕ)
    (inv : Inventory) (qty : ℤ) (actor : ℕ) (note : Text) (now : ℕ)
    → find_first (is_stock_of l.part s) w.inventories ≡ some inv
    → IsReconciled part site base w
    → IsReconciled part site base (take_for_line w l p inv qty actor note now)
unfolding take_for_line move_stock
take_for_line-IsReconciled part site base w l p s inv qty actor note now found h =
    take-IsBooked part site base w (is_stock_of l.part s) inv
      (issue_movement w inv qty l.work_order actor [] (line_cost p (after_issue l p qty actor)) []
        note now)
      found refl refl refl h

-- The rows of an issue of a requested line.
pub issue_line-IsReconciled :
    (part site : ℕ) (base : ℤ) (w : Warehouse) (l : PartIssueLine) (p : SparePart) (s : ℕ)
    (inv : Inventory) (qty : ℤ) (actor : ℕ) (t : Captions) (now : ℕ)
    → find_first (is_stock_of l.part s) w.inventories ≡ some inv
    → IsReconciled part site base w
    → IsReconciled part site base (issue_line w l p inv qty actor t now)
unfolding issue_line
issue_line-IsReconciled part site base w l p s inv qty actor t now found h =
    let v = take_for_line w l p inv qty actor t.movement_note now in
    let e =
      count_report-SameRows v l.related_shortage_report (eqb_ℤ l.issued_qty (pos 0)) qty actor
        t.memo now in
    same-IsReconciled part site base v (issue_line w l p inv qty actor t now) (e.0, e.1)
      (take_for_line-IsReconciled part site base w l p s inv qty actor t.movement_note now found h)

pub execute_warehouse_issue-IsReconciled :
    (part site : ℕ) (base : ℤ) (w : Warehouse) (line : ℕ) (qty : ℤ) (actor : ℕ) (skip : Bool)
    (t : Captions) (now : ℕ)
    → IsReconciled part site base w
    → Keeps (IsReconciled part site base) w (execute_warehouse_issue w line qty actor skip t now)
unfolding execute_warehouse_issue
execute_warehouse_issue-IsReconciled part site base w line qty actor skip t now h =
    let P = IsReconciled part site base in
    Keeps-or_raise P w h _ _ _ (λ l _. Keeps-raise_if P w h _ _ _ (λ _.
      Keeps-raise_if P w h _ _ _ (λ _. Keeps-raise_if P w h _ _ _ (λ _.
        Keeps-or_raise P w h _ _ _ (λ s _. Keeps-or_raise P w h _ _ _ (λ inv found.
          Keeps-raise_if P w h _ _ _ (λ _. Keeps-raise_if P w h _ _ _ (λ _.
            Keeps-or_raise P w h _ _ _ (λ p _. Keeps-bind P w h _ _ (λ u f.
              let (b, eu) = cost_line_ok _ u l.pk actor t.memo now f in
              kept (
                rw eu (
                  issue_line-IsReconciled part site base w l p s inv qty actor t now found
                    h))))))))))))

add_request-SameStock :
    (w : Warehouse) (l : PartIssueLine) (is_emergency : Bool) (technician : ℕ)
    (r : Warehouse × PartIssueLine)
    → add_request w l is_emergency technician ≡ ok r
    → SameStock w r.0
unfolding add_request
add_request-SameStock w l is_emergency technician r e = ground arith

pub issue_emergency-IsReconciled :
    (part site : ℕ) (base : ℤ) (w v : Warehouse) (l : PartIssueLine) (technician : ℕ) (t : Captions)
    (now : ℕ)
    → IsReconciled part site base w
    → IsReconciled part site base v
    → Keeps (IsReconciled part site base) w (issue_emergency v l technician t now)
unfolding issue_emergency
issue_emergency-IsReconciled part site base w v l technician t now h k =
    let P = IsReconciled part site base in
    Keeps-or_raise P w h _ _ _ (λ p _. Keeps-bind P w h _ _ (λ r e. Keeps-bind P w h _ _ (λ u f.
      let (_, q, row, found, er) =
        deduct_and_record_issue_ok _ _ v.default_site t.movement_note now r e in
      let (b, eu) = cost_line_ok r.0 u l.pk technician t.memo now f in
      kept (
        rw (eu, er)
          (record_issue-IsReconciled part site base
            (record v { lines = save (auto_approved l p technician now) v.lines }) _ q row
            (emergency_order l p technician) t.movement_note now found k)))))

block_for_request-IsReconciled :
    (part site : ℕ) (base : ℤ) (w v : Warehouse) (l : PartIssueLine) (technician : ℕ)
    (note label : Text)
    → IsReconciled part site base v
    → Keeps {E = WarehouseError}
        (IsReconciled part site base)
        w
        (ok (block_for_request v l technician note label))
block_for_request-IsReconciled part site base w v l technician note label h = kept (
    same-IsReconciled part site base v (block_for_request v l technician note label)
      (block_for_request-SameStock v l technician note label) h)

pub settle_request-IsReconciled :
    (part site : ℕ) (base : ℤ) (w v : Warehouse) (l : PartIssueLine) (is_emergency is_usable : Bool)
    (technician : ℕ) (note : Text) (t : Captions) (now : ℕ)
    → IsReconciled part site base w
    → IsReconciled part site base v
    → Keeps
        (IsReconciled part site base)
        w
        (settle_request v l is_emergency is_usable technician note t now)
unfolding settle_request
settle_request-IsReconciled part site base w v l false is_usable technician note t now h k =
    block_for_request-IsReconciled part site base w v l technician note t.memo k
settle_request-IsReconciled part site base w v l true true technician note t now h k =
    issue_emergency-IsReconciled part site base w v l technician t now h k
settle_request-IsReconciled part site base w v l true false technician note t now h k =
    block_for_request-IsReconciled part site base w _ _ technician note t.memo k

pub request_part_on_wo-IsReconciled :
    (part site : ℕ) (base : ℤ) (w : Warehouse) (wo p : ℕ) (q : ℤ) (technician : ℕ) (note : Text)
    (t : Captions) (now : ℕ)
    → IsReconciled part site base w
    → Keeps (IsReconciled part site base) w (request_part_on_wo w wo p q technician note t now)
unfolding request_part_on_wo
request_part_on_wo-IsReconciled part site base w wo p q technician note t now h =
    let P = IsReconciled part site base in
    Keeps-raise_if P w h _ _ _ (λ _. Keeps-or_raise P w h _ _ _ (λ order _.
      Keeps-raise_if P w h _ _ _ (λ _. Keeps-or_raise P w h _ _ _ (λ _ _.
        if_branches (Keeps P w) (not (is_none (find_first (is_active_line_for wo p) w.lines)))
          (ok w)
          (add_request w (requested_line w wo p q technician) order.is_emergency technician >>= λ r.
            settle_request r.0 r.1 order.is_emergency (leb_ℤ q (usable_at w p)) technician note t
              now)
          (λ _. kept h)
          (λ _. Keeps-bind P w h _ _ (λ r e.
            settle_request-IsReconciled part site base w r.0 r.1 _ _ technician note t now h (
              same-IsReconciled part site base w r.0 (add_request-SameStock w _ _ technician r e)
                h)))))))
