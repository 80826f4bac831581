-- ===== src/Warehouse/Progress.antt =====
-- The issues, the new requests and the shortage reports move the part lines along their workflow, and so does
-- every history of calls.
use spare_part.Base.Keeps.{Keeps, kept, Keeps-raise_if, Keeps-or_raise, Keeps-bind}
use spare_part.Stock.Tables.{Inventory, SparePart}
use spare_part.Warehouse.Moves.{move_stock, Captions}
use spare_part.Blockers.Tables.{LineStatus}
use spare_part.Warehouse.Requests.{
  usable_at, emergency_order, auto_approved, requested_line, request_part_on_wo, settle_request,
  add_request, issue_emergency,
}
use spare_part.Warehouse.Direct.{
  is_active_line_for, issued_line, IssueOrder, issue_part_to_work_order, record_issue,
}
use spare_part.Base.{
  ℕ, ◌≡◌, refl, Bool, true, false, not, Option, none, some, arith, find_first, insert_last,
  if_branches, is_none,
}
use spare_part.Base.Int.{ℤ, leb_ℤ}
use spare_part.Base.Text.{Text}
use spare_part.Base.Rows.{
  get-next_pk, next_pk, get, save, get-save_self, get-insert_last, get-insert_last_old,
}
use spare_part.Base.Shut.{◌>>=◌}
use spare_part.Base.Result.{ok}
use spare_part.Stock.Depot.{line_row, PartIssueLine}
use spare_part.Warehouse.Tables.{shortage_report_row, Warehouse}
use spare_part.Warehouse.Keeps.{cost_line_ok, deduct_and_record_issue_ok}
use spare_part.Warehouse.Workflow.{
  follows, follows_refl, follows_trans, status_in, follows-insert_last,
}
use spare_part.Warehouse.Lines.{IsLater, save-IsLater, block_for_request-IsLater}

pub add_request_ok :
    (k : ℕ) (w : Warehouse) (l : PartIssueLine) (is_emergency : Bool) (technician : ℕ)
    (r : Warehouse × PartIssueLine)
    → l.pk ≡ next_pk w.lines
    → add_request w l is_emergency technician ≡ ok r
    → (get r.1.pk r.0.lines ≡ some r.1)
      × (r.1.status ≡ l.status)
      × (follows (status_in k w.lines) (status_in k r.0.lines) ≡ true)
unfolding add_request
add_request_ok k w l is_emergency technician r new e =
    let linked : PartIssueLine = record l {
      related_shortage_report = some (next_pk w.shortage_reports);
    } in
    let missing : get l.pk w.lines ≡ none = get-next_pk l.pk w.lines (omega (arith, new)) in
    ground (
      arith,
      get-insert_last l.pk l w.lines missing,
      get-insert_last l.pk linked w.lines missing,
      follows-insert_last k l w.lines,
      follows-insert_last k linked w.lines,
    )

record_issue-IsLater :
    (k : ℕ) (s : Option LineStatus) (w : Warehouse) (p : SparePart) (inv : Inventory)
    (o : IssueOrder) (note : Text) (now : ℕ)
    → IsLater k s w
    → IsLater k s (record_issue w p inv o note now)
unfolding record_issue move_stock
record_issue-IsLater k s w p inv o note now h =
    follows_trans s (status_in k w.lines) _ h (follows-insert_last k (issued_line w p o) w.lines)

issue_emergency-IsLater :
    (k : ℕ) (s : Option LineStatus) (w v : Warehouse) (l : PartIssueLine) (technician : ℕ)
    (t : Captions) (now : ℕ)
    → IsLater k s w
    → IsLater k s v
    → get l.pk v.lines ≡ some l
    → l.status ≡ LineStatus.pending
    → Keeps (IsLater k s) w (issue_emergency v l technician t now)
unfolding issue_emergency record_issue move_stock
issue_emergency-IsLater k s w v l technician t now h hv found pending =
    let P = IsLater k s in
    Keeps-or_raise P w h _ _ _ (λ p _. Keeps-bind P w h _ _ (λ r e. Keeps-bind P w h _ _ (λ u f.
      let m = auto_approved l p technician now in
      let saved : Warehouse = record v { lines = save m v.lines } in
      let (_, q, row, _, er) =
        deduct_and_record_issue_ok saved (emergency_order l p technician) v.default_site
          t.movement_note now r e in
      let (b, eu) = cost_line_ok r.0 u l.pk technician t.memo now f in
      let approved : IsLater k s saved =
        save-IsLater k s v.lines m l found (ground (arith, pending)) hv in
      let extra = issued_line saved q (emergency_order l p technician) in
      kept (
        rw (eu, er)
          (save-IsLater k s (insert_last extra saved.lines)
            (record m { status = LineStatus.issued }) m
            (get-insert_last_old l.pk extra m saved.lines (get-save_self m l v.lines found)) refl
            (record_issue-IsLater k s saved q row (emergency_order l p technician) t.movement_note
              now approved))))))

settle_request-IsLater :
    (k : ℕ) (s : Option LineStatus) (w v : Warehouse) (l : PartIssueLine)
    (is_emergency is_usable : Bool) (technician : ℕ) (note : Text) (t : Captions) (now : ℕ)
    → IsLater k s w
    → IsLater k s v
    → get l.pk v.lines ≡ some l
    → l.status ≡ LineStatus.pending
    → Keeps (IsLater k s) w (settle_request v l is_emergency is_usable technician note t now)
unfolding settle_request
settle_request-IsLater k s w v l false is_usable technician note t now h hv found pending =
    kept (block_for_request-IsLater k s v l technician note t.memo found hv)
settle_request-IsLater k s w v l true true technician note t now h hv found pending =
    issue_emergency-IsLater k s w v l technician t now h hv found pending
settle_request-IsLater k s w v l true false technician note t now h hv found pending =
    let flagged : PartIssueLine = record l { is_emergency_auto_approved = true } in
    kept (
      block_for_request-IsLater k s (record v { lines = save flagged v.lines }) flagged technician
        note t.memo (get-save_self flagged l v.lines found)
        (save-IsLater k s v.lines flagged l found (follows_refl (some l.status)) hv))

module _ (k : ℕ) (s : Option LineStatus) (w : Warehouse) (h : IsLater k s w) where
  pub request_part_on_wo-IsLater :
      (wo p : ℕ) (q : ℤ) (technician : ℕ) (note : Text) (t : Captions) (now : ℕ)
      → Keeps (IsLater k s) w (request_part_on_wo w wo p q technician note t now)
  unfolding request_part_on_wo
  request_part_on_wo-IsLater wo p q technician note t now =
      let P = IsLater k s in
      let l = requested_line w wo p q technician in
      Keeps-raise_if P w h _ _ _ (λ _. Keeps-or_raise P w h _ _ _ (λ order _.
        Keeps-raise_if P w h _ _ _ (λ _. Keeps-or_raise P w h _ _ _ (λ _ _.
          if_branches (Keeps P w) (not (is_none (find_first (is_active_line_for wo p) w.lines)))
            (ok w)
            (add_request w l order.is_emergency technician >>= λ r.
              settle_request r.0 r.1 order.is_emergency (leb_ℤ q (usable_at w p)) technician note t
                now)
            (λ _. kept h)
            (λ _. Keeps-bind P w h _ _ (λ r e.
              let (found, pending, later) =
                add_request_ok k w l order.is_emergency technician r refl e in
              settle_request-IsLater k s w r.0 r.1 _ _ technician note t now h
                (follows_trans s (status_in k w.lines) _ h later) found pending))))))

  pub issue_part_to_work_order-IsLater :
      (o : IssueOrder) (at : Option ℕ) (t : Captions) (now : ℕ)
      → Keeps (IsLater k s) w (issue_part_to_work_order w o at t now)
  unfolding issue_part_to_work_order
  issue_part_to_work_order-IsLater o at t now =
      let P = IsLater k s in
      Keeps-or_raise P w h _ _ _ (λ a _. Keeps-raise_if P w h _ _ _ (λ _.
        Keeps-or_raise P w h _ _ _ (λ _ _. Keeps-raise_if P w h _ _ _ (λ _.
          Keeps-raise_if P w h _ _ _ (λ _. Keeps-or_raise P w h _ _ _ (λ inv _.
            Keeps-raise_if P w h _ _ _ (λ _. Keeps-bind P w h _ _ (λ r e.
              Keeps-bind P w h _ _ (λ u f.
                let (_, p, row, _, er) =
                  deduct_and_record_issue_ok w _ (some a) t.movement_note now r e in
                let (b, eu) = cost_line_ok r.0 u r.1 o.issued_by t.memo now f in
                kept
                  (rw (eu, er) (record_issue-IsLater k s w p row _ t.movement_note now h)))))))))))
