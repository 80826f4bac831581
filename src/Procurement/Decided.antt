-- ===== src/Procurement/Decided.antt =====
-- A decision on a shortage balances, is made once, and takes nothing out of the stock.
use spare_part.Warehouse.Approval.{is_pending_line}
use spare_part.Stock.Reservations.{release_reservation}
use spare_part.Base.Keeps.{kept_after, Keeps-elim, kept, Keeps-bind, Keeps-or_raise, Keeps}
use spare_part.Base.Text.{Text}
use spare_part.Base.Result.{Result-cases, tables_or, ok, Result}
use spare_part.Base.Int.{eqb_ℤ, ◌-ℤ◌, pos, leb_ℤ, ltb_ℤ, ℤ}
use spare_part.Procurement.Requests.{
  is_request_for, request_for_shortage, auto_create_pr_for_shortage,
}
use spare_part.Procurement.Decisions.{
  newest_line, is_value_error, Review, commit_line, take_back, approve_linked, approve_related,
  follow_line, carry_out, adjust_line, commit_related,
}
use spare_part.Base.{
  ◌||◌, some, inr, inl, subst, if_branches, find_first, Option-cases, ℕ, ◌≡◌, refl, Bool, true,
}
use spare_part.Stock.Depot.{line_row}
use spare_part.Warehouse.Tables.{
  depot, PartShortageReport, PartShortageDecision, Warehouse, shortage_report_row,
  shortage_decision_row,
}

-- The warehouse `v` has the stock rows, the movements, the reports and the decisions of `w`.
abbrev pub SameDesk : Warehouse → Warehouse → Type 0
SameDesk w v =
    (v.inventories ≡ w.inventories)
    × (v.stock_movements ≡ w.stock_movements)
    × (v.shortage_reports ≡ w.shortage_reports)
    × (v.shortage_decisions ≡ w.shortage_decisions)

pub same_desk : (w : Warehouse) → SameDesk w w
same_desk w = (refl, refl, refl, refl)

-- From a warehouse `s` that a longer call has reached.
commit_related-SameDesk :
    (w : Warehouse) (report : ℕ) (is_due : Bool) (qty : ℤ)
    → Keeps (SameDesk w) w (commit_related w report is_due qty)
unfolding commit_related commit_line
commit_related-SameDesk w report is_due qty =
    let h = same_desk w in
    elim (Option-cases (newest_line w report)) [
      | inl loose ↦ rw (loose, commit_related) (kept h)
      | inr (l, found) ↦
          rw (found, commit_related)
            (if_branches (Keeps (SameDesk w) w) is_due _ _
              (λ _. Keeps-bind (SameDesk w) w h _ _ (λ d _. kept h)) (λ _. kept h))
    ]

pub auto_create_pr-SameDesk :
    (w s : Warehouse) (report by : ℕ) (note label : Text)
    → SameDesk w s
    → Keeps (SameDesk w) s (auto_create_pr_for_shortage s report by note label)
unfolding auto_create_pr_for_shortage request_for_shortage
auto_create_pr-SameDesk w s report by note label h =
    let P = SameDesk w in
    Keeps-or_raise P s h _ _ _ (λ r _. Keeps-or_raise P s h _ _ _ (λ d _.
      if_branches (Keeps P s) (leb_ℤ d.approved_procurement_qty (pos 0)) _ _ (λ _. kept h)
        (λ _.
          Keeps-elim P s h (find_first (is_request_for report) s.purchase_requests)
            (ok (request_for_shortage s r d.approved_procurement_qty by note label)) (λ q. ok s)
            (λ _. kept h) (λ q _. kept h))))

approve_related-SameDesk :
    (w s : Warehouse) (d : PartShortageDecision) (actor now : ℕ)
    → SameDesk w s
    → SameDesk w (approve_related s d actor now)
unfolding approve_related approve_linked
approve_related-SameDesk w s d actor now h = elim (Option-cases (newest_line s d.report)) [
  | inl loose ↦ rw (loose, approve_related) h
  | inr (l, found) ↦
      rw (found, approve_related)
        (if_branches (SameDesk w) (is_pending_line l.status) _ _ (λ _. h) (λ _. h))
]

-- What a call returns, out of what it keeps.
pub returned :
    {E : Type 0} (P : Warehouse → Type 0) (w v : Warehouse) (r : Result E Warehouse)
    → Keeps P w r
    → r ≡ ok v
    → P v
returned P w v r k e = subst (λ y. P (tables_or w y)) e (kept_after P w r k)

pub carry_out-SameDesk :
    (w : Warehouse) (d : PartShortageDecision) (t : Review) (actor now : ℕ)
    → Keeps (SameDesk w) w (carry_out w d t actor now)
unfolding carry_out
carry_out-SameDesk w d t actor now =
    let P = SameDesk w in
    let qty = d.approved_issue_qty in
    let committed = commit_related w d.report (ltb_ℤ (pos 0) qty) qty in
    Keeps-bind P w (same_desk w) committed _ (λ s e.
      let requested = auto_create_pr_for_shortage s d.report actor t.decision_note t.label in
      let h =
        returned P w s committed (commit_related-SameDesk w d.report (ltb_ℤ (pos 0) qty) qty) e in
      Keeps-bind P w (same_desk w) requested _ (λ v f. kept (
        approve_related-SameDesk w v d actor now (
          returned P s v requested
            (auto_create_pr-SameDesk w s d.report actor t.decision_note t.label h) f))))

pub adjust_line-SameDesk :
    (w : Warehouse) (r : PartShortageReport) (before after : ℤ) (actor now : ℕ)
    → Keeps (SameDesk w) w (adjust_line w r before after actor now)
unfolding adjust_line take_back
adjust_line-SameDesk w r before after actor now =
    let P = SameDesk w in
    if_branches (Keeps P w) (ltb_ℤ before after) _ _
      (λ _. commit_related-SameDesk w r.pk true after)
      (λ _.
        if_branches (Keeps P w) (ltb_ℤ after before) _ _
          (λ _.
            let call =
              release_reservation (depot w) r.part (before -ℤ after) (some r.work_order) actor
                now in
            elim (Result-cases call) [
              | inl (d, done) ↦ rw (done, take_back) (kept (same_desk w))
              | inr (e, failed) ↦
                  rw (failed, take_back)
                    (if_branches (Keeps P w) (is_value_error e) _ _ (λ _. kept (same_desk w))
                      (λ _. kept (same_desk w)))
            ])
          (λ _. kept (same_desk w)))

pub follow_line-SameDesk :
    (w s : Warehouse) (report : ℕ) (before after : ℤ)
    → SameDesk w s
    → SameDesk w (follow_line s report before after)
unfolding follow_line
follow_line-SameDesk w s report before after h = elim (Option-cases (newest_line s report)) [
  | inl loose ↦ rw (loose, follow_line) h
  | inr (l, found) ↦
      rw (found, follow_line)
        (if_branches (SameDesk w) (eqb_ℤ before after || eqb_ℤ l.approved_qty after) _ _ (λ _. h)
          (λ _. h))
]
