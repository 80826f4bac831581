-- ===== src/Procurement/Books.antt =====
-- The books of a decision on a shortage balance, and it is made once.
use spare_part.Warehouse.Reconciled.{same-IsReconciled}
use spare_part.Procurement.Decided.{
  follow_line-SameDesk, returned, adjust_line-SameDesk, carry_out-SameDesk, same_desk,
  auto_create_pr-SameDesk, SameDesk,
}
use spare_part.Procurement.Requests.{auto_create_pr_for_shortage}
use spare_part.Base.Keeps.{
  Yields-ok, yields, Keeps-bind, Yields-raise_if, yields_of, Keeps-raise_if, kept, Yields-or_raise,
  Keeps-or_raise, Yields, Keeps,
}
use spare_part.Warehouse.Conserved.{IsReconciled}
use spare_part.Base.Result.{err, ok, Result}
use spare_part.Base.Rows.{get_own, get-insert_last, get-save_self, get-key, save, get}
use spare_part.Base.Text.{Text}
use spare_part.Blockers.Tables.{is_pending_review}
use spare_part.Base.Int.{eq_of_parts, ℤ}
use spare_part.Procurement.Decisions.{
  carry_out, follow_line, adjust_line, sync_request, decision_of, decided_total, is_valid_decision,
  reviewed_report, Review, Split, edit_shortage_decision, create_shortage_decision,
}
use spare_part.Base.{
  subst, List, if_branches, insert_last, arith, not, some, Option, ℕ, ◌≡◌, refl, Bool, true, false,
  sym,
}
use spare_part.Base.Shut.{raise_if, or_raise, ◌>>=◌, ◌>>◌}
use spare_part.Procurement.Receipt.{not_under_review, OfficeError}
use spare_part.Warehouse.Tables.{
  Warehouse, PartShortageDecision, PartShortageReport, shortage_report_row, shortage_decision_row,
}

module _ (part site : ℕ) (base : ℤ) where
  -- A call that goes on from `s` and changes neither the stock rows nor the movements.
  from_same :
      (w s : Warehouse) (r : Result OfficeError Warehouse)
      → Keeps (SameDesk s) s r
      → IsReconciled part site base w
      → IsReconciled part site base s
      → Keeps (IsReconciled part site base) w r
  from_same w s (ok v) (kept e) h k = kept (same-IsReconciled part site base s v (e.0, e.1) k)
  from_same w s (err x) (kept e) h k = kept h

  pub auto_create_pr-IsReconciled :
      (w : Warehouse) (report by : ℕ) (note label : Text)
      → IsReconciled part site base w
      → Keeps (IsReconciled part site base) w (auto_create_pr_for_shortage w report by note label)
  auto_create_pr-IsReconciled w report by note label h =
      from_same w w _ (auto_create_pr-SameDesk w w report by note label (same_desk w)) h h

  pub create_decision-IsReconciled :
      (w : Warehouse) (report : ℕ) (t : Review) (actor now : ℕ)
      → IsReconciled part site base w
      → Keeps (IsReconciled part site base) w (create_shortage_decision w report t actor now)
  unfolding create_shortage_decision
  create_decision-IsReconciled w report t actor now h =
      let P = IsReconciled part site base in
      let d = decision_of report t.is_approve t.split in
      Keeps-or_raise P w h _ _ _ (λ r _. Keeps-raise_if P w h _ _ _ (λ _.
        Keeps-raise_if P w h _ _ _ (λ _. Keeps-raise_if P w h _ _ _ (λ _.
          let saved : Warehouse = record w {
            shortage_decisions = insert_last d w.shortage_decisions;
            shortage_reports = save (reviewed_report r t.is_approve) w.shortage_reports;
          } in
          if_branches (Keeps P w) t.is_approve _ _
            (λ _. from_same w saved _ (carry_out-SameDesk saved d t actor now) h h)
            (λ _. kept h)))))

  pub edit_decision-IsReconciled :
      (w : Warehouse) (report : ℕ) (q : Split) (actor now : ℕ)
      → IsReconciled part site base w
      → Keeps (IsReconciled part site base) w (edit_shortage_decision w report q actor now)
  unfolding edit_shortage_decision
  edit_decision-IsReconciled w report q actor now h =
      let P = IsReconciled part site base in
      Keeps-or_raise P w h _ _ _ (λ r _. Keeps-raise_if P w h _ _ _ (λ _.
        Keeps-or_raise P w h _ _ _ (λ old _. Keeps-raise_if P w h _ _ _ (λ _.
          let d = decision_of report old.is_approve q in
          let saved : Warehouse = record w {
            shortage_decisions = save d w.shortage_decisions;
            purchase_requests =
                sync_request w.purchase_requests report old.approved_procurement_qty
                  d.approved_procurement_qty;
          } in
          let call = adjust_line saved r old.approved_issue_qty d.approved_issue_qty actor now in
          let adjusted =
            adjust_line-SameDesk saved r old.approved_issue_qty d.approved_issue_qty actor now in
          Keeps-bind P w h call _ (λ v e.
            let same =
              follow_line-SameDesk saved v report old.approved_issue_qty d.approved_issue_qty
                (returned (SameDesk saved) saved v call adjusted e) in
            kept (
              same-IsReconciled part site base saved
                (follow_line v report old.approved_issue_qty d.approved_issue_qty) (same.0, same.1)
                h))))))

-- The decision `d` on a report `r` as it stands in the tables.
abbrev pub IsDecided : ℕ → PartShortageReport → PartShortageDecision → Warehouse → Type 0
IsDecided report r d v =
    (get report v.shortage_reports ≡ some (reviewed_report r d.is_approve))
    × (get report v.shortage_decisions ≡ some d)
    × (decided_total d ≡ r.qty_requested)

valid_balances :
    (r : PartShortageReport) (d : PartShortageDecision)
    → not (is_valid_decision r d) ≡ false
    → decided_total d ≡ r.qty_requested
valid_balances r d e = eq_of_parts (decided_total d) r.qty_requested (ground (arith, e))

is_reviewed :
    (r : PartShortageReport) (b : Bool) → is_pending_review (reviewed_report r b).status ≡ false
is_reviewed r true = refl
is_reviewed r false = refl

same_report :
    (o : Option PartShortageReport) (a b : PartShortageReport) → o ≡ some a → o ≡ some b → a ≡ b
same_report o a b e f = ground arith

save_reviewed :
    (report : ℕ) (r : PartShortageReport) (b : Bool) (rows : List PartShortageReport)
    → get report rows ≡ some r
    → get report (save (reviewed_report r b) rows) ≡ some (reviewed_report r b)
save_reviewed report r b rows found =
    subst (λ k. get k (save (reviewed_report r b) rows) ≡ some (reviewed_report r b))
      (get-key report r rows found)
      (get-save_self (reviewed_report r b) r rows (get_own report r rows found))

-- The two tables as a decision leaves them, whatever follows.
create-IsDecided :
    (w : Warehouse) (report : ℕ) (r : PartShortageReport) (t : Review) (actor now : ℕ)
    → get report w.shortage_reports ≡ some r
    → Yields
        (IsDecided report r (decision_of report t.is_approve t.split))
        (create_shortage_decision w report t actor now)
unfolding create_shortage_decision
create-IsDecided w report r t actor now found =
    let d = decision_of report t.is_approve t.split in
    let Q = IsDecided report r d in
    Yields-or_raise Q _ _ _ (λ x read. Yields-raise_if Q _ _ _ (λ _.
      Yields-raise_if Q _ _ _ (λ fresh. Yields-raise_if Q _ _ _ (λ valid.
        let saved : Warehouse = record w {
          shortage_decisions = insert_last d w.shortage_decisions;
          shortage_reports = save (reviewed_report x t.is_approve) w.shortage_reports;
        } in
        let same = same_report (get report w.shortage_reports) x r read found in
        let here : Q saved = (
          rw same (save_reviewed report r t.is_approve w.shortage_reports found),
          ground (arith, fresh, get-insert_last report d w.shortage_decisions),
          valid_balances r d (rw (sym same) valid),
        ) in
        if_branches (Yields Q) t.is_approve _ _
          (λ _. yields (λ v e.
            let kept_tables =
              returned (SameDesk saved) saved v (carry_out saved d t actor now)
                (carry_out-SameDesk saved d t actor now) e in
            rw (kept_tables.2, kept_tables.3) here))
          (λ _. Yields-ok Q _ here)))))

-- A decision on a report that is created without an exception stands in the table with the quantities given, of
-- which the issue, the procurement and the rejection add up to the quantity requested, and the report is approved
-- or rejected as decided. Every later attempt to create a decision for the report is refused.
pub decide_once :
    (w v : Warehouse) (report : ℕ) (r : PartShortageReport) (t u : Review) (actor now by later : ℕ)
    → get report w.shortage_reports ≡ some r
    → create_shortage_decision w report t actor now ≡ ok v
    → IsDecided report r (decision_of report t.is_approve t.split) v
      × (create_shortage_decision v report u by later ≡ err not_under_review)
unfolding create_shortage_decision or_raise ◌>>=◌ raise_if ◌>>◌
decide_once w v report r t u actor now by later found e =
    let d = decision_of report t.is_approve t.split in
    let h =
      yields_of (IsDecided report r d) (create_shortage_decision w report t actor now) v
        (create-IsDecided w report r t actor now found) e in
    (h, rw (h.0, is_reviewed r t.is_approve) refl)
