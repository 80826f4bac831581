-- ===== src/Warehouse/Once.antt =====
-- `execute_warehouse_issue` issues a line once.
use spare_part.Base.Keeps.{
  Yields, yields_of, Yields-raise_if, Yields-or_raise, Yields-bind, Yields-ok,
}
use spare_part.Warehouse.Reconciled.{count_report-SameRows}
use spare_part.Stock.Tables.{Inventory, SparePart}
use spare_part.Warehouse.Moves.{move_stock, cannot_issue, Captions}
use spare_part.Warehouse.Issue.{after_issue, take_for_line, execute_warehouse_issue, issue_line}
use spare_part.Base.{sym, subst, ℕ, ◌≡◌, refl, Bool, Option, some, arith}
use spare_part.Base.Int.{pos, eqb_ℤ, ℤ, ◌+ℤ◌}
use spare_part.Base.Rows.{get-key, get, get_own, get-save_self}
use spare_part.Base.Shut.{◌>>=◌, ◌>>◌, raise_if, or_raise}
use spare_part.Base.Result.{ok, err}
use spare_part.Stock.Depot.{line_row, PartIssueLine}
use spare_part.Blockers.Tables.{LineStatus}
use spare_part.Warehouse.Tables.{Warehouse}
use spare_part.Warehouse.Keeps.{cost_line_ok}

-- The line after an issue of `qty` units out of the state `l`.
abbrev pub IsIssued : ℕ → PartIssueLine → ℤ → Warehouse → Type 0
IsIssued line l qty v =
    (m : PartIssueLine) × (get line v.lines ≡ some m)
    × (m.status ≡ LineStatus.issued)
    × (m.issued_qty ≡ l.issued_qty +ℤ qty)
    × (m.approved_qty ≡ l.approved_qty)

issue_line-IsIssued :
    (w : Warehouse) (line : ℕ) (l : PartIssueLine) (p : SparePart) (inv : Inventory) (qty : ℤ)
    (actor : ℕ) (t : Captions) (now : ℕ)
    → get line w.lines ≡ some l
    → IsIssued line l qty (issue_line w l p inv qty actor t now)
unfolding issue_line take_for_line move_stock
issue_line-IsIssued w line l p inv qty actor t now found =
    let v = take_for_line w l p inv qty actor t.movement_note now in
    let e =
      count_report-SameRows v l.related_shortage_report (eqb_ℤ l.issued_qty (pos 0)) qty actor
        t.memo now in
    let m = after_issue l p qty actor in
    (
      m,
      rw (e.2, sym (get-key line l w.lines found))
          (get-save_self m l w.lines (get_own line l w.lines found)),
      refl,
      refl,
      refl,
    )

same_row : (o : Option PartIssueLine) (a b : PartIssueLine) → o ≡ some a → o ≡ some b → a ≡ b
same_row o a b e f = ground arith

issue-Yields :
    (w : Warehouse) (line : ℕ) (l : PartIssueLine) (qty : ℤ) (actor : ℕ) (skip : Bool)
    (t : Captions) (now : ℕ)
    → get line w.lines ≡ some l
    → Yields (IsIssued line l qty) (execute_warehouse_issue w line qty actor skip t now)
unfolding execute_warehouse_issue
issue-Yields w line l qty actor skip t now found =
    let Q = IsIssued line l qty in
    Yields-or_raise Q _ _ _ (λ j here. Yields-raise_if Q _ _ _ (λ _. Yields-raise_if Q _ _ _ (λ _.
      Yields-raise_if Q _ _ _ (λ _. Yields-or_raise Q _ _ _ (λ s _.
        Yields-or_raise Q _ _ _ (λ inv _. Yields-raise_if Q _ _ _ (λ _.
          Yields-raise_if Q _ _ _ (λ _. Yields-or_raise Q _ _ _ (λ p _. Yields-bind Q _ _ (λ u f.
            let (b, eu) = cost_line_ok _ u j.pk actor t.memo now f in
            Yields-ok Q _ (
              rw eu (
                subst (λ x. IsIssued line x qty (issue_line w j p inv qty actor t now))
                  (same_row (get line w.lines) j l here found)
                  (issue_line-IsIssued w line j p inv qty actor t now here)))))))))))))

refuses_issued :
    (v : Warehouse) (line : ℕ) (m : PartIssueLine) (qty : ℤ) (actor : ℕ) (skip : Bool)
    (t : Captions) (now : ℕ)
    → get line v.lines ≡ some m
    → m.status ≡ LineStatus.issued
    → execute_warehouse_issue v line qty actor skip t now ≡ err cannot_issue
unfolding execute_warehouse_issue or_raise raise_if ◌>>=◌ ◌>>◌
refuses_issued v line m qty actor skip t now found done = ground arith

-- An issue of `qty` units of a line that succeeds leaves the line in the state issued, with `qty` more
-- units issued and the approved quantity as it was, even if that is more than was issued; and every
-- later issue of the line, whatever its quantity and its other arguments, raises `cannot_issue`.
pub issue_once :
    (w v : Warehouse) (line : ℕ) (l : PartIssueLine) (qty : ℤ) (actor : ℕ) (skip : Bool)
    (t : Captions) (now : ℕ)
    → get line w.lines ≡ some l
    → execute_warehouse_issue w line qty actor skip t now ≡ ok v
    → IsIssued line l qty v
      × ((more : ℤ) (other : ℕ) (any : Bool) (u : Captions) (later : ℕ)
          → execute_warehouse_issue v line more other any u later ≡ err cannot_issue)
issue_once w v line l qty actor skip t now found done =
    let issued =
      yields_of (IsIssued line l qty) _ v (issue-Yields w line l qty actor skip t now found) done in
    (
      issued,
      λ more other any u later.
          refuses_issued v line issued.0 more other any u later issued.1 issued.2,
    )
