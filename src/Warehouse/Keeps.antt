-- ===== src/Warehouse/Keeps.antt =====
-- What the two calls that the issues share did, if they returned.
use spare_part.Base.Keeps.{Yields-ok, Yields-raise_if, Yields-or_raise, yields_of}
use spare_part.Stock.Depot.{line_row}
use spare_part.Base.Rows.{next_pk}
use spare_part.Stock.Reservations.{is_stock_of}
use spare_part.Stock.Tables.{part_row, Inventory, SparePart}
use spare_part.Base.Text.{Text}
use spare_part.Ledger.Tables.{CostTransaction, Books}
use spare_part.Ledger.Service.{post_material, LedgerError}
use spare_part.Warehouse.Direct.{record_issue, IssueOrder, deduct_and_record_issue, cost_line}
use spare_part.Base.{refl, find_first, arith, ℕ, ◌≡◌, Option, some}
use spare_part.Base.Result.{Result, ok, err}
use spare_part.Base.Shut.{◌>>=◌}
use spare_part.Warehouse.Tables.{with_books, books, Warehouse}
use spare_part.Warehouse.Moves.{of_ledger}

-- The tables after a posting differ only in the books.
books_ok :
    (v u : Warehouse) (r : Result LedgerError (Books × Option CostTransaction))
    → (of_ledger r >>= λ x. ok (with_books v x.0)) ≡ ok u
    → (b : Books) × (u ≡ with_books v b)
unfolding ◌>>=◌
books_ok v u (ok x) e = (x.0, ground (arith, e))
books_ok v u (err x) e = ground (arith, e)

pub cost_line_ok :
    (v u : Warehouse) (line actor : ℕ) (memo : Text) (now : ℕ)
    → cost_line v line actor memo now ≡ ok u
    → (b : Books) × (u ≡ with_books v b)
unfolding cost_line
cost_line_ok v u line actor memo now e =
    books_ok v u (post_material (books v) line actor memo now) e

-- What a deduction that returned read and left.
abbrev pub IsDeducted : Warehouse → IssueOrder → Text → ℕ → Warehouse × ℕ → Type 0
IsDeducted w o note now r =
    (s : ℕ) × (p : SparePart) × (inv : Inventory) × (find_first (is_stock_of o.part s) w.inventories
      ≡ some inv)
    × (r ≡ (record_issue w p inv o note now, next_pk w.lines))

pub deduct_and_record_issue_ok :
    (w : Warehouse) (o : IssueOrder) (at : Option ℕ) (note : Text) (now : ℕ) (r : Warehouse × ℕ)
    → deduct_and_record_issue w o at note now ≡ ok r
    → IsDeducted w o note now r
unfolding deduct_and_record_issue
deduct_and_record_issue_ok w o at note now r e =
    let Q = IsDeducted w o note now in
    yields_of Q (deduct_and_record_issue w o at note now) r
      (Yields-or_raise Q _ _ _ (λ p _. Yields-or_raise Q _ _ _ (λ s _.
        Yields-or_raise Q _ _ _
          (λ inv found. Yields-raise_if Q _ _ _ (λ _. Yields-ok Q _ (s, p, inv, found, refl))))))
      e
