-- ===== src/Ledger/Steps.antt =====
-- A history of calls of maintenance/cost_ledger.py.
use spare_part.Base.{ℕ, List, [], ◌∷◌, Option}
use spare_part.Base.Int.{ℤ}
use spare_part.Base.Text.{Text}
use spare_part.Base.Result.{Result, ok, err}
use spare_part.Ledger.Tables.{CostTransaction, Books}
use spare_part.Ledger.Service.{
  LedgerError, post_material, post_vendor_repair, post_consumable, post_adjustment,
}

-- The calls, each with the arguments of its service.
pub data LedgerCall : Type 0 where
  posts_material posts_vendor_repair posts_consumable : ℕ → ℕ → Text → ℕ → LedgerCall
  posts_adjustment : ℕ → ℤ → Text → ℕ → ℕ → LedgerCall

-- A call that raises is rolled back.
abbrev pub books_after : Books → Result LedgerError (Books × Option CostTransaction) → Books
books_after b (ok r) = r.0
books_after b (err e) = b

unfoldable pub step : Books → LedgerCall → Books
step b (posts_material line actor memo now) = books_after b (post_material b line actor memo now)
step b (posts_vendor_repair order actor memo now) =
    books_after b (post_vendor_repair b order actor memo now)
step b (posts_consumable movement actor memo now) =
    books_after b (post_consumable b movement actor memo now)
step b (posts_adjustment wo amount memo actor now) =
    books_after b (post_adjustment b wo amount memo actor now)

unfoldable pub run : Books → List LedgerCall → Books
run b [] = b
run b (c ∷ cs) = run (step b c) cs
