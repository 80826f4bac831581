-- ===== src/Tools/Steps.antt =====
-- A history of calls of the services of inventory/services_tools.py.
use spare_part.Base.{ℕ, List, [], ◌∷◌, Option}
use spare_part.Base.Int.{ℤ}
use spare_part.Base.Text.{Text}
use spare_part.Base.Result.{Result, ok, err}
use spare_part.Stock.Tables.{SparePart}
use spare_part.Tools.Tables.{Condition, ToolPool}
use spare_part.Tools.Service.{
  ToolError, issue_to_tool_pool, assign, return_tool, report, repair, write_off,
}

-- The calls, each with the arguments of its service.
pub data ToolCall : Type 0 where
  issues : SparePart → ℤ → ℕ → Option ℕ → Text → ℕ → ToolCall
  assigns : ℕ → ℕ → ℕ → Condition → ℕ → Text → ℕ → ToolCall
  returns : ℕ → Option Condition → ℕ → Option Text → Text → ℕ → ToolCall
  reports : ℕ → Text → Option ℕ → ℕ → Option ℕ → ℕ → ToolCall
  repairs : ℕ → Option ℤ → ℕ → ℕ → ToolCall
  writes_off : ℕ → ℕ → ℕ → ToolCall

-- A call that raises is rolled back.
abbrev pub tables_after {ℓ} :
    {A : Type ℓ} → (A → ToolPool) → ToolPool → Result ToolError A → ToolPool
tables_after f p (ok r) = f r
tables_after f p (err e) = p

unfoldable pub step : ToolPool → ToolCall → ToolPool
step p (issues part qty actor site note now) =
    tables_after (λ q. q) p (issue_to_tool_pool p part qty actor site note now)
step p (assigns tool operator machine condition_out actor notes now) =
    tables_after (λ r. r.0) p (assign p tool operator machine condition_out actor notes now)
step p (returns assignment condition_in actor damage_reason notes now) =
    tables_after (λ r. r.0) p (return_tool p assignment condition_in actor damage_reason notes now)
step p (reports tool reason machine actor assignment now) =
    tables_after (λ r. r.0) p (report p tool reason machine actor assignment now)
step p (repairs damage_report cost actor now) =
    tables_after (λ r. r.0) p (repair p damage_report cost actor now)
step p (writes_off damage_report actor now) =
    tables_after (λ r. r.0) p (write_off p damage_report actor now)

unfoldable pub run : ToolPool → List ToolCall → ToolPool
run p [] = p
run p (c ∷ cs) = run (step p c) cs
