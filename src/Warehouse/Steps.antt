-- ===== src/Warehouse/Steps.antt =====
-- A history of calls of the services of inventory/services.py.
use spare_part.Base.Shut.{◌>>=◌, or_raise}
use spare_part.Base.Rows.{get}
use spare_part.Warehouse.Moves.{does_not_exist}
use spare_part.Base.{ℕ, Bool, List, [], ◌∷◌, Option}
use spare_part.Base.Int.{ℤ}
use spare_part.Base.Text.{Text}
use spare_part.Base.Result.{tables_or, Result}
use spare_part.Stock.Depot.{line_row, PartIssueLine, ReviewDecision}
use spare_part.Blockers.Tables.{ShortageStatus}
use spare_part.Warehouse.Tables.{Warehouse}
use spare_part.Warehouse.Moves.{
  does_not_exist, Captions, Supplier, WarehouseError, stock_in, consumable_use, issue_consumable,
}
use spare_part.Warehouse.Direct.{IssueOrder, issue_part_to_work_order}
use spare_part.Warehouse.Shortage.{transition_shortage_status, mark_shortage_fulfilled}
use spare_part.Warehouse.Issue.{execute_warehouse_issue}
use spare_part.Warehouse.Requests.{request_part_on_wo}
use spare_part.Warehouse.Approval.{
  approve_part_request, reject_part_request, cancel_approved_part_request, edit_part_request_qty,
  emergency_review_part_line,
}

-- The calls, each with the arguments of its service.
pub data WarehouseCall : Type 0 where
  receives :
      ℕ → ℤ → ℕ → Option Supplier → Text → Option ℤ → Text → Text → Option ℕ → ℕ → WarehouseCall
  uses : ℕ → ℤ → ℕ → Text → Option ℕ → Option ℕ → Captions → ℕ → WarehouseCall
  hands_out : ℕ → ℤ → ℕ → ℕ → Text → Option ℕ → Option ℕ → Captions → ℕ → WarehouseCall
  issues_directly : IssueOrder → Option ℕ → Captions → ℕ → WarehouseCall
  requests : ℕ → ℕ → ℤ → ℕ → Text → Captions → ℕ → WarehouseCall
  approves : ℕ → ℕ → Bool → ℕ → WarehouseCall
  rejects : ℕ → ℕ → Text → ℕ → WarehouseCall
  cancels : ℕ → ℕ → Text → ℕ → WarehouseCall
  edits : ℕ → ℤ → WarehouseCall
  reviews : ℕ → ℕ → Option ReviewDecision → Text → ℕ → WarehouseCall
  issues : ℕ → ℤ → ℕ → Bool → Captions → ℕ → WarehouseCall
  transitions : ℕ → ShortageStatus → ℕ → Text → ℕ → WarehouseCall
  fulfils : ℕ → ℕ → Text → ℕ → WarehouseCall

-- What a view does first: it reads the line whose key it was sent.
abbrev pub on_line :
    Warehouse
    → ℕ
    → (PartIssueLine → Result WarehouseError Warehouse)
    → Result WarehouseError Warehouse
on_line w line call = or_raise (get line w.lines) does_not_exist >>= call

-- The result of a call, of the decisions on a request together with the read of the line that they are handed.
unfoldable pub result : Warehouse → WarehouseCall → Result WarehouseError Warehouse
result w (receives part q by s name cost invoice note site now) =
    stock_in w part q by s name cost invoice note site now
result w (uses part q by note machine site t now) =
    consumable_use w part q by note machine site t now
result w (hands_out part q to by note machine site t now) =
    issue_consumable w part q to by note machine site t now
result w (issues_directly o site t now) = issue_part_to_work_order w o site t now
result w (requests wo part q by note t now) = request_part_on_wo w wo part q by note t now
result w (approves line by auto now) = on_line w line (λ l. approve_part_request w l by auto now)
result w (rejects line by reason now) = on_line w line (λ l. reject_part_request w l by reason now)
result w (cancels line by reason now) =
    on_line w line (λ l. cancel_approved_part_request w l by reason now)
result w (edits line q) = on_line w line (λ l. edit_part_request_qty w l q)
result w (reviews line by decision note now) =
    on_line w line (λ l. emergency_review_part_line w l by decision note now)
result w (issues line q by skip t now) = execute_warehouse_issue w line q by skip t now
result w (transitions report status by label now) =
    transition_shortage_status w report status by label now
result w (fulfils report by label now) = mark_shortage_fulfilled w report by label now

-- A call that raises is rolled back.
unfoldable pub step : Warehouse → WarehouseCall → Warehouse
step w c = tables_or w (result w c)

unfoldable pub run : Warehouse → List WarehouseCall → Warehouse
run w [] = w
run w (c ∷ cs) = run (step w c) cs
