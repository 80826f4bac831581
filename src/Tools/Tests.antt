-- ===== src/Tools/Tests.antt =====
-- A small pool, and the theorems about inventory/services_tools.py at it.
use spare_part.Base.{
  ℕ, ◌+◌, ◌≤◌, ◌≡◌, ◌↔◌, refl, true, false, List, [], ◌∷◌, Option, none, some, arith, count_if,
  length,
}
use spare_part.Base.Int.{pos, ◌-ℤ◌, ◌≤ℤ◌}
use spare_part.Base.Text.{codes}
use spare_part.Base.Rows.{get}
use spare_part.Base.Result.{ok, err}
use spare_part.Stock.Tables.{SparePart, reusable_tool, Site, Inventory, inventory_row}
use spare_part.Tools.Tables.{
  ToolStatus, ReusableToolInstance, Condition, ToolAssignment, ToolDamageReport, ReportStatus,
  ToolPool, tool_row, assignment_row,
}
use spare_part.Tools.Service.{
  inactive, holds, active_assignment, new_assignment, issue_to_tool_pool, assign, return_tool,
  repair, write_off,
}
use spare_part.Tools.Steps.{ToolCall, issues, assigns, returns, repairs, tables_after, run}
use spare_part.Tools.Checkout.{IsHeldOnce, run-IsHeldOnce}
use spare_part.Tools.Retirement.{write_off_final}
use spare_part.Tools.Issue.{number_count, issue_numbers, issue_succeeds}
use spare_part.Tools.Outcomes.{assign_iff, assign-return_tool}

abbrev drill : SparePart
drill = record {
  pk = 7;
  item_type = reusable_tool;
  is_consumable = false;
  allow_operator_consumption = false;
  min_stock_level = pos 0;
  avg_cost = none;
  last_purchase_cost = none;
  supplier = none;
  supplier_name = [];
}

abbrev main_site : Site
main_site = record { pk = 1; is_default = true }

abbrev drills : Inventory
drills = record {
  pk = 3;
  part = 7;
  site = 1;
  quantity_available = pos 5000;
  quantity_quarantine = pos 0;
}

abbrev unit : ReusableToolInstance
unit = record {
  pk = 1;
  part = 7;
  tool_number = 1;
  status = ToolStatus.available;
  source_stock_movement = none;
  is_active = true;
}

abbrev damage : ToolDamageReport
damage = record {
  pk = 1;
  tool = 1;
  reported_by = 9;
  machine = none;
  assignment = none;
  damage_date = 4;
  reason = codes "chipped";
  repair_cost = none;
  status = ReportStatus.opened;
  resolved_at = none;
  resolved_by = none;
}

-- One drill, on which a damage report is open.
abbrev pool : ToolPool
pool = record {
  sites = main_site ∷ [];
  inventories = drills ∷ [];
  stock_movements = [];
  tools = unit ∷ [];
  assignments = [];
  reports = damage ∷ [];
  movements = [];
}

abbrev shift : List ToolCall
shift =
    assigns 1 20 30 Condition.good 9 [] 5
    ∷ returns 1 (some Condition.damaged) 9 (some (codes "bent")) [] 6
    ∷ repairs 1 (some (pos 250)) 9 7
    ∷ assigns 1 21 30 Condition.fair 9 [] 8
    ∷ issues drill (pos 2) 9 none [] 9
    ∷ []

run-IsHeldOnce_example : IsHeldOnce 1 (run pool shift)
run-IsHeldOnce_example = run-IsHeldOnce 1 pool shift (ground arith)

abbrev out : ToolPool × ToolAssignment
unfolding assign
out = elim (assign pool 1 20 30 Condition.good 9 [] 5) [
  | ok r ↦ r
  | err e ↦ (pool, new_assignment pool 1 20 30 Condition.good [] 5)
]

assign-return_tool_example :
    (r : ToolPool × ToolAssignment × Option ℕ) × (return_tool out.0 1
        (some Condition.fair)
        9
        none
        []
        6
      ≡ ok r)
    × (get 1 r.0.tools ≡ get 1 pool.tools)
    × (count_if (holds 1) r.0.assignments ≡ count_if (holds 1) pool.assignments)
unfolding assign
assign-return_tool_example =
    assign-return_tool pool 1 20 30 Condition.good Condition.fair 9 [] 5 none [] 6
      (λ e. ground arith) refl

assign_iff_example :
    ((r : ToolPool × ToolAssignment) × (assign pool 1 20 30 Condition.good 9 [] 5 ≡ ok r)) ↔ (
      (unit.is_active ≡ true)
      × (unit.status ≡ ToolStatus.available)
      × (active_assignment 1 pool.assignments ≡ none))
assign_iff_example = assign_iff pool 1 20 30 Condition.good 9 [] 5 unit refl

abbrev scrapped : ToolPool
unfolding write_off
scrapped = tables_after (λ r. r.0) pool (write_off pool 1 9 7)

write_off_final_example : assign (run scrapped shift) 1 20 30 Condition.good 9 [] 12 ≡ err inactive
unfolding write_off
write_off_final_example = write_off_final pool 1 9 7 shift 20 30 Condition.good 9 [] 12 refl

abbrev mended : ToolPool
unfolding repair
mended = tables_after (λ r. r.0) pool (repair pool 1 (some (pos 250)) 9 7)

issue_numbers_example :
    number_count 7 2
      (tables_after (λ q. q) pool (issue_to_tool_pool pool drill (pos 2) 9 none [] 9))
    ≤ 1
issue_numbers_example = issue_numbers pool drill (pos 2) 9 none [] 9 7 2 (ground arith)

issue_succeeds_example :
    (q : ToolPool) × (issue_to_tool_pool pool drill (pos 2) 9 none [] 9 ≡ ok q)
    × (length q.tools ≡ 1 + 2)
    × (length q.movements ≡ 0 + 2)
    × (length q.stock_movements ≡ 0 + 1)
    × (get 3 q.inventories ≡ some (record drills { quantity_available = pos 5000 -ℤ pos 2000 }))
    × (pos 0 ≤ℤ pos 5000 -ℤ pos 2000)
issue_succeeds_example =
    issue_succeeds pool drill 2 9 none [] 9 1 drills (omega arith) refl refl refl refl (omega arith)
