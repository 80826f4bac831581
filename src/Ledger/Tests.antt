-- ===== src/Ledger/Tests.antt =====
-- A small journal, and the theorems about maintenance/cost_ledger.py at it.
use spare_part.Base.{false, ◌≡◌, refl, true, List, [], ◌∷◌, none, some}
use spare_part.Base.Int.{pos, ◌+ℤ◌, ◌-ℤ◌, ◌*ℤ◌}
use spare_part.Base.Text.{codes}
use spare_part.Base.Result.{ok, err}
use spare_part.Blockers.Tables.{LineStatus}
use spare_part.Stock.Depot.{PartIssueLine}
use spare_part.Ledger.Tables.{SourceType, WorkOrderCost, ExternalRepairOrder, Books, cost_row}
use spare_part.Ledger.Service.{
  is_of, sum_of, last_of, recalculated, refresh_wo_cache, material_posting, post, post_delta,
  post_material,
}
use spare_part.Ledger.Steps.{
  LedgerCall, posts_material, posts_vendor_repair, posts_adjustment, step, run,
}
use spare_part.Ledger.Net.{post_reaches, post_twice}
use spare_part.Ledger.Cache.{IsCached, run-IsCached}

-- Two units were issued at 12.5 each.
abbrev issued_line : PartIssueLine
issued_line = record {
  pk = 3;
  work_order = 11;
  part = 7;
  quantity = pos 2000;
  unit_cost = pos 125000;
  status = LineStatus.issued;
  requested_qty = pos 2000;
  allocated_qty = pos 2000;
  approved_qty = pos 2000;
  issued_qty = pos 2000;
  shortage_qty = pos 0;
  invoice_ref = [];
  supplier_name = [];
  requested_by = none;
  issued_by = none;
  approved_by = none;
  approved_at = none;
  rejection_reason = [];
  related_shortage_report = none;
  is_emergency_auto_approved = false;
  emergency_review = none;
}

abbrev vendor_order : ExternalRepairOrder
vendor_order = record {
  pk = 5;
  is_closed = true;
  actual_cost = some (pos 30000);
  work_order = some 11;
}

abbrev books : Books
books = record {
  transactions = [];
  costs = [];
  adjustments = [];
  lines = issued_line ∷ [];
  parts = [];
  stock_movements = [];
  repair_orders = vendor_order ∷ [];
  machine_of = λ wo. some 1;
  component_of = λ wo. none;
}

abbrev month : List LedgerCall
month =
    posts_material 3 9 [] 5
    ∷ posts_vendor_repair 5 9 [] 6
    ∷ posts_material 3 9 [] 7
    ∷ posts_adjustment 11 (pos 50000) (codes "freight charge") 9 8
    ∷ []

run-IsCached_example : IsCached 11 (run books month)
run-IsCached_example = run-IsCached 11 books month refl

abbrev first_cost : WorkOrderCost
unfolding recalculated step run post_material post post_delta refresh_wo_cache ◌+ℤ◌ ◌-ℤ◌ ◌*ℤ◌
first_cost = recalculated (run books month) 11

abbrev after : Books
unfolding post post_delta refresh_wo_cache recalculated ◌+ℤ◌ ◌-ℤ◌ ◌*ℤ◌
after = elim (post books (material_posting issued_line 9 []) 5) [ ok r ↦ r.0 | err e ↦ books ]

post_reaches_example :
    (sum_of (is_of SourceType.part_issue_line 3) after.transactions ≡ pos 2500)
    × (sum_of (is_of SourceType.stock_movement 3) after.transactions
        ≡ sum_of (is_of SourceType.stock_movement 3) books.transactions)
unfolding post post_delta refresh_wo_cache recalculated ◌+ℤ◌ ◌-ℤ◌ ◌*ℤ◌
post_reaches_example =
    post_reaches books (material_posting issued_line 9 []) 5 SourceType.stock_movement 3 refl refl

post_twice_example :
    post after (material_posting issued_line 9 []) 6
    ≡ ok (after, last_of SourceType.part_issue_line 3 after.transactions)
unfolding post post_delta refresh_wo_cache recalculated ◌+ℤ◌ ◌-ℤ◌ ◌*ℤ◌
post_twice_example = post_twice books (material_posting issued_line 9 []) 5 6 refl
