-- ===== src/Warehouse/Tests.antt =====
-- A small warehouse, and the theorems about inventory/services.py at it.
use spare_part.Blockers.Status.{derived_status, recompute_operational_status}
use spare_part.Blockers.Sync.{sync_from_external_event}
use spare_part.Ledger.Service.{recalculated, refresh_wo_cache, post_delta, post, post_material}
use spare_part.Warehouse.Direct.{fire_event, cost_line}
use spare_part.Stock.Reservations.{release_rows}
use spare_part.Warehouse.Followed.{run-follows}
use spare_part.Warehouse.History.{run-IsReconciled}
use spare_part.Warehouse.Releases.{release_for_issue_exact}
use spare_part.Warehouse.Emergency.{emergency_request_fails}
use spare_part.Warehouse.Requests.{request_part_on_wo}
use spare_part.Warehouse.Once.{issue_once, IsIssued}
use spare_part.Warehouse.Conserved.{IsReconciled}
use spare_part.Warehouse.Workflow.{status_in, follows}
use spare_part.Warehouse.Steps.{result, requests, uses, issues, receives, run, step, WarehouseCall}
use spare_part.Warehouse.Issue.{
  reservation_released, count_report, take_for_line, issue_line, execute_warehouse_issue,
  release_for_issue,
}
use spare_part.Base.{ℕ, Bool, true, false, ◌≡◌, refl, List, [], ◌∷◌, none, some, arith}
use spare_part.Base.Int.{ℤ, pos, ◌+ℤ◌, ◌-ℤ◌, ◌*ℤ◌, ◌≤ℤ◌}
use spare_part.Base.Result.{err}
use spare_part.Base.Shut.{◌>>=◌, ◌>>◌, raise_if, or_raise}
use spare_part.Stock.Tables.{ItemType, SparePart}
use spare_part.Stock.Depot.{
  PartIssueLine, InventoryReservation, ReservationStatus, no_reason, line_row,
  compute_quantity_reserved,
}
use spare_part.Blockers.Tables.{LifecycleStatus, OperationalStatus, WorkOrder, LineStatus}
use spare_part.Warehouse.Tables.{Warehouse}
use spare_part.Warehouse.Moves.{WarehouseError, move_stock, cannot_issue, Captions}

abbrev filter_part : SparePart
filter_part = record {
  pk = 7;
  item_type = ItemType.spare;
  is_consumable = true;
  allow_operator_consumption = true;
  min_stock_level = pos 0;
  avg_cost = none;
  last_purchase_cost = some (pos 50000);
  supplier = none;
  supplier_name = [];
}

-- Four units are approved and held by a reservation of the line.
abbrev line : PartIssueLine
line = record {
  pk = 3;
  work_order = 11;
  part = 7;
  quantity = pos 4000;
  unit_cost = pos 0;
  status = LineStatus.allocated;
  requested_qty = pos 4000;
  allocated_qty = pos 4000;
  approved_qty = pos 4000;
  issued_qty = pos 0;
  shortage_qty = pos 0;
  invoice_ref = [];
  supplier_name = [];
  requested_by = none;
  issued_by = none;
  approved_by = none;
  approved_at = none;
  rejection_reason = [];
  related_shortage_report = none;
  is_emergency_auto_approved = false;
  emergency_review = none;
}

abbrev held_units : InventoryReservation
held_units = record {
  pk = 1;
  part = 7;
  work_order = some 11;
  quantity = pos 4000;
  status = ReservationStatus.active;
  source_line = some 3;
  released_at = none;
  release_reason = no_reason;
  priority_at_creation = 5;
}

abbrev order : WorkOrder
order = record {
  pk = 11;
  lifecycle_status = LifecycleStatus.in_progress;
  operational_status = OperationalStatus.active;
  is_emergency = false;
  is_archived = false;
  blocker_system_version = 0;
}

abbrev pub depot_one : Warehouse
depot_one = record {
  default_site = some 1;
  machines = 9 ∷ [];
  machine_of = λ _. some 9;
  component_of = λ _. none;
  parts = filter_part ∷ [];
  inventories =
      record {
        pk = 1;
        part = 7;
        site = 1;
        quantity_available = pos 10000;
        quantity_quarantine = pos 0;
      }
      ∷ [];
  stock_movements = [];
  lines = line ∷ [];
  reservations = held_units ∷ [];
  consumable_assignments = [];
  shortage_reports = [];
  shortage_decisions = [];
  purchase_requests = [];
  transactions = [];
  costs = [];
  adjustments = [];
  repair_orders = [];
  board = record { orders = order ∷ []; blockers = []; events = []; repair_requests = [] };
}

abbrev pub captions : Captions
captions = record { movement_note = []; memo = [] }

-- A receipt, a use on the machine, a request that is rejected, and an issue of the line.
abbrev calls : List WarehouseCall
calls =
    receives 7 (pos 5000) 2 none [] (some (pos 60000)) [] [] none 1
    ∷ uses 7 (pos 1000) 2 [] (some 9) none captions 20
    ∷ requests 11 7 (pos 2000) 2 [] captions 21
    ∷ issues 3 (pos 4000) 2 false captions 22
    ∷ []

run-IsReconciled_example : IsReconciled 7 1 (pos 10000) (run depot_one calls)
unfolding ◌+ℤ◌ ◌-ℤ◌
run-IsReconciled_example = run-IsReconciled 7 1 (pos 10000) depot_one calls (refl, refl)

run-follows_example :
    follows (some LineStatus.allocated) (status_in 3 (run depot_one calls).lines) ≡ true
run-follows_example = run-follows 3 depot_one calls

-- The tables after three of the four units were issued.
abbrev after_three : Warehouse
after_three = step depot_one (issues 3 (pos 3000) 2 false captions 22)

issue_once_example :
    IsIssued 3 line (pos 3000) after_three
    × ((more : ℤ) (other : ℕ) (any : Bool) (u : Captions) (later : ℕ)
        → execute_warehouse_issue after_three 3 more other any u later ≡ err cannot_issue)
unfolding step result execute_warehouse_issue issue_line take_for_line release_for_issue
    release_rows count_report move_stock cost_line post_material post post_delta refresh_wo_cache
    recalculated fire_event sync_from_external_event recompute_operational_status derived_status
    ◌>>=◌ ◌>>◌ raise_if or_raise ◌+ℤ◌ ◌-ℤ◌ ◌*ℤ◌
issue_once_example =
    issue_once depot_one after_three 3 line (pos 3000) 2 false captions 22 refl refl

release_for_issue_exact_example :
    (compute_quantity_reserved 7 (held_units ∷ [])
      ≡ compute_quantity_reserved 7 (release_for_issue line (pos 5000) 22 (held_units ∷ []))
        +ℤ reservation_released line (pos 5000) 22 (held_units ∷ []))
    × (reservation_released line (pos 5000) 22 (held_units ∷ []) ≤ℤ pos 5000)
release_for_issue_exact_example =
    release_for_issue_exact line (pos 5000) 22 (held_units ∷ []) (omega arith)

-- The order of an emergency, and no request yet.
abbrev urgent_depot : Warehouse
urgent_depot = record depot_one {
  lines = [];
  reservations = [];
  board = record depot_one.board { orders = record order { is_emergency = true } ∷ [] };
}

emergency_request_fails_example :
    (e : WarehouseError) × (request_part_on_wo urgent_depot 11 7 (pos 2000) 2 [] captions 21
      ≡ err e)
unfolding ◌-ℤ◌
emergency_request_fails_example =
    emergency_request_fails urgent_depot 11 7 (pos 2000) 2 [] captions 21
      (record order { is_emergency = true }) refl refl refl refl
