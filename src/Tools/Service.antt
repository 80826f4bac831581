-- ===== src/Tools/Service.antt =====
-- inventory/services_tools.py: the services of the reusable-tool pool. Each runs in a transaction,
-- so that an exception leaves the tables as they were; `now` is `timezone.now()` of the call.
use spare_part.Base.{
  ℕ, zero, suc, ◌+◌, ◌*◌, Bool, true, false, not, ◌&&◌, List, [], ◌∷◌, ◌++◌, Option, none, some,
  ◌==◌, ltb, if◌then◌else◌, take, is_none, find_first, insert_last,
}
use spare_part.Base.Int.{ℤ, pos, ◌-ℤ◌, ltb_ℤ, leb_ℤ, pos_part}
use spare_part.Base.Text.{Text, strip, is_empty}
use spare_part.Base.Rows.{get, save, next_pk}
use spare_part.Base.Result.{Result, ok, ◌>>=◌, ◌>>◌, raise_if, or_raise}
use spare_part.Stock.Tables.{
  SparePart, is_reusable_tool, Site, site_row, Inventory, inventory_row, MovementType,
  StockMovement, stock_movement_row,
}
use spare_part.Tools.Tables.{
  ToolStatus, is_available, is_out_of_service, ReusableToolInstance, Condition, ToolAssignment,
  ReportStatus, is_opened, ToolDamageReport, ToolMovementType, ToolMovement, tool_row,
  assignment_row, report_row, ToolPool,
}

-- The messages of the exceptions. `does_not_exist` is Django's `DoesNotExist` of `get(pk=...)`.
pub data ToolError : Type 0 where
  does_not_exist quantity_not_positive not_a_reusable_tool no_site no_inventory : ToolError
  insufficient_stock inactive not_available already_assigned already_closed : ToolError
  condition_required reason_required not_open cost_required cost_negative : ToolError

-- `site` as given, else the default site, else the first site.
abbrev pub choose_site : List Site → Option ℕ → Option ℕ
choose_site sites (some s) = some s
choose_site sites none = elim (find_first (λ s. s.is_default) sites) [
  | some s ↦ some s.pk
  | none ↦ elim sites [ [] ↦ none | s ∷ _ ↦ some s.pk ]
]

-- `part.tool_instances.aggregate(m=Max("tool_number"))["m"] or 0`
abbrev pub max_tool_number : ℕ → List ReusableToolInstance → ℕ
max_tool_number part [] = 0
max_tool_number part (t ∷ ts) =
    let m = max_tool_number part ts in
    if t.part == part && ltb m t.tool_number then t.tool_number else m

abbrev pub new_unit : ToolPool → ℕ → ℕ → ℕ → ReusableToolInstance
new_unit p part movement number = record {
  pk = next_pk p.tools;
  part = part;
  tool_number = number;
  status = ToolStatus.available;
  source_stock_movement = some movement;
  is_active = true;
}

abbrev pub issued_movement : ℕ → ℕ → Text → ToolMovement
issued_movement tool actor note = record {
  tool = tool;
  movement_type = ToolMovementType.issued;
  actor = actor;
  machine = none;
  assignment = none;
  damage_report = none;
  note = take 500 note;
}

-- One round of the loop over the new tool numbers.
unfoldable pub create_unit : ℕ → ℕ → ℕ → Text → ℕ → ToolPool → ToolPool
create_unit part movement actor note number p = record p {
  tools = insert_last (new_unit p part movement number) p.tools;
  movements = insert_last (issued_movement (next_pk p.tools) actor note) p.movements;
}

-- `for n in range(start, start + qty)`, on the number of rounds left.
unfoldable pub create_units : ℕ → ℕ → ℕ → ℕ → ℕ → Text → ToolPool → ToolPool
create_units zero number part movement actor note p = p
create_units (suc k) number part movement actor note p =
    create_units k (suc number) part movement actor note
      (create_unit part movement actor note number p)

-- The stock movement of `quantity` units out of the row `inv`.
abbrev pub out_movement : ToolPool → SparePart → Inventory → ℤ → ℕ → Text → ℕ → StockMovement
out_movement p part inv quantity actor note now = record {
  pk = next_pk p.stock_movements;
  part = part.pk;
  movement_type = MovementType.stock_out;
  quantity = quantity;
  quantity_before = some inv.quantity_available;
  quantity_after = some (inv.quantity_available -ℤ quantity);
  work_order = none;
  site = some inv.site;
  performed_by = actor;
  supplier = part.supplier;
  supplier_name = part.supplier_name;
  unit_cost = part.last_purchase_cost;
  invoice_ref = [];
  note = take 500 note;
  created_at = now;
}

-- The deduction from the stock, with its movement.
abbrev pub deduct : ToolPool → SparePart → Inventory → ℤ → ℕ → Text → ℕ → ToolPool
deduct p part inv quantity actor note now = record p {
  inventories =
      save (record inv { quantity_available = inv.quantity_available -ℤ quantity }) p.inventories;
  stock_movements = insert_last (out_movement p part inv quantity actor note now) p.stock_movements;
}

-- The rows of `existing_max` are read after the stock movement was written, which changes none.
unfoldable pub issue_to_tool_pool :
    ToolPool → SparePart → ℤ → ℕ → Option ℕ → Text → ℕ → Result ToolError ToolPool
issue_to_tool_pool p part qty actor site note now = do
  raise_if (leb_ℤ qty (pos 0)) quantity_not_positive
  raise_if (not (is_reusable_tool part.item_type)) not_a_reusable_tool
  at ← or_raise (choose_site p.sites site) no_site
  inv ← or_raise (find_first (λ r. r.part == part.pk && r.site == at) p.inventories) no_inventory
  let quantity = pos (pos_part qty * 1000)
  raise_if (ltb_ℤ inv.quantity_available quantity) insufficient_stock
  ok (
      create_units (pos_part qty) (max_tool_number part.pk p.tools + 1) part.pk
        (next_pk p.stock_movements) actor note (deduct p part inv quantity actor note now))

-- `filter(instance=self, return_at__isnull=True)`
abbrev pub holds : ℕ → ToolAssignment → Bool
holds tool a = a.tool == tool && is_none a.return_at

-- The first of two open assignments in the order `-checkout_at`.
abbrev pub latest : ToolAssignment → Option ToolAssignment → Option ToolAssignment
latest a none = some a
latest a (some b) = if ltb a.checkout_at b.checkout_at then some b else some a

-- `ReusableToolInstance.active_assignment`
abbrev pub active_assignment : ℕ → List ToolAssignment → Option ToolAssignment
active_assignment tool [] = none
active_assignment tool (a ∷ rows) =
    let rest = active_assignment tool rows in if holds tool a then latest a rest else rest

abbrev pub new_assignment : ToolPool → ℕ → ℕ → ℕ → Condition → Text → ℕ → ToolAssignment
new_assignment p tool operator machine condition_out notes now = record {
  pk = next_pk p.assignments;
  tool = tool;
  operator = operator;
  machine = machine;
  checkout_at = now;
  return_at = none;
  condition_out = condition_out;
  condition_in = none;
  notes = take 500 notes;
}

-- The rows that a checkout writes.
abbrev pub check_out : ToolPool → ReusableToolInstance → ToolAssignment → ℕ → Text → ToolPool
check_out p t a actor notes = record p {
  assignments = insert_last a p.assignments;
  tools = save (record t { status = ToolStatus.in_use }) p.tools;
  movements =
      insert_last
        (record {
          tool = t.pk;
          movement_type = ToolMovementType.assigned;
          actor = actor;
          machine = some a.machine;
          assignment = some a.pk;
          damage_report = none;
          note = take 500 notes;
        })
        p.movements;
}

-- `ToolAssignmentService.assign`
unfoldable pub assign :
    ToolPool → ℕ → ℕ → ℕ → Condition → ℕ → Text → ℕ → Result ToolError (ToolPool × ToolAssignment)
assign p tool operator machine condition_out actor notes now = do
  t ← or_raise (get tool p.tools) does_not_exist
  raise_if (not t.is_active) inactive
  raise_if (not (is_available t.status)) not_available
  raise_if (not (is_none (active_assignment t.pk p.assignments))) already_assigned
  let a = new_assignment p t.pk operator machine condition_out notes now
  ok (check_out p t a actor notes, a)

-- `(a.notes + "\n" if a.notes else "") + notes[:500]`, where `notes` is not empty.
abbrev pub extend_notes : Text → Text → Text
extend_notes old notes =
    if is_empty notes
    then old
    else ((if is_empty old then [] else (old ++ 10 ∷ [])) ++ take 500 notes)

-- The reason of a damaged return: not missing and not blank.
abbrev pub given_reason : Option Text → Option Text
given_reason none = none
given_reason (some reason) = if is_empty (strip reason) then none else some reason

-- The rows that a damaged return writes.
unfoldable pub open_return_report :
    ToolPool → ToolAssignment → ReusableToolInstance → ℕ → Text → ℕ → ToolPool
open_return_report p a t actor reason now = record p {
  tools = save (record t { status = ToolStatus.out_of_service }) p.tools;
  reports =
      insert_last
        (record {
          pk = next_pk p.reports;
          tool = t.pk;
          reported_by = a.operator;
          machine = some a.machine;
          assignment = some a.pk;
          damage_date = now;
          reason = strip reason;
          repair_cost = none;
          status = ReportStatus.opened;
          resolved_at = none;
          resolved_by = none;
        })
        p.reports;
  movements =
      insert_last
        (record {
          tool = t.pk;
          movement_type = ToolMovementType.damaged;
          actor = actor;
          machine = some a.machine;
          assignment = some a.pk;
          damage_report = some (next_pk p.reports);
          note = take 500 reason;
        })
        p.movements;
}

-- The branch on `condition_in`: the tables, and the key of the new damage report.
unfoldable pub settle_return :
    Condition
    → ToolPool
    → ToolAssignment
    → ReusableToolInstance
    → ℕ
    → Option Text
    → ℕ
    → Result ToolError (ToolPool × Option ℕ)
unfolding open_return_report
settle_return Condition.damaged p a t actor damage_reason now = do
  reason ← or_raise (given_reason damage_reason) reason_required
  ok (open_return_report p a t actor reason now, some (next_pk p.reports))
settle_return _ p a t actor damage_reason now =
    ok (record p { tools = save (record t { status = ToolStatus.available }) p.tools }, none)

-- The assignment as its return leaves it.
abbrev pub close_assignment : ToolAssignment → Condition → Text → ℕ → ToolAssignment
close_assignment a condition notes now = record a {
  return_at = some now;
  condition_in = some condition;
  notes = extend_notes a.notes notes;
}

-- The last row of a return.
abbrev pub log_return : ToolPool → ReusableToolInstance → ToolAssignment → ℕ → Text → ToolPool
log_return p t a actor notes = record p {
  movements =
      insert_last
        (record {
          tool = t.pk;
          movement_type = ToolMovementType.returned;
          actor = actor;
          machine = some a.machine;
          assignment = some a.pk;
          damage_report = none;
          note = take 500 notes;
        })
        p.movements;
}

-- `ToolAssignmentService.return_tool`: the tables, the closed assignment and the damage report.
unfoldable pub return_tool :
    ToolPool
    → ℕ
    → Option Condition
    → ℕ
    → Option Text
    → Text
    → ℕ
    → Result ToolError (ToolPool × ToolAssignment × Option ℕ)
unfolding settle_return
return_tool p assignment condition_in actor damage_reason notes now = do
  a ← or_raise (get assignment p.assignments) does_not_exist
  raise_if (not (is_none a.return_at)) already_closed
  condition ← or_raise condition_in condition_required
  t ← or_raise (get a.tool p.tools) does_not_exist
  let closed = close_assignment a condition notes now
  (q, report) ←
      settle_return condition (record p { assignments = save closed p.assignments }) closed t actor
        damage_reason now
  ok (log_return q t closed actor notes, closed, report)

-- `ToolDamageService.report`
unfoldable pub report :
    ToolPool
    → ℕ
    → Text
    → Option ℕ
    → ℕ
    → Option ℕ
    → ℕ
    → Result ToolError (ToolPool × ToolDamageReport)
report p tool reason machine actor assignment now = do
  t ← or_raise (get tool p.tools) does_not_exist
  raise_if (is_empty (strip reason)) reason_required
  let r : ToolDamageReport = record {
    pk = next_pk p.reports;
    tool = t.pk;
    reported_by = actor;
    machine = machine;
    assignment = assignment;
    damage_date = now;
    reason = strip reason;
    repair_cost = none;
    status = ReportStatus.opened;
    resolved_at = none;
    resolved_by = none;
  }
  ok (
    record p {
      reports = insert_last r p.reports;
      tools = save (record t { status = ToolStatus.out_of_service }) p.tools;
      movements =
          insert_last
            (record {
              tool = t.pk;
              movement_type = ToolMovementType.damaged;
              actor = actor;
              machine = machine;
              assignment = assignment;
              damage_report = some r.pk;
              note = take 500 reason;
            })
            p.movements;
    },
    r,
  )

-- A row of the log of a resolved report.
abbrev pub resolution : ℕ → ToolMovementType → ℕ → ℕ → ToolMovement
resolution tool movement_type actor r = record {
  tool = tool;
  movement_type = movement_type;
  actor = actor;
  machine = none;
  assignment = none;
  damage_report = some r;
  note = [];
}

-- `ToolDamageService.repair`
unfoldable pub repair :
    ToolPool → ℕ → Option ℤ → ℕ → ℕ → Result ToolError (ToolPool × ToolDamageReport)
repair p damage_report repair_cost actor now = do
  r ← or_raise (get damage_report p.reports) does_not_exist
  raise_if (not (is_opened r.status)) not_open
  cost ← or_raise repair_cost cost_required
  raise_if (ltb_ℤ cost (pos 0)) cost_negative
  t ← or_raise (get r.tool p.tools) does_not_exist
  let done : ToolDamageReport = record r {
    status = ReportStatus.repaired;
    repair_cost = some cost;
    resolved_at = some now;
    resolved_by = some actor;
  }
  ok (
    record p {
      reports = save done p.reports;
      tools =
          if is_out_of_service t.status
          then save (record t { status = ToolStatus.available }) p.tools
          else p.tools;
      movements = insert_last (resolution t.pk ToolMovementType.repaired actor r.pk) p.movements;
    },
    done,
  )

-- `ToolDamageService.write_off`
unfoldable pub write_off : ToolPool → ℕ → ℕ → ℕ → Result ToolError (ToolPool × ToolDamageReport)
write_off p damage_report actor now = do
  r ← or_raise (get damage_report p.reports) does_not_exist
  raise_if (not (is_opened r.status)) not_open
  t ← or_raise (get r.tool p.tools) does_not_exist
  let done : ToolDamageReport = record r {
    status = ReportStatus.written_off;
    resolved_at = some now;
    resolved_by = some actor;
  }
  ok (
    record p {
      reports = save done p.reports;
      tools = save (record t { is_active = false; status = ToolStatus.out_of_service }) p.tools;
      movements = insert_last (resolution t.pk ToolMovementType.written_off actor r.pk) p.movements;
    },
    done,
  )
