-- ===== src/Preventive/Assignment.antt =====
-- maintenance/preventive_engine/assignment_service.py: who owns an occurrence.
use spare_part.Base.{[], ℕ, suc, none, some, if◌then◌else◌, is_none}
use spare_part.Base.Text.{Text}
use spare_part.Base.Rows.{get, save, next_pk}
use spare_part.Base.Result.{Result, ok}
use spare_part.Base.Shut.{◌>>=◌, raise_if, or_raise}
use spare_part.Blockers.Tables.{LifecycleStatus, WorkOrder, order_row}
use spare_part.Blockers.Status.{is_in_progress}
use spare_part.Lifecycle.Tables.{WorkSheet, sheet_row}
use spare_part.Stock.Reservations.{same_wo}
use spare_part.Preventive.Calendar.{Moment}
use spare_part.Preventive.Tables.{PmExecution, Clock, Engine, execution_row}
use spare_part.Preventive.Occurrence.{
  EngineError, does_not_exist, no_owner, create_order, save_execution, order_of,
}

abbrev pub with_sheet : Engine → WorkSheet → Engine
with_sheet e s = record e { desk = record e.desk { sheets = save s e.desk.sheets } }

abbrev pub owned : PmExecution → ℕ → Moment → PmExecution
owned x technician now = record x { assigned_technician = some technician; assigned_at = some now }

-- `assign`
unfoldable pub assign : Engine → ℕ → ℕ → Clock → Result EngineError Engine
assign e k technician now = do
  x ← or_raise (get k e.executions) does_not_exist
  elim (order_of e x) [
    | none ↦ ok (
        save_execution (create_order e technician LifecycleStatus.assigned none none [])
          (record (owned x technician now.moment) {
            work_order = some (next_pk e.desk.board.orders);
          }))
    | some wo ↦ do
      s ← or_raise (get wo.pk e.desk.sheets) does_not_exist
      ok (
          save_execution (with_sheet e (record s { assigned_technician = some technician }))
            (owned x technician now.moment))
  ]

-- The timer of an order in progress begins anew for its new owner.
abbrev pub handed_over : WorkOrder → WorkSheet → ℕ → ℕ → WorkSheet
handed_over wo s technician now = record s {
  assigned_technician = some technician;
  labor_started_at = if is_in_progress wo.lifecycle_status then some now else s.labor_started_at;
}

abbrev pub reassigned : PmExecution → ℕ → Text → Moment → PmExecution
reassigned x technician reason now = record (owned x technician now) {
  reassignment_count = suc x.reassignment_count;
  last_reassignment_reason = reason;
}

-- `reassign`; to the same technician it does nothing.
unfoldable pub reassign : Engine → ℕ → ℕ → Text → Clock → Result EngineError Engine
reassign e k technician reason now = do
  x ← or_raise (get k e.executions) does_not_exist
  let moved = reassigned x technician reason now.moment
  if same_wo (some technician) x.assigned_technician then ok e else elim (order_of e x) [
    | none ↦ ok (save_execution e moved)
    | some wo ↦ do
      s ← or_raise (get wo.pk e.desk.sheets) does_not_exist
      ok (save_execution (with_sheet e (handed_over wo s technician now.stamp)) moved)
  ]

-- `validate_one_owner`
abbrev pub validate_one_owner : PmExecution → Result EngineError (Unit {0})
validate_one_owner x = raise_if (is_none x.assigned_technician) no_owner
