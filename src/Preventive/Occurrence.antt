-- ===== src/Preventive/Occurrence.antt =====
-- maintenance/preventive_engine/occurrence_service.py. An execution is given by its key, and its objects are
-- read when the call begins. Texts made for display (the note of a log, the heading of an attempt) are arguments.
use spare_part.Base.{
  ◌*◌, ◌/◌, ℕ, suc, Bool, false, not, ◌&&◌, ◌||◌, List, [], ◌∷◌, ◌++◌, Option, none, some, ltb,
  if◌then◌else◌, insert_last, is_none,
}
use spare_part.Base.Text.{Text, codes, strip, is_empty}
use spare_part.Base.Rows.{get, save, next_pk}
use spare_part.Base.Result.{Result, ok}
use spare_part.Base.Shut.{◌>>=◌, ◌>>◌, raise_if, or_raise}
use spare_part.Blockers.Tables.{LifecycleStatus, OperationalStatus, WorkOrder, order_row}
use spare_part.Lifecycle.Tables.{Desk, WorkSheet, WorkOrderStateLog, sheet_row}
use spare_part.Lifecycle.Service.{same_stage}
use spare_part.Preventive.Calendar.{Moment}
use spare_part.Preventive.Tables.{
  PmSchedule, ExecutionStatus, PmExecution, WorkReport, Clock, Engine, schedule_row, execution_row,
  report_row, is_rejected,
}
use spare_part.Preventive.Scheduling.{next_due_at, get_or_create}

-- `nothing_done`, `photos_missing` and `not_started` are the errors of a `CompleteResult`, which come before
-- every write; `out_of_range` is Python's error past the year 9999, `no_order` is the `AttributeError` of an execution without an order.
pub data EngineError : Type 0 where
  does_not_exist nothing_done photos_missing not_started no_order reason_required : EngineError
  not_in_review wrong_status no_owner out_of_range : EngineError

pub record ChecklistResult : Type 0 where
  pub checked : Bool
  pub text : Text
  pub note : Text

abbrev pub log_stage :
    Desk → ℕ → Option LifecycleStatus → LifecycleStatus → ℕ → Text → List WorkOrderStateLog
log_stage d wo from to actor note =
    insert_last
      (record { work_order = wo; from_status = from; to_status = to; actor = actor; note = note })
      d.state_logs

-- `WorkOrder.objects.create`, with the defaults of its columns.
abbrev pub new_order : ℕ → LifecycleStatus → WorkOrder
new_order k stage = record {
  pk = k;
  lifecycle_status = stage;
  operational_status = OperationalStatus.paused;
  is_emergency = false;
  is_archived = false;
  blocker_system_version = 1;
}

abbrev pub new_sheet : ℕ → ℕ → Option ℕ → Option ℕ → WorkSheet
new_sheet k technician started stopped = record {
  work_order = k;
  assigned_technician = some technician;
  labor_started_at = started;
  labor_stopped_at = stopped;
  downtime_started_at = none;
  downtime_ended_at = none;
  rejected_at = none;
  rejected_by = none;
  rejection_reason = [];
  rejection_count = 0;
  archived_at = none;
  archived_by = none;
}

unfoldable pub create_order : Engine → ℕ → LifecycleStatus → Option ℕ → Option ℕ → Text → Engine
create_order e technician stage started stopped action =
    let k = next_pk e.desk.board.orders in
    record e {
      desk = record e.desk {
        board = record e.desk.board {
          orders = insert_last (new_order k stage) e.desk.board.orders;
        };
        sheets = insert_last (new_sheet k technician started stopped) e.desk.sheets;
      };
      reports =
          insert_last
            (record { work_order = k; action_taken = action; root_cause = []; photo_count = 0 })
            e.reports;
    }

-- The row of the order, its sheet and a log of its new stage.
abbrev pub put_order : Desk → WorkOrder → WorkSheet → Option LifecycleStatus → ℕ → Text → Desk
put_order d wo s from actor note = record d {
  board = record d.board { orders = save wo d.board.orders };
  sheets = save s d.sheets;
  state_logs = log_stage d wo.pk from wo.lifecycle_status actor note;
}

abbrev pub save_execution : Engine → PmExecution → Engine
save_execution e x = record e { executions = save x e.executions }

abbrev pub order_of : Engine → PmExecution → Option WorkOrder
order_of e x = elim x.work_order [ none ↦ none | some k ↦ get k e.desk.board.orders ]

-- `timezone.now().replace(...)`: the hour and the minute of the schedule are taken as those of UTC here.
abbrev pub due_at_call : Moment → PmSchedule → Moment
due_at_call now s = record now { time = s.due_time / 60 * 60 }

-- `get_or_create_for_today`
unfoldable pub get_or_create_for_today : Engine → PmSchedule → Clock → Engine
get_or_create_for_today e s now = record e {
  executions = (get_or_create s.pk (due_at_call now.moment s) e.executions).0;
}

-- The order that `start` makes, and the execution that it belongs to from then on.
unfoldable pub start_new : Engine → PmExecution → ℕ → Text → Clock → Engine
start_new e x technician note now =
    let k = next_pk e.desk.board.orders in
    let made = create_order e technician LifecycleStatus.in_progress (some now.stamp) none [] in
    save_execution
      (record made {
        desk = record made.desk {
          state_logs = log_stage made.desk k none LifecycleStatus.in_progress technician note;
        };
      })
      (record x {
        work_order = some k;
        completed_by = some technician;
        completed_at = some now.moment;
      })

-- `start`
unfoldable pub start : Engine → ℕ → ℕ → Text → Clock → Result EngineError Engine
start e k technician note now = do
  x ← or_raise (get k e.executions) does_not_exist
  elim (order_of e x) [
    | none ↦ ok (start_new e x technician note now)
    | some wo ↦ do
      s ← or_raise (get wo.pk e.desk.sheets) does_not_exist
      if same_stage wo.lifecycle_status LifecycleStatus.assigned
          then ok (record e {
            desk =
                put_order e.desk (record wo { lifecycle_status = LifecycleStatus.in_progress })
                  (record s {
                    labor_started_at = some now.stamp;
                    assigned_technician = some technician;
                  })
                  (some LifecycleStatus.assigned) technician note;
          })
          else ok e
  ]

abbrev pub is_checked_somewhere : List ChecklistResult → Bool
is_checked_somewhere [] = false
is_checked_somewhere (r ∷ rs) = r.checked || is_checked_somewhere rs

abbrev pub lines_of : List ChecklistResult → List Text
lines_of [] = []
lines_of (r ∷ rs) =
    let rest = lines_of rs in
    ((if r.checked then codes "[✓] " else codes "[✗] ") ++ r.text)
    ∷ (if is_empty r.note then rest else (codes "  Note: " ++ r.note) ∷ rest)

-- `"\n".join(lines)`
abbrev pub join_lines : List Text → Text
join_lines [] = []
join_lines (x ∷ []) = x
join_lines (x ∷ y ∷ ys) = x ++ (b'\n' ∷ join_lines (y ∷ ys))

abbrev pub attempt_block : List ChecklistResult → Text → Text
attempt_block results notes =
    join_lines
      (lines_of results ++ (if is_empty notes then [] else [] ∷ (codes "Notes: " ++ notes) ∷ []))

-- The text that a submission leaves: a later attempt is appended under its heading.
abbrev pub action_after : Bool → Text → Text → Text → Text
action_after again old heading block =
    if again
    then (if is_empty old then heading ++ block else old ++ (codes "\n\n" ++ (heading ++ block)))
    else block

abbrev pub resubmitted : PmExecution → PmExecution
resubmitted x = record x {
  status = ExecutionStatus.submitted;
  rejected_at = none;
  rejected_by = none;
  rejection_reason = [];
}

abbrev pub submitted_sheet : Bool → WorkOrder → WorkSheet → ℕ → WorkSheet
submitted_sheet again wo s now = record s {
  rejection_count = if again then suc s.rejection_count else s.rejection_count;
  labor_stopped_at =
      if same_stage wo.lifecycle_status LifecycleStatus.pending_review
      then s.labor_stopped_at
      else some now;
}

-- What the technician hands in.
pub record Submission : Type 0 where
  pub results : List ChecklistResult
  pub notes : Text
  pub photo_count : ℕ
  pub required_photo_count : ℕ
  pub root_cause : Text
  pub heading : ℕ → Text
  pub log_note : Text

unfoldable pub hand_in :
    Engine → PmExecution → WorkOrder → WorkSheet → WorkReport → ℕ → Submission → ℕ → Engine
hand_in e x wo s p technician t now =
    let again = is_rejected x.status in
    let saved = save_execution e (if again then resubmitted x else x) in
    record saved {
      desk =
          put_order e.desk (record wo { lifecycle_status = LifecycleStatus.pending_review })
            (submitted_sheet again wo s now) (some LifecycleStatus.in_progress) technician
            t.log_note;
      reports =
          save
            (record p {
              action_taken =
                  action_after again p.action_taken (t.heading (suc (suc s.rejection_count)))
                    (attempt_block t.results t.notes);
              root_cause = if is_empty t.root_cause then p.root_cause else t.root_cause;
              photo_count = t.photo_count;
            })
            e.reports;
    }

-- `complete`
unfoldable pub complete : Engine → ℕ → ℕ → Submission → Clock → Result EngineError Engine
complete e k technician t now = do
  x ← or_raise (get k e.executions) does_not_exist
  raise_if (not (is_checked_somewhere t.results || not (is_empty (strip t.notes)))) nothing_done
  raise_if (ltb 0 t.required_photo_count && ltb t.photo_count t.required_photo_count) photos_missing
  wo ← or_raise (order_of e x) not_started
  s ← or_raise (get wo.pk e.desk.sheets) does_not_exist
  p ← or_raise (get wo.pk e.reports) does_not_exist
  ok (hand_in e x wo s p technician t now.stamp)

abbrev pub returned : PmExecution → ℕ → Text → Moment → PmExecution
returned x manager reason now = record x {
  status = ExecutionStatus.rejected;
  rejected_by = some manager;
  rejected_at = some now;
  rejection_reason = reason;
}

abbrev pub returned_sheet : WorkSheet → ℕ → Text → ℕ → WorkSheet
returned_sheet s manager reason now = record s {
  rejected_at = some now;
  rejected_by = some manager;
  rejection_reason = reason;
  rejection_count = suc s.rejection_count;
}

-- `return_to_technician`
unfoldable pub return_to_technician :
    Engine → ℕ → ℕ → Text → Text → Clock → Result EngineError Engine
return_to_technician e k manager reason note now = do
  x ← or_raise (get k e.executions) does_not_exist
  raise_if (is_empty (strip reason)) reason_required
  wo ← or_raise (order_of e x) no_order
  s ← or_raise (get wo.pk e.desk.sheets) does_not_exist
  let saved = save_execution e (returned x manager reason now.moment)
  ok (record saved {
    desk =
        put_order e.desk (record wo { lifecycle_status = LifecycleStatus.in_progress })
          (returned_sheet s manager reason now.stamp) (some LifecycleStatus.pending_review) manager
          note;
  })

-- The technician who is assigned stands in for one who is not recorded.
abbrev pub approved_execution : PmExecution → ℕ → Moment → PmExecution
approved_execution x manager now = record x {
  status = ExecutionStatus.approved;
  approved_by = some manager;
  approved_at = some now;
  completed_by = if is_none x.completed_by then x.assigned_technician else x.completed_by;
}

abbrev pub close_desk : Desk → Option WorkOrder → ℕ → Text → Desk
close_desk d wo manager note = elim wo [
  | none ↦ d
  | some o ↦ record d {
    board = record d.board {
      orders = save (record o { lifecycle_status = LifecycleStatus.closed }) d.board.orders;
    };
    state_logs =
        log_stage d o.pk (some LifecycleStatus.pending_review) LifecycleStatus.closed manager note;
  }
]

abbrev pub advance : PmSchedule → Moment → Moment → PmSchedule
advance s due now = record s { next_due_at = due; last_completed_at = some now }

-- `approve` of an execution that was read.
unfoldable pub approve_execution :
    Engine → PmExecution → ℕ → Text → Clock → Result EngineError Engine
approve_execution e x manager note now = do
  s ← or_raise (get x.pm_schedule e.schedules) does_not_exist
  due ← or_raise (next_due_at s) out_of_range
  ok (record e {
    desk = close_desk e.desk (order_of e x) manager note;
    executions = save (approved_execution x manager now.moment) e.executions;
    schedules = save (advance s due now.moment) e.schedules;
  })

unfoldable pub approve : Engine → ℕ → ℕ → Text → Clock → Result EngineError Engine
approve e k manager note now = do
  x ← or_raise (get k e.executions) does_not_exist
  approve_execution e x manager note now

abbrev pub done_by : PmExecution → ℕ → Moment → PmExecution
done_by x manager now = record x { completed_by = some manager; completed_at = some now }

-- `mark_done`
unfoldable pub mark_done : Engine → ℕ → ℕ → Text → Clock → Result EngineError Engine
mark_done e k manager note now = do
  x ← or_raise (get k e.executions) does_not_exist
  elim (order_of e x) [
    | some wo ↦
        let done = done_by x manager now.moment in
        approve_execution (save_execution e done) done manager note now
    | none ↦
        let done = record (done_by x manager now.moment) {
          work_order = some (next_pk e.desk.board.orders);
        } in
        approve_execution
          (save_execution
            (create_order e manager LifecycleStatus.closed (some now.stamp) (some now.stamp)
              (codes "[Manager-completed] Manual mark done by manager."))
            done)
          done manager note now
  ]
