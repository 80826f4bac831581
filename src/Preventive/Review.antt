-- ===== src/Preventive/Review.antt =====
-- maintenance/services.py: the executions of preventive maintenance outside the engine. The templates and their
-- snapshots are left out.
use spare_part.Base.{
  ℕ, suc, Bool, true, false, not, ◌&&◌, ◌||◌, List, [], ◌∷◌, ◌++◌, Option, none, some, leb, ◌==◌,
  if◌then◌else◌, insert_last, find_first, is_none, count_if, take,
}
use spare_part.Base.Text.{Text, codes, strip, is_empty}
use spare_part.Base.Rows.{get, save}
use spare_part.Base.Result.{Result, ok, err}
use spare_part.Base.Shut.{◌>>=◌, ◌>>◌, raise_if, or_raise}
use spare_part.Blockers.Tables.{LifecycleStatus, order_row}
use spare_part.Lifecycle.Tables.{Desk}
use spare_part.Lifecycle.Service.{LifecycleError, same_stage}
use spare_part.Lifecycle.Technician.{Labels, close_held}
use spare_part.Preventive.Calendar.{Moment, earlier, moment_in, sub_days}
use spare_part.Preventive.Tables.{
  PmSchedule, ExecutionStatus, PmExecution, Clock, Engine, schedule_row, execution_row,
  is_occurrence, is_submitted, is_rejected, is_approved, is_missed,
}
use spare_part.Preventive.Scheduling.{compute_next_due_at, new_execution}
use spare_part.Preventive.Occurrence.{
  out_of_range, EngineError, does_not_exist, no_order, not_in_review, wrong_status, reason_required,
  order_of,
}

-- `next_pm_execution_sequence`
unfoldable pub last_sequence : ℕ → List PmExecution → ℕ
last_sequence schedule [] = 0
last_sequence schedule (x ∷ xs) =
    let rest = last_sequence schedule xs in
    if x.pm_schedule == schedule && leb rest x.execution_sequence
    then x.execution_sequence
    else rest

unfoldable pub next_pm_execution_sequence : ℕ → List PmExecution → ℕ
next_pm_execution_sequence schedule xs = suc (last_sequence schedule xs)

-- `create_pm_execution_for_wo`. The constraint of the table refuses a second execution of an occurrence.
unfoldable pub create_pm_execution_for_wo :
    Engine → ℕ → ℕ → Option ℕ → Clock → Result EngineError Engine
create_pm_execution_for_wo e k wo actor now = do
  s ← or_raise (get k e.schedules) does_not_exist
  raise_if (not (is_none (find_first (is_occurrence s.pk s.next_due_at) e.executions))) wrong_status
  ok (record e {
    executions =
        insert_last
          (record (new_execution e.executions s.pk s.next_due_at) {
            work_order = some wo;
            execution_sequence = next_pm_execution_sequence s.pk e.executions;
            completed_by = actor;
            completed_at = some now.moment;
          })
          e.executions;
  })

abbrev pub judged : PmExecution → ExecutionStatus → ℕ → Moment → Text → PmExecution
judged x status manager now notes = record x {
  status = status;
  approved_by = some manager;
  approved_at = some now;
  notes = notes;
}

-- The desk after the review of the order, whose errors leave the call.
abbrev pub reviewed_desk : Result LifecycleError Desk → Result EngineError Desk
reviewed_desk (ok d) = ok d
reviewed_desk (err e) = err wrong_status

-- `manager_approve_pm_execution`
unfoldable pub manager_approve_pm_execution :
    Engine → ℕ → ℕ → Labels → Clock → Result EngineError Engine
manager_approve_pm_execution e k manager t now = do
  x ← or_raise (get k e.executions) does_not_exist
  wo ← or_raise (order_of e x) no_order
  raise_if (not (same_stage wo.lifecycle_status LifecycleStatus.pending_review)) not_in_review
  raise_if (not (is_submitted x.status || is_rejected x.status)) wrong_status
  s ← or_raise (get x.pm_schedule e.schedules) does_not_exist
  d ← reviewed_desk (close_held e.desk wo manager true [] t now.stamp)
  due ← or_raise (compute_next_due_at s s.next_due_at) out_of_range
  ok (record e {
    desk = d;
    executions = save (judged x ExecutionStatus.approved manager now.moment x.notes) e.executions;
    schedules =
        save (record s { last_completed_at = some now.moment; next_due_at = due }) e.schedules;
  })

-- The notes with the rejection; `mark` is the bracket with its time.
abbrev pub rejection_notes : Text → Text → Text → Text
rejection_notes old mark reason =
    let base = strip old in
    (if is_empty base then [] else base ++ codes "\n\n") ++ (mark ++ take 500 (strip reason))

-- `manager_reject_pm_execution`
unfoldable pub manager_reject_pm_execution :
    Engine → ℕ → ℕ → Text → Text → Labels → Clock → Result EngineError Engine
manager_reject_pm_execution e k manager reason mark t now = do
  x ← or_raise (get k e.executions) does_not_exist
  wo ← or_raise (order_of e x) no_order
  raise_if (not (same_stage wo.lifecycle_status LifecycleStatus.pending_review)) not_in_review
  raise_if (not (is_submitted x.status)) wrong_status
  raise_if (is_empty (strip reason)) reason_required
  d ← reviewed_desk (close_held e.desk wo manager false reason t now.stamp)
  ok (record e {
    desk = d;
    executions =
        save
          (judged x ExecutionStatus.rejected manager now.moment
            (rejection_notes x.notes mark reason))
          e.executions;
  })

-- The counts of `compute_compliance`; the percentage, a float, is left out.
pub record Compliance : Type 0 where
  pub scheduled : ℕ
  pub on_time : ℕ
  pub approved_total : ℕ
  pub missed : ℕ
  pub pending : ℕ

abbrev pub is_on_machine : Option ℕ → List PmSchedule → PmExecution → Bool
is_on_machine none schedules x = true
is_on_machine (some m) schedules x = elim (get x.pm_schedule schedules) [
  | none ↦ false
  | some s ↦ s.machine == m
]

abbrev pub in_window : ℕ → Option ℕ → List PmSchedule → Moment → PmExecution → Bool
in_window days machine schedules now x =
    not (earlier x.scheduled_due_at (record now { date = sub_days days now.date }))
    && is_on_machine machine schedules x

abbrev pub was_on_time : ℕ → PmExecution → Bool
was_on_time days x = elim x.approved_at [
  | none ↦ false
  | some m ↦ not (earlier (moment_in days x.scheduled_due_at) m)
]

-- `compute_compliance`
unfoldable pub compute_compliance : Engine → ℕ → ℕ → Option ℕ → Moment → Compliance
compute_compliance e window_days grace_days machine now =
    let in_view = in_window window_days machine e.schedules now in
    record {
      scheduled = count_if in_view e.executions;
      on_time =
          count_if (λ x. in_view x && is_approved x.status && was_on_time grace_days x)
            e.executions;
      approved_total = count_if (λ x. in_view x && is_approved x.status) e.executions;
      missed = count_if (λ x. in_view x && is_missed x.status) e.executions;
      pending =
          count_if (λ x. in_view x && (is_submitted x.status || is_rejected x.status)) e.executions;
    }
