-- ===== src/Preventive/Scheduling.antt =====
-- maintenance/preventive_engine/scheduling_service.py, and the older `compute_next_due_at` of
-- maintenance/services.py. The rows of new executions get their keys in the order of the schedules' keys.
use spare_part.Base.{
  ℕ, suc, ◌+◌, ◌-◌, ◌*◌, ◌/◌, ◌%◌, Bool, true, false, not, ◌&&◌, ◌||◌, List, [], ◌∷◌, Option, none,
  some, leb, ◌==◌, if◌then◌else◌, find_first, insert_last,
}
use spare_part.Base.Rows.{save, next_pk}
use spare_part.Preventive.Calendar.{
  make_aware, in_calendar, Date, Moment, days_in_month, earlier_day, same_day, earlier, moment_in,
}
use spare_part.Preventive.Tables.{
  FrequencyType, daily, weekly, monthly, yearly, unlisted, PmSchedule, ExecutionStatus, PmExecution,
  Engine, schedule_row, execution_row, is_occurrence, is_submitted,
}

abbrev pub at_least_one : ℕ → ℕ
at_least_one n = if leb 1 n then n else 1

abbrev pub clamped : ℕ → ℕ → ℕ → ℕ
clamped year month day = let last = days_in_month year month in if leb day last then day else last

-- `_add_months`
unfoldable pub add_months : Moment → ℕ → Moment
add_months dt months =
    let n = dt.date.month - 1 + months in
    let year = dt.date.year + n / 12 in
    let month = n % 12 + 1 in
    record dt { date = record { year = year; month = month; day = clamped year month dt.date.day } }

-- The due moment of a cycle that begins at `base`.
unfoldable pub advanced : FrequencyType → ℕ → Moment → Moment
advanced daily n base = moment_in n base
advanced weekly n base = moment_in (7 * n) base
advanced monthly n base = add_months base n
advanced yearly n base = add_months base (12 * n)
advanced unlisted n base = moment_in (30 * n) base

-- `next_due_at`. Its second argument, the present, stands in for a due moment that is missing, which the column
-- does not allow.
unfoldable pub next_due_at : PmSchedule → Option Moment
next_due_at s = in_calendar (advanced s.frequency_type (at_least_one s.interval) s.next_due_at)

-- What `compute_next_due_at` of maintenance/services.py computes.
unfoldable pub computed : PmSchedule → Moment → Moment
computed s base = elim s.frequency_type [
  | daily ↦ moment_in s.interval base
  | weekly ↦ moment_in (7 * s.interval) base
  | monthly ↦
      let n = base.date.month - 1 + s.interval in
      let year = base.date.year + n / 12 in
      let month = n % 12 + 1 in
      record base {
        date = record { year = year; month = month; day = clamped year month base.date.day };
      }
  | yearly ↦
      let year = base.date.year + s.interval in
      record base {
        date = record {
          year = year;
          month = base.date.month;
          day = clamped year base.date.month base.date.day;
        };
      }
  | unlisted ↦ moment_in (30 * s.interval) base
]

-- `compute_next_due_at` of maintenance/services.py
unfoldable pub compute_next_due_at : PmSchedule → Moment → Option Moment
compute_next_due_at s base = in_calendar (computed s base)

-- Has the schedule ended before the day?
abbrev pub has_ended : Date → PmSchedule → Bool
has_ended today s = elim s.ends_at [ none ↦ false | some e ↦ earlier_day e today ]

-- The schedules of the two queries: due on the local day, or due before it and not ended.
abbrev pub is_eligible : Date → PmSchedule → Bool
is_eligible today s =
    let day_start = make_aware today 0 in
    s.is_active
    && (not (earlier s.next_due_at day_start) && earlier s.next_due_at (moment_in 1 day_start)
        || earlier s.next_due_at day_start && not (has_ended today s))

abbrev pub new_execution : List PmExecution → ℕ → Moment → PmExecution
new_execution xs schedule due = record {
  pk = next_pk xs;
  pm_schedule = schedule;
  work_order = none;
  scheduled_due_at = due;
  execution_sequence = 1;
  completed_by = none;
  completed_at = none;
  approved_by = none;
  approved_at = none;
  status = ExecutionStatus.submitted;
  notes = [];
  assigned_technician = none;
  assigned_at = none;
  reassignment_count = 0;
  last_reassignment_reason = [];
  rejected_by = none;
  rejected_at = none;
  rejection_reason = [];
}

-- `PMExecution.objects.get_or_create`, with whether a row was created.
unfoldable pub get_or_create : ℕ → Moment → List PmExecution → List PmExecution × Bool
get_or_create schedule due xs = elim (find_first (is_occurrence schedule due) xs) [
  | none ↦ (insert_last (new_execution xs schedule due) xs, true)
  | some x ↦ (xs, false)
]

abbrev pub due_on : Date → PmSchedule → Moment
due_on today s = make_aware today s.due_time

-- The loop over the schedules, with the number of rows that it created.
unfoldable pub generate_each : List PmSchedule → Date → List PmExecution → ℕ → List PmExecution × ℕ
generate_each [] today xs created = (xs, created)
generate_each (s ∷ ss) today xs created =
    let r = get_or_create s.pk (due_on today s) xs in
    let wanted = is_eligible today s && not (has_ended today s) in
    generate_each ss today (if wanted then r.0 else xs)
      (if wanted && r.1 then suc created else created)

pub record Summary : Type 0 where
  pub skipped : Bool
  pub count : ℕ

abbrev pub ran_on : Date → Option Moment → Bool
ran_on today last = elim last [ none ↦ false | some m ↦ same_day m.date today ]

-- `generate_today`
unfoldable pub generate_today : Engine → Date → Bool → Moment → Engine × Summary
generate_today e today force now =
    let r = generate_each e.schedules today e.executions 0 in
    if not force && ran_on today e.last_generate_run
    then (e, record { skipped = true; count = 0 })
    else (
      record e { executions = r.0; last_generate_run = some now },
      record { skipped = false; count = r.1 },
    )

-- `pm_schedule.grace_days or 7`
abbrev pub grace : PmSchedule → ℕ
grace s = if s.grace_days == 0 then 7 else s.grace_days

-- `is_overdue`
abbrev pub is_overdue : PmSchedule → PmExecution → Moment → Bool
is_overdue s x now = is_submitted x.status && earlier (moment_in (grace s) x.scheduled_due_at) now

-- `mark_overdue`
unfoldable pub mark_overdue : Engine → PmSchedule → PmExecution → Moment → Engine
mark_overdue e s x now =
    if is_overdue s x now
    then record e { executions = save (record x { status = ExecutionStatus.missed }) e.executions }
    else e
