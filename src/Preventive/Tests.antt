-- ===== src/Preventive/Tests.antt =====
-- Small schedules, and the theorems about maintenance/preventive_engine at them.
use spare_part.Base.{ℕ, true, false, ◌≡◌, ◌≤◌, ◌+◌, refl, [], ◌∷◌, none, some, arith}
use spare_part.Preventive.Calendar.{
  Date, Moment, earlier, days_in_month, make_aware, previous_day, add_days, next_day,
}
use spare_part.Preventive.Tables.{FrequencyType, PmSchedule, ExecutionStatus, Engine, Clock}
use spare_part.Preventive.Scheduling.{
  computed, next_due_at, compute_next_due_at, generate_today, generate_each, get_or_create,
  add_months, advanced, new_execution,
}
use spare_part.Preventive.Review.{compute_compliance}
use spare_part.Preventive.Advance.{IsDay, next_due_at_later, next_due_at-eq-compute_next_due_at}
use spare_part.Preventive.Occurrences.{HasSingle}
use spare_part.Preventive.Singles.{run-HasSingle}
use spare_part.Preventive.Generation.{all_served, generate_twice}
use spare_part.Preventive.Counts.{compliance_adds_up}
use spare_part.Preventive.Steps.{run, generates, approves}

abbrev date : ℕ → ℕ → ℕ → Date
date y m d = record { year = y; month = m; day = d }

abbrev eight : Date → Moment
eight d = record { date = d; time = 28800 }

-- Every month, on the last of January 2026.
abbrev monthly_check : PmSchedule
monthly_check = record {
  pk = 1;
  machine = 4;
  frequency_type = FrequencyType.monthly;
  interval = 1;
  next_due_at = eight (date 2026 1 31);
  last_completed_at = none;
  grace_days = 7;
  due_time = 28800;
  ends_at = none;
  is_active = true;
}

abbrev yearly_check : PmSchedule
yearly_check = record monthly_check {
  pk = 2;
  frequency_type = FrequencyType.yearly;
  next_due_at = eight (date 2024 2 29);
}

abbrev plant : Engine
plant = record {
  desk = record {
    board = record { orders = []; blockers = []; events = []; repair_requests = [] };
    lines = [];
    reservations = [];
    sheets = [];
    state_logs = [];
    downtimes = [];
    assignments = [];
  };
  reports = [];
  schedules = monthly_check ∷ yearly_check ∷ [];
  executions = [];
  last_generate_run = none;
}

abbrev noon : Clock
noon = record { moment = record { date = date 2026 1 31; time = 43200 }; stamp = 9 }

february_end-IsDay : IsDay (date 2024 2 29)
unfolding days_in_month
february_end-IsDay = record {
  month_low = omega arith;
  month_high = omega arith;
  day_low = omega arith;
  day_high = omega arith;
}

next_due_at_later_example :
    (m : Moment) × (next_due_at yearly_check ≡ some m)
    × (earlier yearly_check.next_due_at m ≡ true)
    × IsDay m.date
    × (m.time ≡ yearly_check.next_due_at.time)
next_due_at_later_example = next_due_at_later yearly_check february_end-IsDay (ground arith)

next_due_at-eq-compute_next_due_at_example :
    next_due_at yearly_check ≡ compute_next_due_at yearly_check yearly_check.next_due_at
next_due_at-eq-compute_next_due_at_example =
    next_due_at-eq-compute_next_due_at yearly_check (omega arith) february_end-IsDay

-- A check on the last of January is due on the 28th of every month from February on.
month_end_drifts :
    next_due_at (record monthly_check { next_due_at = eight (date 2026 2 28) })
    ≡ some (eight (date 2026 3 28))
unfolding next_due_at advanced add_months days_in_month
month_end_drifts = refl

-- With an interval of 0 the older computation stays where it is.
interval_zero :
    compute_next_due_at (record monthly_check { interval = 0 }) monthly_check.next_due_at
    ≡ some monthly_check.next_due_at
unfolding compute_next_due_at computed days_in_month
interval_zero = refl

-- A schedule of every ten thousand years raises.
out_of_calendar : next_due_at (record yearly_check { interval = 10000 }) ≡ none
unfolding next_due_at advanced add_months days_in_month
out_of_calendar = refl

run-HasSingle_example :
    HasSingle 1
      (eight (date 2026 1 31))
      (run plant (generates (date 2026 1 31) true noon ∷ approves 1 3 [] noon ∷ []))
run-HasSingle_example = run-HasSingle 1 (eight (date 2026 1 31)) plant _ (omega arith)

generate_twice_example :
    (all_served
        (date 2026 1 31)
        (generate_today plant (date 2026 1 31) true noon.moment).0.executions
        plant.schedules
      ≡ true)
    × ((generate_today
          (generate_today plant (date 2026 1 31) true noon.moment).0
          (date 2026 1 31)
          false
          noon.moment).1.count
        ≡ 0)
    × ((generate_today
          (generate_today plant (date 2026 1 31) true noon.moment).0
          (date 2026 1 31)
          false
          noon.moment).0.executions
        ≡ (generate_today plant (date 2026 1 31) true noon.moment).0.executions)
generate_twice_example = generate_twice plant (date 2026 1 31) false noon.moment noon.moment

-- Both schedules are due: the second one was passed over.
generate_counts : (generate_today plant (date 2026 1 31) false noon.moment).1.count ≡ 2
unfolding generate_today generate_each get_or_create make_aware previous_day add_days next_day
    days_in_month
generate_counts = refl

abbrev reviewed : Engine
reviewed = record plant {
  executions =
      record (new_execution [] 1 (eight (date 2026 1 31))) {
        status = ExecutionStatus.approved;
        approved_at = some (eight (date 2026 2 3));
      }
      ∷ [];
}

compliance_adds_up_example :
    ((compute_compliance reviewed 90 7 none noon.moment).scheduled
      ≡ (compute_compliance reviewed 90 7 none noon.moment).approved_total
        + (compute_compliance reviewed 90 7 none noon.moment).missed
        + (compute_compliance reviewed 90 7 none noon.moment).pending)
    × ((compute_compliance reviewed 90 7 none noon.moment).on_time
        ≤ (compute_compliance reviewed 90 7 none noon.moment).approved_total)
compliance_adds_up_example = compliance_adds_up reviewed 90 7 none noon.moment
