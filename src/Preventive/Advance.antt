-- ===== src/Preventive/Advance.antt =====
-- The next due moment of a schedule is later, and the two computations of it agree.
use spare_part.Base.{some, ap, ℕ, zero, suc, ◌+◌, ◌-◌, ◌*◌, ◌/◌, ◌%◌, ◌≤◌, ◌≡◌, refl, true, arith}
use spare_part.Preventive.Calendar.{
  in_calendar, Date, Moment, days_in_month, next_day, add_days, earlier_day, earlier, moment_in,
}
use spare_part.Preventive.Tables.{
  FrequencyType, daily, weekly, monthly, yearly, unlisted, PmSchedule,
}
use spare_part.Preventive.Scheduling.{
  computed, compute_next_due_at, clamped, add_months, advanced, next_due_at, at_least_one,
}

-- A day of the calendar.
pub record IsDay (d : Date) : Type 0 where
  pub month_low : 1 ≤ d.month
  pub month_high : d.month ≤ 12
  pub day_low : 1 ≤ d.day
  pub day_high : d.day ≤ days_in_month d.year d.month

days_in_month_pos : (y m : ℕ) → 28 ≤ days_in_month y m
unfolding days_in_month
days_in_month_pos y m = ground arith

next_day-IsDay : (d : Date) → IsDay d → IsDay (next_day d)
unfolding next_day
next_day-IsDay d v =
    ground (arith, days_in_month_pos d.year (d.month + 1), days_in_month_pos (d.year + 1) 1)

next_day_later : (d : Date) → earlier_day d (next_day d) ≡ true
unfolding next_day
next_day_later d = ground arith

earlier_day_trans :
    (a b c : Date) → earlier_day a b ≡ true → earlier_day b c ≡ true → earlier_day a c ≡ true
earlier_day_trans a b c h k = ground arith

add_days-IsDay : (n : ℕ) (d : Date) → IsDay d → IsDay (add_days n d)
unfolding add_days
add_days-IsDay zero d v = v
add_days-IsDay (suc n) d v = add_days-IsDay n (next_day d) (next_day-IsDay d v)

add_days_later : (n : ℕ) (d : Date) → earlier_day d (add_days (suc n) d) ≡ true
unfolding add_days
add_days_later zero d = next_day_later d
add_days_later (suc n) d =
    earlier_day_trans d (next_day d) (add_days (suc n) (next_day d)) (next_day_later d)
      (add_days_later n (next_day d))

earlier_of_day : (a b : Moment) → earlier_day a.date b.date ≡ true → earlier a b ≡ true
earlier_of_day a b h = ground arith

-- What an advance must do to a moment.
record Advances (a b : Moment) : Type 0 where
  later : earlier a b ≡ true
  valid : IsDay b.date
  same_time : b.time ≡ a.time

moment_in-Advances : (n : ℕ) (m : Moment) → 1 ≤ n → IsDay m.date → Advances m (moment_in n m)
moment_in-Advances zero m h v = absurd (omega arith)
moment_in-Advances (suc n) m h v = record {
  later = earlier_of_day m (moment_in (suc n) m) (add_days_later n m.date);
  valid = add_days-IsDay (suc n) m.date v;
  same_time = refl;
}

add_months-Advances : (n : ℕ) (m : Moment) → 1 ≤ n → IsDay m.date → Advances m (add_months m n)
unfolding add_months
add_months-Advances n m h v =
    let k = m.date.month - 1 + n in
    record {
      later = earlier_of_day m (add_months m n) (ground arith);
      valid = ground (arith, days_in_month_pos (m.date.year + k / 12) (k % 12 + 1));
      same_time = refl;
    }

advanced-Advances :
    (f : FrequencyType) (n : ℕ) (m : Moment) → 1 ≤ n → IsDay m.date → Advances m (advanced f n m)
unfolding advanced
advanced-Advances daily n m h v = moment_in-Advances n m h v
advanced-Advances weekly n m h v = moment_in-Advances (7 * n) m (omega arith) v
advanced-Advances monthly n m h v = add_months-Advances n m h v
advanced-Advances yearly n m h v = add_months-Advances (12 * n) m (omega arith) v
advanced-Advances unlisted n m h v = moment_in-Advances (30 * n) m (omega arith) v

fits : (m : Moment) → m.date.year ≤ 9999 → in_calendar m ≡ some m
fits m h = ground (arith, h)

next_day_year : (d : Date) → (next_day d).year ≤ d.year + 1
unfolding next_day
next_day_year d = ground arith

add_days_year : (n : ℕ) (d : Date) → (add_days n d).year ≤ d.year + n
unfolding add_days
add_days_year zero d = omega arith
add_days_year (suc n) d = omega (arith, add_days_year n (next_day d), next_day_year d)

add_months_years :
    (n k : ℕ) (m : Moment)
    → IsDay m.date
    → k ≤ 12 * n
    → 1 ≤ n
    → (add_months m k).date.year ≤ m.date.year + n
unfolding add_months
add_months_years n k m v h one =
    let years : (m.date.month - 1 + k) / 12 ≤ n = omega (arith, v.month_low, v.month_high, h) in
    omega (arith, years)

-- A month counts as a year here, and a day too.
advanced_year :
    (f : FrequencyType) (n : ℕ) (m : Moment)
    → 1 ≤ n
    → IsDay m.date
    → (advanced f n m).date.year ≤ m.date.year + 30 * n
unfolding advanced
advanced_year daily n m h v = omega (arith, add_days_year n m.date)
advanced_year weekly n m h v = omega (arith, add_days_year (7 * n) m.date)
advanced_year monthly n m h v = omega (arith, add_months_years n n m v (omega arith) h)
advanced_year yearly n m h v = omega (arith, add_months_years n (12 * n) m v (omega arith) h)
advanced_year unlisted n m h v = omega (arith, add_days_year (30 * n) m.date)

-- From a day of the calendar a schedule advances without an error to a later day of the calendar, at the same time
-- of the day, whatever its frequency, if the year is far enough from 9999: by thirty years for each unit of the
-- interval, which counts as 1 where it is 0.
pub next_due_at_later :
    (s : PmSchedule)
    → IsDay s.next_due_at.date
    → s.next_due_at.date.year + 30 * at_least_one s.interval ≤ 9999
    → (m : Moment) × (next_due_at s ≡ some m)
      × (earlier s.next_due_at m ≡ true)
      × IsDay m.date
      × (m.time ≡ s.next_due_at.time)
unfolding next_due_at
next_due_at_later s v h =
    let n = at_least_one s.interval in
    let a = advanced-Advances s.frequency_type n s.next_due_at (ground arith) v in
    let year = advanced_year s.frequency_type n s.next_due_at (ground arith) v in
    let m = advanced s.frequency_type n s.next_due_at in
    (m, fits m (omega (arith, year, h)), a.later, a.valid, a.same_time)

-- A year is twelve months.
add_months_year :
    (i : ℕ) (m : Moment)
    → IsDay m.date
    → add_months m (12 * i) ≡ record m {
      date = record {
        year = m.date.year + i;
        month = m.date.month;
        day = clamped (m.date.year + i) m.date.month m.date.day;
      };
    }
unfolding add_months
add_months_year i m v =
    let years : (m.date.month - 1 + 12 * i) / 12 ≡ i = omega (arith, v.month_low, v.month_high) in
    let months : (m.date.month - 1 + 12 * i) % 12 + 1 ≡ m.date.month =
      omega (arith, v.month_low, v.month_high) in
    rw (years, months) refl

at_least_one_same : (n : ℕ) → 1 ≤ n → at_least_one n ≡ n
at_least_one_same n h = ground arith

advanced-computed :
    (s : PmSchedule) (m : Moment) (f : FrequencyType)
    → IsDay m.date
    → advanced f s.interval m ≡ computed (record s { frequency_type = f }) m
unfolding advanced computed
advanced-computed s m daily v = refl
advanced-computed s m weekly v = refl
advanced-computed s m monthly v = unfold add_months in refl
advanced-computed s m yearly v = add_months_year s.interval m v
advanced-computed s m unlisted v = refl

-- `next_due_at` of the engine and `compute_next_due_at` of maintenance/services.py at the due moment of the
-- schedule, a day of the calendar, agree for every frequency, where the interval is positive: they are the same
-- moment, or both raise.
pub next_due_at-eq-compute_next_due_at :
    (s : PmSchedule)
    → 1 ≤ s.interval
    → IsDay s.next_due_at.date
    → next_due_at s ≡ compute_next_due_at s s.next_due_at
unfolding next_due_at compute_next_due_at
next_due_at-eq-compute_next_due_at s h v =
    ap in_calendar
      (rw (at_least_one_same s.interval h) (advanced-computed s s.next_due_at s.frequency_type v))
