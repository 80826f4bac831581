-- ===== src/Preventive/Calendar.antt =====
-- The dates of Python's standard library, as far as maintenance/preventive_engine/scheduling_service.py uses
-- them: `date`, `datetime`, the addition of whole days, and `calendar.monthrange`. A moment is one of UTC, as Django
-- hands it out. Years are bounded where a due moment is computed (`in_calendar`).
use spare_part.Base.{
  none, some, Option, leb, ◌-◌, ℕ, zero, suc, ◌+◌, ◌%◌, Bool, not, ◌&&◌, ◌||◌, ltb, ◌==◌,
  if◌then◌else◌,
}

pub record Date : Type 0 where
  pub year : ℕ
  pub month : ℕ
  pub day : ℕ

-- A `datetime`: a day, and the seconds since it began.
pub record Moment : Type 0 where
  pub date : Date
  pub time : ℕ

abbrev pub is_leap : ℕ → Bool
is_leap y = y % 4 == 0 && (not (y % 100 == 0) || y % 400 == 0)

-- `calendar.monthrange(year, month)[1]`
unfoldable pub days_in_month : ℕ → ℕ → ℕ
days_in_month y m =
    if m == 2
    then (if is_leap y then 29 else 28)
    else if m == 4 || m == 6 || m == 9 || m == 11
    then 30
    else 31

unfoldable pub next_day : Date → Date
next_day d =
    if ltb d.day (days_in_month d.year d.month)
    then record d { day = d.day + 1 }
    else if ltb d.month 12
    then record { year = d.year; month = d.month + 1; day = 1 }
    else record { year = d.year + 1; month = 1; day = 1 }

-- `d + timedelta(days=n)`
unfoldable pub add_days : ℕ → Date → Date
add_days zero d = d
add_days (suc n) d = add_days n (next_day d)

-- The day before; of the first of a January, the end of the year before.
unfoldable pub previous_day : Date → Date
previous_day d =
    if ltb 1 d.day
    then record d { day = d.day - 1 }
    else if ltb 1 d.month
    then record { year = d.year; month = d.month - 1; day = days_in_month d.year (d.month - 1) }
    else record { year = d.year - 1; month = 12; day = 31 }

-- `d - timedelta(days=n)`
unfoldable pub sub_days : ℕ → Date → Date
sub_days zero d = d
sub_days (suc n) d = sub_days n (previous_day d)

-- `a < b`
abbrev pub earlier_day : Date → Date → Bool
earlier_day a b =
    if a.year == b.year
    then (if a.month == b.month then ltb a.day b.day else ltb a.month b.month)
    else ltb a.year b.year

abbrev pub same_day : Date → Date → Bool
same_day a b = a.year == b.year && a.month == b.month && a.day == b.day

abbrev pub earlier : Moment → Moment → Bool
earlier a b = if same_day a.date b.date then ltb a.time b.time else earlier_day a.date b.date

abbrev pub same_moment : Moment → Moment → Bool
same_moment a b = same_day a.date b.date && a.time == b.time

-- The hour of the settings' time zone, Asia/Riyadh, which is three hours ahead and has no daylight saving time.
abbrev pub utc_offset : ℕ
utc_offset = 10800

-- `timezone.make_aware(datetime.combine(d, t))`
unfoldable pub make_aware : Date → ℕ → Moment
make_aware d t =
    if leb utc_offset t
    then record { date = d; time = t - utc_offset }
    else record { date = previous_day d; time = t + 86400 - utc_offset }

-- Past the year 9999 Python raises a `ValueError` or an `OverflowError`.
abbrev pub in_calendar : Moment → Option Moment
in_calendar m = if leb m.date.year 9999 then some m else none

abbrev pub moment_in : ℕ → Moment → Moment
moment_in days m = record m { date = add_days days m.date }
