-- ===== src/Preventive/Counts.antt =====
-- What the counts of the engine add up to.
use spare_part.Base.{ℕ, ◌+◌, ◌≤◌, ◌≡◌, Bool, ◌&&◌, ◌||◌, List, [], ◌∷◌, Option, arith, count_if}
use spare_part.Preventive.Calendar.{Moment}
use spare_part.Preventive.Tables.{
  PmExecution, Engine, is_approved, is_missed, is_submitted, is_rejected,
}
use spare_part.Preventive.Review.{compute_compliance, in_window, was_on_time}

count_parts :
    (p : PmExecution → Bool) (days : ℕ) (xs : List PmExecution)
    → (count_if p xs
        ≡ count_if (λ x. p x && is_approved x.status) xs
          + count_if (λ x. p x && is_missed x.status) xs
          + count_if (λ x. p x && (is_submitted x.status || is_rejected x.status)) xs)
      × (count_if (λ x. p x && is_approved x.status && was_on_time days x) xs
          ≤ count_if (λ x. p x && is_approved x.status) xs)
count_parts p days [] = (omega arith, omega arith)
count_parts p days (x ∷ xs) = ground (arith, count_parts p days xs)

-- The executions of the window are those approved, missed and pending, each counted once, and at most those
-- approved were on time.
pub compliance_adds_up :
    (e : Engine) (window_days grace_days : ℕ) (machine : Option ℕ) (now : Moment)
    → ((compute_compliance e window_days grace_days machine now).scheduled
        ≡ (compute_compliance e window_days grace_days machine now).approved_total
          + (compute_compliance e window_days grace_days machine now).missed
          + (compute_compliance e window_days grace_days machine now).pending)
      × ((compute_compliance e window_days grace_days machine now).on_time
          ≤ (compute_compliance e window_days grace_days machine now).approved_total)
unfolding compute_compliance
compliance_adds_up e window_days grace_days machine now =
    count_parts (in_window window_days machine e.schedules now) grace_days e.executions
