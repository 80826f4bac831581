-- ===== src/Health/Card.antt =====
-- maintenance/services_wo_health.py: the summary of a work order, its risk and its notes.
use spare_part.Base.{
  ℕ, Bool, true, false, ◌&&◌, ◌||◌, List, [], ◌∷◌, Option, none, some, ◌==◌, ltb, leb,
  if◌then◌else◌, count_if,
}
use spare_part.Base.Int.{ℤ, pos, pos_part, ltb_ℤ}
use spare_part.Blockers.Tables.{
  LifecycleStatus, OperationalStatus, WorkOrder, is_opened, WorkOrderBlocker,
}
use spare_part.Ledger.Tables.{WorkOrderCost, total_cost}

-- `MaintenanceIssue.Priority`
pub data Priority : Type 0 where
  low medium high critical : Priority

pub data Risk : Type 0 where
  low_risk medium_risk high_risk : Risk

-- The texts of the notes.
pub data Note : Type 0 where
  waiting_long emergency critical_priority many_blockers high_cost : Note

-- `HealthCard`; a priority of "n/a" is none. Costs are in hundredths.
pub record HealthCard : Type 0 where
  pub lifecycle_status : LifecycleStatus
  pub operational_status : OperationalStatus
  pub priority : Option Priority
  pub risk : Risk
  pub open_blockers_count : ℕ
  pub waiting_days : ℕ
  pub parts_cost : ℤ
  pub vendor_cost : ℤ
  pub consumables_cost : ℤ
  pub additional_cost : ℤ
  pub total_cost : ℤ
  pub is_emergency : Bool
  pub notes : List Note

-- What the risk is computed from.
pub record Facts : Type 0 where
  pub is_emergency : Bool
  pub is_critical : Bool
  pub waiting_days : ℕ
  pub open_blockers_count : ℕ
  pub total_cost : ℤ

abbrev pub is_critical_priority : Option Priority → Bool
is_critical_priority (some critical) = true
is_critical_priority _ = false

abbrev pub blocks : ℕ → WorkOrderBlocker → Bool
blocks wo r = r.work_order == wo && is_opened r.status

abbrev pub cost_or_zero : (WorkOrderCost → ℤ) → Option WorkOrderCost → ℤ
cost_or_zero f none = pos 0
cost_or_zero f (some c) = f c

-- `max(0, days)`, and 0 where the creation time is missing.
abbrev pub days_waiting : Option ℤ → ℕ
days_waiting none = 0
days_waiting (some d) = pos_part d

-- `any(high_triggers)` and `any(medium_triggers)`
abbrev pub any_high : Facts → Bool
any_high f =
    f.is_emergency
    || f.is_critical
    || ltb 30 f.waiting_days
    || leb 3 f.open_blockers_count
    || ltb_ℤ (pos 500000) f.total_cost

abbrev pub any_medium : Facts → Bool
any_medium f =
    ltb 7 f.waiting_days || leb 1 f.open_blockers_count || ltb_ℤ (pos 100000) f.total_cost

unfoldable pub risk_of : Facts → Risk
risk_of f = if any_high f then high_risk else if any_medium f then medium_risk else low_risk

abbrev pub note_if : Bool → Note → List Note → List Note
note_if test n rest = if test then n ∷ rest else rest

unfoldable pub notes_of : Facts → List Note
notes_of f = note_if (ltb 30 f.waiting_days) waiting_long (
    note_if f.is_emergency emergency (
      note_if f.is_critical critical_priority (
        note_if (leb 3 f.open_blockers_count) many_blockers
          (note_if (ltb_ℤ (pos 500000) f.total_cost) high_cost []))))

abbrev pub facts_of :
    WorkOrder → Option Priority → Option ℤ → List WorkOrderBlocker → Option WorkOrderCost → Facts
facts_of wo priority age blockers cost = record {
  is_emergency = wo.is_emergency;
  is_critical = is_critical_priority priority;
  waiting_days = days_waiting age;
  open_blockers_count = count_if (blocks wo.pk) blockers;
  total_cost = cost_or_zero total_cost cost;
}

-- `WorkOrderHealthService.compute`, of the order, the priority of its issue, the days since its
-- creation, the blockers and its cached costs.
unfoldable pub compute :
    WorkOrder
    → Option Priority
    → Option ℤ
    → List WorkOrderBlocker
    → Option WorkOrderCost
    → HealthCard
unfolding risk_of notes_of
compute wo priority age blockers cost =
    let f = facts_of wo priority age blockers cost in
    record {
      lifecycle_status = wo.lifecycle_status;
      operational_status = wo.operational_status;
      priority = priority;
      risk = risk_of f;
      open_blockers_count = f.open_blockers_count;
      waiting_days = f.waiting_days;
      parts_cost = cost_or_zero (λ c. c.material_cost) cost;
      vendor_cost = cost_or_zero (λ c. c.vendor_repair_cost) cost;
      consumables_cost = cost_or_zero (λ c. c.consumables_cost) cost;
      additional_cost = cost_or_zero (λ c. c.additional_cost) cost;
      total_cost = f.total_cost;
      is_emergency = f.is_emergency;
      notes = notes_of f;
    }
