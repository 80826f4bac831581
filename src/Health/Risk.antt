-- ===== src/Health/Risk.antt =====
-- What the risk of a health card means.
use spare_part.Base.{ℕ, ◌≤◌, ◌≡◌, ◌≢◌, ◌↔◌, Bool, true, List, [], ◌∷◌, Option, arith, count_if}
use spare_part.Base.Int.{ℤ, ◌≤ℤ◌}
use spare_part.Blockers.Tables.{
  Kind, OperationalStatus, WorkOrder, WorkOrderBlocker, is_part_or_shortage, is_vendor_repair,
}
use spare_part.Blockers.Status.{any_open, derived_status}
use spare_part.Ledger.Tables.{WorkOrderCost}
use spare_part.Health.Card.{
  Priority, Risk, low_risk, medium_risk, high_risk, Facts, blocks, risk_of, notes_of, compute,
}

-- The card of an order is of high risk exactly when it has a note.
pub high_risk_noted :
    (wo : WorkOrder) (priority : Option Priority) (age : Option ℤ)
    (blockers : List WorkOrderBlocker) (cost : Option WorkOrderCost)
    → ((compute wo priority age blockers cost).risk ≡ high_risk)
      ↔ ((compute wo priority age blockers cost).notes ≢ [])
unfolding compute risk_of notes_of
high_risk_noted wo priority age blockers cost = (λ e n. ground arith, λ n. ground arith)

abbrev pub level : Risk → ℕ
level low_risk = 0
level medium_risk = 1
level high_risk = 2

-- The risk never falls when an order waits longer, gets more open blockers or costs more, or when it
-- becomes an emergency or its issue critical.
pub risk_of-monotone :
    (f g : Facts)
    → (f.is_emergency ≡ true → g.is_emergency ≡ true)
    → (f.is_critical ≡ true → g.is_critical ≡ true)
    → f.waiting_days ≤ g.waiting_days
    → f.open_blockers_count ≤ g.open_blockers_count
    → f.total_cost ≤ℤ g.total_cost
    → level (risk_of f) ≤ level (risk_of g)
unfolding risk_of
risk_of-monotone f g e c w b t = ground arith

any_open-count :
    (test : Kind → Bool) (wo : ℕ) (rows : List WorkOrderBlocker)
    → any_open test wo rows ≡ true
    → 1 ≤ count_if (blocks wo) rows
any_open-count test wo [] h = ground arith
any_open-count test wo (r ∷ rows) h = ground (arith, any_open-count test wo rows)

-- A work order whose blockers make it wait, for parts or for a vendor, never shows a low risk.
waiting_shows :
    (wo : WorkOrder) (priority : Option Priority) (age : Option ℤ)
    (blockers : List WorkOrderBlocker) (cost : Option WorkOrderCost)
    → derived_status wo.lifecycle_status wo.pk blockers ≢ OperationalStatus.active
    → derived_status wo.lifecycle_status wo.pk blockers ≢ OperationalStatus.paused
    → (compute wo priority age blockers cost).risk ≢ low_risk
unfolding compute risk_of derived_status
waiting_shows wo priority age blockers cost going running low = ground (
  arith,
  any_open-count is_part_or_shortage wo.pk blockers,
  any_open-count is_vendor_repair wo.pk blockers,
)
