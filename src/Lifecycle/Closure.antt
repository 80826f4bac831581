-- ===== src/Lifecycle/Closure.antt =====
-- Closing a work order releases the reservations that it no longer needs.
use spare_part.Base.{
  inr, inl, Option-cases, ℕ, ◌≡◌, refl, Bool, false, not, ◌&&◌, List, [], ◌∷◌, ◌==◌, none, some,
  if◌then◌else◌, arith,
}
use spare_part.Base.Int.{leb_ℤ}
use spare_part.Base.Rows.{get}
use spare_part.Base.Text.{Text}
use spare_part.Base.Shut.{◌>>=◌, ◌>>◌, raise_if, or_raise}
use spare_part.Base.Result.{ok}
use spare_part.Stock.Depot.{line_row, is_active, PartIssueLine, InventoryReservation}
use spare_part.Blockers.Tables.{LifecycleStatus, WorkOrder, order_row}
use spare_part.Lifecycle.Tables.{Desk}
use spare_part.Lifecycle.Service.{
  same_stage, has_demand, release_stale_reservations, transition_work_order, after_transition,
}

-- Is it a reservation for the order?
abbrev pub is_for : ℕ → InventoryReservation → Bool
is_for wo r = elim r.work_order [ none ↦ false | some k ↦ k == wo ]

-- Has it a line on which less is issued than approved?
abbrev pub is_awaited : List PartIssueLine → InventoryReservation → Bool
is_awaited lines r = elim r.source_line [
  | none ↦ false
  | some k ↦ elim (get k lines) [ none ↦ false | some l ↦ not (leb_ℤ l.approved_qty l.issued_qty) ]
]

-- The rows of every other order, and those without an order.
pub others : ℕ → List InventoryReservation → List InventoryReservation
others wo [] = []
others wo (r ∷ rs) = if is_for wo r then others wo rs else r ∷ others wo rs

-- The active rows of the order.
pub active_rows : ℕ → List InventoryReservation → List InventoryReservation
active_rows wo [] = []
active_rows wo (r ∷ rs) =
    if is_for wo r && is_active r.status then r ∷ active_rows wo rs else active_rows wo rs

-- Those that something still waits for.
pub awaited_rows : ℕ → List PartIssueLine → List InventoryReservation → List InventoryReservation
awaited_rows wo lines [] = []
awaited_rows wo lines (r ∷ rs) =
    if is_for wo r && is_active r.status && is_awaited lines r
    then r ∷ awaited_rows wo lines rs
    else awaited_rows wo lines rs

awaited_demand :
    (lines : List PartIssueLine) (r : InventoryReservation)
    → has_demand lines r ≡ is_awaited lines r
awaited_demand lines r = elim (Option-cases r.source_line) [
  | inl loose ↦ ground (arith, loose)
  | inr (k, sourced) ↦ elim (Option-cases (get k lines)) [
    | inl missing ↦ ground (arith, sourced, missing)
    | inr (l, found) ↦ ground (arith, sourced, found)
  ]
]

others_kept :
    (wo : ℕ) (lines : List PartIssueLine) (now : ℕ) (rs : List InventoryReservation)
    → others wo (release_stale_reservations wo lines now rs) ≡ others wo rs
unfolding release_stale_reservations others
others_kept wo lines now [] = refl
others_kept wo lines now (r ∷ rs) = ground (arith, others_kept wo lines now rs)

active_awaited :
    (wo : ℕ) (lines : List PartIssueLine) (now : ℕ) (rs : List InventoryReservation)
    → active_rows wo (release_stale_reservations wo lines now rs) ≡ awaited_rows wo lines rs
unfolding release_stale_reservations active_rows awaited_rows
active_awaited wo lines now [] = refl
active_awaited wo lines now (r ∷ rs) =
    ground (arith, active_awaited wo lines now rs, awaited_demand lines r)

-- A transition of an order to closed that succeeds, of an order that was not closed, leaves active of the order's
-- reservations exactly those of a line on which less is issued than approved, unchanged, and leaves the
-- reservations of every other order, active or not, as they are.
pub close_releases :
    (d e : Desk) (wo : WorkOrder) (actor : ℕ) (note label : Text) (now : ℕ)
    → same_stage wo.lifecycle_status LifecycleStatus.closed ≡ false
    → transition_work_order d wo LifecycleStatus.closed actor note label now ≡ ok e
    → (active_rows wo.pk e.reservations ≡ awaited_rows wo.pk d.lines d.reservations)
      × (others wo.pk e.reservations ≡ others wo.pk d.reservations)
unfolding transition_work_order after_transition ◌>>=◌ ◌>>◌ raise_if or_raise
close_releases d e wo actor note label now fresh done = ground (
  arith,
  active_awaited wo.pk d.lines now d.reservations,
  others_kept wo.pk d.lines now d.reservations,
)
