-- ===== src/Lifecycle/Service.antt =====
-- maintenance/services.py: `transition_work_order` and what it sets off. The source goes on with the object of
-- the order that its caller holds, which a recomputation of the operational status does not refresh: it is the
-- argument `wo` here. Texts made for display are arguments.
use spare_part.Stock.Reservations.{same_wo}
use spare_part.Base.{
  reverse, ℕ, Bool, true, false, not, ◌&&◌, ◌||◌, List, [], ◌∷◌, none, some, ◌==◌, if◌then◌else◌,
  insert_last, is_none, take,
}
use spare_part.Base.Int.{ltb_ℤ}
use spare_part.Base.Text.{Text}
use spare_part.Base.Rows.{get, save}
use spare_part.Base.Result.{Result, ok, err}
use spare_part.Base.Shut.{◌>>=◌, ◌>>◌, raise_if, or_raise}
use spare_part.Stock.Depot.{
  PartIssueLine, line_row, InventoryReservation, ReservationStatus, ReleaseReason, is_active,
}
use spare_part.Blockers.Tables.{
  is_closed_stage, LifecycleStatus, OperationalStatus, WorkOrder, WorkOrderBlocker, Board,
  order_row, is_opened, is_operational, same_status,
}
use spare_part.Blockers.Status.{is_in_progress, recompute_operational_status}
use spare_part.Blockers.Service.{resolve_blocker}
use spare_part.Blockers.Steps.{board_after}
use spare_part.Lifecycle.Tables.{Desk}

-- `illegal_transition` and `not_in_progress` are `ValueError`s, `does_not_exist` is Django's.
pub data LifecycleError : Type 0 where
  does_not_exist illegal_transition not_in_progress reason_required : LifecycleError
  already_archived not_archived : LifecycleError

abbrev pub same_stage : LifecycleStatus → LifecycleStatus → Bool
same_stage LifecycleStatus.draft LifecycleStatus.draft = true
same_stage LifecycleStatus.assigned LifecycleStatus.assigned = true
same_stage LifecycleStatus.in_progress LifecycleStatus.in_progress = true
same_stage LifecycleStatus.pending_review LifecycleStatus.pending_review = true
same_stage LifecycleStatus.closed LifecycleStatus.closed = true
same_stage LifecycleStatus.cancelled LifecycleStatus.cancelled = true
same_stage _ _ = false

-- `WorkOrder.VALID_LIFECYCLE_TRANSITIONS`
abbrev pub is_legal : LifecycleStatus → LifecycleStatus → Bool
is_legal LifecycleStatus.draft LifecycleStatus.assigned = true
is_legal LifecycleStatus.draft LifecycleStatus.cancelled = true
is_legal LifecycleStatus.assigned LifecycleStatus.in_progress = true
is_legal LifecycleStatus.assigned LifecycleStatus.pending_review = true
is_legal LifecycleStatus.assigned LifecycleStatus.cancelled = true
is_legal LifecycleStatus.in_progress LifecycleStatus.pending_review = true
is_legal LifecycleStatus.in_progress LifecycleStatus.assigned = true
is_legal LifecycleStatus.in_progress LifecycleStatus.cancelled = true
is_legal LifecycleStatus.pending_review LifecycleStatus.closed = true
is_legal LifecycleStatus.pending_review LifecycleStatus.in_progress = true
is_legal LifecycleStatus.pending_review LifecycleStatus.assigned = true
is_legal _ _ = false

-- Has the line of a reservation units that are approved and not issued?
abbrev pub has_demand : List PartIssueLine → InventoryReservation → Bool
has_demand lines r = elim r.source_line [
  | none ↦ false
  | some k ↦ elim (get k lines) [ none ↦ false | some l ↦ ltb_ℤ l.issued_qty l.approved_qty ]
]

abbrev pub is_stale : ℕ → List PartIssueLine → InventoryReservation → Bool
is_stale wo lines r =
    same_wo (some wo) r.work_order && is_active r.status && not (has_demand lines r)

abbrev pub auto_released : ℕ → InventoryReservation → InventoryReservation
auto_released now r = record r {
  status = ReservationStatus.released;
  released_at = some now;
  release_reason =
      if is_none r.source_line then ReleaseReason.order_closed else ReleaseReason.line_issued;
}

-- `release_stale_reservations_for_wo`
unfoldable pub release_stale_reservations :
    ℕ → List PartIssueLine → ℕ → List InventoryReservation → List InventoryReservation
release_stale_reservations wo lines now [] = []
release_stale_reservations wo lines now (r ∷ rs) =
    (if is_stale wo lines r then auto_released now r else r)
    ∷ release_stale_reservations wo lines now rs

-- `source_still_blocks`, of the object that the caller holds.
abbrev pub source_still_blocks : WorkOrder → Bool
source_still_blocks wo =
    is_in_progress wo.lifecycle_status && same_status wo.operational_status OperationalStatus.active

abbrev pub is_dependent : ℕ → WorkOrderBlocker → Bool
is_dependent wo b =
    same_wo (some wo) b.source_work_order && is_opened b.status && is_operational b.kind

-- The loop over the blockers that were open when it began, with the orders of those that were resolved; an
-- exception is passed over.
unfoldable pub resolve_each : List WorkOrderBlocker → Board → List ℕ → ℕ → Text → ℕ → Board × List ℕ
resolve_each [] b affected actor note now = (b, affected)
resolve_each (x ∷ xs) b affected actor note now =
    elim (resolve_blocker b x.pk note (some actor) now) [
      | ok r ↦ resolve_each xs r.0 (x.work_order ∷ affected) actor note now
      | err e ↦ resolve_each xs b affected actor note now
    ]

abbrev pub is_listed : ℕ → List ℕ → Bool
is_listed k [] = false
is_listed k (j ∷ js) = j == k || is_listed k js

-- The second loop, over the affected orders.
unfoldable pub recompute_each : List WorkOrder → List ℕ → Board → Board
recompute_each [] affected b = b
recompute_each (o ∷ os) affected b =
    recompute_each os affected
      (if is_listed o.pk affected then board_after b (recompute_operational_status b o.pk) else b)

abbrev pub dependents : ℕ → List WorkOrderBlocker → List WorkOrderBlocker
dependents wo [] = []
dependents wo (b ∷ bs) = let rest = dependents wo bs in if is_dependent wo b then b ∷ rest else rest

-- `release_dependent_blockers`
unfoldable pub release_dependent_blockers : Board → WorkOrder → ℕ → Text → ℕ → Board
release_dependent_blockers b wo actor note now =
    let r = resolve_each (dependents wo.pk b.blockers) b [] actor note now in
    if source_still_blocks wo then b else recompute_each (reverse r.0.orders) r.1 r.0

-- The row of the new stage and its log.
abbrev pub set_stage : Desk → WorkOrder → WorkOrder → LifecycleStatus → ℕ → Text → Desk
set_stage d row wo to actor note = record d {
  board = record d.board { orders = save (record row { lifecycle_status = to }) d.board.orders };
  state_logs =
      insert_last
        (record {
          work_order = wo.pk;
          from_status = some wo.lifecycle_status;
          to_status = to;
          actor = actor;
          note = take 500 note;
        })
        d.state_logs;
}

-- What follows the write of the new stage: the status, the reservations, and the orders that waited for this
-- one. `label` is the note on their blockers.
unfoldable pub after_transition : Desk → WorkOrder → LifecycleStatus → ℕ → Text → ℕ → Desk
after_transition d wo to actor label now = record d {
  reservations =
      if is_closed_stage to
      then release_stale_reservations wo.pk d.lines now d.reservations
      else d.reservations;
  board =
      release_dependent_blockers (board_after d.board (recompute_operational_status d.board wo.pk))
        (record wo { lifecycle_status = to }) actor label now;
}

-- `transition_work_order`
unfoldable pub transition_work_order :
    Desk → WorkOrder → LifecycleStatus → ℕ → Text → Text → ℕ → Result LifecycleError Desk
transition_work_order d wo to actor note label now =
    if same_stage wo.lifecycle_status to then ok d else (do
      raise_if (not (is_legal wo.lifecycle_status to)) illegal_transition
      row ← or_raise (get wo.pk d.board.orders) does_not_exist
      ok (after_transition (set_stage d row wo to actor note) wo to actor label now))
