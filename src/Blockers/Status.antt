-- ===== src/Blockers/Status.antt =====
-- maintenance/services_wo_status.py: the operational status of a work order, computed from its
-- lifecycle and its open blockers.
use spare_part.Base.{
  ℕ, Bool, true, false, ◌&&◌, ◌||◌, List, [], ◌∷◌, Option, none, some, ◌==◌, if◌then◌else◌,
}
use spare_part.Base.Rows.{get, save}
use spare_part.Base.Result.{Result, ok, ◌>>=◌, or_raise}
use spare_part.Blockers.Tables.{
  LifecycleStatus, OperationalStatus, active, pending_parts, waiting_vendor, paused, same_status,
  WorkOrder, Kind, is_part_or_shortage, is_vendor_repair, is_operational, is_opened,
  WorkOrderBlocker, Board, order_row,
}

-- `does_not_exist` is Django's; the other two are the messages of `resolve_blocker` and
-- `cancel_blocker`.
pub data BlockerError : Type 0 where
  does_not_exist cannot_resolve cannot_cancel : BlockerError

-- `any(test(b.kind) for b in _open_blockers(wo))`
abbrev pub any_open : (Kind → Bool) → ℕ → List WorkOrderBlocker → Bool
any_open test wo [] = false
any_open test wo (b ∷ bs) =
    (b.work_order == wo && is_opened b.status && test b.kind) || any_open test wo bs

abbrev pub is_terminal : LifecycleStatus → Bool
is_terminal LifecycleStatus.closed = true
is_terminal LifecycleStatus.cancelled = true
is_terminal _ = false

abbrev pub is_in_progress : LifecycleStatus → Bool
is_in_progress LifecycleStatus.in_progress = true
is_in_progress _ = false

-- The ladder of `recompute_operational_status` below the terminal test.
unfoldable pub derived_status : LifecycleStatus → ℕ → List WorkOrderBlocker → OperationalStatus
derived_status lifecycle wo blockers =
    if any_open is_part_or_shortage wo blockers
    then pending_parts
    else if any_open is_vendor_repair wo blockers
    then waiting_vendor
    else if any_open is_operational wo blockers
    then paused
    else if is_in_progress lifecycle
    then active
    else paused

-- `_set_if_changed`
abbrev pub set_if_changed : Board → WorkOrder → OperationalStatus → Board
set_if_changed b wo new_status =
    if same_status wo.operational_status new_status
    then b
    else record b { orders = save (record wo { operational_status = new_status }) b.orders }

-- `WorkOrder.objects.get(pk=k)`: the manager hides archived rows.
abbrev pub get_order : ℕ → List WorkOrder → Option WorkOrder
get_order k orders = elim (get k orders) [
  | none ↦ none
  | some wo ↦ if wo.is_archived then none else some wo
]

-- `WorkOrderService.recompute_operational_status`
unfoldable pub recompute_operational_status :
    Board → ℕ → Result BlockerError (Board × OperationalStatus)
recompute_operational_status b k = do
  wo ← or_raise (get_order k b.orders) does_not_exist
  let new_status = derived_status wo.lifecycle_status wo.pk b.blockers
  if is_terminal wo.lifecycle_status
      then ok (b, wo.operational_status)
      else ok (set_if_changed b wo new_status, new_status)
