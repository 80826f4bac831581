-- ===== src/Blockers/Service.antt =====
-- maintenance/services_blocker.py: the single entry point for changes of the blockers. Each call
-- runs in a transaction; `now` is `timezone.now()`. Messages are those of the source language.
use spare_part.Base.{
  ℕ, Bool, false, ◌&&◌, List, [], ◌++◌, Option, none, some, ◌==◌, if◌then◌else◌, take, find_first,
  insert_last,
}
use spare_part.Base.Text.{Text, codes, is_empty}
use spare_part.Base.Rows.{get, save, next_pk}
use spare_part.Base.Result.{Result, ok, err, ◌>>=◌, or_raise}
use spare_part.Blockers.Tables.{
  WorkOrder, Kind, is_operational, BlockerStatus, is_opened, Reference, WorkOrderBlocker, EventType,
  EventPayload, created, paused_for, noted, reasoned, External, reference, Board, order_row,
  blocker_row,
}
use spare_part.Blockers.Status.{
  BlockerError, does_not_exist, cannot_resolve, cannot_cancel, get_order,
  recompute_operational_status,
}

-- `WorkOrderBlockerEventService.record`. The notification that it sets off changes no table here.
abbrev pub record_event : Board → ℕ → EventType → Option ℕ → EventPayload → Board
record_event b blocker event_type actor payload = record b {
  events =
      insert_last
        (record { blocker = blocker; event_type = event_type; actor = actor; payload = payload })
        b.events;
}

-- The receiver `bump_wo_to_v1_on_first_blocker` of maintenance/signals.py.
abbrev pub bump_version : ℕ → List WorkOrder → List WorkOrder
bump_version k orders = elim (get_order k orders) [
  | none ↦ orders
  | some wo ↦
      if wo.blocker_system_version == 0
      then save (record wo { blocker_system_version = 1 }) orders
      else orders
]

-- `WorkOrderBlocker.objects.create(...)`, with the receiver of its signal.
abbrev pub create_blocker : Board → WorkOrderBlocker → Board
create_blocker b row = record b {
  blockers = insert_last row b.blockers;
  orders = bump_version row.work_order b.orders;
}

abbrev pub same_reference : Reference → Option Reference → Bool
same_reference (c, k) none = false
same_reference (c, k) (some (d, j)) = d == c && j == k

-- An open blocker of the work order that waits for the entity.
abbrev pub waits_on : ℕ → Reference → WorkOrderBlocker → Bool
waits_on wo ref r = r.work_order == wo && is_opened r.status && same_reference ref r.external_ref

-- The keyword arguments that are stored as they are given.
pub record Opening : Type 0 where
  pub opened_by : Option ℕ
  pub note : Text
  pub source_work_order : Option ℕ
  pub related_ero : Option ℕ
  pub pause_reason : Text
  pub external_label : Text

abbrev pub new_blocker : Board → ℕ → Kind → Option Reference → Opening → WorkOrderBlocker
new_blocker b wo kind ref o = record {
  pk = next_pk b.blockers;
  work_order = wo;
  kind = kind;
  status = BlockerStatus.opened;
  external_ref = ref;
  external_label = o.external_label;
  related_ero = o.related_ero;
  source_work_order = o.source_work_order;
  note = o.note;
  pause_reason = o.pause_reason;
  opened_by = o.opened_by;
  resolved_at = none;
  resolved_by = none;
  resolution_note = [];
  cancelled_at = none;
  cancelled_by = none;
  cancel_reason = [];
}

-- The new row, its event and the status of its work order.
unfoldable pub start_blocker :
    Board → WorkOrderBlocker → EventPayload → Result BlockerError (Board × WorkOrderBlocker)
start_blocker b row payload = do
  (q, _) ←
      recompute_operational_status
        (record_event (create_blocker b row) row.pk EventType.blocker_created row.opened_by payload)
        row.work_order
  ok (q, row)

-- `external_label[:300]`
abbrev pub cut_label : Opening → Opening
cut_label o = record o { external_label = take 300 o.external_label }

-- `WorkOrderBlockerService.open_blocker`
unfoldable pub open_blocker :
    Board
    → ℕ
    → Kind
    → Option External
    → Opening
    → Result BlockerError (Board × Option WorkOrderBlocker)
open_blocker b wo kind none o = ok (b, none)
open_blocker b wo kind (some x) o = elim (find_first (waits_on wo (reference x)) b.blockers) [
  | some existing ↦ ok (b, some existing)
  | none ↦ do
    (q, row) ←
        start_blocker b (new_blocker b wo kind (some (reference x)) (cut_label o))
          (created kind (reference x))
    ok (q, some row)
]

abbrev pub is_pause_of : ℕ → WorkOrderBlocker → Bool
is_pause_of wo r = r.work_order == wo && is_operational r.kind && is_opened r.status

abbrev pub pause_label : Text → Text
pause_label reason =
    if is_empty reason then codes "Operational pause" else (codes "Operational pause: " ++ reason)

abbrev pub pause_opening : Option ℕ → Text → Option ℕ → Text → Opening
pause_opening opened_by note source_work_order pause_reason = record {
  opened_by = opened_by;
  note = note;
  source_work_order = source_work_order;
  related_ero = none;
  pause_reason = pause_reason;
  external_label = pause_label pause_reason;
}

-- `WorkOrderBlockerService.open_operational_blocker`
unfoldable pub open_operational_blocker :
    Board → ℕ → Option ℕ → Text → Option ℕ → Text → Result BlockerError (Board × WorkOrderBlocker)
open_operational_blocker b wo opened_by note source_work_order pause_reason =
    elim (find_first (is_pause_of wo) b.blockers) [
      | some existing ↦ ok (b, existing)
      | none ↦
          start_blocker b
            (new_blocker b wo Kind.operational none
              (pause_opening opened_by note source_work_order pause_reason))
            (paused_for pause_reason source_work_order)
    ]

-- The write of a settled row, its event and the status of its work order.
unfoldable pub settle_blocker :
    Board
    → WorkOrderBlocker
    → EventType
    → Option ℕ
    → EventPayload
    → Result BlockerError (Board × WorkOrderBlocker)
settle_blocker b row event_type actor payload = do
  (q, _) ←
      recompute_operational_status
        (record_event (record b { blockers = save row b.blockers }) row.pk event_type actor payload)
        row.work_order
  ok (q, row)

abbrev pub resolved_row : WorkOrderBlocker → Text → Option ℕ → ℕ → WorkOrderBlocker
resolved_row r resolution_note resolved_by now = record r {
  status = BlockerStatus.resolved;
  resolved_at = some now;
  resolved_by = resolved_by;
  resolution_note = resolution_note;
}

abbrev pub cancelled_row : WorkOrderBlocker → Text → Option ℕ → ℕ → WorkOrderBlocker
cancelled_row r cancel_reason cancelled_by now = record r {
  status = BlockerStatus.cancelled;
  cancelled_at = some now;
  cancelled_by = cancelled_by;
  cancel_reason = cancel_reason;
}

-- `WorkOrderBlockerService.resolve_blocker`
unfoldable pub resolve_blocker :
    Board → ℕ → Text → Option ℕ → ℕ → Result BlockerError (Board × WorkOrderBlocker)
resolve_blocker b k resolution_note resolved_by now = do
  r ← or_raise (get k b.blockers) does_not_exist
  elim r.status [
    | BlockerStatus.resolved ↦ ok (b, r)
    | BlockerStatus.cancelled ↦ err cannot_resolve
    | BlockerStatus.opened ↦
        settle_blocker b (resolved_row r resolution_note resolved_by now) EventType.blocker_resolved
          resolved_by (noted resolution_note)
  ]

-- `WorkOrderBlockerService.cancel_blocker`
unfoldable pub cancel_blocker :
    Board → ℕ → Text → Option ℕ → ℕ → Result BlockerError (Board × WorkOrderBlocker)
cancel_blocker b k cancel_reason cancelled_by now = do
  r ← or_raise (get k b.blockers) does_not_exist
  elim r.status [
    | BlockerStatus.cancelled ↦ ok (b, r)
    | BlockerStatus.resolved ↦ err cannot_cancel
    | BlockerStatus.opened ↦
        settle_blocker b (cancelled_row r cancel_reason cancelled_by now)
          EventType.blocker_cancelled cancelled_by (reasoned cancel_reason)
  ]
