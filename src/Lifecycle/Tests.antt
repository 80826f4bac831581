-- ===== src/Lifecycle/Tests.antt =====
-- A small desk, and the theorems about maintenance/services.py at it.
use spare_part.Blockers.Status.{derived_status, recompute_operational_status}
use spare_part.Blockers.Service.{
  settle_blocker, resolve_blocker, start_blocker, open_operational_blocker,
}
use spare_part.Lifecycle.Service.{
  recompute_each, resolve_each, release_dependent_blockers, after_transition, transition_work_order,
}
use spare_part.Lifecycle.Routes.{Route, IsRouted}
use spare_part.Lifecycle.Technician.{Labels, technician_submit_for_review}
use spare_part.Lifecycle.Start.{
  resume_each, pause_one, pause_each, pause_other_in_progress, technician_start_work,
}
use spare_part.Base.{true, false, ◌≡◌, refl, List, [], ◌∷◌, none, some, subst}
use spare_part.Base.Int.{pos}
use spare_part.Base.Rows.{get}
use spare_part.Base.Shut.{◌>>=◌, ◌>>◌, raise_if, or_raise}
use spare_part.Blockers.Tables.{LifecycleStatus, OperationalStatus, WorkOrder, order_row}
use spare_part.Stock.Depot.{InventoryReservation, ReservationStatus, no_reason}
use spare_part.Lifecycle.Tables.{Desk, WorkSheet}
use spare_part.Lifecycle.Stages.{same_order}
use spare_part.Lifecycle.Travel.{run-IsRouted, run_terminal}
use spare_part.Lifecycle.Closure.{active_rows, awaited_rows, others, close_releases}
use spare_part.Lifecycle.Steps.{
  archives, restores, move, moves, LifecycleCall, submits, starts, run, step, result,
}

-- The technician 5 works on the order 1.
abbrev current : WorkOrder
current = record {
  pk = 1;
  lifecycle_status = LifecycleStatus.in_progress;
  operational_status = OperationalStatus.active;
  is_emergency = false;
  is_archived = false;
  blocker_system_version = 0;
}

abbrev emergency_order : WorkOrder
emergency_order = record current {
  pk = 2;
  lifecycle_status = LifecycleStatus.assigned;
  operational_status = OperationalStatus.paused;
  is_emergency = true;
}

abbrev finished : WorkOrder
finished = record current { pk = 3; lifecycle_status = LifecycleStatus.closed }

abbrev in_review : WorkOrder
in_review = record current { pk = 4; lifecycle_status = LifecycleStatus.pending_review }

abbrev sheet : WorkSheet
sheet = record {
  work_order = 1;
  assigned_technician = some 5;
  labor_started_at = some 1;
  labor_stopped_at = none;
  downtime_started_at = some 1;
  downtime_ended_at = none;
  rejected_at = none;
  rejected_by = none;
  rejection_reason = [];
  rejection_count = 0;
  archived_at = none;
  archived_by = none;
}

abbrev leftover : InventoryReservation
leftover = record {
  pk = 1;
  part = 7;
  work_order = some 4;
  quantity = pos 1000;
  status = ReservationStatus.active;
  source_line = none;
  released_at = none;
  release_reason = no_reason;
  priority_at_creation = 5;
}

abbrev desk : Desk
desk = record {
  board = record {
    orders = current ∷ emergency_order ∷ finished ∷ in_review ∷ [];
    blockers = [];
    events = [];
    repair_requests = [];
  };
  lines = [];
  reservations = leftover ∷ [];
  sheets = sheet ∷ record sheet { work_order = 2 } ∷ record sheet { work_order = 3 } ∷ [];
  state_logs = [];
  downtimes = [];
  assignments = [];
}

abbrev labels : Labels
labels = record { log = []; dependents_note = []; blocker_note = [] }

abbrev calls : List LifecycleCall
calls = starts 2 5 labels 10 ∷ submits 3 5 labels 11 ∷ archives 2 6 12 ∷ restores 2 ∷ []

run-IsRouted_example : IsRouted 2 LifecycleStatus.assigned (run desk calls)
run-IsRouted_example = run-IsRouted 2 LifecycleStatus.assigned desk calls (λ wo e.
    subst (λ x. Route LifecycleStatus.assigned x.lifecycle_status)
      (same_order (some emergency_order) emergency_order wo refl e) Route.here)

run_terminal_example : LifecycleStatus.closed ≡ LifecycleStatus.closed
unfolding run step result technician_submit_for_review transition_work_order ◌>>=◌ ◌>>◌ raise_if
    or_raise
run_terminal_example =
    run_terminal 3 desk (submits 3 5 labels 11 ∷ []) finished finished refl refl refl

abbrev after_review : Desk
after_review = step desk (moves 4 LifecycleStatus.closed 6 labels 12)

close_releases_example :
    (active_rows 4 after_review.reservations ≡ awaited_rows 4 [] desk.reservations)
    × (others 4 after_review.reservations ≡ others 4 desk.reservations)
unfolding step result move transition_work_order after_transition ◌>>=◌ ◌>>◌ raise_if or_raise
close_releases_example = close_releases desk after_review in_review 6 [] [] 12 refl refl

-- The pause that the start of the order 2 puts on the order 1 is taken back by the same call.
start_undoes_pause :
    get 1 (run desk (starts 2 5 labels 10 ∷ [])).board.orders
    ≡ some (record current { blocker_system_version = 1 })
unfolding run step result technician_start_work transition_work_order after_transition
    release_dependent_blockers resolve_each recompute_each pause_other_in_progress pause_each
    pause_one resume_each open_operational_blocker start_blocker resolve_blocker settle_blocker
    recompute_operational_status derived_status ◌>>=◌ ◌>>◌ raise_if or_raise
start_undoes_pause = refl
