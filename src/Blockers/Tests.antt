-- ===== src/Blockers/Tests.antt =====
-- A small board, and the theorems about maintenance/services_blocker.py at it.
use spare_part.Base.{◌≤◌, ◌≡◌, refl, false, List, [], ◌∷◌, Option, none, some, arith}
use spare_part.Base.Text.{codes}
use spare_part.Base.Rows.{get}
use spare_part.Base.Result.{ok, err}
use spare_part.Blockers.Tables.{
  LifecycleStatus, OperationalStatus, WorkOrder, Kind, WorkOrderBlocker, LineStatus, External,
  part_issue_line, reference, Board, blocker_row,
}
use spare_part.Blockers.Status.{derived_status}
use spare_part.Blockers.Service.{Opening, open_blocker, resolved_row, new_blocker}
use spare_part.Blockers.Sync.{part_issued, SyncPayload}
use spare_part.Blockers.Steps.{BlockerCall, opens, pauses, resolves, cancels, syncs, run}
use spare_part.Blockers.Synced.{IsSynced, run-IsSynced}
use spare_part.Blockers.Keystone.{sync_issued_resolves}
use spare_part.Blockers.Sync.{sync_from_external_event}
use spare_part.Blockers.Lifecycle.{run-settled, waiting_count, run-waiting_count}

abbrev order : WorkOrder
order = record {
  pk = 4;
  lifecycle_status = LifecycleStatus.in_progress;
  operational_status = OperationalStatus.active;
  is_emergency = false;
  is_archived = false;
  blocker_system_version = 0;
}

abbrev board : Board
board = record { orders = order ∷ []; blockers = []; events = []; repair_requests = [] }

abbrev plain : Opening
plain = record {
  opened_by = some 9;
  note = [];
  source_work_order = none;
  related_ero = none;
  pause_reason = [];
  external_label = codes "line";
}

abbrev waiting_line : External
waiting_line = part_issue_line 12 LineStatus.approved

abbrev issued_line : External
issued_line = part_issue_line 12 LineStatus.issued

abbrev no_payload : SyncPayload
no_payload = record { note = none; reason = none }

abbrev history : List BlockerCall
history =
    opens 4 Kind.part (some waiting_line) plain
    ∷ pauses 4 (some 9) [] none (codes "lunch")
    ∷ opens 4 Kind.part (some waiting_line) plain
    ∷ syncs (some issued_line) part_issued none no_payload 6
    ∷ resolves 2 [] (some 9) 7
    ∷ cancels 2 [] (some 9) 8
    ∷ []

run-IsSynced_example : IsSynced 4 (run board history)
unfolding derived_status
run-IsSynced_example = run-IsSynced 4 board history refl

run-waiting_count_example : waiting_count 4 (reference waiting_line) (run board history) ≤ 1
run-waiting_count_example =
    run-waiting_count 4 (reference waiting_line) board history (ground arith)

abbrev settled : WorkOrderBlocker
settled =
    resolved_row (new_blocker board 4 Kind.part (some (reference waiting_line)) plain) [] none 3

run-settled_example :
    get 1 (run (record board { blockers = settled ∷ [] }) history).blockers ≡ some settled
run-settled_example =
    run-settled 1 settled (record board { blockers = settled ∷ [] }) history (λ e. ground arith)
      refl

abbrev opened_once : Board × Option WorkOrderBlocker
unfolding open_blocker
opened_once = elim (open_blocker board 4 Kind.part (some waiting_line) plain) [
  | ok r ↦ r
  | err e ↦ (board, none)
]

abbrev started : Board
started = record board {
  blockers = new_blocker board 4 Kind.part (some (reference waiting_line)) plain ∷ [];
}

sync_issued_resolves_example :
    (q : Board) × (sync_from_external_event started (some issued_line) part_issued none no_payload 6
      ≡ ok (
        q,
        some (
            resolved_row
              (new_blocker board 4 Kind.part (some (reference waiting_line)) plain)
              (codes "Part fully issued")
              none
              6),
      ))
    × (get 1 q.blockers
        ≡ some (
            resolved_row
              (new_blocker board 4 Kind.part (some (reference waiting_line)) plain)
              (codes "Part fully issued")
              none
              6))
sync_issued_resolves_example =
    sync_issued_resolves started 12 none no_payload 6
      (new_blocker board 4 Kind.part (some (reference waiting_line)) plain) order refl refl refl
