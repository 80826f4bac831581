-- ===== src/Lifecycle/Start.antt =====
-- maintenance/services.py: `technician_start_work`, and the automatic pause of the technician's other orders.
use spare_part.Stock.Reservations.{same_wo}
use spare_part.Base.{
  ℕ, Bool, false, not, ◌&&◌, List, [], ◌∷◌, Option, none, some, ◌==◌, if◌then◌else◌, insert_last,
  find_first, is_none,
}
use spare_part.Base.Text.{Text, codes}
use spare_part.Base.Rows.{get, save, next_pk}
use spare_part.Base.Result.{Result, ok, err}
use spare_part.Base.Shut.{◌>>=◌, or_raise}
use spare_part.Blockers.Tables.{LifecycleStatus, WorkOrder, WorkOrderBlocker, Board, order_row}
use spare_part.Blockers.Status.{does_not_exist, is_in_progress, get_order}
use spare_part.Blockers.Service.{open_operational_blocker, resolve_blocker, is_pause_of}
use spare_part.Blockers.Steps.{board_after}
use spare_part.Lifecycle.Tables.{Desk, WorkSheet, Assignment, sheet_row, downtime_row, period_row}
use spare_part.Lifecycle.Service.{does_not_exist, LifecycleError, transition_work_order}
use spare_part.Lifecycle.Technician.{Labels, with_status}

-- The sheet of an order is changed, if it is there.
abbrev pub update_sheet : (WorkSheet → WorkSheet) → ℕ → List WorkSheet → List WorkSheet
update_sheet f k sheets = elim (get k sheets) [ none ↦ sheets | some s ↦ save (f s) sheets ]

abbrev pub is_assigned : ℕ → ℕ → List WorkSheet → Bool
is_assigned technician k sheets = elim (get k sheets) [
  | none ↦ false
  | some s ↦ same_wo (some technician) s.assigned_technician
]

-- The orders of the technician that are in progress, but for the one that starts, the newest first.
abbrev pub others_in_progress : ℕ → ℕ → List WorkSheet → List WorkOrder → List WorkOrder
others_in_progress technician except sheets [] = []
others_in_progress technician except sheets (o ∷ os) =
    let rest = others_in_progress technician except sheets os in
    if is_assigned technician o.pk sheets
      && is_in_progress o.lifecycle_status
      && not o.is_archived
      && not (o.pk == except)
    then insert_last o rest
    else rest

abbrev pub is_open_period : ℕ → ℕ → Assignment → Bool
is_open_period wo technician a =
    a.work_order == wo && a.technician == technician && is_none a.unassigned_at

-- The end of the open period of the technician on the order.
abbrev pub end_period : ℕ → ℕ → Text → ℕ → List Assignment → List Assignment
end_period wo technician note now periods =
    elim (find_first (is_open_period wo technician) periods) [
      | none ↦ periods
      | some a ↦ save (record a { unassigned_at = some now; reason = note }) periods
    ]

abbrev pub source_key : Desk → ℕ → Option ℕ
source_key d k = elim (get_order k d.board.orders) [ none ↦ none | some wo ↦ some wo.pk ]

-- One round of the loop.
unfoldable pub pause_one : Desk → WorkOrder → ℕ → ℕ → Labels → ℕ → Desk
pause_one d o technician starting t now =
    let stopped =
      with_status
        (record d {
          sheets = update_sheet (λ s. record s { labor_stopped_at = some now }) o.pk d.sheets;
        })
        o.pk in
    record stopped {
      assignments = end_period o.pk technician t.log now d.assignments;
      board = board_after stopped.board (
          open_operational_blocker stopped.board o.pk none t.blocker_note
            (source_key stopped starting) (codes "emergency"));
    }

unfoldable pub pause_each : List WorkOrder → Desk → ℕ → ℕ → Labels → ℕ → Desk
pause_each [] d technician starting t now = d
pause_each (o ∷ os) d technician starting t now =
    pause_each os (pause_one d o technician starting t now) technician starting t now

-- `pause_other_in_progress`, whose reasons are never refused here.
unfoldable pub pause_other_in_progress : Desk → ℕ → ℕ → Labels → ℕ → Desk
pause_other_in_progress d technician starting t now =
    pause_each (others_in_progress technician starting d.sheets d.board.orders) d technician
      starting t now

-- The first start of an order begins its downtime.
abbrev pub begin_downtime : Desk → WorkOrder → WorkSheet → ℕ → Desk
begin_downtime d wo s now =
    if is_none s.downtime_started_at
    then record d {
      sheets = save (record s { downtime_started_at = some now }) d.sheets;
      downtimes =
          insert_last
            (record {
              pk = next_pk d.downtimes;
              work_order = wo.pk;
              is_emergency = wo.is_emergency;
              start_time = now;
              end_time = none;
            })
            d.downtimes;
    }
    else d

abbrev pub pauses_of : ℕ → List WorkOrderBlocker → List WorkOrderBlocker
pauses_of wo [] = []
pauses_of wo (b ∷ bs) = let rest = pauses_of wo bs in if is_pause_of wo b then b ∷ rest else rest

-- The loop over the pauses of the order that starts; the first exception ends it.
unfoldable pub resume_each : List WorkOrderBlocker → Board → ℕ → Text → ℕ → Board
resume_each [] b actor note now = b
resume_each (x ∷ xs) b actor note now = elim (resolve_blocker b x.pk note (some actor) now) [
  | ok r ↦ resume_each xs r.0 actor note now
  | err e ↦ b
]

-- The order as it was read when the call began is what the transition goes on with.
unfoldable pub technician_start_work : Desk → ℕ → ℕ → Labels → ℕ → Result LifecycleError Desk
technician_start_work d k technician t now = do
  wo ← or_raise (get_order k d.board.orders) does_not_exist
  s ← or_raise (get k d.sheets) does_not_exist
  let begun = begin_downtime d wo s now
  let paused = pause_other_in_progress begun technician k t now
  let started : Desk = record paused {
    sheets =
        update_sheet (λ x. record x { labor_started_at = some now; labor_stopped_at = none }) k
          paused.sheets;
  }
  if is_in_progress wo.lifecycle_status
      then ok begun
      else transition_work_order started wo LifecycleStatus.in_progress technician t.log
          t.dependents_note now
        >>= λ moved. ok (record moved {
          board =
              resume_each (pauses_of k moved.board.blockers) moved.board technician t.blocker_note
                now;
        })
