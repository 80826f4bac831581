-- ===== src/Lifecycle/Steps.antt =====
-- A history of calls of the lifecycle services of maintenance/services.py.
use spare_part.Base.{ℕ, Bool, List, [], ◌∷◌, Option}
use spare_part.Base.Text.{Text}
use spare_part.Base.Result.{Result, tables_or}
use spare_part.Base.Shut.{◌>>=◌, or_raise}
use spare_part.Blockers.Tables.{LifecycleStatus}
use spare_part.Blockers.Status.{does_not_exist, get_order}
use spare_part.Lifecycle.Tables.{Desk, PauseReason}
use spare_part.Lifecycle.Service.{does_not_exist, LifecycleError, transition_work_order}
use spare_part.Lifecycle.Technician.{
  Labels, technician_submit_for_review, technician_mark_waiting, manager_close_work_order,
  work_order_pause,
}
use spare_part.Lifecycle.Start.{technician_start_work}
use spare_part.Lifecycle.Archive.{archive_work_order, restore_work_order}

-- The calls, each with the arguments of its service; a view that moves an order reads it first.
pub data LifecycleCall : Type 0 where
  moves : ℕ → LifecycleStatus → ℕ → Labels → ℕ → LifecycleCall
  starts : ℕ → ℕ → Labels → ℕ → LifecycleCall
  submits : ℕ → ℕ → Labels → ℕ → LifecycleCall
  waits : ℕ → ℕ → LifecycleCall
  reviews : ℕ → ℕ → Bool → Text → Labels → ℕ → LifecycleCall
  pauses : ℕ → PauseReason → Text → Option ℕ → ℕ → LifecycleCall
  archives : ℕ → ℕ → ℕ → LifecycleCall
  restores : ℕ → LifecycleCall

-- `transition_work_order` of an order that was just read.
unfoldable pub move : Desk → ℕ → LifecycleStatus → ℕ → Labels → ℕ → Result LifecycleError Desk
move d k to actor t now = do
  wo ← or_raise (get_order k d.board.orders) does_not_exist
  transition_work_order d wo to actor t.log t.dependents_note now

unfoldable pub result : Desk → LifecycleCall → Result LifecycleError Desk
result d (moves k to actor t now) = move d k to actor t now
result d (starts k technician t now) = technician_start_work d k technician t now
result d (submits k technician t now) = technician_submit_for_review d k technician t now
result d (waits k now) = technician_mark_waiting d k now
result d (reviews k manager approve reason t now) =
    manager_close_work_order d k manager approve reason t now
result d (pauses k reason note actor now) = work_order_pause d k reason note actor now
result d (archives k actor now) = archive_work_order d k actor now
result d (restores k) = restore_work_order d k

-- A call that raises is rolled back.
unfoldable pub step : Desk → LifecycleCall → Desk
step d c = tables_or d (result d c)

unfoldable pub run : Desk → List LifecycleCall → Desk
run d [] = d
run d (c ∷ cs) = run (step d c) cs
