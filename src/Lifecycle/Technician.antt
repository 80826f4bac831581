-- ===== src/Lifecycle/Technician.antt =====
-- maintenance/services.py: what a technician and the reviewing manager do to a work order. An order is given by
-- its key; the object of it is read when the call begins. The labels of blockers and the notes of logs are
-- arguments (`Labels`); notifications are left out.
use spare_part.Base.{
  reverse, ℕ, suc, Bool, true, not, ◌&&◌, [], Option, none, some, ◌==◌, if◌then◌else◌, find_first,
  is_none, take,
}
use spare_part.Base.Text.{Text, codes, strip, is_empty}
use spare_part.Base.Rows.{get, save}
use spare_part.Base.Result.{Result, ok}
use spare_part.Base.Shut.{◌>>=◌, ◌>>◌, raise_if, or_raise}
use spare_part.Blockers.Tables.{WorkOrder, LifecycleStatus, order_row}
use spare_part.Blockers.Status.{
  is_in_progress, does_not_exist, get_order, recompute_operational_status,
}
use spare_part.Blockers.Service.{open_operational_blocker}
use spare_part.Blockers.Steps.{board_after}
use spare_part.Lifecycle.Tables.{
  Desk, WorkSheet, Downtime, PauseReason, sheet_row, downtime_row, period_row,
}
use spare_part.Lifecycle.Service.{
  not_in_progress, reason_required, does_not_exist, LifecycleError, transition_work_order,
}

-- The note of the state log, and the note on the blockers that the call resolves or opens.
pub record Labels : Type 0 where
  pub log : Text
  pub dependents_note : Text
  pub blocker_note : Text

abbrev pub with_status : Desk → ℕ → Desk
with_status d wo = record d {
  board = board_after d.board (recompute_operational_status d.board wo);
}

abbrev pub save_sheet : Desk → WorkSheet → Desk
save_sheet d s = record d { sheets = save s d.sheets }

-- `technician_submit_for_review`
unfoldable pub technician_submit_for_review : Desk → ℕ → ℕ → Labels → ℕ → Result LifecycleError Desk
technician_submit_for_review d k technician t now = do
  wo ← or_raise (get_order k d.board.orders) does_not_exist
  s ← or_raise (get k d.sheets) does_not_exist
  transition_work_order (save_sheet d (record s { labor_stopped_at = some now })) wo
      LifecycleStatus.pending_review technician t.log t.dependents_note now

-- `technician_mark_pending_parts` and `technician_mark_waiting_vendor`, which write the same.
unfoldable pub technician_mark_waiting : Desk → ℕ → ℕ → Result LifecycleError Desk
technician_mark_waiting d k now = do
  wo ← or_raise (get_order k d.board.orders) does_not_exist
  raise_if (not (is_in_progress wo.lifecycle_status)) not_in_progress
  s ← or_raise (get k d.sheets) does_not_exist
  ok (with_status (save_sheet d (record s { labor_stopped_at = some now })) k)

abbrev pub is_running : ℕ → Downtime → Bool
is_running k x = x.work_order == k && is_none x.end_time

-- The end of the running downtime that began last, if there is one.
abbrev pub end_downtime : Desk → ℕ → WorkSheet → ℕ → Desk × WorkSheet
end_downtime d k s now = elim (find_first (is_running k) (reverse d.downtimes)) [
  | none ↦ (d, s)
  | some x ↦ (
    record d { downtimes = save (record x { end_time = some now }) d.downtimes },
    record s { downtime_ended_at = some now },
  )
]

abbrev pub approved_sheet : WorkSheet → WorkSheet
approved_sheet s = record s { rejected_at = none; rejected_by = none; rejection_reason = [] }

abbrev pub rejected_sheet : WorkSheet → ℕ → Text → ℕ → WorkSheet
rejected_sheet s manager reason now = record s {
  rejection_count = suc s.rejection_count;
  rejected_at = some now;
  rejected_by = some manager;
  rejection_reason = take 500 (strip reason);
  labor_started_at = some now;
  labor_stopped_at = none;
}

-- `manager_close_work_order` of an order that was read.
unfoldable pub close_held :
    Desk → WorkOrder → ℕ → Bool → Text → Labels → ℕ → Result LifecycleError Desk
close_held d wo manager approve reason t now = do
  s ← or_raise (get wo.pk d.sheets) does_not_exist
  raise_if (not approve && is_empty (strip reason)) reason_required
  let e = end_downtime d wo.pk s now
  if approve
      then transition_work_order (save_sheet e.0 (approved_sheet e.1)) wo LifecycleStatus.closed
          manager t.log t.dependents_note now
      else transition_work_order (save_sheet d (rejected_sheet s manager reason now)) wo
          LifecycleStatus.in_progress manager t.log t.dependents_note now

unfoldable pub manager_close_work_order :
    Desk → ℕ → ℕ → Bool → Text → Labels → ℕ → Result LifecycleError Desk
manager_close_work_order d k manager approve reason t now = do
  wo ← or_raise (get_order k d.board.orders) does_not_exist
  close_held d wo manager approve reason t now

abbrev pub reason_text : PauseReason → Text
reason_text PauseReason.emergency = codes "emergency"
reason_text PauseReason.operational = codes "operational"
reason_text PauseReason.other = codes "other"

-- Is the pause significant enough for a blocker?
abbrev pub should_open : PauseReason → Text → Bool
should_open PauseReason.operational note = not (is_empty (strip note))
should_open _ note = true

-- `work_order_pause`
unfoldable pub work_order_pause :
    Desk → ℕ → PauseReason → Text → Option ℕ → ℕ → Result LifecycleError Desk
work_order_pause d k reason note actor now = do
  wo ← or_raise (get_order k d.board.orders) does_not_exist
  s ← or_raise (get k d.sheets) does_not_exist
  let stopped = save_sheet d (record s { labor_stopped_at = some now })
  let opened =
      board_after d.board (open_operational_blocker d.board k actor note none (reason_text reason))
  ok (
      with_status (record stopped { board = if should_open reason note then opened else d.board })
        k)
