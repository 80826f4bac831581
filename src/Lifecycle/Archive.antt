-- ===== src/Lifecycle/Archive.antt =====
-- maintenance/services.py: `archive_work_order` and `restore_work_order`. The order is read whether it is
-- archived or not, as the manager that the views use may find it.
use spare_part.Base.{ℕ, Bool, true, false, not, Option, none, some}
use spare_part.Base.Rows.{get, save}
use spare_part.Base.Result.{Result, ok}
use spare_part.Base.Shut.{◌>>=◌, ◌>>◌, raise_if, or_raise}
use spare_part.Blockers.Tables.{WorkOrder, order_row}
use spare_part.Lifecycle.Tables.{Desk, WorkSheet, sheet_row}
use spare_part.Lifecycle.Service.{LifecycleError, does_not_exist, already_archived, not_archived}

abbrev pub set_archived : Desk → WorkOrder → WorkSheet → Bool → Option ℕ → Option ℕ → Desk
set_archived d wo s archived at by = record d {
  board = record d.board { orders = save (record wo { is_archived = archived }) d.board.orders };
  sheets = save (record s { archived_at = at; archived_by = by }) d.sheets;
}

unfoldable pub archive_work_order : Desk → ℕ → ℕ → ℕ → Result LifecycleError Desk
archive_work_order d k actor now = do
  wo ← or_raise (get k d.board.orders) does_not_exist
  s ← or_raise (get k d.sheets) does_not_exist
  raise_if wo.is_archived already_archived
  ok (set_archived d wo s true (some now) (some actor))

unfoldable pub restore_work_order : Desk → ℕ → Result LifecycleError Desk
restore_work_order d k = do
  wo ← or_raise (get k d.board.orders) does_not_exist
  s ← or_raise (get k d.sheets) does_not_exist
  raise_if (not wo.is_archived) not_archived
  ok (set_archived d wo s false none none)
