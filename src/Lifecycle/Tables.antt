-- ===== src/Lifecycle/Tables.antt =====
-- maintenance/models.py: the tables of the lifecycle of work orders.
use spare_part.Base.{ℕ, Bool, List, Option}
use spare_part.Base.Text.{Text}
use spare_part.Base.Rows.{Row}
use spare_part.Blockers.Tables.{LifecycleStatus, Board}
use spare_part.Stock.Depot.{PartIssueLine, InventoryReservation}

-- The fields of a work order that its technician and its reviewer fill, under the key of the order.
pub record WorkSheet : Type 0 where
  pub work_order : ℕ
  pub assigned_technician : Option ℕ
  pub labor_started_at : Option ℕ
  pub labor_stopped_at : Option ℕ
  pub downtime_started_at : Option ℕ
  pub downtime_ended_at : Option ℕ
  pub rejected_at : Option ℕ
  pub rejected_by : Option ℕ
  pub rejection_reason : Text
  pub rejection_count : ℕ
  pub archived_at : Option ℕ
  pub archived_by : Option ℕ

-- A new order is logged with no stage before.
pub record WorkOrderStateLog : Type 0 where
  pub work_order : ℕ
  pub from_status : Option LifecycleStatus
  pub to_status : LifecycleStatus
  pub actor : ℕ
  pub note : Text

-- A downtime of an emergency or of a breakdown.
pub record Downtime : Type 0 where
  pub pk : ℕ
  pub work_order : ℕ
  pub is_emergency : Bool
  pub start_time : ℕ
  pub end_time : Option ℕ

-- A period of `WorkOrderAssignmentHistory`.
pub record Assignment : Type 0 where
  pub pk : ℕ
  pub work_order : ℕ
  pub technician : ℕ
  pub unassigned_at : Option ℕ
  pub reason : Text

-- `WorkOrder.PauseReason`
pub data PauseReason : Type 0 where
  emergency operational other : PauseReason

pub record Desk : Type 0 where
  pub board : Board
  pub lines : List PartIssueLine
  pub reservations : List InventoryReservation
  pub sheets : List WorkSheet
  pub state_logs : List WorkOrderStateLog
  pub downtimes : List Downtime
  pub assignments : List Assignment

instance abbrev pub sheet_row : Row WorkSheet
sheet_row = record { key = λ x. x.work_order }

instance abbrev pub downtime_row : Row Downtime
downtime_row = record { key = λ x. x.pk }

instance abbrev pub period_row : Row Assignment
period_row = record { key = λ x. x.pk }
