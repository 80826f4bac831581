-- ===== src/Tools/Tables.antt =====
-- inventory/models.py (ReusableToolInstance) and inventory/models_tools.py: the tables of the
-- reusable-tool pool. A time is a number, a foreign key the primary key of its target.
use spare_part.Base.{ℕ, Bool, true, false, Option, List}
use spare_part.Base.Int.{ℤ}
use spare_part.Base.Text.{Text}
use spare_part.Base.Rows.{Row}
use spare_part.Stock.Tables.{Site, Inventory, StockMovement}

-- `ReusableToolInstance.Status`
pub data ToolStatus : Type 0 where
  available in_use out_of_service : ToolStatus

abbrev pub is_available : ToolStatus → Bool
is_available ToolStatus.available = true
is_available _ = false

abbrev pub is_in_use : ToolStatus → Bool
is_in_use ToolStatus.in_use = true
is_in_use _ = false

abbrev pub is_out_of_service : ToolStatus → Bool
is_out_of_service ToolStatus.out_of_service = true
is_out_of_service _ = false

pub record ReusableToolInstance : Type 0 where
  pub pk : ℕ
  pub part : ℕ
  pub tool_number : ℕ
  pub status : ToolStatus
  pub source_stock_movement : Option ℕ
  pub is_active : Bool

-- `ToolAssignment.Condition`
pub data Condition : Type 0 where
  good fair damaged : Condition

-- Open while `return_at` is none. A blank `condition_in` is none.
pub record ToolAssignment : Type 0 where
  pub pk : ℕ
  pub tool : ℕ
  pub operator : ℕ
  pub machine : ℕ
  pub checkout_at : ℕ
  pub return_at : Option ℕ
  pub condition_out : Condition
  pub condition_in : Option Condition
  pub notes : Text

-- `ToolDamageReport.Status`
pub data ReportStatus : Type 0 where
  opened repaired written_off : ReportStatus

abbrev pub is_opened : ReportStatus → Bool
is_opened ReportStatus.opened = true
is_opened _ = false

pub record ToolDamageReport : Type 0 where
  pub pk : ℕ
  pub tool : ℕ
  pub reported_by : ℕ
  pub machine : Option ℕ
  pub assignment : Option ℕ
  pub damage_date : ℕ
  pub reason : Text
  pub repair_cost : Option ℤ
  pub status : ReportStatus
  pub resolved_at : Option ℕ
  pub resolved_by : Option ℕ

-- `ToolMovement.MovementType`
pub data ToolMovementType : Type 0 where
  issued assigned returned damaged repaired written_off : ToolMovementType

pub record ToolMovement : Type 0 where
  pub tool : ℕ
  pub movement_type : ToolMovementType
  pub actor : ℕ
  pub machine : Option ℕ
  pub assignment : Option ℕ
  pub damage_report : Option ℕ
  pub note : Text

instance abbrev pub tool_row : Row ReusableToolInstance
tool_row = record { key = λ x. x.pk }

instance abbrev pub assignment_row : Row ToolAssignment
assignment_row = record { key = λ x. x.pk }

instance abbrev pub report_row : Row ToolDamageReport
report_row = record { key = λ x. x.pk }

-- The tables that the services of the pool read and write.
pub record ToolPool : Type 0 where
  pub sites : List Site
  pub inventories : List Inventory
  pub stock_movements : List StockMovement
  pub tools : List ReusableToolInstance
  pub assignments : List ToolAssignment
  pub reports : List ToolDamageReport
  pub movements : List ToolMovement
