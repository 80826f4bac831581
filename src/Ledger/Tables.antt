-- ===== src/Ledger/Tables.antt =====
-- maintenance/models.py: the cost journal and its cache. An amount is a whole number of hundredths
-- (`decimal_places=2`), a quantity one of thousandths and a unit cost one of ten-thousandths.
use spare_part.Base.{ℕ, Bool, true, false, Option, List}
use spare_part.Base.Int.{ℤ, ◌+ℤ◌}
use spare_part.Base.Text.{Text}
use spare_part.Base.Rows.{Row}
use spare_part.Stock.Tables.{SparePart, StockMovement}
use spare_part.Stock.Depot.{PartIssueLine}

-- `CostCategory`
pub data CostCategory : Type 0 where
  material vendor_repair consumable adjustment : CostCategory

abbrev pub same_category : CostCategory → CostCategory → Bool
same_category CostCategory.material CostCategory.material = true
same_category CostCategory.vendor_repair CostCategory.vendor_repair = true
same_category CostCategory.consumable CostCategory.consumable = true
same_category CostCategory.adjustment CostCategory.adjustment = true
same_category _ _ = false

-- The source types that the ledger posts.
pub data SourceType : Type 0 where
  part_issue_line external_repair_order stock_movement cost_adjustment : SourceType

abbrev pub same_source_type : SourceType → SourceType → Bool
same_source_type SourceType.part_issue_line SourceType.part_issue_line = true
same_source_type SourceType.external_repair_order SourceType.external_repair_order = true
same_source_type SourceType.stock_movement SourceType.stock_movement = true
same_source_type SourceType.cost_adjustment SourceType.cost_adjustment = true
same_source_type _ _ = false

pub record CostTransaction : Type 0 where
  pub pk : ℕ
  pub amount : ℤ
  pub category : CostCategory
  pub quantity : Option ℤ
  pub unit_cost : Option ℤ
  pub work_order : Option ℕ
  pub machine : Option ℕ
  pub component : Option ℕ
  pub source_type : SourceType
  pub source_id : ℕ
  pub adjustment : Option ℕ
  pub actor : Option ℕ
  pub occurred_at : ℕ
  pub memo : Text

-- The cache, one row for each work order, which is its key here.
pub record WorkOrderCost : Type 0 where
  pub work_order : ℕ
  pub material_cost : ℤ
  pub vendor_repair_cost : ℤ
  pub consumables_cost : ℤ
  pub additional_cost : ℤ
  pub committed_material_cost : ℤ
  pub ledger_transaction_count : ℕ

abbrev pub total_cost : WorkOrderCost → ℤ
total_cost c = c.material_cost +ℤ c.vendor_repair_cost +ℤ c.consumables_cost +ℤ c.additional_cost

pub record CostAdjustment : Type 0 where
  pub pk : ℕ
  pub work_order : ℕ
  pub amount : ℤ
  pub memo : Text
  pub created_by : ℕ

-- What the ledger reads of an `ExternalRepairOrder`.
pub record ExternalRepairOrder : Type 0 where
  pub pk : ℕ
  pub is_closed : Bool
  pub actual_cost : Option ℤ
  pub work_order : Option ℕ

-- The tables, with the machine and the component of each work order.
pub record Books : Type 0 where
  pub transactions : List CostTransaction
  pub costs : List WorkOrderCost
  pub adjustments : List CostAdjustment
  pub lines : List PartIssueLine
  pub parts : List SparePart
  pub stock_movements : List StockMovement
  pub repair_orders : List ExternalRepairOrder
  pub machine_of : ℕ → Option ℕ
  pub component_of : ℕ → Option ℕ

instance abbrev pub transaction_row : Row CostTransaction
transaction_row = record { key = λ x. x.pk }

instance abbrev pub cost_row : Row WorkOrderCost
cost_row = record { key = λ x. x.work_order }

instance abbrev pub adjustment_row : Row CostAdjustment
adjustment_row = record { key = λ x. x.pk }

instance abbrev pub repair_order_row : Row ExternalRepairOrder
repair_order_row = record { key = λ x. x.pk }
