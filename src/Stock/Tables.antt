-- ===== src/Stock/Tables.antt =====
-- inventory/models.py: spare parts, the stock of each site and the movements of stock.
-- A quantity is a whole number of thousandths (`decimal_places=3`), a unit cost one of
-- ten-thousandths (`decimal_places=4`). Users, sites and parts are their primary keys.
use spare_part.Base.{ℕ, Bool, Option}
use spare_part.Base.Int.{ℤ}
use spare_part.Base.Text.{Text}
use spare_part.Base.Rows.{Row}

-- `SparePart.ItemType`; `spare` is `SPARE_PART`.
pub data ItemType : Type 0 where
  spare consumable reusable_tool : ItemType

abbrev pub is_reusable_tool : ItemType → Bool
is_reusable_tool ItemType.reusable_tool = Bool.true
is_reusable_tool _ = Bool.false

-- `supplier_name` is the name of the part's supplier, empty where it has none.
pub record SparePart : Type 0 where
  pub pk : ℕ
  pub item_type : ItemType
  pub is_consumable : Bool
  pub allow_operator_consumption : Bool
  pub min_stock_level : ℤ
  pub avg_cost : Option ℤ
  pub last_purchase_cost : Option ℤ
  pub supplier : Option ℕ
  pub supplier_name : Text

pub record Site : Type 0 where
  pub pk : ℕ
  pub is_default : Bool

-- One row for each part and site.
pub record Inventory : Type 0 where
  pub pk : ℕ
  pub part : ℕ
  pub site : ℕ
  pub quantity_available : ℤ
  pub quantity_quarantine : ℤ

-- `StockMovement.MovementType`
pub data MovementType : Type 0 where
  stock_in stock_out issue_to_wo consumable_use adjustment : MovementType

abbrev pub is_stock_in : MovementType → Bool
is_stock_in MovementType.stock_in = Bool.true
is_stock_in _ = Bool.false

pub record StockMovement : Type 0 where
  pub pk : ℕ
  pub part : ℕ
  pub movement_type : MovementType
  pub quantity : ℤ
  pub quantity_before : Option ℤ
  pub quantity_after : Option ℤ
  pub work_order : Option ℕ
  pub site : Option ℕ
  pub performed_by : ℕ
  pub supplier : Option ℕ
  pub supplier_name : Text
  pub unit_cost : Option ℤ
  pub invoice_ref : Text
  pub note : Text
  pub created_at : ℕ

-- Does a movement of this type take units off the stock?
abbrev pub takes_units : MovementType → Bool
takes_units MovementType.stock_out = Bool.true
takes_units MovementType.issue_to_wo = Bool.true
takes_units MovementType.consumable_use = Bool.true
takes_units _ = Bool.false

instance abbrev pub part_row : Row SparePart
part_row = record { key = λ x. x.pk }

instance abbrev pub site_row : Row Site
site_row = record { key = λ x. x.pk }

instance abbrev pub inventory_row : Row Inventory
inventory_row = record { key = λ x. x.pk }

instance abbrev pub stock_movement_row : Row StockMovement
stock_movement_row = record { key = λ x. x.pk }
