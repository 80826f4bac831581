-- ===== src/Warehouse/Tables.antt =====
-- inventory/models.py: the tables that the services of inventory/services.py read and write.
use spare_part.Base.{ℕ, Bool, true, false, List, Option}
use spare_part.Base.Int.{ℤ}
use spare_part.Base.Text.{Text}
use spare_part.Base.Rows.{Row, flag_at}
use spare_part.Stock.Tables.{SparePart, Inventory, StockMovement}
use spare_part.Stock.Depot.{PartIssueLine, InventoryReservation, Depot}
use spare_part.Ledger.Tables.{
  CostTransaction, WorkOrderCost, CostAdjustment, ExternalRepairOrder, Books,
}
use spare_part.Blockers.Tables.{ShortageStatus, Board, order_row}

-- `ConsumableAssignment.Source`, the two that the services write.
pub data Source : Type 0 where
  self_service supervisor_issue : Source

pub record ConsumableAssignment : Type 0 where
  pub pk : ℕ
  pub part : ℕ
  pub consumed_by : ℕ
  pub issued_by : ℕ
  pub quantity : ℤ
  pub source : Source
  pub approved : Bool
  pub site : ℕ
  pub machine : Option ℕ
  pub note : Text
  pub stock_movement : Option ℕ

-- A report of a work order, its source.
pub record PartShortageReport : Type 0 where
  pub pk : ℕ
  pub status : ShortageStatus
  pub work_order : ℕ
  pub part : ℕ
  pub qty_requested : ℤ
  pub qty_issued : ℤ
  pub available_qty_snapshot : ℤ
  pub reserved_qty_snapshot : ℤ
  pub usable_qty_snapshot : ℤ
  pub shortage_qty : ℤ
  pub is_emergency : Bool
  pub reported_by : ℕ

-- The decision of a report, which is its key here, one to one.
pub record PartShortageDecision : Type 0 where
  pub report : ℕ
  pub is_approve : Bool
  pub approved_issue_qty : ℤ
  pub approved_procurement_qty : ℤ
  pub rejected_qty : ℤ

-- `PurchaseRequest.Status` of procurement/models.py
pub data RequestStatus : Type 0 where
  pending converted_to_po partially_fulfilled fulfilled cancelled : RequestStatus

abbrev pub is_pending_status : RequestStatus → Bool
is_pending_status RequestStatus.pending = true
is_pending_status _ = false

pub record PurchaseRequest : Type 0 where
  pub pk : ℕ
  pub part : ℕ
  pub work_order : Option ℕ
  pub quantity : ℤ
  pub unit_price : Option ℤ
  pub purchase_order : Option ℕ
  pub created_by : ℕ
  pub source_shortage_report : Option ℕ
  pub status : RequestStatus

instance abbrev pub consumable_assignment_row : Row ConsumableAssignment
consumable_assignment_row = record { key = λ x. x.pk }

instance abbrev pub shortage_report_row : Row PartShortageReport
shortage_report_row = record { key = λ x. x.pk }

instance abbrev pub shortage_decision_row : Row PartShortageDecision
shortage_decision_row = record { key = λ x. x.report }

-- The tables. `machines` are the keys of the machines, and `machine_of` and `component_of` read the
-- foreign keys of a work order.
pub record Warehouse : Type 0 where
  pub default_site : Option ℕ
  pub machines : List ℕ
  pub machine_of : ℕ → Option ℕ
  pub component_of : ℕ → Option ℕ
  pub parts : List SparePart
  pub inventories : List Inventory
  pub stock_movements : List StockMovement
  pub lines : List PartIssueLine
  pub reservations : List InventoryReservation
  pub consumable_assignments : List ConsumableAssignment
  pub shortage_reports : List PartShortageReport
  pub shortage_decisions : List PartShortageDecision
  pub purchase_requests : List PurchaseRequest
  pub transactions : List CostTransaction
  pub costs : List WorkOrderCost
  pub adjustments : List CostAdjustment
  pub repair_orders : List ExternalRepairOrder
  pub board : Board

-- The tables that the allocation reads.
abbrev pub depot : Warehouse → Depot
depot w = record {
  default_site = w.default_site;
  inventories = w.inventories;
  lines = w.lines;
  reservations = w.reservations;
  is_emergency = λ k. flag_at (λ o. o.is_emergency) k w.board.orders;
}

-- The two tables that an allocation writes.
abbrev pub with_depot : Warehouse → Depot → Warehouse
with_depot w d = record w { lines = d.lines; reservations = d.reservations }

-- The tables that the cost ledger reads.
abbrev pub books : Warehouse → Books
books w = record {
  transactions = w.transactions;
  costs = w.costs;
  adjustments = w.adjustments;
  lines = w.lines;
  parts = w.parts;
  stock_movements = w.stock_movements;
  repair_orders = w.repair_orders;
  machine_of = w.machine_of;
  component_of = w.component_of;
}

-- The two tables that the posting of a line or of a movement writes.
abbrev pub with_books : Warehouse → Books → Warehouse
with_books w b = record w { transactions = b.transactions; costs = b.costs }
