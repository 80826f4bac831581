-- ===== src/Stock/Depot.antt =====
-- inventory/models.py: part lines, reservations, and the stock that is free.
use spare_part.Base.Text.{Text}
use spare_part.Base.{
  ℕ, Bool, true, false, ◌&&◌, List, [], ◌∷◌, Option, none, some, ◌==◌, if◌then◌else◌, find_first,
}
use spare_part.Base.Int.{ℤ, pos, ◌+ℤ◌, ◌-ℤ◌, max_ℤ}
use spare_part.Base.Rows.{Row}
use spare_part.Stock.Tables.{Inventory}
use spare_part.Blockers.Tables.{LineStatus, ShortageStatus}

-- The values of `emergency_review_status`.
pub data ReviewDecision : Type 0 where
  approved exception investigate : ReviewDecision

-- The four fields of a line that the review after an emergency issue fills.
pub record EmergencyReview : Type 0 where
  pub decision : ReviewDecision
  pub reviewed_by : ℕ
  pub reviewed_at : ℕ
  pub review_note : Text

-- `PartIssueLine`, the fields of its quantities, its state and who moved it. Quantities are in thousandths.
pub record PartIssueLine : Type 0 where
  pub pk : ℕ
  pub work_order : ℕ
  pub part : ℕ
  pub quantity : ℤ
  pub unit_cost : ℤ
  pub status : LineStatus
  pub requested_qty : ℤ
  pub allocated_qty : ℤ
  pub approved_qty : ℤ
  pub issued_qty : ℤ
  pub shortage_qty : ℤ
  pub invoice_ref : Text
  pub supplier_name : Text
  pub requested_by : Option ℕ
  pub issued_by : Option ℕ
  pub approved_by : Option ℕ
  pub approved_at : Option ℕ
  pub rejection_reason : Text
  pub related_shortage_report : Option ℕ
  pub is_emergency_auto_approved : Bool
  pub emergency_review : Option EmergencyReview

-- `InventoryReservation.Status`
pub data ReservationStatus : Type 0 where
  active released cancelled : ReservationStatus

abbrev pub is_active : ReservationStatus → Bool
is_active ReservationStatus.active = true
is_active _ = false

-- The texts of `release_reason`.
pub data ReleaseReason : Type 0 where
  no_reason legacy_call order_closed line_issued : ReleaseReason
  for_line legacy_release partial_release : ℕ → ReleaseReason
  warehouse_issue partial_issue legacy_issue partial_legacy_issue : ℤ → ℕ → ReleaseReason
  line_cancelled legacy_line_cancelled : Text → ReleaseReason
  report_closed legacy_report_closed : ShortageStatus → ReleaseReason

pub record InventoryReservation : Type 0 where
  pub pk : ℕ
  pub part : ℕ
  pub work_order : Option ℕ
  pub quantity : ℤ
  pub status : ReservationStatus
  pub source_line : Option ℕ
  pub released_at : Option ℕ
  pub release_reason : ReleaseReason
  pub priority_at_creation : ℕ

instance abbrev pub line_row : Row PartIssueLine
line_row = record { key = λ x. x.pk }

instance abbrev pub reservation_row : Row InventoryReservation
reservation_row = record { key = λ x. x.pk }

-- The tables that reservations touch; `default_site` is the site marked so, and `is_emergency` reads
-- the flag of a work order.
pub record Depot : Type 0 where
  pub default_site : Option ℕ
  pub inventories : List Inventory
  pub lines : List PartIssueLine
  pub reservations : List InventoryReservation
  pub is_emergency : ℕ → Bool

-- `Inventory.compute_quantity_reserved`: the filter is on the part and not on the site.
abbrev pub compute_quantity_reserved : ℕ → List InventoryReservation → ℤ
compute_quantity_reserved part [] = pos 0
compute_quantity_reserved part (r ∷ rs) =
    (if r.part == part && is_active r.status then r.quantity else pos 0)
    +ℤ compute_quantity_reserved part rs

-- `PartAllocationService.free_stock_for_part` of inventory/services_allocation.py
abbrev pub free_stock_for_part : ℕ → Depot → ℤ
free_stock_for_part part d = elim (find_first (λ i. i.part == part) d.inventories) [
  | none ↦ pos 0
  | some inv ↦
      max_ℤ (pos 0) (inv.quantity_available -ℤ compute_quantity_reserved part d.reservations)
]
