-- ===== src/Stock/Tests.antt =====
-- A small depot, and the theorems about reservations and allocations at it.
use spare_part.Base.{false, ◌≤◌, ◌≡◌, refl, [], ◌∷◌, none, some, arith, ◌==◌, ◌&&◌, count_if}
use spare_part.Base.Int.{pos, ◌+ℤ◌, ◌-ℤ◌, ◌≤ℤ◌}
use spare_part.Base.Result.{Result, ok, err}
use spare_part.Stock.Tables.{Inventory}
use spare_part.Blockers.Tables.{LineStatus}
use spare_part.Stock.Depot.{
  PartIssueLine, ReservationStatus, no_reason, InventoryReservation, Depot,
  compute_quantity_reserved, line_row,
}
use spare_part.Stock.Reservations.{
  StockError, duplicate_active, create_reservation, reserve_stock, release_rows,
  release_reservation, is_open_line, allocate_one, reallocate_for_part,
}
use spare_part.Stock.Cover.{IsCovered, reallocate-IsCovered, reserve_stock_fits, top_up_fails}
use spare_part.Stock.Release.{release_reservation_exact}
use spare_part.Stock.Queue.{queue_position, queue_position_bounds}

abbrev bearings : Inventory
bearings = record {
  pk = 1;
  part = 7;
  site = 2;
  quantity_available = pos 5000;
  quantity_quarantine = pos 0;
}

-- Four units are approved and one is allocated, under an active reservation.
abbrev line : PartIssueLine
line = record {
  pk = 3;
  work_order = 11;
  part = 7;
  quantity = pos 4000;
  unit_cost = pos 0;
  status = LineStatus.approved;
  requested_qty = pos 4000;
  allocated_qty = pos 1000;
  approved_qty = pos 4000;
  issued_qty = pos 0;
  shortage_qty = pos 0;
  invoice_ref = [];
  supplier_name = [];
  requested_by = none;
  issued_by = none;
  approved_by = none;
  approved_at = none;
  rejection_reason = [];
  related_shortage_report = none;
  is_emergency_auto_approved = false;
  emergency_review = none;
}

abbrev other_line : PartIssueLine
other_line = record line { pk = 4; work_order = 12; allocated_qty = pos 0 }

abbrev held : InventoryReservation
held = record {
  pk = 1;
  part = 7;
  work_order = some 11;
  quantity = pos 1000;
  status = ReservationStatus.active;
  source_line = some 3;
  released_at = none;
  release_reason = no_reason;
  priority_at_creation = 5;
}

abbrev legacy : InventoryReservation
legacy = record held { pk = 2; source_line = none; quantity = pos 1500 }

abbrev depot : Depot
depot = record {
  default_site = some 2;
  inventories = bearings ∷ [];
  lines = line ∷ other_line ∷ [];
  reservations = held ∷ legacy ∷ [];
  is_emergency = λ wo. wo == 12;
}

reallocate-IsCovered_example : IsCovered 7 (reallocate_for_part 7 depot)
unfolding ◌+ℤ◌
reallocate-IsCovered_example = reallocate-IsCovered 7 7 depot (ground arith)

abbrev depot_of : Result StockError Depot → Depot
depot_of (ok d) = d
depot_of (err e) = depot

abbrev reserved : Depot
unfolding reserve_stock create_reservation ◌-ℤ◌ ◌+ℤ◌
reserved = depot_of (reserve_stock depot 7 (pos 2000) (some 11) none)

reserve_stock_fits_example :
    (compute_quantity_reserved 7 reserved.reservations
      ≡ compute_quantity_reserved 7 depot.reservations +ℤ pos 2000)
    × (compute_quantity_reserved 7 reserved.reservations ≤ℤ pos 5000)
unfolding reserve_stock create_reservation ◌-ℤ◌ ◌+ℤ◌
reserve_stock_fits_example =
    reserve_stock_fits depot reserved 7 (pos 2000) (some 11) none 2 bearings refl refl refl

top_up_fails_example : allocate_one depot line ≡ err duplicate_active
unfolding ◌-ℤ◌ ◌+ℤ◌
top_up_fails_example = top_up_fails depot line refl refl (omega arith) (ground arith) (ground arith)

abbrev released_depot : Depot
unfolding release_reservation release_rows ◌-ℤ◌ ◌+ℤ◌
released_depot = depot_of (release_reservation depot 7 (pos 400) (some 11) 9 6)

release_reservation_exact_example :
    compute_quantity_reserved 7 released_depot.reservations +ℤ pos 400
    ≡ compute_quantity_reserved 7 depot.reservations
unfolding release_reservation release_rows ◌-ℤ◌ ◌+ℤ◌
release_reservation_exact_example =
    release_reservation_exact depot released_depot 7 (pos 400) (some 11) 9 6 refl

queue_position_bounds_example :
    (1 ≤ (queue_position depot line).0)
    × ((queue_position depot line).0 ≤ (queue_position depot line).1)
    × ((queue_position depot line).1
        ≡ count_if (λ x. x.part == 7 && is_open_line x.status) depot.lines)
queue_position_bounds_example = queue_position_bounds depot line refl refl
