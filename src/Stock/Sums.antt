-- ===== src/Stock/Sums.antt =====
-- Sums of reservations, for the proofs about reserving, allocating and releasing.
use spare_part.Base.{ℕ, ◌≡◌, List, [], ◌∷◌, if◌then◌else◌, ◌==◌, ◌&&◌, insert_last}
use spare_part.Base.Int.{+ℤ_assoc, ℤ, pos, ◌+ℤ◌, int_laws}
use spare_part.Stock.Depot.{InventoryReservation, is_active, compute_quantity_reserved}

-- What one reservation claims of a part.
abbrev pub claimed : ℕ → InventoryReservation → ℤ
claimed part r = if r.part == part && is_active r.status then r.quantity else pos 0

pub reserved-insert_last :
    (part : ℕ) (r : InventoryReservation) (rs : List InventoryReservation)
    → compute_quantity_reserved part (insert_last r rs)
      ≡ compute_quantity_reserved part rs +ℤ claimed part r
reserved-insert_last part r [] = omega int_laws
reserved-insert_last part r (x ∷ xs) =
    rw (reserved-insert_last part r xs, +ℤ_assoc (claimed part x) _ (claimed part r))
