-- ===== src/Stock/Cover.antt =====
-- Reserving and allocating never claim more of a part than its stock holds.
use spare_part.Stock.Tables.{Inventory}
use spare_part.Base.Rows.{save}
use spare_part.Base.{
  true, subst, false, not, if_branches, insert_last, arith, ◌⊎◌, Bool, ℕ, ◌≡◌, refl, List, [], ◌∷◌,
  ◌==◌, ◌&&◌, find_first, Option-cases, inl, inr,
}
use spare_part.Base.Int.{
  +ℤ_parts, ℤ, pos, ◌+ℤ◌, ◌-ℤ◌, int_laws, ◌≤ℤ◌, leb_ℤ, min_ℤ, max_ℤ, -ℤ_parts,
}
use spare_part.Base.Result.{Result, ok, err}
use spare_part.Base.{Option, none, some}
use spare_part.Stock.Depot.{
  line_row, no_reason, free_stock_for_part, InventoryReservation, is_active,
  compute_quantity_reserved, Depot, PartIssueLine,
}
use spare_part.Stock.Reservations.{
  reserve_reason, reserve_stock, has_active, is_stock_of, priority_order, reallocate_for_part,
  allocate_lines, depot_after, is_open_line, wo_priority_rank, new_reservation, grant,
  duplicate_active, StockError, create_reservation, give_units, allocate_one,
}
use spare_part.Stock.Sums.{claimed, reserved-insert_last}

-- The stock that `free_stock_for_part` reads: the first row of the part.
abbrev pub on_hand : ℕ → Depot → ℤ
on_hand part d = elim (find_first (λ i. i.part == part) d.inventories) [
  | none ↦ pos 0
  | some inv ↦ inv.quantity_available
]

-- The active reservations of a part are within its stock.
abbrev pub IsCovered : ℕ → Depot → Type 0
IsCovered part d = compute_quantity_reserved part d.reservations ≤ℤ on_hand part d

-- The tables once `give` units went to the line `l`.
abbrev pub given : Depot → PartIssueLine → ℤ → Depot
given d l give = record d {
  lines = save (grant l give) d.lines;
  reservations =
      insert_last
        (new_reservation d l.part (some l.work_order) give (some l.pk) no_reason
          (wo_priority_rank d l.work_order))
        d.reservations;
}

pub give_units-cases :
    (d : Depot) (l : PartIssueLine) (give : ℤ)
    → (give_units d l give ≡ err duplicate_active)
      ⊎ (give_units d l give ≡ ok (given d l give, leb_ℤ l.approved_qty (l.allocated_qty +ℤ give)))
unfolding give_units create_reservation
give_units-cases d l give = ground arith

-- An allocation raises, changes nothing, or gives what the line lacks out of the free stock.
abbrev pub Outcome : Depot → PartIssueLine → Result StockError (Depot × Bool) → Type 0
Outcome d l res =
    (res ≡ err duplicate_active)
    ⊎ ((b : Bool) × (res ≡ ok (d, b)))
    ⊎ ((give : ℤ) × (b : Bool) × (res ≡ ok (given d l give, b))
        × (give ≤ℤ free_stock_for_part l.part d)
        × (give ≤ℤ l.approved_qty -ℤ l.allocated_qty)
        × (pos 1 ≤ℤ give))

give_units-Outcome :
    (d : Depot) (l : PartIssueLine) (give : ℤ)
    → give ≤ℤ free_stock_for_part l.part d
    → give ≤ℤ l.approved_qty -ℤ l.allocated_qty
    → pos 1 ≤ℤ give
    → Outcome d l (give_units d l give)
give_units-Outcome d l give h k m = elim (give_units-cases d l give) [
  | inl refused ↦ inl refused
  | inr done ↦ inr (inr (give, _, done, h, k, m))
]

pub allocate_one-Outcome : (d : Depot) (l : PartIssueLine) → Outcome d l (allocate_one d l)
unfolding allocate_one
allocate_one-Outcome d l =
    let gap = l.approved_qty -ℤ l.allocated_qty in
    let free = free_stock_for_part l.part d in
    if_branches (Outcome d l) (not (is_open_line l.status)) _ _ (λ _. inr (inl (false, refl)))
      (λ _.
        if_branches (Outcome d l) (leb_ℤ l.approved_qty (pos 0)) _ _ (λ _. inr (inl (false, refl)))
          (λ _.
            if_branches (Outcome d l) (leb_ℤ gap (pos 0)) _ _ (λ _. inr (inl (_, refl)))
              (λ some_gap.
                if_branches (Outcome d l) (leb_ℤ free (pos 0)) _ _ (λ _. inr (inl (false, refl)))
                  (λ some_free.
                    give_units-Outcome d l (min_ℤ gap free) (ground arith) (ground arith)
                      (ground arith)))))

fits_max : (a b g : ℤ) → pos 1 ≤ℤ g → g ≤ℤ max_ℤ (pos 0) (a -ℤ b) → b +ℤ g ≤ℤ a
fits_max a b g h k = ground (arith, +ℤ_parts b g, -ℤ_parts a b)

free-on_hand :
    (part : ℕ) (d : Depot) (give : ℤ)
    → pos 1 ≤ℤ give
    → give ≤ℤ free_stock_for_part part d
    → compute_quantity_reserved part d.reservations +ℤ give ≤ℤ on_hand part d
free-on_hand part d give h k =
    elim (Option-cases (find_first (λ i. i.part == part) d.inventories)) [
      | inl missing ↦ ground arith
      | inr (inv, found) ↦
          rw (found, on_hand)
            (fits_max inv.quantity_available (compute_quantity_reserved part d.reservations) give h
              (rw (found, free_stock_for_part) at k))
    ]

fits_zero : (a b : ℤ) → a ≤ℤ b → a +ℤ pos 0 ≤ℤ b
fits_zero a b h = omega int_laws

claimed-Fits :
    (part : ℕ) (d : Depot) (r : InventoryReservation)
    → IsCovered part d
    → compute_quantity_reserved r.part d.reservations +ℤ r.quantity ≤ℤ on_hand r.part d
    → compute_quantity_reserved part d.reservations +ℤ claimed part r ≤ℤ on_hand part d
claimed-Fits part d r h fits =
    if_branches (λ q. compute_quantity_reserved part d.reservations +ℤ q ≤ℤ on_hand part d)
      (r.part == part && is_active r.status) r.quantity (pos 0)
      (λ same.
        subst (λ p. compute_quantity_reserved p d.reservations +ℤ r.quantity ≤ℤ on_hand p d)
          (ground (arith, same)) fits)
      (λ _. fits_zero _ _ h)

pub given-IsCovered :
    (part : ℕ) (d : Depot) (l : PartIssueLine) (give : ℤ)
    → IsCovered part d
    → pos 1 ≤ℤ give
    → give ≤ℤ free_stock_for_part l.part d
    → IsCovered part (given d l give)
given-IsCovered part d l give h k fits =
    let r =
      new_reservation d l.part (some l.work_order) give (some l.pk) no_reason
        (wo_priority_rank d l.work_order) in
    rw (reserved-insert_last part r d.reservations)
      (claimed-Fits part d r h (free-on_hand l.part d give k fits))

pub allocate_one-IsCovered :
    (part : ℕ) (d : Depot) (l : PartIssueLine)
    → IsCovered part d
    → IsCovered part (depot_after d (allocate_one d l))
allocate_one-IsCovered part d l h = elim (allocate_one-Outcome d l) [
  | inl refused ↦ rw refused h
  | inr (inl (b, same)) ↦ rw same h
  | inr (inr (give, b, done, free, gap, some_units)) ↦
      rw done (given-IsCovered part d l give h some_units free)
]

pub allocate_lines-IsCovered :
    (part : ℕ) (d : Depot) (ls : List PartIssueLine)
    → IsCovered part d
    → IsCovered part (allocate_lines d ls)
unfolding allocate_lines
allocate_lines-IsCovered part d [] h = h
allocate_lines-IsCovered part d (l ∷ ls) h =
    allocate_lines-IsCovered part (depot_after d (allocate_one d l)) ls
      (allocate_one-IsCovered part d l h)

-- Reallocating a part, or any other, leaves the active reservations of a part within its stock where
-- they were within it before.
pub reallocate-IsCovered :
    (part changed : ℕ) (d : Depot)
    → IsCovered part d
    → IsCovered part (reallocate_for_part changed d)
unfolding reallocate_for_part
reallocate-IsCovered part changed d h = allocate_lines-IsCovered part d (priority_order changed d) h

-- The tables after `reserve_stock`, where the default site has a stock row of the part.
abbrev pub reserved_in : Depot → ℕ → ℤ → Option ℕ → Option ℕ → Depot
reserved_in d part qty source_wo source_line = record d {
  reservations =
      insert_last (new_reservation d part source_wo qty source_line (reserve_reason source_line) 0)
        d.reservations;
}

reserve_stock-ok :
    (d e : Depot) (part : ℕ) (qty : ℤ) (source_wo source_line : Option ℕ) (site : ℕ)
    (inv : Inventory)
    → d.default_site ≡ some site
    → find_first (is_stock_of part site) d.inventories ≡ some inv
    → reserve_stock d part qty source_wo source_line ≡ ok e
    → (e ≡ reserved_in d part qty source_wo source_line)
      × (qty ≤ℤ inv.quantity_available -ℤ compute_quantity_reserved part d.reservations)
unfolding reserve_stock create_reservation
reserve_stock-ok d e part qty source_wo source_line site inv at_site found done = ground arith

reserved_in-sum :
    (d : Depot) (part : ℕ) (qty : ℤ) (source_wo source_line : Option ℕ)
    → compute_quantity_reserved part (reserved_in d part qty source_wo source_line).reservations
      ≡ compute_quantity_reserved part d.reservations +ℤ qty
reserved_in-sum d part qty source_wo source_line = ground (
  arith,
  reserved-insert_last part
      (new_reservation d part source_wo qty source_line (reserve_reason source_line) 0)
      d.reservations,
)

fits_diff : (a b q : ℤ) → q ≤ℤ a -ℤ b → b +ℤ q ≤ℤ a
fits_diff a b q h = omega int_laws

-- A successful reservation at a default site that has a stock row of the part raises the sum of the
-- part's active reservations by exactly `qty`, and leaves it within the stock of that row.
pub reserve_stock_fits :
    (d e : Depot) (part : ℕ) (qty : ℤ) (source_wo source_line : Option ℕ) (site : ℕ)
    (inv : Inventory)
    → d.default_site ≡ some site
    → find_first (is_stock_of part site) d.inventories ≡ some inv
    → reserve_stock d part qty source_wo source_line ≡ ok e
    → (compute_quantity_reserved part e.reservations
        ≡ compute_quantity_reserved part d.reservations +ℤ qty)
      × (compute_quantity_reserved part e.reservations ≤ℤ inv.quantity_available)
reserve_stock_fits d e part qty source_wo source_line site inv at_site found done =
    let shape = reserve_stock-ok d e part qty source_wo source_line site inv at_site found done in
    let sum = reserved_in-sum d part qty source_wo source_line in
    rw shape.0 (sum, rw sum (fits_diff _ _ qty shape.1))

-- A line that holds an active reservation cannot be topped up: where units are still missing and
-- stock is free, the allocation runs into the constraint of one active reservation for each line.
pub top_up_fails :
    (d : Depot) (l : PartIssueLine)
    → is_open_line l.status ≡ true
    → has_active l.pk d.reservations ≡ true
    → pos 1 ≤ℤ l.approved_qty
    → pos 1 ≤ℤ l.approved_qty -ℤ l.allocated_qty
    → pos 1 ≤ℤ free_stock_for_part l.part d
    → allocate_one d l ≡ err duplicate_active
unfolding allocate_one give_units create_reservation
top_up_fails d l is_open held approved missing free = ground arith
