-- ===== src/Stock/Reservations.antt =====
-- inventory/services.py (`reserve_stock`, `release_reservation`) and
-- inventory/services_allocation.py. Each call runs in a transaction. The events that an allocation
-- records on a blocker are not part of these tables.
use spare_part.Base.{
  ℕ, Bool, true, false, not, ◌&&◌, ◌||◌, List, [], ◌∷◌, ◌++◌, Option, none, some, ◌==◌,
  if◌then◌else◌, find_first, insert_last, is_none,
}
use spare_part.Base.Int.{ℤ, pos, ◌+ℤ◌, ◌-ℤ◌, leb_ℤ, ltb_ℤ, min_ℤ}
use spare_part.Base.Rows.{save, next_pk}
use spare_part.Base.Result.{Result, ok, err, ◌>>=◌, ◌>>◌, raise_if, or_raise}
use spare_part.Stock.Tables.{Inventory, inventory_row}
use spare_part.Blockers.Tables.{LineStatus}
use spare_part.Stock.Depot.{
  PartIssueLine, ReservationStatus, is_active, ReleaseReason, no_reason, legacy_call, for_line,
  legacy_release, partial_release, InventoryReservation, Depot, compute_quantity_reserved,
  free_stock_for_part, line_row, reservation_row,
}

-- The exceptions; `duplicate_active` is the database's, of the constraint
-- `uniq_active_reservation_per_line`, and `no_inventory` is Django's `DoesNotExist`.
pub data StockError : Type 0 where
  not_positive no_site no_inventory cannot_reserve cannot_release duplicate_active : StockError

abbrev pub same_line : ℕ → Option ℕ → Bool
same_line k none = false
same_line k (some j) = j == k

abbrev pub has_active : ℕ → List InventoryReservation → Bool
has_active k [] = false
has_active k (r ∷ rs) = (is_active r.status && same_line k r.source_line) || has_active k rs

-- Does the constraint refuse one more active reservation of this line?
abbrev pub is_taken : Option ℕ → List InventoryReservation → Bool
is_taken none rs = false
is_taken (some k) rs = has_active k rs

-- `InventoryReservation.objects.create(...)` of an active row, under the constraint.
unfoldable pub create_reservation : Depot → InventoryReservation → Result StockError Depot
create_reservation d r = do
  raise_if (is_taken r.source_line d.reservations) duplicate_active
  ok (record d { reservations = insert_last r d.reservations })

abbrev pub new_reservation :
    Depot → ℕ → Option ℕ → ℤ → Option ℕ → ReleaseReason → ℕ → InventoryReservation
new_reservation d part work_order quantity source_line reason priority = record {
  pk = next_pk d.reservations;
  part = part;
  work_order = work_order;
  quantity = quantity;
  status = ReservationStatus.active;
  source_line = source_line;
  released_at = none;
  release_reason = reason;
  priority_at_creation = priority;
}

abbrev pub is_stock_of : ℕ → ℕ → Inventory → Bool
is_stock_of part site i = i.part == part && i.site == site

-- The row of the default site, created empty if it is missing.
abbrev pub get_or_create : ℕ → ℕ → Depot → Depot × Inventory
get_or_create part site d = elim (find_first (is_stock_of part site) d.inventories) [
  | some inv ↦ (d, inv)
  | none ↦
      let inv : Inventory = record {
        pk = next_pk d.inventories;
        part = part;
        site = site;
        quantity_available = pos 0;
        quantity_quarantine = pos 0;
      } in
      (record d { inventories = insert_last inv d.inventories }, inv)
]

abbrev pub reserve_reason : Option ℕ → ReleaseReason
reserve_reason none = legacy_call
reserve_reason (some k) = for_line k

-- `reserve_stock`
unfoldable pub reserve_stock : Depot → ℕ → ℤ → Option ℕ → Option ℕ → Result StockError Depot
unfolding create_reservation
reserve_stock d part qty source_wo source_line = do
  raise_if (leb_ℤ qty (pos 0)) not_positive
  site ← or_raise d.default_site no_site
  let (e, inv) = get_or_create part site d
  let unreserved = inv.quantity_available -ℤ compute_quantity_reserved part e.reservations
  raise_if (ltb_ℤ unreserved qty) cannot_reserve
  create_reservation e
      (new_reservation e part source_wo qty source_line (reserve_reason source_line) 0)

-- An active reservation of the pair that no line made.
abbrev pub same_wo : Option ℕ → Option ℕ → Bool
same_wo none none = true
same_wo (some a) (some b) = a == b
same_wo _ _ = false

abbrev pub is_legacy : ℕ → Option ℕ → InventoryReservation → Bool
is_legacy part source_wo r =
    r.part == part && same_wo r.work_order source_wo && is_none r.source_line && is_active r.status

-- What the loop of `release_reservation` leaves: what remains to be released, the rows, and the row
-- that it creates when it releases a part of a reservation.
pub record Release : Type 0 where
  pub remaining : ℤ
  pub rows : List InventoryReservation
  pub split : Option InventoryReservation

abbrev pub released_row : InventoryReservation → ReleaseReason → ℕ → InventoryReservation
released_row r reason now = record r {
  status = ReservationStatus.released;
  released_at = some now;
  release_reason = reason;
}

-- The sibling that was released of a row that stays active; it has the line of that row, which a legacy
-- row does not have.
abbrev pub split_row : InventoryReservation → ℤ → ReleaseReason → ℕ → InventoryReservation
split_row r take reason now = record r {
  quantity = take;
  status = ReservationStatus.released;
  released_at = some now;
  release_reason = reason;
}

-- The loop over the reservations that pass a test, on the rows of the table in its order, with the
-- reasons of a full and of a partial release. Where nothing remains, `break`.
unfoldable pub release_rows :
    (InventoryReservation → Bool)
    → ReleaseReason
    → ReleaseReason
    → ℕ
    → ℤ
    → List InventoryReservation
    → Release
release_rows test full partial now remaining [] = record {
  remaining = remaining;
  rows = [];
  split = none;
}
release_rows test full partial now remaining (r ∷ rs) =
    let take = min_ℤ r.quantity remaining in
    let skip = release_rows test full partial now remaining rs in
    let rest = release_rows test full partial now (remaining -ℤ take) rs in
    if not (test r)
    then record skip { rows = r ∷ skip.rows }
    else if leb_ℤ remaining (pos 0)
    then record { remaining = remaining; rows = r ∷ rs; split = none }
    else if leb_ℤ r.quantity take
    then record rest { rows = released_row r full now ∷ rest.rows }
    else record {
      remaining = remaining -ℤ take;
      rows = record r { quantity = r.quantity -ℤ take } ∷ rs;
      split = some (split_row r take partial now);
    }

-- The created row comes last, under a new key.
abbrev pub add_split :
    Option InventoryReservation → List InventoryReservation → List InventoryReservation
add_split none rows = rows
add_split (some r) rows = insert_last (record r { pk = next_pk rows }) rows

-- `release_reservation`
unfoldable pub release_reservation : Depot → ℕ → ℤ → Option ℕ → ℕ → ℕ → Result StockError Depot
release_reservation d part qty source_wo actor now = do
  raise_if (leb_ℤ qty (pos 0)) not_positive
  site ← or_raise d.default_site no_site
  inv ← or_raise (find_first (is_stock_of part site) d.inventories) no_inventory
  let r =
      release_rows (is_legacy part source_wo) (legacy_release actor) (partial_release actor) now qty
        d.reservations
  raise_if (ltb_ℤ (pos 0) r.remaining) cannot_release
  ok (record d { reservations = add_split r.split r.rows })

-- `line.status in ("pending", "approved", "allocated")`
abbrev pub is_open_line : LineStatus → Bool
is_open_line LineStatus.pending = true
is_open_line LineStatus.approved = true
is_open_line LineStatus.allocated = true
is_open_line _ = false

-- The line after it was given `give` more units.
abbrev pub granted_status : LineStatus → LineStatus
granted_status LineStatus.pending = LineStatus.approved
granted_status s = s

abbrev pub grant : PartIssueLine → ℤ → PartIssueLine
grant l give = record l {
  allocated_qty = l.allocated_qty +ℤ give;
  status =
      if leb_ℤ l.approved_qty (l.allocated_qty +ℤ give)
      then LineStatus.allocated
      else granted_status l.status;
}

-- `_wo_priority_rank`
abbrev pub wo_priority_rank : Depot → ℕ → ℕ
wo_priority_rank d wo = if d.is_emergency wo then 0 else 5

-- The writes of an allocation that grants `give` units.
unfoldable pub give_units : Depot → PartIssueLine → ℤ → Result StockError (Depot × Bool)
unfolding create_reservation
give_units d l give = do
  e ←
      create_reservation (record d { lines = save (grant l give) d.lines })
        (new_reservation d l.part (some l.work_order) give (some l.pk) no_reason
          (wo_priority_rank d l.work_order))
  ok (e, leb_ℤ l.approved_qty (l.allocated_qty +ℤ give))

-- `PartAllocationService.allocate_one`
unfoldable pub allocate_one : Depot → PartIssueLine → Result StockError (Depot × Bool)
allocate_one d l =
    let gap = l.approved_qty -ℤ l.allocated_qty in
    let free = free_stock_for_part l.part d in
    if not (is_open_line l.status)
    then ok (d, false)
    else if leb_ℤ l.approved_qty (pos 0)
    then ok (d, false)
    else if leb_ℤ gap (pos 0)
    then ok (d, leb_ℤ l.approved_qty l.allocated_qty)
    else if leb_ℤ free (pos 0)
    then ok (d, false)
    else give_units d l (min_ℤ gap free)

-- The open lines of a part, those of emergency orders first, each group in the order of creation.
abbrev pub open_lines : (PartIssueLine → Bool) → ℕ → List PartIssueLine → List PartIssueLine
open_lines test part [] = []
open_lines test part (l ∷ ls) =
    let rest = open_lines test part ls in
    if l.part == part && is_open_line l.status && test l then l ∷ rest else rest

abbrev pub priority_order : ℕ → Depot → List PartIssueLine
priority_order part d =
    open_lines (λ l. d.is_emergency l.work_order) part d.lines
    ++ open_lines (λ l. not (d.is_emergency l.work_order)) part d.lines

-- An allocation that raises is passed over.
abbrev pub depot_after {ℓ} : {A : Type ℓ} → Depot → Result StockError (Depot × A) → Depot
depot_after d (ok r) = r.0
depot_after d (err e) = d

unfoldable pub allocate_lines : Depot → List PartIssueLine → Depot
allocate_lines d [] = d
allocate_lines d (l ∷ ls) = allocate_lines (depot_after d (allocate_one d l)) ls

-- `PartAllocationService.reallocate_for_part`, without its list of results.
unfoldable pub reallocate_for_part : ℕ → Depot → Depot
unfolding allocate_lines
reallocate_for_part part d = allocate_lines d (priority_order part d)
