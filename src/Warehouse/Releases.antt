-- ===== src/Warehouse/Releases.antt =====
-- The reservations that `execute_warehouse_issue` releases.
use spare_part.Base.{none, some, ℕ, ◌≡◌, refl, List, arith, if_branches}
use spare_part.Base.Int.{◌-ℤ◌, parts_of_eq, ℤ, pos, ◌+ℤ◌, ◌≤ℤ◌, leb_ℤ, int_laws}
use spare_part.Stock.Depot.{
  PartIssueLine, InventoryReservation, compute_quantity_reserved, ReleaseReason,
}
use spare_part.Stock.Reservations.{Release, release_rows, add_split, is_legacy}
use spare_part.Stock.Release.{
  Selects, is_legacy-Selects, release_rows-Balances, split_none, release_rows-rest,
}
use spare_part.Warehouse.Issue.{reservation_released, is_linked, release_legacy, release_for_issue}

is_linked-Selects : (part line : ℕ) → Selects part (is_linked part line)
is_linked-Selects part line r h = ground arith

chain : (a b c q m n : ℤ) → a +ℤ m ≡ b +ℤ n → b +ℤ q ≡ c +ℤ m → a +ℤ q ≡ c +ℤ n
chain a b c q m n e f = omega (int_laws, parts_of_eq _ _ e, parts_of_eq _ _ f)

-- The second loop, as the first one leaves the rows.
release_legacy-Balances :
    (l : PartIssueLine) (qty : ℤ) (now : ℕ) (first : Release)
    → pos 0 ≤ℤ first.remaining
    → let done = release_legacy l qty now first in
      (compute_quantity_reserved l.part (add_split done.split done.rows) +ℤ first.remaining
        ≡ compute_quantity_reserved l.part (add_split first.split first.rows) +ℤ done.remaining)
      × (pos 0 ≤ℤ done.remaining)
release_legacy-Balances l qty now first h =
    let rows = add_split first.split first.rows in
    let full = ReleaseReason.legacy_issue qty l.work_order in
    let partial = ReleaseReason.partial_legacy_issue qty l.work_order in
    let test = is_legacy l.part (some l.work_order) in
    if_branches
      (λ done.
        (compute_quantity_reserved l.part (add_split done.split done.rows) +ℤ first.remaining
          ≡ compute_quantity_reserved l.part rows +ℤ done.remaining)
        × (pos 0 ≤ℤ done.remaining))
      (leb_ℤ first.remaining (pos 0))
      (record { remaining = first.remaining; rows = rows; split = none })
      (release_rows test full partial now first.remaining rows) (λ _. (refl, h))
      (λ _. (
        rw
            (split_none l.part test full partial now first.remaining rows
              (release_rows test full partial now first.remaining rows).rows)
            (release_rows-Balances l.part test full partial now first.remaining rows
              (is_legacy-Selects l.part (some l.work_order))),
        release_rows-rest test full partial now first.remaining rows h,
      ))

unreleased : (a b q n : ℤ) → a +ℤ q ≡ b +ℤ n → b ≡ a +ℤ (q -ℤ n)
unreleased a b q n e = omega (int_laws, parts_of_eq _ _ e)

at_most : (q n : ℤ) → pos 0 ≤ℤ n → q -ℤ n ≤ℤ q
at_most q n h = omega int_laws

-- An issue of `qty` units of a line, not less than none, takes off the sum of the part's active reservations
-- exactly the quantity that it reports as released, over the reservations of the line and those of its
-- order without a line, and this is never more than `qty`.
pub release_for_issue_exact :
    (l : PartIssueLine) (qty : ℤ) (now : ℕ) (rows : List InventoryReservation)
    → pos 0 ≤ℤ qty
    → (compute_quantity_reserved l.part rows
        ≡ compute_quantity_reserved l.part (release_for_issue l qty now rows)
          +ℤ reservation_released l qty now rows)
      × (reservation_released l qty now rows ≤ℤ qty)
unfolding release_for_issue reservation_released
release_for_issue_exact l qty now rows h =
    let full = ReleaseReason.warehouse_issue qty l.work_order in
    let partial = ReleaseReason.partial_issue qty l.work_order in
    let test = is_linked l.part l.pk in
    let first = release_rows test full partial now qty rows in
    let second =
      release_legacy-Balances l qty now first
        (release_rows-rest test full partial now qty rows h) in
    (
      unreleased _ _ qty _ (
          chain _ (compute_quantity_reserved l.part (add_split first.split first.rows)) _ qty
            first.remaining _ second.0
            (rw (split_none l.part test full partial now qty rows first.rows) (
              release_rows-Balances l.part test full partial now qty rows
                (is_linked-Selects l.part l.pk)))),
      at_most qty _ second.1,
    )
