-- ===== src/Stock/Release.antt =====
-- Releasing legacy reservations gives back exactly what was asked.
use spare_part.Base.Rows.{next_pk}
use spare_part.Base.Result.{ok}
use spare_part.Base.{
  not, if_branches, arith, Option, ℕ, Bool, ◌≡◌, refl, List, [], ◌∷◌, ◌==◌, ◌&&◌, true,
}
use spare_part.Base.Int.{
  parts_of_eq, +ℤ_assoc, +ℤ_zero, -ℤ_parts, -ℤ_parts, leb_ℤ, min_ℤ, ℤ, pos, ◌+ℤ◌, ◌-ℤ◌, int_laws,
  ◌≤ℤ◌,
}
use spare_part.Stock.Depot.{
  partial_release, ReleaseReason, legacy_release, Depot, InventoryReservation, is_active,
  compute_quantity_reserved,
}
use spare_part.Stock.Reservations.{
  split_row, release_reservation, add_split, released_row, Release, release_rows, is_legacy,
}
use spare_part.Stock.Sums.{claimed, reserved-insert_last}

-- A test that only active reservations of the part pass.
abbrev pub Selects : ℕ → (InventoryReservation → Bool) → Type 0
Selects part test =
    (r : InventoryReservation) → test r ≡ true → (r.part == part && is_active r.status) ≡ true

pub is_legacy-Selects : (part : ℕ) (wo : Option ℕ) → Selects part (is_legacy part wo)
is_legacy-Selects part wo r h = ground arith

-- What the loop keeps reserved and what it has released add up.
abbrev pub Balances : ℕ → ℤ → List InventoryReservation → Release → Type 0
Balances part q rs done =
    compute_quantity_reserved part done.rows +ℤ q
    ≡ compute_quantity_reserved part rs +ℤ done.remaining

move_sum : (a b c q m : ℤ) → b +ℤ q ≡ c +ℤ m → (a +ℤ b) +ℤ q ≡ (a +ℤ c) +ℤ m
move_sum a b c q m h = rw (+ℤ_assoc a b q, h, +ℤ_assoc a c m)

all_taken :
    (x b c q m t : ℤ) → x ≤ℤ t → t ≤ℤ x → b +ℤ (q -ℤ t) ≡ c +ℤ m → (pos 0 +ℤ b) +ℤ q ≡ (x +ℤ c) +ℤ m
all_taken x b c q m t h k e = omega (int_laws, parts_of_eq _ _ e)

some_taken : (x b q t : ℤ) → (x -ℤ t +ℤ b) +ℤ q ≡ (x +ℤ b) +ℤ (q -ℤ t)
some_taken x b q t = omega int_laws

released_none :
    (part : ℕ) (r : InventoryReservation) (full : ReleaseReason) (now : ℕ)
    → claimed part (released_row r full now) ≡ pos 0
released_none part r full now = ground arith

pub release_rows-Balances :
    (part : ℕ) (test : InventoryReservation → Bool) (full partial : ReleaseReason) (now : ℕ) (q : ℤ)
    (rs : List InventoryReservation)
    → Selects part test
    → Balances part q rs (release_rows test full partial now q rs)
unfolding release_rows
release_rows-Balances part test full partial now q [] sel = refl
release_rows-Balances part test full partial now q (r ∷ rs) sel =
    let t = min_ℤ r.quantity q in
    let rest = release_rows-Balances part test full partial now (q -ℤ t) rs sel in
    if_branches (Balances part q (r ∷ rs)) (not (test r)) _ _
      (λ _.
        move_sum (claimed part r) _ _ q _
          (release_rows-Balances part test full partial now q rs sel))
      (λ chosen.
        if_branches (Balances part q (r ∷ rs)) (leb_ℤ q (pos 0)) _ _ (λ _. refl)
          (λ _.
            if_branches (Balances part q (r ∷ rs)) (leb_ℤ r.quantity t) _ _
              (λ all.
                rw (sel r (ground (arith, chosen)), released_none part r full now)
                  (all_taken r.quantity _ _ q _ t (ground (arith, all)) (ground arith) rest))
              (λ some_left. rw (sel r (ground (arith, chosen))) (some_taken r.quantity _ q t))))

split_row_none :
    (part : ℕ) (r : InventoryReservation) (t : ℤ) (partial : ReleaseReason) (now k : ℕ)
    → claimed part (record (split_row r t partial now) { pk = k }) ≡ pos 0
split_row_none part r t partial now k = ground arith

pub split_none :
    (part : ℕ) (test : InventoryReservation → Bool) (full partial : ReleaseReason) (now : ℕ) (q : ℤ)
    (rs rows : List InventoryReservation)
    → compute_quantity_reserved part
        (add_split (release_rows test full partial now q rs).split rows)
      ≡ compute_quantity_reserved part rows
unfolding release_rows
split_none part test full partial now q [] rows = refl
split_none part test full partial now q (r ∷ rs) rows =
    let P : Release → Type 0 = λ done.
      compute_quantity_reserved part (add_split done.split rows)
      ≡ compute_quantity_reserved part rows in
    let t = min_ℤ r.quantity q in
    if_branches P (not (test r)) _ _ (λ _. split_none part test full partial now q rs rows)
      (λ _.
        if_branches P (leb_ℤ q (pos 0)) _ _ (λ _. refl)
          (λ _.
            if_branches P (leb_ℤ r.quantity t) _ _
              (λ _. split_none part test full partial now (q -ℤ t) rs rows)
              (λ _. rw (
                reserved-insert_last part (record (split_row r t partial now) { pk = next_pk rows })
                    rows,
                split_row_none part r t partial now (next_pk rows),
                +ℤ_zero,
              ))))

left_over : (a q : ℤ) → pos 0 ≤ℤ q -ℤ min_ℤ a q
left_over a q = ground (arith, -ℤ_parts q (min_ℤ a q))

-- Nothing is released twice: what remains is never below nothing.
pub release_rows-rest :
    (test : InventoryReservation → Bool) (full partial : ReleaseReason) (now : ℕ) (q : ℤ)
    (rs : List InventoryReservation)
    → pos 0 ≤ℤ q
    → pos 0 ≤ℤ (release_rows test full partial now q rs).remaining
unfolding release_rows
release_rows-rest test full partial now q [] h = h
release_rows-rest test full partial now q (r ∷ rs) h =
    let P : Release → Type 0 = λ done. pos 0 ≤ℤ done.remaining in
    let t = min_ℤ r.quantity q in
    let left : pos 0 ≤ℤ q -ℤ t = left_over r.quantity q in
    if_branches P (not (test r)) _ _ (λ _. release_rows-rest test full partial now q rs h)
      (λ _.
        if_branches P (leb_ℤ q (pos 0)) _ _ (λ _. h)
          (λ _.
            if_branches P (leb_ℤ r.quantity t) _ _
              (λ _. release_rows-rest test full partial now (q -ℤ t) rs left) (λ _. left)))

nothing : (a : ℤ) → pos 0 ≤ℤ a → a ≤ℤ pos 0 → a ≡ pos 0
nothing a h k = omega int_laws

weaken : (a : ℤ) → pos 1 ≤ℤ a → pos 0 ≤ℤ a
weaken a h = omega arith

release_reservation-ok :
    (d e : Depot) (part : ℕ) (qty : ℤ) (source_wo : Option ℕ) (actor now : ℕ)
    → release_reservation d part qty source_wo actor now ≡ ok e
    → let r =
        release_rows
          (is_legacy part source_wo)
          (legacy_release actor)
          (partial_release actor)
          now
          qty
          d.reservations in
      (e ≡ record d { reservations = add_split r.split r.rows })
      × (r.remaining ≤ℤ pos 0)
      × (pos 1 ≤ℤ qty)
unfolding release_reservation
release_reservation-ok d e part qty source_wo actor now done = ground arith

-- A successful release takes exactly `qty` off the sum of the part's active reservations.
pub release_reservation_exact :
    (d e : Depot) (part : ℕ) (qty : ℤ) (source_wo : Option ℕ) (actor now : ℕ)
    → release_reservation d part qty source_wo actor now ≡ ok e
    → compute_quantity_reserved part e.reservations +ℤ qty
      ≡ compute_quantity_reserved part d.reservations
release_reservation_exact d e part qty source_wo actor now done =
    let test = is_legacy part source_wo in
    let full = legacy_release actor in
    let partial = partial_release actor in
    let out = release_reservation-ok d e part qty source_wo actor now done in
    let rs = d.reservations in
    let r = release_rows test full partial now qty rs in
    let none_left : r.remaining ≡ pos 0 =
      nothing r.remaining (release_rows-rest test full partial now qty rs (weaken qty out.2))
        out.1 in
    rw (
      out.0,
      split_none part test full partial now qty rs r.rows,
      release_rows-Balances part test full partial now qty rs (is_legacy-Selects part source_wo),
      none_left,
      +ℤ_zero,
    )
