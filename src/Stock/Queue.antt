-- ===== src/Stock/Queue.antt =====
-- inventory/services_allocation.py (`queue_position`): where a line stands among the open lines of
-- its part.
use spare_part.Base.{
  inr, inl, Bool-cases, some, ◌||◌, ℕ, suc, ◌+◌, ◌≤◌, Bool, ◌≡◌, refl, List, [], ◌∷◌, ◌++◌,
  if◌then◌else◌, ◌==◌, ◌&&◌, true, false, length, count_if, not, arith,
}
use spare_part.Base.Rows.{get}
use spare_part.Stock.Depot.{Depot, PartIssueLine, line_row}
use spare_part.Stock.Reservations.{is_open_line, open_lines, priority_order}

-- `next((i for i, l in enumerate(rows, start=i) if l.pk == k), 0)`
unfoldable pub place : ℕ → ℕ → List PartIssueLine → ℕ
place i k [] = 0
place i k (l ∷ ls) = if l.pk == k then i else place (suc i) k ls

-- `PartAllocationService.queue_position`
unfoldable pub queue_position : Depot → PartIssueLine → ℕ × ℕ
unfolding place
queue_position d l =
    if not (is_open_line l.status)
    then (0, 0)
    else (place 1 l.pk (priority_order l.part d), length (priority_order l.part d))

-- Does a row with this key stand in the list?
abbrev pub stands : ℕ → List PartIssueLine → Bool
stands k [] = false
stands k (l ∷ ls) = l.pk == k || stands k ls

place-bounds :
    (i k : ℕ) (ls : List PartIssueLine)
    → stands k ls ≡ true
    → (i ≤ place i k ls) × (place i k ls + 1 ≤ i + length ls)
unfolding place
place-bounds i k [] h = ground arith
place-bounds i k (l ∷ ls) h = ground (arith, place-bounds (suc i) k ls)

stands-append :
    (k : ℕ) (xs ys : List PartIssueLine) → stands k (xs ++ ys) ≡ (stands k xs || stands k ys)
stands-append k [] ys = refl
stands-append k (x ∷ xs) ys = ground (arith, stands-append k xs ys)

stands-open_lines :
    (test : PartIssueLine → Bool) (l : PartIssueLine) (ls : List PartIssueLine)
    → get l.pk ls ≡ some l
    → is_open_line l.status ≡ true
    → test l ≡ true
    → stands l.pk (open_lines test l.part ls) ≡ true
stands-open_lines test l [] found is_open ok = ground arith
stands-open_lines test l (x ∷ xs) found is_open ok = ground (arith, stands-open_lines test l xs)

open_lines-count :
    (test : PartIssueLine → Bool) (part : ℕ) (ls : List PartIssueLine)
    → length (open_lines test part ls) + length (open_lines (λ l. not (test l)) part ls)
      ≡ count_if (λ l. l.part == part && is_open_line l.status) ls
open_lines-count test part [] = refl
open_lines-count test part (l ∷ ls) = ground (arith, open_lines-count test part ls)

length-append : (xs ys : List PartIssueLine) → length (xs ++ ys) ≡ length xs + length ys
length-append [] ys = omega arith
length-append (x ∷ xs) ys = omega (arith, length-append xs ys)

stands-priority_order :
    (d : Depot) (l : PartIssueLine)
    → get l.pk d.lines ≡ some l
    → is_open_line l.status ≡ true
    → stands l.pk (priority_order l.part d) ≡ true
stands-priority_order d l found is_open =
    let urgent = open_lines (λ x. d.is_emergency x.work_order) l.part d.lines in
    let other = open_lines (λ x. not (d.is_emergency x.work_order)) l.part d.lines in
    elim (Bool-cases (d.is_emergency l.work_order)) [
      | inl yes_it_is ↦ rw (
        stands-append l.pk urgent other,
        stands-open_lines (λ x. d.is_emergency x.work_order) l d.lines found is_open yes_it_is,
      )
      | inr no_it_is_not ↦ ground (
        arith,
        stands-append l.pk urgent other,
        stands-open_lines (λ x. not (d.is_emergency x.work_order)) l d.lines found is_open
            (rw no_it_is_not),
      )
    ]

-- An open line of the table stands in its queue: its position is at least 1 and at most the total,
-- which is the number of the open lines of its part.
pub queue_position_bounds :
    (d : Depot) (l : PartIssueLine)
    → get l.pk d.lines ≡ some l
    → is_open_line l.status ≡ true
    → (1 ≤ (queue_position d l).0)
      × ((queue_position d l).0 ≤ (queue_position d l).1)
      × ((queue_position d l).1 ≡ count_if (λ x. x.part == l.part && is_open_line x.status) d.lines)
unfolding queue_position
queue_position_bounds d l found is_open =
    let queue = priority_order l.part d in
    let urgent : PartIssueLine → Bool = λ x. d.is_emergency x.work_order in
    ground (
      arith,
      place-bounds 1 l.pk queue (stands-priority_order d l found is_open),
      length-append (open_lines urgent l.part d.lines)
          (open_lines (λ x. not (urgent x)) l.part d.lines),
      open_lines-count urgent l.part d.lines,
    )
