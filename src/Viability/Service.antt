-- ===== src/Viability/Service.antt =====
-- maintenance/services_repair_viability.py: the recommendation to repair or to replace a part. A time
-- is a number of microseconds, a repair cost one of hundredths, a part's cost one of ten-thousandths. The
-- ratio is an exact fraction here, without the rounding of Python's decimals.
use spare_part.Base.{
  ◌||◌, ℕ, Bool, true, false, not, ◌&&◌, List, [], ◌∷◌, Option, none, some, ◌==◌, ltb,
  if◌then◌else◌, length, is_none,
}
use spare_part.Base.Int.{ℤ, pos, ◌+ℤ◌, ◌*ℤ◌, ltb_ℤ, leb_ℤ}
use spare_part.Stock.Tables.{SparePart}

-- What is read of an `ExternalRepairOrder`; `part` is the one of its origin request.
pub record RepairOrder : Type 0 where
  pub part : Option ℕ
  pub machine : Option ℕ
  pub component : Option ℕ
  pub actual_cost : Option ℤ
  pub closed_at : Option ℕ

pub data Recommendation : Type 0 where
  repair replace borderline : Recommendation

abbrev pub is_key : ℕ → Option ℕ → Bool
is_key k none = false
is_key k (some j) = j == k

-- A filter that is left out where nothing is asked for.
abbrev pub fits : Option ℕ → Option ℕ → Bool
fits none x = true
fits (some k) x = is_key k x

-- `eros`: the orders of the part that have a cost.
abbrev pub history : ℕ → Option ℕ → Option ℕ → List RepairOrder → List RepairOrder
history part asset component [] = []
history part asset component (o ∷ os) =
    let rest = history part asset component os in
    if not (is_none o.actual_cost)
      && is_key part o.part
      && fits asset o.machine
      && fits component o.component
    then o ∷ rest
    else rest

abbrev pub total_repair_cost : List RepairOrder → ℤ
total_repair_cost [] = pos 0
total_repair_cost (o ∷ os) =
    (elim o.actual_cost [ none ↦ pos 0 | some c ↦ c ]) +ℤ total_repair_cost os

abbrev pub times_of : List RepairOrder → List ℕ
times_of [] = []
times_of (o ∷ os) = elim o.closed_at [ none ↦ times_of os | some t ↦ t ∷ times_of os ]

-- `_compute_asset_mtbf`. `mean` stands for the sort of the closing times, Python's floating-point sum of
-- the gaps between them and its division into whole hours; it is asked only of two times or more.
unfoldable pub compute_asset_mtbf : (List ℕ → ℕ) → Option ℕ → List RepairOrder → Option ℕ
compute_asset_mtbf mean none eros = none
compute_asset_mtbf mean (some asset) eros =
    if ltb (length eros) 2 || ltb (length (times_of eros)) 2
    then none
    else some (mean (times_of eros))

abbrev pub replacement_cost : SparePart → ℤ
replacement_cost p = elim p.last_purchase_cost [
  | some c ↦ c
  | none ↦ elim p.avg_cost [ none ↦ pos 0 | some c ↦ c ]
]

-- `repair_ratio`, a percentage: a numerator and a positive denominator.
abbrev pub repair_ratio : ℤ → ℕ → ℤ → ℤ × ℤ
repair_ratio total count replacement =
    if leb_ℤ replacement (pos 0)
    then (pos 0, pos 1)
    else (total *ℤ pos 10000, pos count *ℤ replacement)

abbrev pub below : ℤ × ℤ → ℕ → Bool
below (a, b) t = ltb_ℤ a (pos t *ℤ b)

abbrev pub above : ℤ × ℤ → ℕ → Bool
above (a, b) t = ltb_ℤ (pos t *ℤ b) a

-- `mtbf is None or mtbf < h`
abbrev pub fails_within : ℕ → Option ℕ → Bool
fails_within h none = true
fails_within h (some m) = ltb m h

-- The ladder of the decision rules.
unfoldable pub decide : ℤ × ℤ → ℕ → Option ℕ → Recommendation
decide ratio count mtbf =
    if below ratio 30
    then repair
    else if above ratio 70 && fails_within 100 mtbf
    then replace
    else if above ratio 50 && ltb 3 count && fails_within 200 mtbf
    then replace
    else if not (below ratio 50) && not (above ratio 70)
    then borderline
    else repair

-- `RepairViabilityService.compute`: its recommendation.
unfoldable pub recommend :
    (List ℕ → ℕ) → SparePart → Option ℕ → Option ℕ → List RepairOrder → Recommendation
unfolding decide compute_asset_mtbf
recommend mean part asset component orders =
    let eros = history part.pk asset component orders in
    let n = length eros in
    if n == 0
    then repair
    else decide (repair_ratio (total_repair_cost eros) n (replacement_cost part)) n
        (compute_asset_mtbf mean asset eros)
