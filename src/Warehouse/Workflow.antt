-- ===== src/Warehouse/Workflow.antt =====
-- The workflow of a part line: the states that may follow a state, written down independently of the services.
use native.Mathlib.Decide.{ℕ_discrete}
use spare_part.Base.{
  ℕ, ◌≡◌, refl, Bool, true, false, List, Option, none, some, arith, insert_last, ℕ, Option-cases,
  inl, inr,
}
use spare_part.Base.Int.{◌-ℤ◌, min_ℤ, ℤ}
use spare_part.Base.Rows.{get, save, get-save_self, get-save_ne, get-insert_last_old}
use spare_part.Base.Result.{ok}
use spare_part.Blockers.Tables.{LineStatus}
use spare_part.Stock.Depot.{free_stock_for_part, Depot, PartIssueLine, line_row}
use spare_part.Stock.Reservations.{
  grant, is_open_line, allocate_one, give_units, create_reservation,
}

-- A request goes from pending over approved and allocated to issued or rejected, which are final; any of the
-- steps may be skipped.
abbrev pub can_follow : LineStatus → LineStatus → Bool
can_follow LineStatus.pending t = true
can_follow LineStatus.approved LineStatus.pending = false
can_follow LineStatus.approved t = true
can_follow LineStatus.allocated LineStatus.allocated = true
can_follow LineStatus.allocated LineStatus.issued = true
can_follow LineStatus.allocated LineStatus.rejected = true
can_follow LineStatus.allocated t = false
can_follow LineStatus.issued LineStatus.issued = true
can_follow LineStatus.issued t = false
can_follow LineStatus.rejected LineStatus.rejected = true
can_follow LineStatus.rejected t = false

-- The same of a line that may not be there: a line may come in any state, and none goes away.
abbrev pub follows : Option LineStatus → Option LineStatus → Bool
follows none t = true
follows (some s) none = false
follows (some s) (some t) = can_follow s t

pub follows_refl : (s : Option LineStatus) → follows s s ≡ true
follows_refl none = refl
follows_refl (some s) = ground arith

can_follow_trans :
    (s t u : LineStatus) → can_follow s t ≡ true → can_follow t u ≡ true → can_follow s u ≡ true
can_follow_trans s t u h k = ground arith

pub follows_trans :
    (s t u : Option LineStatus) → follows s t ≡ true → follows t u ≡ true → follows s u ≡ true
follows_trans none t u h k = refl
follows_trans (some s) none u h k = ground arith
follows_trans (some s) (some t) none h k = ground arith
follows_trans (some s) (some t) (some u) h k = can_follow_trans s t u h k

abbrev pub status_in : ℕ → List PartIssueLine → Option LineStatus
status_in k lines = elim (get k lines) [ none ↦ none | some l ↦ some l.status ]

-- Two writes to the table of lines.
pub follows-save :
    (k : ℕ) (a b : PartIssueLine) (lines : List PartIssueLine)
    → get a.pk lines ≡ some b
    → can_follow b.status a.status ≡ true
    → follows (status_in k lines) (status_in k (save a lines)) ≡ true
follows-save k a b lines found h = elim (ℕ_discrete k a.pk) [
  | yes same ↦ ground (arith, same, get-save_self a b lines found)
  | no other ↦ ground (arith, get-save_ne k a lines other, follows_refl (status_in k lines))
]

pub follows-insert_last :
    (k : ℕ) (a : PartIssueLine) (lines : List PartIssueLine)
    → follows (status_in k lines) (status_in k (insert_last a lines)) ≡ true
follows-insert_last k a lines = elim (Option-cases (get k lines)) [
  | inl missing ↦ rw (missing, status_in) refl
  | inr (b, found) ↦
      rw (found, get-insert_last_old k a b lines found, status_in) (follows_refl (some b.status))
]

granted-can_follow :
    (l : PartIssueLine) (give : ℤ)
    → is_open_line l.status ≡ true
    → can_follow l.status (grant l give).status ≡ true
granted-can_follow l give h = ground arith

-- The allocation of a line of the table.
pub follows-allocate_one :
    (k : ℕ) (d : Depot) (l : PartIssueLine) (r : Depot × Bool)
    → get l.pk d.lines ≡ some l
    → allocate_one d l ≡ ok r
    → follows (status_in k d.lines) (status_in k r.0.lines) ≡ true
unfolding allocate_one give_units create_reservation
follows-allocate_one k d l r found e =
    let g = min_ℤ (l.approved_qty -ℤ l.allocated_qty) (free_stock_for_part l.part d) in
    ground (
      arith,
      granted-can_follow l g,
      follows-save k (grant l g) l d.lines found,
      follows_refl (status_in k d.lines),
    )
