-- ===== src/Blockers/Lifecycle.antt =====
-- The life of a blocker: opened once for an entity, settled once, and never opened again.
use spare_part.Blockers.Status.{recompute_operational_status, BlockerError}
use spare_part.Base.{
  Bool-cases, ◌∙◌, ℕ, ◌≤◌, ◌≡◌, ◌≢◌, refl, sym, Bool, true, ◌&&◌, List, [], ◌∷◌, none, some, inl,
  inr, arith, ◌==◌, Option-cases, count_if, count_if-insert_last, find_first, find_first-none_zero,
  insert_last,
}
use native.Mathlib.Decide.{ℕ_discrete}
use spare_part.Base.Rows.{get, save, get-save_ne, get-insert_last_old, count_if-save}
use spare_part.Base.Result.{Result, ok, err, ◌>>=◌}
use spare_part.Blockers.Tables.{
  created, OperationalStatus, EventType, reference, EventPayload, BlockerStatus, Reference,
  WorkOrderBlocker, Kind, External, Board, blocker_row,
}
use spare_part.Blockers.Service.{
  cut_label, new_blocker, create_blocker, record_event, waits_on, Opening, open_blocker,
  start_blocker,
}
use spare_part.Blockers.Steps.{BlockerCall, step, run}
use spare_part.Blockers.Cases.{paired, tagged, IsFresh, IsSettled}
use spare_part.Blockers.Rows.{recompute-blockers, step_rows}

-- A settled blocker keeps its row, whole, through any call.
step-settled :
    (k : ℕ) (r : WorkOrderBlocker) (b : Board) (c : BlockerCall)
    → r.status ≢ BlockerStatus.opened
    → get k b.blockers ≡ some r
    → get k (step b c).blockers ≡ some r
step-settled k r b c ne found =
    step_rows (λ rows. get k rows ≡ some r) b found
      (λ row fresh. get-insert_last_old k row r b.blockers found)
      (λ old row s. elim (ℕ_discrete k row.pk) [
        | yes same ↦ absurd (ne (ground (arith, s.found, s.was_open)))
        | no other ↦ get-save_ne k row b.blockers other ∙ found
      ])
      c

-- Once resolved or cancelled, a blocker is never opened again nor changed in any other way, whatever
-- calls of the blocker services follow.
pub run-settled :
    (k : ℕ) (r : WorkOrderBlocker) (b : Board) (cs : List BlockerCall)
    → r.status ≢ BlockerStatus.opened
    → get k b.blockers ≡ some r
    → get k (run b cs).blockers ≡ some r
unfolding run
run-settled k r b [] ne found = found
run-settled k r b (c ∷ cs) ne found =
    run-settled k r (step b c) cs ne (step-settled k r b c ne found)

-- How many open blockers of a work order wait for one entity.
abbrev pub waiting_count : ℕ → Reference → Board → ℕ
waiting_count wo ref b = count_if (waits_on wo ref) b.blockers

fresh_count_other :
    (wo c k : ℕ) (rows : List WorkOrderBlocker) (row : WorkOrderBlocker)
    → row.external_ref ≡ none
    → count_if (waits_on wo (c, k)) rows ≤ 1
    → count_if (waits_on wo (c, k)) (insert_last row rows) ≤ 1
fresh_count_other wo c k rows row e h =
    ground (arith, count_if-insert_last (waits_on wo (c, k)) row rows)

fresh_count_same :
    (wo c k d j : ℕ) (rows : List WorkOrderBlocker) (row : WorkOrderBlocker)
    → row.external_ref ≡ some (d, j)
    → count_if (waits_on row.work_order (d, j)) rows ≡ 0
    → count_if (waits_on wo (c, k)) rows ≤ 1
    → count_if (waits_on wo (c, k)) (insert_last row rows) ≤ 1
fresh_count_same wo c k d j rows row e zero h =
    elim (Bool-cases (row.work_order == wo && d == c && j == k)) [
      | inl same ↦ ground (arith, count_if-insert_last (waits_on wo (c, k)) row rows)
      | inr other ↦ ground (arith, count_if-insert_last (waits_on wo (c, k)) row rows)
    ]

fresh_count :
    (wo : ℕ) (ref : Reference) (b : Board) (row : WorkOrderBlocker)
    → IsFresh b row
    → waiting_count wo ref b ≤ 1
    → count_if (waits_on wo ref) (insert_last row b.blockers) ≤ 1
fresh_count wo (c, k) b row fresh h = elim fresh.alone [
  | inl e ↦ fresh_count_other wo c k b.blockers row e h
  | inr ((d, j), e, free) ↦
      fresh_count_same wo c k d j b.blockers row e
        (find_first-none_zero (waits_on row.work_order (d, j)) b.blockers free) h
]

settled_count :
    (wo : ℕ) (ref : Reference) (b : Board) (old row : WorkOrderBlocker)
    → IsSettled b old row
    → waiting_count wo ref b ≤ 1
    → count_if (waits_on wo ref) (save row b.blockers) ≤ 1
settled_count wo ref b old row s h =
    ground (arith, count_if-save (waits_on wo ref) row old b.blockers s.found, s.is_closed)

step-waiting_count :
    (wo : ℕ) (ref : Reference) (b : Board) (c : BlockerCall)
    → waiting_count wo ref b ≤ 1
    → waiting_count wo ref (step b c) ≤ 1
step-waiting_count wo ref b c h =
    step_rows (λ rows. count_if (waits_on wo ref) rows ≤ 1) b h
      (λ row fresh. fresh_count wo ref b row fresh h)
      (λ old row s. settled_count wo ref b old row s h) c

-- The database's constraint `uniq_open_blocker_per_wo_ref` is never violated: after any calls, a work
-- order has at most one open blocker for each entity, if it had before.
pub run-waiting_count :
    (wo : ℕ) (ref : Reference) (b : Board) (cs : List BlockerCall)
    → waiting_count wo ref b ≤ 1
    → waiting_count wo ref (run b cs) ≤ 1
unfolding run
run-waiting_count wo ref b [] h = h
run-waiting_count wo ref b (c ∷ cs) h =
    run-waiting_count wo ref (step b c) cs (step-waiting_count wo ref b c h)

-- Opening a blocker for an entity that already has one of the work order gives that one and changes
-- nothing.
open_blocker_held :
    (b : Board) (wo : ℕ) (kind : Kind) (x : External) (o : Opening) (r : WorkOrderBlocker)
    → find_first (waits_on wo (reference x)) b.blockers ≡ some r
    → open_blocker b wo kind (some x) o ≡ ok (b, some r)
unfolding open_blocker
open_blocker_held b wo kind x o r e = rw (e, open_blocker)

find_first-insert_last :
    (p : WorkOrderBlocker → Bool) (r : WorkOrderBlocker) (rows : List WorkOrderBlocker)
    → find_first p rows ≡ none
    → p r ≡ true
    → find_first p (insert_last r rows) ≡ some r
find_first-insert_last p r [] e h = ground arith
find_first-insert_last p r (x ∷ rows) e h = ground (arith, find_first-insert_last p r rows)

start_blocker-rows :
    (b : Board) (row : WorkOrderBlocker) (payload : EventPayload) {q : Board} {r : WorkOrderBlocker}
    → start_blocker b row payload ≡ ok (q, r)
    → (q.blockers ≡ insert_last row b.blockers) × (r ≡ row)
unfolding start_blocker
start_blocker-rows b row payload {q} {r} e =
    go (recompute_operational_status m row.work_order) refl e
  where
    m : Board
    m = record_event (create_blocker b row) row.pk EventType.blocker_created row.opened_by payload

    go :
        (t : Result BlockerError (Board × OperationalStatus))
        → recompute_operational_status m row.work_order ≡ t
        → (t >>= λ (q, _). paired q row) ≡ ok (q, r)
        → (q.blockers ≡ insert_last row b.blockers) × (r ≡ row)
    go (ok (q', s)) e f = ground (arith, recompute-blockers row.work_order m e)
    go (err x) e f = absurd (ground arith)

open_blocker_new :
    (b : Board) (wo : ℕ) (kind : Kind) (x : External) (o : Opening) {q : Board}
    {r : WorkOrderBlocker}
    → find_first (waits_on wo (reference x)) b.blockers ≡ none
    → open_blocker b wo kind (some x) o ≡ ok (q, some r)
    → (q.blockers ≡ insert_last r b.blockers)
      × (r ≡ new_blocker b wo kind (some (reference x)) (cut_label o))
unfolding open_blocker
open_blocker_new b wo kind x o {q} {r} free e =
    go (start_blocker b row (created kind (reference x))) refl (rw (free, open_blocker) at e)
  where
    row : WorkOrderBlocker
    row = new_blocker b wo kind (some (reference x)) (cut_label o)

    go :
        (t : Result BlockerError (Board × WorkOrderBlocker))
        → start_blocker b row (created kind (reference x)) ≡ t
        → (t >>= λ (q, row). tagged q row) ≡ ok (q, some r)
        → (q.blockers ≡ insert_last r b.blockers) × (r ≡ row)
    go (ok (q', r')) e f =
        let made = start_blocker-rows b row (created kind (reference x)) e in ground (arith, made)
    go (err y) e f = absurd (ground arith)

waits_on-new :
    (b : Board) (wo : ℕ) (kind : Kind) (x : External) (o : Opening)
    → waits_on wo (reference x) (new_blocker b wo kind (some (reference x)) o) ≡ true
waits_on-new b wo kind (External.part_issue_line k s) o = ground arith
waits_on-new b wo kind (External.part_shortage_report k s i a) o = ground arith
waits_on-new b wo kind (External.external_repair_request k) o = ground arith
waits_on-new b wo kind (External.external_repair_order k) o = ground arith

-- The call is idempotent: right after a blocker was opened for an entity, opening one again, with
-- whatever arguments, gives the same blocker and changes nothing.
open_blocker_twice :
    (b : Board) (wo : ℕ) (kind again : Kind) (x : External) (o o' : Opening) {q : Board}
    {r : WorkOrderBlocker}
    → open_blocker b wo kind (some x) o ≡ ok (q, some r)
    → open_blocker q wo again (some x) o' ≡ ok (q, some r)
unfolding open_blocker
open_blocker_twice b wo kind again x o o' {q} {r} e =
    elim (Option-cases (find_first (waits_on wo (reference x)) b.blockers)) [
      | inl free ↦
          let made = open_blocker_new b wo kind x o free e in
          open_blocker_held q wo again x o' r (
            rw made.0 (
              find_first-insert_last (waits_on wo (reference x)) r b.blockers free
                (rw made.1 (waits_on-new b wo kind x (cut_label o)))))
      | inr (s, held) ↦
          let same : ok (b, some s) ≡ ok (q, some r) =
            sym (open_blocker_held b wo kind x o s held) ∙ e in
          open_blocker_held q wo again x o' r (ground (arith, same))
    ]
