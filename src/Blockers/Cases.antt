-- ===== src/Blockers/Cases.antt =====
-- The two ways in which a call of maintenance/services_blocker.py changes the tables: a new open
-- blocker, or an open blocker that is settled. One rule serves every invariant.
use spare_part.Blockers.Sync.{
  verdict, sync_target, awaits, SyncPayload, Verdict, SyncEvent, apply_verdict,
  sync_from_external_event,
}
use spare_part.Blockers.Status.{BlockerError}
use spare_part.Blockers.Steps.{
  syncs, cancels, resolves, pauses, opens, BlockerCall, step, board_after,
}
use spare_part.Blockers.Service.{
  pause_opening, cut_label, new_blocker, cancelled_row, resolved_row, Opening, is_pause_of,
  open_blocker, resolve_blocker, cancel_blocker, open_operational_blocker, settle_blocker,
  start_blocker, waits_on,
}
use spare_part.Base.{
  sym, subst, ℕ, ◌≡◌, refl, false, Option, none, some, inl, inr, ◌⊎◌, Option-cases, find_first,
}
use spare_part.Base.Text.{Text}
use spare_part.Base.Rows.{get, next_pk, get-key}
use spare_part.Base.Result.{Result, ok, err, ◌>>=◌}
use spare_part.Blockers.Tables.{
  paused_for, created, noted, reasoned, reference, Kind, BlockerStatus, is_opened, Reference,
  WorkOrderBlocker, EventType, EventPayload, External, Board, blocker_row,
}

-- A row that a call may add: open, under a new key, and the only open one of its work order that
-- waits for its entity, if it has one.
pub record IsFresh (b : Board) (row : WorkOrderBlocker) : Type 0 where
  pub new_key : row.pk ≡ next_pk b.blockers
  pub is_open : row.status ≡ BlockerStatus.opened
  pub alone :
      (row.external_ref ≡ none)
      ⊎ ((ref : Reference) × (row.external_ref ≡ some ref)
          × (find_first (waits_on row.work_order ref) b.blockers ≡ none))

-- A row that a call may save in the place of `old`: `old`, settled.
pub record IsSettled (b : Board) (old row : WorkOrderBlocker) : Type 0 where
  pub found : get row.pk b.blockers ≡ some old
  pub was_open : old.status ≡ BlockerStatus.opened
  pub is_closed : is_opened row.status ≡ false
  pub same_order : row.work_order ≡ old.work_order
  pub same_ref : row.external_ref ≡ old.external_ref

abbrev pub paired : Board → WorkOrderBlocker → Result BlockerError (Board × WorkOrderBlocker)
paired q row = ok (q, row)

abbrev pub tagged : Board → WorkOrderBlocker → Result BlockerError (Board × Option WorkOrderBlocker)
tagged q row = ok (q, some row)

module _ {ℓ} (P : Board → Type ℓ) (b : Board) (kept : P b)
    (started : (row : WorkOrderBlocker) (payload : EventPayload)
      → IsFresh b row
      → P (board_after b (start_blocker b row payload)))
    (settled : (old row : WorkOrderBlocker) (t : EventType) (actor : Option ℕ)
        (payload : EventPayload)
      → IsSettled b old row
      → P (board_after b (settle_blocker b row t actor payload))) where
  after_map :
      (r : Result BlockerError (Board × WorkOrderBlocker))
      → P (board_after b r)
      → P (board_after b (r >>= λ (q, row). tagged q row))
  after_map (ok r) h = h
  after_map (err e) h = h

  open_blocker_case :
      (wo : ℕ) (kind : Kind) (x : Option External) (o : Opening)
      → P (board_after b (open_blocker b wo kind x o))
  unfolding open_blocker
  open_blocker_case wo kind none o = kept
  open_blocker_case wo kind (some x) o =
      elim (Option-cases (find_first (waits_on wo (reference x)) b.blockers)) [
        | inl free ↦
            rw (free, board_after)
              (after_map
                (start_blocker b (new_blocker b wo kind (some (reference x)) (cut_label o))
                  (created kind (reference x)))
                (started (new_blocker b wo kind (some (reference x)) (cut_label o))
                  (created kind (reference x))
                  (record {
                    new_key = refl;
                    is_open = refl;
                    alone = inr (reference x, refl, free);
                  })))
        | inr (r, held) ↦ rw (held, board_after) kept
      ]

  open_operational_blocker_case :
      (wo : ℕ) (by : Option ℕ) (note : Text) (source : Option ℕ) (reason : Text)
      → P (board_after b (open_operational_blocker b wo by note source reason))
  unfolding open_operational_blocker
  open_operational_blocker_case wo by note source reason =
      elim (Option-cases (find_first (is_pause_of wo) b.blockers)) [
        | inl free ↦
            rw (free, board_after)
              (started
                (new_blocker b wo Kind.operational none (pause_opening by note source reason))
                (paused_for reason source)
                (record { new_key = refl; is_open = refl; alone = inl refl }))
        | inr (r, held) ↦ rw (held, board_after) kept
      ]

  resolve_case :
      (j : ℕ) (note : Text) (by : Option ℕ) (now : ℕ) (r : WorkOrderBlocker) (s : BlockerStatus)
      → get j b.blockers ≡ some r
      → r.status ≡ s
      → P (board_after b (resolve_blocker b j note by now))
  unfolding resolve_blocker
  resolve_case j note by now r BlockerStatus.opened found e =
      rw (found, e)
        (settled r (resolved_row r note by now) EventType.blocker_resolved by (noted note) (record {
          found = subst (λ n. get n b.blockers ≡ some r) (sym (get-key j r b.blockers found)) found;
          was_open = e;
          is_closed = refl;
          same_order = refl;
          same_ref = refl;
        }))
  resolve_case j note by now r BlockerStatus.resolved found e = rw (found, e) kept
  resolve_case j note by now r BlockerStatus.cancelled found e = rw (found, e) kept

  resolve_blocker_case :
      (j : ℕ) (note : Text) (by : Option ℕ) (now : ℕ)
      → P (board_after b (resolve_blocker b j note by now))
  unfolding resolve_blocker
  resolve_blocker_case j note by now = elim (Option-cases (get j b.blockers)) [
    | inl missing ↦ rw (missing, board_after) kept
    | inr (r, found) ↦ resolve_case j note by now r r.status found refl
  ]

  cancel_case :
      (j : ℕ) (reason : Text) (by : Option ℕ) (now : ℕ) (r : WorkOrderBlocker) (s : BlockerStatus)
      → get j b.blockers ≡ some r
      → r.status ≡ s
      → P (board_after b (cancel_blocker b j reason by now))
  unfolding cancel_blocker
  cancel_case j reason by now r BlockerStatus.opened found e =
      rw (found, e)
        (settled r (cancelled_row r reason by now) EventType.blocker_cancelled by (reasoned reason)
          (record {
            found =
                subst (λ n. get n b.blockers ≡ some r) (sym (get-key j r b.blockers found)) found;
            was_open = e;
            is_closed = refl;
            same_order = refl;
            same_ref = refl;
          }))
  cancel_case j reason by now r BlockerStatus.resolved found e = rw (found, e) kept
  cancel_case j reason by now r BlockerStatus.cancelled found e = rw (found, e) kept

  cancel_blocker_case :
      (j : ℕ) (reason : Text) (by : Option ℕ) (now : ℕ)
      → P (board_after b (cancel_blocker b j reason by now))
  unfolding cancel_blocker
  cancel_blocker_case j reason by now = elim (Option-cases (get j b.blockers)) [
    | inl missing ↦ rw (missing, board_after) kept
    | inr (r, found) ↦ cancel_case j reason by now r r.status found refl
  ]

  apply_verdict_case :
      (v : Verdict) (r : WorkOrderBlocker) (actor : Option ℕ) (now : ℕ)
      → P (board_after b (apply_verdict v b r actor now))
  unfolding apply_verdict
  apply_verdict_case Verdict.ignores r actor now = kept
  apply_verdict_case (Verdict.resolves note) r actor now =
      after_map (resolve_blocker b r.pk note actor now) (resolve_blocker_case r.pk note actor now)
  apply_verdict_case (Verdict.cancels reason) r actor now =
      after_map (cancel_blocker b r.pk reason actor now) (cancel_blocker_case r.pk reason actor now)

  sync_case :
      (x : Option External) (event : SyncEvent) (actor : Option ℕ) (payload : SyncPayload) (now : ℕ)
      → P (board_after b (sync_from_external_event b x event actor payload now))
  unfolding sync_from_external_event
  sync_case none event actor payload now = kept
  sync_case (some x) event actor payload now =
      elim (Option-cases (find_first (awaits (reference (sync_target b event x))) b.blockers)) [
        | inl free ↦ rw (free, board_after) kept
        | inr (r, held) ↦
            rw (held, board_after)
              (apply_verdict_case (verdict event (sync_target b event x) payload) r actor now)
      ]

  pub step_case : (c : BlockerCall) → P (step b c)
  unfolding step
  step_case (opens wo kind x o) = open_blocker_case wo kind x o
  step_case (pauses wo by note source reason) =
      open_operational_blocker_case wo by note source reason
  step_case (resolves j note by now) = resolve_blocker_case j note by now
  step_case (cancels j reason by now) = cancel_blocker_case j reason by now
  step_case (syncs x event actor payload now) = sync_case x event actor payload now
