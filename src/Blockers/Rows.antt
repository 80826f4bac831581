-- ===== src/Blockers/Rows.antt =====
-- What a call of maintenance/services_blocker.py does to the rows of the blockers alone.
use spare_part.Base.{ℕ, ◌≡◌, refl, sym, subst, List, Option, insert_last}
use spare_part.Base.Rows.{save}
use spare_part.Base.Result.{Result, ok, err, ◌>>=◌}
use spare_part.Blockers.Tables.{
  OperationalStatus, WorkOrderBlocker, EventType, EventPayload, Board, blocker_row, order_row,
}
use spare_part.Blockers.Status.{BlockerError, recompute_operational_status, derived_status}
use spare_part.Blockers.Service.{record_event, create_blocker, start_blocker, settle_blocker}
use spare_part.Blockers.Steps.{BlockerCall, board_after, step}
use spare_part.Blockers.Cases.{IsFresh, IsSettled, step_case}
use spare_part.Blockers.Synced.{recompute-cases, set_if_changed_cases}

-- A recomputation writes no blocker.
pub recompute-blockers :
    (j : ℕ) (m : Board) {q : Board} {s : OperationalStatus}
    → recompute_operational_status m j ≡ ok (q, s)
    → q.blockers ≡ m.blockers
recompute-blockers j m e =
    recompute-cases (λ q. q.blockers ≡ m.blockers) j m e
      λ wo found. (
        λ terminal. refl,
        set_if_changed_cases (λ q. q.blockers ≡ m.blockers) m wo
            (derived_status wo.lifecycle_status wo.pk m.blockers) (λ same. refl) refl,
      )

module _ {ℓ} (P : List WorkOrderBlocker → Type ℓ) (b : Board) (kept : P b.blockers) where
  after_recompute :
      (m : Board) (j : ℕ) (row : WorkOrderBlocker)
      (r : Result BlockerError (Board × OperationalStatus))
      → recompute_operational_status m j ≡ r
      → P m.blockers
      → P (board_after b (r >>= λ (q, _). ok (q, row))).blockers
  after_recompute m j row (ok (q, s)) e h = subst P (sym (recompute-blockers j m e)) h
  after_recompute m j row (err x) e h = kept

  start_case :
      (row : WorkOrderBlocker) (payload : EventPayload)
      → P (insert_last row b.blockers)
      → P (board_after b (start_blocker b row payload)).blockers
  unfolding start_blocker
  start_case row payload h =
      let m =
        record_event (create_blocker b row) row.pk EventType.blocker_created row.opened_by
          payload in
      after_recompute m row.work_order row (recompute_operational_status m row.work_order) refl h

  settle_case :
      (row : WorkOrderBlocker) (t : EventType) (actor : Option ℕ) (payload : EventPayload)
      → P (save row b.blockers)
      → P (board_after b (settle_blocker b row t actor payload)).blockers
  unfolding settle_blocker
  settle_case row t actor payload h =
      let m = record_event (record b { blockers = save row b.blockers }) row.pk t actor payload in
      after_recompute m row.work_order row (recompute_operational_status m row.work_order) refl h

  -- A property of the rows survives a call if it survives the two changes.
  pub step_rows :
      ((row : WorkOrderBlocker) → IsFresh b row → P (insert_last row b.blockers))
      → ((old row : WorkOrderBlocker) → IsSettled b old row → P (save row b.blockers))
      → (c : BlockerCall) → P (step b c).blockers
  step_rows added saved c =
      step_case (λ q. P q.blockers) b kept
        (λ row payload fresh. start_case row payload (added row fresh))
        (λ old row t actor payload s. settle_case row t actor payload (saved old row s)) c
