-- ===== src/Blockers/Keystone.antt =====
-- The rule of inventory/services_allocation.py and docs: the blocker of a part line is resolved when
-- the line is issued, and not before.
use spare_part.Base.Text.{codes, Text}
use spare_part.Base.{
  Bool-cases, ℕ, ◌≡◌, ◌≢◌, refl, Bool, true, List, [], ◌∷◌, Option, none, some, arith, find_first,
  Option-cases, inl, inr,
}
use spare_part.Base.Rows.{get, save, get-save_self}
use spare_part.Base.Result.{ok, ◌>>=◌}
use spare_part.Blockers.Tables.{
  Reference, noted, reference, BlockerStatus, WorkOrder, WorkOrderBlocker, LineStatus,
  part_issue_line, Board, blocker_row, EventType, EventPayload, OperationalStatus,
}
use spare_part.Blockers.Status.{
  get_order, recompute_operational_status, set_if_changed, is_terminal, derived_status,
}
use spare_part.Blockers.Service.{resolve_blocker, settle_blocker, record_event, resolved_row}
use spare_part.Blockers.Sync.{
  text_or, part_issued, SyncPayload, verdict, awaits, apply_verdict, sync_from_external_event,
}
use spare_part.Blockers.Rows.{recompute-blockers}

find_first-passes :
    (p : WorkOrderBlocker → Bool) (r : WorkOrderBlocker) (rows : List WorkOrderBlocker)
    → find_first p rows ≡ some r
    → p r ≡ true
find_first-passes p r [] e = ground arith
find_first-passes p r (x ∷ rows) e = ground (arith, find_first-passes p r rows)

awaits-open :
    (ref : Reference) (r : WorkOrderBlocker) → awaits ref r ≡ true → r.status ≡ BlockerStatus.opened
awaits-open ref r h = ground arith

-- The recomputation of a work order that is there succeeds.
recompute-total :
    (k : ℕ) (b : Board) (wo : WorkOrder)
    → get_order k b.orders ≡ some wo
    → (q : Board) × (s : OperationalStatus) × (recompute_operational_status b k ≡ ok (q, s))
unfolding recompute_operational_status
recompute-total k b wo e = elim (Bool-cases (is_terminal wo.lifecycle_status)) [
  | inl terminal ↦ (b, wo.operational_status, ground arith)
  | inr going ↦
      let s = derived_status wo.lifecycle_status wo.pk b.blockers in
      (set_if_changed b wo s, s, ground arith)
]

settle-total :
    (b : Board) (row : WorkOrderBlocker) (t : EventType) (actor : Option ℕ) (payload : EventPayload)
    (wo : WorkOrder)
    → get_order row.work_order b.orders ≡ some wo
    → (q : Board) × (settle_blocker b row t actor payload ≡ ok (q, row))
      × (q.blockers ≡ save row b.blockers)
unfolding settle_blocker
settle-total b row t actor payload wo e =
    let m = record_event (record b { blockers = save row b.blockers }) row.pk t actor payload in
    let (q, s, done) = recompute-total row.work_order m wo e in
    (q, rw (done, ◌>>=◌), recompute-blockers row.work_order m done)

resolve-total :
    (b : Board) (r : WorkOrderBlocker) (note : Text) (actor : Option ℕ) (now : ℕ) (wo : WorkOrder)
    → get r.pk b.blockers ≡ some r
    → r.status ≡ BlockerStatus.opened
    → get_order r.work_order b.orders ≡ some wo
    → (q : Board) × (resolve_blocker b r.pk note actor now ≡ ok (q, resolved_row r note actor now))
      × (get r.pk q.blockers ≡ some (resolved_row r note actor now))
unfolding resolve_blocker
resolve-total b r note actor now wo found is_open e =
    let row = resolved_row r note actor now in
    let (q, done, rows) = settle-total b row EventType.blocker_resolved actor (noted note) wo e in
    (q, rw (found, is_open, resolve_blocker) done, rw rows (get-save_self row r b.blockers found))

-- The event `PART_ISSUED` of an issued part line, for which an open blocker of a known work order
-- waits, succeeds: that blocker is resolved, with the note of the payload or the standard one. The quantities of the
-- line do not matter: a line is issued here by its status alone.
pub sync_issued_resolves :
    (b : Board) (line : ℕ) (actor : Option ℕ) (payload : SyncPayload) (now : ℕ)
    (r : WorkOrderBlocker) (wo : WorkOrder)
    → find_first (awaits (reference (part_issue_line line LineStatus.issued))) b.blockers ≡ some r
    → get r.pk b.blockers ≡ some r
    → get_order r.work_order b.orders ≡ some wo
    → let row = resolved_row r (text_or payload.note (codes "Part fully issued")) actor now in
      (q : Board) × (sync_from_external_event b
          (some (part_issue_line line LineStatus.issued))
          part_issued
          actor
          payload
          now
        ≡ ok (q, some row))
      × (get r.pk q.blockers ≡ some row)
unfolding sync_from_external_event verdict apply_verdict
sync_issued_resolves b line actor payload now r wo waits found e =
    let note = text_or payload.note (codes "Part fully issued") in
    let is_open : r.status ≡ BlockerStatus.opened =
      awaits-open (1, line) r (find_first-passes (awaits (1, line)) r b.blockers waits) in
    let (q, done, row) = resolve-total b r note actor now wo found is_open e in
    (q, rw (waits, sync_from_external_event) (rw (done, ◌>>=◌)), row)

-- The event `PART_ISSUED` of a part line that is not issued, in particular of one that is only
-- allocated, changes nothing.
sync_allocated_waits :
    (b : Board) (line : ℕ) (status : LineStatus) (actor : Option ℕ) (payload : SyncPayload)
    (now : ℕ)
    → status ≢ LineStatus.issued
    → sync_from_external_event b (some (part_issue_line line status)) part_issued actor payload now
      ≡ ok (b, none)
unfolding sync_from_external_event verdict apply_verdict
sync_allocated_waits b line status actor payload now other =
    elim (Option-cases (find_first (awaits (1, line)) b.blockers)) [
      | inl free ↦ rw (free, sync_from_external_event)
      | inr (r, found) ↦ rw (found, sync_from_external_event) (ignored r status other)
    ]
  where
    ignored :
        (r : WorkOrderBlocker) (s : LineStatus)
        → s ≢ LineStatus.issued
        → apply_verdict (verdict part_issued (part_issue_line line s) payload) b r actor now
          ≡ ok (b, none)
    ignored r LineStatus.issued ne = absurd (ne refl)
    ignored r _ ne = refl
