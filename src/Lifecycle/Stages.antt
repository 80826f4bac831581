-- ===== src/Lifecycle/Stages.antt =====
-- What the calls of the blocker services leave alone: the lifecycle of every order.
use spare_part.Blockers.Cases.{step_case}
use native.Mathlib.Decide.{ℕ_discrete}
use spare_part.Base.{
  ◌==◌, ℕ, ◌≡◌, sym, subst, List, Option, some, arith, Option-cases, inl, inr, if_branches,
}
use spare_part.Base.Text.{Text}
use spare_part.Base.Rows.{get, save, get-save_self, get-save_ne, get_own}
use spare_part.Base.Result.{ok, Result-cases}
use spare_part.Blockers.Tables.{
  LifecycleStatus, OperationalStatus, WorkOrder, WorkOrderBlocker, Board, order_row, blocker_row,
  EventType, EventPayload,
}
use spare_part.Blockers.Status.{recompute_operational_status, get_order, derived_status}
use spare_part.Blockers.Service.{
  create_blocker, record_event, resolve_blocker, settle_blocker, start_blocker,
  open_operational_blocker, bump_version,
}
use spare_part.Blockers.Synced.{get_order-inv, recompute-cases, set_if_changed_cases}
use spare_part.Blockers.Steps.{BlockerCall, board_after, pauses, resolves, step}

-- The lifecycle of the order `k`, if it is there, satisfies `Q`.
abbrev pub Stage : ℕ → (LifecycleStatus → Type 0) → List WorkOrder → Type 0
Stage k Q orders = (wo : WorkOrder) → get k orders ≡ some wo → Q wo.lifecycle_status

pub same_order : (o : Option WorkOrder) (a b : WorkOrder) → o ≡ some a → o ≡ some b → a ≡ b
same_order o a b e f = ground arith

own_order :
    (j : ℕ) (wo : WorkOrder) (orders : List WorkOrder)
    → get_order j orders ≡ some wo
    → get wo.pk orders ≡ some wo
own_order j wo orders found = get_own j wo orders (get_order-inv j wo orders found).0

module _ (k : ℕ) (Q : LifecycleStatus → Type 0) where
  pub save-Stage :
      (a old : WorkOrder) (orders : List WorkOrder)
      → get a.pk orders ≡ some old
      → (Q old.lifecycle_status → Q a.lifecycle_status)
      → Stage k Q orders
      → Stage k Q (save a orders)
  save-Stage a old orders found f h wo here = elim (ℕ_discrete k a.pk) [
    | yes same ↦
        subst (λ x. Q x.lifecycle_status)
          (same_order (get a.pk (save a orders)) a wo (get-save_self a old orders found)
            (subst (λ j. get j (save a orders) ≡ some wo) same here))
          (f (h old (subst (λ j. get j orders ≡ some old) (sym same) found)))
    | no other ↦ h wo (subst (λ o. o ≡ some wo) (get-save_ne k a orders other) here)
  ]

  recompute-Stage :
      (j : ℕ) (m : Board) (q : Board) (s : OperationalStatus)
      → recompute_operational_status m j ≡ ok (q, s)
      → Stage k Q m.orders
      → Stage k Q q.orders
  recompute-Stage j m q s e h =
      recompute-cases (λ b. Stage k Q b.orders) j m e
        λ wo found. (
          λ terminal. h,
          set_if_changed_cases (λ b. Stage k Q b.orders) m wo _ (λ same. h)
              (save-Stage
                (record wo {
                  operational_status = derived_status wo.lifecycle_status wo.pk m.blockers;
                })
                wo m.orders (own_order j wo m.orders found) (λ q. q) h),
        )

  pub recompute_after-Stage :
      (j : ℕ) (b m : Board)
      → Stage k Q b.orders
      → Stage k Q m.orders
      → Stage k Q (board_after b (recompute_operational_status m j)).orders
  recompute_after-Stage j b m h g = elim (Result-cases (recompute_operational_status m j)) [
    | inl (r, done) ↦ rw (done, board_after) (recompute-Stage j m r.0 r.1 done g)
    | inr (e, failed) ↦ rw (failed, board_after) h
  ]

  bump_version-Stage :
      (j : ℕ) (orders : List WorkOrder) → Stage k Q orders → Stage k Q (bump_version j orders)
  bump_version-Stage j orders h = elim (Option-cases (get_order j orders)) [
    | inl missing ↦ rw (missing, bump_version) h
    | inr (wo, found) ↦
        rw (found, bump_version)
          (if_branches (Stage k Q) (wo.blocker_system_version == 0) _ _
            (λ _.
              save-Stage (record wo { blocker_system_version = 1 }) wo orders
                (own_order j wo orders found) (λ q. q) h)
            (λ _. h))
  ]

  start_blocker-Stage :
      (b : Board) (row : WorkOrderBlocker) (payload : EventPayload)
      → Stage k Q b.orders
      → Stage k Q (board_after b (start_blocker b row payload)).orders
  unfolding start_blocker
  start_blocker-Stage b row payload h =
      let m =
        record_event (create_blocker b row) row.pk EventType.blocker_created row.opened_by
          payload in
      elim (Result-cases (recompute_operational_status m row.work_order)) [
        | inl (r, done) ↦
            rw (done, board_after, start_blocker)
              (recompute-Stage row.work_order m r.0 r.1 done
                (bump_version-Stage row.work_order b.orders h))
        | inr (e, failed) ↦ rw (failed, board_after, start_blocker) h
      ]

  settle_blocker-Stage :
      (b : Board) (row : WorkOrderBlocker) (t : EventType) (actor : Option ℕ)
      (payload : EventPayload)
      → Stage k Q b.orders
      → Stage k Q (board_after b (settle_blocker b row t actor payload)).orders
  unfolding settle_blocker
  settle_blocker-Stage b row t actor payload h =
      let m = record_event (record b { blockers = save row b.blockers }) row.pk t actor payload in
      elim (Result-cases (recompute_operational_status m row.work_order)) [
        | inl (r, done) ↦
            rw (done, board_after, settle_blocker) (recompute-Stage row.work_order m r.0 r.1 done h)
        | inr (e, failed) ↦ rw (failed, board_after, settle_blocker) h
      ]

  -- Every call of the blocker services.
  step-Stage : (b : Board) (c : BlockerCall) → Stage k Q b.orders → Stage k Q (step b c).orders
  step-Stage b c h =
      step_case (λ m. Stage k Q m.orders) b h
        (λ row payload fresh. start_blocker-Stage b row payload h)
        (λ old row t actor payload done. settle_blocker-Stage b row t actor payload h) c

  pub resolve-Stage :
      (b : Board) (j : ℕ) (note : Text) (actor : Option ℕ) (now : ℕ)
      → Stage k Q b.orders
      → Stage k Q (board_after b (resolve_blocker b j note actor now)).orders
  unfolding step
  resolve-Stage b j note actor now h = step-Stage b (resolves j note actor now) h

  pub pause-Stage :
      (b : Board) (j : ℕ) (by : Option ℕ) (note : Text) (source : Option ℕ) (reason : Text)
      → Stage k Q b.orders
      → Stage k Q (board_after b (open_operational_blocker b j by note source reason)).orders
  unfolding step
  pause-Stage b j by note source reason h = step-Stage b (pauses j by note source reason) h
