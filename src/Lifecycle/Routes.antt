-- ===== src/Lifecycle/Routes.antt =====
-- Every call of the lifecycle services moves an order along `VALID_LIFECYCLE_TRANSITIONS`.
use spare_part.Base.{
  Bool-cases, ℕ, ◌≡◌, subst, true, List, [], ◌∷◌, Option, some, arith, inl, inr, if_branches,
}
use spare_part.Base.Text.{Text}
use spare_part.Base.Rows.{get_own}
use spare_part.Base.Keeps.{Keeps, kept, Keeps-raise_if, Keeps-or_raise}
use spare_part.Base.Result.{ok, Result-cases}
use spare_part.Blockers.Tables.{LifecycleStatus, WorkOrder, WorkOrderBlocker, Board, order_row}
use spare_part.Blockers.Service.{resolve_blocker}
use spare_part.Blockers.Steps.{board_after}
use spare_part.Lifecycle.Tables.{Desk}
use spare_part.Lifecycle.Service.{
  dependents, source_still_blocks, is_listed, is_legal, same_stage, resolve_each, recompute_each,
  release_dependent_blockers, after_transition, set_stage, transition_work_order,
}
use spare_part.Lifecycle.Stages.{Stage, save-Stage, recompute_after-Stage, resolve-Stage}

-- The stages that the legal transitions lead to.
pub data Route (s : LifecycleStatus) : LifecycleStatus → Type 0 where
  here : Route s s
  next : {t u : LifecycleStatus} → Route s t → is_legal t u ≡ true → Route s u

module _ (k : ℕ) (Q : LifecycleStatus → Type 0) where
  pub resolve_ok-Stage :
      (b : Board) (x : ℕ) (note : Text) (actor : Option ℕ) (now : ℕ) (r : Board × WorkOrderBlocker)
      → resolve_blocker b x note actor now ≡ ok r
      → Stage k Q b.orders
      → Stage k Q r.0.orders
  resolve_ok-Stage b x note actor now r e h =
      subst (λ y. Stage k Q (board_after b y).orders) e (resolve-Stage k Q b x note actor now h)

  resolve_each-Stage :
      (xs : List WorkOrderBlocker) (b : Board) (affected : List ℕ) (actor : ℕ) (note : Text)
      (now : ℕ)
      → Stage k Q b.orders
      → Stage k Q (resolve_each xs b affected actor note now).0.orders
  unfolding resolve_each
  resolve_each-Stage [] b affected actor note now h = h
  resolve_each-Stage (x ∷ xs) b affected actor note now h =
      elim (Result-cases (resolve_blocker b x.pk note (some actor) now)) [
        | inl (r, done) ↦
            rw (done, resolve_each)
              (resolve_each-Stage xs r.0 (x.work_order ∷ affected) actor note now
                (resolve_ok-Stage b x.pk note (some actor) now r done h))
        | inr (e, failed) ↦
            rw (failed, resolve_each) (resolve_each-Stage xs b affected actor note now h)
      ]

  recompute_each-Stage :
      (os : List WorkOrder) (affected : List ℕ) (b : Board)
      → Stage k Q b.orders
      → Stage k Q (recompute_each os affected b).orders
  unfolding recompute_each
  recompute_each-Stage [] affected b h = h
  recompute_each-Stage (o ∷ os) affected b h = recompute_each-Stage os affected _ (
      if_branches (λ (m : Board). Stage k Q m.orders) (is_listed o.pk affected) _ _
        (λ _. recompute_after-Stage k Q o.pk b b h h) (λ _. h))

  release_dependent_blockers-Stage :
      (b : Board) (wo : WorkOrder) (actor : ℕ) (note : Text) (now : ℕ)
      → Stage k Q b.orders
      → Stage k Q (release_dependent_blockers b wo actor note now).orders
  unfolding release_dependent_blockers
  release_dependent_blockers-Stage b wo actor note now h =
      if_branches (λ (m : Board). Stage k Q m.orders) (source_still_blocks wo) _ _ (λ _. h)
        (λ _.
          recompute_each-Stage _ _ _
            (resolve_each-Stage (dependents wo.pk b.blockers) b [] actor note now h))

  pub after_transition-Stage :
      (d : Desk) (wo : WorkOrder) (to : LifecycleStatus) (actor : ℕ) (label : Text) (now : ℕ)
      → Stage k Q d.board.orders
      → Stage k Q (after_transition d wo to actor label now).board.orders
  unfolding after_transition
  after_transition-Stage d wo to actor label now h =
      release_dependent_blockers-Stage _ (record wo { lifecycle_status = to }) actor label now
        (recompute_after-Stage k Q wo.pk d.board d.board h h)

abbrev pub IsRouted : ℕ → LifecycleStatus → Desk → Type 0
IsRouted k s d = Stage k (Route s) d.board.orders

-- The stage that the caller holds is that of the row.
abbrev pub IsHeld : WorkOrder → Desk → Type 0
IsHeld wo d = Stage wo.pk (λ t. t ≡ wo.lifecycle_status) d.board.orders

legal_next : (s t u v : LifecycleStatus) → t ≡ u → is_legal u v ≡ true → Route s t → Route s v
legal_next s t u v e l r = next (subst (λ x. Route s x) e r) l

pub transition-IsRouted :
    (k : ℕ) (s : LifecycleStatus) (w d : Desk) (wo : WorkOrder) (to : LifecycleStatus) (actor : ℕ)
    (note label : Text) (now : ℕ)
    → IsRouted k s w
    → IsRouted k s d
    → IsHeld wo d
    → Keeps (IsRouted k s) w (transition_work_order d wo to actor note label now)
unfolding transition_work_order
transition-IsRouted k s w d wo to actor note label now h g held =
    let P = IsRouted k s in
    elim (Bool-cases (same_stage wo.lifecycle_status to)) [
      | inl same ↦ rw (same, transition_work_order) (kept g)
      | inr moves ↦
          rw (moves, transition_work_order)
            (Keeps-raise_if P w h _ _ _ (λ legal. Keeps-or_raise P w h _ _ _ (λ row found. kept (
              after_transition-Stage k (Route s) (set_stage d row wo to actor note) wo to actor
                label now
                (save-Stage k (Route s) (record row { lifecycle_status = to }) row d.board.orders
                  (get_own wo.pk row d.board.orders found)
                  (legal_next s row.lifecycle_status wo.lifecycle_status to (held row found)
                    (ground (arith, legal)))
                  g)))))
    ]
