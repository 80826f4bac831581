-- ===== src/Lifecycle/Pauses.antt =====
-- Pauses, resumptions and downtimes leave the stage of every order alone.
use spare_part.Blockers.Service.{resolve_blocker}
use spare_part.Lifecycle.Technician.{is_running, end_downtime, Labels}
use spare_part.Lifecycle.Start.{
  others_in_progress, pause_other_in_progress, begin_downtime, pause_each, resume_each, pause_one,
}
use spare_part.Base.{
  reverse, find_first, Option-cases, is_none, ℕ, List, [], ◌∷◌, none, some, inl, inr, if_branches,
}
use spare_part.Base.Text.{Text}
use spare_part.Base.Result.{Result-cases}
use spare_part.Blockers.Tables.{LifecycleStatus, WorkOrder, WorkOrderBlocker, Board, order_row}
use spare_part.Lifecycle.Tables.{WorkSheet, Desk}
use spare_part.Lifecycle.Stages.{Stage, recompute_after-Stage, pause-Stage}
use spare_part.Lifecycle.Routes.{resolve_ok-Stage}

module _ (k : ℕ) (Q : LifecycleStatus → Type 0) where
  pause_one-Stage :
      (d : Desk) (o : WorkOrder) (technician starting : ℕ) (t : Labels) (now : ℕ)
      → Stage k Q d.board.orders
      → Stage k Q (pause_one d o technician starting t now).board.orders
  unfolding pause_one
  pause_one-Stage d o technician starting t now h =
      pause-Stage k Q _ o.pk none t.blocker_note _ _
        (recompute_after-Stage k Q o.pk d.board d.board h h)

  pause_each-Stage :
      (os : List WorkOrder) (d : Desk) (technician starting : ℕ) (t : Labels) (now : ℕ)
      → Stage k Q d.board.orders
      → Stage k Q (pause_each os d technician starting t now).board.orders
  unfolding pause_each
  pause_each-Stage [] d technician starting t now h = h
  pause_each-Stage (o ∷ os) d technician starting t now h =
      pause_each-Stage os (pause_one d o technician starting t now) technician starting t now
        (pause_one-Stage d o technician starting t now h)

  pub pause_other-Stage :
      (d : Desk) (technician starting : ℕ) (t : Labels) (now : ℕ)
      → Stage k Q d.board.orders
      → Stage k Q (pause_other_in_progress d technician starting t now).board.orders
  unfolding pause_other_in_progress
  pause_other-Stage d technician starting t now h =
      pause_each-Stage (others_in_progress technician starting d.sheets d.board.orders) d technician
        starting t now h

  pub resume_each-Stage :
      (xs : List WorkOrderBlocker) (b : Board) (actor : ℕ) (note : Text) (now : ℕ)
      → Stage k Q b.orders
      → Stage k Q (resume_each xs b actor note now).orders
  unfolding resume_each
  resume_each-Stage [] b actor note now h = h
  resume_each-Stage (x ∷ xs) b actor note now h =
      elim (Result-cases (resolve_blocker b x.pk note (some actor) now)) [
        | inl (r, done) ↦
            rw (done, resume_each)
              (resume_each-Stage xs r.0 actor note now
                (resolve_ok-Stage k Q b x.pk note (some actor) now r done h))
        | inr (e, failed) ↦ rw (failed, resume_each) h
      ]

  pub end_downtime-Stage :
      (d : Desk) (j : ℕ) (s : WorkSheet) (now : ℕ)
      → Stage k Q d.board.orders
      → Stage k Q (end_downtime d j s now).0.board.orders
  end_downtime-Stage d j s now h =
      elim (Option-cases (find_first (is_running j) (reverse d.downtimes))) [
        | inl missing ↦ rw (missing, end_downtime) h
        | inr (x, found) ↦ rw (found, end_downtime) h
      ]

  pub begin_downtime-Stage :
      (d : Desk) (wo : WorkOrder) (s : WorkSheet) (now : ℕ)
      → Stage k Q d.board.orders
      → Stage k Q (begin_downtime d wo s now).board.orders
  begin_downtime-Stage d wo s now h =
      if_branches (λ (e : Desk). Stage k Q e.board.orders) (is_none s.downtime_started_at) _ _
        (λ _. h) (λ _. h)
