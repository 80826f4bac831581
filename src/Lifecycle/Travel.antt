-- ===== src/Lifecycle/Travel.antt =====
-- Over every history of lifecycle calls an order stays on the routes of its lifecycle.
use spare_part.Lifecycle.Technician.{
  close_held, reason_text, should_open, technician_submit_for_review, manager_close_work_order,
  technician_mark_waiting, Labels, work_order_pause,
}
use spare_part.Lifecycle.Start.{pauses_of, begin_downtime, technician_start_work}
use spare_part.Base.{
  Bool-cases, ℕ, ◌≡◌, refl, sym, subst, Bool, true, false, List, [], ◌∷◌, Option, none, some, arith,
  inl, inr, if_branches,
}
use spare_part.Base.Text.{Text}
use spare_part.Base.Rows.{get, get_own}
use spare_part.Base.Keeps.{Keeps, kept, kept_after, Keeps-raise_if, Keeps-or_raise, Keeps-bind}
use spare_part.Base.Result.{tables_or}
use spare_part.Blockers.Tables.{LifecycleStatus, WorkOrder, Board, order_row}
use spare_part.Blockers.Status.{is_terminal, get_order, is_in_progress}
use spare_part.Blockers.Synced.{get_order-inv}
use spare_part.Lifecycle.Tables.{WorkSheet, Desk, PauseReason}
use spare_part.Lifecycle.Service.{is_legal}
use spare_part.Lifecycle.Stages.{Stage, save-Stage, recompute_after-Stage, pause-Stage, same_order}
use spare_part.Lifecycle.Archive.{set_archived, archive_work_order, restore_work_order}
use spare_part.Lifecycle.Pauses.{
  pause_other-Stage, resume_each-Stage, end_downtime-Stage, begin_downtime-Stage,
}
use spare_part.Lifecycle.Steps.{
  LifecycleCall, move, result, step, run, moves, starts, submits, waits, reviews, pauses, archives,
  restores,
}
use spare_part.Lifecycle.Routes.{Route, IsRouted, IsHeld, transition-IsRouted}

-- What is read at the start of a call.
read-IsHeld :
    (k : ℕ) (wo : WorkOrder) (d : Desk) → get_order k d.board.orders ≡ some wo → IsHeld wo d
read-IsHeld k wo d found x here =
    let (own, _, same) = get_order-inv k wo d.board.orders found in
    subst (λ y. y.lifecycle_status ≡ wo.lifecycle_status)
      (same_order (get wo.pk d.board.orders) wo x
        (subst (λ j. get j d.board.orders ≡ some wo) (sym same) own) here)
      refl

module _ (k : ℕ) (s : LifecycleStatus) (d : Desk) (h : IsRouted k s d) where
  move-IsRouted :
      (j : ℕ) (to : LifecycleStatus) (actor : ℕ) (t : Labels) (now : ℕ)
      → Keeps (IsRouted k s) d (move d j to actor t now)
  unfolding move
  move-IsRouted j to actor t now =
      Keeps-or_raise (IsRouted k s) d h _ _ _
        (λ wo found. transition-IsRouted k s d d wo to actor _ _ now h h (read-IsHeld j wo d found))

  submit-IsRouted :
      (j technician : ℕ) (t : Labels) (now : ℕ)
      → Keeps (IsRouted k s) d (technician_submit_for_review d j technician t now)
  unfolding technician_submit_for_review
  submit-IsRouted j technician t now =
      let P = IsRouted k s in
      Keeps-or_raise P d h _ _ _ (λ wo found. Keeps-or_raise P d h _ _ _ (λ _ _.
        transition-IsRouted k s d _ wo LifecycleStatus.pending_review technician _ _ now h h
          (read-IsHeld j wo d found)))

  wait-IsRouted : (j now : ℕ) → Keeps (IsRouted k s) d (technician_mark_waiting d j now)
  unfolding technician_mark_waiting
  wait-IsRouted j now =
      let P = IsRouted k s in
      Keeps-or_raise P d h _ _ _ (λ wo _. Keeps-raise_if P d h _ _ _ (λ _.
        Keeps-or_raise P d h _ _ _
          (λ _ _. kept (recompute_after-Stage k (Route s) j d.board d.board h h))))

  pause-IsRouted :
      (j : ℕ) (reason : PauseReason) (note : Text) (actor : Option ℕ) (now : ℕ)
      → Keeps (IsRouted k s) d (work_order_pause d j reason note actor now)
  unfolding work_order_pause
  pause-IsRouted j reason note actor now =
      let P = IsRouted k s in
      Keeps-or_raise P d h _ _ _ (λ wo _. Keeps-or_raise P d h _ _ _ (λ _ _.
        let b =
          if_branches (λ (m : Board). Stage k (Route s) m.orders) (should_open reason note) _ _
            (λ _. pause-Stage k (Route s) d.board j actor note none (reason_text reason) h)
            (λ _. h) in
        kept (recompute_after-Stage k (Route s) j _ _ b b)))

  review-IsRouted :
      (j manager : ℕ) (approve : Bool) (reason : Text) (t : Labels) (now : ℕ)
      → Keeps (IsRouted k s) d (manager_close_work_order d j manager approve reason t now)
  unfolding manager_close_work_order close_held
  review-IsRouted j manager approve reason t now =
      let P = IsRouted k s in
      Keeps-or_raise P d h _ _ _ (λ wo found. Keeps-or_raise P d h _ _ _ (λ sheet _.
        Keeps-raise_if P d h _ _ _ (λ _.
          if_branches (Keeps P d) approve _ _
            (λ _.
              transition-IsRouted k s d _ wo LifecycleStatus.closed manager _ _ now h
                (end_downtime-Stage k (Route s) d wo.pk sheet now h)
                (end_downtime-Stage wo.pk (λ u. u ≡ wo.lifecycle_status) d wo.pk sheet now
                  (read-IsHeld j wo d found)))
            (λ _.
              transition-IsRouted k s d _ wo LifecycleStatus.in_progress manager _ _ now h h
                (read-IsHeld j wo d found)))))

  start-IsRouted :
      (j technician : ℕ) (t : Labels) (now : ℕ)
      → Keeps (IsRouted k s) d (technician_start_work d j technician t now)
  unfolding technician_start_work
  start-IsRouted j technician t now =
      let P = IsRouted k s in
      Keeps-or_raise P d h _ _ _ (λ wo found. Keeps-or_raise P d h _ _ _ (λ sheet _.
        elim (Bool-cases (is_in_progress wo.lifecycle_status)) [
          | inl going ↦ rw going (kept (begin_downtime-Stage k (Route s) d wo sheet now h))
          | inr fresh ↦ rw fresh (
              Keeps-bind P d h _ _ (λ v e. kept (
                resume_each-Stage k (Route s) (pauses_of j v.board.blockers) v.board technician
                  t.blocker_note now
                  (subst (λ y. P (tables_or d y)) e
                    (kept_after P d _ (
                      transition-IsRouted k s d _ wo LifecycleStatus.in_progress technician _ _ now
                        h
                        (pause_other-Stage k (Route s) (begin_downtime d wo sheet now) technician j
                          t now (begin_downtime-Stage k (Route s) d wo sheet now h))
                        (pause_other-Stage wo.pk (λ u. u ≡ wo.lifecycle_status)
                          (begin_downtime d wo sheet now) technician j t now
                          (begin_downtime-Stage wo.pk (λ u. u ≡ wo.lifecycle_status) d wo sheet now
                            (read-IsHeld j wo d found)))))))))
        ]))

  set_archived-IsRouted :
      (j : ℕ) (wo : WorkOrder) (sheet : WorkSheet) (archived : Bool) (at by : Option ℕ)
      → get j d.board.orders ≡ some wo
      → IsRouted k s (set_archived d wo sheet archived at by)
  set_archived-IsRouted j wo sheet archived at by found =
      save-Stage k (Route s) (record wo { is_archived = archived }) wo d.board.orders
        (get_own j wo d.board.orders found) (λ r. r) h

  archive-IsRouted : (j actor now : ℕ) → Keeps (IsRouted k s) d (archive_work_order d j actor now)
  unfolding archive_work_order
  archive-IsRouted j actor now =
      let P = IsRouted k s in
      Keeps-or_raise P d h _ _ _ (λ wo found. Keeps-or_raise P d h _ _ _ (λ sheet _.
        Keeps-raise_if P d h _ _ _
          (λ _. kept (set_archived-IsRouted j wo sheet true (some now) (some actor) found))))

  restore-IsRouted : (j : ℕ) → Keeps (IsRouted k s) d (restore_work_order d j)
  unfolding restore_work_order
  restore-IsRouted j =
      let P = IsRouted k s in
      Keeps-or_raise P d h _ _ _ (λ wo found. Keeps-or_raise P d h _ _ _ (λ sheet _.
        Keeps-raise_if P d h _ _ _
          (λ _. kept (set_archived-IsRouted j wo sheet false none none found))))

  result-IsRouted : (c : LifecycleCall) → Keeps (IsRouted k s) d (result d c)
  unfolding result
  result-IsRouted (moves j to actor t now) = move-IsRouted j to actor t now
  result-IsRouted (starts j technician t now) = start-IsRouted j technician t now
  result-IsRouted (submits j technician t now) = submit-IsRouted j technician t now
  result-IsRouted (waits j now) = wait-IsRouted j now
  result-IsRouted (reviews j manager approve reason t now) =
      review-IsRouted j manager approve reason t now
  result-IsRouted (pauses j reason note actor now) = pause-IsRouted j reason note actor now
  result-IsRouted (archives j actor now) = archive-IsRouted j actor now
  result-IsRouted (restores j) = restore-IsRouted j

-- Whatever calls of the lifecycle services are made, with the pauses and the resolutions of blockers that
-- they set off, the lifecycle of an order, if its row is there, is reached from its stage before by legal
-- transitions alone, if it was so reached before the calls.
pub run-IsRouted :
    (k : ℕ) (s : LifecycleStatus) (d : Desk) (cs : List LifecycleCall)
    → IsRouted k s d
    → IsRouted k s (run d cs)
unfolding run step
run-IsRouted k s d [] h = h
run-IsRouted k s d (c ∷ cs) h =
    run-IsRouted k s (step d c) cs
      (kept_after (IsRouted k s) d (result d c) (result-IsRouted k s d h c))

no_exit : (s u : LifecycleStatus) → is_terminal s ≡ true → is_legal s u ≡ false
no_exit s u e = ground arith

-- No legal transition leaves a terminal stage.
Route-terminal : (s t : LifecycleStatus) → is_terminal s ≡ true → Route s t → t ≡ s
Route-terminal s t e Route.here = refl
Route-terminal s t e (Route.next {t = u} r l) =
    absurd
      (ground (arith, no_exit s t e, subst (λ x. is_legal x t ≡ true) (Route-terminal s u e r) l))

-- A closed or cancelled order keeps its stage through every history of lifecycle calls: it is never opened,
-- started, reviewed or cancelled again.
pub run_terminal :
    (k : ℕ) (d : Desk) (cs : List LifecycleCall) (wo later : WorkOrder)
    → get k d.board.orders ≡ some wo
    → is_terminal wo.lifecycle_status ≡ true
    → get k (run d cs).board.orders ≡ some later
    → later.lifecycle_status ≡ wo.lifecycle_status
run_terminal k d cs wo later found e after =
    Route-terminal wo.lifecycle_status later.lifecycle_status e (
      run-IsRouted k wo.lifecycle_status d cs
        (λ x here.
          subst (λ y. Route wo.lifecycle_status y.lifecycle_status)
            (same_order (get k d.board.orders) wo x found here) Route.here)
        later after)
