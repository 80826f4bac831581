-- ===== src/Preventive/Singles.antt =====
-- Over every history of calls there is one execution for each occurrence of a schedule.
use spare_part.Stock.Reservations.{same_wo}
use spare_part.Lifecycle.Service.{same_stage}
use spare_part.Base.{◌&&◌, not, ℕ, refl, Bool, List, [], ◌∷◌, Option, some, arith, if_branches}
use spare_part.Base.Rows.{next_pk, save}
use spare_part.Base.Text.{Text}
use spare_part.Base.Keeps.{
  Keeps-elim, Keeps, kept, kept_after, Keeps-raise_if, Keeps-or_raise, Keeps-bind,
}
use spare_part.Blockers.Tables.{order_row, LifecycleStatus}
use spare_part.Lifecycle.Technician.{Labels}
use spare_part.Preventive.Calendar.{Date, Moment}
use spare_part.Preventive.Tables.{
  ExecutionStatus, is_rejected, PmExecution, Clock, Engine, execution_row,
}
use spare_part.Preventive.Scheduling.{ran_on, is_overdue, Summary, generate_today, mark_overdue}
use spare_part.Preventive.Occurrence.{
  due_at_call, returned, resubmitted, approved_execution, done_by, Submission, start, complete,
  return_to_technician, approve, approve_execution, mark_done, get_or_create_for_today, order_of,
  start_new, hand_in, create_order,
}
use spare_part.Preventive.Assignment.{reassigned, owned, assign, reassign}
use spare_part.Preventive.Review.{
  create_pm_execution_for_wo, manager_approve_pm_execution, manager_reject_pm_execution,
}
use spare_part.Preventive.Occurrences.{
  changed_twice, changed, HasSingle, IsSingle, insert-IsSingle, get_or_create-IsSingle,
  generate_each-IsSingle,
}
use spare_part.Preventive.Steps.{
  EngineCall, open_today, expire, result, step, run, generates, opens, begins, completes, returns,
  approves, finishes, assigns, reassigns, expires, spawns, accepts, refuses,
}

module _ (k : ℕ) (m : Moment) (e : Engine) (h : HasSingle k m e) where
  start-HasSingle :
      (j technician : ℕ) (note : Text) (now : Clock)
      → Keeps (HasSingle k m) e (start e j technician note now)
  unfolding start start_new create_order
  start-HasSingle j technician note now =
      let P = HasSingle k m in
      Keeps-or_raise P e h _ _ _ (λ x found.
        Keeps-elim P e h (order_of e x) _ _ (λ _. kept (changed k m e h j x _ found refl refl))
          (λ wo _. Keeps-or_raise P e h _ _ _ (λ s _.
            if_branches (Keeps P e) (same_stage wo.lifecycle_status LifecycleStatus.assigned) _ _
              (λ _. kept h) (λ _. kept h))))

  complete-HasSingle :
      (j technician : ℕ) (t : Submission) (now : Clock)
      → Keeps (HasSingle k m) e (complete e j technician t now)
  unfolding complete hand_in
  complete-HasSingle j technician t now =
      let P = HasSingle k m in
      Keeps-or_raise P e h _ _ _ (λ x found. Keeps-raise_if P e h _ _ _ (λ _.
        Keeps-raise_if P e h _ _ _ (λ _. Keeps-or_raise P e h _ _ _ (λ wo _.
          Keeps-or_raise P e h _ _ _ (λ s _. Keeps-or_raise P e h _ _ _ (λ p _. kept (
            if_branches (λ (y : PmExecution). IsSingle k m (save y e.executions))
              (is_rejected x.status) (resubmitted x) x
              (λ _. changed k m e h j x (resubmitted x) found refl refl)
              (λ _. changed k m e h j x x found refl refl))))))))

  return-HasSingle :
      (j manager : ℕ) (reason note : Text) (now : Clock)
      → Keeps (HasSingle k m) e (return_to_technician e j manager reason note now)
  unfolding return_to_technician
  return-HasSingle j manager reason note now =
      let P = HasSingle k m in
      Keeps-or_raise P e h _ _ _ (λ x found. Keeps-raise_if P e h _ _ _ (λ _.
        Keeps-or_raise P e h _ _ _ (λ wo _. Keeps-or_raise P e h _ _ _ (λ s _.
          kept (changed k m e h j x (returned x manager reason now.moment) found refl refl)))))

  approve-HasSingle :
      (j manager : ℕ) (note : Text) (now : Clock)
      → Keeps (HasSingle k m) e (approve e j manager note now)
  unfolding approve approve_execution
  approve-HasSingle j manager note now =
      let P = HasSingle k m in
      Keeps-or_raise P e h _ _ _ (λ x found. Keeps-or_raise P e h _ _ _ (λ s _.
        Keeps-or_raise P e h _ _ _ (λ due _.
          kept (changed k m e h j x (approved_execution x manager now.moment) found refl refl))))

  mark_done-HasSingle :
      (j manager : ℕ) (note : Text) (now : Clock)
      → Keeps (HasSingle k m) e (mark_done e j manager note now)
  unfolding mark_done approve_execution create_order
  mark_done-HasSingle j manager note now =
      let P = HasSingle k m in
      Keeps-or_raise P e h _ _ _ (λ x found.
        let done = done_by x manager now.moment in
        let made : PmExecution = record done { work_order = some (next_pk e.desk.board.orders) } in
        Keeps-elim P e h (order_of e x) _ _
          (λ _. Keeps-or_raise P e h _ _ _ (λ s _. Keeps-or_raise P e h _ _ _ (λ due _. kept (
            changed_twice k m e h j x made (approved_execution made manager now.moment) found refl
              refl refl refl))))
          (λ wo _. Keeps-or_raise P e h _ _ _ (λ s _. Keeps-or_raise P e h _ _ _ (λ due _. kept (
            changed_twice k m e h j x done (approved_execution done manager now.moment) found refl
              refl refl refl)))))

  assign-HasSingle :
      (j technician : ℕ) (now : Clock) → Keeps (HasSingle k m) e (assign e j technician now)
  unfolding assign create_order
  assign-HasSingle j technician now =
      let P = HasSingle k m in
      Keeps-or_raise P e h _ _ _ (λ x found.
        let mine = owned x technician now.moment in
        Keeps-elim P e h (order_of e x) _ _
          (λ _. kept (
            changed k m e h j x (record mine { work_order = some (next_pk e.desk.board.orders) })
              found refl refl))
          (λ wo _.
            Keeps-or_raise P e h _ _ _ (λ s _. kept (changed k m e h j x mine found refl refl))))

  reassign-HasSingle :
      (j technician : ℕ) (reason : Text) (now : Clock)
      → Keeps (HasSingle k m) e (reassign e j technician reason now)
  unfolding reassign
  reassign-HasSingle j technician reason now =
      let P = HasSingle k m in
      Keeps-or_raise P e h _ _ _ (λ x found.
        let moved = reassigned x technician reason now.moment in
        if_branches (Keeps P e) (same_wo (some technician) x.assigned_technician) _ _ (λ _. kept h)
          (λ _.
            Keeps-elim P e h (order_of e x) _ _
              (λ _. kept (changed k m e h j x moved found refl refl))
              (λ wo _.
                Keeps-or_raise P e h _ _ _
                  (λ s _. kept (changed k m e h j x moved found refl refl)))))

  expire-HasSingle : (j : ℕ) (now : Clock) → Keeps (HasSingle k m) e (expire e j now)
  unfolding expire mark_overdue
  expire-HasSingle j now =
      let P = HasSingle k m in
      Keeps-or_raise P e h _ _ _ (λ x found. Keeps-or_raise P e h _ _ _ (λ s _. kept (
        if_branches P (is_overdue s x now.moment) _ _
          (λ _. changed k m e h j x (record x { status = ExecutionStatus.missed }) found refl refl)
          (λ _. h))))

  open-HasSingle : (j : ℕ) (now : Clock) → Keeps (HasSingle k m) e (open_today e j now)
  unfolding open_today get_or_create_for_today
  open-HasSingle j now =
      Keeps-or_raise (HasSingle k m) e h _ _ _
        (λ s _. kept (get_or_create-IsSingle k m s.pk (due_at_call now.moment s) e.executions h))

  generate-HasSingle :
      (today : Date) (force : Bool) (now : Moment)
      → HasSingle k m (generate_today e today force now).0
  unfolding generate_today
  generate-HasSingle today force now =
      if_branches (λ (r : Engine × Summary). HasSingle k m r.0)
        (not force && ran_on today e.last_generate_run) _ _ (λ _. h)
        (λ _. generate_each-IsSingle k m e.schedules today e.executions 0 h)

  create-HasSingle :
      (j wo : ℕ) (actor : Option ℕ) (now : Clock)
      → Keeps (HasSingle k m) e (create_pm_execution_for_wo e j wo actor now)
  unfolding create_pm_execution_for_wo
  create-HasSingle j wo actor now =
      let P = HasSingle k m in
      Keeps-or_raise P e h _ _ _ (λ s _.
        Keeps-raise_if P e h _ _ _
          (λ fresh. kept (insert-IsSingle k m _ e.executions (ground (arith, fresh)) h)))

  accept-HasSingle :
      (j manager : ℕ) (t : Labels) (now : Clock)
      → Keeps (HasSingle k m) e (manager_approve_pm_execution e j manager t now)
  unfolding manager_approve_pm_execution
  accept-HasSingle j manager t now =
      let P = HasSingle k m in
      Keeps-or_raise P e h _ _ _ (λ x found. Keeps-or_raise P e h _ _ _ (λ wo _.
        Keeps-raise_if P e h _ _ _ (λ _. Keeps-raise_if P e h _ _ _ (λ _.
          Keeps-or_raise P e h _ _ _ (λ s _. Keeps-bind P e h _ _ (λ d _.
            Keeps-or_raise P e h _ _ _ (λ due _. kept (changed k m e h j x _ found refl refl))))))))

  refuse-HasSingle :
      (j manager : ℕ) (reason mark : Text) (t : Labels) (now : Clock)
      → Keeps (HasSingle k m) e (manager_reject_pm_execution e j manager reason mark t now)
  unfolding manager_reject_pm_execution
  refuse-HasSingle j manager reason mark t now =
      let P = HasSingle k m in
      Keeps-or_raise P e h _ _ _ (λ x found. Keeps-or_raise P e h _ _ _ (λ wo _.
        Keeps-raise_if P e h _ _ _ (λ _. Keeps-raise_if P e h _ _ _ (λ _.
          Keeps-raise_if P e h _ _ _
            (λ _. Keeps-bind P e h _ _ (λ d _. kept (changed k m e h j x _ found refl refl)))))))

  result-HasSingle : (c : EngineCall) → Keeps (HasSingle k m) e (result e c)
  unfolding result
  result-HasSingle (generates today force now) = kept (generate-HasSingle today force now.moment)
  result-HasSingle (opens j now) = open-HasSingle j now
  result-HasSingle (begins j technician note now) = start-HasSingle j technician note now
  result-HasSingle (completes j technician t now) = complete-HasSingle j technician t now
  result-HasSingle (returns j manager reason note now) = return-HasSingle j manager reason note now
  result-HasSingle (approves j manager note now) = approve-HasSingle j manager note now
  result-HasSingle (finishes j manager note now) = mark_done-HasSingle j manager note now
  result-HasSingle (assigns j technician now) = assign-HasSingle j technician now
  result-HasSingle (reassigns j technician reason now) = reassign-HasSingle j technician reason now
  result-HasSingle (expires j now) = expire-HasSingle j now
  result-HasSingle (spawns j wo actor now) = create-HasSingle j wo actor now
  result-HasSingle (accepts j manager t now) = accept-HasSingle j manager t now
  result-HasSingle (refuses j manager reason mark t now) =
      refuse-HasSingle j manager reason mark t now

-- Whatever calls of the preventive engine are made, a schedule has at most one execution at a due moment, if it
-- had at most one before.
pub run-HasSingle :
    (k : ℕ) (m : Moment) (e : Engine) (cs : List EngineCall)
    → HasSingle k m e
    → HasSingle k m (run e cs)
unfolding run step
run-HasSingle k m e [] h = h
run-HasSingle k m e (c ∷ cs) h =
    run-HasSingle k m (step e c) cs
      (kept_after (HasSingle k m) e (result e c) (result-HasSingle k m e h c))
