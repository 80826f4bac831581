-- ===== src/Preventive/Steps.antt =====
-- A history of calls of maintenance/preventive_engine and of the reviews of maintenance/services.py.
use spare_part.Base.{ℕ, Bool, List, [], ◌∷◌, Option}
use spare_part.Base.Text.{Text}
use spare_part.Base.Rows.{get}
use spare_part.Base.Result.{Result, ok, tables_or}
use spare_part.Base.Shut.{◌>>=◌, or_raise}
use spare_part.Lifecycle.Technician.{Labels}
use spare_part.Preventive.Calendar.{Date}
use spare_part.Preventive.Tables.{Clock, Engine, schedule_row, execution_row}
use spare_part.Preventive.Scheduling.{generate_today, mark_overdue}
use spare_part.Preventive.Occurrence.{
  EngineError, does_not_exist, Submission, get_or_create_for_today, start, complete,
  return_to_technician, approve, mark_done,
}
use spare_part.Preventive.Assignment.{assign, reassign}
use spare_part.Preventive.Review.{
  create_pm_execution_for_wo, manager_approve_pm_execution, manager_reject_pm_execution,
}

-- The calls, each with the arguments of its service.
pub data EngineCall : Type 0 where
  generates : Date → Bool → Clock → EngineCall
  opens : ℕ → Clock → EngineCall
  begins : ℕ → ℕ → Text → Clock → EngineCall
  completes : ℕ → ℕ → Submission → Clock → EngineCall
  returns : ℕ → ℕ → Text → Text → Clock → EngineCall
  approves : ℕ → ℕ → Text → Clock → EngineCall
  finishes : ℕ → ℕ → Text → Clock → EngineCall
  assigns : ℕ → ℕ → Clock → EngineCall
  reassigns : ℕ → ℕ → Text → Clock → EngineCall
  expires : ℕ → Clock → EngineCall
  spawns : ℕ → ℕ → Option ℕ → Clock → EngineCall
  accepts : ℕ → ℕ → Labels → Clock → EngineCall
  refuses : ℕ → ℕ → Text → Text → Labels → Clock → EngineCall

-- `get_or_create_for_today` of a schedule that was just read.
unfoldable pub open_today : Engine → ℕ → Clock → Result EngineError Engine
open_today e k now = do
  s ← or_raise (get k e.schedules) does_not_exist
  ok (get_or_create_for_today e s now)

-- `mark_overdue` of an execution that was just read.
unfoldable pub expire : Engine → ℕ → Clock → Result EngineError Engine
expire e k now = do
  x ← or_raise (get k e.executions) does_not_exist
  s ← or_raise (get x.pm_schedule e.schedules) does_not_exist
  ok (mark_overdue e s x now.moment)

unfoldable pub result : Engine → EngineCall → Result EngineError Engine
result e (generates today force now) = ok (generate_today e today force now.moment).0
result e (opens k now) = open_today e k now
result e (begins k technician note now) = start e k technician note now
result e (completes k technician t now) = complete e k technician t now
result e (returns k manager reason note now) = return_to_technician e k manager reason note now
result e (approves k manager note now) = approve e k manager note now
result e (finishes k manager note now) = mark_done e k manager note now
result e (assigns k technician now) = assign e k technician now
result e (reassigns k technician reason now) = reassign e k technician reason now
result e (expires k now) = expire e k now
result e (spawns k wo actor now) = create_pm_execution_for_wo e k wo actor now
result e (accepts k manager t now) = manager_approve_pm_execution e k manager t now
result e (refuses k manager reason mark t now) =
    manager_reject_pm_execution e k manager reason mark t now

-- A call that raises is rolled back.
unfoldable pub step : Engine → EngineCall → Engine
step e c = tables_or e (result e c)

unfoldable pub run : Engine → List EngineCall → Engine
run e [] = e
run e (c ∷ cs) = run (step e c) cs
