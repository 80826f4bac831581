-- ===== src/Preventive/Tables.antt =====
-- maintenance/models.py: the schedules of preventive maintenance, their executions, and the fields of a work
-- order that the engine fills. The component of a schedule, which it only hands on to the orders,
-- the template and the snapshot of it are left out.
use spare_part.Base.{ℕ, Bool, true, false, List, Option, ◌==◌, ◌&&◌}
use spare_part.Base.Text.{Text}
use spare_part.Base.Rows.{Row}
use spare_part.Lifecycle.Tables.{Desk}
use spare_part.Preventive.Calendar.{Date, Moment, same_moment}

-- `PMSchedule.FrequencyType`; `unlisted` is a text that is no choice of it.
pub data FrequencyType : Type 0 where
  daily weekly monthly yearly unlisted : FrequencyType

pub record PmSchedule : Type 0 where
  pub pk : ℕ
  pub machine : ℕ
  pub frequency_type : FrequencyType
  pub interval : ℕ
  pub next_due_at : Moment
  pub last_completed_at : Option Moment
  pub grace_days : ℕ
  pub due_time : ℕ
  pub ends_at : Option Date
  pub is_active : Bool

-- `PMExecution.Status`
pub data ExecutionStatus : Type 0 where
  submitted approved rejected missed : ExecutionStatus

abbrev pub is_submitted : ExecutionStatus → Bool
is_submitted ExecutionStatus.submitted = true
is_submitted _ = false

abbrev pub is_approved : ExecutionStatus → Bool
is_approved ExecutionStatus.approved = true
is_approved _ = false

abbrev pub is_rejected : ExecutionStatus → Bool
is_rejected ExecutionStatus.rejected = true
is_rejected _ = false

abbrev pub is_missed : ExecutionStatus → Bool
is_missed ExecutionStatus.missed = true
is_missed _ = false

pub record PmExecution : Type 0 where
  pub pk : ℕ
  pub pm_schedule : ℕ
  pub work_order : Option ℕ
  pub scheduled_due_at : Moment
  pub execution_sequence : ℕ
  pub completed_by : Option ℕ
  pub completed_at : Option Moment
  pub approved_by : Option ℕ
  pub approved_at : Option Moment
  pub status : ExecutionStatus
  pub notes : Text
  pub assigned_technician : Option ℕ
  pub assigned_at : Option Moment
  pub reassignment_count : ℕ
  pub last_reassignment_reason : Text
  pub rejected_by : Option ℕ
  pub rejected_at : Option Moment
  pub rejection_reason : Text

-- The report of the technician: further fields of a work order, under its key.
pub record WorkReport : Type 0 where
  pub work_order : ℕ
  pub action_taken : Text
  pub root_cause : Text
  pub photo_count : ℕ

-- The time of a call, as a moment and as the number that the rows of work orders hold.
pub record Clock : Type 0 where
  pub moment : Moment
  pub stamp : ℕ

pub record Engine : Type 0 where
  pub desk : Desk
  pub reports : List WorkReport
  pub schedules : List PmSchedule
  pub executions : List PmExecution
  pub last_generate_run : Option Moment

instance abbrev pub schedule_row : Row PmSchedule
schedule_row = record { key = λ x. x.pk }

instance abbrev pub execution_row : Row PmExecution
execution_row = record { key = λ x. x.pk }

instance abbrev pub report_row : Row WorkReport
report_row = record { key = λ x. x.work_order }

-- Is this the execution of the schedule at that time?
abbrev pub is_occurrence : ℕ → Moment → PmExecution → Bool
is_occurrence schedule due x = x.pm_schedule == schedule && same_moment x.scheduled_due_at due
