-- ===== src/Health/Tests.antt =====
-- A few health cards.
use spare_part.Base.{◌≤◌, ◌≡◌, ◌≢◌, ◌↔◌, true, false, [], none, some, arith}
use spare_part.Base.Int.{pos}
use spare_part.Blockers.Tables.{
  LifecycleStatus, OperationalStatus, WorkOrder, Kind, BlockerStatus, WorkOrderBlocker,
}
use spare_part.Health.Card.{high_risk, Facts, risk_of, compute}
use spare_part.Health.Risk.{level, high_risk_noted, risk_of-monotone}

abbrev urgent : WorkOrder
urgent = record {
  pk = 4;
  lifecycle_status = LifecycleStatus.in_progress;
  operational_status = OperationalStatus.active;
  is_emergency = true;
  is_archived = false;
  blocker_system_version = 1;
}

abbrev missing_part : WorkOrderBlocker
missing_part = record {
  pk = 1;
  work_order = 4;
  kind = Kind.part;
  status = BlockerStatus.opened;
  external_ref = none;
  external_label = [];
  related_ero = none;
  source_work_order = none;
  note = [];
  pause_reason = [];
  opened_by = none;
  resolved_at = none;
  resolved_by = none;
  resolution_note = [];
  cancelled_at = none;
  cancelled_by = none;
  cancel_reason = [];
}

high_risk_noted_example :
    ((compute urgent none (some (pos 3)) [] none).risk ≡ high_risk)
    ↔ ((compute urgent none (some (pos 3)) [] none).notes ≢ [])
high_risk_noted_example = high_risk_noted urgent none (some (pos 3)) [] none

abbrev fresh : Facts
fresh = record {
  is_emergency = false;
  is_critical = false;
  waiting_days = 8;
  open_blockers_count = 0;
  total_cost = pos 0;
}

risk_of-monotone_example :
    level (risk_of fresh) ≤ level (risk_of (record fresh { open_blockers_count = 3 }))
risk_of-monotone_example =
    risk_of-monotone fresh (record fresh { open_blockers_count = 3 }) (λ e. e) (λ e. e)
      (omega arith) (omega arith) (omega arith)
