-- ===== src/Blockers/Tables.antt =====
-- maintenance/models.py: work orders and their blockers, as far as the blocker services read and
-- write them. A time is a number, a foreign key the primary key of its target.
use spare_part.Base.{ℕ, Bool, true, false, Option, List}
use spare_part.Base.Int.{ℤ}
use spare_part.Base.Text.{Text}
use spare_part.Base.Rows.{Row}

-- `WorkOrder.LifecycleStatus`
pub data LifecycleStatus : Type 0 where
  draft assigned in_progress pending_review closed cancelled : LifecycleStatus

abbrev pub is_closed_stage : LifecycleStatus → Bool
is_closed_stage LifecycleStatus.closed = true
is_closed_stage _ = false

-- `WorkOrder.OperationalStatus`
pub data OperationalStatus : Type 0 where
  active pending_parts waiting_vendor paused : OperationalStatus

abbrev pub same_status : OperationalStatus → OperationalStatus → Bool
same_status OperationalStatus.active OperationalStatus.active = true
same_status OperationalStatus.pending_parts OperationalStatus.pending_parts = true
same_status OperationalStatus.waiting_vendor OperationalStatus.waiting_vendor = true
same_status OperationalStatus.paused OperationalStatus.paused = true
same_status _ _ = false

pub record WorkOrder : Type 0 where
  pub pk : ℕ
  pub lifecycle_status : LifecycleStatus
  pub operational_status : OperationalStatus
  pub is_emergency : Bool
  pub is_archived : Bool
  pub blocker_system_version : ℕ

-- `WorkOrderBlocker.Kind`
pub data Kind : Type 0 where
  part shortage vendor_repair operational : Kind

-- `kind in _PART_SHORTAGE_KINDS`
abbrev pub is_part_or_shortage : Kind → Bool
is_part_or_shortage Kind.part = true
is_part_or_shortage Kind.shortage = true
is_part_or_shortage _ = false

abbrev pub is_part : Kind → Bool
is_part Kind.part = true
is_part _ = false

abbrev pub is_shortage : Kind → Bool
is_shortage Kind.shortage = true
is_shortage _ = false

abbrev pub is_vendor_repair : Kind → Bool
is_vendor_repair Kind.vendor_repair = true
is_vendor_repair _ = false

abbrev pub is_operational : Kind → Bool
is_operational Kind.operational = true
is_operational _ = false

-- `WorkOrderBlocker.Status`; `opened` is `OPEN`.
pub data BlockerStatus : Type 0 where
  opened resolved cancelled : BlockerStatus

abbrev pub is_opened : BlockerStatus → Bool
is_opened BlockerStatus.opened = true
is_opened _ = false

abbrev pub is_cancelled_blocker : BlockerStatus → Bool
is_cancelled_blocker BlockerStatus.cancelled = true
is_cancelled_blocker _ = false

-- The content type and the primary key of the entity that a blocker waits for.
abbrev pub Reference : Type 0
Reference = ℕ × ℕ

pub record WorkOrderBlocker : Type 0 where
  pub pk : ℕ
  pub work_order : ℕ
  pub kind : Kind
  pub status : BlockerStatus
  pub external_ref : Option Reference
  pub external_label : Text
  pub related_ero : Option ℕ
  pub source_work_order : Option ℕ
  pub note : Text
  pub pause_reason : Text
  pub opened_by : Option ℕ
  pub resolved_at : Option ℕ
  pub resolved_by : Option ℕ
  pub resolution_note : Text
  pub cancelled_at : Option ℕ
  pub cancelled_by : Option ℕ
  pub cancel_reason : Text

-- `WorkOrderBlockerEvent.EventType`, those that the blocker services and the part requests write.
pub data EventType : Type 0 where
  blocker_created blocker_resolved blocker_cancelled part_approved : EventType
  emergency_review_approved emergency_review_exception emergency_review_investigate : EventType

-- The payload of an event.
pub data EventPayload : Type 0 where
  created : Kind → Reference → EventPayload
  paused_for : Text → Option ℕ → EventPayload
  noted : Text → EventPayload
  reasoned : Text → EventPayload
  approved_line : ℕ → ℤ → EventPayload
  reviewed_line : ℕ → Text → EventPayload

pub record WorkOrderBlockerEvent : Type 0 where
  pub blocker : ℕ
  pub event_type : EventType
  pub actor : Option ℕ
  pub payload : EventPayload

-- `PartIssueLine.Status` of inventory/models.py
pub data LineStatus : Type 0 where
  pending approved allocated issued rejected : LineStatus

-- `PartShortageReport.Status` of inventory/models.py
pub data ShortageStatus : Type 0 where
  pending_review approved in_fulfillment fulfilled blocked closed rejected : ShortageStatus

abbrev pub is_closed_report : ShortageStatus → Bool
is_closed_report ShortageStatus.closed = true
is_closed_report _ = false

abbrev pub is_pending_review : ShortageStatus → Bool
is_pending_review ShortageStatus.pending_review = true
is_pending_review _ = false

abbrev pub is_rejected_report : ShortageStatus → Bool
is_rejected_report ShortageStatus.rejected = true
is_rejected_report _ = false

-- An entity that a blocker may wait for, with what the blocker services read of it: a part line, a
-- shortage report (with `qty_issued` and the decision's `approved_issue_qty`, in thousandths), a
-- repair request or a repair order.
pub data External : Type 0 where
  part_issue_line : ℕ → LineStatus → External
  part_shortage_report : ℕ → ShortageStatus → Option ℤ → Option ℤ → External
  external_repair_request : ℕ → External
  external_repair_order : ℕ → External

-- Its content type and primary key.
abbrev pub reference : External → Reference
reference (part_issue_line k _) = (1, k)
reference (part_shortage_report k _ _ _) = (2, k)
reference (external_repair_request k) = (3, k)
reference (external_repair_order k) = (4, k)

pub record ExternalRepairRequest : Type 0 where
  pub pk : ℕ
  pub repair_order : Option ℕ

-- The tables that the services read and write.
pub record Board : Type 0 where
  pub orders : List WorkOrder
  pub blockers : List WorkOrderBlocker
  pub events : List WorkOrderBlockerEvent
  pub repair_requests : List ExternalRepairRequest

instance abbrev pub order_row : Row WorkOrder
order_row = record { key = λ x. x.pk }

instance abbrev pub blocker_row : Row WorkOrderBlocker
blocker_row = record { key = λ x. x.pk }
