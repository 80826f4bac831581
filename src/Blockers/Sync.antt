-- ===== src/Blockers/Sync.antt =====
-- `WorkOrderBlockerService.sync_from_external_event` of maintenance/services_blocker.py: what an
-- event of another component does to the blocker that waits for its entity.
use spare_part.Base.{
  ℕ, Bool, true, false, ◌&&◌, List, Option, none, some, ◌==◌, if◌then◌else◌, find_first,
}
use spare_part.Base.Int.{ℤ, pos, leb_ℤ}
use spare_part.Base.Text.{Text, codes}
use spare_part.Base.Result.{Result, ok, ◌>>=◌}
use spare_part.Blockers.Tables.{
  is_opened, Reference, WorkOrderBlocker, LineStatus, ShortageStatus, in_fulfillment, External,
  part_issue_line, part_shortage_report, external_repair_request, external_repair_order, reference,
  ExternalRepairRequest, Board,
}
use spare_part.Blockers.Status.{BlockerError}
use spare_part.Blockers.Service.{same_reference, resolve_blocker, cancel_blocker}

-- The values of `event_type`; `other_event` is any other text.
pub data SyncEvent : Type 0 where
  part_issued part_rejected shortage_fulfilled ero_returned ero_accepted : SyncEvent
  pr_cancelled po_cancelled po_closed_short other_event : SyncEvent

-- The entries of `payload` that are read.
pub record SyncPayload : Type 0 where
  pub note : Option Text
  pub reason : Option Text

abbrev pub text_or : Option Text → Text → Text
text_or none d = d
text_or (some t) d = t

abbrev pub quantity_or_zero : Option ℤ → ℤ
quantity_or_zero none = pos 0
quantity_or_zero (some q) = q

-- The request of an order: `ExternalRepairRequest.objects.filter(repair_order_id=pk).first()`.
abbrev pub request_of : ℕ → List ExternalRepairRequest → Option ExternalRepairRequest
request_of k requests =
    find_first (λ r. elim r.repair_order [ none ↦ false | some j ↦ j == k ]) requests

abbrev pub is_ero_event : SyncEvent → Bool
is_ero_event ero_returned = true
is_ero_event ero_accepted = true
is_ero_event _ = false

-- An event of a repair order is looked up under the request that the order came from.
abbrev pub sync_target : Board → SyncEvent → External → External
sync_target b event (external_repair_order k) =
    if is_ero_event event
    then (elim (request_of k b.repair_requests) [
      | none ↦ external_repair_order k
      | some r ↦ external_repair_request r.pk
    ])
    else external_repair_order k
sync_target b event x = x

-- What is done to the open blocker.
pub data Verdict : Type 0 where
  resolves : Text → Verdict
  cancels : Text → Verdict
  ignores : Verdict

abbrev pub is_issued : LineStatus → Bool
is_issued LineStatus.issued = true
is_issued _ = false

abbrev pub is_in_fulfillment : ShortageStatus → Bool
is_in_fulfillment in_fulfillment = true
is_in_fulfillment _ = false

-- `PART_ISSUED`: only of a part line, and only once that is issued.
abbrev pub part_issued_verdict : External → SyncPayload → Verdict
part_issued_verdict (part_issue_line k status) payload =
    if is_issued status
    then resolves (text_or payload.note (codes "Part fully issued"))
    else ignores
part_issued_verdict _ payload = ignores

-- `SHORTAGE_FULFILLED`: only of a report in fulfillment that has issued what was approved. No other
-- entity has the status `in_fulfillment`.
abbrev pub shortage_verdict : External → SyncPayload → Verdict
shortage_verdict (part_shortage_report k status qty_issued approved) payload =
    if is_in_fulfillment status && leb_ℤ (quantity_or_zero approved) (quantity_or_zero qty_issued)
    then resolves (text_or payload.note (codes "Shortage fulfilled"))
    else ignores
shortage_verdict _ payload = ignores

unfoldable pub verdict : SyncEvent → External → SyncPayload → Verdict
verdict part_issued x payload = part_issued_verdict x payload
verdict part_rejected x payload = cancels (text_or payload.reason (codes "Part request rejected"))
verdict shortage_fulfilled x payload = shortage_verdict x payload
verdict ero_accepted x payload = resolves (text_or payload.note (codes "Vendor repair accepted"))
verdict ero_returned x payload = resolves (text_or payload.note (codes "Vendor returned part"))
verdict pr_cancelled x payload =
    resolves (text_or payload.note (codes "Purchase request cancelled"))
verdict po_cancelled x payload =
    resolves (text_or payload.note (codes "Purchase order cancelled — no further procurement"))
verdict po_closed_short x payload =
    resolves
      (text_or payload.note (codes "Purchase order closed-short — remaining qty will not ship"))
verdict other_event x payload = ignores

-- An open blocker of any work order that waits for the entity.
abbrev pub awaits : Reference → WorkOrderBlocker → Bool
awaits ref r = is_opened r.status && same_reference ref r.external_ref

unfoldable pub apply_verdict :
    Verdict
    → Board
    → WorkOrderBlocker
    → Option ℕ
    → ℕ
    → Result BlockerError (Board × Option WorkOrderBlocker)
apply_verdict ignores b r actor now = ok (b, none)
apply_verdict (resolves note) b r actor now = do
  (q, row) ← resolve_blocker b r.pk note actor now
  ok (q, some row)
apply_verdict (cancels reason) b r actor now = do
  (q, row) ← cancel_blocker b r.pk reason actor now
  ok (q, some row)

unfoldable pub sync_from_external_event :
    Board
    → Option External
    → SyncEvent
    → Option ℕ
    → SyncPayload
    → ℕ
    → Result BlockerError (Board × Option WorkOrderBlocker)
sync_from_external_event b none event actor payload now = ok (b, none)
sync_from_external_event b (some x) event actor payload now =
    elim (find_first (awaits (reference (sync_target b event x))) b.blockers) [
      | none ↦ ok (b, none)
      | some r ↦ apply_verdict (verdict event (sync_target b event x) payload) b r actor now
    ]
