-- ===== src/Procurement/Tests.antt =====
-- A small purchasing office, and the theorems about procurement/views.py at it.
use spare_part.Procurement.Caps.{capped_bound}
use spare_part.Procurement.Lines.{capped, arrived}
use spare_part.Blockers.Tables.{ShortageStatus}
use spare_part.Procurement.Books.{decide_once, IsDecided}
use spare_part.Procurement.Requests.{auto_create_pr_for_shortage}
use spare_part.Base.Result.{err, tables_or}
use spare_part.Procurement.Decisions.{
  decision_of, approve_related, commit_related, carry_out, Review, create_shortage_decision,
}
use spare_part.Procurement.Receipt.{not_under_review}
use spare_part.Base.Shut.{raise_if, or_raise, ◌>>=◌, ◌>>◌}
use spare_part.Procurement.Locked.{run-IsFixed}
use spare_part.Procurement.History.{run-IsStocked}
use spare_part.Procurement.Stocked.{IsStocked}
use spare_part.Warehouse.Tests.{depot_one, captions}
use spare_part.Base.{arith, false, refl, true, ◌≡◌, none, ◌∷◌, some, [], List}
use spare_part.Base.Int.{◌≤ℤ◌, pos, ◌-ℤ◌, ◌+ℤ◌}
use spare_part.Base.Rows.{get}
use spare_part.Procurement.Receipt.{Delivery}
use spare_part.Warehouse.Tables.{PartShortageReport, Warehouse, RequestStatus, PurchaseRequest}
use spare_part.Procurement.Steps.{redecides, raises, run, OfficeCall, edits, receives, reorders}
use spare_part.Procurement.Tables.{
  OrderStatus, PurchaseOrder, PurchaseOrderItem, Office, purchase_order_row,
}

-- Five units for a work order are on their way.
abbrev sent_order : PurchaseOrder
sent_order = record {
  pk = 4;
  po_number = [];
  supplier = (2, []);
  status = OrderStatus.sent;
  cancellation_reason = [];
  notes = [];
  supplier_invoice_number = [];
  received_at = none;
  created_by = 1;
  reorder_source = none;
}

abbrev old_order : PurchaseOrder
old_order = record sent_order { pk = 3; status = OrderStatus.closed_short }

abbrev filters : PurchaseOrderItem
filters = record {
  pk = 8;
  purchase_order = 4;
  part = 7;
  ordered_qty = pos 5000;
  received_qty = pos 0;
  negotiated_unit_price = pos 60000;
  actual_unit_price = none;
  total_price = pos 300000;
  damaged_qty = pos 0;
  rejected_qty = pos 0;
  backordered_qty = pos 0;
}

abbrev request : PurchaseRequest
request = record {
  pk = 6;
  part = 7;
  work_order = some 11;
  quantity = pos 5000;
  unit_price = none;
  purchase_order = some 4;
  created_by = 1;
  source_shortage_report = none;
  status = RequestStatus.converted_to_po;
}

abbrev office : Office
office = record {
  warehouse = record depot_one { purchase_requests = request ∷ [] };
  orders = old_order ∷ sent_order ∷ [];
  items = filters ∷ [];
}

-- Six units arrive, a third of them damaged, for the five that were ordered.
abbrev delivery : Delivery
delivery = record {
  form =
      λ _. record { good = pos 4000; damaged = pos 2000; rejected = pos 0; actual_price = pos 0 };
  supplier_invoice_ref = [];
  note = [];
  captions = captions;
  label = [];
  is_auto_issue = true;
}

-- Three units are missing for the order: one is to come out of the stock, two are to be bought.
abbrev missing_units : PartShortageReport
missing_units = record {
  pk = 5;
  status = ShortageStatus.pending_review;
  work_order = 11;
  part = 7;
  qty_requested = pos 3000;
  qty_issued = pos 0;
  available_qty_snapshot = pos 1000;
  reserved_qty_snapshot = pos 0;
  usable_qty_snapshot = pos 1000;
  shortage_qty = pos 2000;
  is_emergency = false;
  reported_by = 2;
}

abbrev reporting : Warehouse
reporting = record depot_one { shortage_reports = missing_units ∷ [] }

abbrev review : Review
review = record {
  is_approve = true;
  split = record {
    approved_issue_qty = pos 1000;
    approved_procurement_qty = pos 2000;
    rejected_qty = pos 0;
  };
  decision_note = [];
  rejection_reason = [];
  label = [];
}

abbrev decided : Warehouse
decided = tables_or reporting (create_shortage_decision reporting 5 review 1 60)

-- A receipt, a second one, calls on the order that is closed, and on shortages.
abbrev calls : List OfficeCall
calls =
    receives 4 delivery 2 50
    ∷ receives 4 delivery 2 90
    ∷ edits 3 (2, []) OrderStatus.draft [] (λ _. none)
    ∷ receives 3 delivery 2 95
    ∷ reorders 3 [] [] 2
    ∷ raises 11 7 2
    ∷ redecides 5 review.split 1 96
    ∷ []

run-IsStocked_example : IsStocked 7 1 (pos 10000) (run office calls)
unfolding ◌+ℤ◌ ◌-ℤ◌
run-IsStocked_example = run-IsStocked 7 1 (pos 10000) office calls (refl, refl)

run-IsFixed_example : get 3 (run office calls).orders ≡ some old_order
run-IsFixed_example = run-IsFixed 3 old_order office calls refl refl

decide_once_example :
    IsDecided 5 missing_units (decision_of 5 true review.split) decided
    × (create_shortage_decision decided 5 review 1 61 ≡ err not_under_review)
unfolding create_shortage_decision carry_out commit_related auto_create_pr_for_shortage
    approve_related raise_if or_raise ◌>>=◌ ◌>>◌ ◌+ℤ◌
decide_once_example =
    decide_once reporting decided 5 missing_units review review 1 60 1 61 refl refl

capped_bound_example :
    arrived (
      capped
        (record { good = pos 4000; damaged = pos 2000; rejected = pos 0; actual_price = pos 0 })
        (pos 5000))
    ≤ℤ pos 5001
capped_bound_example = capped_bound 4000 2000 5000 (pos 0) (pos 0) (ground arith)
