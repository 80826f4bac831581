-- ===== src/Procurement/Steps.antt =====
-- A history of calls on purchase orders, requests and shortages.
use spare_part.Procurement.Shortages.{raise_shortage_request}
use spare_part.Procurement.Decisions.{
  edit_shortage_decision, Split, create_shortage_decision, Review,
}
use spare_part.Warehouse.Tables.{Warehouse}
use spare_part.Base.{ℕ, List, [], ◌∷◌, Option}
use spare_part.Base.Int.{ℤ}
use spare_part.Base.Text.{Text}
use spare_part.Base.Result.{Result, ok, tables_or}
use spare_part.Base.Shut.{◌>>=◌}
use spare_part.Warehouse.Moves.{Supplier}
use spare_part.Procurement.Tables.{OrderStatus, Office}
use spare_part.Procurement.Receipt.{OfficeError, Delivery, purchase_order_receive}
use spare_part.Procurement.Orders.{
  purchase_order_close_short, purchase_order_cancel, purchase_order_edit,
}
use spare_part.Procurement.Creation.{purchase_order_create_from_pr, purchase_order_create, reorder}
use spare_part.Procurement.Requests.{auto_create_pr_for_shortage, create_pr_from_shortage}

-- The calls, each with the arguments of its view or service.
pub data OfficeCall : Type 0 where
  receives : ℕ → Delivery → ℕ → ℕ → OfficeCall
  closes_short : ℕ → ℕ → ℕ → OfficeCall
  cancels : ℕ → Text → ℕ → ℕ → OfficeCall
  edits : ℕ → Supplier → OrderStatus → Text → (ℕ → Option ℤ) → OfficeCall
  converts : ℕ → Text → Supplier → OrderStatus → Text → ℕ → OfficeCall
  creates : Text → Supplier → OrderStatus → Text → ℕ → List (ℕ × ℤ × ℤ) → List ℕ → OfficeCall
  reorders : ℕ → Text → Text → ℕ → OfficeCall
  raises : ℕ → ℕ → ℕ → OfficeCall
  decides : ℕ → Review → ℕ → ℕ → OfficeCall
  redecides : ℕ → Split → ℕ → ℕ → OfficeCall
  orders_missing : ℕ → ℕ → Text → Text → OfficeCall
  backorders : ℕ → ℕ → OfficeCall

-- The office with the warehouse that a call leaves.
abbrev pub with_warehouse : Office → Warehouse → Office
with_warehouse o w = record o { warehouse = w }

unfoldable pub result : Office → OfficeCall → Result OfficeError Office
result o (receives k t actor now) = purchase_order_receive o k t actor now
result o (closes_short k actor now) = purchase_order_close_short o k actor now
result o (cancels k reason actor now) = purchase_order_cancel o k reason actor now
result o (edits k supplier status notes price) = purchase_order_edit o k supplier status notes price
result o (converts q number supplier status notes by) =
    purchase_order_create_from_pr o q number supplier status notes by
result o (creates number supplier status notes by lines selected) =
    ok (purchase_order_create o number supplier status notes by lines selected)
result o (reorders k number notes by) = reorder o k number notes by
result o (raises wo part technician) =
    raise_shortage_request o.warehouse wo part technician >>= λ w. ok (with_warehouse o w)
result o (decides report t actor now) =
    create_shortage_decision o.warehouse report t actor now >>= λ w. ok (with_warehouse o w)
result o (redecides report q actor now) =
    edit_shortage_decision o.warehouse report q actor now >>= λ w. ok (with_warehouse o w)
result o (orders_missing report by note label) =
    auto_create_pr_for_shortage o.warehouse report by note label >>= λ w. ok (with_warehouse o w)
result o (backorders report by) =
    create_pr_from_shortage o.warehouse report by >>= λ w. ok (with_warehouse o w)

-- A call that raises is rolled back.
unfoldable pub step : Office → OfficeCall → Office
step o c = tables_or o (result o c)

unfoldable pub run : Office → List OfficeCall → Office
run o [] = o
run o (c ∷ cs) = run (step o c) cs
