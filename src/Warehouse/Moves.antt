-- ===== src/Warehouse/Moves.antt =====
-- inventory/services.py: `stock_in`, `consumable_use` and `issue_consumable`. A row that the source
-- is handed is given by its key here. Texts that are formatted for display (the note of a movement, the memo
-- of a cost) are arguments; the JSON reference of a movement and the audit rows are left out. Each call is
-- one transaction (that of its view for `issue_consumable`), rolled back by an exception; where the source
-- returns `False` with a message, nothing was written yet, so that it ends as an exception does.
use spare_part.Base.{
  ◌+◌, ℕ, Bool, true, false, not, ◌&&◌, List, [], ◌∷◌, Option, none, some, ◌==◌, if◌then◌else◌, ltb,
  leb, insert_last, find_first, is_none,
}
use spare_part.Base.Int.{ℤ, pos, pos_part, ◌+ℤ◌, ◌-ℤ◌, ◌*ℤ◌, ltb_ℤ, leb_ℤ}
use spare_part.Base.Text.{Text, is_empty}
use spare_part.Base.Rows.{get, save, next_pk}
use spare_part.Base.Result.{Result, ok, err}
use spare_part.Base.Shut.{◌>>=◌, ◌>>◌, raise_if, or_raise}
use spare_part.Stock.Tables.{
  SparePart, part_row, Inventory, inventory_row, MovementType, StockMovement, is_stock_in,
  stock_movement_row,
}
use spare_part.Stock.Reservations.{is_stock_of, get_or_create}
use spare_part.Ledger.Service.{LedgerError, quantize, or_else, is_consumable_use, post_consumable}
use spare_part.Blockers.Tables.{LifecycleStatus, WorkOrder}
use spare_part.Warehouse.Tables.{
  Warehouse, depot, books, with_books, ConsumableAssignment, consumable_assignment_row,
  self_service, supervisor_issue,
}

pub record Captions : Type 0 where
  pub movement_note : Text
  pub memo : Text

-- The messages of a return of `False`.
pub data Refusal : Type 0 where
  no_default_site not_positive not_consumable not_self_service recent_duplicate : Refusal
  cannot_exceed_stock order_closed already_issued out_of_stock : Refusal

-- `does_not_exist` is Django's, of a row that is missing; `duplicate_report` and `duplicate_line` are the
-- database's, of the constraints `unique_pending_shortage_per_source_part` and `unique_active_pil_per_wo_part`.
pub data WarehouseError : Type 0 where
  does_not_exist no_site duplicate_stock_in quantity_not_positive order_is_closed : WarehouseError
  duplicate_report duplicate_line not_pending reason_required not_cancellable issued_already :
      WarehouseError
  reason_too_short invalid_decision not_emergency note_too_short cannot_issue : WarehouseError
  not_approved nothing_in_stock not_enough_stock invalid_transition : WarehouseError
  not_in_fulfillment no_approval not_all_issued : WarehouseError
  refused : Refusal → WarehouseError
  ledger_failed : LedgerError → WarehouseError

abbrev pub of_ledger {ℓ} : {A : Type ℓ} → Result LedgerError A → Result WarehouseError A
of_ledger (ok a) = ok a
of_ledger (err e) = err (ledger_failed e)

-- `site or _get_default_site()`
abbrev pub site_or_default : Warehouse → Option ℕ → Option ℕ
site_or_default w none = w.default_site
site_or_default w (some s) = some s

abbrev pub same_text : Text → Text → Bool
same_text [] [] = true
same_text (a ∷ s) (b ∷ t) = a == b && same_text s t
same_text _ _ = false

-- A stock row gets a new quantity, and the movement of it is recorded.
unfoldable pub move_stock : Warehouse → List Inventory → Inventory → ℤ → StockMovement → Warehouse
move_stock w rows inv after m = record w {
  inventories = save (record inv { quantity_available = after }) rows;
  stock_movements = insert_last m w.stock_movements;
}

-- `StockMovement` rows of the last seconds.
abbrev pub is_recent_stock_in : ℕ → ℕ → Text → ℕ → StockMovement → Bool
is_recent_stock_in part by invoice now m =
    m.part == part
    && is_stock_in m.movement_type
    && m.performed_by == by
    && same_text m.invoice_ref invoice
    && leb now (m.created_at + 10)

abbrev pub is_recent_use : ℕ → ℕ → ℕ → StockMovement → Bool
is_recent_use part by now m =
    m.part == part
    && is_consumable_use m.movement_type
    && m.performed_by == by
    && leb now (m.created_at + 5)

-- The running average after `qty` more units at the cost `c`.
abbrev pub averaged : SparePart → ℤ → ℤ → ℤ → SparePart
averaged p before qty c =
    if ltb_ℤ (pos 0) (before +ℤ qty)
    then record p {
      avg_cost =
          some (
            quantize (or_else p.avg_cost (pos 0) *ℤ before +ℤ c *ℤ qty) (pos_part (before +ℤ qty)));
    }
    else p

abbrev pub costed : SparePart → ℤ → ℤ → Option ℤ → SparePart
costed p before qty none = p
costed p before qty (some c) =
    if ltb_ℤ (pos 0) c then record (averaged p before qty c) { last_purchase_cost = some c } else p

-- A supplier as its key and its name.
abbrev pub Supplier : Type 0
Supplier = ℕ × Text

abbrev pub with_supplier : SparePart → Option Supplier → SparePart
with_supplier p none = p
with_supplier p (some (k, name)) =
    if is_none p.supplier then record p { supplier = some k; supplier_name = name } else p

-- `supplier_name`, from the supplier where it is blank.
abbrev pub supplier_text : Option Supplier → Text → Text
supplier_text none name = name
supplier_text (some (k, own)) name = if is_empty name then own else name

abbrev pub supplier_key : Option Supplier → Option ℕ
supplier_key none = none
supplier_key (some (k, own)) = some k

unfoldable pub stock_in :
    Warehouse
    → ℕ
    → ℤ
    → ℕ
    → Option Supplier
    → Text
    → Option ℤ
    → Text
    → Text
    → Option ℕ
    → ℕ
    → Result WarehouseError Warehouse
stock_in w part quantity performed_by supplier supplier_name unit_cost invoice_ref note site now =
    do
      p ← or_raise (get part w.parts) does_not_exist
      s ← or_raise (site_or_default w site) no_site
      raise_if
          (not (
            is_none (
              find_first (is_recent_stock_in part performed_by invoice_ref now) w.stock_movements)))
          duplicate_stock_in
      let (d, inv) = get_or_create part s (depot w)
      let before = inv.quantity_available
      ok (
          move_stock
            (record w {
              parts = save (with_supplier (costed p before quantity unit_cost) supplier) w.parts;
            })
            d.inventories inv (before +ℤ quantity)
            (record {
              pk = next_pk w.stock_movements;
              part = part;
              movement_type = MovementType.stock_in;
              quantity = quantity;
              quantity_before = some before;
              quantity_after = some (before +ℤ quantity);
              work_order = none;
              site = some s;
              performed_by = performed_by;
              supplier = supplier_key supplier;
              supplier_name = supplier_text supplier supplier_name;
              unit_cost = unit_cost;
              invoice_ref = invoice_ref;
              note = note;
              created_at = now;
            }))

-- `Machine.objects.get(pk=machine_id)`, none where there is no such machine.
abbrev pub known_machine : List ℕ → Option ℕ → Option ℕ
known_machine machines none = none
known_machine machines (some k) = find_first (λ m. m == k) machines

-- The lifecycle stages in which an order takes the cost of consumables.
abbrev pub is_under_way : LifecycleStatus → Bool
is_under_way LifecycleStatus.in_progress = true
is_under_way LifecycleStatus.assigned = true
is_under_way LifecycleStatus.pending_review = true
is_under_way _ = false

abbrev pub same_machine : ℕ → Option ℕ → Bool
same_machine k none = false
same_machine k (some j) = j == k

-- The one of the highest key among the orders of the machine that are under way.
abbrev pub active_order : (ℕ → Option ℕ) → ℕ → List WorkOrder → Option ℕ
active_order machine_of machine [] = none
active_order machine_of machine (o ∷ os) =
    let rest = active_order machine_of machine os in
    if same_machine machine (machine_of o.pk)
      && is_under_way o.lifecycle_status
      && not o.is_archived
    then (elim rest [ none ↦ some o.pk | some k ↦ if ltb k o.pk then some o.pk else some k ])
    else rest

abbrev pub active_order_on : Warehouse → Option ℕ → Option ℕ
active_order_on w none = none
active_order_on w (some machine) = active_order w.machine_of machine w.board.orders

-- The movement of a consumable out of the row `inv`.
abbrev pub use_movement :
    Warehouse → Inventory → ℤ → ℕ → Option ℕ → Option ℤ → Captions → ℕ → StockMovement
use_movement w inv quantity by work_order unit_cost t now = record {
  pk = next_pk w.stock_movements;
  part = inv.part;
  movement_type = MovementType.consumable_use;
  quantity = quantity;
  quantity_before = some inv.quantity_available;
  quantity_after = some (inv.quantity_available -ℤ quantity);
  work_order = work_order;
  site = some inv.site;
  performed_by = by;
  supplier = none;
  supplier_name = [];
  unit_cost = unit_cost;
  invoice_ref = [];
  note = t.movement_note;
  created_at = now;
}

-- The deduction, its movement and the record of who took the units.
unfoldable pub hand_out : Warehouse → Inventory → StockMovement → ConsumableAssignment → Warehouse
hand_out w inv m a =
    move_stock (record w { consumable_assignments = insert_last a w.consumable_assignments })
      w.inventories inv (inv.quantity_available -ℤ m.quantity) m

-- The posting of the movement, the last write of both services.
unfoldable pub cost_consumable : Warehouse → ℕ → ℕ → Text → ℕ → Result WarehouseError Warehouse
cost_consumable w movement actor memo now = do
  (b, _) ← of_ledger (post_consumable (books w) movement actor memo now)
  ok (with_books w b)

-- The order of the machine is written to the movement after its creation, which is one write here.
unfoldable pub consumable_use :
    Warehouse
    → ℕ
    → ℤ
    → ℕ
    → Text
    → Option ℕ
    → Option ℕ
    → Captions
    → ℕ
    → Result WarehouseError Warehouse
consumable_use w part quantity consumed_by note machine_id site t now = do
  p ← or_raise (get part w.parts) does_not_exist
  raise_if (not p.is_consumable) (refused not_consumable)
  raise_if (not p.allow_operator_consumption) (refused not_self_service)
  raise_if (leb_ℤ quantity (pos 0)) (refused not_positive)
  s ← or_raise (site_or_default w site) (refused no_default_site)
  raise_if (not (is_none (find_first (is_recent_use part consumed_by now) w.stock_movements)))
      (refused recent_duplicate)
  inv ← or_raise (find_first (is_stock_of part s) w.inventories) does_not_exist
  raise_if (ltb_ℤ inv.quantity_available quantity) (refused cannot_exceed_stock)
  let machine = known_machine w.machines machine_id
  let cost = or_else p.last_purchase_cost (or_else p.avg_cost (pos 0))
  let m = use_movement w inv quantity consumed_by (active_order_on w machine) (some cost) t now
  cost_consumable
      (hand_out w inv m (record {
        pk = next_pk w.consumable_assignments;
        part = part;
        consumed_by = consumed_by;
        issued_by = consumed_by;
        quantity = quantity;
        source = self_service;
        approved = true;
        site = s;
        machine = machine;
        note = note;
        stock_movement = some m.pk;
      }))
      m.pk consumed_by t.memo now

unfoldable pub issue_consumable :
    Warehouse
    → ℕ
    → ℤ
    → ℕ
    → ℕ
    → Text
    → Option ℕ
    → Option ℕ
    → Captions
    → ℕ
    → Result WarehouseError Warehouse
issue_consumable w part quantity consumed_by issued_by note machine_id site t now = do
  p ← or_raise (get part w.parts) does_not_exist
  raise_if (not p.is_consumable) (refused not_consumable)
  raise_if (leb_ℤ quantity (pos 0)) (refused not_positive)
  s ← or_raise (site_or_default w site) (refused no_default_site)
  inv ← or_raise (find_first (is_stock_of part s) w.inventories) does_not_exist
  raise_if (ltb_ℤ inv.quantity_available quantity) (refused cannot_exceed_stock)
  let m = use_movement w inv quantity issued_by none none t now
  cost_consumable
      (hand_out w inv m (record {
        pk = next_pk w.consumable_assignments;
        part = part;
        consumed_by = consumed_by;
        issued_by = issued_by;
        quantity = quantity;
        source = supervisor_issue;
        approved = true;
        site = s;
        machine = known_machine w.machines machine_id;
        note = note;
        stock_movement = some m.pk;
      }))
      m.pk issued_by t.memo now
