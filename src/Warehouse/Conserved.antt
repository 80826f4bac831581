-- ===== src/Warehouse/Conserved.antt =====
-- Every service of the warehouse keeps the stock rows in step with the journal of movements.
use spare_part.Base.Keeps.{kept, Keeps-raise_if, Keeps-or_raise, Keeps-bind, Keeps}
use spare_part.Warehouse.Direct.{issue_movement, IssueOrder, record_issue, issue_part_to_work_order}
use spare_part.Warehouse.Keeps.{cost_line_ok, deduct_and_record_issue_ok}
use spare_part.Stock.Reservations.{get_or_create, is_stock_of}
use spare_part.Ledger.Service.{post_consumable}
use spare_part.Warehouse.Moves.{
  WarehouseError, issue_consumable, of_ledger, Supplier, move_stock, Captions, consumable_use,
  cost_consumable, stock_in, hand_out,
}
use spare_part.Base.{true, sym, ℕ, ◌≡◌, refl, List, Option, some, arith, find_first}
use spare_part.Base.Int.{ℤ, ◌+ℤ◌}
use spare_part.Base.Text.{Text}
use spare_part.Base.Rows.{get}
use spare_part.Base.Result.{ok}
use spare_part.Stock.Tables.{takes_units, SparePart, Inventory, inventory_row, StockMovement}
use spare_part.Warehouse.Tables.{depot, ConsumableAssignment, Warehouse, books, with_books}
use spare_part.Warehouse.Stocktaking.{
  moved, IsBooked, take-IsBooked, get_or_create-IsBooked, move_stock-IsBooked,
}

abbrev pub IsReconciled : ℕ → ℕ → ℤ → Warehouse → Type 0
IsReconciled part site base w = IsBooked part site base w.inventories w.stock_movements

pub cost_consumable-IsReconciled :
    (part site : ℕ) (base : ℤ) (w v : Warehouse) (movement actor : ℕ) (memo : Text) (now : ℕ)
    → IsReconciled part site base w
    → IsReconciled part site base v
    → Keeps (IsReconciled part site base) w (cost_consumable v movement actor memo now)
unfolding cost_consumable
cost_consumable-IsReconciled part site base w v movement actor memo now h k =
    Keeps-bind (IsReconciled part site base) w h
      (of_ledger (post_consumable (books v) movement actor memo now)) (λ x. ok (with_books v x.0))
      (λ a e. kept k)

-- A row that is found or made, and receives units.
pub receive-IsReconciled :
    (part site : ℕ) (base : ℤ) (w v : Warehouse) (rows : List Inventory) (inv : Inventory)
    (after : ℤ) (m : StockMovement)
    → v.stock_movements ≡ w.stock_movements
    → IsBooked part site base rows w.stock_movements
    → get inv.pk rows ≡ some inv
    → m.part ≡ inv.part
    → m.site ≡ some inv.site
    → after ≡ inv.quantity_available +ℤ moved inv.part inv.site m
    → Keeps {E = WarehouseError}
        (IsReconciled part site base)
        w
        (ok (move_stock v rows inv after m))
receive-IsReconciled part site base w v rows inv after m same h found ep es ea =
    kept (move_stock-IsBooked part site base v rows inv after m found ep es ea (rw same h))

pub hand_out-IsReconciled :
    (part site : ℕ) (base : ℤ) (w : Warehouse) (p s : ℕ) (inv : Inventory) (m : StockMovement)
    (a : ConsumableAssignment) (movement actor : ℕ) (memo : Text) (now : ℕ)
    → find_first (is_stock_of p s) w.inventories ≡ some inv
    → m.part ≡ inv.part
    → m.site ≡ some inv.site
    → takes_units m.movement_type ≡ true
    → IsReconciled part site base w
    → Keeps
        (IsReconciled part site base)
        w
        (cost_consumable (hand_out w inv m a) movement actor memo now)
unfolding hand_out move_stock
hand_out-IsReconciled part site base w p s inv m a movement actor memo now found ep es out h =
    cost_consumable-IsReconciled part site base w (hand_out w inv m a) movement actor memo now h
      (take-IsBooked part site base w (is_stock_of p s) inv m found ep es out h)

pub consumable_use-IsReconciled :
    (part site : ℕ) (base : ℤ) (w : Warehouse) (p : ℕ) (q : ℤ) (by : ℕ) (note : Text)
    (machine at : Option ℕ) (t : Captions) (now : ℕ)
    → IsReconciled part site base w
    → Keeps (IsReconciled part site base) w (consumable_use w p q by note machine at t now)
unfolding consumable_use
consumable_use-IsReconciled part site base w p q by note machine at t now h =
    let P = IsReconciled part site base in
    Keeps-or_raise P w h _ _ _ (λ _ _. Keeps-raise_if P w h _ _ _ (λ _.
      Keeps-raise_if P w h _ _ _ (λ _. Keeps-raise_if P w h _ _ _ (λ _.
        Keeps-or_raise P w h _ _ _ (λ s _. Keeps-raise_if P w h _ _ _ (λ _.
          Keeps-or_raise P w h _ _ _ (λ inv found. Keeps-raise_if P w h _ _ _ (λ _.
            hand_out-IsReconciled part site base w p s inv _ _ _ _ _ _ found refl refl refl
              h))))))))

pub issue_consumable-IsReconciled :
    (part site : ℕ) (base : ℤ) (w : Warehouse) (p : ℕ) (q : ℤ) (to by : ℕ) (note : Text)
    (machine at : Option ℕ) (t : Captions) (now : ℕ)
    → IsReconciled part site base w
    → Keeps (IsReconciled part site base) w (issue_consumable w p q to by note machine at t now)
unfolding issue_consumable
issue_consumable-IsReconciled part site base w p q to by note machine at t now h =
    let P = IsReconciled part site base in
    Keeps-or_raise P w h _ _ _ (λ _ _. Keeps-raise_if P w h _ _ _ (λ _.
      Keeps-raise_if P w h _ _ _ (λ _. Keeps-or_raise P w h _ _ _ (λ s _.
        Keeps-or_raise P w h _ _ _ (λ inv found. Keeps-raise_if P w h _ _ _ (λ _.
          hand_out-IsReconciled part site base w p s inv _ _ _ _ _ _ found refl refl refl h))))))

pub stock_in-IsReconciled :
    (part site : ℕ) (base : ℤ) (w : Warehouse) (p : ℕ) (q : ℤ) (by : ℕ) (supplier : Option Supplier)
    (name : Text) (cost : Option ℤ) (invoice note : Text) (at : Option ℕ) (now : ℕ)
    → IsReconciled part site base w
    → Keeps
        (IsReconciled part site base)
        w
        (stock_in w p q by supplier name cost invoice note at now)
unfolding stock_in
stock_in-IsReconciled part site base w p q by supplier name cost invoice note at now h =
    let P = IsReconciled part site base in
    Keeps-or_raise P w h _ _ _ (λ _ _. Keeps-or_raise P w h _ _ _ (λ s _.
      Keeps-raise_if P w h _ _ _ (λ _.
        let r = get_or_create p s (depot w) in
        let (booked, found, ep, es) = get_or_create-IsBooked part site base p s w h in
        receive-IsReconciled part site base w _ r.0.inventories r.1 _ _ refl booked found (sym ep)
          (rw es refl) (ground (arith, ep, es)))))

pub record_issue-IsReconciled :
    (part site : ℕ) (base : ℤ) (w : Warehouse) (s : ℕ) (p : SparePart) (inv : Inventory)
    (o : IssueOrder) (note : Text) (now : ℕ)
    → find_first (is_stock_of o.part s) w.inventories ≡ some inv
    → IsReconciled part site base w
    → IsReconciled part site base (record_issue w p inv o note now)
unfolding record_issue move_stock
record_issue-IsReconciled part site base w s p inv o note now found h =
    take-IsBooked part site base w (is_stock_of o.part s) inv
      (issue_movement w inv o.quantity o.wo o.issued_by o.supplier_name o.unit_cost o.invoice_ref
        note now)
      found refl refl refl h

pub issue_part_to_work_order-IsReconciled :
    (part site : ℕ) (base : ℤ) (w : Warehouse) (o : IssueOrder) (at : Option ℕ) (t : Captions)
    (now : ℕ)
    → IsReconciled part site base w
    → Keeps (IsReconciled part site base) w (issue_part_to_work_order w o at t now)
unfolding issue_part_to_work_order
issue_part_to_work_order-IsReconciled part site base w o at t now h =
    let P = IsReconciled part site base in
    Keeps-or_raise P w h _ _ _ (λ s _. Keeps-raise_if P w h _ _ _ (λ _.
      Keeps-or_raise P w h _ _ _ (λ _ _. Keeps-raise_if P w h _ _ _ (λ _.
        Keeps-raise_if P w h _ _ _ (λ _. Keeps-or_raise P w h _ _ _ (λ inv _.
          Keeps-raise_if P w h _ _ _ (λ _. Keeps-bind P w h _ _ (λ r e. Keeps-bind P w h _ _ (λ u f.
            let (_, p, row, found, er) =
              deduct_and_record_issue_ok w _ (some s) t.movement_note now r e in
            let (b, eu) = cost_line_ok r.0 u r.1 o.issued_by t.memo now f in
            kept (
              rw (eu, er)
                (record_issue-IsReconciled part site base w _ p row _ t.movement_note now found
                  h)))))))))))
