-- ===== src/Warehouse/Stocktaking.antt =====
-- The stock rows of the warehouse against its journal of movements.
use spare_part.Warehouse.Moves.{move_stock}
use spare_part.Base.{
  insert_last, find_first-holds, inr, inl, Option-cases, ◌&&◌, ◌==◌, ℕ, ◌≡◌, refl, Bool, true, List,
  none, some, arith, find_first, if◌then◌else◌,
}
use spare_part.Base.Int.{+ℤ_zero, parts_of_eq, ℤ, pos, ◌+ℤ◌, ◌-ℤ◌, int_laws}
use spare_part.Base.Rows.{save, get-insert_last, get-next_pk, next_pk, get}
use spare_part.Base.Sums.{
  is_unique-insert_last, total, total-save, total-insert_last, is_unique, is_unique-save,
  find_first-get,
}
use spare_part.Stock.Tables.{takes_units, is_stock_in, Inventory, inventory_row, StockMovement}
use spare_part.Stock.Reservations.{get_or_create, same_line, is_stock_of}
use spare_part.Warehouse.Tables.{depot, Warehouse}

-- What a row adds to the stock of a part at a site.
abbrev pub held : ℕ → ℕ → Inventory → ℤ
held part site i = if is_stock_of part site i then i.quantity_available else pos 0

-- What a movement adds to it: a receipt its quantity, an issue the opposite, an adjustment nothing.
abbrev pub moved : ℕ → ℕ → StockMovement → ℤ
moved part site m =
    if m.part == part && same_line site m.site
    then (if is_stock_in m.movement_type
        then m.quantity
        else if takes_units m.movement_type
        then pos 0 -ℤ m.quantity
        else pos 0)
    else pos 0

-- The stock is what it was at the start, `base`, and what was moved since; and every row has its own key.
abbrev pub IsBooked : ℕ → ℕ → ℤ → List Inventory → List StockMovement → Type 0
IsBooked part site base rows movements =
    (is_unique rows ≡ true)
    × (total (held part site) rows ≡ base +ℤ total (moved part site) movements)

settled :
    (t' hi t hr base mm mv : ℤ)
    → t' +ℤ hi ≡ t +ℤ hr
    → t ≡ base +ℤ mm
    → hr ≡ hi +ℤ mv
    → t' ≡ base +ℤ (mm +ℤ mv)
settled t' hi t hr base mm mv e f g =
    omega (int_laws, parts_of_eq _ _ e, parts_of_eq _ _ f, parts_of_eq _ _ g)

held-moved :
    (part site : ℕ) (inv : Inventory) (after : ℤ) (m : StockMovement)
    → m.part ≡ inv.part
    → m.site ≡ some inv.site
    → after ≡ inv.quantity_available +ℤ moved inv.part inv.site m
    → held part site (record inv { quantity_available = after })
      ≡ held part site inv +ℤ moved part site m
held-moved part site inv after m ep es ea = ground (arith, ea, +ℤ_zero (pos 0))

pub move_stock-IsBooked :
    (part site : ℕ) (base : ℤ) (w : Warehouse) (rows : List Inventory) (inv : Inventory) (after : ℤ)
    (m : StockMovement)
    → get inv.pk rows ≡ some inv
    → m.part ≡ inv.part
    → m.site ≡ some inv.site
    → after ≡ inv.quantity_available +ℤ moved inv.part inv.site m
    → IsBooked part site base rows w.stock_movements
    → let v = move_stock w rows inv after m in
      IsBooked part site base v.inventories v.stock_movements
unfolding move_stock
move_stock-IsBooked part site base w rows inv after m found ep es ea (u, h) =
    let row : Inventory = record inv { quantity_available = after } in
    (
      is_unique-save row rows u,
      rw (total-insert_last (moved part site) m w.stock_movements) (
          settled _ (held part site inv) _ (held part site row) base _ (moved part site m)
            (total-save (held part site) row inv rows found) h
            (held-moved part site inv after m ep es ea)),
    )

-- A row whose available units stay, and a movement that is neither a receipt nor an issue.
pub adjust-IsBooked :
    (part site : ℕ) (base : ℤ) (rows : List Inventory) (movements : List StockMovement)
    (inv row : Inventory) (m : StockMovement)
    → get row.pk rows ≡ some inv
    → held part site row ≡ held part site inv
    → moved part site m ≡ pos 0
    → IsBooked part site base rows movements
    → IsBooked part site base (save row rows) (insert_last m movements)
adjust-IsBooked part site base rows movements inv row m found same still (u, h) = (
  is_unique-save row rows u,
  rw (total-insert_last (moved part site) m movements) (
      settled _ (held part site inv) _ (held part site row) base _ (moved part site m)
        (total-save (held part site) row inv rows found) h (rw (still, same) (omega int_laws))),
)

minus_moved : (a b : ℤ) → a -ℤ b ≡ a +ℤ (pos 0 -ℤ b)
minus_moved a b = omega int_laws

-- Units that leave a row of the table.
pub take-IsBooked :
    (part site : ℕ) (base : ℤ) (w : Warehouse) (test : Inventory → Bool) (inv : Inventory)
    (m : StockMovement)
    → find_first test w.inventories ≡ some inv
    → m.part ≡ inv.part
    → m.site ≡ some inv.site
    → takes_units m.movement_type ≡ true
    → IsBooked part site base w.inventories w.stock_movements
    → let v = move_stock w w.inventories inv (inv.quantity_available -ℤ m.quantity) m in
      IsBooked part site base v.inventories v.stock_movements
take-IsBooked part site base w test inv m found ep es out h =
    move_stock-IsBooked part site base w w.inventories inv (inv.quantity_available -ℤ m.quantity) m
      (find_first-get test inv w.inventories h.0 found) ep es
      (ground (arith, minus_moved inv.quantity_available m.quantity)) h

held_empty :
    (part site : ℕ) (i : Inventory) → i.quantity_available ≡ pos 0 → held part site i ≡ pos 0
held_empty part site i e = ground (arith, e)

-- The row that a receipt finds or creates.
pub get_or_create-IsBooked :
    (part site : ℕ) (base : ℤ) (p s : ℕ) (w : Warehouse)
    → IsBooked part site base w.inventories w.stock_movements
    → let r = get_or_create p s (depot w) in
      IsBooked part site base r.0.inventories w.stock_movements
      × (get r.1.pk r.0.inventories ≡ some r.1)
      × (r.1.part ≡ p)
      × (r.1.site ≡ s)
get_or_create-IsBooked part site base p s w h =
    let row : Inventory = record {
      pk = next_pk w.inventories;
      part = p;
      site = s;
      quantity_available = pos 0;
      quantity_quarantine = pos 0;
    } in
    let fresh : get row.pk w.inventories ≡ none = get-next_pk row.pk w.inventories (omega arith) in
    elim (Option-cases (find_first (is_stock_of p s) w.inventories)) [
      | inl missing ↦
          rw (missing, get_or_create)
            (
              (
                is_unique-insert_last row w.inventories (ground (arith, fresh)) h.0,
                rw
                    (
                      total-insert_last (held part site) row w.inventories,
                      held_empty part site row refl,
                      +ℤ_zero,
                    )
                    h.1,
              ),
              ground (arith, get-insert_last row.pk row w.inventories fresh),
              refl,
              refl,
            )
      | inr (inv, found) ↦
          rw (found, get_or_create)
            (
              h,
              find_first-get (is_stock_of p s) inv w.inventories h.0 found,
              ground (arith, find_first-holds (is_stock_of p s) inv w.inventories found),
              ground (arith, find_first-holds (is_stock_of p s) inv w.inventories found),
            )
    ]
