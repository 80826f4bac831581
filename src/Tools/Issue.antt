-- ===== src/Tools/Issue.antt =====
-- `InventoryService.issue_to_tool_pool`: the stock that leaves, and the numbers of the new units.
use spare_part.Base.{
  ℕ, zero, suc, ◌+◌, ◌*◌, ◌≤◌, ◌<◌, ◌≡◌, refl, Bool, ◌&&◌, List, [], ◌∷◌, Option, some, arith, ◌==◌,
  count_if, count_if-insert_last, insert_last, length, length-insert_last, find_first,
}
use spare_part.Base.Int.{ℤ, pos, ◌-ℤ◌, ◌≤ℤ◌, int_laws}
use spare_part.Base.Text.{Text}
use spare_part.Base.Rows.{next_pk, get, get-save_self}
use spare_part.Base.Result.{ok}
use spare_part.Stock.Tables.{SparePart, reusable_tool, Inventory, inventory_row, stock_movement_row}
use spare_part.Tools.Tables.{ReusableToolInstance, ToolPool, tool_row}
use spare_part.Tools.Service.{
  max_tool_number, choose_site, new_unit, issued_movement, out_movement, deduct, create_unit,
  create_units, issue_to_tool_pool,
}
use spare_part.Tools.Steps.{tables_after}

abbrev is_numbered : ℕ → ℕ → ReusableToolInstance → Bool
is_numbered part n t = t.part == part && t.tool_number == n

-- How many units of a part bear a number.
abbrev pub number_count : ℕ → ℕ → ToolPool → ℕ
number_count part n p = count_if (is_numbered part n) p.tools

number_count_above :
    (part n : ℕ) (ts : List ReusableToolInstance)
    → max_tool_number part ts < n
    → count_if (is_numbered part n) ts ≡ 0
number_count_above part n [] h = refl
number_count_above part n (t ∷ ts) h = ground (arith, number_count_above part n ts)

max_tool_number-insert_last :
    (part : ℕ) (t : ReusableToolInstance) (ts : List ReusableToolInstance)
    → t.part ≡ part
    → max_tool_number part ts < t.tool_number
    → max_tool_number part (insert_last t ts) ≡ t.tool_number
max_tool_number-insert_last part t [] e h = ground arith
max_tool_number-insert_last part t (u ∷ ts) e h =
    ground (arith, max_tool_number-insert_last part t ts e)

create_units_numbers :
    (k number part movement actor : ℕ) (note : Text) (p : ToolPool) (other n : ℕ)
    → max_tool_number part p.tools < number
    → number_count other n p ≤ 1
    → number_count other n (create_units k number part movement actor note p) ≤ 1
unfolding create_units create_unit
create_units_numbers zero number part movement actor note p other n above h = h
create_units_numbers (suc k) number part movement actor note p other n above h =
    let t = new_unit p part movement number in
    create_units_numbers k (suc number) part movement actor note
      (create_unit part movement actor note number p) other n
      (omega (arith, max_tool_number-insert_last part t p.tools refl above))
      (ground (
        arith,
        number_count_above part number p.tools above,
        count_if-insert_last (is_numbered other n) t p.tools,
      ))

-- If at most one unit of a part bears a number, that is so after an issue to the pool too, of the same
-- part or of another, whether the issue succeeds or raises.
pub issue_numbers :
    (p : ToolPool) (part : SparePart) (qty : ℤ) (actor : ℕ) (site : Option ℕ) (note : Text)
    (now : ℕ) (other n : ℕ)
    → number_count other n p ≤ 1
    → number_count other n
        (tables_after (λ q. q) p (issue_to_tool_pool p part qty actor site note now))
      ≤ 1
unfolding issue_to_tool_pool
issue_numbers p part qty actor site note now other n h = grind (arith, create_units_numbers)

create_units_effect :
    (k number part movement actor : ℕ) (note : Text) (p : ToolPool)
    → let q = create_units k number part movement actor note p in
      (length q.tools ≡ length p.tools + k)
      × (length q.movements ≡ length p.movements + k)
      × (q.inventories ≡ p.inventories)
      × (q.stock_movements ≡ p.stock_movements)
unfolding create_units create_unit
create_units_effect zero number part movement actor note p = (omega arith, omega arith, refl, refl)
create_units_effect (suc k) number part movement actor note p =
    let q = create_unit part movement actor note number p in
    let ih = create_units_effect k (suc number) part movement actor note q in
    (
      omega (arith, ih.0, length-insert_last (new_unit p part movement number) p.tools),
      omega (
        arith,
        ih.1,
        length-insert_last (issued_movement (next_pk p.tools) actor note) p.movements,
      ),
      ih.2,
      ih.3,
    )

-- An issue of `n` units, at least one, of a reusable tool succeeds if a site can be chosen, its first
-- stock row of the part is the row of its key, and that row has `n` units: `n` tools, `n` rows of the
-- log and one stock movement are added, and the row falls by `n`, to no less than zero.
pub issue_succeeds :
    (p : ToolPool) (part : SparePart) (n : ℕ) (actor : ℕ) (site : Option ℕ) (note : Text) (now : ℕ)
    (s : ℕ) (inv : Inventory)
    → 0 < n
    → part.item_type ≡ reusable_tool
    → choose_site p.sites site ≡ some s
    → find_first (λ r. r.part == part.pk && r.site == s) p.inventories ≡ some inv
    → get inv.pk p.inventories ≡ some inv
    → pos (n * 1000) ≤ℤ inv.quantity_available
    → (q : ToolPool) × (issue_to_tool_pool p part (pos n) actor site note now ≡ ok q)
      × (length q.tools ≡ length p.tools + n)
      × (length q.movements ≡ length p.movements + n)
      × (length q.stock_movements ≡ length p.stock_movements + 1)
      × (get inv.pk q.inventories
          ≡ some (record inv { quantity_available = inv.quantity_available -ℤ pos (n * 1000) }))
      × (pos 0 ≤ℤ inv.quantity_available -ℤ pos (n * 1000))
unfolding issue_to_tool_pool
issue_succeeds p part n actor site note now s inv some_units tool at here found enough =
    let quantity = pos (n * 1000) in
    let movement = next_pk p.stock_movements in
    let d = deduct p part inv quantity actor note now in
    let effect =
      create_units_effect n (max_tool_number part.pk p.tools + 1) part.pk movement actor note d in
    (
      create_units n (max_tool_number part.pk p.tools + 1) part.pk movement actor note d,
      ground arith,
      effect.0,
      effect.1,
      rw
          (
            effect.3,
            length-insert_last (out_movement p part inv quantity actor note now) p.stock_movements,
          )
          (omega arith),
      rw effect.2 (
          get-save_self (record inv { quantity_available = inv.quantity_available -ℤ quantity }) inv
            p.inventories found),
      omega (int_laws),
    )
