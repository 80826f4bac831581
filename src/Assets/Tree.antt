-- ===== src/Assets/Tree.antt =====
-- maintenance/models.py and maintenance/validators.py: the walks up the hierarchy of machines. A walk has fuel, one
-- for each machine that it visits, and yields `none` if it runs out of it, which the source's loops never do.
use spare_part.Base.{
  zero, suc, suc, ℕ, Bool, List, [], ◌∷◌, ◌++◌, Option, none, some, ◌==◌, if◌then◌else◌, reverse,
  map,
}
use spare_part.Base.Text.{Text}
use spare_part.Base.Rows.{Row, get}

pub record Machine : Type 0 where
  pub pk : ℕ
  pub name : Text
  pub parent : Option ℕ
  pub asset_level : ℕ

instance abbrev pub machine_row : Row Machine
machine_row = record { key = λ x. x.pk }

-- `asset_level == 3`
abbrev pub is_machine_level : Machine → Bool
is_machine_level m = m.asset_level == 3

-- The machines from this one up to the root: `current = current.parent` until there is none.
unfoldable pub chain : ℕ → List Machine → Option ℕ → Option (List Machine)
chain fuel ms none = some []
chain zero ms (some k) = none
chain (suc n) ms (some k) = elim (get k ms) [
  | none ↦ some []
  | some m ↦ elim (chain n ms m.parent) [ none ↦ none | some above ↦ some (m ∷ above) ]
]

abbrev pub machines_in : List Machine → List Machine
machines_in [] = []
machines_in (m ∷ ms) = let rest = machines_in ms in if is_machine_level m then m ∷ rest else rest

-- `get_ancestor_machines`
unfoldable pub get_ancestor_machines : ℕ → List Machine → Machine → Option (List Machine)
get_ancestor_machines fuel ms m = elim (chain fuel ms m.parent) [
  | none ↦ none
  | some above ↦ some (machines_in above)
]

abbrev pub last_or : Machine → List Machine → Machine
last_or m [] = m
last_or m (x ∷ xs) = last_or x xs

-- `get_root`
unfoldable pub get_root : ℕ → List Machine → Machine → Option Machine
get_root fuel ms m = elim (chain fuel ms m.parent) [
  | none ↦ none
  | some above ↦ some (last_or m above)
]

-- The names that `full_path` joins, the root first.
unfoldable pub full_path : ℕ → List Machine → Machine → Option (List Text)
full_path fuel ms m = elim (chain fuel ms m.parent) [
  | none ↦ none
  | some above ↦ some (map (λ x. x.name) (reverse above) ++ (m.name ∷ []))
]

-- The loop of the validator, which ends at the first machine of level 3.
unfoldable pub root_machine : ℕ → List Machine → Option ℕ → Option (Option Machine)
root_machine fuel ms none = some none
root_machine zero ms (some k) = none
root_machine (suc n) ms (some k) = elim (get k ms) [
  | none ↦ some none
  | some m ↦
      let rest = root_machine n ms m.parent in if is_machine_level m then some (some m) else rest
]

-- The outcomes of the validator, the last two of them exceptions.
pub data Verdict : Type 0 where
  valid machine_required does_not_belong : Verdict

abbrev pub judge : Machine → Option Machine → Verdict
judge machine none = does_not_belong
judge machine (some root) = if root.pk == machine.pk then valid else does_not_belong

-- `validate_component_belongs_to_machine`
unfoldable pub validate_component_belongs_to_machine :
    ℕ → List Machine → Option Machine → Option Machine → Option Verdict
validate_component_belongs_to_machine fuel ms none machine = some valid
validate_component_belongs_to_machine fuel ms (some component) none = some machine_required
validate_component_belongs_to_machine fuel ms (some component) (some machine) =
    elim (root_machine fuel ms component.parent) [
      | none ↦ none
      | some root ↦ some (judge machine root)
    ]
