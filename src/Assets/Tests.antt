-- ===== src/Assets/Tests.antt =====
-- A small hierarchy, and the theorems at it.
use spare_part.Base.{◌≡◌, refl, List, [], ◌∷◌, none, some, arith}
use spare_part.Assets.Tree.{
  Machine, get_ancestor_machines, validate_component_belongs_to_machine, judge,
}
use spare_part.Assets.Walks.{validate_decides, first}

abbrev press : Machine
press = record { pk = 2; name = []; parent = some 1; asset_level = 3 }

abbrev bearing : Machine
bearing = record { pk = 3; name = []; parent = some 2; asset_level = 5 }

-- A line with a press on it, which has a bearing.
abbrev hierarchy : List Machine
hierarchy = record { pk = 1; name = []; parent = none; asset_level = 2 } ∷ press ∷ bearing ∷ []

validate_decides_example :
    (above : List Machine) × (get_ancestor_machines 5 hierarchy bearing ≡ some above)
    × (validate_component_belongs_to_machine 5 hierarchy (some bearing) (some press)
        ≡ some (judge press (first above)))
validate_decides_example = validate_decides hierarchy 5 3 bearing press refl refl (ground arith)
