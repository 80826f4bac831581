-- ===== src/Assets/Walks.antt =====
-- The walks up the hierarchy end where it is ordered, and the validator agrees with the ancestors.
use spare_part.Assets.Tree.{
  judge, validate_component_belongs_to_machine, machines_in, get_ancestor_machines, machine_row,
}
use spare_part.Base.{inr, inl, Option-cases, zero, suc, length, ◌<◌, ◌≤◌}
use spare_part.Base.Rows.{get}
use spare_part.Assets.Tree.{is_machine_level, root_machine, Machine, chain}
use spare_part.Base.{
  length, suc, find_first, ◌≤◌, arith, ◌<◌, Option, ltb, ◌&&◌, ℕ, ◌≡◌, refl, Bool, true, false,
  List, [], ◌∷◌, some, none,
}

-- The parent of a machine, if it has one, is there and has a lower level.
abbrev pub is_below : List Machine → Machine → Bool
is_below ms m = elim m.parent [
  | none ↦ true
  | some k ↦ elim (get k ms) [ none ↦ false | some p ↦ ltb p.asset_level m.asset_level ]
]

-- Area, line, machine, subassembly, component: each machine of a list stands below its parent.
abbrev pub is_ordered : List Machine → List Machine → Bool
is_ordered all [] = true
is_ordered all (m ∷ ms) = is_below all m && is_ordered all ms

below_of :
    (all ms : List Machine) (k : ℕ) (m : Machine)
    → is_ordered all ms ≡ true
    → get k ms ≡ some m
    → is_below all m ≡ true
below_of all [] k m e found = ground arith
below_of all (x ∷ ms) k m e found = ground (arith, e, found, below_of all ms k m)

-- The parent of a machine of an ordered hierarchy.
parent_row :
    (ms : List Machine) (m : Machine) (k : ℕ)
    → is_below ms m ≡ true
    → m.parent ≡ some k
    → (p : Machine) × (get k ms ≡ some p) × (p.asset_level < m.asset_level)
parent_row ms m k e up = elim (Option-cases (get k ms)) [
  | inl missing ↦ absurd (ground (arith, e, up, missing))
  | inr (p, there) ↦ (p, there, ground (arith, e, up, there))
]

-- One step up, from the walk of the parent.
climb :
    (n k : ℕ) (ms above : List Machine) (m : Machine)
    → get k ms ≡ some m
    → chain n ms m.parent ≡ some above
    → chain (suc n) ms (some k) ≡ some (m ∷ above)
unfolding chain
climb n k ms above m found e = rw (found, e, chain) refl

-- Where every machine stands below its parent, the walk from a machine takes at most as many steps as its level
-- says, itself included, whatever the fuel beyond that.
chain_ends :
    (ms : List Machine) (n k : ℕ) (m : Machine)
    → is_ordered ms ms ≡ true
    → get k ms ≡ some m
    → m.asset_level ≤ n
    → (above : List Machine) × (chain (suc n) ms (some k) ≡ some above) × (length above ≤ suc n)
unfolding chain
chain_ends ms zero k m e found h = elim (Option-cases m.parent) [
  | inl top ↦ (m ∷ [], climb 0 k ms [] m found (rw top refl), ground arith)
  | inr (j, up) ↦
      let r = parent_row ms m j (below_of ms ms k m e found) up in absurd (ground (arith, r.2, h))
]
chain_ends ms (suc n) k m e found h = elim (Option-cases m.parent) [
  | inl top ↦ (m ∷ [], climb (suc n) k ms [] m found (rw top refl), ground arith)
  | inr (j, up) ↦
      let r = parent_row ms m j (below_of ms ms k m e found) up in
      let rest = chain_ends ms n j r.0 e r.1 (ground (arith, r.2, h)) in
      (m ∷ rest.0, climb (suc n) k ms rest.0 m found (rw up rest.1), ground (arith, rest.2))
]

root_machine-chain :
    (n : ℕ) (ms : List Machine) (o : Option ℕ) (above : List Machine)
    → chain n ms o ≡ some above
    → root_machine n ms o ≡ some (find_first is_machine_level above)
unfolding chain root_machine
root_machine-chain n ms none above e = ground (arith, e)
root_machine-chain zero ms (some k) above e = ground (arith, e)
root_machine-chain (suc n) ms (some k) above e = elim (Option-cases (get k ms)) [
  | inl missing ↦ ground (arith, e, missing)
  | inr (m, found) ↦ elim (Option-cases (chain n ms m.parent)) [
    | inl stuck ↦ ground (arith, e, found, stuck)
    | inr (rest, done) ↦ ground (arith, e, found, done, root_machine-chain n ms m.parent rest done)
  ]
]

-- The walk from the parent of a machine.
parents_end :
    (ms : List Machine) (n k : ℕ) (m : Machine)
    → is_ordered ms ms ≡ true
    → get k ms ≡ some m
    → m.asset_level ≤ n
    → (above : List Machine) × (chain n ms m.parent ≡ some above)
unfolding chain
parents_end ms n k m e found h =
    let r = chain_ends ms n k m e found h in
    elim (Option-cases (chain n ms m.parent)) [
      | inl stuck ↦ absurd (ground (arith, r.1, found, stuck))
      | inr (above, done) ↦ (above, done)
    ]

abbrev pub first : List Machine → Option Machine
first [] = none
first (m ∷ ms) = some m

first_machine : (ms : List Machine) → find_first is_machine_level ms ≡ first (machines_in ms)
first_machine [] = refl
first_machine (m ∷ ms) = ground (arith, first_machine ms)

-- In an ordered hierarchy the walk to the ancestors of a machine and the loop of the validator end within as many
-- steps as its level says, and the validator accepts a component for a machine exactly if the machine is the
-- nearest of its ancestors of machine level.
pub validate_decides :
    (ms : List Machine) (n k : ℕ) (component machine : Machine)
    → is_ordered ms ms ≡ true
    → get k ms ≡ some component
    → component.asset_level ≤ n
    → (above : List Machine) × (get_ancestor_machines n ms component ≡ some above)
      × (validate_component_belongs_to_machine n ms (some component) (some machine)
          ≡ some (judge machine (first above)))
unfolding get_ancestor_machines validate_component_belongs_to_machine
validate_decides ms n k component machine e found h =
    let (all, walk) = parents_end ms n k component e found h in
    (
      machines_in all,
      rw (walk, get_ancestor_machines) refl,
      rw
          (
            root_machine-chain n ms component.parent all walk,
            first_machine all,
            validate_component_belongs_to_machine,
          )
          refl,
    )
