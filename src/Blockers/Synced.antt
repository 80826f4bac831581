-- ===== src/Blockers/Synced.antt =====
-- The operational status of a work order agrees with its blockers after every call.
use spare_part.Blockers.Cases.{step_case}
use spare_part.Blockers.Steps.{board_after, BlockerCall, step, run}
use native.Mathlib.Decide.{ℕ_discrete}
use spare_part.Blockers.Service.{
  create_blocker, record_event, start_blocker, settle_blocker, bump_version,
}
use spare_part.Base.Rows.{get-save_self, get-save_ne, get-key, save, get}
use spare_part.Base.Result.{err, ◌>>=◌, Result, ok}
use spare_part.Base.{
  Option, sym, subst, ◌∙◌, false, [], ◌∷◌, ◌∷◌, insert_last, if◌then◌else◌, Bool-cases, ◌≢◌, inr,
  arith, inl, Option-cases, ℕ, ◌≡◌, refl, Bool, true, ◌||◌, List, none, some,
}
use spare_part.Blockers.Tables.{
  EventPayload, EventType, is_operational, is_vendor_repair, is_part_or_shortage, LifecycleStatus,
  Kind, OperationalStatus, same_status, WorkOrder, WorkOrderBlocker, Board, order_row, blocker_row,
}
use spare_part.Blockers.Status.{
  BlockerError, set_if_changed, any_open, recompute_operational_status, is_terminal, derived_status,
  get_order,
}

-- A test that holds of every order that is not archived and not terminal, with the status that its
-- open blockers give.
abbrev pub agrees : List WorkOrderBlocker → WorkOrder → Bool
agrees blockers wo =
    is_terminal wo.lifecycle_status
    || same_status wo.operational_status (derived_status wo.lifecycle_status wo.pk blockers)

-- The work order `k`, if it is there and not archived, has the status that its blockers give.
abbrev pub IsSynced : ℕ → Board → Type 0
IsSynced k b = elim (get_order k b.orders) [ none ↦ true | some wo ↦ agrees b.blockers wo ] ≡ true

same_status_refl : (s : OperationalStatus) → same_status s s ≡ true
same_status_refl OperationalStatus.active = refl
same_status_refl OperationalStatus.pending_parts = refl
same_status_refl OperationalStatus.waiting_vendor = refl
same_status_refl OperationalStatus.paused = refl

get_order-get :
    (k : ℕ) (wo : WorkOrder) (orders : List WorkOrder)
    → get k orders ≡ some wo
    → get_order k orders ≡ (if wo.is_archived then none else some wo)
get_order-get k wo orders e = rw (e, get_order)

get_order-save_ne :
    (k : ℕ) (wo : WorkOrder) (orders : List WorkOrder)
    → k ≢ wo.pk
    → get_order k (save wo orders) ≡ get_order k orders
get_order-save_ne k wo orders ne = rw (get-save_ne k wo orders ne, get_order)

bump_version-ne :
    (k j : ℕ) (orders : List WorkOrder)
    → k ≢ j
    → get_order k (bump_version j orders) ≡ get_order k orders
bump_version-ne k j orders ne = elim (Option-cases (get j orders)) [
  | inl missing ↦ ground arith
  | inr (wo, found) ↦ ground (
    arith,
    get-key j wo orders found,
    get_order-save_ne k (record wo { blocker_system_version = 1 }) orders,
  )
]

pub get_order-inv :
    (k : ℕ) (wo : WorkOrder) (orders : List WorkOrder)
    → get_order k orders ≡ some wo
    → (get k orders ≡ some wo) × (wo.is_archived ≡ false) × (wo.pk ≡ k)
get_order-inv k wo orders e = elim (Option-cases (get k orders)) [
  | inl missing ↦ absurd (ground arith)
  | inr (v, found) ↦ ground (arith, get-key k v orders found)
]

IsSynced-get :
    (k : ℕ) (b : Board) (wo : WorkOrder)
    → get_order k b.orders ≡ some wo
    → agrees b.blockers wo ≡ true
    → IsSynced k b
IsSynced-get k b wo e h = rw e h

get_order-save_self :
    (wo old : WorkOrder) (orders : List WorkOrder)
    → get_order wo.pk orders ≡ some old
    → wo.is_archived ≡ false
    → get_order wo.pk (save wo orders) ≡ some wo
get_order-save_self wo old orders e live =
    rw (get-save_self wo old orders (get_order-inv wo.pk old orders e).0, get_order) (rw live)

same_status-agrees :
    (blockers : List WorkOrderBlocker) (wo : WorkOrder)
    → same_status wo.operational_status (derived_status wo.lifecycle_status wo.pk blockers) ≡ true
    → agrees blockers wo ≡ true
same_status-agrees blockers wo h = ground arith

-- Either branch of `set_if_changed`, with the test that leads to it.
pub set_if_changed_cases {ℓ} :
    (P : Board → Type ℓ) (m : Board) (wo : WorkOrder) (s : OperationalStatus)
    → (same_status wo.operational_status s ≡ true → P m)
    → P (record m { orders = save (record wo { operational_status = s }) m.orders })
    → P (set_if_changed m wo s)
set_if_changed_cases P m wo s kept written = go (same_status wo.operational_status s) refl
  where
    go :
        (t : Bool)
        → same_status wo.operational_status s ≡ t
        → P (
            if t
            then m
            else record m { orders = save (record wo { operational_status = s }) m.orders })
    go true e = kept e
    go false e = written

set_if_changed-IsSynced :
    (m : Board) (wo : WorkOrder)
    → get_order wo.pk m.orders ≡ some wo
    → wo.is_archived ≡ false
    → IsSynced wo.pk (set_if_changed m wo (derived_status wo.lifecycle_status wo.pk m.blockers))
set_if_changed-IsSynced m wo e live =
    let new = derived_status wo.lifecycle_status wo.pk m.blockers in
    let wo' : WorkOrder = record wo { operational_status = new } in
    set_if_changed_cases (IsSynced wo.pk) m wo new
      (λ same. IsSynced-get wo.pk m wo e (same_status-agrees m.blockers wo same))
      (IsSynced-get wo.pk (record m { orders = save wo' m.orders }) wo'
        (get_order-save_self wo' wo m.orders e live)
        (same_status-agrees m.blockers wo' (same_status_refl new)))

set_if_changed-ne :
    (k : ℕ) (m : Board) (wo : WorkOrder) (s : OperationalStatus)
    → k ≢ wo.pk
    → IsSynced k m
    → IsSynced k (set_if_changed m wo s)
set_if_changed-ne k m wo s ne h =
    set_if_changed_cases (IsSynced k) m wo s (λ same. h)
      (rw (get_order-save_ne k (record wo { operational_status = s }) m.orders ne) h)

-- What a successful recomputation did.
pub recompute-cases {ℓ} :
    (P : Board → Type ℓ) (j : ℕ) (m : Board) {q : Board} {s : OperationalStatus}
    → recompute_operational_status m j ≡ ok (q, s)
    → ((wo : WorkOrder)
        → get_order j m.orders ≡ some wo
        → (is_terminal wo.lifecycle_status ≡ true → P m)
          × P (set_if_changed m wo (derived_status wo.lifecycle_status wo.pk m.blockers)))
    → P q
unfolding recompute_operational_status
recompute-cases P j m {q} {s} e h = elim (Option-cases (get_order j m.orders)) [
  | inl missing ↦ absurd (ground arith)
  | inr (wo, found) ↦ elim (Bool-cases (is_terminal wo.lifecycle_status)) [
    | inl terminal ↦ subst P (ground arith) ((h wo found).0 terminal)
    | inr going ↦ subst P (ground arith) (h wo found).1
  ]
]

terminal-agrees :
    (blockers : List WorkOrderBlocker) (wo : WorkOrder)
    → is_terminal wo.lifecycle_status ≡ true
    → agrees blockers wo ≡ true
terminal-agrees blockers wo h = rw h

-- A recomputation settles its own order, and leaves the others alone.
recompute-IsSynced :
    (k j : ℕ) (m : Board) {q : Board} {s : OperationalStatus}
    → recompute_operational_status m j ≡ ok (q, s)
    → (k ≢ j → IsSynced k m)
    → IsSynced k q
recompute-IsSynced k j m e others = recompute-cases (IsSynced k) j m e λ wo found.
    let inv = get_order-inv j wo m.orders found in
    elim (ℕ_discrete k j) [
      | yes same ↦ (
        λ terminal.
            subst (λ n. IsSynced n m) (sym same)
              (IsSynced-get j m wo found (terminal-agrees m.blockers wo terminal)),
        subst
            (λ n.
              IsSynced n
                (set_if_changed m wo (derived_status wo.lifecycle_status wo.pk m.blockers)))
            (inv.2 ∙ sym same)
            (set_if_changed-IsSynced m wo
              (subst (λ n. get_order n m.orders ≡ some wo) (sym inv.2) found) inv.1),
      )
      | no other ↦ (
        λ terminal. others other,
        set_if_changed-ne k m wo (derived_status wo.lifecycle_status wo.pk m.blockers)
            (λ e. other (e ∙ inv.2)) (others other),
      )
    ]

any_open-insert_last_ne :
    (test : Kind → Bool) (k : ℕ) (r : WorkOrderBlocker) (bs : List WorkOrderBlocker)
    → r.work_order ≢ k
    → any_open test k (insert_last r bs) ≡ any_open test k bs
any_open-insert_last_ne test k r [] ne = ground arith
any_open-insert_last_ne test k r (b ∷ bs) ne = ground (arith, any_open-insert_last_ne test k r bs)

any_open-save_ne :
    (test : Kind → Bool) (k : ℕ) (r old : WorkOrderBlocker) (bs : List WorkOrderBlocker)
    → r.work_order ≢ k
    → old.work_order ≢ k
    → get r.pk bs ≡ some old
    → any_open test k (save r bs) ≡ any_open test k bs
any_open-save_ne test k r old [] ne was e = ground arith
any_open-save_ne test k r old (b ∷ bs) ne was e = ground (arith, any_open-save_ne test k r old bs)

-- Blockers of another order do not matter to `derived_status`.
derived_status-eq :
    (l : LifecycleStatus) (k : ℕ) (bs cs : List WorkOrderBlocker)
    → ((test : Kind → Bool) → any_open test k bs ≡ any_open test k cs)
    → derived_status l k bs ≡ derived_status l k cs
unfolding derived_status
derived_status-eq l k bs cs h = rw (h is_part_or_shortage, h is_vendor_repair, h is_operational)

IsSynced-eq :
    (k : ℕ) (b m : Board)
    → get_order k m.orders ≡ get_order k b.orders
    → ((test : Kind → Bool) → any_open test k m.blockers ≡ any_open test k b.blockers)
    → IsSynced k b
    → IsSynced k m
IsSynced-eq k b m orders same h = elim (Option-cases (get_order k b.orders)) [
  | inl missing ↦ ground arith
  | inr (wo, found) ↦
      let pk = (get_order-inv k wo b.orders found).2 in
      rw (orders, found)
        (rw
          (derived_status-eq wo.lifecycle_status wo.pk m.blockers b.blockers (λ test.
            subst (λ n. any_open test n m.blockers ≡ any_open test n b.blockers) (sym pk)
              (same test)))
          (rw found at h))
]

start_blocker-IsSynced :
    (k : ℕ) (b : Board) (row : WorkOrderBlocker) (payload : EventPayload)
    → IsSynced k b
    → IsSynced k (board_after b (start_blocker b row payload))
unfolding start_blocker
start_blocker-IsSynced k b row payload h =
    let m =
      record_event (create_blocker b row) row.pk EventType.blocker_created row.opened_by payload in
    go (recompute_operational_status m row.work_order) refl
  where
    m' : Board
    m' = record_event (create_blocker b row) row.pk EventType.blocker_created row.opened_by payload

    go :
        (r : Result BlockerError (Board × OperationalStatus))
        → recompute_operational_status m' row.work_order ≡ r
        → IsSynced k (board_after b (r >>= λ (q, _). ok (q, row)))
    go (ok (q, s)) e = recompute-IsSynced k row.work_order m' e λ ne.
        IsSynced-eq k b m' (bump_version-ne k row.work_order b.orders ne)
          (λ test. any_open-insert_last_ne test k row b.blockers (λ e. ne (sym e))) h
    go (err x) e = h

settle_blocker-IsSynced :
    (k : ℕ) (b : Board) (row old : WorkOrderBlocker) (t : EventType) (actor : Option ℕ)
    (payload : EventPayload)
    → get row.pk b.blockers ≡ some old
    → row.work_order ≡ old.work_order
    → IsSynced k b
    → IsSynced k (board_after b (settle_blocker b row t actor payload))
unfolding settle_blocker
settle_blocker-IsSynced k b row old t actor payload found same h =
    go (recompute_operational_status m' row.work_order) refl
  where
    m' : Board
    m' = record_event (record b { blockers = save row b.blockers }) row.pk t actor payload

    go :
        (r : Result BlockerError (Board × OperationalStatus))
        → recompute_operational_status m' row.work_order ≡ r
        → IsSynced k (board_after b (r >>= λ (q, _). ok (q, row)))
    go (ok (q, s)) e = recompute-IsSynced k row.work_order m' e λ ne.
        IsSynced-eq k b m' refl
          (λ test.
            any_open-save_ne test k row old b.blockers (λ e. ne (sym e)) (λ e. ne (sym (same ∙ e)))
              found)
          h
    go (err x) e = h

-- Every call of the blocker services keeps each work order that is not archived in agreement with its
-- open blockers: unless it is closed or cancelled, its operational status is the derived one.
pub step-IsSynced : (k : ℕ) (b : Board) (c : BlockerCall) → IsSynced k b → IsSynced k (step b c)
step-IsSynced k b c h =
    step_case (IsSynced k) b h (λ row payload fresh. start_blocker-IsSynced k b row payload h)
      (λ old row t actor payload s.
        settle_blocker-IsSynced k b row old t actor payload s.found s.same_order h)
      c

-- After any history of calls of the blocker services a work order that is not archived, closed or
-- cancelled has the operational status that its lifecycle and its open blockers give, where that held
-- before.
pub run-IsSynced :
    (k : ℕ) (b : Board) (cs : List BlockerCall) → IsSynced k b → IsSynced k (run b cs)
unfolding run
run-IsSynced k b [] h = h
run-IsSynced k b (c ∷ cs) h = run-IsSynced k (step b c) cs (step-IsSynced k b c h)
