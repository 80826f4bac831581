-- ===== src/Warehouse/Emergency.antt =====
-- The emergency path of `request_part_on_wo`: its deduction puts a second active line of the order and the part
-- into the table, which the constraint `unique_active_pil_per_wo_part` refuses.
use spare_part.Warehouse.Progress.{add_request_ok}
use spare_part.Base.Result.{err, Result-cases, ok}
use spare_part.Base.Shut.{◌>>=◌}
use spare_part.Warehouse.Moves.{WarehouseError, Captions}
use spare_part.Base.Int.{leb_ℤ, ℤ}
use spare_part.Base.Text.{Text}
use spare_part.Blockers.Tables.{order_row, WorkOrder}
use spare_part.Warehouse.Tables.{Warehouse}
use spare_part.Warehouse.Direct.{is_active_line_for, IssueOrder, deduct_and_record_issue}
use spare_part.Warehouse.Requests.{
  add_request, requested_line, emergency_order, usable_at, auto_approved, request_part_on_wo,
  settle_request, issue_emergency,
}
use spare_part.Stock.Depot.{line_row, PartIssueLine}
use spare_part.Base.Keeps.{
  Yields, Yields-raise_if, Yields-or_raise, Yields-bind, Yields-ok, yields_of,
}
use spare_part.Stock.Tables.{part_row}
use spare_part.Base.Rows.{get-save_self, save, get}
use spare_part.Base.{
  inl, inr, [], not, if_branches, ◌∷◌, false, arith, true, List, ℕ, some, Bool, Option, refl,
  find_first, is_none, ◌≡◌,
}

some_found :
    (test : PartIssueLine → Bool) (k : ℕ) (m : PartIssueLine) (rows : List PartIssueLine)
    → get k rows ≡ some m
    → test m ≡ true
    → is_none (find_first test rows) ≡ false
some_found test k m [] found h = ground (arith, found)
some_found test k m (r ∷ rs) found h = ground (arith, found, h, some_found test k m rs)

deduct_refused :
    (w : Warehouse) (o : IssueOrder) (at : Option ℕ) (note : Text) (now k : ℕ) (m : PartIssueLine)
    (r : Warehouse × ℕ)
    → get k w.lines ≡ some m
    → is_active_line_for o.wo o.part m ≡ true
    → ¬ (deduct_and_record_issue w o at note now ≡ ok r)
unfolding deduct_and_record_issue
deduct_refused w o at note now k m r found active e =
    let Q : Warehouse × ℕ → Type 0 = λ _. ⊥ in
    let taken = some_found (is_active_line_for o.wo o.part) k m w.lines found active in
    yields_of Q (deduct_and_record_issue w o at note now) r
      (Yields-or_raise Q _ _ _ (λ p _. Yields-or_raise Q _ _ _ (λ s _.
        Yields-or_raise Q _ _ _ (λ inv _.
          Yields-raise_if Q _ _ _ (λ free. Yields-ok Q _ (ground (arith, free, taken)))))))
      e

issue_emergency_refused :
    (v : Warehouse) (l : PartIssueLine) (technician : ℕ) (t : Captions) (now : ℕ)
    → get l.pk v.lines ≡ some l
    → Yields (λ u. ⊥) (issue_emergency v l technician t now)
unfolding issue_emergency
issue_emergency_refused v l technician t now found =
    let Q : Warehouse → Type 0 = λ u. ⊥ in
    Yields-or_raise Q _ _ _ (λ p _. Yields-bind Q _ _ (λ r e.
      let m = auto_approved l p technician now in
      let saved : Warehouse = record v { lines = save m v.lines } in
      absurd (
        deduct_refused saved (emergency_order l p technician) v.default_site t.movement_note now
          l.pk m r (get-save_self m l v.lines found) (ground arith) e)))

settle_refused :
    (v : Warehouse) (l : PartIssueLine) (is_emergency is_usable : Bool) (technician : ℕ)
    (note : Text) (t : Captions) (now : ℕ)
    → is_emergency ≡ true
    → is_usable ≡ true
    → get l.pk v.lines ≡ some l
    → Yields (λ u. ⊥) (settle_request v l is_emergency is_usable technician note t now)
unfolding settle_request
settle_refused v l false is_usable technician note t now a b found = ground (arith, a)
settle_refused v l true false technician note t now a b found = ground (arith, b)
settle_refused v l true true technician note t now a b found =
    issue_emergency_refused v l technician t now found

same_urgency :
    (o : Option WorkOrder) (x order : WorkOrder)
    → o ≡ some x
    → o ≡ some order
    → order.is_emergency ≡ true
    → x.is_emergency ≡ true
same_urgency o x order e f h = ground arith

request_refused :
    (w : Warehouse) (wo part : ℕ) (quantity : ℤ) (technician : ℕ) (note : Text) (t : Captions)
    (now : ℕ) (order : WorkOrder)
    → get wo w.board.orders ≡ some order
    → order.is_emergency ≡ true
    → leb_ℤ quantity (usable_at w part) ≡ true
    → is_none (find_first (is_active_line_for wo part) w.lines) ≡ true
    → Yields (λ u. ⊥) (request_part_on_wo w wo part quantity technician note t now)
unfolding request_part_on_wo
request_refused w wo part quantity technician note t now order read urgent covered idle =
    let Q : Warehouse → Type 0 = λ u. ⊥ in
    let l = requested_line w wo part quantity technician in
    Yields-raise_if Q _ _ _ (λ _. Yields-or_raise Q _ _ _ (λ x found. Yields-raise_if Q _ _ _ (λ _.
      Yields-or_raise Q _ _ _ (λ _ _.
        if_branches (Yields Q) (not (is_none (find_first (is_active_line_for wo part) w.lines)))
          (ok w)
          (add_request w l x.is_emergency technician >>= λ r.
            settle_request r.0 r.1 x.is_emergency (leb_ℤ quantity (usable_at w part)) technician
              note t now)
          (λ active. Yields-ok Q w (ground (arith, active, idle)))
          (λ _. Yields-bind Q _ _ (λ r f.
            settle_refused r.0 r.1 _ _ technician note t now
              (same_urgency (get wo w.board.orders) x order found read urgent) covered
              (add_request_ok 0 w l x.is_emergency technician r refl f).0))))))

-- On an emergency order a request for a part always raises, and so changes nothing, where the usable stock covers
-- the quantity and no line for the part is active on the order yet.
pub emergency_request_fails :
    (w : Warehouse) (wo part : ℕ) (quantity : ℤ) (technician : ℕ) (note : Text) (t : Captions)
    (now : ℕ) (order : WorkOrder)
    → get wo w.board.orders ≡ some order
    → order.is_emergency ≡ true
    → leb_ℤ quantity (usable_at w part) ≡ true
    → is_none (find_first (is_active_line_for wo part) w.lines) ≡ true
    → (e : WarehouseError) × (request_part_on_wo w wo part quantity technician note t now ≡ err e)
emergency_request_fails w wo part quantity technician note t now order read urgent covered idle =
    let call = request_part_on_wo w wo part quantity technician note t now in
    elim (Result-cases call) [
      | inl (u, returned) ↦ absurd (
          yields_of (λ _. ⊥) call u
            (request_refused w wo part quantity technician note t now order read urgent covered
              idle)
            returned)
      | inr failed ↦ failed
    ]
