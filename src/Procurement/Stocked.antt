-- ===== src/Procurement/Stocked.antt =====
-- The receipt of an order keeps the stock rows in step with the journal of movements.
use spare_part.Base.{
  ℕ, subst, false, ◌||◌, List, [], ◌∷◌, Option, none, some, arith, Option-cases, inl, inr,
  if_branches,
}
use spare_part.Base.Int.{min_ℤ, ℤ, pos, ltb_ℤ, leb_ℤ}
use spare_part.Base.Text.{Text}
use spare_part.Base.Rows.{get}
use spare_part.Base.Result.{Result-cases, tables_or}
use spare_part.Base.Keeps.{Keeps, kept, kept_after, Keeps-bind}
use spare_part.Stock.Depot.{PartIssueLine}
use spare_part.Stock.Reservations.{get_or_create}
use spare_part.Warehouse.Tables.{shortage_report_row, shortage_decision_row, Warehouse, depot}
use spare_part.Warehouse.Moves.{Captions}
use spare_part.Warehouse.Stocktaking.{get_or_create-IsBooked, adjust-IsBooked}
use spare_part.Warehouse.Conserved.{IsReconciled, stock_in-IsReconciled}
use spare_part.Warehouse.Reconciled.{execute_warehouse_issue-IsReconciled}
use spare_part.Warehouse.History.{mark_shortage_fulfilled-IsReconciled}
use spare_part.Warehouse.Issue.{execute_warehouse_issue}
use spare_part.Procurement.Tables.{remaining_qty, PurchaseOrder, PurchaseOrderItem, Office}
use spare_part.Procurement.Lines.{
  Arrival, quarantine, stock_good, keep_damaged, reallocated, receive_item, receive_items, is_blank,
  capped, paid_price,
}
use spare_part.Procurement.Fulfil.{
  try_auto_fulfill_shortage, fulfil_line, fulfil_lines, unissued, can_be_fulfilled,
}

module _ (part site : ℕ) (base : ℤ) where
  abbrev pub IsStocked : Office → Type 0
  IsStocked o = IsReconciled part site base o.warehouse

  quarantine-IsReconciled :
      (w : Warehouse) (po : PurchaseOrder) (p s : ℕ) (damaged price : ℤ) (invoice : Text)
      (by now : ℕ)
      → IsReconciled part site base w
      → IsReconciled part site base (quarantine w po p s damaged price invoice by now)
  unfolding quarantine
  quarantine-IsReconciled w po p s damaged price invoice by now h =
      let r = get_or_create p s (depot w) in
      let (booked, found, ep, es) = get_or_create-IsBooked part site base p s w h in
      adjust-IsBooked part site base r.0.inventories w.stock_movements r.1 _ _ found (ground arith)
        (ground arith) booked

  stock_good-IsReconciled :
      (w : Warehouse) (po : PurchaseOrder) (i : PurchaseOrderItem) (a : Arrival)
      (invoice note : Text) (s by now : ℕ)
      → IsReconciled part site base w
      → Keeps (IsReconciled part site base) w (stock_good w po i a invoice note s by now)
  unfolding stock_good
  stock_good-IsReconciled w po i a invoice note s by now h =
      if_branches (Keeps (IsReconciled part site base) w) (ltb_ℤ (pos 0) a.good) _ _
        (λ _.
          stock_in-IsReconciled part site base w i.part a.good by (some po.supplier) po.supplier.1
            (some (paid_price i a)) invoice note (some s) now h)
        (λ _. kept h)

  keep_damaged-IsReconciled :
      (w : Warehouse) (po : PurchaseOrder) (i : PurchaseOrderItem) (a : Arrival) (invoice : Text)
      (s by now : ℕ)
      → IsReconciled part site base w
      → IsReconciled part site base (keep_damaged w po i a invoice s by now)
  unfolding keep_damaged
  keep_damaged-IsReconciled w po i a invoice s by now h =
      if_branches (IsReconciled part site base) (ltb_ℤ (pos 0) a.damaged) _ _
        (λ _. quarantine-IsReconciled w po i.part s a.damaged (paid_price i a) invoice by now h)
        (λ _. h)

  reallocated-IsReconciled :
      (w : Warehouse) (p : ℕ) (a : Arrival)
      → IsReconciled part site base w
      → IsReconciled part site base (reallocated w p a)
  unfolding reallocated
  reallocated-IsReconciled w p a h =
      if_branches (IsReconciled part site base) (ltb_ℤ (pos 0) a.good || ltb_ℤ (pos 0) a.damaged) _
        _ (λ _. h) (λ _. h)

  -- From an office `o` that a longer call, begun at `w`, has reached.
  receive_item-IsStocked :
      (w o : Office) (po : PurchaseOrder) (i : PurchaseOrderItem) (form : Arrival)
      (invoice note : Text) (s by now : ℕ)
      → IsStocked w
      → IsStocked o
      → Keeps IsStocked w (receive_item o po i form invoice note s by now)
  unfolding receive_item
  receive_item-IsStocked w o po i form invoice note s by now h k =
      let a = capped form (remaining_qty i) in
      if_branches (Keeps IsStocked w) (is_blank form) _ _ (λ _. kept k)
        (λ _.
          Keeps-bind IsStocked w h (stock_good o.warehouse po i a invoice note s by now) _ (λ v e.
            kept (
              reallocated-IsReconciled _ i.part a (
                keep_damaged-IsReconciled v po i a invoice s by now (
                  subst (λ y. IsReconciled part site base (tables_or o.warehouse y)) e
                    (kept_after (IsReconciled part site base) o.warehouse _
                      (stock_good-IsReconciled o.warehouse po i a invoice note s by now k)))))))

  pub receive_items-IsStocked :
      (is : List PurchaseOrderItem) (w o : Office) (po : PurchaseOrder) (form : ℕ → Arrival)
      (invoice note : Text) (s by now : ℕ)
      → IsStocked w
      → IsStocked o
      → Keeps IsStocked w (receive_items is o po form invoice note s by now)
  unfolding receive_items
  receive_items-IsStocked [] w o po form invoice note s by now h k = kept k
  receive_items-IsStocked (i ∷ is) w o po form invoice note s by now h k =
      let r = receive_item o po i (form i.pk) invoice note s by now in
      Keeps-bind IsStocked w h r _ (λ v e.
        receive_items-IsStocked is w v po form invoice note s by now h (
          subst (λ y. IsStocked (tables_or w y)) e
            (kept_after IsStocked w r
              (receive_item-IsStocked w o po i (form i.pk) invoice note s by now h k))))

  try_auto-IsReconciled :
      (w : Warehouse) (report : Option ℕ) (actor : ℕ) (label : Text) (now : ℕ)
      → IsReconciled part site base w
      → IsReconciled part site base (try_auto_fulfill_shortage w report actor label now)
  unfolding try_auto_fulfill_shortage
  try_auto-IsReconciled w none actor label now h = h
  try_auto-IsReconciled w (some k) actor label now h =
      let done =
        kept_after (IsReconciled part site base) w _
          (mark_shortage_fulfilled-IsReconciled part site base w h k actor label now) in
      elim (Option-cases (get k w.shortage_reports)) [
        | inl missing ↦ rw (missing, try_auto_fulfill_shortage) h
        | inr (r, found) ↦ elim (Option-cases (get k w.shortage_decisions)) [
          | inl undecided ↦ rw (found, undecided, try_auto_fulfill_shortage) h
          | inr (d, decided) ↦
              rw (found, decided, try_auto_fulfill_shortage)
                (if_branches (IsReconciled part site base) (can_be_fulfilled r d) _ _ (λ _. done)
                  (λ _. h))
        ]
      ]

  fulfil_line-IsReconciled :
      (w : Warehouse) (l : PartIssueLine) (left : ℤ) (actor : ℕ) (t : Captions) (label : Text)
      (now : ℕ)
      → IsReconciled part site base w
      → IsReconciled part site base (fulfil_line w l left actor t label now).0
  unfolding fulfil_line
  fulfil_line-IsReconciled w l left actor t label now h =
      let qty = min_ℤ left (unissued l) in
      if_branches (λ (r : Warehouse × ℤ). IsReconciled part site base r.0)
        (leb_ℤ left (pos 0) || leb_ℤ (unissued l) (pos 0)) _ _ (λ _. h)
        (λ _. elim (Result-cases (execute_warehouse_issue w l.pk qty actor false t now)) [
          | inl (v, done) ↦ rw done (
              try_auto-IsReconciled v l.related_shortage_report actor label now (
                subst (λ y. IsReconciled part site base (tables_or w y)) done
                  (kept_after (IsReconciled part site base) w _ (
                    execute_warehouse_issue-IsReconciled part site base w l.pk qty actor false t now
                      h))))
          | inr (e, failed) ↦ rw failed h
        ])

  pub fulfil_lines-IsReconciled :
      (ls : List PartIssueLine) (w : Warehouse) (left : ℤ) (actor : ℕ) (t : Captions) (label : Text)
      (now : ℕ)
      → IsReconciled part site base w
      → IsReconciled part site base (fulfil_lines ls w left actor t label now)
  unfolding fulfil_lines
  fulfil_lines-IsReconciled [] w left actor t label now h = h
  fulfil_lines-IsReconciled (l ∷ ls) w left actor t label now h =
      let r = fulfil_line w l left actor t label now in
      fulfil_lines-IsReconciled ls r.0 r.1 actor t label now
        (fulfil_line-IsReconciled w l left actor t label now h)
