-- ===== src/Warehouse/Lines.antt =====
-- Every service of the warehouse moves the part lines along their workflow.
use spare_part.Base.Keeps.{Keeps, kept, Keeps-raise_if, Keeps-or_raise}
use spare_part.Stock.Reservations.{allocate_one}
use spare_part.Blockers.Service.{open_blocker}
use spare_part.Warehouse.Approval.{
  allocated_object, allocation_saved, approval_saved, refresh_cost, is_approved_line, note_approval,
  approved_by_manager, cancelled_line, edit_part_request_qty, reject_part_request,
  cancel_approved_part_request, emergency_review_part_line, approve_part_request,
}
use spare_part.Blockers.Tables.{part_issue_line, Kind, LineStatus}
use spare_part.Warehouse.Requests.{request_opening, block_for_request, allocate_and_recompute}
use spare_part.Base.{
  refl, none, if◌then◌else◌, false, ℕ, ◌≡◌, Bool, true, List, Option, some, arith, if_branches, inl,
  inr,
}
use spare_part.Base.Int.{ℤ}
use spare_part.Base.Text.{Text}
use spare_part.Base.Rows.{get_own, get, save, get-save_self}
use spare_part.Base.Result.{ok, Result-cases}
use spare_part.Stock.Depot.{ReviewDecision, line_row, PartIssueLine}
use spare_part.Warehouse.Tables.{Warehouse, depot}
use spare_part.Warehouse.Workflow.{
  can_follow, follows, follows_refl, follows_trans, status_in, follows-save, follows-allocate_one,
}

-- The line `k` of the tables `v` is where the workflow leads from its state `s`.
abbrev pub IsLater : ℕ → Option LineStatus → Warehouse → Type 0
IsLater k s v = follows s (status_in k v.lines) ≡ true

pub save-IsLater :
    (k : ℕ) (s : Option LineStatus) (lines : List PartIssueLine) (a b : PartIssueLine)
    → get a.pk lines ≡ some b
    → can_follow b.status a.status ≡ true
    → follows s (status_in k lines) ≡ true
    → follows s (status_in k (save a lines)) ≡ true
save-IsLater k s lines a b found c h =
    follows_trans s (status_in k lines) _ h (follows-save k a b lines found c)

pub allocate_and_recompute-IsLater :
    (k : ℕ) (s : Option LineStatus) (w : Warehouse) (l : PartIssueLine)
    → get l.pk w.lines ≡ some l
    → IsLater k s w
    → IsLater k s (allocate_and_recompute w l)
unfolding allocate_and_recompute
allocate_and_recompute-IsLater k s w l found h = elim (Result-cases (allocate_one (depot w) l)) [
  | inl (r, done) ↦
      rw (done, allocate_and_recompute)
        (follows_trans s (status_in k w.lines) (status_in k r.0.lines) h
          (follows-allocate_one k (depot w) l r found done))
  | inr (e, failed) ↦ rw (failed, allocate_and_recompute) h
]

pub block_for_request-IsLater :
    (k : ℕ) (s : Option LineStatus) (w : Warehouse) (l : PartIssueLine) (technician : ℕ)
    (note label : Text)
    → get l.pk w.lines ≡ some l
    → IsLater k s w
    → IsLater k s (block_for_request w l technician note label)
unfolding block_for_request
block_for_request-IsLater k s w l technician note label found h =
    elim (Result-cases (
      open_blocker w.board l.work_order Kind.part (some (part_issue_line l.pk l.status))
        (request_opening technician note label))) [
          | inl (r, opened) ↦
              rw (opened, block_for_request)
                (allocate_and_recompute-IsLater k s (record w { board = r.0 }) l found h)
          | inr (e, failed) ↦ rw (failed, block_for_request) h
        ]

-- The row that a caller who has read `l` finds under the lock.
same_row :
    (b : Bool) (o : Option PartIssueLine) (l row : PartIssueLine)
    → o ≡ some l
    → (if b then some l else o) ≡ some row
    → row ≡ l
same_row true o l row e f = ground arith
same_row false o l row e f = ground arith

allocation_saved-IsLater :
    (k : ℕ) (s : Option LineStatus) (row : PartIssueLine) (o : Option PartIssueLine)
    (lines : List PartIssueLine)
    → get row.pk lines ≡ o
    → follows s (status_in k lines) ≡ true
    → follows s (status_in k (allocation_saved row o lines)) ≡ true
allocation_saved-IsLater k s row none lines read h = h
allocation_saved-IsLater k s row (some x) lines read h =
    save-IsLater k s lines (record row { allocated_qty = x.allocated_qty; status = x.status }) x
      read (follows_refl (some x.status)) h

-- The object `l` of the caller is the row as it stands in the tables.
module _ (k : ℕ) (s : Option LineStatus) (w : Warehouse) (h : IsLater k s w) (l : PartIssueLine)
    (here : get l.pk w.lines ≡ some l) where
  pub approve_part_request-IsLater :
      (manager : ℕ) (auto : Bool) (now : ℕ)
      → Keeps (IsLater k s) w (approve_part_request w l manager auto now)
  unfolding approve_part_request
  approve_part_request-IsLater manager auto now =
      let P = IsLater k s in
      Keeps-raise_if P w h _ _ _ (λ active. Keeps-raise_if P w h _ _ _ (λ _.
        Keeps-or_raise P w h _ _ _ (λ row locked. Keeps-raise_if P w h _ _ _ (λ _.
          let m = approved_by_manager l manager auto now in
          let saved : PartIssueLine → Warehouse = λ a. record w {
            lines = save (approval_saved a m) w.lines;
            board = note_approval w.board m manager;
          } in
          let same = same_row (is_approved_line l.status) (get l.pk w.lines) l row here locked in
          if_branches (Keeps P w) (is_approved_line l.status) (ok w)
            (ok (refresh_cost (allocated_object (saved row) (approval_saved row m) m) l.work_order))
            (λ _. kept h)
            (λ fresh. kept (
              rw same (
                allocation_saved-IsLater k s m _ (allocate_and_recompute (saved l) m).lines refl (
                  allocate_and_recompute-IsLater k s (saved l) m (get-save_self m l w.lines here)
                    (save-IsLater k s w.lines m l here (ground (arith, active, fresh)) h)))))))))

  pub reject_part_request-IsLater :
      (manager : ℕ) (reason : Text) (now : ℕ)
      → Keeps (IsLater k s) w (reject_part_request w l manager reason now)
  unfolding reject_part_request
  reject_part_request-IsLater manager reason now =
      let P = IsLater k s in
      Keeps-raise_if P w h _ _ _ (λ pending. Keeps-raise_if P w h _ _ _ (λ _.
        Keeps-or_raise P w h _ _ _ (λ row found. kept (
          save-IsLater k s w.lines _ row (get_own l.pk row w.lines found)
            (ground (arith, pending, same_row false (get l.pk w.lines) l row here found)) h))))

  pub cancel_approved_part_request-IsLater :
      (manager : ℕ) (reason : Text) (now : ℕ)
      → Keeps (IsLater k s) w (cancel_approved_part_request w l manager reason now)
  unfolding cancel_approved_part_request
  cancel_approved_part_request-IsLater manager reason now =
      let P = IsLater k s in
      Keeps-raise_if P w h _ _ _ (λ active. Keeps-raise_if P w h _ _ _ (λ _.
        Keeps-raise_if P w h _ _ _ (λ _. Keeps-or_raise P w h _ _ _ (λ row found. kept (
          save-IsLater k s w.lines (cancelled_line row reason) row (get_own l.pk row w.lines found)
            (ground (arith, active, same_row false (get l.pk w.lines) l row here found)) h)))))

  pub edit_part_request_qty-IsLater : (q : ℤ) → Keeps (IsLater k s) w (edit_part_request_qty w l q)
  unfolding edit_part_request_qty
  edit_part_request_qty-IsLater q =
      let P = IsLater k s in
      Keeps-raise_if P w h _ _ _ (λ pending. Keeps-raise_if P w h _ _ _ (λ _.
        Keeps-or_raise P w h _ _ _ (λ row found. kept (
          save-IsLater k s w.lines _ row (get_own l.pk row w.lines found)
            (ground (arith, pending, same_row false (get l.pk w.lines) l row here found)) h))))

  pub emergency_review_part_line-IsLater :
      (manager : ℕ) (decision : Option ReviewDecision) (note : Text) (now : ℕ)
      → Keeps (IsLater k s) w (emergency_review_part_line w l manager decision note now)
  unfolding emergency_review_part_line
  emergency_review_part_line-IsLater manager decision note now =
      let P = IsLater k s in
      Keeps-or_raise P w h _ _ _ (λ _ _. Keeps-raise_if P w h _ _ _ (λ _.
        Keeps-raise_if P w h _ _ _ (λ _. Keeps-or_raise P w h _ _ _ (λ row found. kept (
          save-IsLater k s w.lines _ row (get_own l.pk row w.lines found)
            (follows_refl (some row.status)) h)))))
