-- ===== src/Tools/Outcomes.antt =====
-- What a checkout, a return and a damage report of inventory/services_tools.py lead to.
use spare_part.Base.{
  ℕ, ◌≡◌, ◌≢◌, ◌↔◌, refl, true, Option, none, some, inl, inr, arith, Option-cases, count_if,
  count_if-insert_last,
}
use spare_part.Base.Int.{ℤ}
use spare_part.Base.Text.{Text}
use spare_part.Base.Rows.{
  get, save, flag_at, flag_at-save, get-key, get-save_self, get-next_pk, get-insert_last,
  count_if-save,
}
use spare_part.Base.Result.{ok, err}
use spare_part.Tools.Tables.{
  ToolStatus, is_available, Condition, ToolAssignment, ToolDamageReport, ReportStatus,
  ReusableToolInstance, ToolPool, tool_row, assignment_row, report_row,
}
use spare_part.Tools.Service.{
  log_return, close_assignment, check_out, not_open, holds, active_assignment, new_assignment,
  assign, settle_return, return_tool, repair, write_off,
}

-- A checkout of a known tool succeeds exactly when the tool is active, available and in no open
-- assignment.
pub assign_iff :
    (p : ToolPool) (tool operator machine : ℕ) (c : Condition) (actor : ℕ) (notes : Text) (now : ℕ)
    (t : ReusableToolInstance)
    → get tool p.tools ≡ some t
    → ((r : ToolPool × ToolAssignment) × (assign p tool operator machine c actor notes now ≡ ok r))
      ↔ ((t.is_active ≡ true)
          × (t.status ≡ ToolStatus.available)
          × (active_assignment tool p.assignments ≡ none))
unfolding assign
assign_iff p tool operator machine c actor notes now t found = (
  λ r. ground (arith, r.1, get-key tool t p.tools found),
  λ h.
      let a = new_assignment p t.pk operator machine c notes now in
      ((check_out p t a actor notes, a), ground (arith, get-key tool t p.tools found)),
)

return_undamaged :
    (p : ToolPool) (k : ℕ) (c : Condition) (actor : ℕ) (reason : Option Text) (notes : Text)
    (now : ℕ) (b : ToolAssignment) (t : ReusableToolInstance)
    → c ≢ Condition.damaged
    → get k p.assignments ≡ some b
    → b.return_at ≡ none
    → get b.tool p.tools ≡ some t
    → return_tool p k (some c) actor reason notes now
      ≡ ok (
        log_return
            (record p {
              assignments = save (close_assignment b c notes now) p.assignments;
              tools = save (record t { status = ToolStatus.available }) p.tools;
            })
            t
            (close_assignment b c notes now)
            actor
            notes,
        close_assignment b c notes now,
        none,
      )
unfolding return_tool settle_return
return_undamaged p k Condition.good actor reason notes now b t ne fa er ft = ground arith
return_undamaged p k Condition.fair actor reason notes now b t ne fa er ft = ground arith
return_undamaged p k Condition.damaged actor reason notes now b t ne fa er ft = absurd (ne refl)

-- What a successful checkout read and wrote.
module _ (p : ToolPool) (tool operator machine : ℕ) (c : Condition) (actor : ℕ) (notes : Text)
    (now : ℕ) (t : ReusableToolInstance) (found : get tool p.tools ≡ some t) where
  assign-check_out :
      {q : ToolPool} {a : ToolAssignment}
      → assign p tool operator machine c actor notes now ≡ ok (q, a)
      → (t.pk ≡ tool)
        × (t.status ≡ ToolStatus.available)
        × (a ≡ new_assignment p t.pk operator machine c notes now)
        × (q ≡ check_out p t (new_assignment p t.pk operator machine c notes now) actor notes)
  unfolding assign
  assign-check_out e = ground (arith, get-key tool t p.tools found)

-- A tool that is checked out and comes back undamaged stands as it stood before, with as many open
-- assignments.
pub assign-return_tool :
    (p : ToolPool) (tool operator machine : ℕ) (c back : Condition) (actor : ℕ) (notes : Text)
    (now : ℕ) (reason : Option Text) (remarks : Text) (later : ℕ) {q : ToolPool}
    {a : ToolAssignment}
    → back ≢ Condition.damaged
    → assign p tool operator machine c actor notes now ≡ ok (q, a)
    → (r : ToolPool × ToolAssignment × Option ℕ) × (return_tool q a.pk
          (some back)
          actor
          reason
          remarks
          later
        ≡ ok r)
      × (get tool r.0.tools ≡ get tool p.tools)
      × (count_if (holds tool) r.0.assignments ≡ count_if (holds tool) p.assignments)
unfolding assign
assign-return_tool p tool operator machine c back actor notes now reason remarks later {q} {a} ne
      e =
    elim (Option-cases (get tool p.tools)) [
      | inl missing ↦ absurd (ground arith)
      | inr (t, found) ↦
          let seen = assign-check_out p tool operator machine c actor notes now t found e in
          let b = new_assignment p t.pk operator machine c notes now in
          let u = check_out p t b actor notes in
          let closed = close_assignment b back remarks later in
          (
            (
              log_return
                  (record u {
                    assignments = save closed u.assignments;
                    tools = save (record t { status = ToolStatus.available }) u.tools;
                  })
                  t closed actor remarks,
              closed,
              none,
            ),
            rw (seen.3, seen.2)
                (return_undamaged u b.pk back actor reason remarks later b
                  (record t { status = ToolStatus.in_use }) ne
                  (ground
                    (arith, get-insert_last b.pk b p.assignments, get-next_pk b.pk p.assignments))
                  refl
                  (get-save_self (record t { status = ToolStatus.in_use }) t p.tools
                    (ground (arith, seen)))),
            ground (
              arith,
              seen,
              get-save_self (record t { status = ToolStatus.in_use }) t p.tools,
              get-save_self (record t { status = ToolStatus.available })
                  (record t { status = ToolStatus.in_use }) u.tools,
            ),
            ground (
              arith,
              seen,
              get-insert_last b.pk b p.assignments,
              get-next_pk b.pk p.assignments,
              count_if-insert_last (holds tool) b p.assignments,
              count_if-save (holds tool) closed b u.assignments,
            ),
          )
    ]

-- After an undamaged return the tool is available, and every damage report is as it was: one that
-- was open while the tool was out stays open.
return_tool_keeps_reports :
    (p : ToolPool) (assignment : ℕ) (c : Condition) (actor : ℕ) (reason : Option Text)
    (notes : Text) (now : ℕ) {q : ToolPool} {a : ToolAssignment} {r : Option ℕ}
    → c ≢ Condition.damaged
    → return_tool p assignment (some c) actor reason notes now ≡ ok (q, a, r)
    → (flag_at (λ t. is_available t.status) a.tool q.tools ≡ true) × (q.reports ≡ p.reports)
unfolding return_tool settle_return
return_tool_keeps_reports p assignment c actor reason notes now ne e =
    elim (Option-cases (get assignment p.assignments)) [
      | inl missing ↦ ground arith
      | inr (b, fa) ↦ elim (Option-cases (get b.tool p.tools)) [
        | inl missing ↦ ground arith
        | inr (t, ft) ↦ ground (
          arith,
          get-key b.tool t p.tools ft,
          flag_at-save (λ t. is_available t.status) b.tool
              (record t { status = ToolStatus.available }) t p.tools,
        )
      ]
    ]

-- A damage report is settled once: after a repair, neither a repair nor a write-off is accepted.
repair_once :
    (p : ToolPool) (k : ℕ) (cost : Option ℤ) (actor now : ℕ) {q : ToolPool} {d : ToolDamageReport}
    (again : Option ℤ) (by later : ℕ)
    → repair p k cost actor now ≡ ok (q, d)
    → (repair q k again by later ≡ err not_open) × (write_off q k by later ≡ err not_open)
unfolding repair write_off
repair_once p k cost actor now again by later e = elim (Option-cases (get k p.reports)) [
  | inl missing ↦ ground arith
  | inr (d, found) ↦ elim (Option-cases (get d.tool p.tools)) [
    | inl missing ↦ ground arith
    | inr (t, ft) ↦ elim (Option-cases cost) [
      | inl missing ↦ ground arith
      | inr (x, given) ↦ ground (
        arith,
        get-key k d p.reports found,
        get-save_self
            (record d {
              status = ReportStatus.repaired;
              repair_cost = some x;
              resolved_at = some now;
              resolved_by = some actor;
            })
            d p.reports,
      )
    ]
  ]
]
