-- ===== src/Tools/Checkout.antt =====
-- Who holds which tool: at most one open assignment for each tool, and one for each tool in use.
use spare_part.Base.{
  false, some, ℕ, zero, suc, ◌≤◌, ◌≡◌, refl, Bool, List, [], ◌∷◌, Option, none, inl, inr, arith,
  count_if, count_if-insert_last, bit, Option-cases,
}
use spare_part.Base.Int.{ℤ}
use spare_part.Base.Text.{Text}
use spare_part.Base.Rows.{
  count_if-save, save, get, flag_at, flag_at-save, flag_at-insert_last, get-key,
}
use spare_part.Stock.Tables.{SparePart}
use spare_part.Tools.Tables.{
  report_row, ReusableToolInstance, ToolStatus, is_in_use, Condition, ToolAssignment, ToolPool,
  tool_row, assignment_row,
}
use spare_part.Tools.Service.{
  extend_notes, write_off, settle_return, return_tool, repair, report, new_unit, new_assignment,
  holds, active_assignment, create_unit, create_units, issue_to_tool_pool, assign,
}
use spare_part.Tools.Steps.{
  writes_off, repairs, reports, returns, assigns, issues, ToolCall, run, step, tables_after,
}

abbrev pub open_count : ℕ → ToolPool → ℕ
open_count k p = count_if (holds k) p.assignments

abbrev pub in_use : ReusableToolInstance → Bool
in_use t = is_in_use t.status

abbrev pub in_use_at : ℕ → ToolPool → Bool
in_use_at k p = flag_at in_use k p.tools

-- Of the tool `k`: an open assignment if it is in use, and never two.
abbrev pub IsHeldOnce : ℕ → ToolPool → Type 0
IsHeldOnce k p = (bit (in_use_at k p) ≤ open_count k p) × (open_count k p ≤ 1)

active_assignment-none_zero :
    (k : ℕ) (rows : List ToolAssignment)
    → active_assignment k rows ≡ none
    → count_if (holds k) rows ≡ 0
active_assignment-none_zero k [] e = refl
active_assignment-none_zero k (a ∷ rows) e = ground (arith, active_assignment-none_zero k rows)

create_unit-IsHeldOnce :
    (k part movement actor : ℕ) (note : Text) (number : ℕ) (p : ToolPool)
    → IsHeldOnce k p
    → IsHeldOnce k (create_unit part movement actor note number p)
unfolding create_unit
create_unit-IsHeldOnce k part movement actor note number p h =
    ground (arith, flag_at-insert_last in_use k (new_unit p part movement number) p.tools refl)

create_units-IsHeldOnce :
    (k n number part movement actor : ℕ) (note : Text) (p : ToolPool)
    → IsHeldOnce k p
    → IsHeldOnce k (create_units n number part movement actor note p)
unfolding create_units
create_units-IsHeldOnce k zero number part movement actor note p h = h
create_units-IsHeldOnce k (suc n) number part movement actor note p h =
    create_units-IsHeldOnce k n (suc number) part movement actor note _
      (create_unit-IsHeldOnce k part movement actor note number p h)

issue-IsHeldOnce :
    (k : ℕ) (p : ToolPool) (part : SparePart) (qty : ℤ) (actor : ℕ) (site : Option ℕ) (note : Text)
    (now : ℕ)
    → IsHeldOnce k p
    → IsHeldOnce k (tables_after (λ q. q) p (issue_to_tool_pool p part qty actor site note now))
unfolding issue_to_tool_pool
issue-IsHeldOnce k p part qty actor site note now h = grind (arith, create_units-IsHeldOnce)

assign-IsHeldOnce :
    (k : ℕ) (p : ToolPool) (tool operator machine : ℕ) (c : Condition) (actor : ℕ) (notes : Text)
    (now : ℕ)
    → IsHeldOnce k p
    → IsHeldOnce k (tables_after (λ r. r.0) p (assign p tool operator machine c actor notes now))
unfolding assign
assign-IsHeldOnce k p tool operator machine c actor notes now h =
    elim (Option-cases (get tool p.tools)) [
      | inl missing ↦ ground arith
      | inr (t, found) ↦ ground (
        arith,
        get-key tool t p.tools found,
        flag_at-save in_use k (record t { status = ToolStatus.in_use }) t p.tools,
        active_assignment-none_zero t.pk p.assignments,
        count_if-insert_last (holds k) (new_assignment p t.pk operator machine c notes now)
            p.assignments,
      )
    ]

-- Closing the open assignment of a tool, which is then saved with another status.
module _ (k now : ℕ) (p : ToolPool) (a b : ToolAssignment) (t t' : ReusableToolInstance) where
  close-IsHeldOnce :
      a.pk ≡ b.pk
      → a.tool ≡ b.tool
      → b.return_at ≡ none
      → a.return_at ≡ some now
      → t'.pk ≡ t.pk
      → in_use t' ≡ false
      → get b.pk p.assignments ≡ some b
      → get b.tool p.tools ≡ some t
      → IsHeldOnce k p
      → IsHeldOnce k (record p { assignments = save a p.assignments; tools = save t' p.tools })
  close-IsHeldOnce ea et eo er e' u fa ft h = ground (
    arith,
    get-key b.tool t p.tools ft,
    flag_at-save in_use k t' t p.tools,
    count_if-save (holds k) a b p.assignments,
  )

settle_return-IsHeldOnce :
    (k : ℕ) (c : Condition) (p : ToolPool) (a b : ToolAssignment) (t : ReusableToolInstance)
    (actor : ℕ) (reason : Option Text) (now : ℕ)
    → a.pk ≡ b.pk
    → a.tool ≡ b.tool
    → b.return_at ≡ none
    → a.return_at ≡ some now
    → get b.pk p.assignments ≡ some b
    → get b.tool p.tools ≡ some t
    → IsHeldOnce k p
    → IsHeldOnce k (
        tables_after
          (λ r. r.0)
          p
          (settle_return c (record p { assignments = save a p.assignments }) a t actor reason now))
unfolding settle_return
settle_return-IsHeldOnce k Condition.damaged p a b t actor reason now ea et eo er fa ft h = ground (
  arith,
  close-IsHeldOnce k now p a b t (record t { status = ToolStatus.out_of_service }) ea et eo er refl
      refl fa ft h,
)
settle_return-IsHeldOnce k _ p a b t actor reason now ea et eo er fa ft h =
    close-IsHeldOnce k now p a b t (record t { status = ToolStatus.available }) ea et eo er refl
      refl fa ft h

return_tool-IsHeldOnce :
    (k : ℕ) (p : ToolPool) (assignment : ℕ) (c : Option Condition) (actor : ℕ)
    (reason : Option Text) (notes : Text) (now : ℕ)
    → IsHeldOnce k p
    → IsHeldOnce k (tables_after (λ r. r.0) p (return_tool p assignment c actor reason notes now))
unfolding return_tool
return_tool-IsHeldOnce k p assignment c actor reason notes now h =
    elim (Option-cases (get assignment p.assignments)) [
      | inl missing ↦ ground arith
      | inr (b, fa) ↦ elim (Option-cases (get b.tool p.tools)) [
        | inl missing ↦ ground arith
        | inr (t, ft) ↦ elim (Option-cases c) [
          | inl missing ↦ ground arith
          | inr (d, given) ↦ ground (
            arith,
            get-key assignment b p.assignments fa,
            settle_return-IsHeldOnce k d p
                (record b {
                  return_at = some now;
                  condition_in = some d;
                  notes = extend_notes b.notes notes;
                })
                b t actor reason now refl refl,
          )
        ]
      ]
    ]

report-IsHeldOnce :
    (k : ℕ) (p : ToolPool) (tool : ℕ) (reason : Text) (machine : Option ℕ) (actor : ℕ)
    (assignment : Option ℕ) (now : ℕ)
    → IsHeldOnce k p
    → IsHeldOnce k (tables_after (λ r. r.0) p (report p tool reason machine actor assignment now))
unfolding report
report-IsHeldOnce k p tool reason machine actor assignment now h =
    elim (Option-cases (get tool p.tools)) [
      | inl missing ↦ ground arith
      | inr (t, found) ↦ ground (
        arith,
        get-key tool t p.tools found,
        flag_at-save in_use k (record t { status = ToolStatus.out_of_service }) t p.tools,
      )
    ]

repair-IsHeldOnce :
    (k : ℕ) (p : ToolPool) (r : ℕ) (cost : Option ℤ) (actor now : ℕ)
    → IsHeldOnce k p
    → IsHeldOnce k (tables_after (λ r. r.0) p (repair p r cost actor now))
unfolding repair
repair-IsHeldOnce k p r cost actor now h = elim (Option-cases (get r p.reports)) [
  | inl missing ↦ ground arith
  | inr (d, found) ↦ elim (Option-cases (get d.tool p.tools)) [
    | inl missing ↦ ground arith
    | inr (t, ft) ↦ ground (
      arith,
      get-key d.tool t p.tools ft,
      flag_at-save in_use k (record t { status = ToolStatus.available }) t p.tools,
    )
  ]
]

write_off-IsHeldOnce :
    (k : ℕ) (p : ToolPool) (r actor now : ℕ)
    → IsHeldOnce k p
    → IsHeldOnce k (tables_after (λ r. r.0) p (write_off p r actor now))
unfolding write_off
write_off-IsHeldOnce k p r actor now h = elim (Option-cases (get r p.reports)) [
  | inl missing ↦ ground arith
  | inr (d, found) ↦ elim (Option-cases (get d.tool p.tools)) [
    | inl missing ↦ ground arith
    | inr (t, ft) ↦ ground (
      arith,
      get-key d.tool t p.tools ft,
      flag_at-save in_use k (record t { is_active = false; status = ToolStatus.out_of_service }) t
          p.tools,
    )
  ]
]

-- Every call keeps each tool with at most one open assignment, and with one if it is in use.
pub step-IsHeldOnce :
    (k : ℕ) (p : ToolPool) (c : ToolCall) → IsHeldOnce k p → IsHeldOnce k (step p c)
unfolding step
step-IsHeldOnce k p (issues part qty actor site note now) h =
    issue-IsHeldOnce k p part qty actor site note now h
step-IsHeldOnce k p (assigns tool operator machine c actor notes now) h =
    assign-IsHeldOnce k p tool operator machine c actor notes now h
step-IsHeldOnce k p (returns assignment c actor reason notes now) h =
    return_tool-IsHeldOnce k p assignment c actor reason notes now h
step-IsHeldOnce k p (reports tool reason machine actor assignment now) h =
    report-IsHeldOnce k p tool reason machine actor assignment now h
step-IsHeldOnce k p (repairs r cost actor now) h = repair-IsHeldOnce k p r cost actor now h
step-IsHeldOnce k p (writes_off r actor now) h = write_off-IsHeldOnce k p r actor now h

-- After any history of calls of the pool's services a tool is in at most one open assignment, and in
-- one if it is in use, where that held before.
pub run-IsHeldOnce :
    (k : ℕ) (p : ToolPool) (cs : List ToolCall) → IsHeldOnce k p → IsHeldOnce k (run p cs)
unfolding run
run-IsHeldOnce k p [] h = h
run-IsHeldOnce k p (c ∷ cs) h = run-IsHeldOnce k (step p c) cs (step-IsHeldOnce k p c h)
