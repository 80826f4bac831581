-- ===== src/Tools/Retirement.antt =====
-- `ToolDamageService.write_off` takes a tool out of the pool for good.
use spare_part.Base.{
  ℕ, zero, suc, ◌≡◌, refl, Bool, true, false, not, List, [], ◌∷◌, Option, some, inl, inr, arith,
  Option-cases,
}
use spare_part.Base.Int.{ℤ}
use spare_part.Base.Text.{Text}
use spare_part.Base.Rows.{
  get, get-next_pk, save, flag_at, flag_at-save, flag_at-insert_last, get-key,
}
use spare_part.Base.Result.{ok, err}
use spare_part.Stock.Tables.{SparePart}
use spare_part.Tools.Tables.{
  ToolStatus, Condition, ToolAssignment, ToolDamageReport, ReusableToolInstance, ToolPool, tool_row,
  assignment_row, report_row,
}
use spare_part.Tools.Service.{
  inactive, extend_notes, new_unit, create_unit, create_units, issue_to_tool_pool, assign,
  settle_return, return_tool, report, repair, write_off,
}
use spare_part.Tools.Steps.{
  ToolCall, issues, assigns, returns, reports, repairs, writes_off, tables_after, step, run,
}

abbrev is_retired : ReusableToolInstance → Bool
is_retired t = not t.is_active

-- The tool `k` is in the pool's tables, and inactive.
abbrev pub retired_at : ℕ → ToolPool → Bool
retired_at k p = flag_at is_retired k p.tools

module _ (k : ℕ) where
  -- A row saved with the same key that is not active again keeps a retired tool retired.
  save-retired :
      (p : ToolPool) (t t' : ReusableToolInstance) (tool : ℕ)
      → get tool p.tools ≡ some t
      → t'.pk ≡ t.pk
      → (is_retired t ≡ true → is_retired t' ≡ true)
      → flag_at is_retired k p.tools ≡ true
      → flag_at is_retired k (save t' p.tools) ≡ true
  save-retired p t t' tool found e keep h =
      ground (arith, get-key tool t p.tools found, flag_at-save is_retired k t' t p.tools)

  create_units-retired :
      (n number part movement actor : ℕ) (note : Text) (p : ToolPool)
      → retired_at k p ≡ true
      → retired_at k (create_units n number part movement actor note p) ≡ true
  unfolding create_units create_unit
  create_units-retired zero number part movement actor note p h = h
  create_units-retired (suc n) number part movement actor note p h =
      create_units-retired n (suc number) part movement actor note
        (create_unit part movement actor note number p)
        (ground (
          arith,
          flag_at-insert_last is_retired k (new_unit p part movement number) p.tools refl,
          get-next_pk k p.tools,
        ))

  issue-retired :
      (p : ToolPool) (part : SparePart) (qty : ℤ) (actor : ℕ) (site : Option ℕ) (note : Text)
      (now : ℕ)
      → retired_at k p ≡ true
      → retired_at k (tables_after (λ q. q) p (issue_to_tool_pool p part qty actor site note now))
        ≡ true
  unfolding issue_to_tool_pool
  issue-retired p part qty actor site note now h = grind (arith, create_units-retired)

  assign-retired :
      (p : ToolPool) (tool operator machine : ℕ) (c : Condition) (actor : ℕ) (notes : Text)
      (now : ℕ)
      → retired_at k p ≡ true
      → retired_at k (tables_after (λ r. r.0) p (assign p tool operator machine c actor notes now))
        ≡ true
  unfolding assign
  assign-retired p tool operator machine c actor notes now h =
      elim (Option-cases (get tool p.tools)) [
        | inl missing ↦ ground arith
        | inr (t, found) ↦ ground (
          arith,
          save-retired p t (record t { status = ToolStatus.in_use }) tool found refl (λ e. e) h,
        )
      ]

  settle_return-retired :
      (c : Condition) (p : ToolPool) (a : ToolAssignment) (t : ReusableToolInstance) (actor : ℕ)
      (reason : Option Text) (now tool : ℕ)
      → get tool p.tools ≡ some t
      → retired_at k p ≡ true
      → retired_at k (tables_after (λ r. r.0) p (settle_return c p a t actor reason now)) ≡ true
  unfolding settle_return
  settle_return-retired Condition.damaged p a t actor reason now tool found h = ground (
    arith,
    save-retired p t (record t { status = ToolStatus.out_of_service }) tool found refl (λ e. e) h,
  )
  settle_return-retired _ p a t actor reason now tool found h =
      save-retired p t (record t { status = ToolStatus.available }) tool found refl (λ e. e) h

  return_tool-retired :
      (p : ToolPool) (assignment : ℕ) (c : Option Condition) (actor : ℕ) (reason : Option Text)
      (notes : Text) (now : ℕ)
      → retired_at k p ≡ true
      → retired_at k (tables_after (λ r. r.0) p (return_tool p assignment c actor reason notes now))
        ≡ true
  unfolding return_tool
  return_tool-retired p assignment c actor reason notes now h =
      elim (Option-cases (get assignment p.assignments)) [
        | inl missing ↦ ground arith
        | inr (b, fa) ↦ elim (Option-cases (get b.tool p.tools)) [
          | inl missing ↦ ground arith
          | inr (t, ft) ↦ elim (Option-cases c) [
            | inl missing ↦ ground arith
            | inr (d, given) ↦
                let closed : ToolAssignment = record b {
                  return_at = some now;
                  condition_in = some d;
                  notes = extend_notes b.notes notes;
                } in
                ground (
                  arith,
                  settle_return-retired d (record p { assignments = save closed p.assignments })
                      closed t actor reason now b.tool ft h,
                )
          ]
        ]
      ]

  report-retired :
      (p : ToolPool) (tool : ℕ) (reason : Text) (machine : Option ℕ) (actor : ℕ)
      (assignment : Option ℕ) (now : ℕ)
      → retired_at k p ≡ true
      → retired_at k (tables_after (λ r. r.0) p (report p tool reason machine actor assignment now))
        ≡ true
  unfolding report
  report-retired p tool reason machine actor assignment now h =
      elim (Option-cases (get tool p.tools)) [
        | inl missing ↦ ground arith
        | inr (t, found) ↦ ground (
          arith,
          save-retired p t (record t { status = ToolStatus.out_of_service }) tool found refl
              (λ e. e) h,
        )
      ]

  repair-retired :
      (p : ToolPool) (r : ℕ) (cost : Option ℤ) (actor now : ℕ)
      → retired_at k p ≡ true
      → retired_at k (tables_after (λ r. r.0) p (repair p r cost actor now)) ≡ true
  unfolding repair
  repair-retired p r cost actor now h = elim (Option-cases (get r p.reports)) [
    | inl missing ↦ ground arith
    | inr (d, found) ↦ elim (Option-cases (get d.tool p.tools)) [
      | inl missing ↦ ground arith
      | inr (t, ft) ↦ ground (
        arith,
        save-retired p t (record t { status = ToolStatus.available }) d.tool ft refl (λ e. e) h,
      )
    ]
  ]

  write_off-retired :
      (p : ToolPool) (r actor now : ℕ)
      → retired_at k p ≡ true
      → retired_at k (tables_after (λ r. r.0) p (write_off p r actor now)) ≡ true
  unfolding write_off
  write_off-retired p r actor now h = elim (Option-cases (get r p.reports)) [
    | inl missing ↦ ground arith
    | inr (d, found) ↦ elim (Option-cases (get d.tool p.tools)) [
      | inl missing ↦ ground arith
      | inr (t, ft) ↦ ground (
        arith,
        save-retired p t (record t { is_active = false; status = ToolStatus.out_of_service }) d.tool
            ft refl (λ e. refl) h,
      )
    ]
  ]

  step-retired :
      (p : ToolPool) (c : ToolCall) → retired_at k p ≡ true → retired_at k (step p c) ≡ true
  unfolding step
  step-retired p (issues part qty actor site note now) h =
      issue-retired p part qty actor site note now h
  step-retired p (assigns tool operator machine c actor notes now) h =
      assign-retired p tool operator machine c actor notes now h
  step-retired p (returns assignment c actor reason notes now) h =
      return_tool-retired p assignment c actor reason notes now h
  step-retired p (reports tool reason machine actor assignment now) h =
      report-retired p tool reason machine actor assignment now h
  step-retired p (repairs r cost actor now) h = repair-retired p r cost actor now h
  step-retired p (writes_off r actor now) h = write_off-retired p r actor now h

  -- No history of calls makes a retired tool active again.
  pub run-retired :
      (p : ToolPool) (cs : List ToolCall) → retired_at k p ≡ true → retired_at k (run p cs) ≡ true
  unfolding run
  run-retired p [] h = h
  run-retired p (c ∷ cs) h = run-retired (step p c) cs (step-retired p c h)

  assign_retired :
      (p : ToolPool) (operator machine : ℕ) (c : Condition) (actor : ℕ) (notes : Text) (now : ℕ)
      → retired_at k p ≡ true
      → assign p k operator machine c actor notes now ≡ err inactive
  unfolding assign
  assign_retired p operator machine c actor notes now h = ground arith

write_off_retires :
    (p : ToolPool) (r actor now : ℕ) {q : ToolPool} {d : ToolDamageReport}
    → write_off p r actor now ≡ ok (q, d)
    → retired_at d.tool q ≡ true
unfolding write_off
write_off_retires p r actor now e = elim (Option-cases (get r p.reports)) [
  | inl missing ↦ ground arith
  | inr (d, found) ↦ elim (Option-cases (get d.tool p.tools)) [
    | inl missing ↦ ground arith
    | inr (t, ft) ↦ ground (
      arith,
      get-key d.tool t p.tools ft,
      flag_at-save is_retired d.tool
          (record t { is_active = false; status = ToolStatus.out_of_service }) t p.tools,
    )
  ]
]

-- Once a damage report is written off, its tool is refused to every operator after any further
-- history of calls of the pool's services.
pub write_off_final :
    (p : ToolPool) (r by now : ℕ) {q : ToolPool} {d : ToolDamageReport} (cs : List ToolCall)
    (operator machine : ℕ) (c : Condition) (actor : ℕ) (notes : Text) (later : ℕ)
    → write_off p r by now ≡ ok (q, d)
    → assign (run q cs) d.tool operator machine c actor notes later ≡ err inactive
write_off_final p r by now {q} {d} cs operator machine c actor notes later e =
    assign_retired d.tool (run q cs) operator machine c actor notes later
      (run-retired d.tool q cs (write_off_retires p r by now e))
