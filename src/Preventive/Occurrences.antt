-- ===== src/Preventive/Occurrences.antt =====
-- There is one execution for each occurrence of a schedule.
use spare_part.Base.{
  ℕ, ◌≤◌, ◌≡◌, refl, sym, subst, true, List, [], ◌∷◌, none, some, arith, count_if, find_first,
  Option-cases, inl, inr, if_branches, insert_last, ◌&&◌, count_if-insert_last,
  find_first-none_zero, ◌==◌,
}
use spare_part.Base.Rows.{get, save, count_if-save, get_own, get-save_self}
use spare_part.Preventive.Calendar.{Date, Moment, same_moment}
use spare_part.Preventive.Tables.{PmSchedule, PmExecution, Engine, execution_row, is_occurrence}
use spare_part.Preventive.Scheduling.{get_or_create, new_execution, generate_each, due_on}

module _ (k : ℕ) (m : Moment) where
  -- The table has one row at most for the schedule `k` at the moment `m`.
  abbrev pub IsSingle : List PmExecution → Type 0
  IsSingle xs = count_if (is_occurrence k m) xs ≤ 1

  pub save-IsSingle :
      (x old : PmExecution) (xs : List PmExecution)
      → get x.pk xs ≡ some old
      → is_occurrence k m x ≡ is_occurrence k m old
      → IsSingle xs
      → IsSingle (save x xs)
  save-IsSingle x old xs found same h =
      ground (arith, count_if-save (is_occurrence k m) x old xs found)

  same_occurrence :
      (j : ℕ) (n : Moment) (xs : List PmExecution)
      → (k == j) && same_moment n m ≡ true
      → count_if (is_occurrence j n) xs ≡ count_if (is_occurrence k m) xs
  same_occurrence j n [] e = refl
  same_occurrence j n (x ∷ xs) e = ground (arith, same_occurrence j n xs e)

  pub insert-IsSingle :
      (x : PmExecution) (xs : List PmExecution)
      → find_first (is_occurrence x.pm_schedule x.scheduled_due_at) xs ≡ none
      → IsSingle xs
      → IsSingle (insert_last x xs)
  insert-IsSingle x xs missing h = ground (
    arith,
    count_if-insert_last (is_occurrence k m) x xs,
    same_occurrence x.pm_schedule x.scheduled_due_at xs,
    find_first-none_zero (is_occurrence x.pm_schedule x.scheduled_due_at) xs missing,
  )

  pub get_or_create-IsSingle :
      (j : ℕ) (n : Moment) (xs : List PmExecution) → IsSingle xs → IsSingle (get_or_create j n xs).0
  unfolding get_or_create
  get_or_create-IsSingle j n xs h = elim (Option-cases (find_first (is_occurrence j n) xs)) [
    | inl missing ↦
        rw (missing, get_or_create) (insert-IsSingle (new_execution xs j n) xs missing h)
    | inr (x, found) ↦ rw (found, get_or_create) h
  ]

  pub generate_each-IsSingle :
      (ss : List PmSchedule) (today : Date) (xs : List PmExecution) (n : ℕ)
      → IsSingle xs
      → IsSingle (generate_each ss today xs n).0
  unfolding generate_each
  generate_each-IsSingle [] today xs n h = h
  generate_each-IsSingle (s ∷ ss) today xs n h =
      generate_each-IsSingle ss today _ _ (
        if_branches IsSingle _ _ _ (λ _. get_or_create-IsSingle s.pk (due_on today s) xs h)
          (λ _. h))

module _ (k : ℕ) (m : Moment) (e : Engine) (h : IsSingle k m e.executions) where
  -- A changed row of the execution that was read.
  pub changed :
      (j : ℕ) (x y : PmExecution)
      → get j e.executions ≡ some x
      → y.pk ≡ x.pk
      → is_occurrence k m y ≡ is_occurrence k m x
      → IsSingle k m (save y e.executions)
  changed j x y found same due =
      save-IsSingle k m y x e.executions
        (subst (λ i. get i e.executions ≡ some x) (sym same) (get_own j x e.executions found)) due h

  -- Two writes of the execution that was read.
  pub changed_twice :
      (j : ℕ) (x y z : PmExecution)
      → get j e.executions ≡ some x
      → y.pk ≡ x.pk
      → z.pk ≡ y.pk
      → is_occurrence k m y ≡ is_occurrence k m x
      → is_occurrence k m z ≡ is_occurrence k m y
      → IsSingle k m (save z (save y e.executions))
  changed_twice j x y z found same again due later =
      let own =
        subst (λ i. get i e.executions ≡ some x) (sym same) (get_own j x e.executions found) in
      save-IsSingle k m z y (save y e.executions)
        (subst (λ i. get i (save y e.executions) ≡ some y) (sym again)
          (get-save_self y x e.executions own))
        later (changed j x y found same due)

abbrev pub HasSingle : ℕ → Moment → Engine → Type 0
HasSingle k m e = IsSingle k m e.executions
