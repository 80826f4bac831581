-- ===== src/Preventive/Generation.antt =====
-- The daily generation is complete and idempotent.
use spare_part.Base.{
  ◌||◌, ℕ, suc, ◌≡◌, refl, Bool, true, false, not, ◌&&◌, List, [], ◌∷◌, some, arith, is_none,
  find_first, insert_last, if_branches, if◌then◌else◌, Option-cases, Bool-cases, inl, inr,
}
use spare_part.Preventive.Calendar.{Date, Moment}
use spare_part.Preventive.Tables.{PmSchedule, PmExecution, Engine, is_occurrence}
use spare_part.Preventive.Scheduling.{
  Summary, get_or_create, new_execution, generate_each, generate_today, is_eligible, has_ended,
  due_on, ran_on,
}

-- Does the schedule have its execution of the day, if it is to have one?
abbrev pub is_served : Date → List PmExecution → PmSchedule → Bool
is_served today xs s =
    not (is_eligible today s && not (has_ended today s))
    || not (is_none (find_first (is_occurrence s.pk (due_on today s)) xs))

abbrev pub all_served : Date → List PmExecution → List PmSchedule → Bool
all_served today xs [] = true
all_served today xs (s ∷ ss) = is_served today xs s && all_served today xs ss

find_first-insert_last :
    (p : PmExecution → Bool) (x : PmExecution) (xs : List PmExecution)
    → is_none (find_first p xs) ≡ false
    → is_none (find_first p (insert_last x xs)) ≡ false
find_first-insert_last p x [] h = ground arith
find_first-insert_last p x (y ∷ ys) h = ground (arith, find_first-insert_last p x ys)

find_first-inserted :
    (p : PmExecution → Bool) (x : PmExecution) (xs : List PmExecution)
    → p x ≡ true
    → is_none (find_first p (insert_last x xs)) ≡ false
find_first-inserted p x [] h = ground arith
find_first-inserted p x (y ∷ ys) h = ground (arith, find_first-inserted p x ys)

get_or_create_keeps :
    (p : PmExecution → Bool) (j : ℕ) (n : Moment) (xs : List PmExecution)
    → is_none (find_first p xs) ≡ false
    → is_none (find_first p (get_or_create j n xs).0) ≡ false
unfolding get_or_create
get_or_create_keeps p j n xs h = elim (Option-cases (find_first (is_occurrence j n) xs)) [
  | inl missing ↦ rw (missing, get_or_create) (find_first-insert_last p (new_execution xs j n) xs h)
  | inr (x, found) ↦ rw (found, get_or_create) h
]

get_or_create_finds :
    (j : ℕ) (n : Moment) (xs : List PmExecution)
    → is_none (find_first (is_occurrence j n) (get_or_create j n xs).0) ≡ false
unfolding get_or_create
get_or_create_finds j n xs = elim (Option-cases (find_first (is_occurrence j n) xs)) [
  | inl missing ↦
      rw (missing, get_or_create)
        (find_first-inserted (is_occurrence j n) (new_execution xs j n) xs (ground arith))
  | inr (x, found) ↦ rw (found, get_or_create) (ground (arith, found))
]

generate_each_keeps :
    (p : PmExecution → Bool) (ss : List PmSchedule) (today : Date) (xs : List PmExecution) (n : ℕ)
    → is_none (find_first p xs) ≡ false
    → is_none (find_first p (generate_each ss today xs n).0) ≡ false
unfolding generate_each
generate_each_keeps p [] today xs n h = h
generate_each_keeps p (s ∷ ss) today xs n h = generate_each_keeps p ss today _ _ (
    if_branches (λ (ys : List PmExecution). is_none (find_first p ys) ≡ false)
      (is_eligible today s && not (has_ended today s)) _ _
      (λ _. get_or_create_keeps p s.pk (due_on today s) xs h) (λ _. h))

served_of_found :
    (today : Date) (xs : List PmExecution) (s : PmSchedule)
    → ((is_eligible today s && not (has_ended today s)) ≡ true
        → is_none (find_first (is_occurrence s.pk (due_on today s)) xs) ≡ false)
    → is_served today xs s ≡ true
served_of_found today xs s h = elim (Bool-cases (is_eligible today s && not (has_ended today s))) [
  | inl wanted ↦ rw (wanted, h wanted) refl
  | inr other ↦ rw other refl
]

generate_each_serves :
    (ss : List PmSchedule) (today : Date) (xs : List PmExecution) (n : ℕ)
    → all_served today (generate_each ss today xs n).0 ss ≡ true
unfolding generate_each
generate_each_serves [] today xs n = refl
generate_each_serves (s ∷ ss) today xs n =
    let wanted = is_eligible today s && not (has_ended today s) in
    let r = get_or_create s.pk (due_on today s) xs in
    let ys : List PmExecution = if wanted then r.0 else xs in
    let m : ℕ = if wanted && r.1 then suc n else n in
    rw
      (
        served_of_found today (generate_each ss today ys m).0 s (λ w.
            generate_each_keeps (is_occurrence s.pk (due_on today s)) ss today ys m
              (rw w (get_or_create_finds s.pk (due_on today s) xs))),
        generate_each_serves ss today ys m,
      )
      refl

get_or_create_found :
    (j : ℕ) (n : Moment) (xs : List PmExecution)
    → is_none (find_first (is_occurrence j n) xs) ≡ false
    → get_or_create j n xs ≡ (xs, false)
unfolding get_or_create
get_or_create_found j n xs h = elim (Option-cases (find_first (is_occurrence j n) xs)) [
  | inl missing ↦ absurd (ground (arith, missing))
  | inr (x, found) ↦ rw (found, get_or_create) refl
]

generate_each_again :
    (ss : List PmSchedule) (today : Date) (xs : List PmExecution) (n : ℕ)
    → all_served today xs ss ≡ true
    → generate_each ss today xs n ≡ (xs, n)
unfolding generate_each
generate_each_again [] today xs n h = refl
generate_each_again (s ∷ ss) today xs n h =
    elim (Bool-cases (is_eligible today s && not (has_ended today s))) [
      | inl wanted ↦
          rw (wanted, get_or_create_found s.pk (due_on today s) xs (ground (arith, wanted)))
            (generate_each_again ss today xs n (ground (arith, h)))
      | inr other ↦ rw other (generate_each_again ss today xs n (ground (arith, h)))
    ]

-- A forced generation leaves every schedule that is due on the day or before it, active and not ended, with its
-- execution of the day; and a second generation for the same day, forced or not, creates nothing.
pub generate_twice :
    (e : Engine) (today : Date) (force : Bool) (now later : Moment)
    → (all_served today (generate_today e today true now).0.executions e.schedules ≡ true)
      × ((generate_today (generate_today e today true now).0 today force later).1.count ≡ 0)
      × ((generate_today (generate_today e today true now).0 today force later).0.executions
          ≡ (generate_today e today true now).0.executions)
unfolding generate_today
generate_twice e today force now later =
    let xs = (generate_each e.schedules today e.executions 0).0 in
    let served = generate_each_serves e.schedules today e.executions 0 in
    let again = generate_each_again e.schedules today xs 0 served in
    (
      served,
      if_branches (λ (r : Engine × Summary). r.1.count ≡ 0) (not force && ran_on today (some now)) _
          _ (λ _. refl) (λ _. rw again refl),
      if_branches (λ (r : Engine × Summary). r.0.executions ≡ xs)
          (not force && ran_on today (some now)) _ _ (λ _. refl) (λ _. rw again refl),
    )
