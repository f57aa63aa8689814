-- ===== src/Timing/Timeout/Saves.antt =====
-- How often `check_save` tells to save, and when `mark_iteration` raises.
use mathlib.Core.Path.{subst}
use nemo_rl_submission.Prelude.{
  ℕ, suc, ◌+◌, ◌≤◌, ◌≡◌, refl, sym, ap, ◌⊎◌, inl, inr, Bool, true, false, ◌&&◌, ◌||◌, Option, none,
  some, List, [], ◌∷◌, if◌then◌else◌, arith, ◌++◌, ◌-◌, true-ne-false, Bool-cases, Option-cases, ok,
  raise, unbound_local_error,
}
use nemo_rl_submission.Timing.Timeout.{
  TimeoutChecker, is_past, is_past_with, check_save, start_iterations, mark_iteration, Call, check,
  start, mark, answers_of,
}

abbrev pub saves : List Bool → ℕ
saves [] = 0
saves (true ∷ answers) = suc (saves answers)
saves (false ∷ answers) = saves answers

-- Every `mark_iteration` comes after a `start_iterations`.
abbrev pub starts_first : Bool → List Call → Bool
starts_first started [] = true
starts_first started (check now ∷ calls) = starts_first started calls
starts_first started (start now ∷ calls) = starts_first true calls
starts_first started (mark now ∷ calls) = started && starts_first started calls

-- Some `check_save` comes when the timeout is over.
abbrev pub has_late_check : Option ℕ → ℕ → List Call → Bool
has_late_check limit start_time [] = false
has_late_check limit start_time (check now ∷ calls) =
    is_past limit start_time now || has_late_check limit start_time calls
has_late_check limit start_time (start now ∷ calls) = has_late_check limit start_time calls
has_late_check limit start_time (mark now ∷ calls) = has_late_check limit start_time calls

abbrev pub is_started : TimeoutChecker → Bool
is_started s = elim s.previous_iteration_time [ none ↦ false | some _ ↦ true ]

-- What the calls give: an answer to each check, of which at most one is to save, and none after one
-- was; one is, if a check comes late.
pub record IsAnswered (calls : List Call) (s : TimeoutChecker) (answers : List Bool) : Type 0 where
  pub run : answers_of calls s ≡ ok answers
  pub once : saves answers + (if s.last_saved then 1 else 0) ≤ 1
  pub late :
      s.last_saved ≡ false
      → has_late_check s.last_save_time s.start_time calls ≡ true
      → saves answers ≡ 1

abbrev pub AnswersOutcome : List Call → TimeoutChecker → Type 0
AnswersOutcome calls s =
    ((starts_first (is_started s) calls ≡ true)
      × ((answers : List Bool) × IsAnswered calls s answers))
    ⊎ ((starts_first (is_started s) calls ≡ false)
        × (answers_of calls s ≡ raise unbound_local_error))

not_yet :
    (now : ℕ) (s : TimeoutChecker)
    → s.last_saved ≡ false
    → (s.fit_last_save_time && is_past_with s.last_save_time s.start_time s.iteration_times now)
      ≡ false
    → is_past s.last_save_time s.start_time now ≡ false
    → check_save now s ≡ (false, s)
unfolding check_save
not_yet now s untold fits before = simp (check_save, untold, fits, before) refl

saves_by_average :
    (now : ℕ) (s : TimeoutChecker)
    → s.last_saved ≡ false
    → (s.fit_last_save_time && is_past_with s.last_save_time s.start_time s.iteration_times now)
      ≡ true
    → check_save now s ≡ (true, record s { last_saved = true })
unfolding check_save
saves_by_average now s untold fits = rw (check_save, untold, fits) refl

saves_when_past :
    (now : ℕ) (s : TimeoutChecker)
    → s.last_saved ≡ false
    → (s.fit_last_save_time && is_past_with s.last_save_time s.start_time s.iteration_times now)
      ≡ false
    → is_past s.last_save_time s.start_time now ≡ true
    → check_save now s ≡ (true, record s { last_saved = true })
unfolding check_save
saves_when_past now s untold fits past = rw (check_save, untold, fits, past) refl

-- A check either tells to save, and then it was not told before; or it changes nothing, and then the
-- timeout is not over or it was told before.
check_save_cases :
    (now : ℕ) (s : TimeoutChecker)
    → ((s.last_saved ≡ false) × (check_save now s ≡ (true, record s { last_saved = true })))
      ⊎ ((check_save now s ≡ (false, s))
          × ((s.last_saved ≡ true) ⊎ (is_past s.last_save_time s.start_time now ≡ false)))
unfolding check_save
check_save_cases now s = elim (Bool-cases s.last_saved) [
  | inl told ↦ inr (simp (check_save, told) refl, inl told)
  | inr untold ↦
      elim (Bool-cases (
        s.fit_last_save_time && is_past_with s.last_save_time s.start_time s.iteration_times now)) [
          | inl fits ↦ inl (untold, saves_by_average now s untold fits)
          | inr fits ↦ elim (Bool-cases (is_past s.last_save_time s.start_time now)) [
            | inl past ↦ inl (untold, saves_when_past now s untold fits past)
            | inr before ↦ inr (not_yet now s untold fits before, inr before)
          ]
        ]
]

at_most_one : (b : Bool) → 0 + (if b then 1 else 0) ≤ 1
at_most_one true = omega arith
at_most_one false = omega arith

told_now :
    (now : ℕ) (calls : List Call) (s : TimeoutChecker) (answers : List Bool)
    → s.last_saved ≡ false
    → check_save now s ≡ (true, record s { last_saved = true })
    → IsAnswered calls (record s { last_saved = true }) answers
    → IsAnswered (check now ∷ calls) s (true ∷ answers)
unfolding answers_of
told_now now calls s answers untold e h =
    let none_later : saves answers ≡ 0 = omega (arith, h.once) in
    record {
      run = rw (answers_of, e, h.run) refl;
      once = rw untold (omega (arith, none_later));
      late = λ _ _. ap suc none_later;
    }

not_now :
    (now : ℕ) (calls : List Call) (s : TimeoutChecker) (answers : List Bool)
    → check_save now s ≡ (false, s)
    → (s.last_saved ≡ true) ⊎ (is_past s.last_save_time s.start_time now ≡ false)
    → IsAnswered calls s answers
    → IsAnswered (check now ∷ calls) s (false ∷ answers)
unfolding answers_of
not_now now calls s answers e why h = record {
  run = rw (answers_of, e, h.run) refl;
  once = h.once;
  late = λ untold k. elim why [
    | inl told ↦ absurd (true-ne-false told untold)
    | inr before ↦ h.late untold (
        subst (λ (b : Bool). (b || has_late_check s.last_save_time s.start_time calls) ≡ true)
          before k)
  ];
}

abbrev marked : ℕ → ℕ → TimeoutChecker → TimeoutChecker
marked now previous s = record s {
  previous_iteration_time = some now;
  iteration_times = s.iteration_times ++ (now - previous) ∷ [];
}

mark-none :
    (now : ℕ) (s : TimeoutChecker)
    → s.previous_iteration_time ≡ none
    → mark_iteration now s ≡ raise unbound_local_error
unfolding mark_iteration
mark-none now s e = rw (mark_iteration, e) refl

mark-some :
    (now previous : ℕ) (s : TimeoutChecker)
    → s.previous_iteration_time ≡ some previous
    → mark_iteration now s ≡ ok (marked now previous s)
unfolding mark_iteration
mark-some now previous s e = rw (mark_iteration, e) refl

marks :
    (now previous : ℕ) (calls : List Call) (s : TimeoutChecker)
    → s.previous_iteration_time ≡ some previous
    → AnswersOutcome calls (marked now previous s)
    → AnswersOutcome (mark now ∷ calls) s
unfolding answers_of
marks now previous calls s e outcome =
    let started : is_started s ≡ true =
      ap (λ (o : Option ℕ). elim o [ none ↦ false | some _ ↦ true ]) e in
    let step = mark-some now previous s e in
    elim outcome [
      | inl (can, (answers, h)) ↦ inl (
        subst (λ b. (b && starts_first b calls) ≡ true) (sym started) can,
        (answers, record { run = rw (answers_of, step, h.run) refl; once = h.once; late = h.late }),
      )
      | inr (cannot, raises) ↦ inr (
        subst (λ b. (b && starts_first b calls) ≡ false) (sym started) cannot,
        rw (answers_of, step, raises) refl,
      )
    ]

answered : (calls : List Call) (s : TimeoutChecker) → AnswersOutcome calls s
unfolding answers_of start_iterations
answered [] s =
    inl (refl, ([], record { run = refl; once = at_most_one s.last_saved; late = λ h k. cc }))
answered (check now ∷ calls) s = elim (check_save_cases now s) [
  | inl (untold, e) ↦ elim (answered calls (record s { last_saved = true })) [
    | inl (can, (answers, h)) ↦ inl (can, (true ∷ answers, told_now now calls s answers untold e h))
    | inr (cannot, raises) ↦ inr (cannot, rw (answers_of, e, raises) refl)
  ]
  | inr (e, why) ↦ elim (answered calls s) [
    | inl (can, (answers, h)) ↦ inl (can, (false ∷ answers, not_now now calls s answers e why h))
    | inr (cannot, raises) ↦ inr (cannot, rw (answers_of, e, raises) refl)
  ]
]
answered (start now ∷ calls) s =
    elim (answered calls (record s { previous_iteration_time = some now })) [
      | inl (can, (answers, h)) ↦
          inl (can, (answers, record { run = h.run; once = h.once; late = h.late }))
      | inr other ↦ inr other
    ]
answered (mark now ∷ calls) s = elim (Option-cases s.previous_iteration_time) [
  | inl e ↦
      let not_started : is_started s ≡ false =
        ap (λ (o : Option ℕ). elim o [ none ↦ false | some _ ↦ true ]) e in
      inr (
        subst (λ b. (b && starts_first b calls) ≡ false) (sym not_started) refl,
        rw (answers_of, mark-none now s e) refl,
      )
  | inr (previous, e) ↦ marks now previous calls s e (answered calls (marked now previous s))
]

-- Along any calls of a checker that has not told to save: if each `mark_iteration` comes after a
-- `start_iterations`, all calls return, `check_save` tells to save at most once, and exactly once if
-- some check comes when the timeout is over; otherwise the first `mark_iteration` that comes too early
-- raises UnboundLocalError.
pub timeout_outcome :
    (calls : List Call) (s : TimeoutChecker)
    → s.last_saved ≡ false
    → ((starts_first (is_started s) calls ≡ true)
        × ((answers : List Bool) × (answers_of calls s ≡ ok answers)
            × (saves answers ≤ 1)
            × (has_late_check s.last_save_time s.start_time calls ≡ true → saves answers ≡ 1)))
      ⊎ ((starts_first (is_started s) calls ≡ false)
          × (answers_of calls s ≡ raise unbound_local_error))
timeout_outcome calls s untold = elim (answered calls s) [
  | inl (can, (answers, h)) ↦ inl (can, (answers, h.run, omega (arith, h.once), h.late untold))
  | inr other ↦ inr other
]
