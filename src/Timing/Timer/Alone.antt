-- ===== src/Timing/Timer/Alone.antt =====
-- A timer for many labels against a timer for each.
use mathlib.Core.Path.{subst}
use nemo_rl_submission.Prelude.{
  ℕ, ◌-◌, ◌≡◌, refl, sym, Bool, true, false, Option, none, some, List, [], ◌∷◌, if◌then◌else◌,
  arith, Bool-cases, Option-cases, inl, inr, Result, ok, raise, value_error, key_error,
}
use nemo_rl_submission.Prelude.Text.{Text, text_eq, text_eq→eq, text_eq_refl}
use nemo_rl_submission.Timing.Dict.{lookup, lookup-put, lookup-delete}
use nemo_rl_submission.Timing.Timer.{
  Timer, TimerCall, start_timer, stop_timer, ask_elapsed, ask_latest, reset_timers, recorded,
  latest_of, get_elapsed, get_latest_elapsed, start_label, stop_label, reset, perform,
}

-- What a timer for one label keeps: when it was started, if it runs, and the times, if there are any.
pub record LabelTimer : Type 0 where
  pub running : Option ℕ
  pub times : Option (List ℕ)

-- The timer of a label.
abbrev pub view : Text → Timer → LabelTimer
view label s = record { running = lookup s.start_times label; times = lookup s.timers label }

-- A call on the timer of its label.
abbrev pub perform_alone : TimerCall → LabelTimer → LabelTimer × Result (List ℕ)
perform_alone (start_timer label now) t = elim t.running [
  | some _ ↦ (t, raise value_error)
  | none ↦ (record t { running = some now }, ok [])
]
perform_alone (stop_timer label now) t = elim t.running [
  | none ↦ (t, raise value_error)
  | some began ↦ (
    record { running = none; times = some (recorded t.times (now - began)) },
    ok ((now - began) ∷ []),
  )
]
perform_alone (ask_elapsed label) t =
    (t, elim t.times [ none ↦ raise key_error | some times ↦ ok times ])
perform_alone (ask_latest label) t =
    (t, elim t.times [ none ↦ raise key_error | some times ↦ latest_of times ])
perform_alone (reset_timers label) t = (record { running = none; times = none }, ok [])

-- Whether a call is about a label; a reset without a label, or with the empty one, is about each.
abbrev pub concerns : Text → TimerCall → Bool
concerns label (start_timer l now) = text_eq l label
concerns label (stop_timer l now) = text_eq l label
concerns label (ask_elapsed l) = text_eq l label
concerns label (ask_latest l) = text_eq l label
concerns label (reset_timers none) = true
concerns label (reset_timers (some [])) = true
concerns label (reset_timers (some (c ∷ cs))) = text_eq (c ∷ cs) label

-- What the calls about a label return or raise, among all the calls.
abbrev pub answers_for : Text → List TimerCall → Timer → List (Result (List ℕ))
answers_for label [] s = []
answers_for label (c ∷ calls) s =
    let rest = answers_for label calls (perform c s).0 in
    if concerns label c then (perform c s).1 ∷ rest else rest

-- The same, on the timer of the label, which the other calls do not reach.
abbrev pub answers_alone : Text → List TimerCall → LabelTimer → List (Result (List ℕ))
answers_alone label [] t = []
answers_alone label (c ∷ calls) t =
    if concerns label c
    then (perform_alone c t).1 ∷ answers_alone label calls (perform_alone c t).0
    else answers_alone label calls t

-- A call about the label does to its timer what it does alone.
abbrev Same : Text → TimerCall → Timer → Type 0
Same label c s =
    (view label (perform c s).0 ≡ (perform_alone c (view label s)).0)
    × ((perform c s).1 ≡ (perform_alone c (view label s)).1)

start-Same : (label : Text) (now : ℕ) (s : Timer) → Same label (start_timer label now) s
unfolding perform start_label
start-Same label now s =
    ground (arith, lookup-put s.start_times label label now, text_eq_refl label)

stop-Same : (label : Text) (now : ℕ) (s : Timer) → Same label (stop_timer label now) s
unfolding perform stop_label
stop-Same label now s = elim (Option-cases (lookup s.start_times label)) [
  | inl e ↦ ground (arith, e)
  | inr (began, e) ↦ ground (
    arith,
    e,
    lookup-put s.timers label label (recorded (lookup s.timers label) (now - began)),
    lookup-delete s.start_times label label,
    text_eq_refl label,
  )
]

concerned : (label : Text) (c : TimerCall) (s : Timer) → concerns label c ≡ true → Same label c s
unfolding perform get_elapsed get_latest_elapsed reset lookup
concerned label (start_timer l now) s h =
    subst (λ k. Same label (start_timer k now) s) (sym (text_eq→eq l label h))
      (start-Same label now s)
concerned label (stop_timer l now) s h =
    subst (λ k. Same label (stop_timer k now) s) (sym (text_eq→eq l label h))
      (stop-Same label now s)
concerned label (ask_elapsed l) s h =
    subst (λ k. Same label (ask_elapsed k) s) (sym (text_eq→eq l label h)) (refl, refl)
concerned label (ask_latest l) s h =
    subst (λ k. Same label (ask_latest k) s) (sym (text_eq→eq l label h)) (refl, refl)
concerned label (reset_timers none) s h = (refl, refl)
concerned label (reset_timers (some [])) s h = (refl, refl)
concerned label (reset_timers (some (c ∷ cs))) s h =
    ground
      (arith, h, lookup-delete s.timers (c ∷ cs) label, lookup-delete s.start_times (c ∷ cs) label)

unconcerned :
    (label : Text) (c : TimerCall) (s : Timer)
    → concerns label c ≡ false
    → view label (perform c s).0 ≡ view label s
unfolding perform start_label stop_label reset
unconcerned label (start_timer l now) s h = ground (arith, h, lookup-put s.start_times l label now)
unconcerned label (stop_timer l now) s h = elim (Option-cases (lookup s.start_times l)) [
  | inl e ↦ ground (arith, e)
  | inr (began, e) ↦ ground (
    arith,
    e,
    h,
    lookup-put s.timers l label (recorded (lookup s.timers l) (now - began)),
    lookup-delete s.start_times l label,
  )
]
unconcerned label (ask_elapsed l) s h = refl
unconcerned label (ask_latest l) s h = refl
unconcerned label (reset_timers none) s h = cc
unconcerned label (reset_timers (some [])) s h = cc
unconcerned label (reset_timers (some (c ∷ cs))) s h =
    ground
      (arith, h, lookup-delete s.timers (c ∷ cs) label, lookup-delete s.start_times (c ∷ cs) label)

-- Whatever calls are made for other labels in between, the calls about a label, a reset without a label
-- among them, return and raise what they would on a timer of its own: it runs or not, and has the
-- times that it was stopped with, in order.
pub timer_refines_label_timers :
    (label : Text) (calls : List TimerCall) (s : Timer)
    → answers_for label calls s ≡ answers_alone label calls (view label s)
timer_refines_label_timers label [] s = refl
timer_refines_label_timers label (c ∷ calls) s = elim (Bool-cases (concerns label c)) [
  | inl about ↦
      let (next, answer) = concerned label c s about in
      rw (about, answer, timer_refines_label_timers label calls (perform c s).0, next) refl
  | inr other ↦
      rw
        (other, timer_refines_label_timers label calls (perform c s).0, unconcerned label c s other)
        refl
]
