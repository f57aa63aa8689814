-- ===== src/Timing/Timer/Times.antt =====
-- What the calls on a timer keep: the times of a label.
use mathlib.Core.Path.{subst}
use nemo_rl_submission.Prelude.{
  ℕ, ◌-◌, ◌≡◌, refl, sym, ◌∙◌, Option, none, some, List, [], ◌∷◌, ◌++◌, arith, Bool-cases,
  Option-cases, inl, inr,
}
use nemo_rl_submission.Prelude.Text.{Text, text_eq}
use nemo_rl_submission.Timing.Dict.{
  Dict, lookup, put, delete, lookup-put, lookup-delete, IsDict, put-IsDict, delete-IsDict,
}
use nemo_rl_submission.Timing.Timer.{
  Timer, TimerCall, start_timer, stop_timer, ask_elapsed, ask_latest, reset_timers, recorded,
  start_label, stop_label, reset, perform,
}

-- A label has one list of times, which is not empty.
abbrev pub HasTimes : Dict (List ℕ) → Type 0
HasTimes timers =
    IsDict timers
    × ((label : Text) (times : List ℕ)
        → lookup timers label ≡ some times
        → (t : ℕ) × (ts : List ℕ) × (times ≡ t ∷ ts))

recorded_nonempty :
    (times : Option (List ℕ)) (t : ℕ) → (u : ℕ) × (us : List ℕ) × (recorded times t ≡ u ∷ us)
recorded_nonempty none t = (t, [], refl)
recorded_nonempty (some []) t = (t, [], refl)
recorded_nonempty (some (u ∷ us)) t = (u, us ++ t ∷ [], refl)

put-HasTimes :
    (label : Text) (times : List ℕ) (timers : Dict (List ℕ))
    → (t : ℕ) × (ts : List ℕ) × (times ≡ t ∷ ts)
    → HasTimes timers
    → HasTimes (put timers label times)
put-HasTimes label times timers filled h = (
  put-IsDict timers label times h.0,
  λ l ts e. elim (Bool-cases (text_eq label l)) [
    | inl same ↦
        let eq : times ≡ ts = ground (arith, lookup-put timers label l times, same, e) in
        (filled.0, filled.1, sym eq ∙ filled.2)
    | inr other ↦ h.1 l ts (ground (arith, lookup-put timers label l times, other, e))
  ],
)

delete-HasTimes :
    (label : Text) (timers : Dict (List ℕ)) → HasTimes timers → HasTimes (delete timers label)
delete-HasTimes label timers h = (
  delete-IsDict timers label h.0,
  λ l ts e. elim (Bool-cases (text_eq label l)) [
    | inl same ↦ absurd (ground (arith, lookup-delete timers label l, same, e))
    | inr other ↦ h.1 l ts (ground (arith, lookup-delete timers label l, other, e))
  ],
)

pub no_times-HasTimes : HasTimes []
unfolding lookup
no_times-HasTimes = (tt, λ l ts e. cc)

perform-HasTimes :
    (call : TimerCall) (s : Timer) → HasTimes s.timers → HasTimes (perform call s).0.timers
unfolding perform start_label stop_label reset
perform-HasTimes (start_timer label now) s h = elim (Option-cases (lookup s.start_times label)) [
  | inl e ↦ subst HasTimes (ground (arith, e)) h
  | inr (began, e) ↦ subst HasTimes (ground (arith, e)) h
]
perform-HasTimes (stop_timer label now) s h = elim (Option-cases (lookup s.start_times label)) [
  | inl e ↦ subst HasTimes (ground (arith, e)) h
  | inr (began, e) ↦
      let times = recorded (lookup s.timers label) (now - began) in
      subst HasTimes {x = put s.timers label times} (ground (arith, e)) (
        put-HasTimes label times s.timers (recorded_nonempty (lookup s.timers label) (now - began))
          h)
]
perform-HasTimes (ask_elapsed label) s h = h
perform-HasTimes (ask_latest label) s h = h
perform-HasTimes (reset_timers none) s h = no_times-HasTimes
perform-HasTimes (reset_timers (some [])) s h = no_times-HasTimes
perform-HasTimes (reset_timers (some (c ∷ cs))) s h = delete-HasTimes (c ∷ cs) s.timers h

-- A timer after some calls.
abbrev pub after_calls : List TimerCall → Timer → Timer
after_calls [] s = s
after_calls (call ∷ calls) s = after_calls calls (perform call s).0

pub after_calls-HasTimes :
    (calls : List TimerCall) (s : Timer) → HasTimes s.timers → HasTimes (after_calls calls s).timers
after_calls-HasTimes [] s h = h
after_calls-HasTimes (call ∷ calls) s h =
    after_calls-HasTimes calls (perform call s).0 (perform-HasTimes call s h)
