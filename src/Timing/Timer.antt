-- ===== src/Timing/Timer.antt =====
-- nemo_rl/utils/timer.py: `Timer`. A dictionary is a list of keys and values, a time a natural number
-- of ticks. What a reduction computes is an argument.
pub mod Alone
pub mod Metrics
pub mod Times
use nemo_rl_submission.Prelude.{
  ℕ, ◌-◌, Bool, true, false, Option, none, some, List, [], ◌∷◌, ◌++◌, Result, ok, raise, ◌>>=◌,
  value_error, key_error, index_error,
}
use nemo_rl_submission.Prelude.Text.{Text}
use nemo_rl_submission.Timing.Dict.{Dict, lookup, put, delete}

pub record Timer : Type 0 where
  pub timers : Dict (List ℕ)
  pub start_times : Dict ℕ

-- A call of a method, with the time that the clock shows.
pub data TimerCall : Type 0 where
  start_timer : Text → ℕ → TimerCall
  stop_timer : Text → ℕ → TimerCall
  ask_elapsed : Text → TimerCall
  ask_latest : Text → TimerCall
  reset_timers : Option Text → TimerCall

abbrev pub recorded : Option (List ℕ) → ℕ → List ℕ
recorded none elapsed = elapsed ∷ []
recorded (some times) elapsed = times ++ elapsed ∷ []

-- `xs[-1]` of the times, if there are some.
abbrev pub latest_of : List ℕ → Result (List ℕ)
latest_of [] = raise index_error
latest_of (t ∷ []) = ok (t ∷ [])
latest_of (t ∷ u ∷ ts) = latest_of (u ∷ ts)

unfoldable pub get_elapsed : Text → Timer → Result (List ℕ)
get_elapsed label s = elim (lookup s.timers label) [
  | none ↦ raise key_error
  | some times ↦ ok times
]

unfoldable pub get_latest_elapsed : Text → Timer → Result (List ℕ)
get_latest_elapsed label s = elim (lookup s.timers label) [
  | none ↦ raise key_error
  | some times ↦ latest_of times
]

unfoldable pub start_label : Text → ℕ → Timer → Timer × Result (List ℕ)
start_label label now s = elim (lookup s.start_times label) [
  | some _ ↦ (s, raise value_error)
  | none ↦ (record s { start_times = put s.start_times label now }, ok [])
]

unfoldable pub stop_label : Text → ℕ → Timer → Timer × Result (List ℕ)
stop_label label now s = elim (lookup s.start_times label) [
  | none ↦ (s, raise value_error)
  | some began ↦ (
    record {
      timers = put s.timers label (recorded (lookup s.timers label) (now - began));
      start_times = delete s.start_times label;
    },
    ok ((now - began) ∷ []),
  )
]

-- `if label:` is false for the empty label as well.
unfoldable pub reset : Option Text → Timer → Timer
reset none s = record { timers = []; start_times = [] }
reset (some []) s = record { timers = []; start_times = [] }
reset (some (c ∷ cs)) s = record {
  timers = delete s.timers (c ∷ cs);
  start_times = delete s.start_times (c ∷ cs);
}

-- The state after a call, and what the call returns or raises.
unfoldable pub perform : TimerCall → Timer → Timer × Result (List ℕ)
unfolding get_elapsed get_latest_elapsed start_label stop_label reset
perform (start_timer label now) s = start_label label now s
perform (stop_timer label now) s = stop_label label now s
perform (ask_elapsed label) s = (s, get_elapsed label s)
perform (ask_latest label) s = (s, get_latest_elapsed label s)
perform (reset_timers label) s = (reset label s, ok [])
