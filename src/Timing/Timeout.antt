-- ===== src/Timing/Timeout.antt =====
-- nemo_rl/utils/timer.py: `TimeoutChecker`. A time is a natural number of ticks, and `none` stands for
-- an infinite timeout; the quotient of the average is multiplied out.
pub mod Saves
use nemo_rl_submission.Prelude.{
  ℕ, zero, suc, ◌+◌, ◌-◌, ◌*◌, Bool, true, false, ◌&&◌, Option, none, some, List, [], ◌∷◌, ◌++◌,
  leb, length, Result, ok, raise, ◌>>=◌, unbound_local_error,
}

pub record TimeoutChecker : Type 0 where
  pub last_save_time : Option ℕ
  pub start_time : ℕ
  pub last_saved : Bool
  pub iteration_times : List ℕ
  pub previous_iteration_time : Option ℕ
  pub fit_last_save_time : Bool

abbrev pub sum_times : List ℕ → ℕ
sum_times [] = 0
sum_times (t ∷ ts) = t + sum_times ts

-- `elapsed_time >= self.last_save_time`.
abbrev pub is_past : Option ℕ → ℕ → ℕ → Bool
is_past none start now = false
is_past (some limit) start now = leb (start + limit) now

-- `elapsed_time + average_iteration_time >= self.last_save_time`, when there was an iteration.
abbrev pub is_past_with : Option ℕ → ℕ → List ℕ → ℕ → Bool
is_past_with limit start [] now = false
is_past_with none start (t ∷ ts) now = false
is_past_with (some limit) start (t ∷ ts) now =
    leb ((start + limit) * length (t ∷ ts)) (now * length (t ∷ ts) + sum_times (t ∷ ts))

unfoldable pub check_save : ℕ → TimeoutChecker → Bool × TimeoutChecker
check_save current_time s =
    let saved : Bool × TimeoutChecker = (true, record s { last_saved = true }) in
    elim s.last_saved [
      | true ↦ (false, s)
      | false ↦
          elim (s.fit_last_save_time
            && is_past_with s.last_save_time s.start_time s.iteration_times current_time) [
              | true ↦ saved
              | false ↦ elim (is_past s.last_save_time s.start_time current_time) [
                | true ↦ saved
                | false ↦ (false, s)
              ]
            ]
    ]

unfoldable pub start_iterations : ℕ → TimeoutChecker → TimeoutChecker
start_iterations current_time s = record s { previous_iteration_time = some current_time }

-- Without a previous time, `elapsed_time` is read before it has a value.
unfoldable pub mark_iteration : ℕ → TimeoutChecker → Result TimeoutChecker
mark_iteration current_time s = elim s.previous_iteration_time [
  | none ↦ raise unbound_local_error
  | some previous ↦ ok (record s {
    previous_iteration_time = some current_time;
    iteration_times = s.iteration_times ++ (current_time - previous) ∷ [];
  })
]

-- The calls of a training loop, each at a time.
pub data Call : Type 0 where
  check : ℕ → Call
  start : ℕ → Call
  mark : ℕ → Call

-- The answers of `check_save` along the calls.
unfoldable pub answers_of : List Call → TimeoutChecker → Result (List Bool)
unfolding check_save start_iterations mark_iteration
answers_of [] s = ok []
answers_of (check now ∷ calls) s =
    answers_of calls (check_save now s).1 >>= λ answers. ok ((check_save now s).0 ∷ answers)
answers_of (start now ∷ calls) s = answers_of calls (start_iterations now s)
answers_of (mark now ∷ calls) s = mark_iteration now s >>= λ t. answers_of calls t
