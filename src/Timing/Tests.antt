-- ===== src/Timing/Tests.antt =====
-- The timeout and the timer on small runs.
use nemo_rl_submission.Prelude.Text.{Text, codes, text_eq}
use nemo_rl_submission.Timing.Dict.{Dict, lookup, put, delete}
use nemo_rl_submission.Prelude.{
  ℕ, Result, length, sum_by, key_error, value_error, ◌≡◌, ◌≤◌, refl, ◌⊎◌, Bool, true, false, some,
  none, List, [], ◌∷◌, ok, raise, unbound_local_error,
}
use nemo_rl_submission.Timing.Timeout.{
  TimeoutChecker, check_save, start_iterations, mark_iteration, Call, check, start, mark,
  answers_of,
}
use nemo_rl_submission.Timing.Timeout.Saves.{
  saves, starts_first, is_started, has_late_check, timeout_outcome,
}
use nemo_rl_submission.Timing.Timer.{
  Timer, TimerCall, start_timer, stop_timer, ask_elapsed, ask_latest, reset_timers, perform,
}
use nemo_rl_submission.Timing.Timer.Alone.{
  view, answers_for, answers_alone, timer_refines_label_timers,
}
use nemo_rl_submission.Timing.Timer.Times.{after_calls}
use nemo_rl_submission.Timing.Timer.Metrics.{
  Reduction, mean, median, least, greatest, deviation, total, count_times, Asked, for_labels,
  Measure, all_times, reduced, get_timing_metrics,
}
use nemo_rl_submission.Timing.Timer.Metrics.Measured.{operation_for, measure_if_timed}
use nemo_rl_submission.Timing.Timer.Metrics.Outcome.{timing_metrics_outcome}

abbrev checker : TimeoutChecker
checker = record {
  last_save_time = some 10;
  start_time = 5;
  last_saved = false;
  iteration_times = [];
  previous_iteration_time = none;
  fit_last_save_time = true;
}

-- After one iteration of four ticks, another would end past the timeout.
abbrev calls : List Call
calls = start 6 ∷ check 8 ∷ mark 10 ∷ check 11 ∷ check 16 ∷ []

answers : answers_of calls checker ≡ ok (false ∷ true ∷ false ∷ [])
unfolding answers_of check_save start_iterations mark_iteration
answers = refl

timeout_outcome_example :
    ((starts_first (is_started checker) calls ≡ true)
      × ((given : List Bool) × (answers_of calls checker ≡ ok given)
          × (saves given ≤ 1)
          × (has_late_check checker.last_save_time checker.start_time calls ≡ true
              → saves given ≡ 1)))
    ⊎ ((starts_first (is_started checker) calls ≡ false)
        × (answers_of calls checker ≡ raise unbound_local_error))
timeout_outcome_example = timeout_outcome calls checker refl

abbrev timer : Timer
timer = record { timers = (codes "b", []) ∷ []; start_times = (codes "a", 2) ∷ [] }

-- The timer of "a" runs; the times of "b" come in between.
abbrev timer_calls : List TimerCall
timer_calls =
    ask_elapsed (codes "a")
    ∷ start_timer (codes "a") 3
    ∷ start_timer (codes "b") 4
    ∷ stop_timer (codes "a") 7
    ∷ stop_timer (codes "b") 8
    ∷ start_timer (codes "a") 9
    ∷ stop_timer (codes "a") 10
    ∷ ask_elapsed (codes "a")
    ∷ ask_latest (codes "a")
    ∷ reset_timers (some (codes "b"))
    ∷ stop_timer (codes "a") 11
    ∷ reset_timers none
    ∷ ask_latest (codes "a")
    ∷ []

timer_answers : answers_for (codes "a") timer_calls timer ≡ (
    raise key_error
    ∷ raise value_error
    ∷ ok (5 ∷ [])
    ∷ ok []
    ∷ ok (1 ∷ [])
    ∷ ok (5 ∷ 1 ∷ [])
    ∷ ok (1 ∷ [])
    ∷ raise value_error
    ∷ ok []
    ∷ raise key_error
    ∷ [])
unfolding perform lookup put delete text_eq
timer_answers = refl

timer_refines_label_timers_example :
    answers_for (codes "a") timer_calls timer
    ≡ answers_alone (codes "a") timer_calls (view (codes "a") timer)
timer_refines_label_timers_example = timer_refines_label_timers (codes "a") timer_calls timer

-- Reductions to whole numbers; a count is the only one of no times.
abbrev whole_reduction : Reduction → List ℕ → Result ℕ
whole_reduction count_times ts = ok (length ts)
whole_reduction _ [] = raise value_error
whole_reduction total (t ∷ ts) = ok (sum_by (λ u. u) (t ∷ ts))
whole_reduction _ (t ∷ ts) = ok t

whole_reduction_returns :
    (r : Reduction) (t : ℕ) (ts : List ℕ) → (n : ℕ) × (whole_reduction r (t ∷ ts) ≡ ok n)
whole_reduction_returns count_times t ts = (_, refl)
whole_reduction_returns total t ts = (_, refl)
whole_reduction_returns mean t ts = (_, refl)
whole_reduction_returns median t ts = (_, refl)
whole_reduction_returns least t ts = (_, refl)
whole_reduction_returns greatest t ts = (_, refl)
whole_reduction_returns deviation t ts = (_, refl)

-- A label with an operation, one with an operation that does not exist, and one with none.
abbrev asked : Asked
asked = for_labels ((codes "a", codes "sum") ∷ (codes "b", codes "mode") ∷ [])

abbrev measured_calls : List TimerCall
measured_calls =
    start_timer (codes "a") 1
    ∷ stop_timer (codes "a") 3
    ∷ start_timer (codes "a") 4
    ∷ stop_timer (codes "a") 9
    ∷ start_timer (codes "b") 9
    ∷ stop_timer (codes "b") 10
    ∷ []

some_metrics :
    get_timing_metrics whole_reduction asked (record {
      timers = (codes "a", 2 ∷ 5 ∷ []) ∷ (codes "b", 1 ∷ []) ∷ (codes "c", 4 ∷ []) ∷ [];
      start_times = [];
    })
    ≡ ok (
        (codes "a", reduced 7)
        ∷ (codes "b", all_times (1 ∷ []))
        ∷ (codes "c", all_times (4 ∷ []))
        ∷ [])
unfolding get_timing_metrics lookup put text_eq
some_metrics = refl

a_once : lookup ((codes "b", codes "mode") ∷ []) (codes "a") ≡ none
unfolding lookup text_eq
a_once = refl

b_once : lookup {V = Text} [] (codes "b") ≡ none
unfolding lookup
b_once = refl

timing_metrics_outcome_example :
    (metrics : Dict (Measure ℕ)) × (get_timing_metrics whole_reduction asked
        (after_calls measured_calls (record { timers = []; start_times = [] }))
      ≡ ok metrics)
    × (measure_if_timed whole_reduction (operation_for asked (codes "a")) (
          lookup
            (after_calls measured_calls (record { timers = []; start_times = [] })).timers
            (codes "a"))
        ≡ ok (lookup metrics (codes "a")))
timing_metrics_outcome_example =
    timing_metrics_outcome whole_reduction whole_reduction_returns measured_calls asked (codes "a")
      (a_once, (b_once, tt))
