-- ===== src/Timing/Timer/Metrics.antt =====
-- nemo_rl/utils/timer.py: `Timer.reduce` and `Timer.get_timing_metrics`. What a reduction returns or raises
-- for the times, in NumPy, is an argument.
pub mod Measured
pub mod Outcome
use nemo_rl_submission.Prelude.{
  ℕ, ◌==◌, ◌&&◌, Bool, true, false, Option, none, some, List, [], ◌∷◌, map, if◌then◌else◌, Result,
  ok, raise, ◌>>=◌, value_error, key_error,
}
use nemo_rl_submission.Prelude.Text.{Text, text_eq, codes}
use nemo_rl_submission.Timing.Dict.{Dict, lookup, put}
use nemo_rl_submission.Timing.Timer.{Timer}

-- The keys of `_REDUCTION_FUNCTIONS`.
pub data Reduction : Type 0 where
  mean median least greatest deviation total count_times : Reduction

abbrev pub reductions : Dict Reduction
reductions =
    (codes "mean", mean)
    ∷ (codes "median", median)
    ∷ (codes "min", least)
    ∷ (codes "max", greatest)
    ∷ (codes "std", deviation)
    ∷ (codes "sum", total)
    ∷ (codes "count", count_times)
    ∷ []

-- `reduction_op`: an operation for all labels, or for some.
pub data Asked : Type 0 where
  for_all_labels : Text → Asked
  for_labels : Dict Text → Asked

-- `{label: reduction_op for label in self._timers}`, unless it is a dictionary.
abbrev pub operations : Asked → Timer → Dict Text
operations (for_all_labels op) s = map (λ (e : Text × List ℕ). (e.0, op)) s.timers
operations (for_labels ops) s = ops

module _ (Number : Type 0) where
  -- What a label is mapped to.
  pub data Measure : Type 0 where
    all_times : List ℕ → Measure
    reduced : Number → Measure

module _ {Number : Type 0} where
  -- The loop over the labels without an operation.
  unfoldable pub add_others :
      Dict (List ℕ) → Dict Text → Dict (Measure Number) → Dict (Measure Number)
  add_others [] ops results = results
  add_others ((label, times) ∷ timers) ops results = elim (lookup ops label) [
    | some _ ↦ add_others timers ops results
    | none ↦ add_others timers ops (put results label (all_times times))
  ]

module _ {Number : Type 0} (apply : Reduction → List ℕ → Result Number) where
  unfoldable pub reduce : Text → Text → Timer → Result Number
  reduce label op s = elim (lookup reductions op) [
    | none ↦ raise value_error
    | some r ↦ elim (lookup s.timers label) [ none ↦ raise key_error | some times ↦ apply r times ]
  ]

  -- The loop over the operations.
  unfoldable pub reduce_each :
      Dict Text → Timer → Dict (Measure Number) → Result (Dict (Measure Number))
  unfolding reduce
  reduce_each [] s results = ok results
  reduce_each ((label, op) ∷ ops) s results = elim (lookup s.timers label) [
    | none ↦ reduce_each ops s results
    | some times ↦ elim (lookup reductions op) [
      | some _ ↦ reduce label op s >>= λ n. reduce_each ops s (put results label (reduced n))
      | none ↦ reduce_each ops s (put results label (all_times times))
    ]
  ]

  unfoldable pub get_timing_metrics : Asked → Timer → Result (Dict (Measure Number))
  unfolding reduce_each add_others
  get_timing_metrics asked s = reduce_each (operations asked s) s [] >>= λ results.
      ok (add_others s.timers (operations asked s) results)
