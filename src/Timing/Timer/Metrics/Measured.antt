-- ===== src/Timing/Timer/Metrics/Measured.antt =====
-- What `get_timing_metrics` has for each label.
use mathlib.Core.Path.{subst}
use nemo_rl_submission.Prelude.{
  ℕ, ◌≡◌, refl, ◌∙◌, ◌⊎◌, Option, none, some, List, [], ◌∷◌, arith, Bool-cases, Option-cases, inl,
  inr, Result, ok, ◌>>=◌,
}
use nemo_rl_submission.Prelude.Text.{Text, text_eq, text_eq→eq}
use nemo_rl_submission.Timing.Dict.{Dict, lookup, put, lookup-put, IsDict}
use nemo_rl_submission.Timing.Timer.{Timer}
use nemo_rl_submission.Timing.Timer.Metrics.{
  Reduction, reductions, Asked, for_all_labels, for_labels, reduce, Measure, all_times, reduced,
  reduce_each,
}

-- The operation that is asked for a label, if there is one.
abbrev pub operation_for : Asked → Text → Option Text
operation_for (for_all_labels op) label = some op
operation_for (for_labels ops) label = lookup ops label

abbrev pub IsAsked : Asked → Type 0
IsAsked (for_all_labels op) = Unit
IsAsked (for_labels ops) = IsDict ops

module _ {Number : Type 0} (apply : Reduction → List ℕ → Result Number) where
  -- The measure of a label with these times: reduced by the operation asked for, if it is one.
  abbrev pub measure : Option Text → List ℕ → Result (Measure Number)
  measure none times = ok (all_times times)
  measure (some op) times = elim (lookup reductions op) [
    | none ↦ ok (all_times times)
    | some r ↦ apply r times >>= λ n. ok (reduced n)
  ]

  -- The entry of a label, of which there is none without times.
  abbrev pub measure_if_timed : Option Text → Option (List ℕ) → Result (Option (Measure Number))
  measure_if_timed op none = ok none
  measure_if_timed op (some times) = measure op times >>= λ m. ok (some m)

  -- Each reduction returns for the times of each label.
  abbrev pub IsReducible : Timer → Type 0
  IsReducible s =
      (label : Text) (times : List ℕ)
      → lookup s.timers label ≡ some times
      → (r : Reduction) → (n : Number) × (apply r times ≡ ok n)

  -- An operation either finds no times, or puts the measure of its label.
  reduce-one :
      (label op : Text) (ops : Dict Text) (s : Timer) (results : Dict (Measure Number))
      → IsReducible s
      → ((lookup s.timers label ≡ none)
          × (reduce_each apply ((label, op) ∷ ops) s results ≡ reduce_each apply ops s results))
        ⊎ ((times : List ℕ) × (m : Measure Number) × (lookup s.timers label ≡ some times)
            × (measure (some op) times ≡ ok m)
            × (reduce_each apply ((label, op) ∷ ops) s results
                ≡ reduce_each apply ops s (put results label m)))
  unfolding reduce_each reduce
  reduce-one label op ops s results h = elim (Option-cases (lookup s.timers label)) [
    | inl none_there ↦ inl (none_there, ground (arith, none_there))
    | inr (times, there) ↦ elim (Option-cases (lookup reductions op)) [
      | inl unknown ↦
          inr
            (times, all_times times, there, ground (arith, unknown), ground (arith, there, unknown))
      | inr (r, known) ↦
          let (n, returns) = h label times there r in
          inr (
            times,
            reduced n,
            there,
            ground (arith, known, returns),
            ground (arith, there, known, returns),
          )
    ]
  ]

  -- What the loop over the operations leaves for a label.
  pub record AfterOperations (ops : Dict Text) (s : Timer) (results after : Dict (Measure Number))
      (label : Text) : Type 0 where
    pub not_asked : lookup ops label ≡ none → lookup after label ≡ lookup results label
    pub untimed : lookup s.timers label ≡ none → lookup after label ≡ lookup results label
    pub asked :
        (op : Text) (times : List ℕ)
        → lookup ops label ≡ some op
        → lookup s.timers label ≡ some times
        → (m : Measure Number) × (measure (some op) times ≡ ok m) × (lookup after label ≡ some m)

  after_skipped :
      (l op : Text) (ops : Dict Text) (s : Timer) (results after : Dict (Measure Number))
      (label : Text)
      → lookup s.timers l ≡ none
      → AfterOperations ops s results after label
      → AfterOperations ((l, op) ∷ ops) s results after label
  unfolding lookup
  after_skipped l op ops s results after label none_there h = elim (Bool-cases (text_eq l label)) [
    | inl same ↦
        let here : lookup s.timers label ≡ none =
          subst (λ k. lookup s.timers k ≡ none) (text_eq→eq l label same) none_there in
        record {
          not_asked = λ e. ground (arith, same, e);
          untimed = h.untimed;
          asked = λ o times e f. cc;
        }
    | inr other ↦ record {
      not_asked = λ e. ground (arith, other, e, h.not_asked);
      untimed = h.untimed;
      asked = λ o times e f. h.asked o times (ground (arith, other, e)) f;
    }
  ]

  after_put :
      (l op : Text) (times : List ℕ) (m : Measure Number) (ops : Dict Text) (s : Timer)
      (results after : Dict (Measure Number)) (label : Text)
      → lookup s.timers l ≡ some times
      → measure (some op) times ≡ ok m
      → lookup ops l ≡ none
      → AfterOperations ops s (put results l m) after label
      → AfterOperations ((l, op) ∷ ops) s results after label
  unfolding lookup
  after_put l op times m ops s results after label there measured once h =
      elim (Bool-cases (text_eq l label)) [
        | inl same ↦
            let eq : l ≡ label = text_eq→eq l label same in
            let here : lookup s.timers label ≡ some times =
              subst (λ k. lookup s.timers k ≡ some times) eq there in
            let last : lookup ops label ≡ none = subst (λ k. lookup ops k ≡ none) eq once in
            record {
              not_asked = λ e. ground (arith, same, e);
              untimed = λ e. ground (arith, here, e);
              asked = λ o ts e f. (
                m,
                ground (arith, same, e, here, f, measured),
                ground (arith, same, lookup-put results l label m, h.not_asked last),
              );
            }
        | inr other ↦ record {
          not_asked = λ e. ground (arith, other, e, h.not_asked, lookup-put results l label m);
          untimed = λ e. ground (arith, other, e, h.untimed, lookup-put results l label m);
          asked = λ o ts e f. h.asked o ts (ground (arith, other, e)) f;
        }
      ]

  pub reduce_each_lem :
      (ops : Dict Text) (s : Timer) (results : Dict (Measure Number))
      → IsDict ops
      → IsReducible s
      → (after : Dict (Measure Number)) × (reduce_each apply ops s results ≡ ok after)
        × ((label : Text) → AfterOperations ops s results after label)
  unfolding reduce_each lookup
  reduce_each_lem [] s results d h = (
    results,
    refl,
    λ label. record { not_asked = λ e. refl; untimed = λ e. refl; asked = λ op times e f. cc },
  )
  reduce_each_lem ((l, op) ∷ ops) s results d h = elim (reduce-one l op ops s results h) [
    | inl (none_there, same) ↦
        let (after, returns, each_label) = reduce_each_lem ops s results d.1 h in
        (
          after,
          same ∙ returns,
          λ label. after_skipped l op ops s results after label none_there (each_label label),
        )
    | inr (times, m, there, measured, same) ↦
        let (after, returns, each_label) = reduce_each_lem ops s (put results l m) d.1 h in
        (
          after,
          same ∙ returns,
          λ label.
              after_put l op times m ops s results after label there measured d.0
                (each_label label),
        )
  ]
