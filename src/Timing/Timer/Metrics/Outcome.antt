-- ===== src/Timing/Timer/Metrics/Outcome.antt =====
-- The timing metrics of a timer after any calls.
use mathlib.Core.Path.{subst}
use nemo_rl_submission.Prelude.{
  ℕ, ◌≡◌, refl, sym, ◌∙◌, none, some, List, [], ◌∷◌, map, arith, Bool-cases, Option-cases, inl, inr,
  Result, ok,
}
use nemo_rl_submission.Prelude.Text.{Text, text_eq, text_eq→eq}
use nemo_rl_submission.Timing.Dict.{Dict, lookup, put, lookup-put, IsDict}
use nemo_rl_submission.Timing.Timer.{Timer, TimerCall}
use nemo_rl_submission.Timing.Timer.Times.{
  HasTimes, after_calls, no_times-HasTimes, after_calls-HasTimes,
}
use nemo_rl_submission.Timing.Timer.Metrics.{
  Reduction, Asked, for_all_labels, for_labels, operations, Measure, all_times, add_others,
  get_timing_metrics,
}
use nemo_rl_submission.Timing.Timer.Metrics.Measured.{
  operation_for, IsAsked, measure_if_timed, IsReducible, reduce_each_lem,
}

lookup-operations :
    (op label : Text) (d : Dict (List ℕ)) (times : List ℕ)
    → lookup d label ≡ some times
    → lookup (map (λ (e : Text × List ℕ). (e.0, op)) d) label ≡ some op
unfolding lookup
lookup-operations op label [] times e = cc
lookup-operations op label ((l, ts) ∷ d) times e =
    ground (arith, e, lookup-operations op label d times)

lookup-operations_none :
    (op label : Text) (d : Dict (List ℕ))
    → lookup d label ≡ none
    → lookup (map (λ (e : Text × List ℕ). (e.0, op)) d) label ≡ none
unfolding lookup
lookup-operations_none op label [] e = refl
lookup-operations_none op label ((l, ts) ∷ d) e =
    ground (arith, e, lookup-operations_none op label d)

operations-IsDict :
    (op : Text) (d : Dict (List ℕ)) → IsDict d → IsDict (map (λ (e : Text × List ℕ). (e.0, op)) d)
operations-IsDict op [] h = tt
operations-IsDict op ((l, ts) ∷ d) h =
    (lookup-operations_none op l d h.0, operations-IsDict op d h.1)

asked-IsDict :
    (asked : Asked) (s : Timer) → IsAsked asked → IsDict s.timers → IsDict (operations asked s)
asked-IsDict (for_all_labels op) s a d = operations-IsDict op s.timers d
asked-IsDict (for_labels ops) s a d = a

operations-operation_for :
    (asked : Asked) (s : Timer) (label : Text) (times : List ℕ)
    → lookup s.timers label ≡ some times
    → lookup (operations asked s) label ≡ operation_for asked label
operations-operation_for (for_all_labels op) s label times e =
    lookup-operations op label s.timers times e
operations-operation_for (for_labels ops) s label times e = refl

module _ {Number : Type 0} where
  -- What the loop over the other labels leaves for a label.
  record AfterOthers (timers : Dict (List ℕ)) (ops : Dict Text)
      (results after : Dict (Measure Number)) (label : Text) : Type 0 where
    had_operation :
        (op : Text) → lookup ops label ≡ some op → lookup after label ≡ lookup results label
    untimed : lookup timers label ≡ none → lookup after label ≡ lookup results label
    added :
        (times : List ℕ)
        → lookup ops label ≡ none
        → lookup timers label ≡ some times
        → lookup after label ≡ some (all_times times)

  others_asked :
      (l op : Text) (ts : List ℕ) (timers : Dict (List ℕ)) (ops : Dict Text)
      (results after : Dict (Measure Number)) (label : Text)
      → lookup ops l ≡ some op
      → AfterOthers timers ops results after label
      → AfterOthers ((l, ts) ∷ timers) ops results after label
  unfolding lookup
  others_asked l op ts timers ops results after label asked h = record {
    had_operation = h.had_operation;
    untimed = λ e. ground (arith, e, h.untimed);
    added = λ times e f. elim (Bool-cases (text_eq l label)) [
      | inl same ↦
          let here : lookup ops label ≡ some op =
            subst (λ k. lookup ops k ≡ some op) (text_eq→eq l label same) asked in
          absurd (ground (arith, here, e))
      | inr other ↦ h.added times e (ground (arith, other, f))
    ];
  }

  others_put :
      (l : Text) (ts : List ℕ) (timers : Dict (List ℕ)) (ops : Dict Text)
      (results after : Dict (Measure Number)) (label : Text)
      → lookup ops l ≡ none
      → lookup timers l ≡ none
      → AfterOthers timers ops (put results l (all_times ts)) after label
      → AfterOthers ((l, ts) ∷ timers) ops results after label
  unfolding lookup
  others_put l ts timers ops results after label none_asked once h =
      elim (Bool-cases (text_eq l label)) [
        | inl same ↦
            let eq : l ≡ label = text_eq→eq l label same in
            let here : lookup ops label ≡ none = subst (λ k. lookup ops k ≡ none) eq none_asked in
            let last : lookup timers label ≡ none = subst (λ k. lookup timers k ≡ none) eq once in
            record {
              had_operation = λ op e. ground (arith, here, e);
              untimed = λ e. ground (arith, same, e);
              added = λ times e f.
                  ground
                    (arith, same, f, h.untimed last, lookup-put results l label (all_times ts));
            }
        | inr other ↦ record {
          had_operation = λ op e.
              h.had_operation op e
              ∙ ground (arith, other, lookup-put results l label (all_times ts));
          untimed =
              λ e. ground (arith, other, e, h.untimed, lookup-put results l label (all_times ts));
          added = λ times e f. h.added times e (ground (arith, other, f));
        }
      ]

  add_others_lem :
      (timers : Dict (List ℕ)) (ops : Dict Text) (results : Dict (Measure Number)) (label : Text)
      → IsDict timers
      → AfterOthers timers ops results (add_others timers ops results) label
  unfolding add_others lookup
  add_others_lem [] ops results label d = record {
    had_operation = λ op e. refl;
    untimed = λ e. refl;
    added = λ times e f. cc;
  }
  add_others_lem ((l, ts) ∷ timers) ops results label d = elim (Option-cases (lookup ops l)) [
    | inl none_asked ↦
        let after = add_others timers ops (put results l (all_times ts)) in
        subst (λ a. AfterOthers ((l, ts) ∷ timers) ops results a label) {x = after}
          (ground (arith, none_asked))
          (others_put l ts timers ops results after label none_asked d.0
            (add_others_lem timers ops (put results l (all_times ts)) label d.1))
    | inr (op, asked) ↦
        let after = add_others timers ops results in
        subst (λ a. AfterOthers ((l, ts) ∷ timers) ops results a label) {x = after}
          (ground (arith, asked))
          (others_asked l op ts timers ops results after label asked
            (add_others_lem timers ops results label d.1))
  ]

module _ {Number : Type 0} (apply : Reduction → List ℕ → Result Number) where
  metrics_of_timer :
      (asked : Asked) (s : Timer) (label : Text)
      → IsAsked asked
      → IsDict s.timers
      → IsReducible apply s
      → (metrics : Dict (Measure Number)) × (get_timing_metrics apply asked s ≡ ok metrics)
        × (measure_if_timed apply (operation_for asked label) (lookup s.timers label)
            ≡ ok (lookup metrics label))
  unfolding get_timing_metrics lookup
  metrics_of_timer asked s label a d h =
      let ops = operations asked s in
      let (results, returns, each_label) =
        reduce_each_lem apply ops s [] (asked-IsDict asked s a d) h in
      let metrics = add_others s.timers ops results in
      let each = each_label label in
      let others = add_others_lem s.timers ops results label d in
      let shown : measure_if_timed apply (operation_for asked label) (lookup s.timers label)
          ≡ ok (lookup metrics label) =
        elim (Option-cases (lookup s.timers label)) [
          | inl e ↦ rw (e, others.untimed e, each.untimed e) refl
          | inr (times, e) ↦
              let same = operations-operation_for asked s label times e in
              elim (Option-cases (operation_for asked label)) [
                | inl no_op ↦ rw (e, no_op, others.added times (same ∙ no_op) e) refl
                | inr (op, asks) ↦
                    let (m, measured, entry) = each.asked op times (same ∙ asks) e in
                    rw (e, asks, measured, others.had_operation op (same ∙ asks), entry) refl
              ]
        ] in
      (metrics, rw returns refl, shown)

  -- If every reduction returns for times that are not empty, then `get_timing_metrics`, asked for one
  -- operation for all labels or for a dictionary of them, returns whatever calls were made on a new timer,
  -- and a label has an entry exactly if it has times: their reduction by the operation asked for, or the
  -- times if there is no such operation or none is asked for.
  pub timing_metrics_outcome :
      (reduces : (r : Reduction) (t : ℕ) (ts : List ℕ) → (n : Number) × (apply r (t ∷ ts) ≡ ok n))
      (calls : List TimerCall) (asked : Asked) (label : Text)
      → IsAsked asked
      → let s = after_calls calls (record { timers = []; start_times = [] }) in
        (metrics : Dict (Measure Number)) × (get_timing_metrics apply asked s ≡ ok metrics)
        × (measure_if_timed apply (operation_for asked label) (lookup s.timers label)
            ≡ ok (lookup metrics label))
  timing_metrics_outcome reduces calls asked label a =
      let s = after_calls calls (record { timers = []; start_times = [] }) in
      let kept : HasTimes s.timers = after_calls-HasTimes calls _ no_times-HasTimes in
      metrics_of_timer asked s label a kept.0 (λ l times e r.
        let (t, ts, filled) = kept.1 l times e in
        subst (λ xs. (n : Number) × (apply r xs ≡ ok n)) (sym filled) (reduces r t ts))
