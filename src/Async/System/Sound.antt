-- ===== src/Async/System/Sound.antt =====
-- The invariant of the steps, and that a batch's start and a delivery keep it.
use mathlib.Core.Path.{subst}
use nemo_rl_submission.Prelude.{
  inl, inr, ℕ, ◌+◌, ◌≤◌, ◌≡◌, refl, sym, ◌∙◌, Option, none, some, List, [], ◌∷◌, ◌++◌, arith, All,
  All-append,
}
use nemo_rl_submission.Async.Replay.{push_with_wait_signal}
use nemo_rl_submission.Async.Replay.Intended.{Entry, Holds}
use nemo_rl_submission.Async.Replay.Sample.{push_outcome}
use nemo_rl_submission.Async.Collector.{get_next_target_for_generation}
use nemo_rl_submission.Async.Collector.Targets.{
  get_next_target_for_generation-IsTarget, get_next_target_for_generation-keeps,
}
use nemo_rl_submission.Async.System.{Job, Worker, System, begin_batch, deliver}

-- `target` is at most `age` steps after the weights that generate for it, which exist already.
abbrev pub InWindow : ℕ → ℕ → ℕ → ℕ → Type 0
InWindow age current version target = (target ≤ version + age) × (version ≤ current)

module _ {T : Type 0} where
  -- The invariant: everything that is planned, in flight or buffered lies in the window.
  pub record IsSound (age : ℕ) (s : System T) : Type 0 where
    pub entries : List (Entry T)
    pub holds : Holds s.buffer entries
    pub same_age : s.collector.max_trajectory_age_steps ≡ age
    pub buffered :
        All (λ e. InWindow age s.collector.current_weight_version e.version e.target) entries
    pub planned :
        (j : Job)
        → s.job ≡ some j
        → InWindow age s.collector.current_weight_version j.generation_weight_version
            j.target_weight
    pub in_flight :
        All
          (λ w.
            InWindow age s.collector.current_weight_version w.generation_weight_version
              w.target_weight_version)
          s.workers

  module _ (age : ℕ) where
    pub begin_batch-IsSound :
        (s : System T) (version : ℕ) (last : Option ℕ)
        → version ≤ s.collector.current_weight_version
        → IsSound age s
        → IsSound age (begin_batch version last s)
    unfolding begin_batch
    begin_batch-IsSound s version last h k = record {
      entries = k.entries;
      holds = k.holds;
      same_age = kept.1 ∙ k.same_age;
      buffered = rw kept.0 k.buffered;
      planned = λ j e.
          rw kept.0 (plan j (get_next_target_for_generation last version s.collector).1 refl e);
      in_flight = rw kept.0 k.in_flight;
    }
      where
        kept :
            ((get_next_target_for_generation last version s.collector).0.current_weight_version
              ≡ s.collector.current_weight_version)
            × ((get_next_target_for_generation last version s.collector).0.max_trajectory_age_steps
                ≡ s.collector.max_trajectory_age_steps)
        kept = get_next_target_for_generation-keeps last version s.collector

        plan :
            (j : Job) (o : Option ℕ)
            → (get_next_target_for_generation last version s.collector).1 ≡ o
            → (elim o [
              | none ↦ none
              | some t ↦ some (record { generation_weight_version = version; target_weight = t })
            ])
              ≡ some j
            → InWindow age s.collector.current_weight_version j.generation_weight_version
                j.target_weight
        plan j none e g = cc
        plan j (some t) e g = ground (
          arith,
          h,
          k.same_age,
          (get_next_target_for_generation-IsTarget last version s.collector t e).not_late,
          g,
        )

    deliver-keeps :
        (s : System T) (w : Worker) (trajectory : T)
        → ((deliver w trajectory s).collector.current_weight_version
            ≡ s.collector.current_weight_version)
          × ((deliver w trajectory s).collector.max_trajectory_age_steps
              ≡ s.collector.max_trajectory_age_steps)
    unfolding deliver
    deliver-keeps s w trajectory = ground arith

    IsSound-after_delivery :
        (s : System T) (w : Worker) (trajectory : T) (es : List (Entry T))
        → Holds
            (push_with_wait_signal trajectory w.generation_weight_version w.target_weight_version
              s.buffer).0
            es
        → All (λ e. InWindow age s.collector.current_weight_version e.version e.target) es
        → IsSound age s
        → ((deliver w trajectory s).collector.current_weight_version
            ≡ s.collector.current_weight_version)
          × ((deliver w trajectory s).collector.max_trajectory_age_steps
              ≡ s.collector.max_trajectory_age_steps)
        → IsSound age (deliver w trajectory s)
    unfolding deliver
    IsSound-after_delivery s w trajectory es holds inside k kept = record {
      entries = es;
      holds = holds;
      same_age = kept.1 ∙ k.same_age;
      buffered = rw kept.0 inside;
      planned = λ j e. rw kept.0 (k.planned j e);
      in_flight = rw kept.0 k.in_flight;
    }

    pub deliver-IsSound :
        (s : System T) (w : Worker) (trajectory : T)
        → InWindow age s.collector.current_weight_version w.generation_weight_version
            w.target_weight_version
        → IsSound age s
        → IsSound age (deliver w trajectory s)
    deliver-IsSound s w trajectory inside k = elim (push_outcome s.buffer k.entries e k.holds) [
      | inl (_, holds, _) ↦
          IsSound-after_delivery s w trajectory (k.entries ++ e ∷ []) holds
            (All-append _ k.entries (e ∷ []) k.buffered (inside, tt)) k
            (deliver-keeps s w trajectory)
      | inr (_, same) ↦
          IsSound-after_delivery s w trajectory k.entries
            (subst (λ r. Holds r.0 k.entries) (sym same) k.holds) k.buffered k
            (deliver-keeps s w trajectory)
    ]
      where
        e : Entry T
        e = record {
          trajectory = trajectory;
          version = w.generation_weight_version;
          target = w.target_weight_version;
        }
