-- ===== src/Async/System/Window.antt =====
-- What the trainer gets from the buffer, however the threads interleave.
use nemo_rl_submission.Prelude.{
  ◌⊎◌, Bool, true, raise, value_error, ltb, ◌==◌, sum_by, if◌then◌else◌, inl, inr, ℕ, ◌≤◌, ◌<◌, ◌≡◌,
  refl, any, none, some, List, map, [], ◌∷◌, ok, arith, All, All-map, All-middle,
}
use nemo_rl_submission.Async.Replay.{ReplayBuffer, Batch, sample}
use nemo_rl_submission.Async.Replay.Intended.{Entry, is_old, is_intended, count}
use nemo_rl_submission.Async.Replay.Indices.{left, left-All}
use nemo_rl_submission.Async.Replay.Sample.{sample_outcome, sample-Holds}
use nemo_rl_submission.Async.Collector
use nemo_rl_submission.Async.Collector.{Collector, get_next_target_for_generation}
use nemo_rl_submission.Async.System.{
  System, refresh, spawn, finish, Step, Reach, starts_batch, refreshes, spawns, ends_batch,
  delivers, finishes, moves_on, trains, initially, after_step,
}
use nemo_rl_submission.Async.System.Sound.{InWindow, IsSound, begin_batch-IsSound, deliver-IsSound}

-- What is in the window stays in it when the current version grows.
window_later : (age m n v t : ℕ) → m ≤ n → InWindow age m v t → InWindow age n v t
window_later age m n v t h w = (w.0, omega (arith, w.1))

module _ {T : Type 0} where
  module _ (age : ℕ) where
    Step-IsSound : {s t : System T} → Step s t → IsSound age s → IsSound age t
    unfolding refresh spawn finish Collector.set_weight_version Collector.discard
    Step-IsSound {s} (starts_batch version last e h) k = begin_batch-IsSound age s version last h k
    Step-IsSound {s} (refreshes j e) k = record {
      entries = k.entries;
      holds = k.holds;
      same_age = k.same_age;
      buffered = k.buffered;
      planned = λ j' e'. ground (arith, k.planned j e, e');
      in_flight = k.in_flight;
    }
    Step-IsSound {s} (spawns j i e) k = record {
      entries = k.entries;
      holds = k.holds;
      same_age = k.same_age;
      buffered = k.buffered;
      planned = k.planned;
      in_flight = (k.planned j e, k.in_flight);
    }
    Step-IsSound {s} (ends_batch j e) k = record {
      entries = k.entries;
      holds = k.holds;
      same_age = k.same_age;
      buffered = k.buffered;
      planned = λ j' e'. cc;
      in_flight = k.in_flight;
    }
    Step-IsSound {s} (delivers before after w trajectory e) k =
        deliver-IsSound age s w trajectory (All-middle _ before w after (rw e at k.in_flight)).0 k
    Step-IsSound {s} (finishes before after w e) k = record {
      entries = k.entries;
      holds = k.holds;
      same_age = k.same_age;
      buffered = k.buffered;
      planned = k.planned;
      in_flight = (All-middle _ before w after (rw e at k.in_flight)).1;
    }
    Step-IsSound {s} (moves_on version h) k = record {
      entries = k.entries;
      holds = k.holds;
      same_age = k.same_age;
      buffered =
          All-map (λ e w. window_later age _ version e.version e.target h w) k.entries k.buffered;
      planned = λ j e.
          window_later age _ version j.generation_weight_version j.target_weight h (k.planned j e);
      in_flight =
          All-map
            (λ w p.
              window_later age _ version w.generation_weight_version w.target_weight_version h p)
            s.workers k.in_flight;
    }
    Step-IsSound {s} (trains n current a b batch e) k = record {
      entries = left (is_intended current a) n k.entries;
      holds = sample-Holds s.buffer b batch k.entries current a n k.holds e;
      same_age = k.same_age;
      buffered = left-All (is_intended current a) _ n k.entries k.buffered;
      planned = k.planned;
      in_flight = k.in_flight;
    }

    pub Reach-IsSound : {s t : System T} → IsSound age s → Reach s t → IsSound age t
    Reach-IsSound sound (initially s) = sound
    Reach-IsSound sound (after_step step before) = Step-IsSound step (Reach-IsSound sound before)

-- Whether a buffered group was meant for an earlier step.
abbrev pub has_missed : ℕ → List ℕ → Bool
has_missed current targets = any (λ target. ltb target current) targets

-- How many buffered groups are meant for the step.
abbrev pub meant_for : ℕ → List ℕ → ℕ
meant_for current targets = sum_by (λ target. if target == current then 1 else 0) targets

old-has_missed :
    {T : Type 0} (age current now : ℕ) (es : List (Entry T))
    → All (λ e. InWindow age now e.version e.target) es
    → any (is_old current age) es ≡ true
    → has_missed current (map (λ e. e.target) es) ≡ true
old-has_missed age current now [] h old = cc
old-has_missed age current now (e ∷ es) h old =
    ground (arith, h.0, old, old-has_missed age current now es h.1)

-- The weights that a group meant for the step was made with are never too old for it.
intended-meant_for :
    {T : Type 0} (age current now : ℕ) (es : List (Entry T))
    → now ≤ current
    → All (λ e. InWindow age now e.version e.target) es
    → count (is_intended current age) es ≡ meant_for current (map (λ e. e.target) es)
intended-meant_for age current now [] le h = refl
intended-meant_for age current now (e ∷ es) le h =
    ground (arith, le, h.0, intended-meant_for age current now es le h.1)

-- However the threads interleave, from a sound state: when the trainer asks for a positive number
-- of groups for step `current`, which is not before the collector's weights, with the collector's age
-- limit, then `sample` raises ValueError, and some group in the buffer was meant for an earlier step; or
-- it hands out a batch of this number of groups, as many or more being buffered for the step; or fewer
-- are, and it hands out nothing and leaves the buffer as it is. No group meant for the step is too old.
pub sample_after_steps :
    {T : Type 0} (age n current : ℕ) {s t : System T} (start : IsSound age s) (r : Reach s t)
    → 0 < n
    → t.collector.current_weight_version ≤ current
    → ((has_missed current t.buffer.target_weight_versions ≡ true)
        × (sample n current age t.buffer ≡ raise value_error))
      ⊎ ((n ≤ meant_for current t.buffer.target_weight_versions)
          × ((b : ReplayBuffer T) × (batch : Batch T) × (sample n current age t.buffer
                ≡ ok (b, some batch))
              × (batch.group_count ≡ n)))
      ⊎ ((meant_for current t.buffer.target_weight_versions < n)
          × (sample n current age t.buffer ≡ ok (t.buffer, none)))
sample_after_steps age n current {s} {t} start r pos le =
    elim (sample_outcome t.buffer k.entries current age n k.holds pos) [
      | inl (old, raises) ↦
          inl (rw k.holds.targets (old-has_missed age current _ k.entries k.buffered old), raises)
      | inr (inl (_, enough, out)) ↦
          inr
            (inl (omega (arith, enough, same), (out.after, out.batch, out.result, out.group_count)))
      | inr (inr (_, few, stalled)) ↦ inr (inr (omega (arith, few, same), stalled))
    ]
  where
    k : IsSound age t
    k = Reach-IsSound age start r

    same :
        count (is_intended current age) k.entries
        ≡ meant_for current t.buffer.target_weight_versions
    same = rw k.holds.targets (intended-meant_for age current _ k.entries le k.buffered)
