-- ===== src/Async/System.antt =====
-- nemo_rl/algorithms/async_utils.py: the collector's threads, the replay buffer and the trainer
-- together. A step is what one of them does between two waits; the steps come in any order.
pub mod Sound
pub mod Window
use nemo_rl_submission.Prelude.{
  ℕ, ◌+◌, ◌≤◌, ◌<◌, ◌≡◌, Bool, true, ◌==◌, Option, none, some, List, [], ◌∷◌, ◌++◌, if◌then◌else◌,
  ok,
}
use nemo_rl_submission.Async.Replay.{ReplayBuffer, Batch, success, push_with_wait_signal, sample}
use nemo_rl_submission.Async.Replay.Intended.{Entry}
use nemo_rl_submission.Async.Collector
use nemo_rl_submission.Async.Collector.{Collector, get_next_target_for_generation}

-- The variables of `_process_batch`, while its loop over the prompts runs.
pub record Job : Type 0 where
  pub generation_weight_version : ℕ
  pub target_weight : ℕ

-- The arguments of a `_run_prompt_group_worker` thread.
pub record Worker : Type 0 where
  pub generation_weight_version : ℕ
  pub target_weight_version : ℕ
  pub prompt_idx : ℕ

pub record System (T : Type 0) : Type 0 where
  pub collector : Collector
  pub buffer : ReplayBuffer T
  pub job : Option Job
  pub workers : List Worker

module _ {T : Type 0} where
  -- `_process_batch` up to its loop, with the weight version and the buffer's last target as they were
  -- read before the reservation.
  unfoldable pub begin_batch : ℕ → Option ℕ → System T → System T
  unfolding get_next_target_for_generation
  begin_batch version last s =
      let (c, target) = get_next_target_for_generation last version s.collector in
      record s {
        collector = c;
        job = elim target [
          | none ↦ none
          | some t ↦ some (record { generation_weight_version = version; target_weight = t })
        ];
      }

  -- The end of a wait for a refit, inside the loop.
  unfoldable pub refresh : Job → System T → System T
  refresh j s = record s {
    job = some (record j { generation_weight_version = s.collector.current_weight_version });
  }

  -- A thread for one prompt starts.
  unfoldable pub spawn : Job → ℕ → System T → System T
  spawn j prompt_idx s = record s {
    workers =
        record {
          generation_weight_version = j.generation_weight_version;
          target_weight_version = j.target_weight;
          prompt_idx = prompt_idx;
        }
        ∷ s.workers;
  }

  -- A worker has generated and pushes; on success the first prompt releases the reservation.
  unfoldable pub deliver : Worker → T → System T → System T
  unfolding push_with_wait_signal Collector.discard
  deliver w trajectory s =
      let (b, status) =
        push_with_wait_signal trajectory w.generation_weight_version w.target_weight_version
          s.buffer in
      record s {
        buffer = b;
        collector = elim status [
          | success ↦
              if w.prompt_idx == 0
              then Collector.discard w.target_weight_version s.collector
              else s.collector
          | _ ↦ s.collector
        ];
      }

  -- The `finally` of a worker.
  unfoldable pub finish : Worker → List Worker → System T → System T
  unfolding Collector.discard
  finish w others s = record s {
    collector = Collector.discard w.target_weight_version s.collector;
    workers = others;
  }

  -- The steps. A worker that finds the buffer full delivers again. The trainer moves to a version that is not before the current one.
  pub data Step (s : System T) : System T → Type 0 where
    starts_batch :
        (version : ℕ) (last : Option ℕ)
        → s.job ≡ none
        → version ≤ s.collector.current_weight_version
        → Step s (begin_batch version last s)
    refreshes : (j : Job) → s.job ≡ some j → Step s (refresh j s)
    spawns : (j : Job) (prompt_idx : ℕ) → s.job ≡ some j → Step s (spawn j prompt_idx s)
    ends_batch : (j : Job) → s.job ≡ some j → Step s (record s { job = none })
    delivers :
        (before after : List Worker) (w : Worker) (trajectory : T)
        → s.workers ≡ before ++ w ∷ after
        → Step s (deliver w trajectory s)
    finishes :
        (before after : List Worker) (w : Worker)
        → s.workers ≡ before ++ w ∷ after
        → Step s (finish w (before ++ after) s)
    moves_on :
        (version : ℕ)
        → s.collector.current_weight_version ≤ version
        → Step s (record s { collector = Collector.set_weight_version version s.collector })
    trains :
        (n current age : ℕ) (b : ReplayBuffer T) (batch : Batch T)
        → sample n current age s.buffer ≡ ok (b, some batch)
        → Step s (record s { buffer = b })

  -- The states after any number of steps.
  pub data Reach : System T → System T → Type 0 where
    initially : (s : System T) → Reach s s
    after_step : {s t u : System T} → Step t u → Reach s t → Reach s u
