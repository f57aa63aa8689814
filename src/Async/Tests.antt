-- ===== src/Async/Tests.antt =====
-- Runs of the replay buffer and the collector, and the theorems at concrete inputs.
use nemo_rl_submission.Prelude.{
  ℕ, ◌≤◌, ◌<◌, ◌≡◌, ◌⊎◌, refl, true, false, none, some, List, [], ◌∷◌, arith, any, ok, raise,
  value_error,
}
use nemo_rl_submission.Async.Replay.{ReplayBuffer, Batch, success, full, init, sample, clear}
use nemo_rl_submission.Async.Replay.Intended.{Entry, Holds, is_intended, is_old, count}
use nemo_rl_submission.Async.Replay.Sample.{Sampled, sample_outcome}
use nemo_rl_submission.Async.Replay.Queue.{
  BufferCall, push_entry, sample_groups, ask_size, ask_target, ask_last_target, clear_all, pushed,
  sampled, number, found, last_target, cleared, answers_from_buffer, answers_from_queue,
  empty_queue,
}
use nemo_rl_submission.Async.Replay.Queue.Refines.{replay_buffer_refines_queue}
use nemo_rl_submission.Async.Collector.{Collector, get_next_target_for_generation}
use nemo_rl_submission.Async.Collector.Targets.{Reserves, get_next_target_for_generation-Reserves}
use nemo_rl_submission.Async.System.{
  System, Job, Worker, Reach, initially, after_step, Step, starts_batch, spawns, ends_batch,
  delivers, finishes, trains, begin_batch, spawn, deliver, finish,
}
use nemo_rl_submission.Async.System.Sound.{IsSound}
use nemo_rl_submission.Async.System.Window.{has_missed, meant_for, sample_after_steps}

abbrev entry : ℕ → ℕ → ℕ → Entry ℕ
entry trajectory version target = record {
  trajectory = trajectory;
  version = version;
  target = target;
}

abbrev held : List (Entry ℕ)
held = entry 10 3 4 ∷ entry 11 3 5 ∷ entry 12 4 4 ∷ []

abbrev buffer : ReplayBuffer ℕ
buffer = record {
  max_size = 4;
  trajectories = 10 ∷ 11 ∷ 12 ∷ [];
  trajectory_versions = 3 ∷ 3 ∷ 4 ∷ [];
  target_weight_versions = 4 ∷ 5 ∷ 4 ∷ [];
  last_target_weight_already_generated = some 5;
}

buffer-Holds : Holds buffer held
buffer-Holds = record { trajectories = refl; versions = refl; targets = refl }

-- Both groups for step 4, at ages 1 and 0; the group for step 5 stays.
sample_two :
    sample 2 4 1 buffer
    ≡ ok (
      record buffer {
        trajectories = 11 ∷ [];
        trajectory_versions = 3 ∷ [];
        target_weight_versions = 5 ∷ [];
      },
      some (record { trajectories = 10 ∷ 12 ∷ []; total_age = 1; group_count = 2 }),
    )
unfolding sample
sample_two = refl

sample_too_old : sample 1 5 1 buffer ≡ raise value_error
unfolding sample
sample_too_old = refl

-- After `clear` the collector still skips the targets that were generated before.
clear_keeps_last : (clear buffer).last_target_weight_already_generated ≡ some 5
unfolding clear
clear_keeps_last = refl

sample_outcome_example :
    ((any (is_old 4 1) held ≡ true) × (sample 2 4 1 buffer ≡ raise value_error))
    ⊎ ((any (is_old 4 1) held ≡ false)
        × (2 ≤ count (is_intended 4 1) held)
        × Sampled 4 1 2 held buffer (sample 2 4 1 buffer))
    ⊎ ((any (is_old 4 1) held ≡ false)
        × (count (is_intended 4 1) held < 2)
        × (sample 2 4 1 buffer ≡ ok (buffer, none)))
sample_outcome_example = sample_outcome buffer held 4 1 2 buffer-Holds (omega arith)

abbrev collector : Collector
collector = record {
  running = true;
  manual_pause_cleared = true;
  refit_pause_cleared = true;
  generation_limit_cleared = true;
  current_weight_version = 4;
  initial_weight_version = 0;
  max_trajectory_age_steps = 2;
  generating_targets = [];
}

next_target : (get_next_target_for_generation (some 5) 4 collector).1 ≡ some 6
unfolding get_next_target_for_generation
next_target = refl

get_next_target_for_generation-Reserves_example :
    Reserves (some 5) collector (get_next_target_for_generation (some 5) 4 collector)
get_next_target_for_generation-Reserves_example =
    get_next_target_for_generation-Reserves (some 5) collector

abbrev idle : System ℕ
idle = record { collector = collector; buffer = buffer; job = none; workers = [] }

idle-IsSound : IsSound 2 idle
idle-IsSound = record {
  entries = held;
  holds = buffer-Holds;
  same_age = refl;
  buffered = omega arith;
  planned = λ j e. cc;
  in_flight = tt;
}

abbrev busy : System ℕ
busy = begin_batch 4 (some 5) idle

sample_after_steps_example :
    ((has_missed 4 busy.buffer.target_weight_versions ≡ true)
      × (sample 2 4 2 busy.buffer ≡ raise value_error))
    ⊎ ((2 ≤ meant_for 4 busy.buffer.target_weight_versions)
        × ((b : ReplayBuffer ℕ) × (batch : Batch ℕ) × (sample 2 4 2 busy.buffer
              ≡ ok (b, some batch))
            × (batch.group_count ≡ 2)))
    ⊎ ((meant_for 4 busy.buffer.target_weight_versions < 2)
        × (sample 2 4 2 busy.buffer ≡ ok (busy.buffer, none)))
unfolding begin_batch
sample_after_steps_example =
    sample_after_steps 2 2 4 idle-IsSound
      (after_step (starts_batch 4 (some 5) refl (omega arith)) (initially idle)) (omega arith)
      (omega arith)

-- The buffer is full for the third push, and the batch for step 4 takes the entry behind.
abbrev requests : List (BufferCall ℕ)
requests =
    push_entry (entry 10 3 5)
    ∷ push_entry (entry 11 3 4)
    ∷ push_entry (entry 12 4 5)
    ∷ sample_groups 1 4 1
    ∷ ask_size
    ∷ ask_target 4
    ∷ ask_last_target
    ∷ sample_groups 1 5 1
    ∷ clear_all
    ∷ ask_size
    ∷ []

queue_answers : answers_from_queue requests (empty_queue 2) ≡ (
    pushed success
    ∷ pushed success
    ∷ pushed full
    ∷ sampled (ok (some (record { trajectories = 11 ∷ []; total_age = 1; group_count = 1 })))
    ∷ number 1
    ∷ found false
    ∷ last_target (some 5)
    ∷ sampled (raise value_error)
    ∷ cleared
    ∷ number 0
    ∷ [])
unfolding answers_from_queue
queue_answers = refl

replay_buffer_refines_queue_example :
    (b : ReplayBuffer ℕ) × (init 2 ≡ ok b)
    × (answers_from_buffer requests b ≡ answers_from_queue requests (empty_queue 2))
replay_buffer_refines_queue_example =
    replay_buffer_refines_queue 2 requests (omega arith)
      (tt, (tt, (tt, (omega arith, (tt, (tt, (tt, (omega arith, (tt, (tt, tt))))))))))

-- Two groups are generated for each step.
abbrev fresh : System ℕ
fresh = record {
  collector = record collector {
    current_weight_version = 0;
    initial_weight_version = 0;
    max_trajectory_age_steps = 1;
  };
  buffer = record {
    max_size = 8;
    trajectories = [];
    trajectory_versions = [];
    target_weight_versions = [];
    last_target_weight_already_generated = none;
  };
  job = none;
  workers = [];
}

abbrev job : Job
job = record { generation_weight_version = 0; target_weight = 0 }

abbrev worker : ℕ → Worker
worker prompt_idx = record {
  generation_weight_version = 0;
  target_weight_version = 0;
  prompt_idx = prompt_idx;
}

-- The first worker fails, which releases its target, and the next batch reserves it again.
abbrev failed : System ℕ
failed = finish (worker 0) (worker 1 ∷ []) (spawn job 0 (spawn job 1 (begin_batch 0 none fresh)))

abbrev again : System ℕ
again = spawn job 0 (spawn job 1 (begin_batch 0 none (record failed { job = none })))

-- All three workers push.
abbrev pushed_thrice : System ℕ
pushed_thrice = deliver (worker 1) 12 (deliver (worker 0) 11 (deliver (worker 1) 10 again))

abbrev leftover : ReplayBuffer ℕ
leftover = record {
  max_size = 8;
  trajectories = 12 ∷ [];
  trajectory_versions = 0 ∷ [];
  target_weight_versions = 0 ∷ [];
  last_target_weight_already_generated = some 0;
}

next : {s t u : System ℕ} → Reach s t → Step t u → Reach s u
next before step = after_step step before

failed_reached : Reach fresh failed
unfolding begin_batch spawn finish
failed_reached =
    next
      (next
        (next (next (initially fresh) (starts_batch 0 none refl (omega arith))) (spawns job 1 refl))
        (spawns job 0 refl))
      (finishes [] (worker 1 ∷ []) (worker 0) refl)

again_reached : Reach fresh again
unfolding begin_batch spawn finish
again_reached =
    next
      (next
        (next (next failed_reached (ends_batch job refl)) (starts_batch 0 none refl (omega arith)))
        (spawns job 1 refl))
      (spawns job 0 refl)

pushed_reached : Reach fresh pushed_thrice
unfolding begin_batch spawn finish deliver
pushed_reached =
    next
      (next (next again_reached (delivers (worker 0 ∷ worker 1 ∷ []) [] (worker 1) 10 refl))
        (delivers [] (worker 1 ∷ worker 1 ∷ []) (worker 0) 11 refl))
      (delivers (worker 0 ∷ []) (worker 1 ∷ []) (worker 1) 12 refl)

-- A step takes two of the three groups, and two steps later the third is too old.
stale_group :
    (batch : Batch ℕ) × Step pushed_thrice (record pushed_thrice { buffer = leftover })
    × (sample 2 0 1 pushed_thrice.buffer ≡ ok (leftover, some batch))
    × (sample 2 2 1 leftover ≡ raise value_error)
unfolding begin_batch spawn finish deliver sample
stale_group = (_, trains 2 0 1 leftover _ refl, refl, refl)
