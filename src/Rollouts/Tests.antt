-- ===== src/Rollouts/Tests.antt =====
-- Runs of the rollouts, and their theorems at concrete inputs.
use nemo_rl_submission.Prelude.{
  ℕ, ◌+◌, ◌-◌, ◌≤◌, ◌≡◌, refl, min, inr, Bool, true, false, Option, none, some, List, [], ◌∷◌, ◌++◌,
  map, arith, leb, length, drop, replicate, Result, ok, raise, index, value_error, assertion_error,
}
use nemo_rl_submission.Prelude.Text.{Text, codes}
use nemo_rl_submission.Rollouts.Feedback.{
  EnvMessage, EnvironmentReturn, Reply, Row, Env, reply_at, calculate_rewards,
}
use nemo_rl_submission.Rollouts.Feedback.Groups.{index-map}
use nemo_rl_submission.Rollouts.Feedback.Pointwise.{ActsAlone, calculate_rewards-pointwise}
use nemo_rl_submission.Rollouts.Sample.{
  Setup, Request, Generation, Sample, flat_ids, generated_part,
}
use nemo_rl_submission.Rollouts.MultiTurn.{run_multi_turn_rollout}
use nemo_rl_submission.Rollouts.MultiTurn.Alone.{Alone}
use nemo_rl_submission.Rollouts.MultiTurn.Sound.{length-take_le}
use nemo_rl_submission.Rollouts.SingleSample.{run_async_multi_turn_rollout}
use nemo_rl_submission.Rollouts.SingleSample.Agrees.{as_batched, rollouts-agree}

-- An environment that plays as many turns as the info says, with a reward of 1 each.
abbrev moved : EnvMessage
moved = record { role = codes "environment"; content = codes "moved" }

abbrev answer : List ℕ → EnvironmentReturn ℕ ℕ
answer infos = record {
  observations = map (λ i. moved) infos;
  metadata = map (λ (i : ℕ). some (i - 1)) infos;
  next_stop_strings = some (map (λ i. some (codes "</action>" ∷ [])) infos);
  rewards = map (λ i. 1) infos;
  terminateds = map (λ i. leb i 1) infos;
  answers = some (map (λ i. none) infos);
}

abbrev play : Env ℕ ℕ
play logs infos = ok (answer infos)

abbrev answer_one : List EnvMessage → ℕ → Reply ℕ ℕ
answer_one log info = record {
  observation = moved;
  metadata = some (info - 1);
  next_stop_strings = some (codes "</action>" ∷ []);
  reward = 1;
  terminated = leb info 1;
  answer = none;
}

answer-at :
    (infos : List ℕ) (i info : ℕ) (log : List EnvMessage)
    → index infos i ≡ ok info
    → reply_at (answer infos) i ≡ ok (answer_one log info)
unfolding reply_at
answer-at infos i info log h =
    rw
      (
        index-map {B = ℕ} (λ i. 1) infos i info h,
        index-map (λ (i : ℕ). moved) infos i info h,
        index-map (λ i. leb i 1) infos i info h,
        index-map (λ (i : ℕ). some (codes "</action>" ∷ [])) infos i info h,
        index-map (λ (i : ℕ). some (i - 1)) infos i info h,
        index-map {B = Option Text} (λ i. none) infos i info h,
      )
      refl

play-ActsAlone : ActsAlone play answer_one
play-ActsAlone = record {
  result = λ items. answer (map (λ (e : List EnvMessage × ℕ). e.1) items);
  returns = λ items. refl;
  replies = λ items i log info h.
      answer-at (map (λ (e : List EnvMessage × ℕ). e.1) items) i info log
        (index-map (λ (e : List EnvMessage × ℕ). e.1) items i (log, info) h);
}

abbrev puzzle : Text
puzzle = codes "puzzle"

abbrev setup : Setup ℕ ℕ
setup = record {
  add = λ x y. x + y;
  no_reward = 0;
  decode = λ ids. ids;
  tokenizer = λ text. 1 ∷ 2 ∷ [];
  task_to_env = λ name. some play;
  max_seq_len = 9;
}

-- A policy that answers with one token, when there is room.
abbrev answer_token : Request → Generation
answer_token r = record {
  output_ids = r.input_ids ++ 7 ∷ 0 ∷ [];
  unpadded_sequence_length = min (length r.input_ids + 1) 9;
}

abbrev policy : List Request → Result (List Generation)
policy rs = ok (map answer_token rs)

abbrev async_policy : Request → Result Generation
async_policy r = ok (answer_token r)

answer_token_respects :
    (r : Request)
    → length r.input_ids ≤ 9
    → length r.input_ids + length (generated_part (length r.input_ids) (answer_token r)) ≤ 9
unfolding generated_part
answer_token_respects r fits = omega (
  arith,
  fits,
  length-take_le (min (length r.input_ids + 1) 9 - length r.input_ids)
      (drop (length r.input_ids) (r.input_ids ++ 7 ∷ 0 ∷ [])),
)

abbrev policy-Alone : Alone setup policy
policy-Alone = record {
  gen = answer_token;
  batched = λ rs. refl;
  respects = answer_token_respects;
  envs = λ name. play;
  reply = λ name. answer_one;
  one_by_one = λ name. play-ActsAlone;
}

abbrev prompt : ℕ → Row ℕ
prompt count = record {
  message_log = record { role = codes "user"; content = codes "go"; token_ids = 3 ∷ [] } ∷ [];
  extra_env_info = count;
  task_name = puzzle;
}

abbrev batch : List (Row ℕ × Option (List Text))
batch = (prompt 1, none) ∷ (prompt 2, none) ∷ (prompt 9, none) ∷ []

rollouts-agree_example :
    (finals : List (Sample ℕ ℕ)) × (run_async_multi_turn_rollout setup async_policy 2 batch
      ≡ ok finals)
    × (run_multi_turn_rollout setup policy true 2 batch ≡ ok (map as_batched finals))
unfolding flat_ids
rollouts-agree_example =
    rollouts-agree setup policy policy-Alone async_policy (λ r. refl)
      (λ name log info. inr (codes "</action>" ∷ [], refl)) 2 batch
      ((refl, omega arith), ((refl, omega arith), ((refl, omega arith), tt)))

calculate_rewards-pointwise_example :
    calculate_rewards (λ name. some play) (prompt 1 ∷ prompt 2 ∷ [])
    ≡ ok (answer_one [] 1 ∷ answer_one [] 2 ∷ [])
calculate_rewards-pointwise_example =
    calculate_rewards-pointwise (λ name. some play) (λ name. play) (λ name. answer_one)
      (λ name. play-ActsAlone) (prompt 1 ∷ prompt 2 ∷ []) (refl, (refl, tt))

-- The turns of both loops: the first sample ends by itself, the second as well at the limit of turns,
-- and the third reaches the length limit first.
abbrev statuses : Sample ℕ ℕ → (Bool × Bool) × (Bool × ℕ)
statuses s = ((s.terminated, s.truncated), (s.max_turns_reached, s.turn_count))

abbrev statuses_of : Result (List (Sample ℕ ℕ)) → List ((Bool × Bool) × (Bool × ℕ))
statuses_of (ok samples) = map statuses samples
statuses_of (raise error) = []

batch_run :
    statuses_of (run_multi_turn_rollout setup policy true 4 batch)
    ≡ ((true, false), (false, 1)) ∷ ((true, false), (false, 2)) ∷ ((true, true), (false, 3)) ∷ []
unfolding run_multi_turn_rollout
batch_run = refl

-- The second sample ends in the last turn that is allowed, and only the loop of one sample counts it
-- as stopped by the limit.
sample_run :
    statuses_of (run_async_multi_turn_rollout setup async_policy 2 batch)
    ≡ ((true, false), (false, 1)) ∷ ((true, false), (true, 2)) ∷ ((false, false), (true, 2)) ∷ []
unfolding run_async_multi_turn_rollout
sample_run = refl

-- A task without an environment.
unknown_task :
    calculate_rewards {Info = ℕ} {Reward = ℕ} (λ name. none) (prompt 1 ∷ []) ≡ raise value_error
unfolding calculate_rewards
unknown_task = refl

-- A prompt that has no room left stops the batch with AssertionError, but the sample alone goes on.
abbrev long_prompt : Row ℕ
long_prompt = record (prompt 3) {
  message_log =
      record { role = codes "user"; content = codes "go"; token_ids = replicate 10 3 } ∷ [];
}

long_batch_run :
    run_multi_turn_rollout setup policy true 4 ((long_prompt, none) ∷ []) ≡ raise assertion_error
unfolding run_multi_turn_rollout
long_batch_run = refl

long_sample_run :
    statuses_of (run_async_multi_turn_rollout setup async_policy 4 ((long_prompt, none) ∷ []))
    ≡ ((false, true), (false, 1)) ∷ []
unfolding run_async_multi_turn_rollout
long_sample_run = refl
