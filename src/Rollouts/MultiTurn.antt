-- ===== src/Rollouts/MultiTurn.antt =====
-- nemo_rl/experience/rollouts.py: `run_multi_turn_rollout`, all samples turn by turn.
pub mod Active
pub mod Alone
pub mod Sound
pub mod Rollout
use nemo_rl_submission.Prelude.{
  ℕ, zero, suc, ◌+◌, ◌-◌, Bool, true, false, not, ◌||◌, Option, none, some, List, [], ◌∷◌, ◌++◌,
  map, leb, ltb, ◌==◌, if◌then◌else◌, length, take, set, enumerate_from, zip, pick, range, Result,
  ok, raise, raise_if, each, index, ◌>>=◌, ◌>>◌, assertion_error,
}
use nemo_rl_submission.Prelude.Text.{Text}
use nemo_rl_submission.Rollouts.Feedback.{Reply, Row, calculate_rewards}
use nemo_rl_submission.Rollouts.Sample.{
  Setup, Request, Generation, Sample, flat_ids, generated_part, start_sample, row_of, respond,
  observe,
}

-- A sample that has its response in this turn, with the lengths of the prompt and of the response.
pub record Responded (Info Reward : Type 0) : Type 0 where
  pub sample : Sample Info Reward
  pub input_length : ℕ
  pub generated_length : ℕ

-- Writes values back to their places.
unfoldable pub write_at : {A : Type 0} → List A → List ℕ → List A → List A
write_at xs [] vs = xs
write_at xs (i ∷ is) [] = xs
write_at xs (i ∷ is) (v ∷ vs) = write_at (set xs i v) is vs

-- `active_indices[torch.where(~done)[0]]`.
unfoldable pub still_active : List ℕ → List Bool → List ℕ
still_active [] dones = []
still_active (i ∷ is) [] = []
still_active (i ∷ is) (done ∷ dones) =
    let rest = still_active is dones in if done then rest else i ∷ rest

module _ {Info Reward : Type 0} where
  -- Without the key `stop_strings` in the batch, generation gets none, whatever the environment asked
  -- for.
  unfoldable pub request_of : Bool → Sample Info Reward → Request
  unfolding flat_ids
  request_of has_stop_strings s = record {
    input_ids = flat_ids s.message_log;
    stop_strings = if has_stop_strings then s.stop_strings else none;
  }

  unfoldable pub with_response :
      Setup Info Reward → List Generation → Sample Info Reward × ℕ → Result (Responded Info Reward)
  unfolding flat_ids generated_part respond
  with_response setup outputs (s, i) =
      let input_length = length (flat_ids s.message_log) in
      do
        output ← index outputs i
        let ids = generated_part input_length output
        ok (record {
          sample = respond setup ids s;
          input_length = input_length;
          generated_length = length ids;
        })

  unfoldable pub generate_responses :
      Setup Info Reward
      → (List Request → Result (List Generation))
      → Bool
      → List (Sample Info Reward)
      → Result (List (Responded Info Reward))
  unfolding request_of with_response
  generate_responses setup generate has_stop_strings samples = do
    outputs ← generate (map (request_of has_stop_strings) samples)
    each (with_response setup outputs) (enumerate_from 0 samples)

  -- What the next turn uses, when the sample goes on.
  unfoldable pub go_on : Reply Info Reward → Sample Info Reward → Sample Info Reward
  go_on reply s = record s {
    stop_strings = reply.next_stop_strings;
    extra_env_info = elim reply.metadata [ none ↦ s.extra_env_info | some info ↦ info ];
  }

  -- The end of a turn for one sample: whether the observation is cut, and what is left of it.
  unfoldable pub end_turn :
      Setup Info Reward
      → Reply Info Reward
      → Bool
      → List ℕ
      → Sample Info Reward
      → Sample Info Reward
  unfolding observe go_on
  end_turn setup reply cut ids s =
      let seen = observe ids reply s in
      let done = cut || reply.terminated in
      let next = record seen {
        total_reward = setup.add s.total_reward reply.reward;
        turn_count = s.turn_count + 1;
        terminated = s.terminated || done;
        truncated = s.truncated || cut;
      } in
      if done then next else go_on reply next

  -- The feedback of one sample, and whether the sample is done.
  unfoldable pub take_feedback :
      Setup Info Reward
      → Responded Info Reward × Reply Info Reward
      → Result (Sample Info Reward × Bool)
  unfolding end_turn
  take_feedback setup (r, reply) =
      let ids = setup.tokenizer reply.observation.content in
      let used = r.generated_length + r.input_length in
      if leb setup.max_seq_len (length ids + used)
      then raise_if (ltb setup.max_seq_len used) assertion_error
        >> ok (end_turn setup reply true (take (setup.max_seq_len - used) ids) r.sample, true)
      else ok (end_turn setup reply false ids r.sample, reply.terminated)

  -- One turn of the active samples, and which of them stay active.
  unfoldable pub rollout_turn :
      Setup Info Reward
      → (List Request → Result (List Generation))
      → Bool
      → List (Sample Info Reward)
      → List ℕ
      → Result (List (Sample Info Reward) × List ℕ)
  unfolding generate_responses calculate_rewards take_feedback write_at still_active
  rollout_turn setup generate has_stop_strings samples active = do
    responded ← generate_responses setup generate has_stop_strings (pick samples active)
    replies ←
        calculate_rewards setup.task_to_env
          (map (λ (r : Responded Info Reward). row_of r.sample) responded)
    ended ← each (take_feedback setup) (zip responded replies)
    ok (
      write_at samples active (map (λ (e : Sample Info Reward × Bool). e.0) ended),
      still_active active (map (λ (e : Sample Info Reward × Bool). e.1) ended),
    )

  unfoldable pub rollout_turns :
      Setup Info Reward
      → (List Request → Result (List Generation))
      → Bool
      → ℕ
      → List (Sample Info Reward)
      → List ℕ
      → Result (List (Sample Info Reward) × List ℕ)
  unfolding rollout_turn
  rollout_turns setup generate has_stop_strings zero samples active = ok (samples, active)
  rollout_turns setup generate has_stop_strings (suc n) samples active =
      if length active == 0
      then ok (samples, active)
      else rollout_turn setup generate has_stop_strings samples active
        >>= λ (e : List (Sample Info Reward) × List ℕ).
            rollout_turns setup generate has_stop_strings n e.0 e.1

  -- Marks the samples at these places.
  unfoldable pub mark_reached : List ℕ → List (Sample Info Reward) → List (Sample Info Reward)
  unfolding write_at
  mark_reached active samples = write_at samples active (
      map (λ (s : Sample Info Reward). record s { max_turns_reached = true }) (pick samples active))

  unfoldable pub run_multi_turn_rollout :
      Setup Info Reward
      → (List Request → Result (List Generation))
      → Bool
      → ℕ
      → List (Row Info × Option (List Text))
      → Result (List (Sample Info Reward))
  unfolding rollout_turns start_sample mark_reached
  run_multi_turn_rollout setup generate has_stop_strings max_rollout_turns batch =
      let samples = map (λ (e : Row Info × Option (List Text)). start_sample setup e.0 e.1) batch in
      rollout_turns setup generate has_stop_strings max_rollout_turns samples
        (range (length samples))
      >>= λ (e : List (Sample Info Reward) × List ℕ). ok (mark_reached e.1 e.0)
