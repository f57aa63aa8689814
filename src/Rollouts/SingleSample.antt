-- ===== src/Rollouts/SingleSample.antt =====
-- nemo_rl/experience/rollouts.py: `run_sample_multi_turn_rollout`, the rollout of one sample, and
-- `run_async_multi_turn_rollout`, which runs one for every sample.
pub mod Turn
pub mod Agrees
use nemo_rl_submission.Prelude.{
  ℕ, zero, suc, ◌+◌, ◌-◌, Bool, true, false, not, ◌||◌, ◌&&◌, Option, none, some, List, [], ◌∷◌,
  leb, if◌then◌else◌, length, take, Result, ok, raise, each, index, ◌>>=◌, runtime_error,
}
use nemo_rl_submission.Prelude.Text.{Text}
use nemo_rl_submission.Rollouts.Feedback.{Reply, Row, calculate_rewards}
use nemo_rl_submission.Rollouts.Sample.{
  Setup, Request, Generation, Sample, flat_ids, generated_part, start_sample, row_of, respond,
  observe,
}

module _ {Info Reward : Type 0} where
  -- What the next turn uses: what the environment leaves open stays.
  unfoldable pub keep_going : Reply Info Reward → Sample Info Reward → Sample Info Reward
  keep_going reply s = record s {
    stop_strings = elim reply.next_stop_strings [ none ↦ s.stop_strings | some stops ↦ some stops ];
    extra_env_info = elim reply.metadata [ none ↦ s.extra_env_info | some info ↦ info ];
  }

  -- The end of a turn: whether the observation is cut, and what is left of it.
  unfoldable pub close_turn :
      Setup Info Reward
      → Reply Info Reward
      → Bool
      → List ℕ
      → Sample Info Reward
      → Sample Info Reward
  unfolding observe keep_going
  close_turn setup reply cut ids s =
      let seen = observe ids reply s in
      let next = record seen {
        total_reward = setup.add s.total_reward reply.reward;
        terminated = reply.terminated;
        truncated = s.truncated || cut;
      } in
      if not next.terminated && not next.truncated then keep_going reply next else next

  -- The feedback of the environment, when the sample has its response.
  unfoldable pub sample_feedback :
      Setup Info Reward → ℕ → ℕ → Reply Info Reward → Sample Info Reward → Sample Info Reward
  unfolding close_turn
  sample_feedback setup input_length generated_length reply s =
      let ids = setup.tokenizer reply.observation.content in
      let cut = leb setup.max_seq_len (input_length + generated_length + length ids) in
      let kept =
        if cut then take (setup.max_seq_len - input_length - generated_length) ids else ids in
      close_turn setup reply cut kept s

  -- One turn: a call of the policy that raises ends the loop.
  unfoldable pub sample_turn :
      Setup Info Reward
      → (Request → Result Generation)
      → Sample Info Reward
      → Result (Option (Sample Info Reward))
  unfolding flat_ids generated_part respond calculate_rewards sample_feedback
  sample_turn setup generate_async s =
      let input_length = length (flat_ids s.message_log) in
      elim (generate_async
        (record { input_ids = flat_ids s.message_log; stop_strings = s.stop_strings })) [
          | raise error ↦ ok none
          | ok output ↦
              let ids = generated_part input_length output in
              let responded = respond setup ids s in
              do
                replies ← calculate_rewards setup.task_to_env (row_of responded ∷ [])
                reply ← index replies 0
                ok (some (sample_feedback setup input_length (length ids) reply responded))
        ]

  unfoldable pub sample_turns :
      Setup Info Reward
      → (Request → Result Generation)
      → ℕ
      → Sample Info Reward
      → Result (Sample Info Reward)
  unfolding sample_turn
  sample_turns setup generate_async zero s = ok s
  sample_turns setup generate_async (suc n) s =
      let counted = record s { turn_count = s.turn_count + 1 } in
      if s.terminated || s.truncated
      then ok s
      else sample_turn setup generate_async counted >>= λ (e : Option (Sample Info Reward)).
          elim e [ none ↦ ok counted | some s' ↦ sample_turns setup generate_async n s' ]

  unfoldable pub run_sample_multi_turn_rollout :
      Setup Info Reward
      → (Request → Result Generation)
      → ℕ
      → Row Info × Option (List Text)
      → Result (Sample Info Reward)
  unfolding sample_turns start_sample
  run_sample_multi_turn_rollout setup generate_async max_rollout_turns (row, stop_strings) = do
    s ← sample_turns setup generate_async max_rollout_turns (start_sample setup row stop_strings)
    ok (record s { max_turns_reached = leb max_rollout_turns s.turn_count })

  -- An error of a sample is raised again as RuntimeError.
  unfoldable pub with_error_handling :
      Setup Info Reward
      → (Request → Result Generation)
      → ℕ
      → Row Info × Option (List Text)
      → Result (Sample Info Reward)
  unfolding run_sample_multi_turn_rollout
  with_error_handling setup generate_async max_rollout_turns sample =
      elim (run_sample_multi_turn_rollout setup generate_async max_rollout_turns sample) [
        | ok s ↦ ok s
        | raise error ↦ raise runtime_error
      ]

  unfoldable pub run_async_multi_turn_rollout :
      Setup Info Reward
      → (Request → Result Generation)
      → ℕ
      → List (Row Info × Option (List Text))
      → Result (List (Sample Info Reward))
  unfolding with_error_handling
  run_async_multi_turn_rollout setup generate_async max_rollout_turns batch =
      each (with_error_handling setup generate_async max_rollout_turns) batch
