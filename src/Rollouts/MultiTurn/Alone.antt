-- ===== src/Rollouts/MultiTurn/Alone.antt =====
-- A turn of a batch, when the policy and the environments treat each sample alone.
use nemo_rl_submission.Prelude.{
  ℕ, ◌+◌, ◌-◌, ◌≤◌, ◌≡◌, refl, sym, ◌∙◌, ap, Bool, true, false, ◌||◌, some, List, [], map, arith,
  ltb, leb, if◌then◌else◌, length, take, All, All-map, All-of_map, enumerate_from, zip, Bool-cases,
  inl, inr, Result, ok, each, index,
}
use nemo_rl_submission.Prelude.Text.{Text}
use nemo_rl_submission.Batching.Batch.Reorder.{each-ok}
use nemo_rl_submission.Rollouts.Feedback.{EnvMessage, Reply, Row, Env, calculate_rewards}
use nemo_rl_submission.Rollouts.Feedback.Groups.{
  index-map, enumerate_holds, map-enumerate, each-map, map-map, zip-map, all,
}
use nemo_rl_submission.Rollouts.Feedback.Pointwise.{
  ActsAlone, reply_to, calculate_rewards-pointwise,
}
use nemo_rl_submission.Rollouts.Sample.{
  Setup, Request, Generation, Sample, flat_ids, generated_part, row_of, respond, observe,
}
use nemo_rl_submission.Rollouts.MultiTurn.Active.{
  active_from, live, live-All, pick-active, write_at-active, still_active-active,
}
use nemo_rl_submission.Rollouts.MultiTurn.{
  Responded, request_of, with_response, generate_responses, end_turn, go_on, take_feedback,
  rollout_turn,
}

-- A policy that treats each prompt alone and respects the length limit, and environments that treat
-- each sample alone.
pub record Alone {Info Reward : Type 0} (setup : Setup Info Reward)
    (generate : List Request → Result (List Generation)) : Type 0 where
  pub gen : Request → Generation
  pub batched : (rs : List Request) → generate rs ≡ ok (map gen rs)
  pub respects :
      (r : Request)
      → length r.input_ids ≤ setup.max_seq_len
      → length r.input_ids + length (generated_part (length r.input_ids) (gen r))
        ≤ setup.max_seq_len
  pub envs : Text → Env Info Reward
  pub reply : Text → List EnvMessage → Info → Reply Info Reward
  pub one_by_one : (name : Text) → ActsAlone (envs name) (reply name)

module _ {Info Reward : Type 0} (setup : Setup Info Reward)
    (generate : List Request → Result (List Generation)) (alone : Alone setup generate) where
  -- A sample whose task has an environment and whose messages fit the length limit.
  pub record IsSound (s : Sample Info Reward) : Type 0 where
    pub known : setup.task_to_env s.task_name ≡ some (alone.envs s.task_name)
    pub fits : length (flat_ids s.message_log) ≤ setup.max_seq_len

  abbrev pub input_length : Sample Info Reward → ℕ
  input_length s = length (flat_ids s.message_log)

  abbrev pub response : Sample Info Reward → List ℕ
  response s = generated_part (input_length s) (alone.gen (request_of true s))

  abbrev pub responded : Sample Info Reward → Sample Info Reward
  responded s = respond setup (response s) s

  abbrev pub reply_for : Sample Info Reward → Reply Info Reward
  reply_for s =
      reply_to setup.task_to_env alone.envs alone.reply alone.one_by_one (row_of (responded s))

  abbrev pub observation : Sample Info Reward → List ℕ
  observation s = setup.tokenizer (reply_for s).observation.content

  abbrev pub is_cut : Sample Info Reward → Bool
  is_cut s = leb setup.max_seq_len (length (observation s) + (length (response s) + input_length s))

  abbrev pub kept : Sample Info Reward → List ℕ
  kept s =
      if is_cut s
      then take (setup.max_seq_len - (length (response s) + input_length s)) (observation s)
      else observation s

  -- One turn of one active sample.
  abbrev pub advance : Sample Info Reward → Sample Info Reward
  advance s = end_turn setup (reply_for s) (is_cut s) (kept s) (responded s)

  abbrev of_response : Sample Info Reward → Responded Info Reward
  of_response s = record {
    sample = responded s;
    input_length = input_length s;
    generated_length = length (response s);
  }

  generate_responses-alone :
      (samples : List (Sample Info Reward))
      → generate_responses setup generate true samples ≡ ok (map of_response samples)
  unfolding generate_responses with_response request_of
  generate_responses-alone samples =
      rw
        (
          alone.batched (map (request_of true) samples),
          map-map alone.gen (request_of true) samples,
          each-ok (with_response setup (map (λ s. alone.gen (request_of true s)) samples))
              (λ (e : Sample Info Reward × ℕ). of_response e.0) (enumerate_from 0 samples) one,
          map-enumerate of_response 0 samples,
        )
        refl
    where
      placed :
          (e : Sample Info Reward × ℕ)
          → (index samples e.1 ≡ ok e.0) × Unit {0}
          → with_response setup (map (λ s. alone.gen (request_of true s)) samples) e
            ≡ ok (of_response e.0)
      placed e found =
          rw (index-map (λ s. alone.gen (request_of true s)) samples e.1 e.0 found.0) refl

      one :
          All
            (λ (e : Sample Info Reward × ℕ).
              with_response setup (map (λ s. alone.gen (request_of true s)) samples) e
              ≡ ok (of_response e.0))
            (enumerate_from 0 samples)
      one =
          All-map placed (enumerate_from 0 samples)
            (enumerate_holds (λ s. Unit {0}) [] samples (all (λ s. tt) samples))

  not_beyond :
      (s : Sample Info Reward)
      → IsSound s
      → ltb setup.max_seq_len (length (response s) + input_length s) ≡ false
  unfolding request_of
  not_beyond s sound =
      let room = alone.respects (request_of true s) sound.fits in ground (arith, room)

  end_turn-terminated :
      (r : Reply Info Reward) (cut : Bool) (ids : List ℕ) (s : Sample Info Reward)
      → (end_turn setup r cut ids s).terminated ≡ (s.terminated || (cut || r.terminated))
  unfolding end_turn observe go_on
  end_turn-terminated r cut ids s = elim (Bool-cases (cut || r.terminated)) [
    | inl over ↦ rw over refl
    | inr goes ↦ rw goes refl
  ]

  pub advance-terminated :
      (s : Sample Info Reward)
      → s.terminated ≡ false
      → (advance s).terminated ≡ (is_cut s || (reply_for s).terminated)
  unfolding respond
  advance-terminated s going =
      end_turn-terminated (reply_for s) (is_cut s) (kept s) (responded s)
      ∙ ap (λ b. b || (is_cut s || (reply_for s).terminated)) going

  take_feedback-ended :
      (s : Sample Info Reward)
      → IsSound s
      → take_feedback setup (of_response s, reply_for s)
        ≡ ok (advance s, (is_cut s || (reply_for s).terminated))
  unfolding take_feedback
  take_feedback-ended s sound = elim (Bool-cases (is_cut s)) [
    | inl cut ↦ rw (cut, not_beyond s sound) refl
    | inr whole ↦ rw whole refl
  ]

  take_feedback-advance :
      (s : Sample Info Reward)
      → IsSound s
      → s.terminated ≡ false
      → take_feedback setup (of_response s, reply_for s) ≡ ok (advance s, (advance s).terminated)
  take_feedback-advance s sound going =
      take_feedback-ended s sound ∙ ap (λ b. ok (advance s, b)) (sym (advance-terminated s going))

  abbrev pub is_done : Sample Info Reward → Bool
  is_done s = s.terminated

  -- What a turn of the batch makes of a sample.
  abbrev pub next_state : Sample Info Reward → Sample Info Reward
  next_state s = if s.terminated then s else advance s

  known_rows :
      (samples : List (Sample Info Reward))
      → All IsSound samples
      → All
          (λ (row : Row Info). setup.task_to_env row.task_name ≡ some (alone.envs row.task_name))
          (map (λ s. row_of (responded s)) samples)
  unfolding respond
  known_rows samples sound =
      All-of_map _ (λ s. row_of (responded s)) samples
        (All-map (λ s (k : IsSound s). k.known) samples sound)

  replies-alone :
      (samples : List (Sample Info Reward))
      → All IsSound samples
      → calculate_rewards setup.task_to_env
          (map (λ (r : Responded Info Reward). row_of r.sample) (map of_response samples))
        ≡ ok (map reply_for samples)
  replies-alone samples sound =
      ap (calculate_rewards setup.task_to_env)
        (map-map (λ (r : Responded Info Reward). row_of r.sample) of_response samples)
      ∙ calculate_rewards-pointwise setup.task_to_env alone.envs alone.reply alone.one_by_one
          (map (λ s. row_of (responded s)) samples) (known_rows samples sound)
      ∙ ap ok (
          map-map (reply_to setup.task_to_env alone.envs alone.reply alone.one_by_one)
            (λ s. row_of (responded s)) samples)

  feedback-alone :
      (samples : List (Sample Info Reward))
      → All (λ s. IsSound s × (s.terminated ≡ false)) samples
      → each (take_feedback setup) (zip (map of_response samples) (map reply_for samples))
        ≡ ok (map (λ s. (advance s, (advance s).terminated)) samples)
  feedback-alone samples good =
      ap (each (take_feedback setup)) (zip-map of_response reply_for samples)
      ∙ each-map (take_feedback setup) (λ s. (of_response s, reply_for s)) samples
      ∙ each-ok (λ s. take_feedback setup (of_response s, reply_for s))
          (λ s. (advance s, (advance s).terminated)) samples
          (All-map (λ s (k : IsSound s × (s.terminated ≡ false)). take_feedback-advance s k.0 k.1)
            samples good)

  -- A turn of the batch is a turn of each active sample.
  pub rollout_turn-alone :
      (samples : List (Sample Info Reward))
      → All IsSound samples
      → rollout_turn setup generate true samples (active_from is_done 0 samples)
        ≡ ok (map next_state samples, active_from is_done 0 (map next_state samples))
  unfolding rollout_turn
  rollout_turn-alone samples sound =
      let good = live-All is_done IsSound samples sound in
      rw
        (
          pick-active is_done [] samples,
          generate_responses-alone (live is_done samples),
          replies-alone (live is_done samples) (
              All-map (λ s (k : IsSound s × (s.terminated ≡ false)). k.0) (live is_done samples)
                good),
          feedback-alone (live is_done samples) good,
          map-map (λ (e : Sample Info Reward × Bool). e.0)
              (λ s. (advance s, (advance s).terminated)) (live is_done samples),
          map-map (λ (e : Sample Info Reward × Bool). e.1)
              (λ s. (advance s, (advance s).terminated)) (live is_done samples),
          write_at-active is_done advance [] samples,
          still_active-active is_done advance 0 samples,
        )
        refl
