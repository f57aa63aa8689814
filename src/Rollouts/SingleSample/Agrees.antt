-- ===== src/Rollouts/SingleSample/Agrees.antt =====
-- nemo_rl/experience/rollouts.py: `run_multi_turn_rollout` and the rollouts of its samples.
use mathlib.Core.Path.{subst}
use nemo_rl_submission.Prelude.{
  ℕ, zero, suc, ◌+◌, ◌≤◌, ◌≡◌, refl, sym, ◌∙◌, ap, Bool, true, false, not, ◌||◌, ◌&&◌, Option, some,
  List, [], ◌∷◌, map, arith, leb, if◌then◌else◌, length, All, ◌⊎◌, Bool-cases, inl, inr, Result, ok,
}
use nemo_rl_submission.Prelude.Text.{Text}
use nemo_rl_submission.Rollouts.Feedback.{
  EnvMessage, Row, get_keys_from_message_log, calculate_rewards,
}
use nemo_rl_submission.Rollouts.Sample.{
  Setup, Request, Generation, Sample, start_sample, row_of, respond,
}
use nemo_rl_submission.Rollouts.Feedback.Pointwise.{calculate_rewards-pointwise}
use nemo_rl_submission.Rollouts.MultiTurn.Alone.{
  Alone, IsSound, input_length, response, responded, reply_for, is_cut, kept, advance, next_state,
}
use nemo_rl_submission.Rollouts.MultiTurn.Sound.{advance-IsSound}
use nemo_rl_submission.Rollouts.MultiTurn.Rollout.{
  start_sample-IsSound, IsRunnable, steps, steps_done, outcome, run_multi_turn_rollout-alone,
}
use nemo_rl_submission.Rollouts.MultiTurn.{run_multi_turn_rollout, request_of}
use nemo_rl_submission.Rollouts.SingleSample.{
  sample_feedback, sample_turn, sample_turns, run_sample_multi_turn_rollout, with_error_handling,
  run_async_multi_turn_rollout,
}
use nemo_rl_submission.Rollouts.SingleSample.Turn.{
  ended, counted, EndsOrNames, feedback-agrees, sample_feedback-turn_count,
  end_turn-max_turns_reached,
}

module _ {Info Reward : Type 0} where
  -- How the batch records a sample: a cut sample counts as terminated, and the limit of turns as
  -- reached only by a sample that could go on.
  abbrev pub as_batched : Sample Info Reward → Sample Info Reward
  as_batched s = record s {
    terminated = s.terminated || s.truncated;
    max_turns_reached = s.max_turns_reached && not (s.terminated || s.truncated);
  }

  abbrev finish : Sample Info Reward → Sample Info Reward
  finish s = if s.terminated then s else record s { max_turns_reached = true }

  marks_agree :
      (over reached : Bool) (s : Sample Info Reward)
      → s.max_turns_reached ≡ false
      → (over ≡ true) ⊎ (reached ≡ true)
      → record s { terminated = over; max_turns_reached = reached && not over }
        ≡ finish (record s { terminated = over })
  marks_agree true true s h k =
      ap (λ b. record s { terminated = true; max_turns_reached = b }) (sym h)
  marks_agree true false s h k =
      ap (λ b. record s { terminated = true; max_turns_reached = b }) (sym h)
  marks_agree false true s h k = refl
  marks_agree false false s h k = elim k [ inl e ↦ absurd cc | inr e ↦ absurd cc ]

module _ {Info Reward : Type 0} (setup : Setup Info Reward)
    (generate : List Request → Result (List Generation)) (alone : Alone setup generate)
    (generate_async : Request → Result Generation)
    (asynchronous : (r : Request) → generate_async r ≡ ok (alone.gen r))
    (ends : (name : Text) (log : List EnvMessage) (info : Info)
      → EndsOrNames (alone.reply name log info)) where
  abbrev Sound : Sample Info Reward → Type 0
  Sound = IsSound setup generate alone

  one_reply :
      (s : Sample Info Reward)
      → Sound s
      → calculate_rewards setup.task_to_env (row_of (responded setup generate alone s) ∷ [])
        ≡ ok (reply_for setup generate alone s ∷ [])
  unfolding respond
  one_reply s sound =
      calculate_rewards-pointwise setup.task_to_env alone.envs alone.reply alone.one_by_one
        (row_of (responded setup generate alone s) ∷ []) (sound.known, tt)

  abbrev after : Sample Info Reward → Sample Info Reward
  after s =
      sample_feedback setup (input_length setup generate alone s)
        (length (response setup generate alone s)) (reply_for setup generate alone s)
        (counted (responded setup generate alone s))

  sample_turn-after :
      (s : Sample Info Reward)
      → Sound s
      → sample_turn setup generate_async (counted s) ≡ ok (some (after s))
  unfolding sample_turn respond request_of
  sample_turn-after s sound =
      rw (sample_turn, asynchronous (request_of true s), one_reply s sound) refl

  after-advance :
      (s : Sample Info Reward)
      → s.terminated ≡ false
      → s.truncated ≡ false
      → ended (after s) ≡ advance setup generate alone s
  unfolding respond
  after-advance s live whole =
      let r = responded setup generate alone s in
      feedback-agrees setup (input_length setup generate alone s)
        (length (response setup generate alone s)) (reply_for setup generate alone s) r
        (ends r.task_name (get_keys_from_message_log r.message_log) r.extra_env_info) live whole

  after-turn_count : (s : Sample Info Reward) → (after s).turn_count ≡ s.turn_count + 1
  unfolding respond
  after-turn_count s =
      sample_feedback-turn_count setup (input_length setup generate alone s)
        (length (response setup generate alone s)) (reply_for setup generate alone s)
        (counted (responded setup generate alone s))

  -- All turns of one sample, in the two loops.
  turns-agree :
      (n : ℕ) (s : Sample Info Reward)
      → Sound s
      → (s' : Sample Info Reward) × (sample_turns setup generate_async n s ≡ ok s')
        × (ended s' ≡ steps setup generate alone n (ended s))
        × ((s'.terminated || s'.truncated ≡ true) ⊎ (n + s.turn_count ≤ s'.turn_count))
  unfolding sample_turns
  turns-agree zero s sound = (s, refl, refl, inr (omega arith))
  turns-agree (suc n) s sound = elim (Bool-cases (s.terminated || s.truncated)) [
    | inl over ↦
        (s, rw over refl, sym (steps_done setup generate alone (suc n) (ended s) over), inl over)
    | inr goes ↦
        let live : s.terminated ≡ false = ground (arith, goes) in
        let whole : s.truncated ≡ false = ground (arith, goes) in
        let meets = after-advance s live whole in
        let sound' : Sound (ended (after s)) =
          subst Sound (sym meets) (advance-IsSound setup generate alone s sound) in
        let (s', run, same, reached) =
          turns-agree n (after s) (record { known = sound'.known; fits = sound'.fits }) in
        let one : next_state setup generate alone (ended s) ≡ ended (after s) =
          ap (λ b. if b then ended s else advance setup generate alone (ended s)) goes
          ∙ ap (λ b. advance setup generate alone (record s { terminated = b })) (goes ∙ sym live)
          ∙ sym meets in
        (
          s',
          rw (goes, sample_turn-after s sound) run,
          same ∙ ap (steps setup generate alone n) (sym one),
          elim reached [
            | inl over ↦ inl over
            | inr enough ↦ inr (omega (arith, enough, after-turn_count s))
          ],
        )
  ]

  next_state-max_turns_reached :
      (s : Sample Info Reward)
      → (next_state setup generate alone s).max_turns_reached ≡ s.max_turns_reached
  unfolding respond
  next_state-max_turns_reached s = elim (Bool-cases s.terminated) [
    | inl over ↦ ap (λ b. (if b then s else advance setup generate alone s).max_turns_reached) over
    | inr goes ↦
        ap (λ b. (if b then s else advance setup generate alone s).max_turns_reached) goes
        ∙ end_turn-max_turns_reached setup (reply_for setup generate alone s)
            (is_cut setup generate alone s) (kept setup generate alone s)
            (responded setup generate alone s)
  ]

  steps-max_turns_reached :
      (n : ℕ) (s : Sample Info Reward)
      → (steps setup generate alone n s).max_turns_reached ≡ s.max_turns_reached
  steps-max_turns_reached zero s = refl
  steps-max_turns_reached (suc n) s =
      steps-max_turns_reached n (next_state setup generate alone s) ∙ next_state-max_turns_reached s

  sample-agrees :
      (n : ℕ) (e : Row Info × Option (List Text))
      → IsRunnable setup generate alone e
      → (s : Sample Info Reward) × (with_error_handling setup generate_async n e ≡ ok s)
        × (outcome setup generate alone n e ≡ as_batched s)
  unfolding with_error_handling run_sample_multi_turn_rollout start_sample
  sample-agrees n (row, stop_strings) runnable =
      let first = start_sample setup row stop_strings in
      let (s', run, same, reached) =
        turns-agree n first
          (start_sample-IsSound setup generate alone (row, stop_strings) runnable) in
      let unmarked : s'.max_turns_reached ≡ false =
        ap (λ (s : Sample Info Reward). s.max_turns_reached) same
        ∙ steps-max_turns_reached n first in
      let enough : (s'.terminated || s'.truncated ≡ true) ⊎ (leb n s'.turn_count ≡ true) =
        elim reached [ inl over ↦ inl over | inr many ↦ inr (ground (arith, many)) ] in
      (
        record s' { max_turns_reached = leb n s'.turn_count },
        rw (with_error_handling, run_sample_multi_turn_rollout, run) refl,
        ap finish (sym same)
            ∙ sym (
                marks_agree (s'.terminated || s'.truncated) (leb n s'.turn_count) s' unmarked
                  enough),
      )

  samples-agree :
      (n : ℕ) (batch : List (Row Info × Option (List Text)))
      → All (IsRunnable setup generate alone) batch
      → (finals : List (Sample Info Reward)) × (run_async_multi_turn_rollout setup generate_async n
            batch
          ≡ ok finals)
        × (map (outcome setup generate alone n) batch ≡ map as_batched finals)
  unfolding run_async_multi_turn_rollout
  samples-agree n [] h = ([], refl, refl)
  samples-agree n (e ∷ batch) h =
      let (s, run, same) = sample-agrees n e h.0 in
      let (finals, runs, all_same) = samples-agree n batch h.1 in
      (s ∷ finals, rw (run, runs) refl, rw (same, all_same) refl)

  -- When the policy treats each prompt alone, in a batch as asynchronously, and respects the length
  -- limit, when the environments treat each sample alone and end its episode or name the next stop
  -- strings, when every task has an environment, the prompts fit the limit and the batch has the key `stop_strings`: both
  -- rollouts return, for every limit on the turns, and give each sample the same messages, infos, stop
  -- strings, reward and counts; only the batch counts a sample whose observation was cut as
  -- terminated, and only a sample that could go on as one that reached the limit of turns.
  pub rollouts-agree :
      (n : ℕ) (batch : List (Row Info × Option (List Text)))
      → All (IsRunnable setup generate alone) batch
      → (finals : List (Sample Info Reward)) × (run_async_multi_turn_rollout setup generate_async n
            batch
          ≡ ok finals)
        × (run_multi_turn_rollout setup generate true n batch ≡ ok (map as_batched finals))
  rollouts-agree n batch runnable =
      let (finals, runs, same) = samples-agree n batch runnable in
      (
        finals,
        runs,
        run_multi_turn_rollout-alone setup generate alone n batch runnable ∙ ap ok same,
      )
