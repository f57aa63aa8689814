-- ===== src/Rollouts/MultiTurn/Rollout.antt =====
-- All turns of a batch, when the policy and the environments treat each sample alone.
use mathlib.Core.Path.{subst}
use nemo_rl_submission.Prelude.{
  ℕ, zero, suc, ◌≤◌, ◌≡◌, refl, sym, ◌∙◌, ap, Bool, true, Option, some, List, [], ◌∷◌, map, arith,
  ◌==◌, if◌then◌else◌, length, range_from, All, All-map, All-of_map, Bool-cases, inl, inr, Result,
  ok,
}
use nemo_rl_submission.Prelude.Text.{Text}
use nemo_rl_submission.Rollouts.Feedback.{Row}
use nemo_rl_submission.Rollouts.Feedback.Groups.{map-map}
use nemo_rl_submission.Rollouts.Sample.{Setup, Request, Generation, Sample, flat_ids, start_sample}
use nemo_rl_submission.Rollouts.MultiTurn.Active.{active_from, pick-active, write_at-active}
use nemo_rl_submission.Rollouts.MultiTurn.Alone.{
  Alone, IsSound, advance, is_done, next_state, rollout_turn-alone,
}
use nemo_rl_submission.Rollouts.MultiTurn.{
  rollout_turns, mark_reached, write_at, run_multi_turn_rollout,
}
use nemo_rl_submission.Rollouts.MultiTurn.Sound.{advance-IsSound}

map-id : {A : Type 0} (xs : List A) → map (λ x. x) xs ≡ xs
map-id [] = refl
map-id (x ∷ xs) = ap (x ∷◌) (map-id xs)

==→eq : (m n : ℕ) → m == n ≡ true → m ≡ n
==→eq m n h = ground (arith, h)

module _ {Info Reward : Type 0} (setup : Setup Info Reward)
    (generate : List Request → Result (List Generation)) (alone : Alone setup generate) where
  -- All turns of one sample.
  abbrev pub steps : ℕ → Sample Info Reward → Sample Info Reward
  steps zero s = s
  steps (suc n) s = steps n (next_state setup generate alone s)

  abbrev done : Sample Info Reward → Bool
  done = is_done setup generate alone

  next_state-IsSound :
      (s : Sample Info Reward)
      → IsSound setup generate alone s
      → IsSound setup generate alone (next_state setup generate alone s)
  next_state-IsSound s sound = elim (Bool-cases s.terminated) [
    | inl over ↦
        subst (λ b. IsSound setup generate alone (if b then s else advance setup generate alone s))
          (sym over) sound
    | inr going ↦
        subst (λ b. IsSound setup generate alone (if b then s else advance setup generate alone s))
          (sym going) (advance-IsSound setup generate alone s sound)
  ]

  pub steps_done : (n : ℕ) (s : Sample Info Reward) → s.terminated ≡ true → steps n s ≡ s
  steps_done zero s over = refl
  steps_done (suc n) s over =
      let stays : next_state setup generate alone s ≡ s =
        ap (λ b. if b then s else advance setup generate alone s) over in
      ap (steps n) stays ∙ steps_done n s over

  none_active :
      (n i : ℕ) (samples : List (Sample Info Reward))
      → length (active_from done i samples) ≡ 0
      → map (steps n) samples ≡ samples
  none_active n i [] h = refl
  none_active n i (s ∷ samples) h = elim (Bool-cases s.terminated) [
    | inl over ↦ rw (steps_done n s over, none_active n (suc i) samples (rw over at h)) refl
    | inr going ↦ absurd (omega (arith, rw going at h))
  ]

  rollout_turns-alone :
      (n : ℕ) (samples : List (Sample Info Reward))
      → All (IsSound setup generate alone) samples
      → rollout_turns setup generate true n samples (active_from done 0 samples)
        ≡ ok (map (steps n) samples, active_from done 0 (map (steps n) samples))
  unfolding rollout_turns
  rollout_turns-alone zero samples sound = rw (map-id samples) refl
  rollout_turns-alone (suc n) samples sound =
      elim (Bool-cases (length (active_from done 0 samples) == 0)) [
        | inl empty ↦ rw (empty, none_active (suc n) 0 samples (==→eq _ 0 empty)) refl
        | inr some_active ↦
            rw
              (
                some_active,
                rollout_turn-alone setup generate alone samples sound,
                rollout_turns-alone n (map (next_state setup generate alone) samples) (
                    All-of_map _ (next_state setup generate alone) samples
                      (All-map next_state-IsSound samples sound)),
                map-map (steps n) (next_state setup generate alone) samples,
              )
              refl
      ]

  -- A sample of the batch that can be run: its task has an environment and its messages fit.
  abbrev pub IsRunnable : Row Info × Option (List Text) → Type 0
  IsRunnable (row, stop_strings) =
      (setup.task_to_env row.task_name ≡ some (alone.envs row.task_name))
      × (length (flat_ids row.message_log) ≤ setup.max_seq_len)

  abbrev pub begin : Row Info × Option (List Text) → Sample Info Reward
  begin (row, stop_strings) = start_sample setup row stop_strings

  pub start_sample-IsSound :
      (e : Row Info × Option (List Text)) → IsRunnable e → IsSound setup generate alone (begin e)
  unfolding start_sample
  start_sample-IsSound (row, stop_strings) h = record { known = h.0; fits = h.1 }

  all_active :
      (i : ℕ) (batch : List (Row Info × Option (List Text)))
      → active_from done i (map begin batch) ≡ range_from i (length (map begin batch))
  unfolding start_sample
  all_active i [] = refl
  all_active i ((row, stop_strings) ∷ batch) = ap (i ∷◌) (all_active (suc i) batch)

  abbrev mark : Sample Info Reward → Sample Info Reward
  mark s = record s { max_turns_reached = true }

  -- What a rollout of a batch makes of one sample.
  abbrev pub outcome : ℕ → Row Info × Option (List Text) → Sample Info Reward
  outcome n (row, stop_strings) =
      let s = steps n (start_sample setup row stop_strings) in if s.terminated then s else mark s

  mark_reached-active :
      (samples : List (Sample Info Reward))
      → mark_reached (active_from done 0 samples) samples
        ≡ map (λ (s : Sample Info Reward). if s.terminated then s else mark s) samples
  unfolding mark_reached
  mark_reached-active samples =
      ap (λ chosen. write_at samples (active_from done 0 samples) (map mark chosen))
        (pick-active done [] samples)
      ∙ write_at-active done mark [] samples

  pub run_multi_turn_rollout-alone :
      (n : ℕ) (batch : List (Row Info × Option (List Text)))
      → All IsRunnable batch
      → run_multi_turn_rollout setup generate true n batch ≡ ok (map (outcome n) batch)
  unfolding run_multi_turn_rollout
  run_multi_turn_rollout-alone n batch runnable =
      rw
        (
          sym (all_active 0 batch),
          rollout_turns-alone n (map begin batch)
              (All-of_map _ begin batch (All-map start_sample-IsSound batch runnable)),
          mark_reached-active (map (steps n) (map begin batch)),
          map-map (steps n) begin batch,
          map-map (λ (s : Sample Info Reward). if s.terminated then s else mark s)
              (λ e. steps n (begin e)) batch,
        )
        refl
