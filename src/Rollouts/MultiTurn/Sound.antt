-- ===== src/Rollouts/MultiTurn/Sound.antt =====
-- nemo_rl/experience/rollouts.py: the length limit over a turn of a batch.
use mathlib.Core.Path.{subst}
use nemo_rl_submission.Prelude.{
  ℕ, zero, suc, ◌+◌, ◌-◌, ◌≤◌, ◌≡◌, refl, sym, Bool, true, ◌||◌, some, List, [], ◌∷◌, ◌++◌, flatten,
  arith, length, length-append, take, Bool-cases, inl, inr, Result,
}
use nemo_rl_submission.Rollouts.Feedback.{LogMessage, Reply}
use nemo_rl_submission.Rollouts.Sample.{
  Setup, Request, Generation, Sample, flat_ids, respond, observe,
}
use nemo_rl_submission.Rollouts.MultiTurn.Alone.{
  Alone, IsSound, input_length, response, responded, reply_for, observation, is_cut, kept, advance,
}
use nemo_rl_submission.Rollouts.MultiTurn.{end_turn, go_on, request_of}

flat_ids-snoc :
    (log : List LogMessage) (m : LogMessage)
    → length (flat_ids (log ++ m ∷ [])) ≡ length (flat_ids log) + length m.token_ids
unfolding flat_ids flatten
flat_ids-snoc [] m = omega (arith, length-append m.token_ids [])
flat_ids-snoc (l ∷ log) m = omega (
  arith,
  flat_ids-snoc log m,
  length-append l.token_ids (flat_ids (log ++ m ∷ [])),
  length-append l.token_ids (flat_ids log),
)

pub length-take_le {ℓ} : {A : Type ℓ} (n : ℕ) (xs : List A) → length (take n xs) ≤ n
length-take_le zero xs = omega arith
length-take_le (suc n) [] = omega arith
length-take_le (suc n) (x ∷ xs) = omega (arith, length-take_le n xs)

module _ {Info Reward : Type 0} where
  end_turn-message_log :
      (setup : Setup Info Reward) (r : Reply Info Reward) (cut : Bool) (ids : List ℕ)
      (s : Sample Info Reward)
      → (end_turn setup r cut ids s).message_log ≡ (observe ids r s).message_log
  unfolding end_turn go_on
  end_turn-message_log setup r cut ids s = elim (Bool-cases (cut || r.terminated)) [
    | inl over ↦ rw over refl
    | inr goes ↦ rw goes refl
  ]

  end_turn-task_name :
      (setup : Setup Info Reward) (r : Reply Info Reward) (cut : Bool) (ids : List ℕ)
      (s : Sample Info Reward)
      → (end_turn setup r cut ids s).task_name ≡ s.task_name
  unfolding end_turn go_on observe
  end_turn-task_name setup r cut ids s = elim (Bool-cases (cut || r.terminated)) [
    | inl over ↦ rw over refl
    | inr goes ↦ rw goes refl
  ]

  flat_ids-observe :
      (ids : List ℕ) (r : Reply Info Reward) (s : Sample Info Reward)
      → length (flat_ids (observe ids r s).message_log)
        ≡ length (flat_ids s.message_log) + length ids
  unfolding observe
  flat_ids-observe ids r s = flat_ids-snoc s.message_log _

  flat_ids-respond :
      (setup : Setup Info Reward) (ids : List ℕ) (s : Sample Info Reward)
      → length (flat_ids (respond setup ids s).message_log)
        ≡ length (flat_ids s.message_log) + length ids
  unfolding respond
  flat_ids-respond setup ids s = flat_ids-snoc s.message_log _

module _ {Info Reward : Type 0} (setup : Setup Info Reward)
    (generate : List Request → Result (List Generation)) (alone : Alone setup generate) where
  kept_fits :
      (s : Sample Info Reward)
      → IsSound setup generate alone s
      → input_length setup generate alone s
          + length (response setup generate alone s)
          + length (kept setup generate alone s)
        ≤ setup.max_seq_len
  unfolding request_of
  kept_fits s sound =
      let room = alone.respects (request_of true s) sound.fits in
      elim (Bool-cases (is_cut setup generate alone s)) [
        | inl cut ↦ rw cut (
            omega (
              arith,
              room,
              length-take_le
                  (setup.max_seq_len
                    - (length (response setup generate alone s)
                        + input_length setup generate alone s))
                  (observation setup generate alone s),
            ))
        | inr whole ↦ rw whole (ground (arith, whole))
      ]

  pub advance-IsSound :
      (s : Sample Info Reward)
      → IsSound setup generate alone s
      → IsSound setup generate alone (advance setup generate alone s)
  unfolding respond
  advance-IsSound s sound =
      let r = reply_for setup generate alone s in
      let cut = is_cut setup generate alone s in
      let ids = kept setup generate alone s in
      let mid = responded setup generate alone s in
      record {
        known =
            subst (λ n. setup.task_to_env n ≡ some (alone.envs n))
              (sym (end_turn-task_name setup r cut ids mid)) sound.known;
        fits =
            subst (λ log. length (flat_ids log) ≤ setup.max_seq_len)
              (sym (end_turn-message_log setup r cut ids mid))
              (omega (
                arith,
                flat_ids-observe ids r mid,
                flat_ids-respond setup (response setup generate alone s) s,
                kept_fits s sound,
              ));
      }
