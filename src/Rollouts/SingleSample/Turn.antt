-- ===== src/Rollouts/SingleSample/Turn.antt =====
-- One turn of a sample, in the two loops.
use mathlib.Core.Path.{subst}
use nemo_rl_submission.Prelude.{
  ℕ, ◌+◌, ◌-◌, ◌≡◌, refl, sym, ◌∙◌, ap, Bool, true, false, not, ◌||◌, ◌&&◌, some, List, arith, leb,
  if◌then◌else◌, length, take, ◌⊎◌, Bool-cases, inl, inr,
}
use nemo_rl_submission.Prelude.Text.{Text}
use nemo_rl_submission.Rollouts.Feedback.{Reply}
use nemo_rl_submission.Rollouts.Sample.{Setup, Sample, observe}
use nemo_rl_submission.Rollouts.MultiTurn.{end_turn, go_on}
use nemo_rl_submission.Rollouts.SingleSample.{keep_going, close_turn, sample_feedback}

module _ {Info Reward : Type 0} where
  -- How the batch records the end: a cut sample counts as terminated.
  abbrev pub ended : Sample Info Reward → Sample Info Reward
  ended s = record s { terminated = s.terminated || s.truncated }

  abbrev pub counted : Sample Info Reward → Sample Info Reward
  counted s = record s { turn_count = s.turn_count + 1 }

  abbrev going : Sample Info Reward → Sample Info Reward
  going s = record s { terminated = false; truncated = false }

  abbrev naming : Bool → List Text → Reply Info Reward → Reply Info Reward
  naming t stops r = record r { terminated = t; next_stop_strings = some stops }

  close_turn-agrees :
      (setup : Setup Info Reward) (t cut : Bool) (ids : List ℕ) (stops : List Text)
      (r : Reply Info Reward) (s : Sample Info Reward)
      → ended (close_turn setup (naming t stops r) cut ids (counted (going s)))
        ≡ end_turn setup (naming t stops r) cut ids (going s)
  unfolding close_turn end_turn observe go_on keep_going
  close_turn-agrees setup true true ids stops r s = refl
  close_turn-agrees setup true false ids stops r s = refl
  close_turn-agrees setup false true ids stops r s = refl
  close_turn-agrees setup false false ids stops r s = refl

  close_turn_over :
      (setup : Setup Info Reward) (cut : Bool) (ids : List ℕ) (r : Reply Info Reward)
      (s : Sample Info Reward)
      → ended (close_turn setup (record r { terminated = true }) cut ids (counted (going s)))
        ≡ end_turn setup (record r { terminated = true }) cut ids (going s)
  unfolding close_turn end_turn observe
  close_turn_over setup true ids r s = refl
  close_turn_over setup false ids r s = refl

  -- A reply that ends the episode, or names the stop strings for the next turn.
  abbrev pub EndsOrNames : Reply Info Reward → Type 0
  EndsOrNames r = (r.terminated ≡ true) ⊎ ((stops : List Text) × (r.next_stop_strings ≡ some stops))

  closes :
      (setup : Setup Info Reward) (cut : Bool) (ids : List ℕ) (r : Reply Info Reward)
      (s : Sample Info Reward)
      → EndsOrNames r
      → s.terminated ≡ false
      → s.truncated ≡ false
      → ended (close_turn setup r cut ids (counted s)) ≡ end_turn setup r cut ids s
  closes setup cut ids r s known live whole =
      let same : going s ≡ s =
        ap (λ b. record s { terminated = b; truncated = false }) (sym live)
        ∙ ap (λ b. record s { truncated = b }) (sym whole) in
      subst (λ s. ended (close_turn setup r cut ids (counted s)) ≡ end_turn setup r cut ids s) same
        (elim known [
          | inl over ↦
              subst
                (λ r.
                  ended (close_turn setup r cut ids (counted (going s)))
                  ≡ end_turn setup r cut ids (going s))
                (ap (λ b. record r { terminated = b }) (sym over))
                (close_turn_over setup cut ids r s)
          | inr (stops, named) ↦
              subst
                (λ r.
                  ended (close_turn setup r cut ids (counted (going s)))
                  ≡ end_turn setup r cut ids (going s))
                (ap (λ o. record r { next_stop_strings = o }) (sym named))
                (close_turn-agrees setup r.terminated cut ids stops r s)
        ])

  -- On the feedback of an environment that ends the episode or names the stop strings both loops agree.
  pub feedback-agrees :
      (setup : Setup Info Reward) (n g : ℕ) (r : Reply Info Reward) (s : Sample Info Reward)
      → EndsOrNames r
      → s.terminated ≡ false
      → s.truncated ≡ false
      → ended (sample_feedback setup n g r (counted s))
        ≡ end_turn setup r
            (leb setup.max_seq_len (length (setup.tokenizer r.observation.content) + (g + n)))
            (if leb setup.max_seq_len (length (setup.tokenizer r.observation.content) + (g + n))
              then take (setup.max_seq_len - (g + n)) (setup.tokenizer r.observation.content)
              else setup.tokenizer r.observation.content)
            s
  unfolding sample_feedback
  feedback-agrees setup n g r s known live whole =
      let obs = setup.tokenizer r.observation.content in
      let close = λ (total left : ℕ).
        let cut = leb setup.max_seq_len total in
        ended (close_turn setup r cut (if cut then take left obs else obs) (counted s)) in
      ap (λ total. close total (setup.max_seq_len - n - g)) (omega arith)
      ∙ ap (λ left. close (length obs + (g + n)) left) (omega arith)
      ∙ closes setup (leb setup.max_seq_len (length obs + (g + n)))
          (if leb setup.max_seq_len (length obs + (g + n))
            then take (setup.max_seq_len - (g + n)) obs
            else obs)
          r s known live whole

  close_turn-turn_count :
      (setup : Setup Info Reward) (r : Reply Info Reward) (cut : Bool) (ids : List ℕ)
      (s : Sample Info Reward)
      → (close_turn setup r cut ids s).turn_count ≡ s.turn_count
  unfolding close_turn observe keep_going
  close_turn-turn_count setup r cut ids s =
      elim (Bool-cases (not r.terminated && not (s.truncated || cut))) [
        | inl on ↦ rw on refl
        | inr off ↦ rw off refl
      ]

  pub sample_feedback-turn_count :
      (setup : Setup Info Reward) (n g : ℕ) (r : Reply Info Reward) (s : Sample Info Reward)
      → (sample_feedback setup n g r s).turn_count ≡ s.turn_count
  unfolding sample_feedback
  sample_feedback-turn_count setup n g r s =
      let ids = setup.tokenizer r.observation.content in
      let cut = leb setup.max_seq_len (n + g + length ids) in
      close_turn-turn_count setup r cut (if cut then take (setup.max_seq_len - n - g) ids else ids)
        s

  pub end_turn-max_turns_reached :
      (setup : Setup Info Reward) (r : Reply Info Reward) (cut : Bool) (ids : List ℕ)
      (s : Sample Info Reward)
      → (end_turn setup r cut ids s).max_turns_reached ≡ s.max_turns_reached
  unfolding end_turn observe go_on
  end_turn-max_turns_reached setup r cut ids s = elim (Bool-cases (cut || r.terminated)) [
    | inl over ↦ rw over refl
    | inr goes ↦ rw goes refl
  ]
