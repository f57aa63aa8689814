-- ===== src/Training/Tests.antt =====
-- Runs of dynamic sampling, and its theorems at concrete inputs.
use nemo_rl_submission.Prelude.{
  ℕ, ◌==◌, leb, false, flatten, Option, Result, Check, ◌≡◌, refl, Bool, true, none, some, List, [],
  ◌∷◌, ◌++◌, arith, ltb, take, ok, raise, value_error, assertion_error,
}
use nemo_rl_submission.Training.Sampling.{
  GrpoConfig, RepeatedBatch, dynamic_sampling, check_batch, collect,
}
use nemo_rl_submission.Training.Sampling.Collected.{collect-valid, collect-raises}

abbrev config : GrpoConfig
config = record {
  num_prompts_per_step = 2;
  num_generations_per_prompt = 2;
  dynamic_sampling_max_gen_batches = 2;
  use_dynamic_sampling = true;
}

-- The samples from five on deviate, and their rewards are their numbers.
abbrev deviates : ℕ → Bool
deviates n = ltb 4 n

abbrev is_zero : ℕ → Bool
is_zero n = n == 0

abbrev is_masked : ℕ → Bool
is_masked n = leb 9 n

abbrev collected : List (List ℕ) → Result (Option (RepeatedBatch ℕ ℕ))
collected = collect deviates (λ n. n) is_zero is_masked false config 0 none

abbrev passes : List ℕ → Check
passes = check_batch (λ n. n) is_zero is_masked false config

abbrev first_batches : List (List ℕ)
first_batches = (0 ∷ 5 ∷ 6 ∷ 0 ∷ []) ∷ (1 ∷ 1 ∷ []) ∷ []

abbrev last_batch : List ℕ
last_batch = 7 ∷ 0 ∷ 8 ∷ 9 ∷ []

-- The third batch is used, though the limit is two.
collect_run :
    collected (first_batches ++ last_batch ∷ [])
    ≡ ok (some (record { samples = 5 ∷ 6 ∷ 7 ∷ 8 ∷ []; total_reward = 0 ∷ 5 ∷ 6 ∷ 0 ∷ [] }))
unfolding collect flatten
collect_run = refl

-- All rewards of the second batch are zero, or half of its samples are masked.
collapsed_run : collected ((0 ∷ 5 ∷ 6 ∷ 0 ∷ []) ∷ (0 ∷ 0 ∷ []) ∷ []) ≡ raise assertion_error
unfolding collect flatten
collapsed_run = refl

masked_run : collected ((0 ∷ 5 ∷ 6 ∷ 0 ∷ []) ∷ (9 ∷ 1 ∷ []) ∷ []) ≡ raise assertion_error
unfolding collect flatten
masked_run = refl

no_limit_run :
    dynamic_sampling deviates
      (λ n. n)
      (record config { dynamic_sampling_max_gen_batches = 0 })
      1
      (0 ∷ [])
      none
    ≡ raise assertion_error
unfolding dynamic_sampling
no_limit_run = refl

first_pass : passes (0 ∷ 5 ∷ 6 ∷ 0 ∷ []) ≡ ok tt
unfolding check_batch flatten
first_pass = refl

second_passes : passes (1 ∷ 1 ∷ []) ≡ ok tt
unfolding check_batch flatten
second_passes = refl

last_passes : passes last_batch ≡ ok tt
unfolding check_batch flatten
last_passes = refl

short_passes : passes (0 ∷ 3 ∷ []) ≡ ok tt
unfolding check_batch flatten
short_passes = refl

collect-valid_example :
    (first : RepeatedBatch ℕ ℕ) × (collect deviates
        (λ n. n)
        is_zero
        is_masked
        false
        config
        0
        none
        (first_batches ++ last_batch ∷ [])
      ≡ ok (some first))
    × (first.samples ≡ take 4 (5 ∷ 6 ∷ 7 ∷ 8 ∷ 9 ∷ []))
collect-valid_example =
    collect-valid deviates (λ n. n) config refl (omega arith) is_zero is_masked false first_batches
      last_batch [] (first_pass, (second_passes, tt)) last_passes (omega arith) (omega arith)
      (omega arith)

collect-raises_example :
    collect deviates
      (λ n. n)
      is_zero
      is_masked
      false
      config
      0
      none
      (first_batches ++ (0 ∷ 3 ∷ []) ∷ [])
    ≡ raise value_error
collect-raises_example =
    collect-raises deviates (λ n. n) config refl (omega arith) is_zero is_masked false first_batches
      (0 ∷ 3 ∷ []) [] (first_pass, (second_passes, tt)) short_passes refl (omega arith)
