-- ===== src/Training/Sampling.antt =====
-- nemo_rl/algorithms/grpo.py: `dynamic_sampling`, and the loop over generated batches around it.
pub mod Cache
pub mod Collected
use nemo_rl_submission.Prelude.{
  ℕ, zero, suc, ◌+◌, ◌*◌, Bool, true, false, Option, none, some, List, [], ◌∷◌, ◌++◌, map, ltb, leb,
  ◌/◌, ◌||◌, not, any, flatten, drop, Check, ◌==◌, if◌then◌else◌, length, take, filterb, Result, ok,
  raise, raise_if, ◌>>=◌, ◌>>◌, assertion_error, value_error,
}

-- The entries of the configuration that dynamic sampling reads.
pub record GrpoConfig : Type 0 where
  pub num_prompts_per_step : ℕ
  pub num_generations_per_prompt : ℕ
  pub dynamic_sampling_max_gen_batches : ℕ
  pub use_dynamic_sampling : Bool

-- A batch: its samples, and the column `total_reward`, which is longer once samples are filtered.
pub record RepeatedBatch (E R : Type 0) : Type 0 where
  pub samples : List E
  pub total_reward : List R

-- `(batch_to_return, is_batch_complete, batch_cache)`.
pub record Sampled (E R : Type 0) : Type 0 where
  pub batch_to_return : RepeatedBatch E R
  pub is_batch_complete : Bool
  pub batch_cache : Option (RepeatedBatch E R)

abbrev pub train_prompts_size : GrpoConfig → ℕ
train_prompts_size config = config.num_prompts_per_step * config.num_generations_per_prompt

module _ {E R : Type 0} (has_non_zero_std : E → Bool) (reward : E → R) where
  -- The samples whose deviation is not zero, beside all rewards.
  unfoldable pub filtered : List E → RepeatedBatch E R
  filtered batch = record {
    samples = filterb has_non_zero_std batch;
    total_reward = map reward batch;
  }

  -- `from_batches([batch_cache, filtered_repeated_batch])`, or the latter alone.
  unfoldable pub join_cache : Option (RepeatedBatch E R) → RepeatedBatch E R → RepeatedBatch E R
  join_cache none b = b
  join_cache (some c) b = record {
    samples = c.samples ++ b.samples;
    total_reward = c.total_reward ++ b.total_reward;
  }

  -- `slice(0, n)`, which a tensor refuses when it is shorter.
  unfoldable pub slice_first : ℕ → RepeatedBatch E R → Result (RepeatedBatch E R)
  slice_first n b =
      raise_if (ltb (length b.total_reward) n) assertion_error
      >> ok (record { samples = take n b.samples; total_reward = take n b.total_reward })

  -- The end of the function: whether there are enough samples.
  unfoldable pub check_size :
      GrpoConfig → ℕ → RepeatedBatch E R → Option (RepeatedBatch E R) → Result (Sampled E R)
  unfolding slice_first
  check_size config num_gen_batches b cache =
      if ltb (length b.samples) (train_prompts_size config)
      then raise_if (config.dynamic_sampling_max_gen_batches == 0) assertion_error
        >> (if leb num_gen_batches config.dynamic_sampling_max_gen_batches
            then ok (record { batch_to_return = b; is_batch_complete = false; batch_cache = cache })
            else raise value_error)
      else slice_first (train_prompts_size config) b >>= λ (first : RepeatedBatch E R).
          ok (record { batch_to_return = first; is_batch_complete = true; batch_cache = cache })

  unfoldable pub dynamic_sampling :
      GrpoConfig → ℕ → List E → Option (RepeatedBatch E R) → Result (Sampled E R)
  unfolding filtered join_cache check_size
  dynamic_sampling config num_gen_batches batch cache =
      if config.use_dynamic_sampling
      then (if length (filtered batch).samples == 0
          then check_size config num_gen_batches (filtered batch) cache
          else check_size config num_gen_batches (join_cache cache (filtered batch))
              (some (join_cache cache (filtered batch))))
      else ok (record {
        batch_to_return = record { samples = batch; total_reward = map reward batch };
        is_batch_complete = true;
        batch_cache = cache;
      })

-- The first `groups` groups of `size` values each.
abbrev pub reward_groups : {R : Type 0} → ℕ → ℕ → List R → List (List R)
reward_groups zero size rewards = []
reward_groups (suc groups) size rewards =
    take size rewards ∷ reward_groups groups size (drop size rewards)

-- `_rw.shape[0] // _ng`, for a positive number of generations.
abbrev pub whole_groups : ℕ → ℕ → ℕ
whole_groups count zero = 1
whole_groups count (suc n) = count / suc n

module _ {E : Type 0} (is_masked : E → Bool) where
  -- Whether half of the samples, or more, are masked; so they are in an empty batch.
  abbrev pub mostly_masked : List E → Bool
  mostly_masked batch = leb (length batch) (2 * length (filterb is_masked batch))

module _ {E R : Type 0} (reward : E → R) (is_zero : R → Bool) where
  -- `_groups`, of which there is one, of all rewards, when there are not enough rewards for a group.
  abbrev pub monitored_groups : ℕ → List E → List (List R)
  monitored_groups size batch = elim (whole_groups (length batch) size) [
    | zero ↦ map reward batch ∷ []
    | suc n ↦ reward_groups (suc n) size (map reward batch)
  ]

  -- `_pct_allzero_groups < 0.95` does not hold. Without a value in the groups the share is 1.
  abbrev pub is_collapsed : ℕ → List E → Bool
  is_collapsed size batch =
      let groups = monitored_groups size batch in
      length (flatten groups) == 0
      || leb (95 * length groups)
          (100 * length (filterb (λ g. not (any (λ r. not (is_zero r)) g)) groups))

module _ {E R : Type 0} (reward : E → R) (is_zero : R → Bool) (is_masked : E → Bool) where
  -- The monitor of a batch, unless the environment disables it.
  unfoldable pub check_batch : Bool → GrpoConfig → List E → Check
  check_batch disabled config batch =
      if disabled
      then ok tt
      else raise_if (mostly_masked is_masked batch) assertion_error
        >> raise_if (is_collapsed reward is_zero config.num_generations_per_prompt batch)
            assertion_error

module _ {E R : Type 0} (has_non_zero_std : E → Bool) (reward : E → R) (is_zero : R → Bool)
    (is_masked : E → Bool) (disabled : Bool) where
  -- The training loop up to its next step: the batches that were generated, each checked by the monitor,
  -- until one is complete.
  unfoldable pub collect :
      GrpoConfig
      → ℕ
      → Option (RepeatedBatch E R)
      → List (List E)
      → Result (Option (RepeatedBatch E R))
  unfolding check_batch dynamic_sampling
  collect config num_gen_batches cache [] = ok none
  collect config num_gen_batches cache (batch ∷ batches) =
      check_batch reward is_zero is_masked disabled config batch
      >> (dynamic_sampling has_non_zero_std reward config (suc num_gen_batches) batch cache
          >>= λ (s : Sampled E R).
              if s.is_batch_complete
              then ok (some s.batch_to_return)
              else collect config (suc num_gen_batches) s.batch_cache batches)
