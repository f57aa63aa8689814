-- ===== src/Training/Sampling/Collected.antt =====
-- nemo_rl/algorithms/grpo.py: what dynamic sampling collects.
use mathlib.Core.Path.{subst}
use nemo_rl_submission.Prelude.{
  ℕ, suc, ◌+◌, ◌≤◌, ◌<◌, ◌≡◌, refl, sym, ◌∙◌, ap, Bool, true, false, Option, none, some, List, [],
  ◌∷◌, ◌++◌, append_assoc, append-nil, arith, ltb, leb, ◌==◌, length, length-append, take, filterb,
  All, Bool-cases, inl, inr, ok, raise, Result, value_error,
}
use nemo_rl_submission.Training.Sampling.{
  GrpoConfig, RepeatedBatch, train_prompts_size, filtered, join_cache, slice_first, check_size,
  dynamic_sampling, check_batch, collect,
}
use nemo_rl_submission.Training.Sampling.Cache.{
  cache_after, samples_in, HasRewards, join_samples, samples_after, join-HasRewards,
  after-HasRewards,
}

module _ {E : Type 0} (keep : E → Bool) where
  -- All samples of some batches whose deviation is not zero.
  abbrev pub valid : List (List E) → List E
  valid [] = []
  valid (b ∷ bs) = filterb keep b ++ valid bs

module _ {E R : Type 0} (keep : E → Bool) (reward : E → R) (config : GrpoConfig)
    (sampling : config.use_dynamic_sampling ≡ true)
    (some_batches : 0 < config.dynamic_sampling_max_gen_batches) where
  small :
      (cache : Option (RepeatedBatch E R)) (b : List E)
      → length (samples_in cache ++ filterb keep b) < train_prompts_size config
      → ltb
          (length (join_cache keep reward cache (filtered keep reward b)).samples)
          (train_prompts_size config)
        ≡ true
  small cache b few = ground (arith, few, ap (λ l. length l) (join_samples keep reward cache b))

  too_few :
      (num : ℕ) (b : List E) (cache : Option (RepeatedBatch E R))
      → num ≤ config.dynamic_sampling_max_gen_batches
      → length (samples_in cache ++ filterb keep b) < train_prompts_size config
      → (current : RepeatedBatch E R) × (dynamic_sampling keep reward config num b cache
          ≡ ok (record {
            batch_to_return = current;
            is_batch_complete = false;
            batch_cache = cache_after keep reward cache b;
          }))
  unfolding dynamic_sampling check_size cache_after filtered
  too_few num b cache allowed few =
      let may : leb num config.dynamic_sampling_max_gen_batches ≡ true = ground (arith, allowed) in
      let room : config.dynamic_sampling_max_gen_batches == 0 ≡ false =
        ground (arith, some_batches) in
      elim (Bool-cases (length (filterb keep b) == 0)) [
        | inl empty ↦
            let less : ltb (length (filterb keep b)) (train_prompts_size config) ≡ true =
              ground (arith, few, length-append (samples_in cache) (filterb keep b)) in
            (filtered keep reward b, rw (sampling, empty, less, room, may) refl)
        | inr full ↦ (
          join_cache keep reward cache (filtered keep reward b),
          rw (sampling, full, small cache b few, room, may) refl,
        )
      ]

  too_many_batches :
      (num : ℕ) (b : List E) (cache : Option (RepeatedBatch E R))
      → config.dynamic_sampling_max_gen_batches < num
      → length (samples_in cache ++ filterb keep b) < train_prompts_size config
      → dynamic_sampling keep reward config num b cache ≡ raise value_error
  unfolding dynamic_sampling check_size filtered
  too_many_batches num b cache beyond few =
      let over : leb num config.dynamic_sampling_max_gen_batches ≡ false = ground (arith, beyond) in
      let room : config.dynamic_sampling_max_gen_batches == 0 ≡ false =
        ground (arith, some_batches) in
      elim (Bool-cases (length (filterb keep b) == 0)) [
        | inl empty ↦
            let less : ltb (length (filterb keep b)) (train_prompts_size config) ≡ true =
              ground (arith, few, length-append (samples_in cache) (filterb keep b)) in
            rw (sampling, empty, less, room, over) refl
        | inr full ↦ rw (sampling, full, small cache b few, room, over) refl
      ]

  complete :
      (num : ℕ) (b : List E) (cache : Option (RepeatedBatch E R))
      → HasRewards cache
      → length (samples_in cache) < train_prompts_size config
      → train_prompts_size config ≤ length (samples_in cache ++ filterb keep b)
      → (first : RepeatedBatch E R) × (rest : Option (RepeatedBatch E R)) × (dynamic_sampling keep
            reward config num b cache
          ≡ ok (record { batch_to_return = first; is_batch_complete = true; batch_cache = rest }))
        × (first.samples ≡ take (train_prompts_size config) (samples_in cache ++ filterb keep b))
  unfolding dynamic_sampling check_size slice_first filtered
  complete num b cache rewards few enough =
      let current = join_cache keep reward cache (filtered keep reward b) in
      let many = length-append (samples_in cache) (filterb keep b) in
      let joined = join_samples keep reward cache b in
      let full : length (filterb keep b) == 0 ≡ false = ground (arith, few, enough, many) in
      let big : ltb (length current.samples) (train_prompts_size config) ≡ false =
        ground (arith, enough, ap (λ l. length l) joined) in
      let paid = join-HasRewards keep reward cache b rewards in
      let rewarded : ltb (length current.total_reward) (train_prompts_size config) ≡ false =
        ground (arith, enough, paid, ap (λ l. length l) joined) in
      (
        record {
          samples = take (train_prompts_size config) current.samples;
          total_reward = take (train_prompts_size config) current.total_reward;
        },
        some current,
        rw (sampling, full, big, rewarded) refl,
        ap (take (train_prompts_size config)) joined,
      )

  same_seen :
      (cache : Option (RepeatedBatch E R)) (b : List E) (bs : List (List E))
      → samples_in (cache_after keep reward cache b) ++ valid keep bs
        ≡ samples_in cache ++ valid keep (b ∷ bs)
  same_seen cache b bs =
      rw (samples_after keep reward cache b)
        (append_assoc (samples_in cache) (filterb keep b) (valid keep bs))

  fewer :
      (cache : Option (RepeatedBatch E R)) (b : List E) (bs : List (List E))
      → length (samples_in cache ++ valid keep (b ∷ bs)) < train_prompts_size config
      → length (samples_in cache ++ filterb keep b) < train_prompts_size config
  fewer cache b bs few = omega (
    arith,
    few,
    length-append (samples_in cache) (filterb keep b ++ valid keep bs),
    length-append (filterb keep b) (valid keep bs),
    length-append (samples_in cache) (filterb keep b),
  )

  module _ (is_zero : R → Bool) (is_masked : E → Bool) (disabled : Bool) where
    -- The monitor lets the batch pass.
    abbrev pub Passes : List E → Type 0
    Passes b = check_batch reward is_zero is_masked disabled config b ≡ ok tt

    abbrev run_from :
        ℕ → Option (RepeatedBatch E R) → List (List E) → Result (Option (RepeatedBatch E R))
    run_from = collect keep reward is_zero is_masked disabled config

    -- The loop behind batches that have too few samples.
    reaches :
        (num : ℕ) (cache : Option (RepeatedBatch E R)) (before later : List (List E))
        → HasRewards cache
        → All Passes before
        → num + length before ≤ config.dynamic_sampling_max_gen_batches
        → length (samples_in cache ++ valid keep before) < train_prompts_size config
        → (reached : Option (RepeatedBatch E R)) × HasRewards reached
          × (samples_in reached ≡ samples_in cache ++ valid keep before)
          × (run_from num cache (before ++ later) ≡ run_from (num + length before) reached later)
    unfolding collect
    reaches num cache [] later rewards passes allowed few = (
      cache,
      rewards,
      sym (append-nil (samples_in cache)),
      ap (λ n. run_from n cache later) (omega arith),
    )
    reaches num cache (p ∷ before) later rewards passes allowed few =
        let (current, run) =
          too_few (suc num) p cache (omega (arith, allowed)) (fewer cache p before few) in
        let seen = same_seen cache p before in
        let (reached, paid, same, runs) =
          reaches (suc num) (cache_after keep reward cache p) before later
            (after-HasRewards keep reward cache p rewards) passes.1 (omega (arith, allowed))
            (subst (λ l. length l < train_prompts_size config) (sym seen) few) in
        (
          reached,
          paid,
          same ∙ seen,
          rw (passes.0, run) (runs ∙ ap (λ n. run_from n reached later) (omega arith)),
        )

    -- With dynamic sampling and a positive limit: when some batches, as many as the limit at most, have
    -- too few samples with a deviation that is not zero, and the next batch has the rest, and the monitor
    -- lets all of them pass, the batch that is trained on consists of the first of these samples, in the
    -- order of their generation.
    pub collect-valid :
        (before : List (List E)) (b : List E) (later : List (List E))
        → All Passes before
        → Passes b
        → length before ≤ config.dynamic_sampling_max_gen_batches
        → length (valid keep before) < train_prompts_size config
        → train_prompts_size config ≤ length (valid keep before ++ filterb keep b)
        → (first : RepeatedBatch E R) × (collect keep reward is_zero is_masked disabled config 0
              none
              (before ++ b ∷ later)
            ≡ ok (some first))
          × (first.samples ≡ take (train_prompts_size config) (valid keep before ++ filterb keep b))
    unfolding collect
    collect-valid before b later passes pass allowed few enough =
        let (reached, paid, same, runs) =
          reaches 0 none before (b ∷ later) (omega arith) passes (omega (arith, allowed)) few in
        let (first, rest, run, taken) =
          complete (suc (0 + length before)) b reached paid (rw same few) (rw same enough) in
        (
          first,
          runs ∙ rw (pass, run) refl,
          taken ∙ ap (λ l. take (train_prompts_size config) (l ++ filterb keep b)) same,
        )

    -- With dynamic sampling and a positive limit: when one batch more than the limit does not have enough
    -- samples with a deviation that is not zero, and the monitor lets all of them pass, ValueError is
    -- raised.
    pub collect-raises :
        (before : List (List E)) (b : List E) (later : List (List E))
        → All Passes before
        → Passes b
        → length before ≡ config.dynamic_sampling_max_gen_batches
        → length (valid keep before ++ filterb keep b) < train_prompts_size config
        → collect keep reward is_zero is_masked disabled config 0 none (before ++ b ∷ later)
          ≡ raise value_error
    unfolding collect
    collect-raises before b later passes pass limit few =
        let before_few : length (valid keep before) < train_prompts_size config =
          omega (arith, few, length-append (valid keep before) (filterb keep b)) in
        let (reached, paid, same, runs) =
          reaches 0 none before (b ∷ later) (omega arith) passes (omega (arith, limit))
            before_few in
        runs
        ∙ rw
            (
              pass,
              too_many_batches (suc (0 + length before)) b reached (omega (arith, limit))
                  (rw same few),
            )
            refl
