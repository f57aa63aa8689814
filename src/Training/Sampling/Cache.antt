-- ===== src/Training/Sampling/Cache.antt =====
-- nemo_rl/algorithms/grpo.py: the cache of dynamic sampling.
use nemo_rl_submission.Prelude.{
  ◌≤◌, ◌≡◌, refl, sym, Bool, true, Option, none, some, List, [], ◌∷◌, ◌++◌, append-nil, map, arith,
  ◌==◌, if◌then◌else◌, length, length-append, length-map, filterb, Bool-cases, inl, inr,
}
use nemo_rl_submission.Training.Sampling.{RepeatedBatch, filtered, join_cache}

module _ {E R : Type 0} where
  abbrev pub samples_in : Option (RepeatedBatch E R) → List E
  samples_in none = []
  samples_in (some c) = c.samples

  abbrev pub rewards_in : Option (RepeatedBatch E R) → List R
  rewards_in none = []
  rewards_in (some c) = c.total_reward

  -- There is a reward for every sample of the cache, at least.
  abbrev pub HasRewards : Option (RepeatedBatch E R) → Type 0
  HasRewards cache = length (samples_in cache) ≤ length (rewards_in cache)

module _ {E R : Type 0} (keep : E → Bool) (reward : E → R) where
  -- The cache after some batches: those without a valid sample leave it.
  unfoldable pub cache_after : Option (RepeatedBatch E R) → List E → Option (RepeatedBatch E R)
  unfolding filtered join_cache
  cache_after cache b =
      if length (filterb keep b) == 0
      then cache
      else some (join_cache keep reward cache (filtered keep reward b))

  empty_append : (xs ys : List E) → length ys == 0 ≡ true → xs ++ ys ≡ xs
  empty_append xs [] h = append-nil xs
  empty_append xs (y ∷ ys) h = absurd (ground (arith, h))

  pub join_samples :
      (cache : Option (RepeatedBatch E R)) (b : List E)
      → (join_cache keep reward cache (filtered keep reward b)).samples
        ≡ samples_in cache ++ filterb keep b
  unfolding join_cache filtered
  join_samples none b = refl
  join_samples (some c) b = refl

  pub samples_after :
      (cache : Option (RepeatedBatch E R)) (b : List E)
      → samples_in (cache_after cache b) ≡ samples_in cache ++ filterb keep b
  unfolding cache_after
  samples_after cache b = elim (Bool-cases (length (filterb keep b) == 0)) [
    | inl empty ↦ rw empty (sym (empty_append (samples_in cache) (filterb keep b) empty))
    | inr full ↦ rw full (join_samples cache b)
  ]

  length-filterb_le : (b : List E) → length (filterb keep b) ≤ length b
  length-filterb_le [] = omega arith
  length-filterb_le (x ∷ b) = ground (arith, length-filterb_le b)

  pub join-HasRewards :
      (cache : Option (RepeatedBatch E R)) (b : List E)
      → HasRewards cache
      → HasRewards (some (join_cache keep reward cache (filtered keep reward b)))
  unfolding join_cache filtered
  join-HasRewards none b h = omega (arith, length-filterb_le b, length-map reward b)
  join-HasRewards (some c) b h = omega (
    arith,
    h,
    length-filterb_le b,
    length-map reward b,
    length-append c.samples (filterb keep b),
    length-append c.total_reward (map reward b),
  )

  pub after-HasRewards :
      (cache : Option (RepeatedBatch E R)) (b : List E)
      → HasRewards cache
      → HasRewards (cache_after cache b)
  unfolding cache_after
  after-HasRewards cache b h = elim (Bool-cases (length (filterb keep b) == 0)) [
    | inl empty ↦ rw empty h
    | inr full ↦ rw full (join-HasRewards cache b h)
  ]
