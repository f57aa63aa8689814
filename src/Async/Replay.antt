-- ===== src/Async/Replay.antt =====
-- nemo_rl/algorithms/async_utils.py: `ReplayBuffer`. Weight versions are natural numbers. The lock
-- makes each method one step, so a method is a function of the state.
pub mod Indices
pub mod Intended
pub mod Sample
pub mod Queue
use nemo_rl_submission.Prelude.{
  ℕ, zero, suc, ◌+◌, ◌-◌, ◌*◌, max, Bool, true, ◌&&◌, Option, none, some, List, [], ◌∷◌, ◌++◌, ltb,
  leb, ◌==◌, if◌then◌else◌, length, get_or, take, pick, filterb, any, sum_by, sort, Result, ok,
  raise, value_error, zero_division_error,
}

pub record ReplayBuffer {ℓ} (T : Type ℓ) : Type ℓ where
  pub max_size : ℕ
  pub trajectories : List T
  pub trajectory_versions : List ℕ
  pub target_weight_versions : List ℕ
  -- `none` is the -1 that the field starts with.
  pub last_target_weight_already_generated : Option ℕ

pub data Status : Type 0 where
  success full : Status

-- What `sample` returns: the trajectories, and their average age as a fraction.
pub record Batch {ℓ} (T : Type ℓ) : Type ℓ where
  pub trajectories : List T
  pub total_age : ℕ
  pub group_count : ℕ

pub record DebugInfo : Type 0 where
  pub total_trajectories : ℕ
  pub trajectory_versions : List ℕ
  pub target_weight_versions : List ℕ
  pub max_size : ℕ

-- `max(last, target)` where the last may be -1.
unfoldable pub raise_last : Option ℕ → ℕ → Option ℕ
raise_last none target = some target
raise_last (some last) target = some (max last target)

-- `xs.pop(i)`, for its effect.
unfoldable pub remove_at {ℓ} : {A : Type ℓ} → ℕ → List A → List A
remove_at i [] = []
remove_at zero (x ∷ xs) = xs
remove_at (suc i) (x ∷ xs) = x ∷ remove_at i xs

unfoldable pub remove_all {ℓ} : {A : Type ℓ} → List ℕ → List A → List A
unfolding remove_at
remove_all [] xs = xs
remove_all (i ∷ is) xs = remove_all is (remove_at i xs)

abbrev pub descending : ℕ → ℕ → Bool
descending a b = leb b a

-- `[i for i, v in enumerate(versions) if low <= v <= high]`, from index `i` on.
unfoldable pub valid_indices : ℕ → ℕ → ℕ → List ℕ → List ℕ
valid_indices i low high [] = []
valid_indices i low high (v ∷ versions) =
    let rest = valid_indices (suc i) low high versions in
    if leb low v && leb v high then i ∷ rest else rest

module _ {ℓ} {T : Type ℓ} where
  -- `__init__`.
  unfoldable pub init : ℕ → Result (ReplayBuffer T)
  init zero = raise value_error
  init (suc n) = ok (record {
    max_size = suc n;
    trajectories = [];
    trajectory_versions = [];
    target_weight_versions = [];
    last_target_weight_already_generated = none;
  })

  unfoldable pub push_with_wait_signal : T → ℕ → ℕ → ReplayBuffer T → ReplayBuffer T × Status
  unfolding raise_last
  push_with_wait_signal trajectory weight_version target_weight_version b =
      if leb b.max_size (length b.trajectories) then (b, full) else (
        record b {
          trajectories = b.trajectories ++ trajectory ∷ [];
          trajectory_versions = b.trajectory_versions ++ weight_version ∷ [];
          target_weight_versions = b.target_weight_versions ++ target_weight_version ∷ [];
          last_target_weight_already_generated =
              raise_last b.last_target_weight_already_generated target_weight_version;
        },
        success,
      )

  -- The end of `sample`, for the selected indices: the buffer without them, and the batch.
  unfoldable pub remove_selected : List ℕ → ReplayBuffer T → ReplayBuffer T
  unfolding remove_all sort
  remove_selected selected b =
      let order = sort descending selected in
      record b {
        trajectories = remove_all order b.trajectories;
        trajectory_versions = remove_all order b.trajectory_versions;
        target_weight_versions = remove_all order b.target_weight_versions;
      }

  unfoldable pub batch_of : ℕ → List ℕ → ReplayBuffer T → Batch T
  batch_of current selected b = record {
    trajectories = pick b.trajectories selected;
    total_age = current * length selected - sum_by (λ v. v) (pick b.trajectory_versions selected);
    group_count = length selected;
  }

  -- The average over no group divides by zero.
  unfoldable pub consume : ℕ → List ℕ → ReplayBuffer T → Result (ReplayBuffer T × Option (Batch T))
  unfolding remove_selected batch_of
  consume current selected b =
      if length selected == 0
      then raise zero_division_error
      else ok (remove_selected selected b, some (batch_of current selected b))

  unfoldable pub sample : ℕ → ℕ → ℕ → ReplayBuffer T → Result (ReplayBuffer T × Option (Batch T))
  unfolding valid_indices consume
  sample num_prompt_groups current max_age_steps b =
      let min_valid_version = current - max_age_steps in
      let valid = valid_indices 0 min_valid_version current b.trajectory_versions in
      let intended = filterb (λ i. get_or b.target_weight_versions i 0 == current) valid in
      if length b.trajectories == 0
      then ok (b, none)
      else if any (λ v. ltb v min_valid_version) b.trajectory_versions
      then raise value_error
      else if length valid == 0
      then ok (b, none)
      else if ltb (length valid) num_prompt_groups
      then ok (b, none)
      else if ltb (length intended) num_prompt_groups
      then ok (b, none)
      else consume current (take num_prompt_groups intended) b

  unfoldable pub get_debug_info : ReplayBuffer T → DebugInfo
  get_debug_info b = record {
    total_trajectories = length b.trajectories;
    trajectory_versions = b.trajectory_versions;
    target_weight_versions = b.target_weight_versions;
    max_size = b.max_size;
  }

  -- `get_existing_target_weights`, as a test of membership.
  unfoldable pub get_existing_target_weights : ReplayBuffer T → ℕ → Bool
  get_existing_target_weights b t = any (λ v. v == t) b.target_weight_versions

  unfoldable pub size : ReplayBuffer T → ℕ
  size b = length b.trajectories

  -- The last target survives.
  unfoldable pub clear : ReplayBuffer T → ReplayBuffer T
  clear b = record b { trajectories = []; trajectory_versions = []; target_weight_versions = [] }
