-- ===== src/Checkpoint/Manager.antt =====
-- nemo_rl/utils/checkpoint.py: `CheckpointManager` and `_load_checkpoint_history`. Paths are names in
-- the checkpoint directory, and what the algorithm itself saves there is not modelled. The order of
-- the metrics is an argument: whether one is at most the other, as floats compare.
pub mod Finalized
pub mod Retained
use nemo_rl_submission.Prelude.{
  ℕ, ◌≡◌, Bool, true, false, not, ◌&&◌, ◌||◌, Option, none, some, List, [], ◌∷◌, map, ltb, leb, max,
  ◌==◌, if◌then◌else◌, drop, length, sort, Result, ok, raise, key_error, os_error, ◌>>=◌,
}
use nemo_rl_submission.Prelude.Text.{Text}
use nemo_rl_submission.Checkpoint.Directory.{
  Name, step, tmp_step, old_step, Info, Directory, entry, exists, rename, remove_tree, name_eq,
}

pub record CheckpointManager : Type 0 where
  pub metric_name : Option Text
  pub higher_is_better : Bool
  pub keep_top_k : Option ℕ

-- A tuple of the history without its path, which is the step's.
abbrev pub Checkpoint : Type 0 → Type 0
Checkpoint M = ℕ × (Text → Option M)

-- `checkpoint[0] == latest_step`.
unfoldable pub is_latest : Option ℕ → ℕ → Bool
is_latest none n = false
is_latest (some m) n = n == m

module _ {M : Type 0} where
  -- `init_tmp_checkpoint`: the directory is made or reused, and its info is written.
  unfoldable pub init_tmp_checkpoint : ℕ → (Text → Option M) → Directory M → Directory M
  unfolding remove_tree
  init_tmp_checkpoint n training_info d =
      (tmp_step n, some training_info) ∷ remove_tree (tmp_step n) d

  -- `_load_checkpoint_history`.
  unfoldable pub load_checkpoint_history : Directory M → List (Checkpoint M)
  load_checkpoint_history [] = []
  load_checkpoint_history ((step n, some info) ∷ d) = (n, info) ∷ load_checkpoint_history d
  load_checkpoint_history (_ ∷ d) = load_checkpoint_history d

  -- The renames of `finalize_checkpoint`.
  unfoldable pub move_into_place : ℕ → Directory M → Result (Directory M)
  unfolding exists rename remove_tree
  move_into_place n d =
      if exists (step n) d
      then (do
        d1 ← rename (step n) (old_step n) d
        d2 ← rename (tmp_step n) (step n) d1
        ok (if exists (old_step n) d2 then remove_tree (old_step n) d2 else d2))
      else rename (tmp_step n) (step n) d

  -- `max` of the steps of the history.
  unfoldable pub latest_step : List (Checkpoint M) → Option ℕ
  latest_step [] = none
  latest_step ((n, info) ∷ history) = elim (latest_step history) [
    | none ↦ some n
    | some m ↦ some (max n m)
  ]

  -- Removes what is listed, but for the latest where that is excluded.
  unfoldable pub remove_listed : Bool → Option ℕ → List (Checkpoint M) → Directory M → Directory M
  unfolding is_latest remove_tree
  remove_listed exclude_latest latest [] d = d
  remove_listed exclude_latest latest ((n, info) ∷ cs) d =
      remove_listed exclude_latest latest cs
        (if exclude_latest && is_latest latest n then d else remove_tree (step n) d)

  module _ (at_most : M → M → Bool) where
    -- Whether a metric is no worse than another, where a missing one is the infinity that is worst.
    unfoldable pub no_worse : Bool → Option M → Option M → Bool
    no_worse higher x none = true
    no_worse higher none (some n) = false
    no_worse true (some m) (some n) = at_most n m
    no_worse false (some m) (some n) = at_most m n

    -- The orders of the three sorts: better metrics first, and the more recent of equals.
    unfoldable pub stands_before : CheckpointManager → Checkpoint M → Checkpoint M → Bool
    unfolding no_worse
    stands_before manager (m, a) (n, b) = elim manager.metric_name [
      | none ↦ leb n m
      | some name ↦
          let better = no_worse manager.higher_is_better (a name) (b name) in
          let worse = no_worse manager.higher_is_better (b name) (a name) in
          better && (not worse || leb n m)
    ]

    unfoldable pub remove_old_checkpoints : CheckpointManager → Bool → Directory M → Directory M
    unfolding load_checkpoint_history latest_step remove_listed stands_before sort
    remove_old_checkpoints manager exclude_latest d = elim manager.keep_top_k [
      | none ↦ d
      | some k ↦
          let history = load_checkpoint_history d in
          remove_listed exclude_latest (latest_step history)
            (drop k (sort (stands_before manager) history)) d
    ]

    unfoldable pub finalize_checkpoint : CheckpointManager → ℕ → Directory M → Result (Directory M)
    unfolding move_into_place remove_old_checkpoints
    finalize_checkpoint manager n d = do
      d' ← move_into_place n d
      ok (remove_old_checkpoints manager true d')

  -- `get_latest_checkpoint_path`, also of a directory without an info.
  unfoldable pub get_latest_checkpoint_path : Directory M → Option ℕ
  get_latest_checkpoint_path [] = none
  get_latest_checkpoint_path ((step n, info) ∷ d) = elim (get_latest_checkpoint_path d) [
    | none ↦ some n
    | some m ↦ some (max n m)
  ]
  get_latest_checkpoint_path (_ ∷ d) = get_latest_checkpoint_path d

  -- Whether every checkpoint has the metric.
  unfoldable pub all_have : Text → List (Checkpoint M) → Bool
  all_have name [] = true
  all_have name ((n, info) ∷ history) =
      let rest = all_have name history in elim (info name) [ none ↦ false | some m ↦ rest ]

  -- The step of the first checkpoint.
  unfoldable pub first_step : List (Checkpoint M) → Option ℕ
  first_step [] = none
  first_step ((n, info) ∷ history) = some n

  -- `get_best_checkpoint_path`. The first checkpoint tells whether there is a metric to compare; a
  -- later one without it is a KeyError.
  unfoldable pub get_best_checkpoint_path :
      (M → M → Bool) → CheckpointManager → Directory M → Result (Option ℕ)
  unfolding load_checkpoint_history get_latest_checkpoint_path all_have first_step no_worse sort
  get_best_checkpoint_path at_most manager d = elim (load_checkpoint_history d) [
    | [] ↦ ok none
    | ((n, info) ∷ history) ↦ elim manager.metric_name [
      | none ↦ ok (get_latest_checkpoint_path d)
      | some name ↦ elim (info name) [
        | none ↦ ok (get_latest_checkpoint_path d)
        | some m ↦
            if all_have name history
            then ok (
                first_step (
                  sort (λ a b. no_worse at_most manager.higher_is_better (a.1 name) (b.1 name))
                    ((n, info) ∷ history)))
            else raise key_error
      ]
    ]
  ]

  -- `load_training_info`, for a checkpoint's step. A file that is missing is an OSError.
  unfoldable pub load_training_info : Option ℕ → Directory M → Result (Option (Text → Option M))
  unfolding entry
  load_training_info none d = ok none
  load_training_info (some n) d = elim (entry (step n) d) [
    | none ↦ raise os_error
    | some none ↦ raise os_error
    | some (some info) ↦ ok (some info)
  ]
