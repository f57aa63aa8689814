-- ===== src/Checkpoint/Manager/Retained.antt =====
-- What the removal of old checkpoints keeps.
use nemo_rl_submission.Prelude.{
  ℕ, ◌≡◌, refl, sym, ◌∙◌, Bool, true, false, Option, none, some, List, [], ◌∷◌, Bool-cases, ◌⊎◌,
  inl, inr, drop, sort,
}
use nemo_rl_submission.Checkpoint.Directory.{
  Name, step, Directory, entry, remove_tree, name_eq, name_eq→eq, entry-remove_tree,
}
use nemo_rl_submission.Checkpoint.Manager.{
  CheckpointManager, Checkpoint, load_checkpoint_history, latest_step, is_latest, remove_listed,
  stands_before, remove_old_checkpoints,
}

module _ {M : Type 0} where
  -- A directory after a removal: as it was, or gone, and then it is a checkpoint but not the latest.
  abbrev pub IsRetained : Option ℕ → Directory M → Directory M → Name → Type 0
  IsRetained latest d d' x =
      (entry x d' ≡ entry x d)
      ⊎ ((n : ℕ) × (x ≡ step n) × (is_latest latest n ≡ false) × (entry x d' ≡ none))

  remove_listed-IsRetained :
      (latest : Option ℕ) (cs : List (Checkpoint M)) (d : Directory M) (x : Name)
      → IsRetained latest d (remove_listed true latest cs d) x
  unfolding remove_listed
  remove_listed-IsRetained latest [] d x = inl refl
  remove_listed-IsRetained latest ((n, info) ∷ cs) d x = elim (Bool-cases (is_latest latest n)) [
    | inl newest ↦ rw newest (remove_listed-IsRetained latest cs d x)
    | inr other ↦ rw other (elim (remove_listed-IsRetained latest cs (remove_tree (step n) d) x) [
      | inr gone ↦ inr gone
      | inl same ↦ elim (Bool-cases (name_eq (step n) x)) [
        | inr apart ↦ inl (same ∙ rw (entry-remove_tree (step n) x d, apart) refl)
        | inl hit ↦ inr (
          n,
          sym (name_eq→eq (step n) x hit),
          other,
          same ∙ rw (entry-remove_tree (step n) x d, hit) refl,
        )
      ]
    ])
  ]

  -- Removing old checkpoints, whatever the manager's metric, its order and its limit, leaves each
  -- directory as it was, or removes it; and what it removes is a finished checkpoint, not a
  -- temporary directory, and not the latest of the history.
  pub remove_old_checkpoints-IsRetained :
      (at_most : M → M → Bool) (manager : CheckpointManager) (d : Directory M) (x : Name)
      → IsRetained
          (latest_step (load_checkpoint_history d))
          d
          (remove_old_checkpoints at_most manager true d)
          x
  unfolding remove_old_checkpoints
  remove_old_checkpoints-IsRetained at_most manager d x = limited manager.keep_top_k
    where
      limited :
          (limit : Option ℕ)
          → IsRetained
              (latest_step (load_checkpoint_history d))
              d
              (elim limit [
                | none ↦ d
                | some k ↦
                    remove_listed true
                      (latest_step (load_checkpoint_history d))
                      (drop k (sort (stands_before at_most manager) (load_checkpoint_history d)))
                      d
              ])
              x
      limited none = inl refl
      limited (some k) =
          remove_listed-IsRetained (latest_step (load_checkpoint_history d))
            (drop k (sort (stands_before at_most manager) (load_checkpoint_history d))) d x
