-- ===== src/Checkpoint/Tests.antt =====
-- Runs of the checkpoint manager, and its theorems at concrete inputs.
use nemo_rl_submission.Prelude.{
  ℕ, ◌≡◌, refl, true, Option, none, some, [], ◌∷◌, leb, ok, raise, os_error,
}
use nemo_rl_submission.Prelude.Text.{Text, codes}
use nemo_rl_submission.Checkpoint.Directory.{Name, step, tmp_step, Directory, entry, exists}
use nemo_rl_submission.Checkpoint.Manager.{
  CheckpointManager, finalize_checkpoint, load_checkpoint_history, latest_step, move_into_place,
  remove_old_checkpoints, get_latest_checkpoint_path, init_tmp_checkpoint, get_best_checkpoint_path,
  load_training_info,
}
use nemo_rl_submission.Checkpoint.Manager.Finalized.{finalized, move_into_place_outcome}
use nemo_rl_submission.Checkpoint.Manager.Retained.{IsRetained, remove_old_checkpoints-IsRetained}

abbrev info : ℕ → Text → Option ℕ
info metric name = some metric

-- Step 9 is being saved again.
abbrev saved : Directory ℕ
saved =
    (step 3, some (info 8))
    ∷ (tmp_step 9, some (info 5))
    ∷ (step 6, some (info 4))
    ∷ (step 9, none)
    ∷ []

abbrev manager : CheckpointManager
manager = record {
  metric_name = some (codes "val:accuracy");
  higher_is_better = true;
  keep_top_k = some 1;
}

finalize_example :
    finalize_checkpoint leb manager 9 saved
    ≡ ok ((step 3, some (info 8)) ∷ (step 9, some (info 5)) ∷ [])
unfolding finalize_checkpoint
finalize_example = refl

latest_example : get_latest_checkpoint_path saved ≡ some 9
unfolding get_latest_checkpoint_path
latest_example = refl

best_example : get_best_checkpoint_path leb manager saved ≡ ok (some 3)
unfolding get_best_checkpoint_path
best_example = refl

missing_info_example : load_training_info (some 9) saved ≡ raise os_error
unfolding load_training_info
missing_info_example = refl

init_example : exists (tmp_step 4) (init_tmp_checkpoint 4 (info 1) saved) ≡ true
unfolding init_tmp_checkpoint exists
init_example = refl

move_into_place_outcome_example :
    (d' : Directory ℕ) × (move_into_place 9 saved ≡ ok d')
    × ((x : Name) → entry x d' ≡ finalized 9 (some (info 5)) saved x)
unfolding entry
move_into_place_outcome_example = move_into_place_outcome 9 saved (some (info 5)) refl refl

remove_old_checkpoints-IsRetained_example :
    IsRetained
      (latest_step (load_checkpoint_history saved))
      saved
      (remove_old_checkpoints leb manager true saved)
      (step 6)
remove_old_checkpoints-IsRetained_example =
    remove_old_checkpoints-IsRetained leb manager saved (step 6)
