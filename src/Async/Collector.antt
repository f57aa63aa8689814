-- ===== src/Async/Collector.antt =====
-- nemo_rl/algorithms/async_utils.py: the state of `AsyncTrajectoryCollector` that decides what is
-- generated next, and the methods that change it. Locks make each method one step.
pub mod Targets
use nemo_rl_submission.Prelude.{
  ℕ, suc, ◌+◌, Bool, true, false, not, ◌&&◌, ◌||◌, Option, none, some, List, [], ◌∷◌, map, ltb,
  ◌==◌, if◌then◌else◌, any, filterb, range_from,
}

-- The three events are Booleans, true when set.
pub record Collector : Type 0 where
  pub running : Bool
  pub manual_pause_cleared : Bool
  pub refit_pause_cleared : Bool
  pub generation_limit_cleared : Bool
  pub current_weight_version : ℕ
  pub initial_weight_version : ℕ
  pub max_trajectory_age_steps : ℕ
  pub generating_targets : List ℕ

-- `__init__`.
unfoldable pub init : ℕ → ℕ → Collector
init start_step max_age = record {
  running = false;
  manual_pause_cleared = true;
  refit_pause_cleared = true;
  generation_limit_cleared = true;
  current_weight_version = start_step;
  initial_weight_version = start_step;
  max_trajectory_age_steps = max_age;
  generating_targets = [];
}

-- `_calculate_target_weights`.
unfoldable pub calculate_target_weights : Collector → ℕ → List ℕ
calculate_target_weights c generation_weight_version =
    if generation_weight_version == c.initial_weight_version
    then range_from c.initial_weight_version (c.max_trajectory_age_steps + 1)
    else map (λ i. generation_weight_version + i) (range_from 1 c.max_trajectory_age_steps)

-- `target > last`, where the last may be -1.
unfoldable pub is_after : Option ℕ → ℕ → Bool
is_after none target = true
is_after (some last) target = ltb last target

-- The test of both loops over the targets.
unfoldable pub needs_generation : Option ℕ → List ℕ → ℕ → Bool
unfolding is_after
needs_generation last generating target =
    is_after last target && not (any (λ t. t == target) generating)

-- The first target that a test accepts.
unfoldable pub find_target : (ℕ → Bool) → List ℕ → Option ℕ
find_target p [] = none
find_target p (t ∷ targets) = if p t then some t else find_target p targets

-- `self._generating_targets.add(target)` for the target that was found, if any.
unfoldable pub reserve : Option ℕ → Collector → Collector × Option ℕ
reserve none c = (c, none)
reserve (some t) c = (record c { generating_targets = t ∷ c.generating_targets }, some t)

-- `_get_next_target_for_generation`, given the buffer's last target: it reserves what it returns.
unfoldable pub get_next_target_for_generation : Option ℕ → ℕ → Collector → Collector × Option ℕ
unfolding calculate_target_weights needs_generation find_target reserve
get_next_target_for_generation last version c =
    reserve
      (find_target (needs_generation last c.generating_targets)
        (calculate_target_weights c version))
      c

-- `_should_pause_for_generation_limits`, where the buffer answers.
unfoldable pub should_pause_for_generation_limits : Option ℕ → Collector → Bool
unfolding calculate_target_weights needs_generation
should_pause_for_generation_limits last c = not (
    any (needs_generation last c.generating_targets)
      (calculate_target_weights c c.current_weight_version))

-- `self._generating_targets.discard(target)`.
unfoldable pub discard : ℕ → Collector → Collector
discard target c = record c {
  generating_targets = filterb (λ t. not (t == target)) c.generating_targets;
}

unfoldable pub set_weight_version : ℕ → Collector → Collector
set_weight_version version c = record c {
  current_weight_version = version;
  generation_limit_cleared = true;
}

unfoldable pub pause : Collector → Collector
pause c = record c { manual_pause_cleared = false }

unfoldable pub resume : Collector → Collector
resume c = record c { manual_pause_cleared = true }

-- The events of `prepare_for_refit` and `resume_after_refit`.
unfoldable pub prepare_for_refit : Collector → Collector
prepare_for_refit c = record c { refit_pause_cleared = false }

unfoldable pub resume_after_refit : Collector → Collector
resume_after_refit c = record c { refit_pause_cleared = true }
