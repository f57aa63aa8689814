-- ===== src/Rollouts/Feedback.antt =====
-- nemo_rl/experience/rollouts.py: `calculate_rewards`, and `EnvironmentReturn` of
-- nemo_rl/environments/interfaces.py.
pub mod Groups
pub mod Pointwise
use nemo_rl_submission.Prelude.{
  ℕ, zero, suc, Bool, true, false, Option, none, some, List, [], ◌∷◌, ◌++◌, map, flatten,
  if◌then◌else◌, length, replicate, enumerate_from, zip, sort, by_key, Result, ok, raise, each,
  index, ◌>>=◌, value_error,
}
use nemo_rl_submission.Prelude.Text.{Text, text_eq}

-- A message as an environment sees it, also an observation.
pub record EnvMessage : Type 0 where
  pub role : Text
  pub content : Text

pub record LogMessage : Type 0 where
  pub role : Text
  pub content : Text
  pub token_ids : List ℕ

pub record EnvironmentReturn (Info Reward : Type 0) : Type 0 where
  pub observations : List EnvMessage
  pub metadata : List (Option Info)
  pub next_stop_strings : Option (List (Option (List Text)))
  pub rewards : List Reward
  pub terminateds : List Bool
  pub answers : Option (List (Option Text))

-- What an environment returns for one sample.
pub record Reply (Info Reward : Type 0) : Type 0 where
  pub observation : EnvMessage
  pub metadata : Option Info
  pub next_stop_strings : Option (List Text)
  pub reward : Reward
  pub terminated : Bool
  pub answer : Option Text

-- A sample as `calculate_rewards` reads it.
pub record Row (Info : Type 0) : Type 0 where
  pub message_log : List LogMessage
  pub extra_env_info : Info
  pub task_name : Text

-- `step` of an environment, and `task_to_env`.
abbrev pub Env : Type 0 → Type 0 → Type 0
Env Info Reward = List (List EnvMessage) → List Info → Result (EnvironmentReturn Info Reward)

-- `get_keys_from_message_log(log, ["role", "content"])`.
unfoldable pub get_keys_from_message_log : List LogMessage → List EnvMessage
get_keys_from_message_log log =
    map (λ (m : LogMessage). record { role = m.role; content = m.content }) log

module _ {A : Type 0} where
  -- `task_groups[task_name].append(...)`, on a dictionary in the order of its insertions.
  unfoldable pub add_to_group : Text → A → List (Text × List A) → List (Text × List A)
  unfolding text_eq
  add_to_group name x [] = (name, x ∷ []) ∷ []
  add_to_group name x ((key, group) ∷ groups) =
      let rest = add_to_group name x groups in
      if text_eq key name then (key, group ++ x ∷ []) ∷ groups else (key, group) ∷ rest

  -- `[None] * len(task_rewards)` in place of a missing column.
  unfoldable pub or_nones : ℕ → Option (List (Option A)) → List (Option A)
  or_nones n none = replicate n none
  or_nones n (some column) = column

module _ {Info : Type 0} where
  unfoldable pub task_groups :
      List (Row Info × ℕ) → List (Text × List (Row Info × ℕ)) → List (Text × List (Row Info × ℕ))
  unfolding add_to_group
  task_groups [] groups = groups
  task_groups ((row, i) ∷ rows) groups =
      task_groups rows (add_to_group row.task_name (row, i) groups)

module _ {Info Reward : Type 0} where
  -- The columns of a result at a place of its group.
  unfoldable pub reply_at : EnvironmentReturn Info Reward → ℕ → Result (Reply Info Reward)
  unfolding or_nones
  reply_at result i = do
    reward ← index result.rewards i
    observation ← index result.observations i
    terminated ← index result.terminateds i
    stops ← index (or_nones (length result.rewards) result.next_stop_strings) i
    metadata ← index result.metadata i
    answer ← index (or_nones (length result.rewards) result.answers) i
    ok (record {
      observation = observation;
      metadata = metadata;
      next_stop_strings = stops;
      reward = reward;
      terminated = terminated;
      answer = answer;
    })

  -- The reply at a place of a group, with the index of its sample.
  unfoldable pub indexed_reply :
      EnvironmentReturn Info Reward → (Row Info × ℕ) × ℕ → Result (Reply Info Reward × ℕ)
  unfolding reply_at
  indexed_reply result ((row, i), place) = do reply ← reply_at result place; ok (reply, i)

  unfoldable pub group_replies :
      EnvironmentReturn Info Reward → List (Row Info × ℕ) → Result (List (Reply Info Reward × ℕ))
  unfolding indexed_reply
  group_replies result group = each (indexed_reply result) (enumerate_from 0 group)

  -- The environment of a group is called with the messages and the infos of its samples.
  unfoldable pub call_env :
      Env Info Reward × List (Row Info × ℕ) → Result (EnvironmentReturn Info Reward)
  unfolding get_keys_from_message_log
  call_env (step, group) =
      step (map (λ (e : Row Info × ℕ). get_keys_from_message_log e.0.message_log) group)
        (map (λ (e : Row Info × ℕ). e.0.extra_env_info) group)

  -- The environment of a task, with the task's group.
  unfoldable pub find_env :
      (Text → Option (Env Info Reward))
      → Text × List (Row Info × ℕ)
      → Result (Env Info Reward × List (Row Info × ℕ))
  find_env task_to_env (name, group) = elim (task_to_env name) [
    | none ↦ raise value_error
    | some step ↦ ok (step, group)
  ]

  unfoldable pub calculate_rewards :
      (Text → Option (Env Info Reward)) → List (Row Info) → Result (List (Reply Info Reward))
  unfolding task_groups find_env call_env group_replies sort flatten
  calculate_rewards task_to_env rows = do
    futures ← each (find_env task_to_env) (task_groups (enumerate_from 0 rows) [])
    results ← each call_env futures
    replies ←
        each
          (λ (e : EnvironmentReturn Info Reward × (Env Info Reward × List (Row Info × ℕ))).
            group_replies e.0 e.1.1)
          (zip results futures)
    ok (
        map (λ (e : Reply Info Reward × ℕ). e.0)
          (sort (by_key (λ (e : Reply Info Reward × ℕ). e.1)) (flatten replies)))
