-- ===== src/Rollouts/Sample.antt =====
-- nemo_rl/experience/rollouts.py: one sample of a rollout, and what a turn does to it.
use nemo_rl_submission.Prelude.{
  ℕ, ◌+◌, ◌-◌, Bool, false, Option, List, [], ◌∷◌, ◌++◌, map, flatten, length, take, drop,
}
use nemo_rl_submission.Prelude.Text.{Text, codes}
use nemo_rl_submission.Rollouts.Feedback.{LogMessage, Reply, Row, Env}

-- What a rollout is given: the sum of rewards, the tokenizer, the environments and the length limit.
pub record Setup (Info Reward : Type 0) : Type 0 where
  pub add : Reward → Reward → Reward
  pub no_reward : Reward
  pub decode : List ℕ → Text
  pub tokenizer : Text → List ℕ
  pub task_to_env : Text → Option (Env Info Reward)
  pub max_seq_len : ℕ

-- One prompt for the policy, and its output: the prompt with the response behind it, padded.
pub record Request : Type 0 where
  pub input_ids : List ℕ
  pub stop_strings : Option (List Text)

pub record Generation : Type 0 where
  pub output_ids : List ℕ
  pub unpadded_sequence_length : ℕ

-- A sample of the batch, with the entries that the tensors of the loop hold for it.
pub record Sample (Info Reward : Type 0) : Type 0 where
  pub message_log : List LogMessage
  pub extra_env_info : Info
  pub task_name : Text
  pub stop_strings : Option (List Text)
  pub total_reward : Reward
  pub turn_count : ℕ
  pub token_count : ℕ
  pub assistant_token_count : ℕ
  pub env_token_count : ℕ
  pub terminated : Bool
  pub truncated : Bool
  pub max_turns_reached : Bool

-- The tokens of a message log, one message after the other.
unfoldable pub flat_ids : List LogMessage → List ℕ
unfolding flatten
flat_ids log = flatten (map (λ (m : LogMessage). m.token_ids) log)

-- `full_output[input_len:total_length]`.
unfoldable pub generated_part : ℕ → Generation → List ℕ
generated_part input_len g =
    take (g.unpadded_sequence_length - input_len) (drop input_len g.output_ids)

module _ {Info Reward : Type 0} where
  -- A sample at the start of a rollout.
  unfoldable pub start_sample :
      Setup Info Reward → Row Info → Option (List Text) → Sample Info Reward
  start_sample setup row stop_strings = record {
    message_log = row.message_log;
    extra_env_info = row.extra_env_info;
    task_name = row.task_name;
    stop_strings = stop_strings;
    total_reward = setup.no_reward;
    turn_count = 0;
    token_count = 0;
    assistant_token_count = 0;
    env_token_count = 0;
    terminated = false;
    truncated = false;
    max_turns_reached = false;
  }

  abbrev pub row_of : Sample Info Reward → Row Info
  row_of s = record {
    message_log = s.message_log;
    extra_env_info = s.extra_env_info;
    task_name = s.task_name;
  }

  -- The response joins the message log, and its tokens are counted.
  unfoldable pub respond : Setup Info Reward → List ℕ → Sample Info Reward → Sample Info Reward
  respond setup ids s = record s {
    message_log =
        s.message_log
        ++ record { role = codes "assistant"; content = setup.decode ids; token_ids = ids } ∷ [];
    token_count = s.token_count + length ids;
    assistant_token_count = s.assistant_token_count + length ids;
  }

  -- The observation joins the message log with these tokens, and they are counted.
  unfoldable pub observe : List ℕ → Reply Info Reward → Sample Info Reward → Sample Info Reward
  observe ids reply s = record s {
    message_log =
        s.message_log
        ++ record {
          role = reply.observation.role;
          content = reply.observation.content;
          token_ids = ids;
        }
          ∷ [];
    token_count = s.token_count + length ids;
    env_token_count = s.env_token_count + length ids;
  }
