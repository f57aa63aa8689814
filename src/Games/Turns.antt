-- ===== src/Games/Turns.antt =====
-- nemo_rl/environments/games/sliding_puzzle.py: `SlidingPuzzleRunner`. A game board that a message
-- shows is named by its state, not rendered.
pub mod Outcomes
use nemo_rl_submission.Prelude.{
  ℕ, zero, suc, ◌+◌, ◌-◌, Bool, true, false, Option, none, some, List, [], ◌∷◌, ◌++◌, leb, length,
  map, take, drop, if◌then◌else◌,
}
use nemo_rl_submission.Prelude.Text.{Text, codes, text_eq, lower}
use nemo_rl_submission.Games.Puzzle.{GameState, Response, Outcome}
use nemo_rl_submission.Games.Commands.{starts_with, is_space, step}

-- The index of the first occurrence of a word, for a word that is not empty.
unfoldable pub find : Text → Text → Option ℕ
unfolding starts_with
find word [] = none
find word (c ∷ text) = elim (starts_with word (c ∷ text)) [
  | true ↦ some 0
  | false ↦ elim (find word text) [ none ↦ none | some i ↦ some (suc i) ]
]

-- The index of the last one.
unfoldable pub rfind : Text → Text → Option ℕ
unfolding starts_with
rfind word [] = none
rfind word (c ∷ text) = elim (rfind word text) [
  | some i ↦ some (suc i)
  | none ↦ if starts_with word (c ∷ text) then some 0 else none
]

unfoldable pub lstrip : Text → Text
unfolding is_space
lstrip [] = []
lstrip (c ∷ text) = elim (is_space c) [ true ↦ lstrip text | false ↦ c ∷ text ]

unfoldable pub rstrip : Text → Text
unfolding is_space
rstrip [] = []
rstrip (c ∷ text) = elim (rstrip text) [
  | [] ↦ if is_space c then [] else c ∷ []
  | (d ∷ rest) ↦ c ∷ d ∷ rest
]

-- `text.strip()`.
unfoldable pub strip : Text → Text
unfolding lstrip rstrip
strip text = rstrip (lstrip text)

-- `_parse_action`: what stands between the last `<action>` and the next `</action>`.
unfoldable pub parse_action : Text → Option Text
unfolding find rfind strip lower
parse_action text = elim (rfind (codes "<action>") (lower text)) [
  | none ↦ none
  | some start ↦
      let inside = start + length (codes "<action>") in
      elim (find (codes "</action>") (drop inside (lower text))) [
        | none ↦ none
        | some n ↦ some (strip (take n (drop inside text)))
      ]
]

-- A message of the log: whether the assistant wrote it, and its text.
pub record Message : Type 0 where
  pub from_assistant : Bool
  pub content : Text

pub record Metadata : Type 0 where
  pub game_state : GameState
  pub num_moves : ℕ
  pub max_moves : ℕ

pub data Observation : Type 0 where
  maximum_moves_reached : ℕ → Observation
  invalid_response viewing : GameState → Observation
  stepped : Response → Observation

-- What `process_turn` returns; the answers are always None.
pub record Turn : Type 0 where
  pub observation : Observation
  pub turn_reward : ℕ
  pub is_terminated : Bool
  pub next_stop_strings : Option (List Text)
  pub next_metadata : Option Metadata

-- The text of the last message, where the assistant wrote it.
unfoldable pub last_content : List Message → Text
unfolding strip
last_content [] = []
last_content (m ∷ []) = if m.from_assistant then strip m.content else []
last_content (m ∷ n ∷ log) = last_content (n ∷ log)

-- The turn of a game step.
unfoldable pub turn_of : Outcome → Metadata → Turn
turn_of out m = record {
  observation = stepped out.response;
  turn_reward = out.reward;
  is_terminated = out.is_terminated;
  next_stop_strings = some (codes "</action>" ∷ []);
  next_metadata =
      if out.is_terminated
      then none
      else some (record m { game_state = out.new_state; num_moves = m.num_moves + 1 });
}

-- The turn of a parsed action.
unfoldable pub act : Option Text → Metadata → Turn
unfolding text_eq step turn_of
act none m = record {
  observation = invalid_response m.game_state;
  turn_reward = 0;
  is_terminated = false;
  next_stop_strings = some (codes "</action>" ∷ []);
  next_metadata = none;
}
act (some action) m =
    if text_eq action (codes "view")
    then record {
      observation = viewing m.game_state;
      turn_reward = 0;
      is_terminated = false;
      next_stop_strings = some (codes "</action>" ∷ []);
      next_metadata = some m;
    }
    else turn_of (step action m.game_state) m

unfoldable pub process_turn : List Message → Metadata → Turn
unfolding last_content parse_action act
process_turn log m =
    if leb m.max_moves m.num_moves
    then record {
      observation = maximum_moves_reached m.max_moves;
      turn_reward = 0;
      is_terminated = true;
      next_stop_strings = none;
      next_metadata = none;
    }
    else act (parse_action (last_content log)) m

-- What the environment's `step` returns, one item for each game; its tensors are lists.
pub record EnvironmentReturn : Type 0 where
  pub observations : List Observation
  pub metadata : List (Option Metadata)
  pub next_stop_strings : List (Option (List Text))
  pub rewards : List ℕ
  pub terminateds : List Bool

-- `zip`, as the turns.
unfoldable pub turns : List (List Message) → List Metadata → List Turn
unfolding process_turn
turns (log ∷ logs) (m ∷ ms) = process_turn log m ∷ turns logs ms
turns _ _ = []

-- `SlidingPuzzleEnv.step`.
unfoldable pub step_batch : List (List Message) → List Metadata → EnvironmentReturn
unfolding turns
step_batch logs ms =
    let results = turns logs ms in
    record {
      observations = map (λ (t : Turn). t.observation) results;
      metadata = map (λ (t : Turn). t.next_metadata) results;
      next_stop_strings = map (λ (t : Turn). t.next_stop_strings) results;
      rewards = map (λ (t : Turn). t.turn_reward) results;
      terminateds = map (λ (t : Turn). t.is_terminated) results;
    }
