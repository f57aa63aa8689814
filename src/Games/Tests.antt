-- ===== src/Games/Tests.antt =====
-- Runs of the sliding puzzle, and its theorems at concrete inputs.
use mathlib.Core.List.{Memᴰ}
use Prim.Native.String.{String}
use nemo_rl_submission.Prelude.{
  none, ◌≤◌, ◌<◌, ◌≡◌, refl, true, some, List, [], ◌∷◌, ◌⊎◌, arith, length, flatten, ok, raise,
  index_error,
}
use nemo_rl_submission.Prelude.Int.{negsuc}
use nemo_rl_submission.Prelude.Text.{Text, codes}
use nemo_rl_submission.Games.Board.{Position, cell}
use nemo_rl_submission.Games.Puzzle.{
  GameState, possible_moves, generate, up, cannot_slide, invalid_position, not_adjacent,
  invalid_format, unknown_command, solved,
}
use nemo_rl_submission.Games.Commands.{int, split, step}
use nemo_rl_submission.Games.Commands.Outcomes.{IsGame, IsStep, step-IsStep}
use nemo_rl_submission.Games.Commands.Solvable.{play, generate-IsSolvable}
use nemo_rl_submission.Games.Turns.{
  Message, Metadata, last_content, parse_action, process_turn, step_batch,
}
use nemo_rl_submission.Games.Turns.Outcomes.{
  IsTimeout, GoesOn, Asks, IsPlayed, process_turn_outcome,
}

-- One move before the solution.
abbrev puzzle : GameState
puzzle = record {
  size = 2;
  grid = (1 ∷ 2 ∷ []) ∷ (0 ∷ 3 ∷ []) ∷ [];
  solution = (1 ∷ 2 ∷ []) ∷ (3 ∷ 0 ∷ []) ∷ [];
  empty_pos = (1, 0);
}

puzzle-IsGame : IsGame puzzle
unfolding cell flatten
puzzle-IsGame = record {
  square = record { rows = refl; columns = (refl, (refl, tt)) };
  within = (omega arith, omega arith);
  blank = refl;
  tiles = λ w. omega arith;
}

abbrev start : Metadata
start = record { game_state = puzzle; num_moves = 3; max_moves = 4 }

abbrev said : String → List Message
said s = record { from_assistant = true; content = codes s } ∷ []

moves_example : possible_moves 2 (1, 0) ≡ (1, 1) ∷ (0, 0) ∷ []
unfolding possible_moves
moves_example = refl

left_solves : (step (codes "left") puzzle).response ≡ solved
unfolding step
left_solves = refl

slide_solves : (step (codes "slide 2 +2") puzzle).reward ≡ 1
unfolding step
slide_solves = refl

up_is_refused : (step (codes "up") puzzle).response ≡ cannot_slide up
unfolding step
up_is_refused = refl

far_is_refused : (step (codes "slide 1 2") puzzle).response ≡ not_adjacent
unfolding step
far_is_refused = refl

outside_is_refused : (step (codes "slide 0 2") puzzle).response ≡ invalid_position 2
unfolding step
outside_is_refused = refl

word_is_refused : (step (codes "slide one two") puzzle).response ≡ invalid_format
unfolding step
word_is_refused = refl

other_is_refused : (step (codes "jump") puzzle).response ≡ unknown_command
unfolding step
other_is_refused = refl

int_example : int (codes "-1_0") ≡ some (negsuc 9)
unfolding int
int_example = refl

split_example : split [] (codes "  a  bc ") ≡ codes "a" ∷ codes "bc" ∷ []
unfolding split
split_example = refl

parse_example :
    parse_action (codes "<action>up</action> no: <ACTION> left </action>") ≡ some (codes "left")
unfolding parse_action
parse_example = refl

batch_example :
    (step_batch
      (said "<action>left</action>" ∷ said "<action>up</action>" ∷ [])
      (start ∷ start ∷ [])).rewards
    ≡ 1 ∷ 0 ∷ []
unfolding step_batch
batch_example = refl

size_zero : generate 0 [] ≡ raise index_error
unfolding generate
size_zero = refl

-- The first of some positions.
abbrev first : List Position → Position
first [] = (0, 0)
first (p ∷ ps) = p

step-IsStep_example : IsStep puzzle (step (codes "left") puzzle)
step-IsStep_example = step-IsStep (codes "left") puzzle puzzle-IsGame

generate-IsSolvable_example :
    (s : GameState) × (generate 3 (first ∷ first ∷ []) ≡ ok s)
    × (s.size ≡ 3)
    × IsGame s
    × ((actions : List Text) × (length actions ≤ 2) × ((play actions s).grid ≡ s.solution))
generate-IsSolvable_example =
    generate-IsSolvable 2 (first ∷ first ∷ [])
      (λ m ms. Memᴰ.head refl, (λ m ms. Memᴰ.head refl, tt))

process_turn_outcome_example :
    ((4 ≤ 3) × IsTimeout (process_turn (said "<action>left</action>") start))
    ⊎ ((3 < 4)
        × (parse_action (last_content (said "<action>left</action>")) ≡ none)
        × GoesOn none (process_turn (said "<action>left</action>") start))
    ⊎ ((3 < 4)
        × ((action : Text) × (parse_action (last_content (said "<action>left</action>"))
              ≡ some action)
            × Asks (last_content (said "<action>left</action>")) action
            × IsPlayed action start (process_turn (said "<action>left</action>") start)))
process_turn_outcome_example =
    process_turn_outcome (said "<action>left</action>") start puzzle-IsGame
