-- ===== src/Games/Puzzle.antt =====
-- nemo_rl/environments/games/sliding_puzzle.py: `SlidingPuzzleGameLogic`. The sizes are natural
-- numbers, a reward is 0 or 1, and a response is what its text says. The text of `slide row col` is
-- ASCII, its numbers within Python's limit for `int`.
pub mod Slides
pub mod Solved
use nemo_rl_submission.Prelude.{
  ℕ, zero, suc, ◌+◌, ◌-◌, ◌*◌, Bool, true, false, ◌&&◌, ◌||◌, Option, none, some, List, [], ◌∷◌,
  ◌++◌, map, ltb, leb, ◌==◌, if◌then◌else◌, range, take, length, Result, ok, raise, index_error,
}
use nemo_rl_submission.Prelude.Int.{ℤ, pos, negsuc}
use nemo_rl_submission.Prelude.Text.{Text, codes, text_eq}
use nemo_rl_submission.Games.Board.{Position, Grid, cell, write}

-- The state without its constant table of commands.
pub record GameState : Type 0 where
  pub size : ℕ
  pub grid : Grid
  pub solution : Grid
  pub empty_pos : Position

-- A direction in which a tile slides.
pub data Direction : Type 0 where
  up down left right : Direction

-- The position of the tile that slides, where no coordinate is negative.
unfoldable pub source : Direction → Position → Option Position
source up (r, c) = some (suc r, c)
source down (zero, c) = none
source down (suc r, c) = some (r, c)
source left (r, c) = some (r, suc c)
source right (r, zero) = none
source right (r, suc c) = some (r, c)

-- `0 <= r < size and 0 <= c < size`.
unfoldable pub on_board : ℕ → Option Position → Option Position
on_board size none = none
on_board size (some p) = if ltb p.0 size && ltb p.1 size then some p else none

-- `moves.append` for what is there.
unfoldable pub append_some : Option Position → List Position → List Position
append_some none ps = ps
append_some (some p) ps = p ∷ ps

-- The possible positions for the empty space: to its right, below it, to its left, above it.
unfoldable pub possible_moves : ℕ → Position → List Position
unfolding on_board source append_some
possible_moves size e = append_some (on_board size (source left e)) (
    append_some (on_board size (source up e)) (
      append_some (on_board size (source right e))
        (append_some (on_board size (source down e)) [])))

-- One shuffle move. What `random.choice` returns is an argument.
unfoldable pub shuffle_move : (List Position → Position) → ℕ → Grid × Position → Grid × Position
unfolding possible_moves cell write
shuffle_move choose size (grid, e) = elim (possible_moves size e) [
  | [] ↦ (grid, e)
  | (m ∷ ms) ↦
      let new = choose (m ∷ ms) in (write new (cell grid e) (write e (cell grid new) grid), new)
]

unfoldable pub shuffle : List (List Position → Position) → ℕ → Grid × Position → Grid × Position
unfolding shuffle_move
shuffle [] size s = s
shuffle (choose ∷ choices) size s = shuffle choices size (shuffle_move choose size s)

-- `[[(r * size + c + 1) for c in range(size)] for r in range(size)]`.
unfoldable pub numbered : ℕ → Grid
numbered size = map (λ r. map (λ c. r * size + c + 1) (range size)) (range size)

-- `generate`, with one choice for each shuffle move. A size of 0 has no last row.
unfoldable pub generate : ℕ → List (List Position → Position) → Result GameState
unfolding numbered write shuffle
generate zero choices = raise index_error
generate (suc n) choices =
    let solved = write (n, n) 0 (numbered (suc n)) in
    let (grid, e) = shuffle choices (suc n) (solved, (n, n)) in
    ok (record { size = suc n; grid = grid; solution = solved; empty_pos = e })

pub data Response : Type 0 where
  unknown_command not_adjacent invalid_format solved : Response
  invalid_position : ℕ → Response
  slid : ℕ → Option Direction → Response
  cannot_slide : Direction → Response

-- What `step` returns.
pub record Outcome : Type 0 where
  pub response : Response
  pub reward : ℕ
  pub is_terminated : Bool
  pub new_state : GameState

-- A return with the default reward and an unchanged copy of the state.
unfoldable pub refuse : Response → GameState → Outcome
refuse response s = record { response = response; reward = 0; is_terminated = false; new_state = s }

-- The tile at `p` goes into the empty space.
unfoldable pub slide : Position → GameState → GameState
unfolding cell write
slide p s = record s { grid = write p 0 (write s.empty_pos (cell s.grid p) s.grid); empty_pos = p }

-- `==` on grids.
unfoldable pub grid_eq : Grid → Grid → Bool
unfolding text_eq
grid_eq [] [] = true
grid_eq (r ∷ g) (s ∷ h) = text_eq r s && grid_eq g h
grid_eq _ _ = false

-- A move was made.
unfoldable pub make_move : Position → Option Direction → GameState → Outcome
unfolding slide grid_eq cell
make_move p direction s =
    let s' = slide p s in
    if grid_eq s'.grid s'.solution
    then record { response = solved; reward = 1; is_terminated = true; new_state = s' }
    else record {
      response = slid (cell s.grid p) direction;
      reward = 0;
      is_terminated = false;
      new_state = s';
    }

unfoldable pub step_direction : Direction → GameState → Outcome
unfolding on_board source make_move refuse
step_direction d s = elim (on_board s.size (source d s.empty_pos)) [
  | none ↦ refuse (cannot_slide d) s
  | some p ↦ make_move p (some d) s
]

-- `int(text) - 1` where it is not negative.
unfoldable pub index_of : ℤ → Option ℕ
index_of (pos zero) = none
index_of (pos (suc n)) = some n
index_of (negsuc n) = none

-- The position that two numbers name.
unfoldable pub position_of : ℤ → ℤ → Option Position
unfolding index_of
position_of r c = elim (index_of r) [
  | none ↦ none
  | some i ↦ elim (index_of c) [ none ↦ none | some j ↦ some (i, j) ]
]

-- `abs(m - n)`.
abbrev pub distance : ℕ → ℕ → ℕ
distance m n = (m - n) + (n - m)

-- `slide row col` with its two numbers.
unfoldable pub step_slide : ℤ → ℤ → GameState → Outcome
unfolding on_board position_of make_move refuse
step_slide r c s = elim (on_board s.size (position_of r c)) [
  | none ↦ refuse (invalid_position s.size) s
  | some p ↦
      if distance p.0 s.empty_pos.0 + distance p.1 s.empty_pos.1 == 1
      then make_move p none s
      else refuse not_adjacent s
]
