-- ===== src/Games/Commands.antt =====
-- nemo_rl/environments/games/sliding_puzzle.py: the text commands of `SlidingPuzzleGameLogic.step`,
-- with Python's `str` methods on ASCII text.
pub mod Outcomes
pub mod Solvable
use nemo_rl_submission.Prelude.{
  ℕ, zero, suc, ◌+◌, ◌-◌, ◌*◌, Bool, true, false, ◌&&◌, ◌||◌, Option, none, some, List, [], ◌∷◌,
  ◌++◌, leb, ◌==◌, if◌then◌else◌,
}
use nemo_rl_submission.Prelude.Int.{ℤ, pos, negsuc}
use nemo_rl_submission.Prelude.Text.{Text, codes, text_eq}
use nemo_rl_submission.Games.Puzzle.{
  GameState, Direction, up, down, left, right, Outcome, refuse, unknown_command, invalid_format,
  step_direction, step_slide,
}

-- `text.startswith(prefix)`.
unfoldable pub starts_with : Text → Text → Bool
starts_with [] text = true
starts_with (p ∷ prefix) [] = false
starts_with (p ∷ prefix) (c ∷ text) = p == c && starts_with prefix text

-- `c.isspace()`.
unfoldable pub is_space : ℕ → Bool
is_space c = (leb 9 c && leb c 13) || (leb 28 c && leb c 32)

-- A word that ends, if it has any letters, before others.
unfoldable pub end_word : Text → List Text → List Text
end_word [] rest = rest
end_word (c ∷ word) rest = (c ∷ word) ∷ rest

-- `text.split()`, after the letters of an unfinished word.
unfoldable pub split : Text → Text → List Text
unfolding is_space end_word
split word [] = end_word word []
split word (c ∷ text) = elim (is_space c) [
  | true ↦ end_word word (split [] text)
  | false ↦ split (word ++ c ∷ []) text
]

-- The digits of `int(text)`, after a value; an underscore stands between two digits only.
unfoldable pub digits : ℕ → Bool → Text → Option ℕ
digits n after_digit [] = if after_digit then some n else none
digits n after_digit (c ∷ text) = elim (leb b'0' c && leb c b'9') [
  | true ↦ digits (10 * n + (c - b'0')) true text
  | false ↦ elim (c == b'_' && after_digit) [ true ↦ digits n false text | false ↦ none ]
]

unfoldable pub negated : Option ℕ → Option ℤ
negated none = none
negated (some zero) = some (pos zero)
negated (some (suc n)) = some (negsuc n)

unfoldable pub as_integer : Option ℕ → Option ℤ
as_integer none = none
as_integer (some n) = some (pos n)

-- `int(word)`, for a word without spaces. `none` is its ValueError.
unfoldable pub int : Text → Option ℤ
unfolding digits negated as_integer
int [] = none
int (c ∷ text) =
    if c == b'-'
    then negated (digits 0 false text)
    else if c == b'+'
    then as_integer (digits 0 false text)
    else as_integer (digits 0 false (c ∷ text))

-- The branch of `slide row col`: any other number of words, or a word that is no number, is a
-- ValueError.
unfoldable pub slide_command : List Text → GameState → Outcome
unfolding int step_slide refuse
slide_command (word ∷ row ∷ column ∷ []) s = elim (int row) [
  | none ↦ refuse invalid_format s
  | some r ↦ elim (int column) [ none ↦ refuse invalid_format s | some c ↦ step_slide r c s ]
]
slide_command _ s = refuse invalid_format s

-- `SlidingPuzzleGameLogic.step`.
unfoldable pub step : Text → GameState → Outcome
unfolding starts_with split slide_command text_eq step_direction refuse
step action s =
    if starts_with (codes "slide ") action
    then slide_command (split [] action) s
    else if text_eq action (codes "up")
    then step_direction up s
    else if text_eq action (codes "down")
    then step_direction down s
    else if text_eq action (codes "left")
    then step_direction left s
    else if text_eq action (codes "right")
    then step_direction right s
    else refuse unknown_command s
