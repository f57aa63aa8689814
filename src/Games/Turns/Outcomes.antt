-- ===== src/Games/Turns/Outcomes.antt =====
-- How a turn of the sliding puzzle ends.
use mathlib.Core.Path.{subst}
use nemo_rl_submission.Prelude.{
  ℕ, zero, suc, ◌≢◌, [], ◌∷◌, Option-cases, true-ne-false, drop, take, ◌+◌, ◌≤◌, ◌<◌, ◌≡◌, refl,
  sym, ◌∙◌, ap, true, false, Option, none, some, List, arith, Bool-cases, ◌⊎◌, inl, inr, leb,
}
use nemo_rl_submission.Prelude.Text.{Text, codes, lower, text_eq, text_eq→eq, text_eq_refl}
use nemo_rl_submission.Games.Board.{Position}
use nemo_rl_submission.Games.Puzzle.{GameState, slide, distance}
use nemo_rl_submission.Games.Commands.{starts_with, step}
use nemo_rl_submission.Games.Commands.Outcomes.{IsGame, IsStep, step-IsStep}
use nemo_rl_submission.Games.Turns.{
  Message, Metadata, Turn, find, rfind, strip, last_content, parse_action, act, turn_of,
  process_turn,
}

-- The turn ends the game because the moves are used up.
pub record IsTimeout (t : Turn) : Type 0 where
  pub over : t.is_terminated ≡ true
  pub unrewarded : t.turn_reward ≡ 0
  pub cleared : t.next_metadata ≡ none

-- The turn goes on, without a reward, from the state `next`.
pub record GoesOn (next : Option Metadata) (t : Turn) : Type 0 where
  pub goes_on : t.is_terminated ≡ false
  pub unrewarded : t.turn_reward ≡ 0
  pub next_state : t.next_metadata ≡ next

-- The text has the action between an opening tag and the next closing one, in whatever case.
pub record Asks (text action : Text) : Type 0 where
  pub from : ℕ
  pub count : ℕ
  pub opened : starts_with (codes "<action>") (drop from (lower text)) ≡ true
  pub closed : starts_with (codes "</action>") (drop count (drop (from + 8) (lower text))) ≡ true
  pub inside : action ≡ strip (take count (drop (from + 8) text))

-- The moves count one more, and the board is `game`.
abbrev pub counted : Metadata → GameState → Metadata
counted m game = record m { game_state = game; num_moves = m.num_moves + 1 }

-- The action slides the tile at `p`, next to the empty cell; that solves the puzzle and ends the game with
-- the reward 1, or the game goes on with the new board.
pub record IsSlide (action : Text) (m : Metadata) (p : Position) (t : Turn) : Type 0 where
  pub slid_there : (step action m.game_state).new_state ≡ slide p m.game_state
  pub game : IsGame (slide p m.game_state)
  pub next_to : distance p.0 m.game_state.empty_pos.0 + distance p.1 m.game_state.empty_pos.1 ≡ 1
  pub judged :
      (((slide p m.game_state).grid ≡ m.game_state.solution)
        × (t.is_terminated ≡ true)
        × (t.turn_reward ≡ 1)
        × (t.next_metadata ≡ none))
      ⊎ (((slide p m.game_state).grid ≢ m.game_state.solution)
          × GoesOn (some (counted m (slide p m.game_state))) t)

-- The turn of an action: a view, which leaves all as it was; a command that the game refuses, which
-- counts as a move; or a move of a tile.
abbrev pub IsPlayed : Text → Metadata → Turn → Type 0
IsPlayed action m t =
    ((action ≡ codes "view") × GoesOn (some m) t)
    ⊎ (action ≢ codes "view")
      × (((step action m.game_state).new_state ≡ m.game_state)
            × GoesOn (some (counted m m.game_state)) t
          ⊎ ((p : Position) × IsSlide action m p t))

find-starts_with :
    (word text : Text) (i : ℕ) → find word text ≡ some i → starts_with word (drop i text) ≡ true
unfolding find
find-starts_with word [] i e = cc
find-starts_with word (c ∷ text) zero e = elim (Bool-cases (starts_with word (c ∷ text))) [
  | inl here ↦ here
  | inr not_here ↦ ground (arith, not_here, e)
]
find-starts_with word (c ∷ text) (suc i) e = find-starts_with word text i (ground (arith, e))

rfind-starts_with :
    (word text : Text) (i : ℕ) → rfind word text ≡ some i → starts_with word (drop i text) ≡ true
unfolding rfind
rfind-starts_with word [] i e = cc
rfind-starts_with word (c ∷ text) zero e = ground (arith, e)
rfind-starts_with word (c ∷ text) (suc i) e = rfind-starts_with word text i (ground (arith, e))

parse_action-Asks : (text action : Text) → parse_action text ≡ some action → Asks text action
unfolding parse_action
parse_action-Asks text action e = elim (Option-cases (rfind (codes "<action>") (lower text))) [
  | inl none_opened ↦ absurd (ground (arith, none_opened, e))
  | inr (from, opened) ↦
      elim (Option-cases (find (codes "</action>") (drop (from + 8) (lower text)))) [
        | inl none_closed ↦ absurd (ground (arith, opened, none_closed, e))
        | inr (count, closed) ↦ record {
          from = from;
          count = count;
          opened = rfind-starts_with (codes "<action>") (lower text) from opened;
          closed = find-starts_with (codes "</action>") (drop (from + 8) (lower text)) count closed;
          inside = ground (arith, opened, closed, e);
        }
      ]
]

turn_of-IsPlayed :
    (action : Text) (m : Metadata)
    → action ≢ codes "view"
    → IsStep m.game_state (step action m.game_state)
    → IsPlayed action m (turn_of (step action m.game_state) m)
unfolding turn_of
turn_of-IsPlayed action m other (inl refused) = inr (
  other,
  inl (
    refused.kept,
    rw (refused.goes_on, refused.unrewarded, refused.kept)
        (record { goes_on = refl; unrewarded = refl; next_state = refl }),
  ),
)
turn_of-IsPlayed action m other (inr (p, moved)) = inr (
  other,
  inr (
    p,
    record {
      slid_there = moved.slid_there;
      game = subst IsGame moved.slid_there moved.game;
      next_to = moved.next_to;
      judged = elim moved.judged [
        | inl (won, over, one) ↦
            inl (ap (λ s. s.grid) (sym moved.slid_there) ∙ won, over, one, rw over refl)
        | inr (unsolved, on, zero_reward) ↦ inr (
          λ e. unsolved (ap (λ s. s.grid) moved.slid_there ∙ e),
          rw (on, zero_reward, moved.slid_there)
              (record { goes_on = refl; unrewarded = refl; next_state = refl }),
        )
      ];
    },
  ),
)

act-ignored : (m : Metadata) → GoesOn none (act none m)
unfolding act
act-ignored m = record { goes_on = refl; unrewarded = refl; next_state = refl }

act-IsPlayed :
    (action : Text) (m : Metadata) → IsGame m.game_state → IsPlayed action m (act (some action) m)
unfolding act
act-IsPlayed action m k = elim (Bool-cases (text_eq action (codes "view"))) [
  | inl view ↦ rw view (
      inl (
        text_eq→eq action (codes "view") view,
        record { goes_on = refl; unrewarded = refl; next_state = refl },
      ))
  | inr other ↦ rw other (
      turn_of-IsPlayed action m
        (λ e.
          true-ne-false
            (subst (λ a. text_eq a (codes "view") ≡ true) (sym e) (text_eq_refl (codes "view")))
            other)
        (step-IsStep action m.game_state k))
]

-- On a board, a turn is one of these. The moves are used up: the game is over, without a reward. Or moves
-- are left, and no action is found in the last message, if the assistant wrote it: the game goes on
-- without a reward or a state. Or the text asks for an action, which stands between two tags. Then it is
-- `view`, and the game goes on as it was; or the game refuses it and goes on with the same board and one
-- move more; or the action slides a tile next to the empty cell: if the grid is then the solution, the
-- game is over, with the reward 1, and otherwise it goes on with the new board and one move more.
pub process_turn_outcome :
    (log : List Message) (m : Metadata)
    → IsGame m.game_state
    → ((m.max_moves ≤ m.num_moves) × IsTimeout (process_turn log m))
      ⊎ ((m.num_moves < m.max_moves)
          × (parse_action (last_content log) ≡ none)
          × GoesOn none (process_turn log m))
      ⊎ ((m.num_moves < m.max_moves)
          × ((action : Text) × (parse_action (last_content log) ≡ some action)
              × Asks (last_content log) action
              × IsPlayed action m (process_turn log m)))
unfolding process_turn
process_turn_outcome log m k = elim (Bool-cases (leb m.max_moves m.num_moves)) [
  | inl spent ↦
      inl (
        ground (arith, spent),
        rw spent (record { over = refl; unrewarded = refl; cleared = refl }),
      )
  | inr moves_left ↦
      let h : m.num_moves < m.max_moves = ground (arith, moves_left) in
      elim (Option-cases (parse_action (last_content log))) [
        | inl no_action ↦ inr (inl (h, no_action, rw (moves_left, no_action) (act-ignored m)))
        | inr (action, asked) ↦ inr (
            inr (
              h,
              (
                action,
                asked,
                parse_action-Asks (last_content log) action asked,
                rw (moves_left, asked) (act-IsPlayed action m k),
              ),
            ))
      ]
]
