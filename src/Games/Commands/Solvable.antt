-- ===== src/Games/Commands/Solvable.antt =====
-- Every puzzle that `generate` makes has a solution.
use mathlib.Core.List.{Memᴰ}
use nemo_rl_submission.Prelude.{
  ℕ, suc, ◌≤◌, ◌≡◌, refl, sym, ◌∙◌, ap, Option, none, some, List, [], ◌∷◌, ◌++◌, arith, ◌⊎◌, inl,
  inr, length, length-append, All, ok,
}
use nemo_rl_submission.Prelude.Text.{Text, codes}
use nemo_rl_submission.Games.Board.{Position, Grid, cell, write, IsWithin, IsBoard}
use nemo_rl_submission.Games.Puzzle.{
  GameState, Direction, up, down, left, right, source, on_board, slide, make_move, step_direction,
  append_some, possible_moves, shuffle_move, shuffle, generate,
}
use nemo_rl_submission.Games.Puzzle.Slides.{
  swapped, swapped-IsBoard, swapped_back, opposite, source-apart, source-opposite, on_board-some,
  on_board-within,
}
use nemo_rl_submission.Games.Puzzle.{numbered}
use nemo_rl_submission.Games.Puzzle.Solved.{solved-IsBoard}
use nemo_rl_submission.Games.Commands.Outcomes.{IsGame}
use nemo_rl_submission.Games.Commands.{step}

-- The states after some commands.
pub play : List Text → GameState → GameState
play [] s = s
play (action ∷ actions) s = play actions (step action s).new_state

play-append : (xs ys : List Text) (s : GameState) → play (xs ++ ys) s ≡ play ys (play xs s)
unfolding play
play-append [] ys s = refl
play-append (x ∷ xs) ys s = play-append xs ys (step x s).new_state

word : Direction → Text
word up = codes "up"
word down = codes "down"
word left = codes "left"
word right = codes "right"

step-word : (d : Direction) (s : GameState) → step (word d) s ≡ step_direction d s
unfolding step word
step-word up s = refl
step-word down s = refl
step-word left s = refl
step-word right s = refl

new_state-make_move :
    (p : Position) (d : Option Direction) (s : GameState) → (make_move p d s).new_state ≡ slide p s
unfolding make_move
new_state-make_move p d s = ground arith

step_direction-moves :
    (d : Direction) (s : GameState) (p : Position)
    → on_board s.size (source d s.empty_pos) ≡ some p
    → step_direction d s ≡ make_move p (some d) s
unfolding step_direction
step_direction-moves d s p there = rw (there, step_direction) refl

abbrev pub state : ℕ → Grid → Grid × Position → GameState
state size solution (g, e) = record { size = size; grid = g; solution = solution; empty_pos = e }

-- From the first, at most `n` commands lead to the second.
pub record LeadsTo (n size : ℕ) (solution : Grid) (x y : Grid × Position) : Type 0 where
  pub actions : List Text
  pub few : length actions ≤ n
  pub leads : play actions (state size solution x) ≡ state size solution y

-- A choice returns one of the positions that it is given.
abbrev pub Picks : (List Position → Position) → Type 0
Picks choose = (m : Position) (ms : List Position) → Memᴰ (choose (m ∷ ms)) (m ∷ ms)

module _ (size : ℕ) (solution : Grid) where
  slide_back :
      (g : Grid) (e p : Position) (d : Direction)
      → IsBoard size g e
      → source d e ≡ some p
      → IsWithin size p
      → (step (word (opposite d)) (state size solution (swapped p e g, p))).new_state
        ≡ state size solution (g, e)
  unfolding slide
  slide_back g e p d k from inside =
      let there : on_board size (source (opposite d) p) ≡ some e =
        ap (on_board size) (source-opposite d e p from) ∙ on_board-within size e k.within in
      rw (
        step-word (opposite d) (state size solution (swapped p e g, p)),
        step_direction-moves (opposite d) (state size solution (swapped p e g, p)) e there,
        new_state-make_move e (some (opposite d)) (state size solution (swapped p e g, p)),
        swapped_back k inside (source-apart d e p from),
      )

  append_some-cases :
      (o : Option Position) (p : Position) (ps : List Position)
      → Memᴰ p (append_some o ps)
      → (o ≡ some p) ⊎ Memᴰ p ps
  unfolding append_some
  append_some-cases none p ps m = inr m
  append_some-cases (some q) p ps (Memᴰ.head same) = inl (ap some (sym same))
  append_some-cases (some q) p ps (Memᴰ.tail m) = inr m

  possible_moves-cases :
      (e p : Position)
      → Memᴰ p (possible_moves size e)
      → (d : Direction) × (source d e ≡ some p) × IsWithin size p
  unfolding possible_moves
  possible_moves-cases e p m = elim (append_some-cases _ p _ m) [
    | inl h ↦ found left h
    | inr m ↦ elim (append_some-cases _ p _ m) [
      | inl h ↦ found up h
      | inr m ↦ elim (append_some-cases _ p _ m) [
        | inl h ↦ found right h
        | inr m ↦ elim (append_some-cases _ p _ m) [ inl h ↦ found down h | inr m ↦ elim m [ ] ]
      ]
    ]
  ]
    where
      found :
          (d : Direction)
          → on_board size (source d e) ≡ some p
          → (d : Direction) × (source d e ≡ some p) × IsWithin size p
      found d h = let (from, inside) = on_board-some size (source d e) p h in (d, from, inside)

  -- A board, from which a command leads back to the board before.
  record IsUndone (x y : Grid × Position) : Type 0 where
    board : IsBoard size y.0 y.1
    back : LeadsTo 1 size solution y x

  shuffle_move-IsUndone :
      (choose : List Position → Position) (g : Grid) (e : Position)
      → Picks choose
      → IsBoard size g e
      → IsUndone (g, e) (shuffle_move choose size (g, e))
  unfolding shuffle_move play
  shuffle_move-IsUndone choose g e picks k = moves (possible_moves size e) refl
    where
      moves :
          (ps : List Position)
          → possible_moves size e ≡ ps
          → IsUndone
              (g, e)
              (elim ps [
                | [] ↦ (g, e)
                | (m ∷ ms) ↦
                    let new = choose (m ∷ ms) in
                    (write new (cell g e) (write e (cell g new) g), new)
              ])
      moves [] h = record {
        board = k;
        back = record { actions = []; few = omega arith; leads = refl };
      }
      moves (m ∷ ms) h =
          let new : Position = choose (m ∷ ms) in
          let (d, from, inside) = possible_moves-cases e new (rw h (picks m ms)) in
          rw k.blank (record {
            board = swapped-IsBoard k inside (source-apart d e new from);
            back = record {
              actions = word (opposite d) ∷ [];
              few = omega arith;
              leads = slide_back g e new d k from inside;
            };
          })

  pub shuffle-LeadsTo :
      (choices : List (List Position → Position)) (x : Grid × Position)
      → All Picks choices
      → IsBoard size x.0 x.1
      → IsBoard size (shuffle choices size x).0 (shuffle choices size x).1
        × LeadsTo (length choices) size solution (shuffle choices size x) x
  unfolding shuffle play
  shuffle-LeadsTo [] x picks k = (k, record { actions = []; few = omega arith; leads = refl })
  shuffle-LeadsTo (choose ∷ choices) (g, e) picks k =
      let undone = shuffle_move-IsUndone choose g e picks.0 k in
      let (board, rest) =
        shuffle-LeadsTo choices (shuffle_move choose size (g, e)) picks.1 undone.board in
      (
        board,
        record {
          actions = rest.actions ++ undone.back.actions;
          few =
              omega
                (arith, length-append rest.actions undone.back.actions, rest.few, undone.back.few);
          leads =
              play-append rest.actions undone.back.actions _
              ∙ ap (play undone.back.actions) rest.leads
              ∙ undone.back.leads;
        },
      )

-- For a positive size and choices that each return one of the given positions, `generate` returns a
-- puzzle of that size: a board, from which some commands, at most as many as the shuffle moves, lead
-- to the solution.
pub generate-IsSolvable :
    (n : ℕ) (choices : List (List Position → Position))
    → All Picks choices
    → (s : GameState) × (generate (suc n) choices ≡ ok s)
      × (s.size ≡ suc n)
      × IsGame s
      × ((actions : List Text) × (length actions ≤ length choices)
          × ((play actions s).grid ≡ s.solution))
unfolding generate
generate-IsSolvable n choices picks =
    let solution : Grid = write (n, n) 0 (numbered (suc n)) in
    let (board, back) =
      shuffle-LeadsTo (suc n) solution choices (solution, (n, n)) picks (solved-IsBoard n) in
    (
      state (suc n) solution (shuffle choices (suc n) (solution, (n, n))),
      refl,
      refl,
      board,
      (back.actions, back.few, ap (λ s. s.grid) back.leads),
    )
