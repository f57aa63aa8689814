-- ===== src/Games/Commands/Outcomes.antt =====
-- What a command does to a board.
use nemo_rl_submission.Prelude.{
  true-ne-false, zero, suc, ◌+◌, ◌≡◌, ◌≢◌, refl, Bool, true, false, Option, none, some, List, [],
  ◌∷◌, arith, Bool-cases, ◌⊎◌, inl, inr, ◌==◌, if◌then◌else◌, ==_iff,
}
use nemo_rl_submission.Prelude.Int.{ℤ}
use nemo_rl_submission.Prelude.Text.{Text, codes, text_eq, text_eq→eq, text_eq_refl}
use nemo_rl_submission.Games.Board.{Position, Grid, IsWithin, IsBoard}
use nemo_rl_submission.Games.Puzzle.{
  GameState, Direction, up, down, left, right, source, on_board, slide, grid_eq, make_move, refuse,
  Response, step_direction, step_slide, position_of, distance, Outcome, cannot_slide,
  invalid_position, not_adjacent, unknown_command, invalid_format,
}
use nemo_rl_submission.Games.Puzzle.Slides.{swapped-IsBoard, source-apart, on_board-some}
use nemo_rl_submission.Games.Commands.{starts_with, split, int, slide_command, step}

-- The board of a state.
abbrev pub IsGame : GameState → Type 0
IsGame s = IsBoard s.size s.grid s.empty_pos

-- The tile at `p` slid into the empty space next to it, and the reward says whether that solved the puzzle.
pub record IsMove (s : GameState) (p : Position) (out : Outcome) : Type 0 where
  pub slid_there : out.new_state ≡ slide p s
  pub next_to : distance p.0 s.empty_pos.0 + distance p.1 s.empty_pos.1 ≡ 1
  pub game : IsGame out.new_state
  pub judged :
      ((out.new_state.grid ≡ s.solution) × (out.is_terminated ≡ true) × (out.reward ≡ 1))
      ⊎ ((out.new_state.grid ≢ s.solution) × (out.is_terminated ≡ false) × (out.reward ≡ 0))

-- Nothing happened.
pub record IsRefusal (s : GameState) (out : Outcome) : Type 0 where
  pub kept : out.new_state ≡ s
  pub goes_on : out.is_terminated ≡ false
  pub unrewarded : out.reward ≡ 0

abbrev pub IsStep : GameState → Outcome → Type 0
IsStep s out = IsRefusal s out ⊎ ((p : Position) × IsMove s p out)

grid_eq→eq : (g h : Grid) → grid_eq g h ≡ true → g ≡ h
unfolding grid_eq
grid_eq→eq [] [] e = refl
grid_eq→eq [] (s ∷ h) e = ground (arith)
grid_eq→eq (r ∷ g) [] e = ground (arith)
grid_eq→eq (r ∷ g) (s ∷ h) e = ground (arith, text_eq→eq r s, grid_eq→eq g h)

grid_eq_refl : (g : Grid) → grid_eq g g ≡ true
unfolding grid_eq
grid_eq_refl [] = refl
grid_eq_refl (r ∷ g) = ground (arith, text_eq_refl r, grid_eq_refl g)

eq→grid_eq : (g h : Grid) → g ≡ h → grid_eq g h ≡ true
eq→grid_eq g h same = rw same (grid_eq_refl h)

refuse-IsStep : (response : Response) (s : GameState) → IsStep s (refuse response s)
unfolding refuse
refuse-IsStep response s = inl (record { kept = refl; goes_on = refl; unrewarded = refl })

make_move-IsStep :
    (p : Position) (d : Option Direction) (s : GameState)
    → IsGame s
    → IsWithin s.size p
    → p ≢ s.empty_pos
    → distance p.0 s.empty_pos.0 + distance p.1 s.empty_pos.1 ≡ 1
    → IsStep s (make_move p d s)
unfolding make_move slide
make_move-IsStep p d s k inside apart near =
    elim (Bool-cases (grid_eq (slide p s).grid s.solution)) [
      | inl won ↦ rw won (
          inr (
            p,
            record {
              slid_there = refl;
              next_to = near;
              game = swapped-IsBoard k inside apart;
              judged = inl (grid_eq→eq _ _ won, refl, refl);
            },
          ))
      | inr unsolved ↦ rw unsolved (
          inr (
            p,
            record {
              slid_there = refl;
              next_to = near;
              game = swapped-IsBoard k inside apart;
              judged = inr (λ same. true-ne-false (eq→grid_eq _ _ same) unsolved, refl, refl);
            },
          ))
    ]

source-next_to :
    (d : Direction) (e p : Position) → source d e ≡ some p → distance p.0 e.0 + distance p.1 e.1 ≡ 1
unfolding source
source-next_to up e p h = ground (arith, h)
source-next_to down (zero, c) p h = ground (arith, h)
source-next_to down (suc r, c) p h = ground (arith, h)
source-next_to left e p h = ground (arith, h)
source-next_to right (r, zero) p h = ground (arith, h)
source-next_to right (r, suc c) p h = ground (arith, h)

pub step_direction-IsStep :
    (d : Direction) (s : GameState) → IsGame s → IsStep s (step_direction d s)
unfolding step_direction
step_direction-IsStep d s k = split_on (on_board s.size (source d s.empty_pos)) refl
  where
    split_on :
        (o : Option Position)
        → on_board s.size (source d s.empty_pos) ≡ o
        → IsStep s (elim o [ none ↦ refuse (cannot_slide d) s | some p ↦ make_move p (some d) s ])
    split_on none e = refuse-IsStep _ s
    split_on (some p) e =
        let (from, inside) = on_board-some s.size (source d s.empty_pos) p e in
        make_move-IsStep p (some d) s k inside (source-apart d _ p from) (source-next_to d _ p from)

step_slide-IsStep : (r c : ℤ) (s : GameState) → IsGame s → IsStep s (step_slide r c s)
unfolding step_slide
step_slide-IsStep r c s k = split_on (on_board s.size (position_of r c)) refl
  where
    split_on :
        (o : Option Position)
        → on_board s.size (position_of r c) ≡ o
        → IsStep s (elim o [
          | none ↦ refuse (invalid_position s.size) s
          | some p ↦
              if distance p.0 s.empty_pos.0 + distance p.1 s.empty_pos.1 == 1
              then make_move p none s
              else refuse not_adjacent s
        ])
    split_on none e = refuse-IsStep _ s
    split_on (some p) e =
        elim (Bool-cases (distance p.0 s.empty_pos.0 + distance p.1 s.empty_pos.1 == 1)) [
          | inr far ↦ rw far (refuse-IsStep _ s)
          | inl near ↦
              let one = (==_iff _ _).0 near in
              rw near (
                make_move-IsStep p none s k (on_board-some s.size (position_of r c) p e).1
                  (λ same. ground (arith, one, same)) one)
        ]

slide_command-IsStep :
    (words : List Text) (s : GameState) → IsGame s → IsStep s (slide_command words s)
unfolding slide_command
slide_command-IsStep [] s k = refuse-IsStep _ s
slide_command-IsStep (a ∷ []) s k = refuse-IsStep _ s
slide_command-IsStep (a ∷ b ∷ []) s k = refuse-IsStep _ s
slide_command-IsStep (a ∷ b ∷ c ∷ []) s k =
    read (int b) _ (λ row. read (int c) _ (λ column. step_slide-IsStep row column s k))
  where
    read :
        (o : Option ℤ) (act : ℤ → Outcome)
        → ((z : ℤ) → IsStep s (act z))
        → IsStep s (elim o [ none ↦ refuse invalid_format s | some z ↦ act z ])
    read none act h = refuse-IsStep _ s
    read (some z) act h = h z
slide_command-IsStep (a ∷ b ∷ c ∷ d ∷ rest) s k = refuse-IsStep _ s

-- On a board, a command of any text either changes nothing, with no reward, and the game goes on; or
-- it slides the tile at a position next to the empty space into it, which leaves a board, and then
-- the reward is 1 and the game over if the grid is the solution, and otherwise the reward is 0 and the
-- game goes on.
pub step-IsStep : (action : Text) (s : GameState) → IsGame s → IsStep s (step action s)
unfolding step
step-IsStep action s k =
    either (starts_with (codes "slide ") action) (slide_command-IsStep (split [] action) s k) (
      either (text_eq action (codes "up")) (step_direction-IsStep up s k) (
        either (text_eq action (codes "down")) (step_direction-IsStep down s k) (
          either (text_eq action (codes "left")) (step_direction-IsStep left s k) (
            either (text_eq action (codes "right")) (step_direction-IsStep right s k)
              (refuse-IsStep unknown_command s)))))
  where
    either : {x y : Outcome} (b : Bool) → IsStep s x → IsStep s y → IsStep s (if b then x else y)
    either true l r = l
    either false l r = r
