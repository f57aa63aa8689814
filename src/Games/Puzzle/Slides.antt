-- ===== src/Games/Puzzle/Slides.antt =====
-- A slide into the empty space keeps a board, and the slide back undoes it.
use nemo_rl_submission.Prelude.{
  ℕ, zero, suc, ◌≡◌, ◌≢◌, sym, ap, true, Option, none, some, arith, Bool-cases, inl, inr, ltb, ◌&&◌,
}
use nemo_rl_submission.Games.Board.{
  Position, Grid, cell, write, IsSquare, IsWithin, IsBoard, write-cell, cell-write, write-write,
  cell-write_other, sum_by-write, write-IsSquare,
}
use nemo_rl_submission.Games.Puzzle.{Direction, up, down, left, right, source, on_board}

-- The grid after a slide.
abbrev pub swapped : Position → Position → Grid → Grid
swapped p e g = write p 0 (write e (cell g p) g)

module _ {size : ℕ} {g : Grid} {e : Position} (k : IsBoard size g e) {p : Position}
    (inside : IsWithin size p) (apart : p ≢ e) where
  half : IsSquare size (write e (cell g p) g)
  half = write-IsSquare k.square k.within (cell g p)

  half_cell : cell (write e (cell g p) g) p ≡ cell g p
  half_cell = cell-write_other k.square k.within (cell g p) p (λ h. apart (sym h))

  pub swapped-IsBoard : IsBoard size (swapped p e g) p
  swapped-IsBoard = record {
    square = write-IsSquare half inside 0;
    within = inside;
    blank = cell-write half inside 0;
    tiles = λ w. omega (
      arith,
      sum_by-write half inside w 0,
      sum_by-write k.square k.within w (cell g p),
      ap w half_cell,
      ap w k.blank,
      k.tiles w,
    );
  }

  pub swapped_back : swapped e p (swapped p e g) ≡ g
  swapped_back =
      let filled : write p (cell g p) (write e (cell g p) g) ≡ write e (cell g p) g =
        rw half_cell at (write-cell p (write e (cell g p) g)) in
      let emptied : write e 0 g ≡ g = rw k.blank at (write-cell e g) in
      rw (
        cell-write_other half inside 0 e apart,
        cell-write k.square k.within (cell g p),
        write-write half inside 0 (cell g p),
        filled,
        write-write k.square k.within (cell g p) 0,
        emptied,
      )

-- The way back.
unfoldable pub opposite : Direction → Direction
opposite up = down
opposite down = up
opposite left = right
opposite right = left

pub source-apart : (d : Direction) (e p : Position) → source d e ≡ some p → p ≢ e
unfolding source
source-apart up e p h same = ground (arith, h, same)
source-apart down (zero, c) p h same = ground (arith, h, same)
source-apart down (suc r, c) p h same = ground (arith, h, same)
source-apart left e p h same = ground (arith, h, same)
source-apart right (r, zero) p h same = ground (arith, h, same)
source-apart right (r, suc c) p h same = ground (arith, h, same)

pub source-opposite :
    (d : Direction) (e p : Position) → source d e ≡ some p → source (opposite d) p ≡ some e
unfolding source opposite
source-opposite up e p h = ground (arith, h)
source-opposite down (zero, c) p h = ground (arith, h)
source-opposite down (suc r, c) p h = ground (arith, h)
source-opposite left e p h = ground (arith, h)
source-opposite right (r, zero) p h = ground (arith, h)
source-opposite right (r, suc c) p h = ground (arith, h)

pub on_board-some :
    (size : ℕ) (o : Option Position) (p : Position)
    → on_board size o ≡ some p
    → (o ≡ some p) × IsWithin size p
unfolding on_board
on_board-some size none p h = cc
on_board-some size (some q) p h = elim (Bool-cases (ltb q.0 size && ltb q.1 size)) [
  | inl within ↦
      let same : q ≡ p = ground (arith, h, within) in
      (ap some same, rw same at (the_bounds q within))
  | inr out ↦ absurd (ground (arith, h, out))
]
  where
    the_bounds : (q : Position) → (ltb q.0 size && ltb q.1 size) ≡ true → IsWithin size q
    the_bounds q b = (ground (arith, b), ground (arith, b))

pub on_board-within : (size : ℕ) (p : Position) → IsWithin size p → on_board size (some p) ≡ some p
unfolding on_board
on_board-within size p h = ground (arith, h.0, h.1)
