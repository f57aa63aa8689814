-- ===== src/Games/Puzzle/Solved.antt =====
-- The solved puzzle is a board.
use nemo_rl_submission.Prelude.{
  sum_by-shift, sum_by-range_from, ℕ, zero, suc, ◌+◌, ◌*◌, ◌<◌, ◌≡◌, refl, ◌∙◌, ap, List, [], ◌∷◌,
  map, flatten, arith, length, length-map, length-range_from, get_or, All, range, range_from,
  range-snoc, sum_by, sum_by-append, sum_by-map,
}
use nemo_rl_submission.Games.Board.{
  IsWithin, cell, write, IsSquare, IsBoard, cell-write, sum_by-write, write-IsSquare,
}
use nemo_rl_submission.Games.Puzzle.{numbered}

get_or-map_range :
    {A : Type 0} (f : ℕ → A) (d : A) (j n i : ℕ)
    → i < n
    → get_or (map f (range_from j n)) i d ≡ f (j + i)
get_or-map_range f d j zero i h = absurd (omega arith)
get_or-map_range f d j (suc n) zero h = ground arith
get_or-map_range f d j (suc n) (suc i) h =
    ground (arith, get_or-map_range f d (suc j) n i (omega arith))

module _ (size : ℕ) where
  row : ℕ → List ℕ
  row r = map (λ c. r * size + c + 1) (range size)

  length-row : (r : ℕ) → length (row r) ≡ size
  unfolding row
  length-row r = length-map _ (range size) ∙ length-range_from 0 size

  rows_columns : (i k : ℕ) → All (λ r. length r ≡ size) (map row (range_from i k))
  rows_columns i zero = tt
  rows_columns i (suc k) = (length-row i, rows_columns (suc i) k)

  same_sums :
      (w : ℕ → ℕ) (r : ℕ) (cs : List ℕ)
      → sum_by (λ c. w (r * size + c + 1)) cs ≡ sum_by (λ c. w (r * size + 1 + c)) cs
  same_sums w r [] = refl
  same_sums w r (c ∷ cs) =
      let swap : r * size + c + 1 ≡ r * size + 1 + c = omega arith in
      omega (arith, ap w swap, same_sums w r cs)

  sum_by-row : (w : ℕ → ℕ) (r : ℕ) → sum_by w (row r) ≡ sum_by w (range_from (r * size + 1) size)
  unfolding row
  sum_by-row w r =
      let start : r * size + 1 + 0 ≡ r * size + 1 = omega arith in
      let shifted : sum_by (λ c. w (r * size + 1 + c)) (range size)
          ≡ sum_by w (range_from (r * size + 1) size) =
        rw start at (sum_by-shift w (r * size + 1) 0 size) in
      sum_by-map w (λ c. r * size + c + 1) (range size) ∙ same_sums w r (range size) ∙ shifted

  sum_by-rows :
      (w : ℕ → ℕ) (i k : ℕ)
      → sum_by w (flatten (map row (range_from i k)))
        ≡ sum_by w (range_from (i * size + 1) (k * size))
  unfolding flatten
  sum_by-rows w i zero = let none : 0 * size ≡ 0 = omega arith in rw none refl
  sum_by-rows w i (suc k) =
      let many : suc k * size ≡ size + k * size = omega arith in
      let start : suc i * size + 1 ≡ i * size + 1 + size = omega arith in
      let rest : sum_by w (flatten (map row (range_from (suc i) k)))
          ≡ sum_by w (range_from (i * size + 1 + size) (k * size)) =
        rw start at (sum_by-rows w (suc i) k) in
      rw many (
        omega (
          arith,
          sum_by-append w (row i) (flatten (map row (range_from (suc i) k))),
          sum_by-row w i,
          rest,
          sum_by-range_from w (i * size + 1) size (k * size),
        ))

numbered-IsSquare : (size : ℕ) → IsSquare size (numbered size)
unfolding numbered row
numbered-IsSquare size = record {
  rows = length-map _ (range size) ∙ length-range_from 0 size;
  columns = rows_columns size 0 size;
}

cell-numbered : (n : ℕ) → cell (numbered (suc n)) (n, n) ≡ suc n * suc n
unfolding cell numbered row
cell-numbered n =
    rw
      (
        get_or-map_range (λ r. map (λ c. r * suc n + c + 1) (range (suc n))) [] 0 (suc n) n
            (omega arith),
        get_or-map_range (λ c. (0 + n) * suc n + c + 1) 0 0 (suc n) n (omega arith),
      )
      (omega arith)

-- The numbers in their order, with the last replaced by 0.
pub solved-IsBoard : (n : ℕ) → IsBoard (suc n) (write (n, n) 0 (numbered (suc n))) (n, n)
unfolding numbered row
solved-IsBoard n = record {
  square = write-IsSquare square inside 0;
  within = inside;
  blank = cell-write square inside 0;
  tiles = λ w.
      let start : 0 * suc n + 1 ≡ 1 = omega arith in
      let all_rows : sum_by w (flatten (numbered (suc n)))
          ≡ sum_by w (range_from 1 (suc n * suc n)) =
        rw start at (sum_by-rows (suc n) w 0 (suc n)) in
      omega (
        arith,
        sum_by-write square inside w 0,
        ap w (cell-numbered n),
        all_rows,
        last w (suc n * suc n),
      );
}
  where
    square : IsSquare (suc n) (numbered (suc n))
    square = numbered-IsSquare (suc n)

    inside : IsWithin (suc n) (n, n)
    inside = (omega arith, omega arith)

    last : (w : ℕ → ℕ) (m : ℕ) → sum_by w (range m) + w m ≡ w 0 + sum_by w (range_from 1 m)
    last w m = omega (arith, ap (sum_by w) (range-snoc m), sum_by-append w (range m) (m ∷ []))
