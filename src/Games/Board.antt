-- ===== src/Games/Board.antt =====
-- Square grids as lists of rows, which nemo_rl/environments/games/sliding_puzzle.py reads and writes
-- by `grid[r][c]`.
use nemo_rl_submission.Prelude.{
  ℕ, zero, suc, ◌+◌, ◌*◌, ◌<◌, ◌≡◌, ◌≢◌, refl, ◌∙◌, ap, List, [], ◌∷◌, flatten, arith, ◌==◌, length,
  get_or, set, length-set, All, All-set, All-get_or, sum_by, range, SameItems, get_or-set,
  sum_by-flatten, sum_by-set, Bool-cases, inl, inr,
}

abbrev pub Position : Type 0
Position = ℕ × ℕ

abbrev pub Grid : Type 0
Grid = List (List ℕ)

-- `grid[r][c]`.
unfoldable pub cell : Grid → Position → ℕ
cell g p = get_or (get_or g p.0 []) p.1 0

-- `grid[r][c] = v`.
unfoldable pub write : Position → ℕ → Grid → Grid
write p v g = set g p.0 (set (get_or g p.0 []) p.1 v)

-- Each row is as long as there are rows.
pub record IsSquare (size : ℕ) (g : Grid) : Type 0 where
  pub rows : length g ≡ size
  pub columns : All (λ row. length row ≡ size) g

abbrev pub IsWithin : ℕ → Position → Type 0
IsWithin size p = (p.0 < size) × (p.1 < size)

-- A square of the numbers from 0 on, each once, with 0 at the given position.
pub record IsBoard (size : ℕ) (g : Grid) (empty : Position) : Type 0 where
  pub square : IsSquare size g
  pub within : IsWithin size empty
  pub blank : cell g empty ≡ 0
  pub tiles : SameItems (flatten g) (range (size * size))

module _ {ℓ} {A : Type ℓ} where
  set-same : (xs : List A) (i : ℕ) (d : A) → set xs i (get_or xs i d) ≡ xs
  set-same [] i d = refl
  set-same (x ∷ xs) zero d = refl
  set-same (x ∷ xs) (suc i) d = ap (◌∷◌ x) (set-same xs i d)

  set-set : (xs : List A) (i : ℕ) (v w : A) → set (set xs i v) i w ≡ set xs i w
  set-set [] i v w = refl
  set-set (x ∷ xs) zero v w = refl
  set-set (x ∷ xs) (suc i) v w = ap (◌∷◌ x) (set-set xs i v w)

  get_or-set_here : (xs : List A) (i : ℕ) (v d : A) → i < length xs → get_or (set xs i v) i d ≡ v
  get_or-set_here xs i v d h = ground (arith, get_or-set xs i i v d h)

pub write-cell : (p : Position) (g : Grid) → write p (cell g p) g ≡ g
unfolding write cell
write-cell p g = rw (set-same (get_or g p.0 []) p.1 0, set-same g p.0 [])

module _ {size : ℕ} {g : Grid} (k : IsSquare size g) {p : Position} (inside : IsWithin size p) where
  row_bound : p.0 < length g
  row_bound = omega (arith, k.rows, inside.0)

  column_bound : p.1 < length (get_or g p.0 [])
  column_bound =
      omega (arith, All-get_or (λ row. length row ≡ size) g p.0 [] row_bound k.columns, inside.1)

  pub cell-write : (v : ℕ) → cell (write p v g) p ≡ v
  unfolding cell write
  cell-write v = rw (
    get_or-set_here g p.0 (set (get_or g p.0 []) p.1 v) [] row_bound,
    get_or-set_here (get_or g p.0 []) p.1 v 0 column_bound,
  )

  pub write-write : (v w : ℕ) → write p w (write p v g) ≡ write p w g
  unfolding write
  write-write v w = rw (
    get_or-set_here g p.0 (set (get_or g p.0 []) p.1 v) [] row_bound,
    set-set (get_or g p.0 []) p.1 v w,
    set-set g p.0 (set (get_or g p.0 []) p.1 v) (set (get_or g p.0 []) p.1 w),
  )

  pub cell-write_other : (v : ℕ) (q : Position) → p ≢ q → cell (write p v g) q ≡ cell g q
  unfolding cell write
  cell-write_other v (r, c) apart = elim (Bool-cases (r == p.0)) [
    | inr rows ↦ rw (get_or-set g p.0 r (set (get_or g p.0 []) p.1 v) [] row_bound, rows)
    | inl row ↦ elim (Bool-cases (c == p.1)) [
      | inl column ↦ absurd (apart (ground (arith, row, column)))
      | inr column ↦
          rw
            (
              get_or-set g p.0 r (set (get_or g p.0 []) p.1 v) [] row_bound,
              row,
              get_or-set (get_or g p.0 []) p.1 c v 0 column_bound,
              column,
            )
            (ground (arith, row))
    ]
  ]

  pub sum_by-write :
      (w : ℕ → ℕ) (v : ℕ)
      → sum_by w (flatten (write p v g)) + w (cell g p) ≡ sum_by w (flatten g) + w v
  unfolding cell write
  sum_by-write w v = omega (
    arith,
    sum_by-flatten w g,
    sum_by-flatten w (set g p.0 (set (get_or g p.0 []) p.1 v)),
    sum_by-set (sum_by w) g p.0 (set (get_or g p.0 []) p.1 v) [] row_bound,
    sum_by-set w (get_or g p.0 []) p.1 v 0 column_bound,
  )

  pub write-IsSquare : (v : ℕ) → IsSquare size (write p v g)
  unfolding write
  write-IsSquare v = record {
    rows = length-set g p.0 _ ∙ k.rows;
    columns = All-set _ g p.0 _ k.columns (
        length-set (get_or g p.0 []) p.1 v
        ∙ All-get_or (λ row. length row ≡ size) g p.0 [] row_bound k.columns);
  }
