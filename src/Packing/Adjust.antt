-- ===== src/Packing/Adjust.antt =====
-- nemo_rl/data/packing/algorithms.py: `SequencePacker._adjust_bin_count`.
pub mod Target
mod Moves
mod Fill
pub mod Outcome
use mathlib.Core.Option
use nemo_rl_submission.Prelude.{
  ℕ, zero, suc, ◌+◌, ◌-◌, ◌%◌, max, Option, none, some, List, [], ◌∷◌, ◌++◌, map, ltb, ◌==◌,
  if◌then◌else◌, length, get_or, set, replicate, enumerate_from, sum_by, sort, pair_ge, Result, ok,
  raise, value_error,
}
use nemo_rl_submission.Packing.Packer.{SequencePacker}

-- How many bins there have to be.
unfoldable pub target_bin_count : SequencePacker → ℕ → ℕ
target_bin_count packer current =
    let target : ℕ = elim packer.min_bin_count [ none ↦ current | some n ↦ max current n ] in
    elim packer.bin_count_multiple [
      | none ↦ target
      | some m ↦ if target % m == 0 then target else target + (m - target % m)
    ]

-- `l.pop()`: the list that stays, and the item that it returns.
unfoldable pub pop_rest : List ℕ → List ℕ
pop_rest [] = []
pop_rest (x ∷ []) = []
pop_rest (x ∷ y ∷ xs) = x ∷ pop_rest (y ∷ xs)

unfoldable pub popped : List ℕ → ℕ
popped [] = 0
popped (x ∷ []) = x
popped (x ∷ y ∷ xs) = popped (y ∷ xs)

-- Moves the last sequence of bin `i` to bin `new`.
unfoldable pub move_last : ℕ → ℕ → List (List ℕ) → List (List ℕ)
unfolding pop_rest popped
move_last i new bins =
    let rest = set bins i (pop_rest (get_or bins i [])) in
    set rest new (get_or rest new [] ++ popped (get_or bins i []) ∷ [])

-- The `while` loop: `sources` is `bin_sizes[source_bin_idx:]`. `none` is its `else` branch.
unfoldable pub take_source :
    ℕ → List (List ℕ) → List (ℕ × ℕ) → Option (List (List ℕ) × List (ℕ × ℕ))
take_source new bins [] = none
take_source new bins ((size, i) ∷ sources) =
    if ltb 1 (length (get_or bins i []))
    then some (move_last i new bins, (size, i) ∷ sources)
    else take_source new bins sources

-- The `for` loop over the new bins.
unfoldable pub fill_new : ℕ → ℕ → List (List ℕ) → List (ℕ × ℕ) → Result (List (List ℕ))
unfolding take_source
fill_new zero new bins sources = ok bins
fill_new (suc n) new bins sources = elim (take_source new bins sources) [
  | none ↦ raise value_error
  | some (bins', sources') ↦ fill_new n (suc new) bins' sources'
]

-- `bin_sizes`, sorted.
unfoldable pub bin_sizes : List (List ℕ) → List (ℕ × ℕ)
unfolding sort
bin_sizes bins = sort pair_ge (enumerate_from 0 (map (λ b. length b) bins))

unfoldable pub adjust_bin_count : SequencePacker → List (List ℕ) → Result (List (List ℕ))
unfolding target_bin_count fill_new move_last bin_sizes
adjust_bin_count packer bins =
    let current = length bins in
    let target = target_bin_count packer current in
    if target == current
    then ok bins
    else if ltb (sum_by (λ b. length b) bins) target
    then raise value_error
    else fill_new (target - current) current (bins ++ replicate (target - current) [])
        (bin_sizes bins)
