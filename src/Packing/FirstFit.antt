-- ===== src/Packing/FirstFit.antt =====
-- nemo_rl/data/packing/algorithms.py: `FirstFitPacker` and its two subclasses.
mod Laws
pub mod Packs
pub mod Decreasing
pub mod Approximation
use nemo_rl_submission.Prelude.{
  ℕ, suc, ◌-◌, ltb, leb, if◌then◌else◌, Option, none, some, List, [], ◌∷◌, ◌++◌, length, get_or,
  set, enumerate_from, sort, pair_ge, Result, ok, raise, value_error, ◌>>=◌,
}

-- The two lists of the loop, side by side.
pub record Bins : Type 0 where
  pub bins : List (List ℕ)
  pub bin_remaining : List ℕ

-- The inner loop: the first bin from `i` on with room for the sequence.
unfoldable pub find_fit : ℕ → ℕ → List ℕ → Option ℕ
find_fit l i [] = none
find_fit l i (remaining ∷ rest) = if leb l remaining then some i else find_fit l (suc i) rest

-- The body of the outer loop.
unfoldable pub place : ℕ → ℕ × ℕ → Bins → Result Bins
unfolding find_fit
place bin_capacity (l, idx) s =
    if ltb bin_capacity l
    then raise value_error
    else ok (elim (find_fit l 0 s.bin_remaining) [
      | some i ↦ record {
        bins = set s.bins i (get_or s.bins i [] ++ idx ∷ []);
        bin_remaining = set s.bin_remaining i (get_or s.bin_remaining i 0 - l);
      }
      | none ↦ record {
        bins = s.bins ++ (idx ∷ []) ∷ [];
        bin_remaining = s.bin_remaining ++ (bin_capacity - l) ∷ [];
      }
    ])

unfoldable pub place_all : ℕ → List (ℕ × ℕ) → Bins → Result Bins
unfolding place
place_all bin_capacity [] s = ok s
place_all bin_capacity (e ∷ es) s = do s' ← place bin_capacity e s; place_all bin_capacity es s'

-- `FirstFitPacker._pack_implementation`, for a way to prepare the sequences.
unfoldable pub pack_first_fit : (List (ℕ × ℕ) → List (ℕ × ℕ)) → ℕ → List ℕ → Result (List (List ℕ))
unfolding place_all
pack_first_fit prepare bin_capacity lens = do
  s ←
      place_all bin_capacity (prepare (enumerate_from 0 lens))
        (record { bins = []; bin_remaining = [] })
  ok s.bins

-- `FirstFitDecreasingPacker._prepare_sequences`: longest first, ties by the larger index first.
unfoldable pub pack_first_fit_decreasing : ℕ → List ℕ → Result (List (List ℕ))
unfolding pack_first_fit sort
pack_first_fit_decreasing bin_capacity lens = pack_first_fit (sort pair_ge) bin_capacity lens

-- `FirstFitShufflePacker._prepare_sequences`. What `random.shuffle` does is an argument.
unfoldable pub pack_first_fit_shuffle :
    (List (ℕ × ℕ) → List (ℕ × ℕ)) → ℕ → List ℕ → Result (List (List ℕ))
unfolding pack_first_fit
pack_first_fit_shuffle shuffle bin_capacity lens = pack_first_fit shuffle bin_capacity lens
