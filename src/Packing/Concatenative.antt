-- ===== src/Packing/Concatenative.antt =====
-- nemo_rl/data/packing/algorithms.py: `ConcatenativePacker`.
pub mod Laws
use nemo_rl_submission.Prelude.{
  ℕ, ◌+◌, Bool, false, Option, none, some, List, [], ◌∷◌, ◌++◌, ◌||◌, ltb, leb, if◌then◌else◌,
  length, enumerate_from, Result, ok, ◌>>◌,
}
use nemo_rl_submission.Packing.Packer.{validate_sequence_lengths}

-- The three variables of the loop.
pub record Filling : Type 0 where
  pub bins : List (List ℕ)
  pub current_bin : List ℕ
  pub current_length : ℕ

-- `max_sequences_per_bin`, where `none` stands for -1.
unfoldable pub exceeds_sequence_limit : Option ℕ → List ℕ → Bool
exceeds_sequence_limit none current_bin = false
exceeds_sequence_limit (some n) current_bin = leb n (length current_bin)

-- `if current_bin: bins.append(current_bin)`.
unfoldable pub close_bin : List (List ℕ) → List ℕ → List (List ℕ)
close_bin bins [] = bins
close_bin bins (i ∷ is) = bins ++ (i ∷ is) ∷ []

-- The body of the loop.
unfoldable pub add_sequence : ℕ → Option ℕ → ℕ × ℕ → Filling → Filling
unfolding close_bin exceeds_sequence_limit
add_sequence bin_capacity limit (l, i) s =
    if ltb bin_capacity (s.current_length + l) || exceeds_sequence_limit limit s.current_bin
    then record { bins = close_bin s.bins s.current_bin; current_bin = i ∷ []; current_length = l }
    else record s { current_bin = s.current_bin ++ i ∷ []; current_length = s.current_length + l }

unfoldable pub fill : ℕ → Option ℕ → List (ℕ × ℕ) → Filling → Filling
unfolding add_sequence
fill bin_capacity limit [] s = s
fill bin_capacity limit (e ∷ es) s =
    fill bin_capacity limit es (add_sequence bin_capacity limit e s)

abbrev pub empty : Filling
empty = record { bins = []; current_bin = []; current_length = 0 }

-- `ConcatenativePacker._pack_implementation`.
unfoldable pub pack_concatenative : ℕ → Option ℕ → List ℕ → Result (List (List ℕ))
unfolding fill validate_sequence_lengths
pack_concatenative bin_capacity limit lens = do
  validate_sequence_lengths bin_capacity lens
  let s = fill bin_capacity limit (enumerate_from 0 lens) empty
  ok (close_bin s.bins s.current_bin)
