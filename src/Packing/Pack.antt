-- ===== src/Packing/Pack.antt =====
-- nemo_rl/data/packing/algorithms.py: `get_packer` and `SequencePacker.pack`.
pub mod Outcome
use nemo_rl_submission.Prelude.{
  ℕ, Bool, Option, none, some, List, [], ◌∷◌, if◌then◌else◌, Result, ok, raise, value_error, ◌>>=◌,
}
use nemo_rl_submission.Prelude.Int.{ℤ}
use nemo_rl_submission.Prelude.Text.{Text, codes, text_eq, upper}
use nemo_rl_submission.Packing.Packer.{
  PackingAlgorithm, concatenative, first_fit_decreasing, first_fit_shuffle,
  modified_first_fit_decreasing, SequencePacker, check_min_bin_count, check_bin_count_multiple,
}
use nemo_rl_submission.Packing.Concatenative.{pack_concatenative}
use nemo_rl_submission.Packing.FirstFit.{pack_first_fit_decreasing, pack_first_fit_shuffle}
use nemo_rl_submission.Packing.Modified.{pack_modified}
use nemo_rl_submission.Packing.Adjust.{adjust_bin_count}

-- The argument of `get_packer`: a member of the enumeration or its name.
pub data AlgorithmName : Type 0 where
  member : PackingAlgorithm → AlgorithmName
  name : Text → AlgorithmName

-- `PackingAlgorithm[algorithm.upper()]`, with the KeyError turned into a ValueError.
unfoldable pub resolve_algorithm : AlgorithmName → Result PackingAlgorithm
unfolding text_eq upper
resolve_algorithm (member algorithm) = ok algorithm
resolve_algorithm (name s) =
    if text_eq (upper s) (codes "CONCATENATIVE")
    then ok concatenative
    else if text_eq (upper s) (codes "FIRST_FIT_DECREASING")
    then ok first_fit_decreasing
    else if text_eq (upper s) (codes "FIRST_FIT_SHUFFLE")
    then ok first_fit_shuffle
    else if text_eq (upper s) (codes "MODIFIED_FIRST_FIT_DECREASING")
    then ok modified_first_fit_decreasing
    else raise value_error

-- The object that `get_packer` returns: its class and its fields.
pub record Packer : Type 0 where
  pub algorithm : PackingAlgorithm
  pub settings : SequencePacker

-- `get_packer`, with the checks of `SequencePacker.__init__`.
unfoldable pub get_packer : AlgorithmName → ℕ → Option ℤ → Option ℤ → Result Packer
unfolding resolve_algorithm check_min_bin_count check_bin_count_multiple
get_packer algorithm bin_capacity min_bin_count bin_count_multiple = do
  class ← resolve_algorithm algorithm
  least ← check_min_bin_count min_bin_count
  multiple ← check_bin_count_multiple bin_count_multiple
  ok (record {
    algorithm = class;
    settings = record {
      bin_capacity = bin_capacity;
      min_bin_count = least;
      bin_count_multiple = multiple;
    };
  })

module _ (shuffle : List (ℕ × ℕ) → List (ℕ × ℕ)) (limit : Option ℕ) where
  -- `_pack_implementation` of the packer's class.
  unfoldable pub pack_implementation : Packer → List ℕ → Result (List (List ℕ))
  unfolding pack_concatenative pack_first_fit_decreasing pack_first_fit_shuffle pack_modified
  pack_implementation packer lens = elim packer.algorithm [
    | concatenative ↦ pack_concatenative packer.settings.bin_capacity limit lens
    | first_fit_decreasing ↦ pack_first_fit_decreasing packer.settings.bin_capacity lens
    | first_fit_shuffle ↦ pack_first_fit_shuffle shuffle packer.settings.bin_capacity lens
    | modified_first_fit_decreasing ↦ pack_modified packer.settings.bin_capacity lens
  ]

  -- `SequencePacker.pack` without the metrics.
  unfoldable pub pack : Packer → List ℕ → Result (List (List ℕ))
  unfolding adjust_bin_count
  pack packer lens = do
    bins ← pack_implementation packer lens
    adjust_bin_count packer.settings bins
