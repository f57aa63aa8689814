-- ===== src/Packing/Tests.antt =====
-- Runs of the packers, and their theorems at concrete inputs.
use nemo_rl_submission.Prelude.{
  IsDecreasing, ℕ, ◌*◌, ◌≤◌, ◌<◌, ◌≡◌, refl, ◌⊎◌, true, none, some, List, [], ◌∷◌, flatten, arith,
  length, All, range, sort, sort-SameItems, pair_ge, ok, raise, value_error,
}
use nemo_rl_submission.Prelude.Int.{pos}
use nemo_rl_submission.Prelude.Text.{codes}
use nemo_rl_submission.Packing.Packer.{
  SequencePacker, IsPacking, estimate_bins_needed, create_indexed_lengths, first_fit_decreasing,
}
use nemo_rl_submission.Packing.Concatenative.{pack_concatenative}
use nemo_rl_submission.Packing.Concatenative.Laws.{pack_concatenative-IsPacking}
use nemo_rl_submission.Packing.FirstFit.{
  pack_first_fit, pack_first_fit_decreasing, pack_first_fit_shuffle,
}
use nemo_rl_submission.Packing.FirstFit.Decreasing.{sequences, pack_first_fit_decreasing_outcome}
use nemo_rl_submission.Packing.FirstFit.Packs.{pack_first_fit_shuffle_outcome}
use nemo_rl_submission.Packing.FirstFit.Approximation.{pack_first_fit_two_approx}
use nemo_rl_submission.Packing.Modified.{pack_modified}
use nemo_rl_submission.Packing.Modified.Packs.{pack_modified-IsPacking}
use nemo_rl_submission.Packing.Adjust.{target_bin_count, adjust_bin_count}
use nemo_rl_submission.Packing.Adjust.Target.{MeetsConstraints, target_bin_count_least}
use nemo_rl_submission.Packing.Adjust.Outcome.{adjust_bin_count_outcome}
use nemo_rl_submission.Packing.Pack.{Packer, name, get_packer, pack_implementation, pack}
use nemo_rl_submission.Packing.Pack.Outcome.{pack_outcome}

abbrev lengths : List ℕ
lengths = 4 ∷ 1 ∷ 3 ∷ 2 ∷ 1 ∷ 3 ∷ 4 ∷ 5 ∷ []

-- The example of the class's docstring.
concatenative_example :
    pack_concatenative 5 none lengths
    ≡ ok ((0 ∷ 1 ∷ []) ∷ (2 ∷ 3 ∷ []) ∷ (4 ∷ 5 ∷ []) ∷ (6 ∷ []) ∷ (7 ∷ []) ∷ [])
unfolding pack_concatenative
concatenative_example = refl

decreasing_example :
    pack_first_fit_decreasing 5 lengths
    ≡ ok ((7 ∷ []) ∷ (6 ∷ 4 ∷ []) ∷ (0 ∷ 1 ∷ []) ∷ (5 ∷ 3 ∷ []) ∷ (2 ∷ []) ∷ [])
unfolding pack_first_fit_decreasing
decreasing_example = refl

modified_example :
    pack_modified 12 (7 ∷ 5 ∷ 4 ∷ 3 ∷ 8 ∷ 1 ∷ [])
    ≡ ok ((4 ∷ 2 ∷ []) ∷ (0 ∷ 1 ∷ []) ∷ (3 ∷ 5 ∷ []) ∷ [])
unfolding pack_modified
modified_example = refl

estimate_example : estimate_bins_needed 5 lengths ≡ 5
unfolding estimate_bins_needed
estimate_example = refl

indexed_example : create_indexed_lengths (2 ∷ 9 ∷ 2 ∷ []) true ≡ (9, 1) ∷ (2, 2) ∷ (2, 0) ∷ []
unfolding create_indexed_lengths
indexed_example = refl

abbrev settings : SequencePacker
settings = record { bin_capacity = 5; min_bin_count = some 2; bin_count_multiple = some 4 }

abbrev pairs : List (List ℕ)
pairs = (0 ∷ 1 ∷ []) ∷ (2 ∷ 3 ∷ []) ∷ []

abbrev short : List ℕ
short = 4 ∷ 1 ∷ 3 ∷ 2 ∷ []

pairs-IsPacking : IsPacking 5 short pairs
unfolding flatten
pairs-IsPacking = record { same = λ w. refl; fits = omega arith; filled = omega arith }

adjusted_example :
    adjust_bin_count settings pairs ≡ ok ((0 ∷ []) ∷ (2 ∷ []) ∷ (3 ∷ []) ∷ (1 ∷ []) ∷ [])
unfolding adjust_bin_count
adjusted_example = refl

abbrev quads : Packer
quads = record { algorithm = first_fit_decreasing; settings = settings }

quads_made :
    get_packer (name (codes "First_Fit_Decreasing")) 5 (some (pos 2)) (some (pos 4)) ≡ ok quads
unfolding get_packer
quads_made = refl

refused : get_packer (name (codes "worst_fit")) 5 none none ≡ raise value_error
unfolding get_packer
refused = refl

refused_multiple :
    get_packer (name (codes "concatenative")) 5 none (some (pos 0)) ≡ raise value_error
unfolding get_packer
refused_multiple = refl

pack_outcome_example :
    ((bins : List (List ℕ)) × (pack (sort pair_ge) none quads short ≡ ok bins)
      × IsPacking 5 short bins
      × MeetsConstraints settings (length bins))
    ⊎ ((pack (sort pair_ge) none quads short ≡ raise value_error)
        × ((first : List (List ℕ)) × (pack_implementation (sort pair_ge) none quads short
              ≡ ok first)
            × ((k : ℕ)
                → (k < length first) ⊎ (¬ MeetsConstraints settings k) ⊎ (length short < k))))
pack_outcome_example =
    pack_outcome (sort pair_ge) (sort-SameItems pair_ge) none (name (codes "First_Fit_Decreasing"))
      5 (some (pos 2)) (some (pos 4)) quads short quads_made (omega arith) (omega arith)
      (omega arith)

pack_first_fit_two_approx_example :
    (bins : List (List ℕ)) × (pack_first_fit (λ es. es) 5 short ≡ ok bins)
    × (length bins ≤ 2 * length pairs)
pack_first_fit_two_approx_example =
    pack_first_fit_two_approx (λ es. es) (λ es w. refl) 5 short pairs (omega arith) pairs-IsPacking

adjust_bin_count_outcome_example :
    ((target_bin_count settings 2 ≤ 4)
      × ((adjusted : List (List ℕ)) × (adjust_bin_count settings pairs ≡ ok adjusted)
          × IsPacking 5 short adjusted
          × (length adjusted ≡ target_bin_count settings 2)))
    ⊎ ((4 < target_bin_count settings 2) × (adjust_bin_count settings pairs ≡ raise value_error))
adjust_bin_count_outcome_example =
    adjust_bin_count_outcome settings short pairs (omega arith) pairs-IsPacking

target_bin_count_least_example :
    (2 ≤ target_bin_count settings 2)
    × MeetsConstraints settings (target_bin_count settings 2)
    × ((k : ℕ) → (target_bin_count settings 2 ≤ k) ⊎ (k < 2) ⊎ (¬ MeetsConstraints settings k))
target_bin_count_least_example = target_bin_count_least settings 2 (omega arith)

pack_modified-IsPacking_example :
    (bins : List (List ℕ)) × (pack_modified 5 short ≡ ok bins) × IsPacking 5 short bins
pack_modified-IsPacking_example =
    pack_modified-IsPacking 5 short (omega arith) (omega arith) (omega arith)

pack_concatenative-IsPacking_example :
    (bins : List (List ℕ)) × (pack_concatenative 5 (some 1) short ≡ ok bins)
    × (flatten bins ≡ range 4)
    × IsPacking 5 short bins
pack_concatenative-IsPacking_example = pack_concatenative-IsPacking 5 short (some 1) (omega arith)

pack_first_fit_decreasing_outcome_example :
    (All (λ l. l ≤ 5) short
      × ((bins : List (List ℕ)) × (pack_first_fit_decreasing 5 short ≡ ok bins)
          × IsPacking 5 short bins
          × All (λ b. IsDecreasing (sequences short b)) bins))
    ⊎ ((¬ All (λ l. l ≤ 5) short) × (pack_first_fit_decreasing 5 short ≡ raise value_error))
pack_first_fit_decreasing_outcome_example = pack_first_fit_decreasing_outcome 5 short

pack_first_fit_shuffle_outcome_example :
    (All (λ l. l ≤ 5) short
      × ((bins : List (List ℕ)) × (pack_first_fit_shuffle (λ es. es) 5 short ≡ ok bins)
          × IsPacking 5 short bins))
    ⊎ ((¬ All (λ l. l ≤ 5) short) × (pack_first_fit_shuffle (λ es. es) 5 short ≡ raise value_error))
pack_first_fit_shuffle_outcome_example =
    pack_first_fit_shuffle_outcome (λ es. es) (λ es w. refl) 5 short
