-- ===== src/Packing/Packer.antt =====
-- nemo_rl/data/packing/algorithms.py: `SequencePacker` without its two large methods, which
-- `Adjust` and `Pack` hold. Sequence lengths and the bin capacity are natural numbers.
use nemo_rl_submission.Prelude.{
  ℕ, zero, suc, ◌+◌, ◌-◌, ◌/◌, ◌≤◌, ◌<◌, max, ◌≡◌, refl, Bool, true, Option, none, some, List, [],
  ◌∷◌, ◌++◌, flatten, arith, ltb, leb, ◌==◌, ◌&&◌, if◌then◌else◌, Bool-cases, ◌⊎◌, inl, inr, length,
  get_or, All, range, enumerate_from, sum_by, SameItems, sort, pair_ge, Result, ok, raise,
  value_error, raise_if, ◌>>◌, get_or-append_middle, append_snoc,
}
use nemo_rl_submission.Prelude.Int.{ℤ, pos, negsuc}

pub data PackingAlgorithm : Type 0 where
  concatenative first_fit_decreasing first_fit_shuffle modified_first_fit_decreasing :
      PackingAlgorithm

-- The object's fields; the metrics object is apart.
pub record SequencePacker : Type 0 where
  pub bin_capacity : ℕ
  pub min_bin_count : Option ℕ
  pub bin_count_multiple : Option ℕ

-- `min_bin_count < 0` is refused.
unfoldable pub check_min_bin_count : Option ℤ → Result (Option ℕ)
check_min_bin_count none = ok none
check_min_bin_count (some (pos n)) = ok (some n)
check_min_bin_count (some (negsuc n)) = raise value_error

-- `bin_count_multiple < 1` is refused.
unfoldable pub check_bin_count_multiple : Option ℤ → Result (Option ℕ)
check_bin_count_multiple none = ok none
check_bin_count_multiple (some (pos zero)) = raise value_error
check_bin_count_multiple (some (pos (suc n))) = ok (some (suc n))
check_bin_count_multiple (some (negsuc n)) = raise value_error

-- `_validate_sequence_lengths`.
unfoldable pub validate_sequence_lengths : ℕ → List ℕ → Result (Unit {0})
validate_sequence_lengths bin_capacity [] = ok tt
validate_sequence_lengths bin_capacity (l ∷ ls) =
    raise_if (ltb bin_capacity l) value_error >> validate_sequence_lengths bin_capacity ls

-- `_create_indexed_lengths`.
unfoldable pub create_indexed_lengths : List ℕ → Bool → List (ℕ × ℕ)
unfolding sort
create_indexed_lengths lens reverse =
    if reverse then sort pair_ge (enumerate_from 0 lens) else enumerate_from 0 lens

-- `math.ceil(total / capacity)` for a positive capacity; a capacity of 0 raises in the source.
unfoldable pub estimate_bins_needed : ℕ → List ℕ → ℕ
estimate_bins_needed bin_capacity lens =
    max 1 ((sum_by (λ l. l) lens + bin_capacity - 1) / bin_capacity)

-- What a bin of indices weighs.
abbrev pub load : List ℕ → List ℕ → ℕ
load lens b = sum_by (λ i. get_or lens i 0) b

-- A packing: the bins together hold each index once and nothing else, none is over its capacity,
-- and none is empty.
pub record IsPacking (bin_capacity : ℕ) (lens : List ℕ) (bins : List (List ℕ)) : Type 0 where
  pub same : SameItems (flatten bins) (range (length lens))
  pub fits : All (λ b. load lens b ≤ bin_capacity) bins
  pub filled : All (λ b. 0 < length b) bins

-- A pair that the enumeration of the lengths may hold, within the capacity.
abbrev pub is_entry : ℕ → List ℕ → ℕ × ℕ → Bool
is_entry bin_capacity lens (l, i) = get_or lens i 0 == l && leb l bin_capacity

pub validate_cases :
    (capacity : ℕ) (lens : List ℕ)
    → (validate_sequence_lengths capacity lens ≡ ok tt) × All (λ l. l ≤ capacity) lens
      ⊎ (validate_sequence_lengths capacity lens ≡ raise value_error)
        × ¬ All (λ l. l ≤ capacity) lens
unfolding validate_sequence_lengths
validate_cases capacity [] = inl (refl, tt)
validate_cases capacity (l ∷ ls) = elim (Bool-cases (ltb capacity l)) [
  | inl over ↦ inr (ground arith, λ h. ground (arith, h.0))
  | inr under ↦ elim (validate_cases capacity ls) [
    | inl (e, h) ↦ inl (ground arith, (ground arith, h))
    | inr (e, n) ↦ inr (ground arith, λ h. n h.1)
  ]
]

-- Each pair of the enumeration holds a sequence's length and index.
pub enumerate-is_entry :
    (capacity : ℕ) (pre xs : List ℕ)
    → All (λ l. l ≤ capacity) xs
    → All (λ e. is_entry capacity (pre ++ xs) e ≡ true) (enumerate_from (length pre) xs)
enumerate-is_entry capacity pre [] h = tt
enumerate-is_entry capacity pre (x ∷ xs) h = (
  ground (arith, get_or-append_middle pre xs x 0, h.0),
  append_snoc (λ l n. All (λ e. is_entry capacity l e ≡ true) (enumerate_from n xs)) pre x xs
      (enumerate-is_entry capacity (pre ++ x ∷ []) xs h.1),
)
