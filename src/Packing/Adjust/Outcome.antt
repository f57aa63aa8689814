-- ===== src/Packing/Adjust/Outcome.antt =====
-- The adjusted packing.
use mathlib.Core.Option
use native.Mathlib.Decide.{dec_le}
use nemo_rl_submission.Prelude.{
  ℕ, ◌+◌, ◌-◌, ◌≤◌, ◌<◌, ◌≡◌, sym, ◌∙◌, ap, List, [], ◌∷◌, map, arith, Bool-cases, inl, inr, ◌⊎◌,
  ltb, ◌==◌, ==_iff, if◌then◌else◌, length, length-map, length-range_from, enumerate-lt, All-map,
  ltb→lt, All-of_SameItems, sum_by-positions, get_or, All, range, enumerate_from, sum_by,
  sum_by-flatten, sum_by-length, sum_by_ext, sort-SameItems, pair_ge, count-range_from,
  sum_by-enumerate, ok, raise, value_error,
}
use nemo_rl_submission.Packing.Packer.{SequencePacker, IsPacking}
use nemo_rl_submission.Packing.Adjust.{target_bin_count, bin_sizes, adjust_bin_count}
use nemo_rl_submission.Packing.Adjust.Target.{target_bin_count_least}
use nemo_rl_submission.Packing.Adjust.Fill.{fill_new_lem}
use nemo_rl_submission.Packing.Adjust.Moves.{surplus, AreSources, uses}

bin_sizes-AreSources : (bins : List (List ℕ)) → AreSources bins (bin_sizes bins)
unfolding bin_sizes
bin_sizes-AreSources bins =
    let sizes = map (λ b. length b) bins in
    All-map (λ e below. ltb→lt e.1 (length bins) below) (bin_sizes bins)
      (All-of_SameItems (λ e. ltb e.1 (length bins)) _ _
        (sort-SameItems pair_ge (enumerate_from 0 sizes))
        (enumerate-lt 0 (length bins) sizes
          (omega (arith, length-map {0, 0} (λ b. length b) bins))))

-- What a weight of the indices sums to over the sources.
bin_sizes-sum :
    (w : ℕ → ℕ) (bins : List (List ℕ))
    → sum_by (λ e. w e.1) (bin_sizes bins) ≡ sum_by w (range (length bins))
unfolding bin_sizes
bin_sizes-sum w bins =
    sort-SameItems pair_ge (enumerate_from 0 (map (λ b. length b) bins)) (λ e. w e.1)
    ∙ sum_by-enumerate w 0 (map (λ b. length b) bins)
    ∙ ap (λ n. sum_by w (range n)) (length-map (λ b. length b) bins)

bin_sizes_once : (bins : List (List ℕ)) (j : ℕ) → uses j (bin_sizes bins) ≤ 1
bin_sizes_once bins j =
    ground
      (arith, bin_sizes-sum (λ k. if k == j then 1 else 0) bins, count-range_from j 0 (length bins))

spare :
    (bins : List (List ℕ))
    → sum_by (λ b. length b) bins ≤ sum_by (λ b. length b - 1) bins + length bins
spare [] = omega arith
spare (b ∷ bins) = omega (arith, spare bins)

surplus-bin_sizes :
    (bins : List (List ℕ)) → surplus bins (bin_sizes bins) ≡ sum_by (λ b. length b - 1) bins
surplus-bin_sizes bins =
    bin_sizes-sum (λ j. length (get_or bins j []) - 1) bins
    ∙ sum_by-positions (λ b. length b - 1) [] [] bins

pub sequence_count :
    (capacity : ℕ) (lens : List ℕ) (bins : List (List ℕ))
    → IsPacking capacity lens bins
    → sum_by (λ b. length b) bins ≡ length lens
sequence_count capacity lens bins p =
    sum_by_ext _ _ bins (All-map (λ b _. sym (sum_by-length b)) bins p.filled)
    ∙ sym (sum_by-flatten (λ _. 1) bins)
    ∙ p.same (λ _. 1)
    ∙ sum_by-length (range (length lens))
    ∙ length-range_from 0 (length lens)

pub filled_count :
    (bins : List (List ℕ))
    → All (λ b. 0 < length b) bins
    → length bins ≤ sum_by (λ b. length b) bins
filled_count [] k = omega arith
filled_count (b ∷ bins) k = omega (arith, k.0, filled_count bins k.1)

-- Adjusting a packing either gives exactly the target number of bins, which is then at most the
-- number of sequences, and what comes out is a packing of the same sequences; or it raises
-- ValueError, and then there are fewer sequences than the target. So the branch that the source
-- marks as a bug is never taken. The packer's multiple is positive.
pub adjust_bin_count_outcome :
    (packer : SequencePacker) (lens : List ℕ) (bins : List (List ℕ))
    → 0 < Option.get_or packer.bin_count_multiple 1
    → IsPacking packer.bin_capacity lens bins
    → ((target_bin_count packer (length bins) ≤ length lens)
        × ((adjusted : List (List ℕ)) × (adjust_bin_count packer bins ≡ ok adjusted)
            × IsPacking packer.bin_capacity lens adjusted
            × (length adjusted ≡ target_bin_count packer (length bins))))
      ⊎ ((length lens < target_bin_count packer (length bins))
          × (adjust_bin_count packer bins ≡ raise value_error))
unfolding adjust_bin_count
adjust_bin_count_outcome packer lens bins pos p = elim (dec_le target (length lens)) [
  | yes enough ↦ inl (
    enough,
    (elim (Bool-cases (target == length bins)) [
      | inl same ↦ (bins, rw same, p, sym ((==_iff target (length bins)).0 same))
      | inr more ↦
          let (adjusted, run, packs, many) =
            fill_new_lem packer.bin_capacity lens (target - length bins) bins (bin_sizes bins)
              (bin_sizes-AreSources bins) (bin_sizes_once bins)
              (omega (arith, total, spare bins, surplus-bin_sizes bins)) p in
          (adjusted, ground (arith, total, run), packs, omega (arith, many, low))
    ]),
  )
  | no few ↦ inr (omega arith, ground (arith, few, total, filled_count bins p.filled, low))
]
  where
    target : ℕ
    target = target_bin_count packer (length bins)

    total : sum_by (λ b. length b) bins ≡ length lens
    total = sequence_count packer.bin_capacity lens bins p

    low : length bins ≤ target
    low = (target_bin_count_least packer (length bins) pos).0
