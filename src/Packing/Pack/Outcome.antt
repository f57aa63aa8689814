-- ===== src/Packing/Pack/Outcome.antt =====
-- What `pack` promises of every packer that `get_packer` returns.
use mathlib.Core.Option
use nemo_rl_submission.Prelude.{
  ℕ, zero, suc, ◌≤◌, ◌<◌, ◌≡◌, Option, none, some, List, ◌⊎◌, inl, inr, arith, length, All,
  SameItems, ok, raise, value_error, >>=-ok_parts,
}
use nemo_rl_submission.Prelude.Int.{ℤ, pos, negsuc}
use nemo_rl_submission.Packing.Packer.{
  PackingAlgorithm, concatenative, first_fit_decreasing, first_fit_shuffle,
  modified_first_fit_decreasing, IsPacking, check_min_bin_count, check_bin_count_multiple,
}
use nemo_rl_submission.Packing.Concatenative.Laws.{pack_concatenative-IsPacking}
use nemo_rl_submission.Packing.FirstFit.Decreasing.{pack_first_fit_decreasing_outcome}
use nemo_rl_submission.Packing.FirstFit.Packs.{pack_first_fit_shuffle_outcome, succeeds}
use nemo_rl_submission.Packing.Modified.Packs.{pack_modified-IsPacking}
use nemo_rl_submission.Packing.Adjust.Target.{MeetsConstraints, target_bin_count_least}
use nemo_rl_submission.Packing.Adjust.Outcome.{adjust_bin_count_outcome}
use nemo_rl_submission.Packing.Pack.{
  AlgorithmName, Packer, resolve_algorithm, get_packer, pack_implementation, pack,
}

check_bin_count_multiple-pos :
    (m : Option ℤ) (k : Option ℕ) → check_bin_count_multiple m ≡ ok k → 0 < Option.get_or k 1
unfolding check_bin_count_multiple
check_bin_count_multiple-pos none k h = ground arith
check_bin_count_multiple-pos (some (pos zero)) k h = ground arith
check_bin_count_multiple-pos (some (pos (suc n))) k h = ground arith
check_bin_count_multiple-pos (some (negsuc n)) k h = ground arith

-- A packer that `get_packer` returns has a positive multiple, or none.
get_packer-pos :
    (algorithm : AlgorithmName) (capacity : ℕ) (least multiple : Option ℤ) (packer : Packer)
    → get_packer algorithm capacity least multiple ≡ ok packer
    → 0 < Option.get_or packer.settings.bin_count_multiple 1
unfolding get_packer
get_packer-pos algorithm capacity least multiple packer h =
    let (class, _, h1) = >>=-ok_parts (resolve_algorithm algorithm) _ h in
    let (low, _, h2) = >>=-ok_parts (check_min_bin_count least) _ h1 in
    let (many, e, h3) = >>=-ok_parts (check_bin_count_multiple multiple) _ h2 in
    ground (arith, h3, check_bin_count_multiple-pos multiple many e)

module _ (shuffle : List (ℕ × ℕ) → List (ℕ × ℕ))
    (rearranges : (es : List (ℕ × ℕ)) → SameItems (shuffle es) es) (limit : Option ℕ) where
  pub pack_implementation-IsPacking :
      (packer : Packer) (lens : List ℕ)
      → 0 < packer.settings.bin_capacity
      → All (λ l. 0 < l) lens
      → All (λ l. l ≤ packer.settings.bin_capacity) lens
      → (bins : List (List ℕ)) × (pack_implementation shuffle limit packer lens ≡ ok bins)
        × IsPacking packer.settings.bin_capacity lens bins
  unfolding pack_implementation
  pack_implementation-IsPacking packer lens p q fits = dispatch packer.algorithm
    where
      dispatch :
          (algorithm : PackingAlgorithm)
          → (bins : List (List ℕ)) × (pack_implementation shuffle limit
                (record packer { algorithm = algorithm })
                lens
              ≡ ok bins)
            × IsPacking packer.settings.bin_capacity lens bins
      dispatch concatenative =
          let (bins, run, _, packs) =
            pack_concatenative-IsPacking packer.settings.bin_capacity lens limit fits in
          (bins, run, packs)
      dispatch first_fit_decreasing =
          let (bins, run, packs, _) =
            succeeds fits (pack_first_fit_decreasing_outcome packer.settings.bin_capacity lens) in
          (bins, run, packs)
      dispatch first_fit_shuffle =
          succeeds fits
            (pack_first_fit_shuffle_outcome shuffle rearranges packer.settings.bin_capacity lens)
      dispatch modified_first_fit_decreasing =
          pack_modified-IsPacking packer.settings.bin_capacity lens p q fits

-- A packer that `get_packer` returns, given positive lengths that fit its capacity and a shuffle that keeps the items,
-- either returns a packing of all the sequences whose number of bins is at least the minimum and a multiple of the
-- multiple, or raises ValueError; and it raises only if every number of bins that meets the two constraints and is
-- no smaller than what its algorithm needs is larger than the number of sequences.
pub pack_outcome :
    (shuffle : List (ℕ × ℕ) → List (ℕ × ℕ))
    (rearranges : (es : List (ℕ × ℕ)) → SameItems (shuffle es) es) (limit : Option ℕ)
    (algorithm : AlgorithmName) (capacity : ℕ) (least multiple : Option ℤ) (packer : Packer)
    (lens : List ℕ)
    → get_packer algorithm capacity least multiple ≡ ok packer
    → 0 < packer.settings.bin_capacity
    → All (λ l. 0 < l) lens
    → All (λ l. l ≤ packer.settings.bin_capacity) lens
    → ((bins : List (List ℕ)) × (pack shuffle limit packer lens ≡ ok bins)
        × IsPacking packer.settings.bin_capacity lens bins
        × MeetsConstraints packer.settings (length bins))
      ⊎ ((pack shuffle limit packer lens ≡ raise value_error)
          × ((first : List (List ℕ)) × (pack_implementation shuffle limit packer lens ≡ ok first)
              × ((k : ℕ)
                  → (k < length first)
                    ⊎ (¬ MeetsConstraints packer.settings k)
                    ⊎ (length lens < k))))
unfolding pack
pack_outcome shuffle rearranges limit algorithm capacity least multiple packer lens made p q fits =
    let positive = get_packer-pos algorithm capacity least multiple packer made in
    let (first, run, packs) =
      pack_implementation-IsPacking shuffle rearranges limit packer lens p q fits in
    let (low, meets, smallest) = target_bin_count_least packer.settings (length first) positive in
    elim (adjust_bin_count_outcome packer.settings lens first positive packs) [
      | inl (enough, (bins, adjusted, packs', many)) ↦
          inl (bins, rw run adjusted, packs', rw many meets)
      | inr (few, raised) ↦ inr (
        rw run raised,
        (
          first,
          run,
          λ k. elim (smallest k) [
            | inl le ↦ inr (inr (omega (arith, few, le)))
            | inr (inl under) ↦ inl under
            | inr (inr unmet) ↦ inr (inl unmet)
          ],
        ),
      )
    ]
