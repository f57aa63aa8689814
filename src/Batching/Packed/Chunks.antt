-- ===== src/Batching/Packed/Chunks.antt =====
-- Packing one chunk of a batch for a number of shards.

use native.Mathlib.Decide.{dec_le}
use native.Mathlib.Nat.{mod-eq_of_lt}
use nemo_rl_submission.Prelude.{
  ℕ, zero, suc, ◌%◌, ◌≤◌, ◌<◌, ◌≡◌, ap, Option, some, List, inl, inr, arith, length, All, SameItems,
  ok, >>=-ok_parts,
}
use nemo_rl_submission.Prelude.Int.{pos}
use nemo_rl_submission.Packing.Packer.{IsPacking, check_min_bin_count, check_bin_count_multiple}
use nemo_rl_submission.Packing.Adjust.Outcome.{sequence_count, filled_count}
use nemo_rl_submission.Packing.Pack.{AlgorithmName, Packer, resolve_algorithm, get_packer, pack}
use nemo_rl_submission.Packing.Pack.Outcome.{pack_outcome, pack_implementation-IsPacking}

-- A packer for a number of shards.
pub record IsPackerFor (shards capacity : ℕ) (packer : Packer) : Type 0 where
  pub same_capacity : packer.settings.bin_capacity ≡ capacity
  pub least : packer.settings.min_bin_count ≡ some shards
  pub multiple : packer.settings.bin_count_multiple ≡ some shards

pub get_packer-IsPackerFor :
    (algorithm : AlgorithmName) (capacity shards : ℕ) (packer : Packer)
    → 0 < shards
    → get_packer algorithm capacity (some (pos shards)) (some (pos shards)) ≡ ok packer
    → IsPackerFor shards capacity packer
unfolding get_packer check_min_bin_count check_bin_count_multiple
get_packer-IsPackerFor algorithm capacity zero packer h made = absurd (omega arith)
get_packer-IsPackerFor algorithm capacity (suc n) packer h made =
    let (class, _, h1) = >>=-ok_parts (resolve_algorithm algorithm) _ made in
    record {
      same_capacity = ground (arith, h1);
      least = ground (arith, h1);
      multiple = ground (arith, h1);
    }

le_of_mod : (m n : ℕ) → 0 < n → n % m ≡ 0 → m ≤ n
le_of_mod m n h z = elim (dec_le m n) [
  | yes le ↦ le
  | no gt ↦ let same : n % m ≡ n = mod-eq_of_lt (omega arith) in absurd (omega arith)
]

module _ (shuffle : List (ℕ × ℕ) → List (ℕ × ℕ))
    (rearranges : (es : List (ℕ × ℕ)) → SameItems (shuffle es) es) (limit : Option ℕ) where
  -- Packing a chunk for a number of shards that divides the chunk's size never fails: for positive
  -- lengths within the capacity it gives a packing whose number of bins is a multiple of the number of
  -- shards and at least that.
  pub pack_chunk_outcome :
      (algorithm : AlgorithmName) (capacity shards : ℕ) (packer : Packer) (lens : List ℕ)
      → 0 < shards
      → get_packer algorithm capacity (some (pos shards)) (some (pos shards)) ≡ ok packer
      → 0 < capacity
      → 0 < length lens
      → length lens % shards ≡ 0
      → All (λ l. 0 < l) lens
      → All (λ l. l ≤ capacity) lens
      → (bins : List (List ℕ)) × (pack shuffle limit packer lens ≡ ok bins)
        × IsPacking capacity lens bins
        × (shards ≤ length bins)
        × (length bins % shards ≡ 0)
  pack_chunk_outcome algorithm capacity shards packer lens some_shards made p some_lens whole q
        fits =
      let k = get_packer-IsPackerFor algorithm capacity shards packer some_shards made in
      let same = k.same_capacity in
      let room : 0 < packer.settings.bin_capacity = omega (arith, same) in
      let fits' : All (λ l. l ≤ packer.settings.bin_capacity) lens = rw same fits in
      elim (pack_outcome shuffle rearranges limit algorithm capacity (some (pos shards))
        (some (pos shards)) packer lens made room q fits') [
          | inl (bins, run, packs, meets) ↦ (
            bins,
            run,
            rw same at packs,
            rw k.least at meets.enough,
            rw k.multiple at meets.multiple,
          )
          | inr (_, (first, run, never)) ↦
              let (first', run', packs) =
                pack_implementation-IsPacking shuffle rearranges limit packer lens room q fits' in
              let again : first' ≡ first = cc in
              let few : length first' ≤ length lens = omega (
                arith,
                filled_count first' packs.filled,
                sequence_count packer.settings.bin_capacity lens first' packs,
              ) in
              elim (never (length lens)) [
                | inl less ↦ absurd (omega (arith, few, less, ap (λ b. length b) again))
                | inr (inl unmet) ↦ absurd (
                    unmet (record {
                      enough = rw k.least (le_of_mod shards (length lens) some_lens whole);
                      multiple = rw k.multiple whole;
                    }))
                | inr (inr less) ↦ absurd (omega arith)
              ]
        ]
