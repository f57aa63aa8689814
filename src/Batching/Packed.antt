-- ===== src/Batching/Packed.antt =====
-- nemo_rl/distributed/batched_data_dict.py: `shard_by_batch_size` with sequence packing. The packer is
-- the one of Packing/Pack.
pub mod Chunks
pub mod Dealt
use nemo_rl_submission.Prelude.{
  ℕ, zero, suc, ◌+◌, ◌-◌, ◌*◌, ◌/◌, ◌%◌, Bool, true, false, not, ◌&&◌, ◌||◌, Option, none, some,
  List, [], ◌∷◌, ◌++◌, map, flatten, ◌==◌, if◌then◌else◌, length, get_or, take, drop, range, sum_by,
  Result, ok, raise, raise_if, each, ◌>>=◌, ◌>>◌, assertion_error, index_error, zero_division_error,
}
use nemo_rl_submission.Prelude.Int.{pos}
use nemo_rl_submission.Prelude.Text.{Text}
use nemo_rl_submission.Packing.Pack.{AlgorithmName, Packer, get_packer, pack}
use nemo_rl_submission.Batching.Batch.{Column, BatchedDataDict, Rows, batch_size_of, select_indices}
use nemo_rl_submission.Batching.Pieces.{read_column, from_batches}
use nemo_rl_submission.Batching.Shards.{Sizes, sizes_of, strided, round_up}

pub record SequencePackingArgs : Type 0 where
  pub max_tokens_per_microbatch : ℕ
  pub input_lengths_key : Text
  pub algorithm : AlgorithmName
  pub sequence_length_pad_multiple : ℕ

-- The bins of one chunk as places of the whole batch.
unfoldable pub global_bins : Sizes → ℕ → List (List ℕ) → List (List ℕ)
global_bins z chunk_idx bins = map (map (λ i. i + chunk_idx * z.batch_size)) bins

-- The bins that a shard gets: the bin at place `i` goes to shard `i % shards`.
unfoldable pub shard_bins : ℕ → List (List ℕ) → ℕ → List (List ℕ)
unfolding strided
shard_bins shards bins shard_idx = strided (shards - 1) shard_idx bins

-- The microbatches of a shard in one chunk: consecutive spans, as long as the bins.
unfoldable pub spans : ℕ → List (List ℕ) → List (ℕ × ℕ)
spans start [] = []
spans start (bin ∷ bins) = (start, start + length bin) ∷ spans (start + length bin) bins

-- `[-1][1]` of the spans.
unfoldable pub last_end : List (ℕ × ℕ) → Result ℕ
last_end [] = raise index_error
last_end (s ∷ []) = ok s.1
last_end (s ∷ t ∷ ss) = last_end (t ∷ ss)

-- All chunks' bins, from chunk `i` on, as places of the batch.
unfoldable pub all_bins : Sizes → ℕ → List (List (List ℕ)) → List (List (List ℕ))
unfolding global_bins
all_bins z i [] = []
all_bins z i (bins ∷ chunks) = global_bins z i bins ∷ all_bins z (suc i) chunks

-- `batch_sorted_indices`: shard after shard, chunk after chunk, bin after bin.
unfoldable pub packed_indices : ℕ → List (List (List ℕ)) → List ℕ
unfolding shard_bins flatten
packed_indices shards chunks = flatten (
    map (λ shard_idx. flatten (flatten (map (λ bins. shard_bins shards bins shard_idx) chunks)))
      (range shards))

module _ {E : Type 0} (rows : Rows E) (item : E → ℕ) where
  -- One shard, from the bins of the chunks as places of the batch, with its places.
  unfoldable pub packed_shard :
      ℕ → List ℕ → List (List (List ℕ)) → BatchedDataDict E → ℕ → Result (BatchedDataDict E)
  unfolding shard_bins spans last_end select_indices from_batches flatten
  packed_shard shards padded chunks b shard_idx =
      let mine = map (λ bins. shard_bins shards bins shard_idx) chunks in
      do
        selected ← each (λ bin. select_indices bin b) (flatten mine)
        counts ← each (λ bins. last_end (spans 0 bins)) mine
        shard ← from_batches rows selected
        ok (record shard {
          micro_batch_indices = some (map (spans 0) mine);
          micro_batch_lengths = some (map (map (sum_by (λ i. get_or padded i 0))) mine);
          elem_counts_per_gb = some counts;
        })

  -- `shard_by_batch_size` with sequence packing. What the packer's shuffle does and its limit on the
  -- sequences of a bin are arguments.
  unfoldable pub shard_packed :
      (List (ℕ × ℕ) → List (ℕ × ℕ))
      → Option ℕ
      → ℕ
      → Option ℕ
      → Bool
      → SequencePackingArgs
      → BatchedDataDict E
      → Result (List (BatchedDataDict E) × List ℕ)
  unfolding batch_size_of sizes_of get_packer read_column pack all_bins packed_shard packed_indices
  shard_packed shuffle limit shards chosen allow_uneven_shards args b = do
    raise_if (allow_uneven_shards && elim chosen [ none ↦ false | some _ ↦ true ]) assertion_error
    total ← batch_size_of b
    z ← sizes_of shards chosen allow_uneven_shards total
    packer ←
        get_packer args.algorithm args.max_tokens_per_microbatch (some (pos shards))
          (some (pos shards))
    lengths ← read_column args.input_lengths_key b
    raise_if (args.sequence_length_pad_multiple == 0 && not (length lengths.elements == 0))
        zero_division_error
    let padded = map (λ e. round_up args.sequence_length_pad_multiple (item e)) lengths.elements
    packed ←
        each (λ i. pack shuffle limit packer (take z.batch_size (drop (i * z.batch_size) padded)))
          (range z.num_chunks)
    let chunks = all_bins z 0 packed
    aggregated ← each (packed_shard shards padded chunks b) (range shards)
    ok (aggregated, packed_indices shards chunks)
