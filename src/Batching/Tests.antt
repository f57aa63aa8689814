-- ===== src/Batching/Tests.antt =====
-- Runs of the batch operations, and their theorems at concrete inputs.
use nemo_rl_submission.Batching.Workers.{
  slices_of_size, merge_last, chunk_list_to_workers, IsDealt, chunk_list_to_workers-IsDealt,
}
use nemo_rl_submission.Prelude.{
  ℕ, ◌%◌, ◌≤◌, ◌≡◌, refl, ◌⊎◌, true, false, none, some, List, [], ◌∷◌, map, arith, length, All,
  SameItems, range, sort, sort-SameItems, flatten, pair_ge, ok, raise, ◌>>=◌, stop_iteration,
  assertion_error,
}
use nemo_rl_submission.Prelude.Text.{Text, codes}
use nemo_rl_submission.Packing.Packer.{IsPacking, first_fit_decreasing}
use nemo_rl_submission.Packing.Pack.{name, pack_implementation, Packer, get_packer, pack}
use nemo_rl_submission.Batching.Batch.{
  BatchedDataDict, Rows, a_list, tensor, new_dict, on_elements, batch_size_of, size, select_indices,
  slice, chunk, reorder_data,
}
use nemo_rl_submission.Batching.Batch.Reorder.{reorder_data-select_indices}
use nemo_rl_submission.Batching.Pieces.{repeat_interleave}
use nemo_rl_submission.Batching.Shards.{
  Sizes, DynamicBatchingArgs, shard_by_batch_size, shard_dynamically, microbatches,
}
use nemo_rl_submission.Batching.Shards.Bounds.{IsCut, microbatches_outcome}
use nemo_rl_submission.Batching.Shards.Slices.{slices, shard_by_batch_size-slices}
use nemo_rl_submission.Batching.Packed.{SequencePackingArgs, all_bins, packed_indices, shard_packed}
use nemo_rl_submission.Batching.Packed.Chunks.{pack_chunk_outcome}
use nemo_rl_submission.Batching.Packed.Dealt.{ArePackings, packed_indices-SameItems}

abbrev data_key : Text
data_key = codes "data"

abbrev lens_key : Text
lens_key = codes "lens"

abbrev of_lists : List ℕ → List ℕ → BatchedDataDict ℕ
of_lists xs ys = new_dict (
    (data_key, record { kind = a_list; elements = xs })
    ∷ (lens_key, record { kind = tensor 1; elements = ys })
    ∷ [])

abbrev eight : BatchedDataDict ℕ
eight = of_lists (1 ∷ 2 ∷ 3 ∷ 4 ∷ 5 ∷ 6 ∷ 7 ∷ 8 ∷ []) (0 ∷ 0 ∷ 1 ∷ 1 ∷ 2 ∷ 2 ∷ 3 ∷ 3 ∷ [])

-- The examples of the docstring.
shards_example :
    shard_by_batch_size 2 none false eight
    ≡ ok (
        of_lists (1 ∷ 2 ∷ 3 ∷ 4 ∷ []) (0 ∷ 0 ∷ 1 ∷ 1 ∷ [])
        ∷ of_lists (5 ∷ 6 ∷ 7 ∷ 8 ∷ []) (2 ∷ 2 ∷ 3 ∷ 3 ∷ [])
        ∷ [])
unfolding shard_by_batch_size
shards_example = refl

chunks_example :
    shard_by_batch_size 2 (some 4) false eight
    ≡ ok (
        of_lists (1 ∷ 2 ∷ 5 ∷ 6 ∷ []) (0 ∷ 0 ∷ 2 ∷ 2 ∷ [])
        ∷ of_lists (3 ∷ 4 ∷ 7 ∷ 8 ∷ []) (1 ∷ 1 ∷ 3 ∷ 3 ∷ [])
        ∷ [])
unfolding shard_by_batch_size
chunks_example = refl

uneven_example :
    shard_by_batch_size 2 none true
      (of_lists (10 ∷ 11 ∷ 12 ∷ 13 ∷ 14 ∷ []) (0 ∷ 1 ∷ 2 ∷ 3 ∷ 4 ∷ []))
    ≡ ok (of_lists (10 ∷ 11 ∷ 12 ∷ []) (0 ∷ 1 ∷ 2 ∷ []) ∷ of_lists (13 ∷ 14 ∷ []) (3 ∷ 4 ∷ []) ∷ [])
unfolding shard_by_batch_size
uneven_example = refl

-- An empty dictionary has no size.
size_example : size {E = ℕ} (new_dict []) ≡ raise stop_iteration
unfolding size
size_example = refl

slice_example : slice 6 9 eight ≡ raise assertion_error
unfolding slice
slice_example = refl

repeat_example :
    repeat_interleave 2 (of_lists (1 ∷ 2 ∷ []) (3 ∷ 4 ∷ []))
    ≡ ok (of_lists (1 ∷ 1 ∷ 2 ∷ 2 ∷ []) (3 ∷ 3 ∷ 4 ∷ 4 ∷ []))
unfolding repeat_interleave
repeat_example = refl

chunk_example : chunk 1 4 eight ≡ ok (of_lists (3 ∷ 4 ∷ []) (1 ∷ 1 ∷ []))
unfolding chunk
chunk_example = refl

microbatches_run :
    microbatches 10 (3 ∷ 5 ∷ 5 ∷ 8 ∷ []) ≡ ok (((0, 2), 5) ∷ ((2, 3), 5) ∷ ((3, 4), 8) ∷ [])
unfolding microbatches
microbatches_run = refl

-- Theorems at concrete inputs.
reorder_data-select_indices_example :
    (select_indices (2 ∷ 0 ∷ 1 ∷ []) (of_lists (5 ∷ 6 ∷ 7 ∷ []) (1 ∷ 1 ∷ 2 ∷ []))
      >>= reorder_data (2 ∷ 0 ∷ 1 ∷ []))
    ≡ ok (of_lists (5 ∷ 6 ∷ 7 ∷ []) (1 ∷ 1 ∷ 2 ∷ []))
unfolding batch_size_of
reorder_data-select_indices_example =
    reorder_data-select_indices (of_lists (5 ∷ 6 ∷ 7 ∷ []) (1 ∷ 1 ∷ 2 ∷ [])) (2 ∷ 0 ∷ 1 ∷ []) 3 refl
      (omega arith) (λ w. omega arith)

shard_by_batch_size-slices_example :
    shard_by_batch_size 2 (some 4) false eight
    ≡ ok (map (λ s. new_dict (map (on_elements (slices 2 4 2 s)) eight.columns)) (range 2))
unfolding batch_size_of
shard_by_batch_size-slices_example =
    shard_by_batch_size-slices 2 4 8 eight refl (omega arith) (omega arith) (omega arith) refl refl

microbatches_outcome_example :
    (All (λ l. l ≤ 10) (3 ∷ 5 ∷ 12 ∷ [])
      × ((ms : List ((ℕ × ℕ) × ℕ)) × (microbatches 10 (3 ∷ 5 ∷ 12 ∷ []) ≡ ok ms)
          × IsCut 10 ms (3 ∷ 5 ∷ 12 ∷ []) 3))
    ⊎ ((¬ All (λ l. l ≤ 10) (3 ∷ 5 ∷ 12 ∷ []))
        × (microbatches 10 (3 ∷ 5 ∷ 12 ∷ []) ≡ raise assertion_error))
microbatches_outcome_example = microbatches_outcome 10 (3 ∷ 5 ∷ 12 ∷ [])

abbrev rows : Rows ℕ
rows = record { width = λ e. 1; pad = λ key n e. e; narrow = λ dim n e. e }

abbrev args : SequencePackingArgs
args = record {
  max_tokens_per_microbatch = 6;
  input_lengths_key = lens_key;
  algorithm = name (codes "first_fit_decreasing");
  sequence_length_pad_multiple = 2;
}

abbrev four : BatchedDataDict ℕ
four = of_lists (10 ∷ 11 ∷ 12 ∷ 13 ∷ []) (4 ∷ 1 ∷ 3 ∷ 2 ∷ [])

abbrev shard_with : List ℕ → List ℕ → BatchedDataDict ℕ
shard_with xs ys = record (of_lists xs ys) {
  micro_batch_indices = some (((0, 2) ∷ []) ∷ []);
  micro_batch_lengths = some ((6 ∷ []) ∷ []);
  elem_counts_per_gb = some (2 ∷ []);
}

packed_run :
    shard_packed rows (λ e. e) (sort pair_ge) none 2 none false args four
    ≡ ok (
      shard_with (12 ∷ 13 ∷ []) (3 ∷ 2 ∷ []) ∷ shard_with (10 ∷ 11 ∷ []) (4 ∷ 1 ∷ []) ∷ [],
      2 ∷ 3 ∷ 0 ∷ 1 ∷ [],
    )
unfolding shard_packed pack_implementation
packed_run = refl

abbrev dynamic_args : DynamicBatchingArgs
dynamic_args = record {
  max_tokens_per_microbatch = 4;
  sequence_length_round = 2;
  input_key = data_key;
  input_lengths_key = lens_key;
}

abbrev dynamic_shard : List ℕ → List ℕ → BatchedDataDict ℕ
dynamic_shard xs ys = record (of_lists xs ys) {
  micro_batch_indices = some (((0, 1) ∷ (1, 2) ∷ []) ∷ []);
  micro_batch_lengths = some ((2 ∷ 4 ∷ []) ∷ []);
}

dynamic_run :
    shard_dynamically (λ e. e) (λ c. 4) 2 none false dynamic_args four
    ≡ ok (
      dynamic_shard (11 ∷ 12 ∷ []) (1 ∷ 3 ∷ []) ∷ dynamic_shard (13 ∷ 10 ∷ []) (2 ∷ 4 ∷ []) ∷ [],
      1 ∷ 2 ∷ 3 ∷ 0 ∷ [],
    )
unfolding shard_dynamically
dynamic_run = refl

abbrev halves : Packer
halves = record {
  algorithm = first_fit_decreasing;
  settings = record { bin_capacity = 5; min_bin_count = some 2; bin_count_multiple = some 2 };
}

pack_chunk_outcome_example :
    (bins : List (List ℕ)) × (pack (sort pair_ge) none halves (4 ∷ 1 ∷ 3 ∷ 2 ∷ []) ≡ ok bins)
    × IsPacking 5 (4 ∷ 1 ∷ 3 ∷ 2 ∷ []) bins
    × (2 ≤ length bins)
    × (length bins % 2 ≡ 0)
unfolding get_packer
pack_chunk_outcome_example =
    pack_chunk_outcome (sort pair_ge) (sort-SameItems pair_ge) none
      (name (codes "first_fit_decreasing")) 5 2 halves (4 ∷ 1 ∷ 3 ∷ 2 ∷ []) (omega arith) refl
      (omega arith) (omega arith) refl (omega arith) (omega arith)

abbrev in_pairs : Sizes
in_pairs = record { total_batch_size = 8; batch_size = 4; num_chunks = 2; shard_size = 2 }

abbrev two_chunks : List (List (List ℕ))
two_chunks = ((0 ∷ 1 ∷ []) ∷ (2 ∷ 3 ∷ []) ∷ []) ∷ ((3 ∷ 0 ∷ []) ∷ (1 ∷ 2 ∷ []) ∷ []) ∷ []

abbrev two_lengths : List (List ℕ)
two_lengths = (4 ∷ 1 ∷ 3 ∷ 2 ∷ []) ∷ (1 ∷ 3 ∷ 2 ∷ 4 ∷ []) ∷ []

two_chunks-ArePackings : ArePackings 5 two_lengths two_chunks
unfolding flatten
two_chunks-ArePackings = (
  record { same = λ w. refl; fits = omega arith; filled = omega arith },
  (record { same = λ w. omega arith; fits = omega arith; filled = omega arith }, tt),
)

packed_indices-SameItems_example :
    SameItems (packed_indices 2 (all_bins in_pairs 0 two_chunks)) (range 8)
packed_indices-SameItems_example =
    packed_indices-SameItems in_pairs 2 5 two_lengths two_chunks (omega arith) (refl, (refl, tt))
      two_chunks-ArePackings

abbrev five_items : List ℕ
five_items = 1 ∷ 2 ∷ 3 ∷ 4 ∷ 5 ∷ []

-- Five items for four workers make three chunks.
three_chunks : chunk_list_to_workers five_items 4 ≡ (1 ∷ 2 ∷ []) ∷ (3 ∷ 4 ∷ []) ∷ (5 ∷ []) ∷ []
unfolding chunk_list_to_workers slices_of_size merge_last
three_chunks = refl

chunk_list_to_workers-IsDealt_example : IsDealt five_items 3 (chunk_list_to_workers five_items 3)
chunk_list_to_workers-IsDealt_example = chunk_list_to_workers-IsDealt five_items 3 (omega arith)
