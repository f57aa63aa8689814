-- ===== src/Batching/Shards.antt =====
-- nemo_rl/distributed/batched_data_dict.py: `shard_by_batch_size` without packing: the sizes, the
-- shards, and dynamic batching.
pub mod Bounds
pub mod Slices
use nemo_rl_submission.Prelude.{
  ℕ, zero, suc, ◌+◌, ◌-◌, ◌*◌, ◌/◌, ◌%◌, min, max, Bool, true, false, not, ◌&&◌, ◌||◌, Option, none,
  some, List, [], ◌∷◌, ◌++◌, map, flatten, ltb, leb, ◌==◌, if◌then◌else◌, length, get_or, take,
  drop, range, range_from, sort, Result, ok, raise, raise_if, each, index, ◌>>=◌, ◌>>◌,
  assertion_error, zero_division_error,
}
use nemo_rl_submission.Prelude.Text.{Text}
use nemo_rl_submission.Batching.Batch.{
  Column, BatchedDataDict, column, new_dict, on_elements, batch_size_of, select_column,
}
use nemo_rl_submission.Batching.Pieces.{read_column, largest}

-- The sizes that `shard_by_batch_size` computes.
pub record Sizes : Type 0 where
  pub total_batch_size : ℕ
  pub batch_size : ℕ
  pub num_chunks : ℕ
  pub shard_size : ℕ

-- The checks on the sizes, for the total.
unfoldable pub sizes_of : ℕ → Option ℕ → Bool → ℕ → Result Sizes
sizes_of shards chosen allow_uneven_shards total =
    let n : ℕ = elim chosen [ none ↦ total | some n ↦ n ] in
    do
      raise_if (n == 0) zero_division_error
      raise_if (not (total % n == 0)) assertion_error
      raise_if (shards == 0) zero_division_error
      raise_if (not allow_uneven_shards && not (n % shards == 0)) assertion_error
      ok (record {
        total_batch_size = total;
        batch_size = n;
        num_chunks = total / n;
        shard_size = if allow_uneven_shards then (n + shards - 1) / shards else n / shards;
      })

-- `range(shard_start, shard_end)` of one shard in one chunk.
unfoldable pub shard_indices : Sizes → Bool → ℕ → ℕ → List ℕ
shard_indices z allow_uneven_shards shard_idx chunk_idx =
    let start = chunk_idx * z.batch_size + shard_idx * z.shard_size in
    let end = chunk_idx * z.batch_size + (shard_idx + 1) * z.shard_size in
    if allow_uneven_shards
    then range_from (min start z.total_batch_size)
        (min end z.total_batch_size - min start z.total_batch_size)
    else range_from start (end - start)

-- `xs[i::step]`, for a step of `gap + 1`: every element whose place is `i` modulo the step.
unfoldable pub strided {ℓ} : {A : Type ℓ} → ℕ → ℕ → List A → List A
strided gap i [] = []
strided gap zero (x ∷ xs) = x ∷ strided gap gap xs
strided gap (suc i) (x ∷ xs) = strided gap i xs

module _ {E : Type 0} where
  -- One column of a shard, piece by piece.
  unfoldable pub gather_column : List (List ℕ) → Text × Column E → Result (Text × Column E)
  unfolding select_column flatten
  gather_column pieces (key, c) = do
    parts ← each (λ indices. select_column indices (key, c)) pieces
    ok (key, record c { elements = flatten (map (λ (p : Text × Column E). p.1.elements) parts) })

  -- A shard: its piece of each chunk. Without a chunk it has no keys.
  unfoldable pub shard_of : Sizes → Bool → List (Text × Column E) → ℕ → Result (BatchedDataDict E)
  unfolding gather_column shard_indices
  shard_of z allow_uneven_shards columns shard_idx =
      if z.num_chunks == 0 then ok (new_dict []) else (do
        gathered ←
            each
              (gather_column
                (map (shard_indices z allow_uneven_shards shard_idx) (range z.num_chunks)))
              columns
        ok (new_dict gathered))

  -- `shard_by_batch_size` without dynamic batching and packing.
  unfoldable pub shard_by_batch_size :
      ℕ → Option ℕ → Bool → BatchedDataDict E → Result (List (BatchedDataDict E))
  unfolding batch_size_of sizes_of shard_of
  shard_by_batch_size shards chosen allow_uneven_shards b = do
    raise_if (allow_uneven_shards && elim chosen [ none ↦ false | some _ ↦ true ]) assertion_error
    total ← batch_size_of b
    z ← sizes_of shards chosen allow_uneven_shards total
    each (shard_of z allow_uneven_shards b.columns) (range shards)

-- The arguments of dynamic batching.
pub record DynamicBatchingArgs : Type 0 where
  pub max_tokens_per_microbatch : ℕ
  pub sequence_length_round : ℕ
  pub input_key : Text
  pub input_lengths_key : Text

-- The places of one chunk, by length, dealt to the shards.
unfoldable pub sorted_chunk : ℕ → ℕ → List ℕ → List ℕ
unfolding sort strided flatten
sorted_chunk shards chunk_start lens =
    let sorted = sort (λ i j. leb (get_or lens i 0) (get_or lens j 0)) (range (length lens)) in
    let placed = map (λ i. i + chunk_start) sorted in
    flatten (map (λ i. strided (shards - 1) i placed) (range shards))

-- `batch_sorted_indices` of dynamic batching.
unfoldable pub sorted_indices : ℕ → Sizes → List ℕ → List ℕ
unfolding sorted_chunk flatten
sorted_indices shards z lens = flatten (
    map
      (λ chunk_idx.
        sorted_chunk shards (chunk_idx * z.batch_size)
          (take z.batch_size (drop (chunk_idx * z.batch_size) lens)))
      (range z.num_chunks))

-- `(n + multiple - 1) // multiple * multiple`.
abbrev pub round_up : ℕ → ℕ → ℕ
round_up multiple n = (n + multiple - 1) / multiple * multiple

-- The loop that builds the microbatches of a chunk: those that are closed, and the last with the
-- longest length in it.
pub record Microbatches : Type 0 where
  pub closed : List ((ℕ × ℕ) × ℕ)
  pub start : ℕ
  pub end : ℕ
  pub len : ℕ
  pub max_seqlen : ℕ

-- One place of the shards, whose longest padded sequence is given.
unfoldable pub add_place : ℕ → ℕ → ℕ → Microbatches → Result Microbatches
add_place max_tokens place seqlen m =
    if ltb max_tokens seqlen
    then raise assertion_error
    else (let longest = max m.max_seqlen seqlen in
        if leb ((m.end - m.start + 1) * longest) max_tokens
        then ok (record m { end = m.end + 1; len = longest; max_seqlen = longest })
        else ok (record {
          closed = m.closed ++ ((m.start, m.end), m.len) ∷ [];
          start = place;
          end = place + 1;
          len = seqlen;
          max_seqlen = seqlen;
        }))

unfoldable pub add_places : ℕ → ℕ → List ℕ → Microbatches → Result Microbatches
unfolding add_place
add_places max_tokens place [] m = ok m
add_places max_tokens place (seqlen ∷ seqlens) m = do
  m' ← add_place max_tokens place seqlen m
  add_places max_tokens (suc place) seqlens m'

-- The microbatches of one chunk, with their lengths.
unfoldable pub microbatches : ℕ → List ℕ → Result (List ((ℕ × ℕ) × ℕ))
unfolding add_places
microbatches max_tokens seqlens = do
  m ←
      add_places max_tokens 0 seqlens
        (record { closed = []; start = 0; end = 0; len = 0; max_seqlen = 0 })
  ok (m.closed ++ ((m.start, m.end), m.len) ∷ [])

-- The longest sequence of the shards at a place, padded, but not beyond the width of the input.
unfoldable pub place_length : ℕ → ℕ → List (List ℕ) → ℕ → Result ℕ
unfolding largest
place_length multiple unpadded lens place = do
  here ← each (λ shard. index shard place) lens
  raise_if (multiple == 0) zero_division_error
  ok (min (round_up multiple (largest here)) unpadded)

module _ {E : Type 0} (item : E → ℕ) (shape1 : Column E → ℕ) where
  -- The microbatches of one chunk of the shards.
  unfoldable pub chunk_microbatches :
      DynamicBatchingArgs → ℕ → Sizes → List (List ℕ) → ℕ → Result (List ((ℕ × ℕ) × ℕ))
  unfolding place_length microbatches
  chunk_microbatches args unpadded z lens chunk_idx =
      let here = map (λ l. take z.shard_size (drop (chunk_idx * z.shard_size) l)) lens in
      do
        seqlens ← each (place_length args.sequence_length_round unpadded here) (range z.shard_size)
        microbatches args.max_tokens_per_microbatch seqlens

  -- `shard_by_batch_size` with dynamic batching.
  unfoldable pub shard_dynamically :
      ℕ
      → Option ℕ
      → Bool
      → DynamicBatchingArgs
      → BatchedDataDict E
      → Result (List (BatchedDataDict E) × List ℕ)
  unfolding batch_size_of sizes_of read_column select_column sorted_indices shard_of
      chunk_microbatches
  shard_dynamically shards chosen allow_uneven_shards args b = do
    raise_if (allow_uneven_shards && elim chosen [ none ↦ false | some _ ↦ true ]) assertion_error
    total ← batch_size_of b
    z ← sizes_of shards chosen allow_uneven_shards total
    lengths ← read_column args.input_lengths_key b
    let indices = sorted_indices shards z (map item lengths.elements)
    columns ← each (select_column indices) b.columns
    aggregated ← each (shard_of z allow_uneven_shards columns) (range shards)
    lens ← each (read_column args.input_lengths_key) aggregated
    input ← read_column args.input_key (new_dict columns)
    chunks ←
        each
          (chunk_microbatches args (shape1 input) z
            (map (λ (c : Column E). map item c.elements) lens))
          (range z.num_chunks)
    ok (
      map
          (λ (shard : BatchedDataDict E). record shard {
            micro_batch_indices = some (map (map (λ (m : (ℕ × ℕ) × ℕ). m.0)) chunks);
            micro_batch_lengths = some (map (map (λ (m : (ℕ × ℕ) × ℕ). m.1)) chunks);
          })
          aggregated,
      indices,
    )
