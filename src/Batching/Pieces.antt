-- ===== src/Batching/Pieces.antt =====
-- nemo_rl/distributed/batched_data_dict.py: `BatchedDataDict.from_batches`, `repeat_interleave`,
-- `get_batch` and the iterators over microbatches, which are lists of what they yield.
use nemo_rl_submission.Prelude.{
  ℕ, zero, suc, ◌+◌, ◌*◌, ◌/◌, ◌%◌, max, true, false, not, Option, none, some, List, [], ◌∷◌, ◌++◌,
  map, flatten, ltb, ◌==◌, if◌then◌else◌, replicate, any, range, zip, sort, Result, ok, raise,
  raise_if, each, index, ◌>>=◌, ◌>>◌, assertion_error, key_error, index_error,
  not_implemented_error, type_error, zero_division_error,
}
use nemo_rl_submission.Prelude.Text.{Text, text_le}
use nemo_rl_submission.Batching.Batch.{
  tensor, Column, BatchedDataDict, Rows, is_packed, is_vector, column, new_dict, on_elements, size,
  slice,
}

-- `max` of some numbers, at least 0.
unfoldable pub largest : List ℕ → ℕ
largest [] = 0
largest (n ∷ ns) = max n (largest ns)

-- `cum_elem_count[i]`.
unfoldable pub count_before : List ℕ → ℕ → ℕ
count_before [] i = 0
count_before (n ∷ ns) zero = 0
count_before (n ∷ ns) (suc i) = n + count_before ns i

-- `[xs[i]]` of a field that may be None.
unfoldable pub only {ℓ} : {A : Type ℓ} → Option (List A) → ℕ → Result (List A)
only none i = raise type_error
only (some xs) i = do x ← index xs i; ok (x ∷ [])

module _ {E : Type 0} where
  unfoldable pub concatenated : List (Column E) → List E
  unfolding flatten
  concatenated cs = flatten (map (λ (c : Column E). c.elements) cs)

  -- The columns of one key made into one: rows of several dimensions are padded to the longest.
  unfoldable pub stack : Rows E → Text → Column E → List (Column E) → Column E
  unfolding concatenated largest is_vector
  stack rows key first cs =
      let joined = concatenated (first ∷ cs) in
      elim first.kind [
        | tensor n ↦
            if any (λ (c : Column E). not (is_vector c.kind)) (first ∷ cs)
            then record {
              kind = tensor n;
              elements = map (rows.pad key (largest (map rows.width joined))) joined;
            }
            else record { kind = tensor n; elements = joined }
        | kind ↦ record { kind = kind; elements = joined }
      ]

  -- `item[key]` of a batch.
  unfoldable pub read_column : Text → BatchedDataDict E → Result (Column E)
  unfolding column
  read_column key b = elim (column key b.columns) [ none ↦ raise key_error | some c ↦ ok c ]

  unfoldable pub stack_key :
      Rows E → BatchedDataDict E → List (BatchedDataDict E) → Text → Result (Text × Column E)
  unfolding read_column stack
  stack_key rows b batches key = do
    first ← read_column key b
    cs ← each (read_column key) batches
    ok (key, stack rows key first cs)

  unfoldable pub from_batches : Rows E → List (BatchedDataDict E) → Result (BatchedDataDict E)
  unfolding stack_key sort text_le
  from_batches rows [] = raise index_error
  from_batches rows (b ∷ batches) = do
    columns ←
        each (stack_key rows b batches)
          (sort text_le (map (λ (e : Text × Column E). e.0) b.columns))
    ok (new_dict columns)

  -- Each element a number of times.
  unfoldable pub repeated : ℕ → List E → List E
  repeated n [] = []
  repeated n (x ∷ xs) = replicate n x ++ repeated n xs

  unfoldable pub repeat_column : ℕ → Text × Column E → Result (Text × Column E)
  unfolding repeated is_packed
  repeat_column n (key, c) =
      if is_packed c.kind
      then raise not_implemented_error
      else ok (on_elements (repeated n) (key, c))

  unfoldable pub repeat_interleave : ℕ → BatchedDataDict E → Result (BatchedDataDict E)
  unfolding repeat_column
  repeat_interleave n b = do columns ← each (repeat_column n) b.columns; ok (new_dict columns)

  -- `truncate_tensors` along a dimension after the batch's.
  unfoldable pub truncate_column : Rows E → ℕ → ℕ → Text × Column E → Text × Column E
  truncate_column rows dim len (key, c) = elim c.kind [
    | tensor n ↦ if ltb dim n then on_elements (map (rows.narrow dim len)) (key, c) else (key, c)
    | _ ↦ (key, c)
  ]

  unfoldable pub truncate_tensors : Rows E → ℕ → ℕ → BatchedDataDict E → BatchedDataDict E
  unfolding truncate_column
  truncate_tensors rows dim len b = record b {
    columns = map (truncate_column rows dim len) b.columns;
  }

  -- `get_batch`, where each batch has its own number of elements.
  unfoldable pub get_counted_batch : List ℕ → ℕ → BatchedDataDict E → Result (BatchedDataDict E)
  unfolding slice count_before only
  get_counted_batch counts batch_idx b = do
    raise_if (elim b.micro_batch_indices [ none ↦ true | some _ ↦ false ]) assertion_error
    count ← index counts batch_idx
    batch ← slice (count_before counts batch_idx) (count_before counts (suc batch_idx)) b
    indices ← only b.micro_batch_indices batch_idx
    lengths ← only b.micro_batch_lengths batch_idx
    ok (record batch {
      micro_batch_indices = some indices;
      micro_batch_lengths = some lengths;
      elem_counts_per_gb = some (count ∷ []);
    })

  -- `get_batch`, where all batches have one size.
  unfoldable pub get_sized_batch : ℕ → ℕ → BatchedDataDict E → Result (BatchedDataDict E)
  unfolding slice only
  get_sized_batch batch_size batch_idx b = do
    batch ← slice (batch_size * batch_idx) (batch_size * (batch_idx + 1)) b
    elim b.micro_batch_indices [
      | none ↦ ok batch
      | some _ ↦ do
        indices ← only b.micro_batch_indices batch_idx
        lengths ← only b.micro_batch_lengths batch_idx
        ok (record batch { micro_batch_indices = some indices; micro_batch_lengths = some lengths })
    ]

  unfoldable pub get_batch : ℕ → Option ℕ → BatchedDataDict E → Result (BatchedDataDict E)
  unfolding get_counted_batch get_sized_batch
  get_batch batch_idx batch_size b = elim b.elem_counts_per_gb [
    | some counts ↦ get_counted_batch counts batch_idx b
    | none ↦ elim batch_size [ none ↦ raise type_error | some n ↦ get_sized_batch n batch_idx b ]
  ]

  -- The one batch of microbatches that the iterators assert.
  unfoldable pub only_microbatches : BatchedDataDict E → Result (List (ℕ × (ℕ × ℕ)))
  only_microbatches b = elim b.micro_batch_indices [
    | some (indices ∷ []) ↦ elim b.micro_batch_lengths [
      | some (lengths ∷ _) ↦ ok (zip lengths indices)
      | some [] ↦ raise index_error
      | none ↦ raise assertion_error
    ]
    | _ ↦ raise assertion_error
  ]

  unfoldable pub make_microbatch_iterator_for_packable_sequences :
      BatchedDataDict E → Result (List (BatchedDataDict E))
  unfolding only_microbatches slice
  make_microbatch_iterator_for_packable_sequences b = do
    microbatches ← only_microbatches b
    each (λ (m : ℕ × (ℕ × ℕ)). slice m.1.0 m.1.1 b) microbatches

  unfoldable pub make_microbatch_iterator_with_dynamic_shapes :
      Rows E → ℕ → BatchedDataDict E → Result (List (BatchedDataDict E))
  unfolding only_microbatches slice truncate_tensors
  make_microbatch_iterator_with_dynamic_shapes rows sequence_dim b = do
    microbatches ← only_microbatches b
    each
        (λ (m : ℕ × (ℕ × ℕ)).
          slice m.1.0 m.1.1 b >>= λ mb. ok (truncate_tensors rows sequence_dim m.0 mb))
        microbatches

  unfoldable pub make_microbatch_iterator :
      ℕ → BatchedDataDict E → Result (List (BatchedDataDict E))
  unfolding size slice
  make_microbatch_iterator microbatch_size b = do
    n ← size b
    raise_if (microbatch_size == 0) zero_division_error
    raise_if (not (n % microbatch_size == 0)) assertion_error
    each (λ i. slice (i * microbatch_size) (i * microbatch_size + microbatch_size) b)
        (range (n / microbatch_size))
