-- ===== src/Batching/Batch.antt =====
-- nemo_rl/distributed/batched_data_dict.py: `BatchedDataDict`. A column is a list, a `PackedTensor` or
-- a tensor with its number of dimensions; an element is what stands at one place of the batch
-- dimension: an object, a number or a row. Indices are natural numbers.
pub mod Places
pub mod Reorder
use nemo_rl_submission.Prelude.{
  ℕ, zero, suc, ◌+◌, ◌-◌, ◌*◌, ◌/◌, ◌%◌, max, Bool, true, false, not, ◌&&◌, ◌||◌, Option, none,
  some, List, [], ◌∷◌, ◌++◌, map, flatten, ltb, leb, ◌==◌, if◌then◌else◌, length, get_or, take,
  drop, pick, replicate, any, zip, range, range_from, sort, pair_ge, Result, ok, raise, raise_if,
  each, ◌>>=◌, ◌>>◌, assertion_error, key_error, index_error, not_implemented_error, stop_iteration,
  zero_division_error,
}
use nemo_rl_submission.Prelude.Text.{Text, text_eq}

pub data Kind : Type 0 where
  a_list packed : Kind
  tensor : ℕ → Kind

pub record Column (E : Type 0) : Type 0 where
  pub kind : Kind
  pub elements : List E

-- The dictionary with the fields that a shard has. A microbatch is a start and an end.
pub record BatchedDataDict (E : Type 0) : Type 0 where
  pub columns : List (Text × Column E)
  pub micro_batch_indices : Option (List (List (ℕ × ℕ)))
  pub micro_batch_lengths : Option (List (List ℕ))
  pub elem_counts_per_gb : Option (List ℕ)

-- What torch does with the rows of a tensor: how long a row is, the row padded at its end to a
-- length, and the row cut to one along a dimension.
pub record Rows (E : Type 0) : Type 0 where
  pub width : E → ℕ
  pub pad : Text → ℕ → E → E
  pub narrow : ℕ → ℕ → E → E

unfoldable pub is_packed : Kind → Bool
is_packed packed = true
is_packed _ = false

unfoldable pub is_tensor : Kind → Bool
is_tensor (tensor n) = true
is_tensor _ = false

unfoldable pub is_vector : Kind → Bool
is_vector (tensor n) = n == 1
is_vector _ = false

-- `batches[i][key]`.
unfoldable pub column {ℓ} : {C : Type ℓ} → Text → List (Text × C) → Option C
unfolding text_eq
column key [] = none
column key ((k, c) ∷ columns) =
    let rest = column key columns in if text_eq k key then some c else rest

-- `sorted(zip(indices, range(n)), key=...)`, as the places in their new order.
unfoldable pub reordered_indices : List ℕ → ℕ → List ℕ
unfolding sort
reordered_indices indices n =
    map (λ (p : ℕ × ℕ). p.1) (sort (λ (p : ℕ × ℕ) (q : ℕ × ℕ). leb p.0 q.0) (zip indices (range n)))

module _ {E : Type 0} where
  -- A new dictionary, whose microbatches are unknown.
  abbrev pub new_dict : List (Text × Column E) → BatchedDataDict E
  new_dict columns = record {
    columns = columns;
    micro_batch_indices = none;
    micro_batch_lengths = none;
    elem_counts_per_gb = none;
  }

  abbrev pub on_elements : (List E → List E) → Text × Column E → Text × Column E
  on_elements f (key, c) = (key, record c { elements = f c.elements })

  -- The one batch size of all columns, where the source asserts that there is one.
  unfoldable pub batch_size_of : BatchedDataDict E → Result ℕ
  batch_size_of b = elim b.columns [
    | [] ↦ raise assertion_error
    | ((key, c) ∷ columns) ↦
        if any (λ (e : Text × Column E). not (length e.1.elements == length c.elements)) columns
        then raise assertion_error
        else ok (length c.elements)
  ]

  -- `size`: without a column, `next` raises before the test for emptiness.
  unfoldable pub size : BatchedDataDict E → Result ℕ
  size b = elim b.columns [
    | [] ↦ raise stop_iteration
    | ((key, c) ∷ columns) ↦ ok (length c.elements)
  ]

  -- The elements at some indices: out of range raises, and a `PackedTensor` is not empty.
  unfoldable pub select_column : List ℕ → Text × Column E → Result (Text × Column E)
  unfolding is_packed
  select_column indices (key, c) =
      if any (λ i. leb (length c.elements) i) indices
      then raise index_error
      else if is_packed c.kind && length indices == 0
      then raise assertion_error
      else ok (on_elements (λ xs. pick xs indices) (key, c))

  unfoldable pub select_indices : List ℕ → BatchedDataDict E → Result (BatchedDataDict E)
  unfolding select_column
  select_indices indices b = do
    columns ← each (select_column indices) b.columns
    ok (new_dict columns)

  -- `slice`: a tensor is checked, a `PackedTensor` is read at each index, a list ends where it ends.
  unfoldable pub slice_column : ℕ → ℕ → Text × Column E → Result (Text × Column E)
  unfolding select_column is_tensor is_packed
  slice_column start end (key, c) =
      if is_packed c.kind
      then select_column (range_from start (end - start)) (key, c)
      else if is_tensor c.kind && ltb (length c.elements) end
      then raise assertion_error
      else ok (on_elements (λ xs. take (end - start) (drop start xs)) (key, c))

  unfoldable pub slice : ℕ → ℕ → BatchedDataDict E → Result (BatchedDataDict E)
  unfolding slice_column
  slice start end b = do columns ← each (slice_column start end) b.columns; ok (new_dict columns)

  -- `chunk`: `tensor_split` cuts into equal parts, since the number of parts divides the size.
  unfoldable pub chunk : ℕ → ℕ → BatchedDataDict E → Result (BatchedDataDict E)
  unfolding batch_size_of select_column
  chunk rank chunks b = do
    n ← batch_size_of b
    raise_if (chunks == 0) zero_division_error
    raise_if (not (n % chunks == 0)) assertion_error
    raise_if (leb (n / chunks) rank) assertion_error
    columns ← each (select_column (range_from (rank * (n / chunks)) (n / chunks))) b.columns
    ok (new_dict columns)

  unfoldable pub reorder_data : List ℕ → BatchedDataDict E → Result (BatchedDataDict E)
  unfolding batch_size_of reordered_indices select_column
  reorder_data indices b = do
    n ← batch_size_of b
    columns ← each (select_column (reordered_indices indices n)) b.columns
    ok (record b { columns = columns })
