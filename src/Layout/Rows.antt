-- ===== src/Layout/Rows.antt =====
-- nemo_rl/models/huggingface/common.py: `group_and_cat_tensors`, `pack_sequences` and `unpack_tensor`.
pub mod Unpacked
use nemo_rl_submission.Prelude.{
  ℕ, zero, suc, ◌+◌, ◌-◌, max, Bool, true, false, ◌&&◌, List, [], ◌∷◌, ◌++◌, map, flatten, leb, ltb,
  length, any, not, ◌==◌, if◌then◌else◌, take, drop, replicate, range, index, Result, ok, raise,
  ◌>>=◌, runtime_error, value_error,
}

-- `torch.nn.functional.pad(t, (0, n - len(t)), value=value)`.
abbrev pub pad_to {ℓ} : {E : Type ℓ} → ℕ → E → List E → List E
pad_to n value t = t ++ replicate (n - length t) value

-- `torch.cat`, which wants a tensor at least.
unfoldable pub cat_tensors : List (List ℕ) → Result (List ℕ)
cat_tensors [] = raise runtime_error
cat_tensors (t ∷ ts) = ok (flatten (t ∷ ts))

-- The groups, each concatenated.
unfoldable pub grouped_tensors : List (List ℕ) → List ℕ → Result (List (List ℕ))
unfolding cat_tensors
grouped_tensors tensors [] = ok []
grouped_tensors tensors (size ∷ sizes) = cat_tensors (take size tensors) >>= λ row.
    grouped_tensors (drop size tensors) sizes >>= λ rows. ok (row ∷ rows)

abbrev pub max_row_length : List (List ℕ) → ℕ
max_row_length [] = 0
max_row_length (t ∷ ts) = max (length t) (max_row_length ts)

-- The rows, padded to one length; `max` of no rows raises.
unfoldable pub group_and_cat_tensors : List (List ℕ) → List ℕ → ℕ → ℕ → Result (List (List ℕ))
unfolding grouped_tensors
group_and_cat_tensors tensors group_sizes padding_value min_seq_len =
    grouped_tensors tensors group_sizes >>= λ grouped. elim grouped [
      | [] ↦ raise value_error
      | row ∷ rows ↦
          ok (
            map (pad_to (max (max_row_length (row ∷ rows)) min_seq_len) padding_value) (row ∷ rows))
    ]

-- `[input_ids[i, :seq_len] for i, seq_len in enumerate(lengths)]`, from the row `i` on.
unfoldable pub flat_input_ids : List (List ℕ) → ℕ → List ℕ → Result (List (List ℕ))
flat_input_ids input_ids i [] = ok []
flat_input_ids input_ids i (seq_len ∷ lengths) = index input_ids i >>= λ row.
    flat_input_ids input_ids (suc i) lengths >>= λ rest. ok (take seq_len row ∷ rest)

abbrev pub sum_lengths : List ℕ → ℕ
sum_lengths [] = 0
sum_lengths (n ∷ ns) = n + sum_lengths ns

-- A square of zeros with a lower triangle of ones in its first rows and columns.
abbrev pub mask_of_row : ℕ → ℕ → List (List Bool)
mask_of_row max_seq_len total_len =
    map (λ a. map (λ b. leb b a && ltb a total_len) (range max_seq_len)) (range max_seq_len)

unfoldable pub attention_mask : ℕ → List ℕ → List ℕ → List (List (List Bool))
attention_mask max_seq_len lengths [] = []
attention_mask max_seq_len lengths (size ∷ sizes) =
    mask_of_row max_seq_len (sum_lengths (take size lengths))
    ∷ attention_mask max_seq_len (drop size lengths) sizes

pub record PackedRows : Type 0 where
  pub input_ids_packed : List (List ℕ)
  pub position_ids_packed : List (List ℕ)
  pub mask : List (List (List Bool))

abbrev pub row_length {ℓ} : {E : Type ℓ} → List (List E) → ℕ
row_length [] = 0
row_length (row ∷ rows) = length row

-- With `return_attention_mask`.
unfoldable pub pack_sequences : List (List ℕ) → List ℕ → List ℕ → ℕ → ℕ → Result PackedRows
unfolding flat_input_ids group_and_cat_tensors attention_mask
pack_sequences input_ids input_lengths packed_sequence_size padding_value min_seq_len =
    flat_input_ids input_ids 0 input_lengths >>= λ flat.
    group_and_cat_tensors flat packed_sequence_size padding_value min_seq_len >>= λ rows.
    group_and_cat_tensors (map range input_lengths) packed_sequence_size 0 min_seq_len
    >>= λ positions. ok (record {
      input_ids_packed = rows;
      position_ids_packed = positions;
      mask = attention_mask (row_length rows) input_lengths packed_sequence_size;
    })

-- `torch.split` along the second dimension, without what is behind the last part.
abbrev pub split_columns {ℓ} : {E : Type ℓ} → List (List E) → List ℕ → List (List (List E))
split_columns tensor [] = []
split_columns tensor (n ∷ ns) = map (take n) tensor ∷ split_columns (map (drop n) tensor) ns

abbrev pub max_length : List ℕ → ℕ
max_length [] = 0
max_length (n ∷ ns) = max n (max_length ns)

-- `unpack_tensor` of a tensor with three dimensions, as rows of vectors: each part is padded with
-- vectors of zeros along the second dimension. A split that is longer than the rows raises, and so does
-- `max` of no lengths.
unfoldable pub unpack_vectors : {E : Type 0} → E → List (List E) → List ℕ → Result (List (List E))
unpack_vectors zeros tensor input_lengths =
    elim (leb (sum_lengths input_lengths) (row_length tensor)) [
      | false ↦ raise runtime_error
      | true ↦ elim input_lengths [
        | [] ↦ raise value_error
        | n ∷ ns ↦ ok (
            flatten
              (map (map (pad_to (max_length (n ∷ ns)) zeros)) (split_columns tensor (n ∷ ns))))
      ]
    ]

-- The parts of a tensor with two dimensions, where the same padding adds rows of zeros.
abbrev pub padded_parts : ℕ → List ℕ → List (List (List ℕ)) → List (List (List ℕ))
padded_parts longest (n ∷ ns) (part ∷ parts) =
    (part ++ replicate (longest - n) (replicate n 0)) ∷ padded_parts longest ns parts
padded_parts longest _ _ = []

-- `unpack_tensor` of a tensor with two dimensions: `torch.cat` wants parts of one width.
unfoldable pub unpack_matrix : List (List ℕ) → List ℕ → Result (List (List ℕ))
unpack_matrix tensor input_lengths = elim (leb (sum_lengths input_lengths) (row_length tensor)) [
  | false ↦ raise runtime_error
  | true ↦ elim input_lengths [
    | [] ↦ raise value_error
    | n ∷ ns ↦
        if any (λ m. not (m == n)) ns
        then raise runtime_error
        else ok
            (flatten (padded_parts (max_length (n ∷ ns)) (n ∷ ns) (split_columns tensor (n ∷ ns))))
  ]
]
