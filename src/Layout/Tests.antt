-- ===== src/Layout/Tests.antt =====
-- The layout of tokens on small inputs.
use nemo_rl_submission.Prelude.{
  flatten, raise, runtime_error, ◌*◌, ℕ, ◌≡◌, refl, true, false, List, [], ◌∷◌, map, arith, range,
  ok,
}
use nemo_rl_submission.Layout.Context.{get_tokens_on_this_cp_rank, gather_cp_tensors}
use nemo_rl_submission.Layout.Context.Whole.{gather_cp_tensors-whole}
use nemo_rl_submission.Layout.Rows.{
  PackedRows, attention_mask, pack_sequences, unpack_vectors, unpack_matrix,
}
use nemo_rl_submission.Layout.Rows.Unpacked.{
  groups_of, true_sequences, padded_groups, unpack_rows, pack_sequences-unpack,
}

-- Two ranks, and slices of two tokens.
abbrev eight : List ℕ
eight = range 8

rank_one : get_tokens_on_this_cp_rank eight 1 2 ≡ 2 ∷ 3 ∷ 4 ∷ 5 ∷ []
unfolding get_tokens_on_this_cp_rank
rank_one = refl

gather_cp_tensors-whole_example :
    gather_cp_tensors (map (λ r. get_tokens_on_this_cp_rank eight r 2) (range 2)) ≡ eight
gather_cp_tensors-whole_example = gather_cp_tensors-whole eight 2 2 (omega arith) (omega arith) refl

-- The batch of the documentation, shortened.
abbrev batch : List (List ℕ)
batch = (1 ∷ 2 ∷ 0 ∷ []) ∷ (3 ∷ 4 ∷ 5 ∷ []) ∷ (6 ∷ 0 ∷ 0 ∷ []) ∷ []

abbrev batch_lengths : List ℕ
batch_lengths = 2 ∷ 3 ∷ 1 ∷ []

-- A vector of two numbers for each token.
abbrev vector : ℕ → ℕ × ℕ
vector token = (token, token * token)

pack_sequences-unpack_example :
    (packed : PackedRows) × (pack_sequences batch batch_lengths (2 ∷ 1 ∷ []) 9 0 ≡ ok packed)
    × (unpack_rows vector (0, 0) packed.input_ids_packed (groups_of (2 ∷ 1 ∷ []) batch_lengths)
        ≡ ok (
            padded_groups vector
              (0, 0)
              (groups_of (2 ∷ 1 ∷ []) (true_sequences batch batch_lengths))))
    × (unpack_rows vector (0, 0) packed.position_ids_packed (groups_of (2 ∷ 1 ∷ []) batch_lengths)
        ≡ ok (padded_groups vector (0, 0) (groups_of (2 ∷ 1 ∷ []) (map range batch_lengths))))
pack_sequences-unpack_example =
    pack_sequences-unpack vector (0, 0) batch batch_lengths 2 (1 ∷ []) 9 0
      (omega arith, (omega arith, (omega arith, tt)))
      (omega arith, omega arith, (omega arith, omega arith, tt))

-- Two sequences of one row, as vectors.
vectors_unpacked :
    unpack_vectors {E = ℕ} 0 ((1 ∷ 2 ∷ 3 ∷ 9 ∷ []) ∷ []) (2 ∷ 1 ∷ [])
    ≡ ok ((1 ∷ 2 ∷ []) ∷ (3 ∷ 0 ∷ []) ∷ [])
unfolding unpack_vectors flatten
vectors_unpacked = refl

-- With two dimensions, sequences of different lengths are not unpacked; those of one length are, by columns.
tokens_not_unpacked : unpack_matrix ((1 ∷ 2 ∷ 3 ∷ 9 ∷ []) ∷ []) (2 ∷ 1 ∷ []) ≡ raise runtime_error
unfolding unpack_matrix
tokens_not_unpacked = refl

tokens_of_one_length :
    unpack_matrix ((1 ∷ 2 ∷ 3 ∷ 4 ∷ 9 ∷ []) ∷ (5 ∷ 6 ∷ 7 ∷ 8 ∷ 9 ∷ []) ∷ []) (2 ∷ 2 ∷ [])
    ≡ ok ((1 ∷ 2 ∷ []) ∷ (5 ∷ 6 ∷ []) ∷ (3 ∷ 4 ∷ []) ∷ (7 ∷ 8 ∷ []) ∷ [])
unfolding unpack_matrix flatten
tokens_of_one_length = refl

-- The third token, the first of the second sequence, attends to the two of the first.
attends_across :
    attention_mask 3 (2 ∷ 1 ∷ []) (2 ∷ [])
    ≡ ((true ∷ false ∷ false ∷ []) ∷ (true ∷ true ∷ false ∷ []) ∷ (true ∷ true ∷ true ∷ []) ∷ [])
      ∷ []
unfolding attention_mask
attends_across = refl
