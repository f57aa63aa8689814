-- ===== src/Layout/Context.antt =====
-- nemo_rl/distributed/model_utils.py: `_get_tokens_on_this_cp_rank`, and `AllGatherCPTensor.forward`,
-- which puts the parts of the ranks together.
pub mod Whole
use nemo_rl_submission.Prelude.{
  ℕ, zero, suc, ◌+◌, ◌-◌, ◌*◌, ◌/◌, Bool, true, false, List, [], ◌∷◌, ◌++◌, map, flatten, ◌==◌, leb,
  if◌then◌else◌, length, take, drop, zip, range, range_from, sort, by_key,
}

-- The numbers of the chunks of the ranks.
abbrev pub chunk_indices : ℕ → List ℕ → List ℕ
chunk_indices cp_size [] = []
chunk_indices cp_size (cp_rank ∷ ranks) =
    cp_rank ∷ (2 * cp_size - cp_rank - 1) ∷ chunk_indices cp_size ranks

module _ {Token : Type 0} where
  -- The slice with this number, of slices of a size.
  abbrev pub nth_slice : List Token → ℕ → ℕ → List Token
  nth_slice input_ids shard_size ind = take shard_size (drop (ind * shard_size) input_ids)

  unfoldable pub get_tokens_on_this_cp_rank : List Token → ℕ → ℕ → List Token
  get_tokens_on_this_cp_rank input_ids cp_rank cp_size =
      let shard_size = length input_ids / (cp_size * 2) in
      if cp_size == 1
      then input_ids
      else nth_slice input_ids shard_size cp_rank
        ++ nth_slice input_ids shard_size (cp_size * 2 - cp_rank - 1)

  -- `torch.chunk(chunks=2)`: the first half, rounded up, and what is behind it, if anything is.
  unfoldable pub chunk_in_two : List Token → List (List Token)
  chunk_in_two xs =
      let half = (length xs + 1) / 2 in
      if leb (length xs) half then xs ∷ [] else take half xs ∷ drop half xs ∷ []

  -- The whole of the tensors of all ranks, which `all_gather` collects.
  unfoldable pub gather_cp_tensors : List (List Token) → List Token
  unfolding chunk_in_two
  gather_cp_tensors cp_rank_chunks =
      let cp_size = length cp_rank_chunks in
      let tensor_chunks = flatten (map chunk_in_two cp_rank_chunks) in
      let chunks_and_indices = zip tensor_chunks (chunk_indices cp_size (range cp_size)) in
      flatten (
        map (λ (c : List Token × ℕ). c.0)
          (sort (by_key (λ (c : List Token × ℕ). c.1)) chunks_and_indices))
