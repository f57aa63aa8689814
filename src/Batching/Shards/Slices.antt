-- ===== src/Batching/Shards/Slices.antt =====
-- nemo_rl/distributed/batched_data_dict.py: the slices of `shard_by_batch_size` without dynamic batching.
use mathlib.Core.Path.{subst, fun_ext}
use nemo_rl_submission.Prelude.{
  ℕ, zero, suc, ◌+◌, ◌*◌, ◌/◌, ◌%◌, ◌≤◌, ◌<◌, ◌≡◌, refl, sym, ◌∙◌, ap, false, some, List, [], ◌∷◌,
  ◌++◌, map, arith, length, take, drop, item_at, pick, All-map, All-of_map, range, range_from,
  flatten, length-range_from, ok,
}
use nemo_rl_submission.Prelude.Text.{Text}
use nemo_rl_submission.Batching.Batch.{
  Column, BatchedDataDict, new_dict, on_elements, batch_size_of, select_column,
}
use nemo_rl_submission.Batching.Batch.Places.{below-range_from}
use nemo_rl_submission.Batching.Batch.Reorder.{
  AreLong, AreLong-of_batch_size, each-ok, select_column-ok,
}
use nemo_rl_submission.Batching.Shards.{
  Sizes, sizes_of, shard_indices, gather_column, shard_of, shard_by_batch_size,
}

module _ {ℓ} {A : Type ℓ} where
  take-nil : (n a : ℕ) → take {A = A} n (drop {A = A} a []) ≡ []
  take-nil zero zero = refl
  take-nil (suc n) zero = refl
  take-nil zero (suc a) = refl
  take-nil (suc n) (suc a) = refl

  pick-nil : (is : List ℕ) → pick {A = A} [] is ≡ []
  pick-nil [] = refl
  pick-nil (i ∷ is) = pick-nil is

  pick-cons :
      (x : A) (xs : List A) (a n : ℕ)
      → pick (x ∷ xs) (range_from (suc a) n) ≡ pick xs (range_from a n)
  pick-cons x xs a zero = refl
  pick-cons x xs a (suc n) = ap (item_at a xs ++◌) (pick-cons x xs (suc a) n)

  -- Consecutive places are a slice.
  pub pick-slice : (xs : List A) (a n : ℕ) → pick xs (range_from a n) ≡ take n (drop a xs)
  pick-slice [] a n = pick-nil (range_from a n) ∙ sym (take-nil n a)
  pick-slice (x ∷ xs) zero zero = refl
  pick-slice (x ∷ xs) zero (suc n) = ap (x ∷◌) (pick-cons x xs zero n ∙ pick-slice xs zero n)
  pick-slice (x ∷ xs) (suc a) n = pick-cons x xs a n ∙ pick-slice xs a n

piece_below :
    (n q total s c : ℕ)
    → 0 < n
    → total % n ≡ 0
    → c < total / n
    → (s + 1) * q ≤ n
    → c * n + s * q + q ≤ total
piece_below n q total s c pos whole inside fits = grind arith

shard_below : (n shards s : ℕ) → 0 < shards → s < shards → (s + 1) * (n / shards) ≤ n
shard_below n shards s pos inside = grind arith

abbrev sizes_for : ℕ → ℕ → ℕ → Sizes
sizes_for shards n total = record {
  total_batch_size = total;
  batch_size = n;
  num_chunks = total / n;
  shard_size = n / shards;
}

sizes_of-ok :
    (shards n total : ℕ)
    → 0 < n
    → 0 < shards
    → total % n ≡ 0
    → n % shards ≡ 0
    → sizes_of shards (some n) false total ≡ ok (sizes_for shards n total)
unfolding sizes_of
sizes_of-ok shards n total some_chunk some_shard whole even = ground arith

shard_indices_lem :
    (shards n total s c : ℕ)
    → shard_indices (sizes_for shards n total) false s c
      ≡ range_from (c * n + s * (n / shards)) (n / shards)
unfolding shard_indices
shard_indices_lem shards n total s c = ap (range_from (c * n + s * (n / shards))) (grind arith)

part_pos : (n m : ℕ) → 0 < n → 0 < m → n % m ≡ 0 → 0 < n / m
part_pos n m pos pos' whole = grind arith

module _ {E : Type 0} where
  -- The slices of one shard, of every chunk.
  abbrev pub slices : ℕ → ℕ → ℕ → ℕ → List E → List E
  slices chunks chunk_size shard_size s xs =
      flatten
        (map (λ c. take shard_size (drop (c * chunk_size + s * shard_size) xs)) (range chunks))

  elements_of_pieces :
      (e : Text × Column E) (n q s : ℕ) (cs : List ℕ)
      → flatten (
          map
            (λ (p : Text × Column E). p.1.elements)
            (map
              (λ is. on_elements (λ xs. pick xs is) e)
              (map (λ c. range_from (c * n + s * q) q) cs)))
        ≡ flatten (map (λ c. take q (drop (c * n + s * q) e.1.elements)) cs)
  unfolding flatten
  elements_of_pieces (key, c) n q s [] = refl
  elements_of_pieces (key, c) n q s (chunk ∷ cs) =
      rw (pick-slice c.elements (chunk * n + s * q) q) (
        ap (take q (drop (chunk * n + s * q) c.elements) ++◌)
          (elements_of_pieces (key, c) n q s cs))

  -- A piece of every chunk.
  gather_column-slices :
      (e : Text × Column E) (n q s chunks : ℕ)
      → 0 < q
      → ((c : ℕ) → c < chunks → c * n + s * q + q ≤ length e.1.elements)
      → gather_column (map (λ c. range_from (c * n + s * q) q) (range chunks)) e
        ≡ ok (on_elements (slices chunks n q s) e)
  unfolding gather_column
  gather_column-slices (key, c) n q s chunks pos inside =
      rw
        (
          each-ok (λ indices. select_column indices (key, c))
              (λ indices. on_elements (λ xs. pick xs indices) (key, c))
              (map (λ c. range_from (c * n + s * q) q) (range chunks))
              (All-of_map _ (λ c. range_from (c * n + s * q) q) (range chunks)
                (All-map
                  (λ chunk below.
                    select_column-ok (range_from (chunk * n + s * q) q) (key, c)
                      (below-range_from (chunk * n + s * q) q (length c.elements)
                        (inside chunk (ground (arith, below))))
                      (omega (arith, pos, length-range_from (chunk * n + s * q) q)))
                  (range chunks) (below-range_from 0 chunks chunks (omega arith)))),
          elements_of_pieces (key, c) n q s (range chunks),
        )
        refl

  shard_of-slices :
      (columns : List (Text × Column E)) (shards n total s : ℕ)
      → AreLong total columns
      → 0 < total
      → 0 < n
      → s < shards
      → total % n ≡ 0
      → n % shards ≡ 0
      → shard_of (sizes_for shards n total) false columns s
        ≡ ok (new_dict (map (on_elements (slices (total / n) n (n / shards) s)) columns))
  unfolding shard_of
  shard_of-slices columns shards n total s long some_rows some_chunk inside whole even =
      rw
        (
          fun_ext (shard_indices_lem shards n total s),
          each-ok
              (gather_column
                (map (λ c. range_from (c * n + s * (n / shards)) (n / shards)) (range (total / n))))
              (on_elements (slices (total / n) n (n / shards) s)) columns
              (All-map
                (λ (e : Text × Column E) l.
                  gather_column-slices e n (n / shards) s (total / n)
                    (part_pos n shards some_chunk (omega arith) even)
                    (λ c in_chunk.
                      subst (λ m. c * n + s * (n / shards) + n / shards ≤ m) (sym l)
                        (piece_below n (n / shards) total s c some_chunk whole in_chunk
                          (shard_below n shards s (omega arith) inside))))
                columns long),
        )
        (ground (arith, part_pos total n some_rows some_chunk whole))

  -- For a batch of a positive size that `chunk_size` divides, and a chunk size that the number of
  -- shards divides: `shard_by_batch_size` returns the shards, and shard `s` has in every column, chunk
  -- after chunk, the `s`-th of the chunk's equal consecutive parts.
  pub shard_by_batch_size-slices :
      (shards chunk_size total : ℕ) (b : BatchedDataDict E)
      → batch_size_of b ≡ ok total
      → 0 < total
      → 0 < chunk_size
      → 0 < shards
      → total % chunk_size ≡ 0
      → chunk_size % shards ≡ 0
      → shard_by_batch_size shards (some chunk_size) false b
        ≡ ok (
            map
              (λ s. new_dict (
                map
                  (on_elements (slices (total / chunk_size) chunk_size (chunk_size / shards) s))
                  b.columns))
              (range shards))
  unfolding shard_by_batch_size sizes_of shard_of shard_indices
  shard_by_batch_size-slices shards chunk_size total b sized some_rows some_chunk some_shard whole
        even =
      let long = AreLong-of_batch_size total b sized in
      rw
        (
          sized,
          sizes_of-ok shards chunk_size total some_chunk some_shard whole even,
          each-ok (shard_of (sizes_for shards chunk_size total) false b.columns)
              (λ s. new_dict (
                map (on_elements (slices (total / chunk_size) chunk_size (chunk_size / shards) s))
                  b.columns))
              (range shards)
              (All-map
                (λ s below.
                  shard_of-slices b.columns shards chunk_size total s long some_rows some_chunk
                    (ground (arith, below)) whole even)
                (range shards) (below-range_from 0 shards shards (omega arith))),
        )
        refl
