-- ===== src/Batching/Packed/Dealt.antt =====
-- nemo_rl/distributed/batched_data_dict.py: dealing the bins to the shards.
use mathlib.Core.Path.{fun_ext}
use native.Mathlib.Nat.{add_comm, add-zero}
use nemo_rl_submission.Prelude.{
  ℕ, zero, suc, ◌+◌, ◌-◌, ◌*◌, ◌≤◌, ◌<◌, ◌≡◌, refl, sym, ◌∙◌, ap, List, [], ◌∷◌, map, flatten,
  arith, length, All, range, range_from, range-snoc, sum_by, sum_by-flatten, sum_by-map,
  sum_by-append, sum_by-shift, sum_by-range_from, sum_by_swap, sum_by_zero, SameItems,
}
use nemo_rl_submission.Packing.Packer.{IsPacking}
use nemo_rl_submission.Batching.Shards.{Sizes, strided}
use nemo_rl_submission.Batching.Packed.{global_bins, shard_bins, all_bins, packed_indices}

sum_by-range_suc :
    (f : ℕ → ℕ) (j n : ℕ)
    → sum_by f (range_from (suc j) n) ≡ sum_by (λ c. f (suc c)) (range_from j n)
sum_by-range_suc f j zero = refl
sum_by-range_suc f j (suc n) = omega (arith, sum_by-range_suc f (suc j) n)

module _ {ℓ} {A : Type ℓ} where
  -- Together the strides hold each element once.
  pub sum_by-strided :
      (w : A → ℕ) (gap : ℕ) (xs : List A)
      → sum_by (λ i. sum_by w (strided gap i xs)) (range (suc gap)) ≡ sum_by w xs
  unfolding strided
  sum_by-strided w gap [] = sum_by_zero (range (suc gap))
  sum_by-strided w gap (x ∷ xs) = omega (
    arith,
    sum_by-range_suc (λ i. sum_by w (strided gap i (x ∷ xs))) 0 gap,
    ap (sum_by (λ i. sum_by w (strided gap i xs))) (range-snoc gap),
    sum_by-append (λ i. sum_by w (strided gap i xs)) (range gap) (gap ∷ []),
    sum_by-strided w gap xs,
  )

  stride_bounds :
      (gap i : ℕ) (xs : List A)
      → i ≤ gap
      → (length xs ≤ length (strided gap i xs) * suc gap + i)
        × (length (strided gap i xs) * suc gap + i < length xs + suc gap)
  unfolding strided
  stride_bounds gap i [] h = (omega arith, omega arith)
  stride_bounds gap zero (x ∷ xs) h =
      let (low, high) = stride_bounds gap gap xs (omega arith) in (grind arith, grind arith)
  stride_bounds gap (suc i) (x ∷ xs) h =
      let (low, high) = stride_bounds gap i xs (omega arith) in (omega arith, omega arith)

  -- Where the step divides the length, all strides are equally long.
  pub length-strided :
      (gap i q : ℕ) (xs : List A)
      → i ≤ gap
      → length xs ≡ q * suc gap
      → length (strided gap i xs) ≡ q
  length-strided gap i q xs h e = let (low, high) = stride_bounds gap i xs h in grind arith

pub shard_bins-strided :
    (gap i : ℕ) (bins : List (List ℕ)) → shard_bins (suc gap) bins i ≡ strided gap i bins
unfolding shard_bins
shard_bins-strided gap i bins = let one : suc gap - 1 ≡ gap = omega arith in rw one refl

-- The places of a shard, summed chunk by chunk.
sum_by-shard :
    (w : ℕ → ℕ) (gap i : ℕ) (chunks : List (List (List ℕ)))
    → sum_by w (flatten (flatten (map (λ bins. shard_bins (suc gap) bins i) chunks)))
      ≡ sum_by (λ bins. sum_by (sum_by w) (strided gap i bins)) chunks
sum_by-shard w gap i chunks =
    sum_by-flatten w (flatten (map (λ bins. shard_bins (suc gap) bins i) chunks))
    ∙ sum_by-flatten (sum_by w) (map (λ bins. shard_bins (suc gap) bins i) chunks)
    ∙ sum_by-map (sum_by (sum_by w)) (λ bins. shard_bins (suc gap) bins i) chunks
    ∙ ap (λ f. sum_by f chunks)
        (fun_ext (λ bins. ap (sum_by (sum_by w)) (shard_bins-strided gap i bins)))

abbrev shard_places : ℕ → List (List (List ℕ)) → ℕ → List ℕ
shard_places gap chunks i = flatten (flatten (map (λ bins. shard_bins (suc gap) bins i) chunks))

-- Dealing keeps every place of every bin.
pub sum_by-packed_indices :
    (w : ℕ → ℕ) (gap : ℕ) (chunks : List (List (List ℕ)))
    → sum_by w (packed_indices (suc gap) chunks) ≡ sum_by (sum_by (sum_by w)) chunks
unfolding packed_indices
sum_by-packed_indices w gap chunks =
    sum_by-flatten w (map (shard_places gap chunks) (range (suc gap)))
    ∙ sum_by-map (sum_by w) (shard_places gap chunks) (range (suc gap))
    ∙ ap (λ f. sum_by f (range (suc gap))) (fun_ext (λ i. sum_by-shard w gap i chunks))
    ∙ sum_by_swap (λ i bins. sum_by (sum_by w) (strided gap i bins)) (range (suc gap)) chunks
    ∙ ap (λ f. sum_by f chunks) (fun_ext (λ bins. sum_by-strided (sum_by w) gap bins))

-- The places of one chunk's bins.
sum_by-global :
    (w : ℕ → ℕ) (z : Sizes) (i capacity : ℕ) (lens : List ℕ) (bins : List (List ℕ))
    → length lens ≡ z.batch_size
    → IsPacking capacity lens bins
    → sum_by (sum_by w) (global_bins z i bins)
      ≡ sum_by w (range_from (i * z.batch_size) z.batch_size)
unfolding global_bins
sum_by-global w z i capacity lens bins many p =
    sum_by-map (sum_by w) (map (λ k. k + i * z.batch_size)) bins
    ∙ ap (λ f. sum_by f bins) (fun_ext (λ bin. sum_by-map w (λ k. k + i * z.batch_size) bin))
    ∙ sym (sum_by-flatten (λ k. w (k + i * z.batch_size)) bins)
    ∙ p.same (λ k. w (k + i * z.batch_size))
    ∙ ap (λ n. sum_by (λ k. w (k + i * z.batch_size)) (range n)) many
    ∙ ap (λ f. sum_by f (range z.batch_size)) (fun_ext (λ k. ap w (add_comm k (i * z.batch_size))))
    ∙ sum_by-shift w (i * z.batch_size) 0 z.batch_size
    ∙ ap (λ j. sum_by w (range_from j z.batch_size)) (add-zero (i * z.batch_size))

-- A list of packings of the chunks' lengths.
abbrev pub ArePackings : ℕ → List (List ℕ) → List (List (List ℕ)) → Type 0
ArePackings capacity [] [] = Unit
ArePackings capacity (lens ∷ chunks) (bins ∷ packed) =
    IsPacking capacity lens bins × ArePackings capacity chunks packed
ArePackings capacity _ _ = ⊥

sum_by-all_bins :
    (w : ℕ → ℕ) (z : Sizes) (i capacity : ℕ) (chunks : List (List ℕ))
    (packed : List (List (List ℕ)))
    → All (λ lens. length lens ≡ z.batch_size) chunks
    → ArePackings capacity chunks packed
    → sum_by (sum_by (sum_by w)) (all_bins z i packed)
      ≡ sum_by w (range_from (i * z.batch_size) (length chunks * z.batch_size))
unfolding all_bins
sum_by-all_bins w z i capacity [] [] long h =
    let none_left : 0 * z.batch_size ≡ 0 = omega arith in rw none_left refl
sum_by-all_bins w z i capacity [] (bins ∷ packed) long h = absurd h
sum_by-all_bins w z i capacity (lens ∷ chunks) [] long h = absurd h
sum_by-all_bins w z i capacity (lens ∷ chunks) (bins ∷ packed) long h =
    let more : suc (length chunks) * z.batch_size ≡ z.batch_size + length chunks * z.batch_size =
      grind arith in
    let later : suc i * z.batch_size ≡ i * z.batch_size + z.batch_size = grind arith in
    let rest : sum_by (sum_by (sum_by w)) (all_bins z (suc i) packed)
        ≡ sum_by w (range_from (i * z.batch_size + z.batch_size) (length chunks * z.batch_size)) =
      rw later at (sum_by-all_bins w z (suc i) capacity chunks packed long.1 h.1) in
    rw more (
      omega (
        arith,
        sum_by-global w z i capacity lens bins long.0 h.0,
        rest,
        sum_by-range_from w (i * z.batch_size) z.batch_size (length chunks * z.batch_size),
      ))

-- Where each chunk's bins are a packing of its sequences, `batch_sorted_indices` rearranges the places
-- of the batch.
pub packed_indices-SameItems :
    (z : Sizes) (shards capacity : ℕ) (chunks : List (List ℕ)) (packed : List (List (List ℕ)))
    → 0 < shards
    → All (λ lens. length lens ≡ z.batch_size) chunks
    → ArePackings capacity chunks packed
    → SameItems (packed_indices shards (all_bins z 0 packed)) (range (length chunks * z.batch_size))
packed_indices-SameItems z zero capacity chunks packed pos long h = absurd (omega arith)
packed_indices-SameItems z (suc gap) capacity chunks packed pos long h = λ w.
    let start : 0 * z.batch_size ≡ 0 = omega arith in
    sum_by-packed_indices w gap (all_bins z 0 packed)
    ∙ rw start at (sum_by-all_bins w z 0 capacity chunks packed long h)
