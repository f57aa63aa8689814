-- ===== src/Transfer/Broadcast/Filled.antt =====
-- The inner loop of `packed_broadcast_producer`, in any of its buffers.
use mathlib.Core.Path.{subst}
use nemo_rl_submission.Prelude.{
  ℕ, ◌+◌, ◌<◌, ◌≡◌, refl, sym, ap, ◌∙◌, inl, inr, Bool, true, false, List, [], ◌∷◌, ◌++◌, map,
  append_assoc, append-nil, arith, ltb, length, get_or, set, Bool-cases,
}
use nemo_rl_submission.Transfer.Stream.{Bytes}
use nemo_rl_submission.Transfer.Broadcast.{Producer, add_tensor, pack_tensors}
use nemo_rl_submission.Transfer.Broadcast.Chunks.{
  set-set, get_or-set_same, total, first_chunk, first_chunk-over, first_chunk-within,
}

-- The producer with these tensors and their size in its current buffer.
abbrev pub filled :
    ℕ → List (List Bytes) → List ℕ → List Bytes → List Bytes → List Bytes → ℕ → Producer
filled i lists sizes packed broadcast acc sum = record {
  buffer_idx = i;
  packing_tensor_list = set lists i acc;
  packing_tensor_sizes = set sizes i sum;
  packed_tensors = packed;
  broadcast = broadcast;
}

zero_right : (n : ℕ) → n ≡ n + 0
zero_right n = omega arith

sum_assoc : (a b c : ℕ) → a + b + c ≡ a + (b + c)
sum_assoc a b c = omega arith

module _ {Item : Type 0} (target : ℕ) (post_iter_func : Item → Bytes) where
  abbrev pub size_of : Item → ℕ
  size_of x = length (post_iter_func x)

  pack_tensors-over :
      (s : Producer) (x : Item) (xs : List Item)
      → let t = add_tensor (post_iter_func x) s in
        ltb target (get_or t.packing_tensor_sizes t.buffer_idx 0) ≡ true
        → pack_tensors target post_iter_func s (x ∷ xs) ≡ (t, xs, false)
  unfolding pack_tensors
  pack_tensors-over s x xs h = rw (pack_tensors, h) refl

  pack_tensors-within :
      (s : Producer) (x : Item) (xs : List Item)
      → let t = add_tensor (post_iter_func x) s in
        ltb target (get_or t.packing_tensor_sizes t.buffer_idx 0) ≡ false
        → pack_tensors target post_iter_func s (x ∷ xs) ≡ pack_tensors target post_iter_func t xs
  unfolding pack_tensors
  pack_tensors-within s x xs h = rw (pack_tensors, h) refl

  module _ (i : ℕ) (lists : List (List Bytes)) (sizes : List ℕ) (packed broadcast : List Bytes)
      (has_list : i < length lists) (has_size : i < length sizes) where
    add_tensor-filled :
        (b : Bytes) (acc : List Bytes) (sum : ℕ)
        → add_tensor b (filled i lists sizes packed broadcast acc sum)
          ≡ filled i lists sizes packed broadcast (acc ++ b ∷ []) (sum + length b)
    unfolding add_tensor
    add_tensor-filled b acc sum =
        rw
          (
            get_or-set_same lists i acc [] has_list,
            get_or-set_same sizes i sum 0 has_size,
            set-set lists i acc (acc ++ b ∷ []),
            set-set sizes i sum (sum + length b),
          )
          refl

    packed_so_far :
        (b : Bytes) (acc : List Bytes) (sum : ℕ)
        → let t = add_tensor b (filled i lists sizes packed broadcast acc sum) in
          get_or t.packing_tensor_sizes t.buffer_idx 0 ≡ sum + length b
    packed_so_far b acc sum =
        ap (λ t. get_or t.packing_tensor_sizes t.buffer_idx 0) (add_tensor-filled b acc sum)
        ∙ get_or-set_same sizes i (sum + length b) 0 has_size

    -- The state, the rest and the end of the iterator after a chunk.
    abbrev pub filled_by :
        List Bytes → ℕ → List Item × List Item × Bool → Producer × List Item × Bool
    filled_by acc sum cut = (
      filled i lists sizes packed broadcast (acc ++ map post_iter_func cut.0)
          (sum + total target size_of cut.0),
      cut.1,
      cut.2,
    )

    -- The inner loop takes the first chunk.
    pub pack_tensors-filled :
        (items : List Item) (acc : List Bytes) (sum : ℕ)
        → pack_tensors target post_iter_func (filled i lists sizes packed broadcast acc sum) items
          ≡ filled_by acc sum (first_chunk target size_of sum items)
    unfolding pack_tensors
    pack_tensors-filled [] acc sum =
        ap (λ t. (t, [], true))
          (ap (λ l. filled i lists sizes packed broadcast l sum) (sym (append-nil acc))
            ∙ ap (filled i lists sizes packed broadcast (acc ++ [])) (zero_right sum))
    pack_tensors-filled (x ∷ xs) acc sum =
        let b = post_iter_func x in
        let s = filled i lists sizes packed broadcast acc sum in
        let added = add_tensor-filled b acc sum in
        let size = packed_so_far b acc sum in
        elim (Bool-cases (ltb target (sum + size_of x))) [
          | inl past ↦
              subst (λ c. pack_tensors target post_iter_func s (x ∷ xs) ≡ filled_by acc sum c)
                (sym (first_chunk-over target size_of sum x xs past))
                (pack_tensors-over s x xs (ap (ltb target) size ∙ past)
                  ∙ ap (λ t. (t, xs, false))
                      (added
                        ∙ ap (λ n. filled i lists sizes packed broadcast (acc ++ b ∷ []) (sum + n))
                            (zero_right (length b))))
          | inr within ↦
              let later = first_chunk target size_of (sum + size_of x) xs in
              subst (λ c. pack_tensors target post_iter_func s (x ∷ xs) ≡ filled_by acc sum c)
                (sym (first_chunk-within target size_of sum x xs within))
                (pack_tensors-within s x xs (ap (ltb target) size ∙ within)
                  ∙ (ap (λ t. pack_tensors target post_iter_func t xs) added
                      ∙ (pack_tensors-filled xs (acc ++ b ∷ []) (sum + length b)
                          ∙ ap (λ t. (t, later.1, later.2))
                              (ap
                                  (λ l.
                                    filled i lists sizes packed broadcast l
                                      (sum + length b + total target size_of later.0))
                                  (append_assoc acc (b ∷ []) (map post_iter_func later.0))
                                ∙ ap
                                    (filled i lists sizes packed broadcast
                                      (acc ++ b ∷ map post_iter_func later.0))
                                    (sum_assoc sum (length b) (total target size_of later.0))))))
        ]
