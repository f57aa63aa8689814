-- ===== src/Transfer/Consumer/Filled.antt =====
-- The inner loop of `packed_broadcast_consumer`, in any of its buffers.
use mathlib.Core.Path.{subst}
use nemo_rl_submission.Prelude.{
  ℕ, ◌+◌, ◌<◌, ◌≡◌, refl, sym, ap, ◌∙◌, inl, inr, Bool, true, false, List, [], ◌∷◌, ◌++◌, map,
  append_assoc, append-nil, arith, All, ltb, length, get_or, set, Bool-cases,
}
use nemo_rl_submission.Prelude.Text.{Text}
use nemo_rl_submission.Transfer.Stream.{Bytes}
use nemo_rl_submission.Transfer.Receive.{TensorInfo, size_in_bytes}
use nemo_rl_submission.Transfer.Consumer.{MetaData, Consumer, add_meta_data, pack_meta_data}
use nemo_rl_submission.Transfer.Consumer.Unpacked.{IsSized, metas_from}
use nemo_rl_submission.Transfer.Broadcast.Chunks.{
  set-set, get_or-set_same, total, first_chunk, first_chunk-over, first_chunk-within,
}

-- The consumer with this metadata and the size of it in its current buffer.
abbrev pub filled_meta : ℕ → Consumer → List MetaData → ℕ → Consumer
filled_meta i s acc sum = record s {
  buffer_idx = i;
  packing_tensor_meta_data = set s.packing_tensor_meta_data i acc;
  packing_tensor_sizes = set s.packing_tensor_sizes i sum;
  offsets = set s.offsets i sum;
}

pub zero_right : (n : ℕ) → n ≡ n + 0
zero_right n = omega arith

pub sum_assoc : (a b c : ℕ) → a + b + c ≡ a + (b + c)
sum_assoc a b c = omega arith

module _ {Item : Type 0} (target : ℕ) (name : Item → Text) (info : Item → TensorInfo)
    (bytes : Item → Bytes) where
  abbrev pub key_of : Item → Text × TensorInfo
  key_of x = (name x, info x)

  abbrev pub length_of : Item → ℕ
  length_of x = length (bytes x)

  metas_split :
      (x : Item) (acc : List MetaData) (xs : List Item) (sum : ℕ)
      → size_in_bytes (info x) ≡ length_of x
      → (acc ++ metas_from name info bytes sum (x ∷ []))
          ++ metas_from name info bytes (sum + length_of x) xs
        ≡ acc ++ metas_from name info bytes sum (x ∷ xs)
  metas_split x acc xs sum sized =
      rw
        (
          append_assoc acc (metas_from name info bytes sum (x ∷ []))
              (metas_from name info bytes (sum + length_of x) xs),
          sized,
        )
        refl

  pack_meta_data-over :
      (s : Consumer) (x : Text × TensorInfo) (xs : List (Text × TensorInfo))
      → let t = add_meta_data x s in
        ltb target (get_or t.packing_tensor_sizes t.buffer_idx 0) ≡ true
        → pack_meta_data target s (x ∷ xs) ≡ (t, xs, false)
  unfolding pack_meta_data
  pack_meta_data-over s x xs h = rw (pack_meta_data, h) refl

  pack_meta_data-within :
      (s : Consumer) (x : Text × TensorInfo) (xs : List (Text × TensorInfo))
      → let t = add_meta_data x s in
        ltb target (get_or t.packing_tensor_sizes t.buffer_idx 0) ≡ false
        → pack_meta_data target s (x ∷ xs) ≡ pack_meta_data target t xs
  unfolding pack_meta_data
  pack_meta_data-within s x xs h = rw (pack_meta_data, h) refl

  module _ (i : ℕ) (s : Consumer) (has_list : i < length s.packing_tensor_meta_data)
      (has_size : i < length s.packing_tensor_sizes) (has_offset : i < length s.offsets) where
    add_meta_data-filled :
        (x : Item) (acc : List MetaData) (sum : ℕ)
        → size_in_bytes (info x) ≡ length_of x
        → add_meta_data (key_of x) (filled_meta i s acc sum)
          ≡ filled_meta i s (acc ++ metas_from name info bytes sum (x ∷ [])) (sum + length_of x)
    unfolding add_meta_data
    add_meta_data-filled x acc sum sized =
        let meta : MetaData = record {
          name = name x;
          info = info x;
          offset = sum;
          tensor_size = length_of x;
        } in
        rw
          (
            get_or-set_same s.packing_tensor_meta_data i acc [] has_list,
            get_or-set_same s.packing_tensor_sizes i sum 0 has_size,
            get_or-set_same s.offsets i sum 0 has_offset,
            sized,
            set-set s.packing_tensor_sizes i sum (sum + length_of x),
            set-set s.offsets i sum (sum + length_of x),
            set-set s.packing_tensor_meta_data i acc (acc ++ meta ∷ []),
          )
          refl

    -- The state, the rest and the end of the iterator after a chunk.
    abbrev pub filled_meta_by :
        List MetaData
        → ℕ
        → List Item × List Item × Bool
        → Consumer × List (Text × TensorInfo) × Bool
    filled_meta_by acc sum cut = (
      filled_meta i s (acc ++ metas_from name info bytes sum cut.0)
          (sum + total target length_of cut.0),
      map key_of cut.1,
      cut.2,
    )

    size_so_far :
        (x : Item) (acc : List MetaData) (sum : ℕ)
        → size_in_bytes (info x) ≡ length_of x
        → let t = add_meta_data (key_of x) (filled_meta i s acc sum) in
          get_or t.packing_tensor_sizes t.buffer_idx 0 ≡ sum + length_of x
    size_so_far x acc sum sized =
        ap (λ t. get_or t.packing_tensor_sizes t.buffer_idx 0)
          (add_meta_data-filled x acc sum sized)
        ∙ get_or-set_same s.packing_tensor_sizes i (sum + length_of x) 0 has_size

    -- The inner loop takes the first chunk.
    pub pack_meta_data-filled :
        (items : List Item) (acc : List MetaData) (sum : ℕ)
        → All (IsSized name info bytes) items
        → pack_meta_data target (filled_meta i s acc sum) (map key_of items)
          ≡ filled_meta_by acc sum (first_chunk target length_of sum items)
    unfolding pack_meta_data
    pack_meta_data-filled [] acc sum sized =
        ap (λ t. (t, [], true))
          (ap (λ l. filled_meta i s l sum) (sym (append-nil acc))
            ∙ ap (filled_meta i s (acc ++ [])) (zero_right sum))
    pack_meta_data-filled (x ∷ xs) acc sum sized =
        let start = filled_meta i s acc sum in
        let added = add_meta_data-filled x acc sum sized.0 in
        let size = size_so_far x acc sum sized.0 in
        let acc' = acc ++ metas_from name info bytes sum (x ∷ []) in
        let packing = pack_meta_data target start (map key_of (x ∷ xs)) in
        elim (Bool-cases (ltb target (sum + length_of x))) [
          | inl past ↦
              subst (λ c. packing ≡ filled_meta_by acc sum c)
                (sym (first_chunk-over target length_of sum x xs past))
                (pack_meta_data-over start (key_of x) (map key_of xs) (ap (ltb target) size ∙ past)
                  ∙ ap (λ t. (t, map key_of xs, false))
                      (added ∙ ap (λ n. filled_meta i s acc' (sum + n)) (zero_right (length_of x))))
          | inr within ↦
              let later = first_chunk target length_of (sum + length_of x) xs in
              subst (λ c. packing ≡ filled_meta_by acc sum c)
                (sym (first_chunk-within target length_of sum x xs within))
                (pack_meta_data-within start (key_of x) (map key_of xs)
                    (ap (ltb target) size ∙ within)
                  ∙ (ap (λ t. pack_meta_data target t (map key_of xs)) added
                      ∙ (pack_meta_data-filled xs acc' (sum + length_of x) sized.1
                          ∙ ap (λ t. (t, map key_of later.1, later.2))
                              (ap
                                  (λ l.
                                    filled_meta i s l
                                      (sum + length_of x + total target length_of later.0))
                                  (metas_split x acc later.0 sum sized.0)
                                ∙ ap
                                    (filled_meta i s
                                      (acc ++ metas_from name info bytes sum (x ∷ later.0)))
                                    (sum_assoc sum (length_of x)
                                      (total target length_of later.0))))))
        ]
