-- ===== src/Transfer/Broadcast/Produced.antt =====
-- What `packed_broadcast_producer` broadcasts, for any number of buffers.
use native.Mathlib.Nat.{mod-lt}
use nemo_rl_submission.Prelude.{
  ℕ, zero, suc, ◌+◌, ◌%◌, ◌<◌, ◌≡◌, refl, sym, ap, ◌∙◌, inl, inr, Bool, true, false, Option, some,
  List, [], ◌∷◌, ◌++◌, map, flatten, append_assoc, append-nil, arith, length, get_or, replicate,
  length-set, ok,
}
use nemo_rl_submission.Transfer.Stream.{Bytes}
use nemo_rl_submission.Transfer.Broadcast.{
  Producer, next_buffer, broadcast_packed, pack_tensors, produce, idle_producer,
  packed_broadcast_producer,
}
use nemo_rl_submission.Transfer.Broadcast.Filled.{filled, pack_tensors-filled}
use nemo_rl_submission.Transfer.Broadcast.Chunks.{
  IsCut, chunks-flatten, chunks-IsCut, get_or-set_same, total, first_chunk, nonempty, chunks,
  chunks-done, chunks-more, first_chunk-rest,
}

module _ {Item : Type 0} (target : ℕ) (post_iter_func : Item → Bytes) where
  -- The size of an item is that of its tensor.
  abbrev size : Item → ℕ
  size x = length (post_iter_func x)

  abbrev pub packet : List Item → Bytes
  packet chunk = flatten (map post_iter_func chunk)

  -- What the outer loop does after the inner one.
  abbrev after_pass : ℕ → Producer × List Item × Bool → Option (List Bytes)
  after_pass fuel pass = elim pass.2 [
    | false ↦ produce target post_iter_func fuel (broadcast_packed pass.0) pass.1
    | true ↦ elim (get_or pass.0.packing_tensor_list pass.0.buffer_idx []) [
      | [] ↦ some pass.0.broadcast
      | _ ∷ _ ↦ some (broadcast_packed pass.0).broadcast
    ]
  ]

  produce-pass :
      (fuel : ℕ) (s : Producer) (items : List Item)
      → produce target post_iter_func (suc fuel) s items
        ≡ after_pass fuel (pack_tensors target post_iter_func (next_buffer s) items)
  unfolding produce
  produce-pass fuel s items = refl

  abbrev ending_of : Producer → List Bytes → Option (List Bytes)
  ending_of t tensors = elim tensors [
    | [] ↦ some t.broadcast
    | _ ∷ _ ↦ some (broadcast_packed t).broadcast
  ]

  ending_of-nonempty :
      (t : Producer) (chunk : List Item)
      → get_or t.packing_tensor_list t.buffer_idx [] ≡ map post_iter_func chunk
      → ending_of t (map post_iter_func chunk)
        ≡ some (t.broadcast ++ map packet (nonempty target size chunk))
  unfolding broadcast_packed
  ending_of-nonempty t [] h = ap some (sym (append-nil t.broadcast))
  ending_of-nonempty t (x ∷ xs) h = ap (λ l. some (t.broadcast ++ flatten l ∷ [])) h

  -- The last packet, if there is one.
  produce-ends :
      (fuel : ℕ) (rest chunk : List Item) (t : Producer)
      → get_or t.packing_tensor_list t.buffer_idx [] ≡ map post_iter_func chunk
      → after_pass fuel (t, rest, true)
        ≡ some (t.broadcast ++ map packet (nonempty target size chunk))
  unfolding broadcast_packed
  produce-ends fuel rest chunk t h = ap (ending_of t) h ∙ ending_of-nonempty t chunk h

  -- The buffers of a producer.
  pub record HasBuffers (s : Producer) : Type 0 where
    pub some_list : 0 < length s.packing_tensor_list
    pub same_number : length s.packing_tensor_sizes ≡ length s.packing_tensor_list

  -- The outer loop broadcasts the packets of the chunks, whatever buffers it has.
  produce-chunks :
      (fuel : ℕ) (s : Producer) (items : List Item)
      → HasBuffers s
      → length items < fuel
      → produce target post_iter_func fuel s items
        ≡ some (s.broadcast ++ map packet (chunks target size fuel items))
  unfolding next_buffer broadcast_packed
  produce-chunks zero s items h enough = absurd (omega arith)
  produce-chunks (suc fuel) s items h enough =
      let i = (s.buffer_idx + 1) % length s.packing_tensor_list in
      let below : i < length s.packing_tensor_list = mod-lt (s.buffer_idx + 1) h.some_list in
      let below' : i < length s.packing_tensor_sizes = omega (arith, below, h.same_number) in
      let cut = first_chunk target size 0 items in
      let t =
        filled i s.packing_tensor_list s.packing_tensor_sizes s.packed_tensors s.broadcast
          (map post_iter_func cut.0) (0 + total target size cut.0) in
      let filling =
        pack_tensors-filled target post_iter_func i s.packing_tensor_list s.packing_tensor_sizes
          s.packed_tensors s.broadcast below below' items [] 0 in
      let listed : get_or t.packing_tensor_list i [] ≡ map post_iter_func cut.0 =
        get_or-set_same s.packing_tensor_list i (map post_iter_func cut.0) [] below in
      let passed : pack_tensors target post_iter_func (next_buffer s) items ≡ (t, cut.1, cut.2) =
        filling in
      produce-pass fuel s items
      ∙ (ap (after_pass fuel) passed ∙ elim (first_chunk-rest target size 0 items) [
        | inl (done, _) ↦
            ap (λ e. after_pass fuel (t, cut.1, e)) done
            ∙ (produce-ends fuel cut.1 cut.0 t listed
                ∙ ap (λ l. some (s.broadcast ++ map packet l))
                    (sym (chunks-done target size fuel items done)))
        | inr (more, less) ↦
            ap (λ e. after_pass fuel (t, cut.1, e)) more
            ∙ (produce-chunks fuel (broadcast_packed t) cut.1
                  (record {
                    some_list = omega (
                      arith,
                      below,
                      length-set s.packing_tensor_list i (map post_iter_func cut.0),
                    );
                    same_number = omega (
                      arith,
                      h.same_number,
                      length-set s.packing_tensor_list i (map post_iter_func cut.0),
                      length-set s.packing_tensor_sizes i (0 + total target size cut.0),
                    );
                  })
                  (omega (arith, less))
                ∙ (ap
                      (λ l. some (
                        (s.broadcast ++ flatten l ∷ [])
                        ++ map packet (chunks target size fuel cut.1)))
                      listed
                    ∙ (ap some (
                          append_assoc s.broadcast (packet cut.0 ∷ [])
                            (map packet (chunks target size fuel cut.1)))
                        ∙ ap (λ l. some (s.broadcast ++ map packet l))
                            (sym (chunks-more target size fuel items more)))))
      ])

  length-replicate : {A : Type 0} (n : ℕ) (a : A) → length (replicate n a) ≡ n
  length-replicate zero a = refl
  length-replicate (suc n) a = ap suc (length-replicate n a)

  -- With at least one buffer the producer ends, and the number of buffers makes no difference to what it
  -- broadcasts: the tensors in order, joined where their sum first passes the target.
  pub packed_broadcast_producer_packets :
      (num_buffers : ℕ) (items : List Item)
      → 0 < num_buffers
      → packed_broadcast_producer target post_iter_func num_buffers items
        ≡ some (ok (map packet (chunks target size (suc (length items)) items)))
  unfolding packed_broadcast_producer
  packed_broadcast_producer_packets zero items h = absurd (omega arith)
  packed_broadcast_producer_packets (suc n) items h =
      let has : HasBuffers (idle_producer target post_iter_func (suc n)) = record {
        some_list = omega arith;
        same_number =
            omega (arith, length-replicate {A = ℕ} n 0, length-replicate {A = List Bytes} n []);
      } in
      let run =
        produce-chunks (suc (length items)) (idle_producer target post_iter_func (suc n)) items has
          (omega arith) in
      rw (packed_broadcast_producer, run) refl

  -- With at least one buffer the producer ends without an exception; what it broadcasts are all tensors
  -- in order, in packets that are not empty; without its last tensor a packet has at most the target
  -- size, and every packet but the last has more than that.
  pub packed_broadcast_producer-IsCut :
      (num_buffers : ℕ) (items : List Item)
      → 0 < num_buffers
      → (groups : List (List Item)) × (packed_broadcast_producer target post_iter_func num_buffers
            items
          ≡ some (ok (map packet groups)))
        × (flatten groups ≡ items)
        × IsCut target size groups
  packed_broadcast_producer-IsCut num_buffers items h = (
    chunks target size (suc (length items)) items,
    packed_broadcast_producer_packets num_buffers items h,
    chunks-flatten target size (suc (length items)) items (omega arith),
    chunks-IsCut target size (suc (length items)) items,
  )
