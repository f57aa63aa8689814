-- ===== src/Transfer/Consumer/Consumed.antt =====
-- What `packed_broadcast_consumer` loads from the packets of the producer.
use mathlib.Core.Path.{subst}
use native.Mathlib.Nat.{mod-lt}
use nemo_rl_submission.Prelude.{
  ℕ, zero, suc, ◌+◌, ◌%◌, ◌<◌, ◌≡◌, refl, sym, ap, ◌∙◌, inl, inr, Bool, true, false, Option, some,
  List, [], ◌∷◌, ◌++◌, map, flatten, append_assoc, append-nil, arith, All, length, get_or, set,
  length-set, length-append, Result, ok, raise,
}
use nemo_rl_submission.Prelude.Text.{Text}
use nemo_rl_submission.Transfer.Stream.{Bytes}
use nemo_rl_submission.Transfer.Receive.{TensorInfo}
use nemo_rl_submission.Transfer.Consumer.{
  MetaData, Consumer, Group, next_meta_buffer, pack_meta_data, load_packed, consume_packets,
}
use nemo_rl_submission.Transfer.Consumer.Unpacked.{
  IsSized, entry_of, metas_from, unpack_tensor-packet,
}
use nemo_rl_submission.Transfer.Broadcast.Chunks.{
  get_or-set_same, total, first_chunk, nonempty, chunks, chunks-done, chunks-more, first_chunk-rest,
  first_chunk-append,
}
use mathlib.Core.List.{map-append}
use nemo_rl_submission.Transfer.Consumer.Filled.{
  filled_meta, key_of, length_of, pack_meta_data-filled,
}

-- The buffers of a consumer.
pub record HasMetaBuffers (s : Consumer) : Type 0 where
  pub some_list : 0 < length s.packing_tensor_meta_data
  pub same_sizes : length s.packing_tensor_sizes ≡ length s.packing_tensor_meta_data
  pub same_offsets : length s.offsets ≡ length s.packing_tensor_meta_data

All-parts : {A : Type 0} (P : A → Type 0) (xs ys : List A) → All P (xs ++ ys) → All P xs × All P ys
All-parts P [] ys h = (tt, h)
All-parts P (x ∷ xs) ys h = let (front, back) = All-parts P xs ys h.1 in ((h.0, front), back)

filled_meta-HasMetaBuffers :
    (i : ℕ) (s : Consumer) (acc : List MetaData) (sum : ℕ) (packed incoming : List Bytes)
    (loaded : List (Text × Bytes))
    → HasMetaBuffers s
    → HasMetaBuffers (record (filled_meta i s acc sum) {
      packed_tensors = packed;
      incoming = incoming;
      loaded = loaded;
    })
filled_meta-HasMetaBuffers i s acc sum packed incoming loaded h = record {
  some_list = omega (arith, h.some_list, length-set s.packing_tensor_meta_data i acc);
  same_sizes = omega (
    arith,
    h.same_sizes,
    length-set s.packing_tensor_meta_data i acc,
    length-set s.packing_tensor_sizes i sum,
  );
  same_offsets = omega (
    arith,
    h.same_offsets,
    length-set s.packing_tensor_meta_data i acc,
    length-set s.offsets i sum,
  );
}

module _ {Item : Type 0} (group : Group) (target : ℕ) (name : Item → Text)
    (info : Item → TensorInfo) (bytes : Item → Bytes)
    (delivers : (b : Bytes) (rest : List Bytes) → group (length b) (b ∷ rest) ≡ ok (b, rest)) where
  abbrev pub packet_of : List Item → Bytes
  packet_of chunk = flatten (map bytes chunk)

  abbrev metas : List Item → List MetaData
  metas chunk = metas_from name info bytes 0 chunk

  total-flatten :
      (xs : List Item) → total target (length_of target name info bytes) xs ≡ length (packet_of xs)
  unfolding flatten
  total-flatten [] = refl
  total-flatten (x ∷ xs) = omega (arith, total-flatten xs, length-append (bytes x) (packet_of xs))

  load_packed-packet :
      (s : Consumer) (chunk : List Item) (more : List Bytes)
      → All (IsSized name info bytes) chunk
      → get_or s.packing_tensor_sizes s.buffer_idx 0 ≡ length (packet_of chunk)
      → get_or s.packing_tensor_meta_data s.buffer_idx [] ≡ metas chunk
      → s.incoming ≡ packet_of chunk ∷ more
      → load_packed group target s
        ≡ ok (record s {
          packed_tensors = set s.packed_tensors s.buffer_idx (packet_of chunk);
          incoming = more;
          loaded = s.loaded ++ map (entry_of name info bytes) chunk;
        })
  unfolding load_packed
  load_packed-packet s chunk more sized size listed comes =
      rw
        (
          load_packed,
          size,
          comes,
          delivers (packet_of chunk) more,
          listed,
          unpack_tensor-packet name info bytes 0 chunk sized,
        )
        refl

  -- What the outer loop does after the inner one.
  abbrev after_meta_pass : ℕ → Consumer × List (Text × TensorInfo) × Bool → Option (Result Consumer)
  after_meta_pass fuel pass = elim pass.2 [
    | false ↦ elim (load_packed group target pass.0) [
      | raise error ↦ some (raise error)
      | ok u ↦ consume_packets group target fuel u pass.1
    ]
    | true ↦ elim (get_or pass.0.packing_tensor_meta_data pass.0.buffer_idx []) [
      | [] ↦ some (ok pass.0)
      | _ ∷ _ ↦ some (load_packed group target pass.0)
    ]
  ]

  consume_packets-pass :
      (fuel : ℕ) (s : Consumer) (items : List (Text × TensorInfo))
      → consume_packets group target (suc fuel) s items
        ≡ after_meta_pass fuel (pack_meta_data target (next_meta_buffer s) items)
  unfolding consume_packets
  consume_packets-pass fuel s items = refl

  abbrev pub LoadedAll : Consumer → List Item → List Bytes → Option (Result Consumer) → Type 0
  LoadedAll s items more result =
      (u : Consumer) × (result ≡ some (ok u))
      × (u.loaded ≡ s.loaded ++ map (entry_of name info bytes) items)
      × (u.incoming ≡ more)

  abbrev ending_of_meta : Consumer → List MetaData → Option (Result Consumer)
  ending_of_meta t listed = elim listed [
    | [] ↦ some (ok t)
    | _ ∷ _ ↦ some (load_packed group target t)
  ]

  -- The last packet, if there is one.
  consume_packets-ends :
      (fuel : ℕ) (rest : List (Text × TensorInfo)) (chunk : List Item) (more : List Bytes)
      (t : Consumer)
      → All (IsSized name info bytes) chunk
      → get_or t.packing_tensor_sizes t.buffer_idx 0 ≡ length (packet_of chunk)
      → get_or t.packing_tensor_meta_data t.buffer_idx [] ≡ metas chunk
      → t.incoming
        ≡ map packet_of (nonempty target (length_of target name info bytes) chunk) ++ more
      → LoadedAll t chunk more (after_meta_pass fuel (t, rest, true))
  consume_packets-ends fuel rest [] more t sized size listed comes =
      (t, ap (ending_of_meta t) listed, sym (append-nil t.loaded), comes)
  consume_packets-ends fuel rest (x ∷ xs) more t sized size listed comes = (
    _,
    ap (ending_of_meta t) listed
        ∙ ap some (load_packed-packet t (x ∷ xs) more sized size listed comes),
    refl,
    refl,
  )

  abbrev continue_with : ℕ → List (Text × TensorInfo) → Result Consumer → Option (Result Consumer)
  continue_with fuel rest result = elim result [
    | raise error ↦ some (raise error)
    | ok u ↦ consume_packets group target fuel u rest
  ]

  -- The outer loop loads every tensor of the packets that are coming.
  pub consume_packets-chunks :
      (fuel : ℕ) (s : Consumer) (items : List Item) (more : List Bytes)
      → HasMetaBuffers s
      → All (IsSized name info bytes) items
      → length items < fuel
      → s.incoming
        ≡ map packet_of (chunks target (length_of target name info bytes) fuel items) ++ more
      → LoadedAll s items more
          (consume_packets group target fuel s (map (key_of target name info bytes) items))
  unfolding next_meta_buffer
  consume_packets-chunks zero s items more h sized enough comes = absurd (omega arith)
  consume_packets-chunks (suc fuel) s items more h sized enough comes =
      let keys = map (key_of target name info bytes) in
      let size = length_of target name info bytes in
      let entry = entry_of name info bytes in
      let i = (s.buffer_idx + 1) % length s.packing_tensor_meta_data in
      let below : i < length s.packing_tensor_meta_data = mod-lt (s.buffer_idx + 1) h.some_list in
      let below_size : i < length s.packing_tensor_sizes = omega (arith, below, h.same_sizes) in
      let below_offset : i < length s.offsets = omega (arith, below, h.same_offsets) in
      let cut = first_chunk target size 0 items in
      let (sized_cut, sized_rest) = All-parts (IsSized name info bytes) cut.0 cut.1 (
        subst (All (IsSized name info bytes)) (sym (first_chunk-append target size 0 items))
          sized) in
      let t = filled_meta i s (metas cut.0) (0 + total target size cut.0) in
      let passed : pack_meta_data target (next_meta_buffer s) (keys items)
          ≡ (t, keys cut.1, cut.2) =
        pack_meta_data-filled target name info bytes i s below below_size below_offset items [] 0
          sized in
      let listed : get_or t.packing_tensor_meta_data i [] ≡ metas cut.0 =
        get_or-set_same s.packing_tensor_meta_data i (metas cut.0) [] below in
      let measured : get_or t.packing_tensor_sizes i 0 ≡ length (packet_of cut.0) =
        get_or-set_same s.packing_tensor_sizes i (0 + total target size cut.0) 0 below_size
        ∙ omega (arith, total-flatten cut.0) in
      let whole : cut.0 ++ cut.1 ≡ items = first_chunk-append target size 0 items in
      subst (LoadedAll s items more)
        (sym (consume_packets-pass fuel s (keys items) ∙ ap (after_meta_pass fuel) passed))
        (elim (first_chunk-rest target size 0 items) [
          | inl (done, none_left) ↦
              let only : cut.0 ≡ items =
                sym (append-nil cut.0) ∙ subst (λ r. cut.0 ++ r ≡ items) none_left whole in
              let comes' =
                comes
                ∙ ap (λ c. map packet_of c ++ more) (chunks-done target size fuel items done) in
              subst (λ e. LoadedAll s items more (after_meta_pass fuel (t, keys cut.1, e)))
                (sym done)
                (subst (λ l. LoadedAll s l more (after_meta_pass fuel (t, keys cut.1, true))) only
                  (consume_packets-ends fuel (keys cut.1) cut.0 more t sized_cut measured listed
                    comes'))
          | inr (again, less) ↦
              let later = map packet_of (chunks target size fuel cut.1) ++ more in
              let comes' =
                comes
                ∙ ap (λ c. map packet_of c ++ more) (chunks-more target size fuel items again) in
              let u : Consumer = record t {
                packed_tensors = set t.packed_tensors i (packet_of cut.0);
                incoming = later;
                loaded = t.loaded ++ map entry cut.0;
              } in
              let load = load_packed-packet t cut.0 later sized_cut measured listed comes' in
              let (v, run, loads, left) =
                consume_packets-chunks fuel u cut.1 more
                  (filled_meta-HasMetaBuffers i s (metas cut.0) (0 + total target size cut.0) _ _ _
                    h)
                  sized_rest (omega (arith, less)) refl in
              subst (λ e. LoadedAll s items more (after_meta_pass fuel (t, keys cut.1, e)))
                (sym again)
                (
                  v,
                  ap (continue_with fuel (keys cut.1)) load ∙ run,
                  loads
                      ∙ (append_assoc s.loaded (map entry cut.0) (map entry cut.1)
                          ∙ ap (λ l. s.loaded ++ l)
                              (sym (map-append entry cut.0 cut.1) ∙ ap (map entry) whole)),
                  left,
                )
        ])
