-- ===== src/Transfer/Consumer.antt =====
-- nemo_rl/utils/packed_tensor.py: `packed_broadcast_consumer`.
pub mod Unpacked
pub mod Filled
pub mod Consumed
use nemo_rl_submission.Prelude.{
  ℕ, zero, suc, ◌+◌, ◌%◌, Bool, true, false, not, Option, none, some, List, [], ◌∷◌, ◌++◌, map, ltb,
  ◌==◌, if◌then◌else◌, length, get_or, set, take, drop, replicate, zip, each, Result, ok, raise,
  raise_if, ◌>>=◌, ◌>>◌, runtime_error, zero_division_error,
}
use nemo_rl_submission.Prelude.Text.{Text}
use nemo_rl_submission.Transfer.Stream.{Bytes}
use nemo_rl_submission.Transfer.Receive.{TensorInfo, size_in_bytes, view_as}

-- `(name, shape, dtype, offset, tensor_size)`.
pub record MetaData : Type 0 where
  pub name : Text
  pub info : TensorInfo
  pub offset : ℕ
  pub tensor_size : ℕ

-- The lists of the consumer, with an item for each buffer, what it has loaded, and the packets that it
-- has not yet received.
pub record Consumer : Type 0 where
  pub buffer_idx : ℕ
  pub packing_tensor_meta_data : List (List MetaData)
  pub packing_tensor_sizes : List ℕ
  pub offsets : List ℕ
  pub packed_tensors : List Bytes
  pub loaded : List (Text × Bytes)
  pub incoming : List Bytes

-- The next buffer, empty.
unfoldable pub next_meta_buffer : Consumer → Consumer
next_meta_buffer s =
    let i = (s.buffer_idx + 1) % length s.packing_tensor_meta_data in
    record s {
      buffer_idx = i;
      packing_tensor_meta_data = set s.packing_tensor_meta_data i [];
      packing_tensor_sizes = set s.packing_tensor_sizes i 0;
      offsets = set s.offsets i 0;
    }

unfoldable pub add_meta_data : Text × TensorInfo → Consumer → Consumer
add_meta_data item s =
    let i = s.buffer_idx in
    let tensor_size = size_in_bytes item.1 in
    let offset = get_or s.offsets i 0 in
    let meta : MetaData = record {
      name = item.0;
      info = item.1;
      offset = offset;
      tensor_size = tensor_size;
    } in
    record s {
      packing_tensor_meta_data =
          set s.packing_tensor_meta_data i (get_or s.packing_tensor_meta_data i [] ++ meta ∷ []);
      packing_tensor_sizes =
          set s.packing_tensor_sizes i (get_or s.packing_tensor_sizes i 0 + tensor_size);
      offsets = set s.offsets i (offset + tensor_size);
    }

-- The inner loop: the state, what the iterator has left, and whether it was exhausted.
unfoldable pub pack_meta_data :
    ℕ → Consumer → List (Text × TensorInfo) → Consumer × List (Text × TensorInfo) × Bool
unfolding add_meta_data
pack_meta_data target s [] = (s, [], true)
pack_meta_data target s (x ∷ xs) =
    let t = add_meta_data x s in
    let rest = pack_meta_data target t xs in
    if ltb target (get_or t.packing_tensor_sizes t.buffer_idx 0) then (t, xs, false) else rest

abbrev pub sizes_sum : List ℕ → ℕ
sizes_sum [] = 0
sizes_sum (n ∷ ns) = n + sizes_sum ns

abbrev pub pieces : List ℕ → Bytes → List Bytes
pieces [] bytes = []
pieces (n ∷ ns) bytes = take n bytes ∷ pieces ns (drop n bytes)

-- `packed_tensor.split_with_sizes(sizes)`, which wants sizes that sum to all of it.
unfoldable pub split_with_sizes : List ℕ → Bytes → Result (List Bytes)
split_with_sizes sizes bytes =
    raise_if (not (sizes_sum sizes == length bytes)) runtime_error >> ok (pieces sizes bytes)

abbrev pub size_of_meta : MetaData → ℕ
size_of_meta meta = meta.tensor_size

-- The view of a piece, under its name.
unfoldable pub named_view : MetaData × Bytes → Result (Text × Bytes)
unfolding view_as
named_view item = view_as (size_in_bytes item.0.info) item.1 >>= λ bytes. ok (item.0.name, bytes)

unfoldable pub unpack_tensor : Bytes → List MetaData → Result (List (Text × Bytes))
unfolding split_with_sizes named_view
unpack_tensor packed metas = split_with_sizes (map size_of_meta metas) packed >>= λ tensors.
    each named_view (zip metas tensors)

-- `group.broadcast` of a tensor of a size: what was sent, and what is still to come.
abbrev pub Group : Type 0
Group = ℕ → List Bytes → Result (Bytes × List Bytes)

module _ (group : Group) (target : ℕ) where
  -- The broadcast into the current buffer, and the loading of what is in it.
  unfoldable pub load_packed : Consumer → Result Consumer
  unfolding unpack_tensor
  load_packed s =
      let i = s.buffer_idx in
      group (get_or s.packing_tensor_sizes i 0) s.incoming >>= λ received.
      unpack_tensor received.0 (get_or s.packing_tensor_meta_data i []) >>= λ weights.
      ok (record s {
        packed_tensors = set s.packed_tensors i received.0;
        incoming = received.1;
        loaded = s.loaded ++ weights;
      })

  -- The outer loop, on fuel.
  unfoldable pub consume_packets :
      ℕ → Consumer → List (Text × TensorInfo) → Option (Result Consumer)
  unfolding next_meta_buffer pack_meta_data load_packed
  consume_packets zero s items = none
  consume_packets (suc fuel) s items =
      let (t, rest, exhausted) = pack_meta_data target (next_meta_buffer s) items in
      elim exhausted [
        | false ↦ elim (load_packed t) [
          | raise error ↦ some (raise error)
          | ok u ↦ consume_packets fuel u rest
        ]
        | true ↦ elim (get_or t.packing_tensor_meta_data t.buffer_idx []) [
          | [] ↦ some (ok t)
          | _ ∷ _ ↦ some (load_packed t)
        ]
      ]

  abbrev pub idle_consumer : ℕ → List Bytes → Consumer
  idle_consumer num_buffers incoming = record {
    buffer_idx = 0;
    packing_tensor_meta_data = replicate num_buffers [];
    packing_tensor_sizes = replicate num_buffers 0;
    offsets = replicate num_buffers 0;
    packed_tensors = replicate num_buffers [];
    loaded = [];
    incoming = incoming;
  }

  -- What is loaded, from the packets that the producer sends.
  unfoldable pub packed_broadcast_consumer :
      ℕ → List Bytes → List (Text × TensorInfo) → Option (Result Consumer)
  unfolding consume_packets
  packed_broadcast_consumer num_buffers incoming items = elim num_buffers [
    | zero ↦ some (raise zero_division_error)
    | suc n ↦ consume_packets (suc (length items)) (idle_consumer (suc n) incoming) items
  ]
