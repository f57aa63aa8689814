-- ===== src/Transfer/Broadcast.antt =====
-- nemo_rl/utils/packed_tensor.py: `packed_broadcast_producer` and `packed_broadcast_consumer`, which
-- send tensors in packets over a process group.
pub mod Chunks
pub mod Filled
pub mod Produced
use nemo_rl_submission.Prelude.{
  ℕ, zero, suc, ◌+◌, ◌*◌, ◌%◌, Bool, true, false, not, Option, none, some, List, [], ◌∷◌, ◌++◌, map,
  flatten, ltb, ◌==◌, if◌then◌else◌, length, get_or, set, take, drop, replicate, zip, Result, ok,
  raise, ◌>>=◌, runtime_error, zero_division_error,
}
use nemo_rl_submission.Prelude.Text.{Text}
use nemo_rl_submission.Transfer.Stream.{Bytes}
use nemo_rl_submission.Transfer.Receive.{TensorInfo, size_in_bytes, view_as}

-- The lists of the producer, with an item for each buffer, and what it has broadcast.
pub record Producer : Type 0 where
  pub buffer_idx : ℕ
  pub packing_tensor_list : List (List Bytes)
  pub packing_tensor_sizes : List ℕ
  pub packed_tensors : List Bytes
  pub broadcast : List Bytes

abbrev pub bytes_sum : List Bytes → ℕ
bytes_sum [] = 0
bytes_sum (b ∷ bs) = length b + bytes_sum bs

-- The next buffer, empty.
unfoldable pub next_buffer : Producer → Producer
next_buffer s =
    let i = (s.buffer_idx + 1) % length s.packing_tensor_list in
    record s {
      buffer_idx = i;
      packing_tensor_list = set s.packing_tensor_list i [];
      packing_tensor_sizes = set s.packing_tensor_sizes i 0;
    }

unfoldable pub add_tensor : Bytes → Producer → Producer
add_tensor tensor s =
    let i = s.buffer_idx in
    record s {
      packing_tensor_list =
          set s.packing_tensor_list i (get_or s.packing_tensor_list i [] ++ tensor ∷ []);
      packing_tensor_sizes =
          set s.packing_tensor_sizes i (get_or s.packing_tensor_sizes i 0 + length tensor);
    }

-- `torch.cat` of the current buffer, and the broadcast of it.
unfoldable pub broadcast_packed : Producer → Producer
broadcast_packed s =
    let packed = flatten (get_or s.packing_tensor_list s.buffer_idx []) in
    record s {
      packed_tensors = set s.packed_tensors s.buffer_idx packed;
      broadcast = s.broadcast ++ packed ∷ [];
    }

module _ {Item : Type 0} (target : ℕ) (post_iter_func : Item → Bytes) where
  -- The inner loop: the state, what the iterator has left, and whether it was exhausted.
  unfoldable pub pack_tensors : Producer → List Item → Producer × List Item × Bool
  unfolding add_tensor
  pack_tensors s [] = (s, [], true)
  pack_tensors s (x ∷ xs) =
      let t = add_tensor (post_iter_func x) s in
      let rest = pack_tensors t xs in
      if ltb target (get_or t.packing_tensor_sizes t.buffer_idx 0) then (t, xs, false) else rest

  -- The outer loop, on fuel; an iteration that goes on takes an item.
  unfoldable pub produce : ℕ → Producer → List Item → Option (List Bytes)
  unfolding next_buffer pack_tensors broadcast_packed
  produce zero s items = none
  produce (suc fuel) s items =
      let (t, rest, exhausted) = pack_tensors (next_buffer s) items in
      let later = produce fuel (broadcast_packed t) rest in
      elim exhausted [
        | false ↦ later
        | true ↦ elim (get_or t.packing_tensor_list t.buffer_idx []) [
          | [] ↦ some t.broadcast
          | _ ∷ _ ↦ some (broadcast_packed t).broadcast
        ]
      ]

  abbrev pub idle_producer : ℕ → Producer
  idle_producer num_buffers = record {
    buffer_idx = 0;
    packing_tensor_list = replicate num_buffers [];
    packing_tensor_sizes = replicate num_buffers 0;
    packed_tensors = replicate num_buffers [];
    broadcast = [];
  }

  -- What is broadcast; without a buffer, the first `% num_buffers` raises.
  unfoldable pub packed_broadcast_producer : ℕ → List Item → Option (Result (List Bytes))
  unfolding produce
  packed_broadcast_producer num_buffers items = elim num_buffers [
    | zero ↦ some (raise zero_division_error)
    | suc n ↦ elim (produce (suc (length items)) (idle_producer (suc n)) items) [
      | none ↦ none
      | some packets ↦ some (ok packets)
    ]
  ]
