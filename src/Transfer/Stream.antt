-- ===== src/Transfer/Stream.antt =====
-- nemo_rl/models/policy/utils.py: `calculate_aligned_size`, and `stream_weights_via_ipc_zmq_impl`,
-- the worker of the policy that sends the weights, as the list of what it does.
pub mod Cases
pub mod Bounds
use nemo_rl_submission.Prelude.{
  ℕ, ◌+◌, ◌-◌, ◌*◌, ◌/◌, Bool, true, false, List, [], ◌∷◌, ◌++◌, leb, ltb, if◌then◌else◌, length,
  Exception, Check, ok, raise, assertion_error,
}
use nemo_rl_submission.Prelude.Text.{Text}

unfoldable pub calculate_aligned_size : ℕ → ℕ → ℕ
calculate_aligned_size size_bytes alignment = ((size_bytes + alignment - 1) / alignment) * alignment

-- The default alignment.
unfoldable pub aligned : ℕ → ℕ
unfolding calculate_aligned_size
aligned size_bytes = calculate_aligned_size size_bytes 512

abbrev pub Bytes : Type 0
Bytes = List ℕ

-- What the generator yields: a name and a tensor, as its bytes.
pub record Param : Type 0 where
  pub name : Text
  pub bytes : Bytes

pub data Buffer : Type 0 where
  buffer_a : Buffer
  buffer_b : Buffer

abbrev pub other : Buffer → Buffer
other buffer_a = buffer_b
other buffer_b = buffer_a

-- `recv`, `send_pyobj` of a payload or of COMPLETE, and a copy into a buffer.
pub data Action : Type 0 where
  pack_bytes : Buffer → ℕ → Bytes → Action
  send : Buffer → List Text → ℕ → Action
  await_ack : Action
  send_complete : Action

-- The variables of the loop.
pub record Sender : Type 0 where
  pub current_buffer : Buffer
  pub used_bytes : ℕ
  pub param_names : List Text
  pub await_recv : Bool

pub record Streamed : Type 0 where
  pub actions : List Action
  pub outcome : Check

-- First some actions, then the others.
abbrev pub after : List Action → Streamed → Streamed
after actions later = record { actions = actions ++ later.actions; outcome = later.outcome }

-- `if await_recv: zmq_socket.recv()`.
abbrev pub await_if : Bool → List Action
await_if true = await_ack ∷ []
await_if false = []

unfoldable pub send_buffer_group_overlap : Sender → List Action
send_buffer_group_overlap s =
    await_if s.await_recv ++ send s.current_buffer s.param_names s.used_bytes ∷ []

-- The other buffer, empty, with an acknowledgement to wait for.
unfoldable pub switch_buffer : Sender → Sender
switch_buffer s = record {
  current_buffer = other s.current_buffer;
  used_bytes = 0;
  param_names = [];
  await_recv = true;
}

unfoldable pub pack_tensor : Sender → Param → Sender
unfolding aligned
pack_tensor s p = record s {
  used_bytes = s.used_bytes + aligned (length p.bytes);
  param_names = s.param_names ++ p.name ∷ [];
}

-- After the last tensor.
unfoldable pub finish_stream : Sender → List Action
unfolding send_buffer_group_overlap
finish_stream s = elim s.param_names [
  | [] ↦ await_if s.await_recv ++ send_complete ∷ await_ack ∷ []
  | _ ∷ _ ↦ send_buffer_group_overlap s ++ await_ack ∷ send_complete ∷ await_ack ∷ []
]

-- The loop over the parameters, where each of the two buffers has `size` bytes.
unfoldable pub stream_params : ℕ → Sender → List Param → Streamed
unfolding aligned send_buffer_group_overlap switch_buffer pack_tensor finish_stream
stream_params size s [] = record { actions = finish_stream s; outcome = ok tt }
stream_params size s (p ∷ ps) = elim (leb (aligned (length p.bytes)) size) [
  | false ↦ record { actions = []; outcome = raise assertion_error }
  | true ↦ elim (ltb size (s.used_bytes + aligned (length p.bytes))) [
    | true ↦
        let t = switch_buffer s in
        after (send_buffer_group_overlap s ++ pack_bytes t.current_buffer t.used_bytes p.bytes ∷ [])
          (stream_params size (pack_tensor t p) ps)
    | false ↦
        after (pack_bytes s.current_buffer s.used_bytes p.bytes ∷ [])
          (stream_params size (pack_tensor s p) ps)
  ]
]

abbrev pub first_sender : Sender
first_sender = record {
  current_buffer = buffer_a;
  used_bytes = 0;
  param_names = [];
  await_recv = false;
}

unfoldable pub stream_weights_via_ipc_zmq_impl : ℕ → List Param → Streamed
unfolding stream_params
stream_weights_via_ipc_zmq_impl buffer_size_bytes params =
    stream_params (buffer_size_bytes / 2) first_sender params

-- The two buffers as they are allocated.
unfoldable pub allocated_size : ℕ → ℕ
unfolding aligned
allocated_size buffer_size_bytes = aligned (buffer_size_bytes / 2)
