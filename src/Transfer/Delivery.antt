-- ===== src/Transfer/Delivery.antt =====
-- The transfer of the weights as a whole: the sender of `stream_weights_via_ipc_zmq_impl` and the
-- receiver of `update_weights_via_ipc_zmq`, which take turns in any order.
use nemo_rl_submission.Prelude.{
  ℕ, ◌+◌, ◌*◌, ◌/◌, ◌≤◌, ◌≡◌, ◌≢◌, refl, false, List, [], ◌++◌, map, arith, All, length,
}
use nemo_rl_submission.Prelude.Text.{Text}
use nemo_rl_submission.Transfer.Stream.{
  Bytes, Param, buffer_a, buffer_b, allocated_size, first_sender, stream_weights_via_ipc_zmq_impl,
}
use nemo_rl_submission.Transfer.Stream.Bounds.{Fits, aligned-le}
use nemo_rl_submission.Transfer.Receive.{TensorInfo}
use nemo_rl_submission.Transfer.Socket.{updated, failed, Memory, Socket, Actor, run, connected}
use nemo_rl_submission.Transfer.Flight.{quiet, IsSound}
use nemo_rl_submission.Transfer.Flight.Steps.{run-IsSound}
use nemo_rl_submission.Transfer.Loaded.{IsKnown, entry}
use nemo_rl_submission.Transfer.Planned.{IsRoomy, stream_params-Plan}
use nemo_rl_submission.Transfer.Outcome.{IsSound-outcome, IsSound-finished}
use nemo_rl_submission.Transfer.Rounds.{rounds, rounds_finish, stream_work}

-- The buffers as they are allocated, with anything in them.
abbrev pub IsAllocated : ℕ → Memory → Type 0
IsAllocated buffer_size_bytes m =
    (length m.bytes_a ≡ allocated_size buffer_size_bytes)
    × (length m.bytes_b ≡ allocated_size buffer_size_bytes)

allocated-IsRoomy :
    (buffer_size_bytes : ℕ) (m : Memory)
    → IsAllocated buffer_size_bytes m
    → IsRoomy (buffer_size_bytes / 2) m
unfolding allocated_size
allocated-IsRoomy n m h buffer_a = omega (arith, h.0, aligned-le (n / 2))
allocated-IsRoomy n m h buffer_b = omega (arith, h.1, aligned-le (n / 2))

module _ (infos : List (Text × TensorInfo)) (buffer_size_bytes : ℕ) (m : Memory)
    (params : List Param) (allocated : IsAllocated buffer_size_bytes m)
    (known : All (IsKnown infos) params) (fits : All (Fits buffer_size_bytes) params) where
  abbrev begin : Socket
  begin = connected (stream_weights_via_ipc_zmq_impl buffer_size_bytes params).actions m

  begin-IsSound : IsSound infos (map entry params) begin
  unfolding stream_weights_via_ipc_zmq_impl allocated_size
  begin-IsSound = record {
    todo = (stream_weights_via_ipc_zmq_impl buffer_size_bytes params).actions;
    memory = m;
    weights = [];
    flight = quiet;
    group = [];
    rest = map entry params;
    same = refl;
    plan =
        stream_params-Plan infos (buffer_size_bytes / 2) params buffer_a false m []
          (allocated-IsRoomy buffer_size_bytes m allocated) fits known tt tt;
    owed = refl;
    whole = refl;
  }

module _ (infos : List (Text × TensorInfo)) (buffer_size_bytes : ℕ) (m : Memory)
    (params : List Param) (allocated : IsAllocated buffer_size_bytes m)
    (known : All (IsKnown infos) params) (fits : All (Fits buffer_size_bytes) params) where
  -- For parameters that fit half of the buffer size and whose names and sizes the receiver knows, and
  -- whatever the buffers hold at first: however the two ends take turns, the receiver never leaves its
  -- loop by an exception, the weights that it has loaded are the first of the parameters, in order
  -- and byte for byte, although the sender goes on writing, and they are all of them when it returns.
  pub transfer_safe :
      (turns : List Actor)
      → let s =
          run infos turns
            (connected (stream_weights_via_ipc_zmq_impl buffer_size_bytes params).actions m) in
        (s.phase ≢ failed)
        × (s.phase ≡ updated → s.weights ≡ map entry params)
        × ((missing : List (Text × Bytes)) × (s.weights ++ missing ≡ map entry params))
  transfer_safe turns = IsSound-outcome infos (map entry params) _ (
      run-IsSound infos (map entry params) turns _
        (begin-IsSound infos buffer_size_bytes m params allocated known fits))

  -- For the same parameters and buffers, the transfer ends: when both ends have a turn in each round, in
  -- either order, six rounds for each parameter and ten more are enough for the receiver to return
  -- with all the parameters loaded, in order and byte for byte.
  pub transfer_completes :
      (firsts : List Actor)
      → 6 * length params + 10 ≤ length firsts
      → let s =
          run infos
            (rounds firsts)
            (connected (stream_weights_via_ipc_zmq_impl buffer_size_bytes params).actions m) in
        (s.phase ≡ updated) × (s.weights ≡ map entry params)
  unfolding stream_weights_via_ipc_zmq_impl
  transfer_completes firsts enough =
      let all = map entry params in
      let begins = begin-IsSound infos buffer_size_bytes m params allocated known fits in
      let s =
        run infos (rounds firsts)
          (connected (stream_weights_via_ipc_zmq_impl buffer_size_bytes params).actions m) in
      let sound = run-IsSound infos all (rounds firsts) _ begins in
      let done = IsSound-finished infos all s sound (
        rounds_finish infos all firsts _ begins
          (omega (arith, stream_work (buffer_size_bytes / 2) params first_sender, enough))) in
      (done, (IsSound-outcome infos all s sound).1 done)
