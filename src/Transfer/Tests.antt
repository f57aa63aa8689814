-- ===== src/Transfer/Tests.antt =====
-- The transfer on small inputs.
use nemo_rl_submission.Prelude.{
  length, ok, ◌≡◌, ◌≢◌, refl, List, [], ◌∷◌, ◌++◌, map, arith, All, replicate,
}
use nemo_rl_submission.Prelude.Text.{Text, text_eq, codes}
use nemo_rl_submission.Transfer.Stream.{
  Bytes, Param, calculate_aligned_size, aligned, allocated_size, stream_weights_via_ipc_zmq_impl,
}
use nemo_rl_submission.Transfer.Stream.Bounds.{Fits}
use nemo_rl_submission.Transfer.Receive.{TensorInfo, info_of, size_in_bytes}
use nemo_rl_submission.Transfer.Socket.{
  Memory, Actor, sender, receiver, run, connected, failed, updated,
}
use nemo_rl_submission.Prelude.{
  some, raise, runtime_error, assertion_error, if◌then◌else◌, ◌==◌, flatten, ◌⊎◌,
}
use nemo_rl_submission.Transfer.Stream.Bounds.{IsWithin, stream_weights_bounds}
use nemo_rl_submission.Transfer.Broadcast.{
  packed_broadcast_producer, produce, pack_tensors, next_buffer, add_tensor, broadcast_packed,
}
use nemo_rl_submission.Transfer.Broadcast.Chunks.{IsCut}
use nemo_rl_submission.Transfer.Broadcast.Produced.{packet, packed_broadcast_producer-IsCut}
use nemo_rl_submission.Transfer.Consumer.{Group, Consumer, packed_broadcast_consumer}
use nemo_rl_submission.Transfer.Consumer.Unpacked.{IsSized}
use nemo_rl_submission.Transfer.RoundTrip.{broadcast_round_trip}
use nemo_rl_submission.Transfer.Loaded.{IsKnown, entry}
use nemo_rl_submission.Transfer.Rounds.{rounds}
use nemo_rl_submission.Transfer.Delivery.{IsAllocated, transfer_safe, transfer_completes}

-- Three tensors that do not share a buffer of 512 bytes.
abbrev three : List Param
three =
    record { name = codes "q"; bytes = 1 ∷ 2 ∷ [] }
    ∷ record { name = codes "k"; bytes = 3 ∷ 4 ∷ 5 ∷ 6 ∷ [] }
    ∷ record { name = codes "v"; bytes = 7 ∷ 8 ∷ [] }
    ∷ []

abbrev infos : List (Text × TensorInfo)
infos =
    (codes "q", record { shape = 1 ∷ []; itemsize = 2 })
    ∷ (codes "k", record { shape = 2 ∷ 1 ∷ []; itemsize = 2 })
    ∷ (codes "v", record { shape = []; itemsize = 2 })
    ∷ []

abbrev memory : Memory
memory = record { bytes_a = replicate 512 0; bytes_b = replicate 512 9 }

memory-IsAllocated : IsAllocated 1024 memory
unfolding allocated_size aligned calculate_aligned_size
memory-IsAllocated = (refl, refl)

three-IsKnown : All (IsKnown infos) three
unfolding info_of text_eq size_in_bytes
three-IsKnown = ((_, refl, refl), ((_, refl, refl), ((_, refl, refl), tt)))

three-Fits : All (Fits 1024) three
unfolding aligned calculate_aligned_size
three-Fits = (omega arith, (omega arith, (omega arith, tt)))

abbrev some_turns : List Actor
some_turns = sender ∷ sender ∷ sender ∷ receiver ∷ sender ∷ []

transfer_safe_example :
    let s =
      run infos some_turns
        (connected (stream_weights_via_ipc_zmq_impl 1024 three).actions memory) in
    (s.phase ≢ failed)
    × (s.phase ≡ updated → s.weights ≡ map entry three)
    × ((missing : List (Text × Bytes)) × (s.weights ++ missing ≡ map entry three))
transfer_safe_example =
    transfer_safe infos 1024 memory three memory-IsAllocated three-IsKnown three-Fits some_turns

transfer_completes_example :
    let s =
      run infos
        (rounds (replicate 28 receiver))
        (connected (stream_weights_via_ipc_zmq_impl 1024 three).actions memory) in
    (s.phase ≡ updated) × (s.weights ≡ map entry three)
transfer_completes_example =
    transfer_completes infos 1024 memory three memory-IsAllocated three-IsKnown three-Fits
      (replicate 28 receiver) (omega arith)

-- A group that hands over the next packet, when it has the size that was asked for.
unfoldable next_packet : Group
next_packet size [] = raise runtime_error
next_packet size (b ∷ rest) = if length b == size then ok (b, rest) else raise runtime_error

next_packet-delivers :
    (b : Bytes) (rest : List Bytes) → next_packet (length b) (b ∷ rest) ≡ ok (b, rest)
unfolding next_packet
next_packet-delivers b rest = ground arith

abbrev info_for : Param → TensorInfo
info_for p = record { shape = length p.bytes ∷ []; itemsize = 1 }

abbrev name_for : Param → Text
name_for p = p.name

abbrev bytes_for : Param → Bytes
bytes_for p = p.bytes

three-IsSized : All (IsSized name_for info_for bytes_for) three
unfolding size_in_bytes
three-IsSized = (refl, (refl, (refl, tt)))

broadcast_round_trip_example :
    (packets : List Bytes) × (u : Consumer) × (packed_broadcast_producer 3 bytes_for 2 three
      ≡ some (ok packets))
    × (packed_broadcast_consumer next_packet 3 1 packets
          (map (λ (p : Param). (name_for p, info_for p)) three)
        ≡ some (ok u))
    × (u.loaded ≡ map (λ (p : Param). (name_for p, bytes_for p)) three)
    × (u.incoming ≡ [])
broadcast_round_trip_example =
    broadcast_round_trip next_packet 3 name_for info_for bytes_for next_packet-delivers 2 1 three
      (omega arith) (omega arith) three-IsSized

packed_broadcast_producer-IsCut_example :
    (groups : List (List Param)) × (packed_broadcast_producer 3 bytes_for 2 three
      ≡ some (ok (map (packet 3 bytes_for) groups)))
    × (flatten groups ≡ three)
    × IsCut 3 (λ (p : Param). length p.bytes) groups
packed_broadcast_producer-IsCut_example =
    packed_broadcast_producer-IsCut 3 bytes_for 2 three (omega arith)

-- Two packets: the first two tensors pass the target together.
two_packets :
    packed_broadcast_producer 3 bytes_for 2 three
    ≡ some (ok ((1 ∷ 2 ∷ 3 ∷ 4 ∷ 5 ∷ 6 ∷ []) ∷ (7 ∷ 8 ∷ []) ∷ []))
unfolding packed_broadcast_producer produce pack_tensors next_buffer add_tensor broadcast_packed
    flatten
two_packets = refl

stream_weights_bounds_example :
    let streamed = stream_weights_via_ipc_zmq_impl 1024 three in
    All (IsWithin 512) streamed.actions
    × ((All (Fits 1024) three × (streamed.outcome ≡ ok tt))
        ⊎ ((All (Fits 1024) three → ⊥) × (streamed.outcome ≡ raise assertion_error)))
stream_weights_bounds_example = stream_weights_bounds 1024 three
