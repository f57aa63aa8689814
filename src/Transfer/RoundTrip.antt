-- ===== src/Transfer/RoundTrip.antt =====
-- `packed_broadcast_consumer` on the packets of `packed_broadcast_producer`.
use nemo_rl_submission.Prelude.{
  ℕ, zero, suc, ◌<◌, ◌≡◌, refl, sym, ap, some, List, [], ◌∷◌, map, append-nil, arith, All, length,
  replicate, length-map, ok,
}
use nemo_rl_submission.Prelude.Text.{Text}
use nemo_rl_submission.Transfer.Stream.{Bytes}
use nemo_rl_submission.Transfer.Receive.{TensorInfo}
use nemo_rl_submission.Transfer.Consumer.{
  MetaData, Consumer, Group, idle_consumer, packed_broadcast_consumer,
}
use nemo_rl_submission.Transfer.Consumer.Unpacked.{IsSized}
use nemo_rl_submission.Transfer.Broadcast.{packed_broadcast_producer}
use nemo_rl_submission.Transfer.Broadcast.Produced.{packed_broadcast_producer_packets}
use nemo_rl_submission.Transfer.Broadcast.Chunks.{chunks}
use nemo_rl_submission.Transfer.Consumer.Filled.{key_of, length_of}
use nemo_rl_submission.Transfer.Consumer.Consumed.{
  HasMetaBuffers, packet_of, consume_packets-chunks,
}

module _ {Item : Type 0} (group : Group) (target : ℕ) (name : Item → Text)
    (info : Item → TensorInfo) (bytes : Item → Bytes)
    (delivers : (b : Bytes) (rest : List Bytes) → group (length b) (b ∷ rest) ≡ ok (b, rest)) where
  length-replicate : {A : Type 0} (n : ℕ) (a : A) → length (replicate n a) ≡ n
  length-replicate zero a = refl
  length-replicate (suc n) a = ap suc (length-replicate n a)

  -- For tensors whose metadata tells the consumer their sizes, over a group that delivers a packet to
  -- whoever asks for as many bytes as it has: whatever the target, which is the same for both, and the
  -- numbers of buffers, at least one on each side, the producer ends, the consumer of its packets ends
  -- without an exception and has loaded every tensor, under its name, in order and byte for byte, and
  -- no packet is left.
  pub broadcast_round_trip :
      (producer_buffers consumer_buffers : ℕ) (items : List Item)
      → 0 < producer_buffers
      → 0 < consumer_buffers
      → All (IsSized name info bytes) items
      → (packets : List Bytes) × (u : Consumer) × (packed_broadcast_producer target bytes
            producer_buffers items
          ≡ some (ok packets))
        × (packed_broadcast_consumer group target consumer_buffers packets
              (map (λ x. (name x, info x)) items)
            ≡ some (ok u))
        × (u.loaded ≡ map (λ x. (name x, bytes x)) items)
        × (u.incoming ≡ [])
  unfolding packed_broadcast_consumer
  broadcast_round_trip producer_buffers zero items p q sized = absurd (omega arith)
  broadcast_round_trip producer_buffers (suc n) items p q sized =
      let packets =
        map (packet_of group target name info bytes delivers)
          (chunks target (length_of target name info bytes) (suc (length items)) items) in
      let s = idle_consumer group target (suc n) packets in
      let has : HasMetaBuffers s = record {
        some_list = omega arith;
        same_sizes =
            omega (arith, length-replicate {A = ℕ} n 0, length-replicate {A = List MetaData} n []);
        same_offsets =
            omega (arith, length-replicate {A = ℕ} n 0, length-replicate {A = List MetaData} n []);
      } in
      let (u, run, loads, left) =
        consume_packets-chunks group target name info bytes delivers (suc (length items)) s items []
          has sized (omega arith) (sym (append-nil packets)) in
      (
        packets,
        u,
        packed_broadcast_producer_packets target bytes producer_buffers items p,
        rw (packed_broadcast_consumer, length-map (key_of target name info bytes) items) run,
        loads,
        left,
      )
