-- ===== src/Transfer/Planned.antt =====
-- What the sender of the weights does, for parameters that fit: it delivers all of them, and writes
-- no buffer that is being read.
use mathlib.Core.Path.{subst}
use mathlib.Core.List.{map-append}
use native.Mathlib.Decide.{dec_le}
use nemo_rl_submission.Transfer.Stream.Cases.{stays, switches}
use nemo_rl_submission.Prelude.{
  ℕ, ◌+◌, ◌≤◌, ◌≡◌, refl, Bool, true, false, List, [], ◌∷◌, ◌++◌, map, arith, All, All-append,
  append_assoc, length, map-snoc,
}
use nemo_rl_submission.Prelude.Text.{Text}
use nemo_rl_submission.Transfer.Memory.{copy_into, length-copy_into}
use nemo_rl_submission.Transfer.Stream.{
  Bytes, Param, Buffer, buffer_a, buffer_b, other, Action, pack_bytes, send, await_ack,
  send_complete, Sender, aligned, await_if, send_buffer_group_overlap, switch_buffer, pack_tensor,
  finish_stream, stream_params,
}
use nemo_rl_submission.Transfer.Stream.Bounds.{aligned-le}
use nemo_rl_submission.Transfer.Receive.{TensorInfo}
use nemo_rl_submission.Transfer.Socket.{Memory, bytes_of, write_buffer}
use nemo_rl_submission.Transfer.Flight.{Pending, free, busy, may_write, Plan}
use nemo_rl_submission.Transfer.Loaded.{
  IsKnown, entry, name_of, packed_size, packed_size-snoc, Holds, Holds-read_payload, Holds-snoc,
}

-- The sender with these parameters in its current buffer.
abbrev pub packing : Buffer → Bool → List Param → Sender
packing c w group = record {
  current_buffer = c;
  used_bytes = packed_size group;
  param_names = map name_of group;
  await_recv = w;
}

pack_tensor-packing :
    (c : Buffer) (w : Bool) (group : List Param) (p : Param)
    → pack_tensor (packing c w group) p ≡ packing c w (group ++ p ∷ [])
unfolding pack_tensor
pack_tensor-packing c w group p = rw (packed_size-snoc group p, map-snoc name_of group p) refl

pack_bytes-switched :
    (c : Buffer) (w : Bool) (group : List Param) (p : Param)
    → pack_tensor (switch_buffer (packing c w group)) p ≡ packing (other c) true (p ∷ [])
unfolding switch_buffer
pack_bytes-switched c w group p = pack_tensor-packing (other c) true [] p

-- What a sender waits for.
abbrev pub waits : Bool → Buffer → Pending
waits false c = free
waits true buffer_a = busy buffer_b
waits true buffer_b = busy buffer_a

waits-other : (c : Buffer) → busy c ≡ waits true (other c)
waits-other buffer_a = refl
waits-other buffer_b = refl

waits-may_write : (w : Bool) (c : Buffer) → may_write (waits w c) c ≡ true
waits-may_write false c = refl
waits-may_write true buffer_a = refl
waits-may_write true buffer_b = refl

busy-may_write : (c : Buffer) → may_write (busy c) (other c) ≡ true
busy-may_write buffer_a = refl
busy-may_write buffer_b = refl

-- Both buffers are as large as the sender takes them to be.
abbrev pub IsRoomy : ℕ → Memory → Type 0
IsRoomy size m = (c : Buffer) → size ≤ length (bytes_of m c)

length-write_buffer :
    (m : Memory) (b c : Buffer) (offset : ℕ) (bytes : Bytes)
    → length (bytes_of (write_buffer m b offset bytes) c) ≡ length (bytes_of m c)
length-write_buffer m buffer_a buffer_a offset bytes = length-copy_into m.bytes_a offset bytes
length-write_buffer m buffer_a buffer_b offset bytes = refl
length-write_buffer m buffer_b buffer_a offset bytes = refl
length-write_buffer m buffer_b buffer_b offset bytes = length-copy_into m.bytes_b offset bytes

IsRoomy-write_buffer :
    (size : ℕ) (m : Memory) (b : Buffer) (offset : ℕ) (bytes : Bytes)
    → IsRoomy size m
    → IsRoomy size (write_buffer m b offset bytes)
IsRoomy-write_buffer size m b offset bytes room c =
    rw (length-write_buffer m b c offset bytes) (room c)

bytes_of-write_same :
    (m : Memory) (c : Buffer) (offset : ℕ) (bytes : Bytes)
    → bytes_of (write_buffer m c offset bytes) c ≡ copy_into (bytes_of m c) offset bytes
bytes_of-write_same m buffer_a offset bytes = refl
bytes_of-write_same m buffer_b offset bytes = refl

module _ (infos : List (Text × TensorInfo)) where
  -- The buffer of the sender after one more copy.
  Holds-write_buffer :
      (m : Memory) (c : Buffer) (group : List Param) (p : Param)
      → packed_size group + aligned (length p.bytes) ≤ length (bytes_of m c)
      → Holds (bytes_of m c) 0 group
      → Holds (bytes_of (write_buffer m c (packed_size group) p.bytes) c) 0 (group ++ p ∷ [])
  Holds-write_buffer m c group p fits h = rw (bytes_of-write_same m c (packed_size group) p.bytes) (
      Holds-snoc (bytes_of m c) group 0 (packed_size group) p (omega arith)
        (omega (arith, aligned-le (length p.bytes))) h)

  await_if-Plan :
      (w : Bool) (c : Buffer) (m : Memory) (todo : List Action) (ws : List (Text × Bytes))
      → Plan infos free m todo ws
      → Plan infos (waits w c) m (await_if w ++ todo) ws
  await_if-Plan false c m todo ws h = h
  await_if-Plan true buffer_a m todo ws h = (tt, h)
  await_if-Plan true buffer_b m todo ws h = (tt, h)

  send-Plan :
      (c : Buffer) (m : Memory) (group rest : List Param) (todo : List Action)
      → All (IsKnown infos) group
      → Holds (bytes_of m c) 0 group
      → Plan infos (busy c) m todo (map entry rest)
      → Plan infos free m
          (send c (map name_of group) (packed_size group) ∷ todo)
          (map entry (group ++ rest))
  send-Plan c m group rest todo known h next = (
    refl,
    (
      map entry group,
      map entry rest,
      Holds-read_payload infos (bytes_of m c) group known h,
      map-append entry group rest,
      next,
    ),
  )

  finish_stream-Plan :
      (c : Buffer) (w : Bool) (m : Memory) (group : List Param)
      → All (IsKnown infos) group
      → Holds (bytes_of m c) 0 group
      → Plan infos (waits w c) m (finish_stream (packing c w group)) (map entry (group ++ []))
  unfolding finish_stream send_buffer_group_overlap
  finish_stream-Plan c w m [] known h = await_if-Plan w c m _ [] (refl, (tt, (refl, refl)))
  finish_stream-Plan c w m (p ∷ ps) known h =
      rw
        (append_assoc (await_if w) (send c (map name_of (p ∷ ps)) (packed_size (p ∷ ps)) ∷ [])
          (await_ack ∷ send_complete ∷ await_ack ∷ []))
        (await_if-Plan w c m
          (send c (map name_of (p ∷ ps)) (packed_size (p ∷ ps))
            ∷ await_ack
            ∷ send_complete
            ∷ await_ack
            ∷ [])
          (map entry ((p ∷ ps) ++ []))
          (send-Plan c m (p ∷ ps) [] (await_ack ∷ send_complete ∷ await_ack ∷ []) known h
            (tt, (refl, (tt, (refl, refl))))))

  -- One parameter more in the current buffer.
  stays-Plan :
      (size : ℕ) (p : Param) (ps : List Param) (c : Buffer) (w : Bool) (m : Memory)
      (group : List Param) (actions : List Action)
      → Plan infos
          (waits w c)
          (write_buffer m c (packed_size group) p.bytes)
          actions
          (map entry ((group ++ p ∷ []) ++ ps))
      → Plan infos
          (waits w c)
          m
          (pack_bytes c (packed_size group) p.bytes ∷ actions)
          (map entry (group ++ p ∷ ps))
  stays-Plan size p ps c w m group actions h = (
    waits-may_write w c,
    subst
        (λ l.
          Plan infos (waits w c) (write_buffer m c (packed_size group) p.bytes) actions
            (map entry l))
        (append_assoc group (p ∷ []) ps) h,
  )

  -- The group is sent, and the parameter is the first in the other buffer.
  switch-Plan :
      (p : Param) (ps : List Param) (c : Buffer) (w : Bool) (m : Memory) (group : List Param)
      (actions : List Action)
      → All (IsKnown infos) group
      → Holds (bytes_of m c) 0 group
      → Plan infos
          (waits true (other c))
          (write_buffer m (other c) 0 p.bytes)
          actions
          (map entry (p ∷ ps))
      → Plan infos
          (waits w c)
          m
          ((send_buffer_group_overlap (packing c w group) ++ pack_bytes (other c) 0 p.bytes ∷ [])
            ++ actions)
          (map entry (group ++ p ∷ ps))
  unfolding send_buffer_group_overlap
  switch-Plan p ps c w m group actions known h next =
      let sending = send c (map name_of group) (packed_size group) in
      let copying = pack_bytes (other c) 0 p.bytes in
      rw
        (
          append_assoc (await_if w ++ sending ∷ []) (copying ∷ []) actions,
          append_assoc (await_if w) (sending ∷ []) (copying ∷ actions),
        )
        (await_if-Plan w c m (sending ∷ copying ∷ actions) (map entry (group ++ p ∷ ps)) (
          send-Plan c m group (p ∷ ps) (copying ∷ actions) known h
            (busy-may_write c, rw (waits-other c) next)))

  -- The loop delivers what the buffer holds and the parameters that are left.
  pub stream_params-Plan :
      (size : ℕ) (ps : List Param) (c : Buffer) (w : Bool) (m : Memory) (group : List Param)
      → IsRoomy size m
      → All (λ (p : Param). aligned (length p.bytes) ≤ size) ps
      → All (IsKnown infos) ps
      → All (IsKnown infos) group
      → Holds (bytes_of m c) 0 group
      → Plan infos
          (waits w c)
          m
          (stream_params size (packing c w group) ps).actions
          (map entry (group ++ ps))
  unfolding stream_params
  stream_params-Plan size [] c w m group room fits known_ps known h =
      (finish_stream-Plan c w m group known h)
  stream_params-Plan size (p ∷ ps) c w m group room fits known_ps known h =
      elim (dec_le (packed_size group + aligned (length p.bytes)) size) [
        | no more ↦ rw (switches size (packing c w group) p ps fits.0 (omega arith)) (
            rw (pack_bytes-switched c w group p) (
              switch-Plan p ps c w m group _ known h (
                stream_params-Plan size ps (other c) true (write_buffer m (other c) 0 p.bytes)
                  (p ∷ []) (IsRoomy-write_buffer size m (other c) 0 p.bytes room) fits.1 known_ps.1
                  (known_ps.0, tt)
                  (Holds-write_buffer m (other c) [] p (omega (arith, room (other c), fits.0))
                    tt))))
        | yes less ↦
            let room' = IsRoomy-write_buffer size m c (packed_size group) p.bytes room in
            rw (stays size (packing c w group) p ps fits.0 less) (
              stays-Plan size p ps c w m group _ (
                rw (pack_tensor-packing c w group p) (
                  stream_params-Plan size ps c w (write_buffer m c (packed_size group) p.bytes)
                    (group ++ p ∷ []) room' fits.1 known_ps.1
                    (All-append (IsKnown infos) group (p ∷ []) known (known_ps.0, tt))
                    (Holds-write_buffer m c group p (omega (arith, room c, less)) h))))
      ]
