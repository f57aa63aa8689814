-- ===== src/Transfer/Flight.antt =====
-- Where the one message that is under way is, and what the sender may do meanwhile.
pub mod Steps
pub mod Work
use nemo_rl_submission.Prelude.{ℕ, zero, suc, Bool, true, false, List, [], ◌∷◌, ◌++◌, ◌≡◌, refl, ok}
use nemo_rl_submission.Prelude.Text.{Text}
use nemo_rl_submission.Transfer.Stream.{
  Bytes, Buffer, buffer_a, buffer_b, Action, pack_bytes, send, await_ack, send_complete,
}
use nemo_rl_submission.Transfer.Receive.{TensorInfo, read_payload}
use nemo_rl_submission.Transfer.Socket.{
  SocketMessage, payload, complete, Phase, receiving, handling, loaded_group, updated, Memory,
  bytes_of, write_buffer, Socket,
}

pub data Flight : Type 0 where
  quiet : Flight
  posted : SocketMessage → Flight
  taken : SocketMessage → Flight
  held : Buffer → Flight
  acked : Buffer → Flight
  closed : Flight
  over : Flight

-- What the sender waits for: nothing, that a buffer is read, that COMPLETE is, or no more at all.
pub data Pending : Type 0 where
  free : Pending
  busy : Buffer → Pending
  closing : Pending
  ended : Pending

abbrev pub pending_by : SocketMessage → Pending
pending_by (payload buffer names used) = busy buffer
pending_by complete = closing

abbrev pub pending_of : Flight → Pending
pending_of quiet = free
pending_of (posted m) = pending_by m
pending_of (taken m) = pending_by m
pending_of (held buffer) = busy buffer
pending_of (acked buffer) = busy buffer
pending_of closed = closing
pending_of over = ended

abbrev pub messages_of : Flight → List SocketMessage
messages_of (posted m) = m ∷ []
messages_of _ = []

abbrev pub acks_of : Flight → ℕ
acks_of (acked buffer) = 1
acks_of closed = 1
acks_of _ = 0

abbrev pub phase_of : Flight → Phase
phase_of (taken m) = handling m
phase_of (held buffer) = loaded_group
phase_of closed = updated
phase_of over = updated
phase_of _ = receiving

-- The socket with a message there.
abbrev pub placed : List Action → Memory → List (Text × Bytes) → Flight → Socket
placed todo memory weights flight = record {
  todo = todo;
  memory = memory;
  messages = messages_of flight;
  acks = acks_of flight;
  phase = phase_of flight;
  weights = weights;
}

abbrev pub may_write : Pending → Buffer → Bool
may_write (busy buffer_a) buffer_a = false
may_write (busy buffer_b) buffer_b = false
may_write _ _ = true

abbrev pub acknowledged : Pending → Pending
acknowledged closing = ended
acknowledged _ = free

abbrev pub IsAwaited : Pending → Type 0
IsAwaited (busy buffer) = Unit
IsAwaited closing = Unit
IsAwaited _ = ⊥

-- The actions deliver these weights, and leave alone the buffer that is being read.
abbrev pub Plan :
    List (Text × TensorInfo) → Pending → Memory → List Action → List (Text × Bytes) → Type 0
Plan infos p memory [] ws = (p ≡ ended) × (ws ≡ [])
Plan infos p memory (pack_bytes buffer offset bytes ∷ todo) ws =
    (may_write p buffer ≡ true) × Plan infos p (write_buffer memory buffer offset bytes) todo ws
Plan infos p memory (send buffer names used ∷ todo) ws =
    (p ≡ free)
    × ((group : List (Text × Bytes)) × (rest : List (Text × Bytes)) × (read_payload infos
            (bytes_of memory buffer) names used
          ≡ ok group)
        × (ws ≡ group ++ rest)
        × Plan infos (busy buffer) memory todo rest)
Plan infos p memory (await_ack ∷ todo) ws = IsAwaited p × Plan infos (acknowledged p) memory todo ws
Plan infos p memory (send_complete ∷ todo) ws = (p ≡ free) × Plan infos closing memory todo ws

-- The weights that the message under way is about to deliver.
abbrev pub Owed : List (Text × TensorInfo) → Memory → Flight → List (Text × Bytes) → Type 0
Owed infos memory (posted (payload buffer names used)) group =
    read_payload infos (bytes_of memory buffer) names used ≡ ok group
Owed infos memory (taken (payload buffer names used)) group =
    read_payload infos (bytes_of memory buffer) names used ≡ ok group
Owed infos memory _ group = group ≡ []

-- What holds of the socket at every moment: the weights that were loaded, those under way and those
-- to come are all of them.
pub record IsSound (infos : List (Text × TensorInfo)) (all : List (Text × Bytes)) (s : Socket)
    : Type 0 where
  pub todo : List Action
  pub memory : Memory
  pub weights : List (Text × Bytes)
  pub flight : Flight
  pub group : List (Text × Bytes)
  pub rest : List (Text × Bytes)
  pub same : s ≡ placed todo memory weights flight
  pub plan : Plan infos (pending_of flight) memory todo rest
  pub owed : Owed infos memory flight group
  pub whole : weights ++ (group ++ rest) ≡ all

pub bytes_of-write_buffer :
    (p b : Buffer) (m : Memory) (offset : ℕ) (bytes : Bytes)
    → may_write (busy p) b ≡ true
    → bytes_of (write_buffer m b offset bytes) p ≡ bytes_of m p
bytes_of-write_buffer buffer_a buffer_a m offset bytes h = cc
bytes_of-write_buffer buffer_a buffer_b m offset bytes h = refl
bytes_of-write_buffer buffer_b buffer_a m offset bytes h = refl
bytes_of-write_buffer buffer_b buffer_b m offset bytes h = cc

-- A copy that the plan allows is not into what the receiver reads.
pub Owed-write_buffer :
    (infos : List (Text × TensorInfo)) (f : Flight) (b : Buffer) (m : Memory) (offset : ℕ)
    (bytes : Bytes) (group : List (Text × Bytes))
    → may_write (pending_of f) b ≡ true
    → Owed infos m f group
    → Owed infos (write_buffer m b offset bytes) f group
Owed-write_buffer infos (posted (payload p names used)) b m offset bytes group h owed =
    rw (bytes_of-write_buffer p b m offset bytes h) owed
Owed-write_buffer infos (taken (payload p names used)) b m offset bytes group h owed =
    rw (bytes_of-write_buffer p b m offset bytes h) owed
Owed-write_buffer infos (posted complete) b m offset bytes group h owed = owed
Owed-write_buffer infos (taken complete) b m offset bytes group h owed = owed
Owed-write_buffer infos quiet b m offset bytes group h owed = owed
Owed-write_buffer infos (held p) b m offset bytes group h owed = owed
Owed-write_buffer infos (acked p) b m offset bytes group h owed = owed
Owed-write_buffer infos closed b m offset bytes group h owed = owed
Owed-write_buffer infos over b m offset bytes group h owed = owed
