-- ===== src/Transfer/Socket.antt =====
-- The two ends of the socket at work: the worker of the policy, which goes through its actions, and
-- the loop of `update_weights_via_ipc_zmq`, over buffers that both read.
use nemo_rl_submission.Prelude.{ℕ, zero, suc, List, [], ◌∷◌, ◌++◌, ok, raise}
use nemo_rl_submission.Prelude.Text.{Text}
use nemo_rl_submission.Transfer.Memory.{copy_into}
use nemo_rl_submission.Transfer.Stream.{
  Bytes, Buffer, buffer_a, buffer_b, Action, pack_bytes, send, await_ack, send_complete,
}
use nemo_rl_submission.Transfer.Receive.{TensorInfo, read_payload}

pub data SocketMessage : Type 0 where
  payload : Buffer → List Text → ℕ → SocketMessage
  complete : SocketMessage

-- Where the loop of the generation worker is: before a message, at one, after the weights of one are
-- loaded, out of the loop after COMPLETE, or out of it by an exception.
pub data Phase : Type 0 where
  receiving : Phase
  handling : SocketMessage → Phase
  loaded_group : Phase
  updated : Phase
  failed : Phase

pub record Memory : Type 0 where
  pub bytes_a : Bytes
  pub bytes_b : Bytes

abbrev pub bytes_of : Memory → Buffer → Bytes
bytes_of m buffer_a = m.bytes_a
bytes_of m buffer_b = m.bytes_b

abbrev pub write_buffer : Memory → Buffer → ℕ → Bytes → Memory
write_buffer m buffer_a offset bytes = record m { bytes_a = copy_into m.bytes_a offset bytes }
write_buffer m buffer_b offset bytes = record m { bytes_b = copy_into m.bytes_b offset bytes }

-- The sender's remaining actions, the shared buffers, the messages and acknowledgements on their way,
-- the receiver, and the weights that its model was given.
pub record Socket : Type 0 where
  pub todo : List Action
  pub memory : Memory
  pub messages : List SocketMessage
  pub acks : ℕ
  pub phase : Phase
  pub weights : List (Text × Bytes)

-- The sender's next action; `recv` waits for an acknowledgement.
unfoldable pub sender_step : Socket → Socket
sender_step s = elim s.todo [
  | [] ↦ s
  | pack_bytes buffer offset bytes ∷ rest ↦ record s {
    todo = rest;
    memory = write_buffer s.memory buffer offset bytes;
  }
  | send buffer names used ∷ rest ↦ record s {
    todo = rest;
    messages = s.messages ++ payload buffer names used ∷ [];
  }
  | await_ack ∷ rest ↦ elim s.acks [ zero ↦ s | suc n ↦ record s { todo = rest; acks = n } ]
  | send_complete ∷ rest ↦ record s { todo = rest; messages = s.messages ++ complete ∷ [] }
]

-- What the receiver does with the message that it has: it reads the buffer as it is then.
unfoldable pub handle_message : List (Text × TensorInfo) → SocketMessage → Socket → Socket
unfolding read_payload
handle_message infos (payload buffer names used) s =
    elim (read_payload infos (bytes_of s.memory buffer) names used) [
      | ok group ↦ record s { phase = loaded_group; weights = s.weights ++ group }
      | raise _ ↦ record s { phase = failed }
    ]
handle_message infos complete s = record s { phase = updated; acks = suc s.acks }

unfoldable pub receiver_step : List (Text × TensorInfo) → Socket → Socket
unfolding handle_message
receiver_step infos s = elim s.phase [
  | receiving ↦ elim s.messages [
    | [] ↦ s
    | m ∷ rest ↦ record s { messages = rest; phase = handling m }
  ]
  | handling m ↦ handle_message infos m s
  | loaded_group ↦ record s { phase = receiving; acks = suc s.acks }
  | updated ↦ s
  | failed ↦ s
]

pub data Actor : Type 0 where
  sender : Actor
  receiver : Actor

abbrev pub take_turn : List (Text × TensorInfo) → Actor → Socket → Socket
take_turn infos sender s = sender_step s
take_turn infos receiver s = receiver_step infos s

-- The two take turns in any order; who has to wait does nothing.
abbrev pub run : List (Text × TensorInfo) → List Actor → Socket → Socket
run infos [] s = s
run infos (a ∷ turns) s = run infos turns (take_turn infos a s)

abbrev pub connected : List Action → Memory → Socket
connected actions memory = record {
  todo = actions;
  memory = memory;
  messages = [];
  acks = 0;
  phase = receiving;
  weights = [];
}
