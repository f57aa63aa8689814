-- ===== src/Transfer.antt =====
-- Handing the weights of the trained model to the generation workers: through two buffers in shared
-- memory and a socket (nemo_rl/models/policy/utils.py, vllm_backend.py), and in packets that are
-- broadcast (nemo_rl/utils/packed_tensor.py).
pub mod Memory
pub mod Stream
pub mod Receive
pub mod Socket
pub mod Loaded
pub mod Planned
pub mod Outcome
pub mod Rounds
pub mod Delivery
pub mod Broadcast
pub mod Consumer
pub mod RoundTrip
mod Tests
pub mod Flight
