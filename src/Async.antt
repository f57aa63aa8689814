-- ===== src/Async.antt =====
-- nemo_rl/algorithms/async_utils.py: the replay buffer between asynchronous generation and
-- training, and the collector that fills it.
pub mod Replay
pub mod Collector
pub mod System
mod Tests
