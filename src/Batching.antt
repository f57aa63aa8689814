-- ===== src/Batching.antt =====
-- nemo_rl/distributed/batched_data_dict.py: batches of data, and how they are cut up; and
-- nemo_rl/environments/utils.py, how a list is cut up for workers.
pub mod Workers
pub mod Batch
pub mod Pieces
pub mod Shards
pub mod Packed
mod Tests
