-- ===== src/Training.antt =====
-- nemo_rl/algorithms/grpo.py: what the training loop does with its batches.
pub mod Sampling
mod Tests
