-- ===== src/Layout.antt =====
-- How the tokens of sequences are laid out for the workers: in rows of packed sequences
-- (nemo_rl/models/huggingface/common.py), and over the ranks of context parallelism
-- (nemo_rl/distributed/model_utils.py).
pub mod Context
pub mod Rows
mod Tests
