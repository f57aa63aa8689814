-- ===== src/Checkpoint.antt =====
-- nemo_rl/utils/checkpoint.py: the directories of a training run.
pub mod Directory
pub mod Manager
mod Tests
