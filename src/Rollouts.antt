-- ===== src/Rollouts.antt =====
-- nemo_rl/experience/rollouts.py: the feedback of the environments and the multi-turn loops.
pub mod Feedback
pub mod Sample
pub mod MultiTurn
pub mod SingleSample
mod Tests
