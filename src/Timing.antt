-- ===== src/Timing.antt =====
-- Timing, nemo_rl/utils/timer.py.
pub mod Dict
pub mod Timeout
pub mod Timer
mod Tests
