-- ===== src/Games.antt =====
-- nemo_rl/environments/games: the sliding puzzle.
pub mod Board
pub mod Puzzle
pub mod Commands
pub mod Turns
mod Tests
