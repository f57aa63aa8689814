-- ===== src/Packing.antt =====
-- nemo_rl/data/packing: sequence packing. `Packer` has what every packer shares and what a packing
-- is; a module for each algorithm, one for the adjustment of the bin count, one for `pack`.
pub mod Packer
pub mod Concatenative
pub mod FirstFit
pub mod Adjust
pub mod Modified
pub mod Pack
mod Tests
