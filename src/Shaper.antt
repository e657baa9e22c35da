-- ===== src/Shaper.antt =====
-- src/libtsshaper: the shaper.
pub mod Fifo
pub mod Equilibrium
pub mod Io
pub mod Pacing
pub mod Scheduler
pub mod State
pub mod Voter
