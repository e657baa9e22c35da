-- ===== src/Tests.antt =====
-- Examples: the theorems applied to concrete inputs.
pub mod Samples
pub mod Rings
pub mod Analysis
pub mod Parsing
pub mod Clocks
pub mod Shaping
pub mod Texts
pub mod Sharing
