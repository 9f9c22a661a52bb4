-- ===== src/Core.antt =====
-- The vocabulary types and the timestamp chain: include/ptl/core and src/core.
pub mod Types
pub mod Clock
pub mod Instruments
pub mod Time
mod Examples
