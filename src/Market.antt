-- ===== src/Market.antt =====
-- Market data: include/ptl/market/ and src/market/.
pub mod Events
pub mod Event
pub mod Session
pub mod Source
pub mod Symbols
pub mod Validator
mod Examples
