-- ===== src/Oms.antt =====
-- The order management system: include/ptl/oms and src/oms.
pub mod Order
pub mod Fill
pub mod State
pub mod Manager
mod Examples
