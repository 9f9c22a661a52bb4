-- ===== src/Execution.antt =====
-- What orders execute against: include/ptl/execution/ and src/execution/.
pub mod QuoteModels
pub mod Models
pub mod Broker
pub mod QuoteBook
pub mod QuoteRouter
mod Examples
