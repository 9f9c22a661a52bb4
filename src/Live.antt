-- ===== src/Live.antt =====
-- The live connection to a venue: include/ptl/live/connection.hpp and src/live/connection.cpp.
pub mod Heartbeat
pub mod Supervisor
pub mod Message
pub mod Connection
pub mod Receive
mod Examples
