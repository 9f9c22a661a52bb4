-- ===== src/Algo.antt =====
-- Execution algorithms: include/ptl/algo/ and src/algo/.
pub mod Schedule
