-- ===== src/Accounting.antt =====
-- The books of a run: include/ptl/accounting and src/accounting.
pub mod Journal
