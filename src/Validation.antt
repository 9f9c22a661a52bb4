-- ===== src/Validation.antt =====
-- Walk-forward validation and the locked holdout: include/ptl/validation and
-- src/validation/walk_forward.cpp.
pub mod WalkForward
pub mod Holdout
mod Examples
