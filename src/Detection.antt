-- ===== src/Detection.antt =====
-- internal/detection: what the daemon makes of a scan's result.
pub mod Correlation
pub mod Windows
pub mod Spacing
pub mod Distinct
pub mod Floats
pub mod Baseline
pub mod Drift
pub mod Soundness
pub mod Onset
pub mod Rules
pub mod Pruning
