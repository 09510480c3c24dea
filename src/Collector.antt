-- ===== src/Collector.antt =====
-- ch_diag/collector.py: from a plan to an artifact, and the resources that a collection opens.
pub mod Services
pub mod Execute
pub mod Fallback
pub mod Target
pub mod Lifecycle
pub mod Tests
