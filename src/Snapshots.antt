-- ===== src/Snapshots.antt =====
-- ch_diag/snapshots.py: repeated sampling.
pub mod Schedule
pub mod Runner
pub mod Items
pub mod Tests
