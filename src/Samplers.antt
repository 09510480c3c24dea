-- ===== src/Samplers.antt =====
-- ch_diag/samplers.py: the results that are built from repeated samples.
pub mod Budget
pub mod Threads
pub mod Tests
