-- ===== src/Planner.antt =====
-- ch_diag/planner.py: from the content pack, the filters and the server version to the plan.
pub mod Filters
pub mod Requirements
pub mod Plan
pub mod Fallback
pub mod Build
pub mod Example
pub mod Tests
