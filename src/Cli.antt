-- ===== src/Cli.antt =====
-- ch_diag/cli.py: the options of a collection and what becomes of them, and the exit status of the
-- program.
pub mod Options
pub mod Connect
pub mod Formats
pub mod Exit
pub mod Tests
