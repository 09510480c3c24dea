-- ===== src/Database.antt =====
-- ch_diag/clickhouse.py: the adapter between the collector and the ClickHouse driver. What a client
-- of the driver answers is an argument.
pub mod Errors
pub mod Session
pub mod Reconnect
pub mod Sql
pub mod Evidence
pub mod Schema
pub mod Query
pub mod Capabilities
pub mod Tests
