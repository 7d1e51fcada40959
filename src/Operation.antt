-- ===== src/Operation.antt =====
-- internal/operation: typed schema requests and the builders that turn them into SQL.
pub mod Model
pub mod Validate
pub mod Sql
pub mod Script
pub mod Mysql
pub mod ClickHouse
mod Tests
