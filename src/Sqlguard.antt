-- ===== src/Sqlguard.antt =====
-- internal/sqlguard: the statement splitter, the plan, and the two analyzers.
pub mod Model
pub mod Splitter
pub mod Analyze
pub mod Words
pub mod Mysql
pub mod ClickHouse
pub mod Examples
mod Tests
