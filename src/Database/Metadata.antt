-- ===== src/Database/Metadata.antt =====
-- The metadata queries of internal/database/mysql.go and internal/database/clickhouse.go.
pub mod Model
pub mod Nullable
pub mod Indexes
pub mod Mysql
pub mod ClickHouse
pub mod Sent
mod Tests
