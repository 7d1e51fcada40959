-- ===== src/Database/Dialect.antt =====
-- The dialects of internal/database/mysql.go and internal/database/clickhouse.go, without their
-- metadata queries, and the capabilities of internal/database/types.go.
use mcp_server_for_mysql.Base.{Bool, true, false, Bytes, codes, Result}
use mcp_server_for_mysql.Database.Identifier.{
  IdentifierError, quote_identifier, validate_identifier,
}

pub record Capability : Type 0 where
  pub transactions : Bool
  pub atomic_batches : Bool
  pub copy_table : Bool
  pub alter_columns : Bool

-- `MySQLDialect` and `ClickHouseDialect`, the two types that implement the interface `Dialect`.
pub data Dialect : Type 0 where
  mysql_dialect clickhouse_dialect : Dialect

abbrev pub dialect_name : Dialect → Bytes
dialect_name mysql_dialect = codes "mysql"
dialect_name clickhouse_dialect = codes "clickhouse"

abbrev pub dialect_capabilities : Dialect → Capability
dialect_capabilities mysql_dialect = record {
  transactions = true;
  atomic_batches = true;
  copy_table = true;
  alter_columns = true;
}
dialect_capabilities clickhouse_dialect = record {
  transactions = false;
  atomic_batches = false;
  copy_table = false;
  alter_columns = true;
}

abbrev pub dialect_validate_identifier : Dialect → Bytes → Result IdentifierError (Unit {0})
dialect_validate_identifier mysql_dialect name = validate_identifier name
dialect_validate_identifier clickhouse_dialect name = validate_identifier name

abbrev pub dialect_quote_identifier : Dialect → Bytes → Result IdentifierError Bytes
dialect_quote_identifier mysql_dialect name = quote_identifier name
dialect_quote_identifier clickhouse_dialect name = quote_identifier name
