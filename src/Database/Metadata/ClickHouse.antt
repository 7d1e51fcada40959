-- ===== src/Database/Metadata/ClickHouse.antt =====
-- The metadata queries of `ClickHouseDialect`, internal/database/clickhouse.go.
use mcp_server_for_mysql.Base.{
  false, List, [], ◌∷◌, Option, none, some, Bytes, codes, Result, ok, err, ◌>>=◌,
}
use mcp_server_for_mysql.Execution.Value.{Value, string}
use mcp_server_for_mysql.Execution.Driver.{Driver, Log}
use mcp_server_for_mysql.Database.Metadata.Model.{
  Table, Column, Index, TableDescription, MetadataError, Scanner, select, scan_table, describe_with,
}
use mcp_server_for_mysql.Database.Metadata.Nullable.{is_nullable}

abbrev pub tables_query : Bytes
tables_query =
    codes
      "\nSELECT name, engine, comment\nFROM system.tables\nWHERE database = currentDatabase()\nORDER BY name"

abbrev pub columns_query : Bytes
columns_query =
    codes
      "\nSELECT name, type, default_expression, comment, position\nFROM system.columns\nWHERE database = currentDatabase() AND table = ?\nORDER BY position"

abbrev pub indexes_query : Bytes
indexes_query =
    codes
      "\nSELECT name, expr, type\nFROM system.data_skipping_indices\nWHERE database = currentDatabase() AND table = ?\nORDER BY name"

-- A default expression that is not empty.
abbrev pub default_of : Bytes → Option Bytes
default_of [] = none
default_of (c ∷ s) = some (c ∷ s)

module _ (d : Driver) (sc : Scanner d.Error) where
  abbrev pub list_tables : Log → Result (MetadataError d.Error) (List Table) × Log
  list_tables log = select d (scan_table sc) tables_query [] log

  unfoldable pub scan_column : List Value → Result d.Error Column
  unfolding is_nullable
  scan_column (n ∷ k ∷ v ∷ c ∷ p ∷ []) = do
    name ← sc.string_of n
    kind ← sc.string_of k
    default_value ← sc.string_of v
    comment ← sc.string_of c
    position ← sc.int_of p
    ok (record {
      name = name;
      kind = kind;
      nullable = is_nullable kind;
      default_value = default_of default_value;
      comment = comment;
      position = position;
    })
  scan_column values = err sc.wrong_count

  unfoldable pub clickhouse_columns :
      Bytes → Log → Result (MetadataError d.Error) (List Column) × Log
  unfolding select scan_column
  clickhouse_columns table_name log =
      select d scan_column columns_query (string table_name ∷ []) log

  unfoldable pub scan_index : List Value → Result d.Error Index
  scan_index (n ∷ e ∷ k ∷ []) = do
    name ← sc.string_of n
    expression ← sc.string_of e
    kind ← sc.string_of k
    ok (record { name = name; kind = kind; columns = []; expression = expression; unique = false })
  scan_index values = err sc.wrong_count

  unfoldable pub clickhouse_indexes :
      Bytes → Log → Result (MetadataError d.Error) (List Index) × Log
  unfolding select scan_index
  clickhouse_indexes table_name log = select d scan_index indexes_query (string table_name ∷ []) log

  abbrev pub describe_table : Bytes → Log → Result (MetadataError d.Error) TableDescription × Log
  describe_table = describe_with d clickhouse_columns clickhouse_indexes
