-- ===== src/Operation/ClickHouse.antt =====
-- internal/operation/clickhouse.go
pub mod Safe
use mcp_server_for_mysql.Base.{List, [], ◌∷◌, ◌++◌, map, Bytes, codes, Result, ok, err, ◌>>=◌}
use mcp_server_for_mysql.Database.Dialect.{Dialect, clickhouse_dialect}
use mcp_server_for_mysql.Operation.Model.{
  CreateTableRequest, DropTableRequest, AddColumnsRequest, DropColumnsRequest, ModifyColumnsRequest,
  CreateIndexRequest, DropIndexRequest, RenameTableRequest, CopyTableRequest, OperationError,
  unsupported_capability, Builder,
}
use mcp_server_for_mysql.Operation.Validate.{
  quote, quoted_columns, clickhouse_column, build_columns, join,
}

-- `ClickHouseBuilder.dialect`
abbrev dialect : Dialect
dialect = clickhouse_dialect

unfoldable pub create_table : CreateTableRequest → Result OperationError (List Bytes)
create_table r = do
  table ← quote dialect r.table
  columns ← build_columns dialect r.columns clickhouse_column
  ok (
      (codes "CREATE TABLE "
        ++ (table
            ++ (codes " (" ++ (join columns ++ codes ") ENGINE = MergeTree ORDER BY tuple()"))))
      ∷ [])

unfoldable pub drop_table : DropTableRequest → Result OperationError (List Bytes)
drop_table r = do table ← quote dialect r.table; ok ((codes "DROP TABLE " ++ table) ∷ [])

-- "ALTER TABLE %s %s" over the columns, each behind its clause.
abbrev alter_table : Bytes → Bytes → List Bytes → List Bytes
alter_table table clause columns =
    (codes "ALTER TABLE " ++ (table ++ (codes " " ++ join (map (λ c. clause ++ c) columns)))) ∷ []

unfoldable pub add_columns : AddColumnsRequest → Result OperationError (List Bytes)
add_columns r = do
  table ← quote dialect r.table
  columns ← build_columns dialect r.columns clickhouse_column
  ok (alter_table table (codes "ADD COLUMN ") columns)

unfoldable pub drop_columns : DropColumnsRequest → Result OperationError (List Bytes)
drop_columns r = do
  table ← quote dialect r.table
  columns ← quoted_columns dialect r.columns
  ok (alter_table table (codes "DROP COLUMN ") columns)

unfoldable pub modify_columns : ModifyColumnsRequest → Result OperationError (List Bytes)
modify_columns r = do
  table ← quote dialect r.table
  columns ← build_columns dialect r.columns clickhouse_column
  ok (alter_table table (codes "MODIFY COLUMN ") columns)

unfoldable pub create_index : CreateIndexRequest → Result OperationError (List Bytes)
create_index r = err unsupported_capability

unfoldable pub drop_index : DropIndexRequest → Result OperationError (List Bytes)
drop_index r = err unsupported_capability

unfoldable pub rename_table : RenameTableRequest → Result OperationError (List Bytes)
rename_table r = do
  old ← quote dialect r.from_table
  new ← quote dialect r.to_table
  ok ((codes "RENAME TABLE " ++ (old ++ (codes " TO " ++ new))) ∷ [])

unfoldable pub copy_table : CopyTableRequest → Result OperationError (List Bytes)
copy_table r = err unsupported_capability

abbrev pub clickhouse_builder : Builder
clickhouse_builder = record {
  create_table = create_table;
  drop_table = drop_table;
  add_columns = add_columns;
  drop_columns = drop_columns;
  modify_columns = modify_columns;
  create_index = create_index;
  drop_index = drop_index;
  rename_table = rename_table;
  copy_table = copy_table;
}
