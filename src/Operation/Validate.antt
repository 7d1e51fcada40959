-- ===== src/Operation/Validate.antt =====
-- internal/operation/validate.go
pub mod Columns
pub mod Text
use mcp_server_for_mysql.Base.{
  ◌||◌, List, [], ◌∷◌, ◌++◌, if◌then◌else◌, length, Bytes, codes, equal, contains, join_by, Result,
  ok, err, ◌>>=◌, ℤ, pos, ltb_ℤ, is_nonzero, print_int,
}
use mcp_server_for_mysql.Database.Identifier.{IdentifierError}
use mcp_server_for_mysql.Database.Dialect.{Dialect, dialect_quote_identifier}
use mcp_server_for_mysql.Sqlguard.Splitter.{is_nil}
use mcp_server_for_mysql.Operation.Model.{
  ColumnSpec, OperationError, identifier, no_column, duplicate_column, dimensions, varchar_length,
  decimal_range, unsupported_kind,
}

abbrev pub max_mysql_varchar_length : ℤ
max_mysql_varchar_length = pos 65535

abbrev pub max_mysql_decimal : ℤ
max_mysql_decimal = pos 65

abbrev pub max_clickhouse_decimal : ℤ
max_clickhouse_decimal = pos 76

abbrev pub from_identifier : Result IdentifierError Bytes → Result OperationError Bytes
from_identifier (ok name) = ok name
from_identifier (err e) = err (identifier e)

unfoldable pub quote : Dialect → Bytes → Result OperationError Bytes
quote dialect name = from_identifier (dialect_quote_identifier dialect name)

-- The loop that `quotedColumns` and `buildColumns` share, over items with a name: `seen` are the
-- names, `built` the results so far. A name that was seen is refused before it is built.
unfoldable pub build_each :
    {A : Type 0}
    → (A → Bytes)
    → (A → Result OperationError Bytes)
    → List Bytes
    → List Bytes
    → List A
    → Result OperationError (List Bytes)
build_each name_of build seen built [] = ok built
build_each name_of build seen built (item ∷ items) =
    if contains (name_of item) seen then err (duplicate_column (name_of item)) else do
      text ← build item
      build_each name_of build (name_of item ∷ seen) (built ++ text ∷ []) items

unfoldable pub quoted_columns : Dialect → List Bytes → Result OperationError (List Bytes)
quoted_columns dialect columns =
    if is_nil columns
    then err no_column
    else build_each (λ column. column) (quote dialect) [] [] columns

-- `validateNoDimensions`, with the type that the column gets where it passes.
unfoldable pub no_dimensions : ColumnSpec → Bytes → Result OperationError Bytes
no_dimensions spec type_sql =
    if is_nonzero spec.length || is_nonzero spec.precision || is_nonzero spec.scale
    then err (dimensions spec.kind)
    else ok type_sql

-- The case "varchar" of `mysqlColumn`.
unfoldable pub varchar_type : ColumnSpec → Result OperationError Bytes
varchar_type spec =
    if ltb_ℤ spec.length (pos 1)
      || ltb_ℤ max_mysql_varchar_length spec.length
      || is_nonzero spec.precision
      || is_nonzero spec.scale
    then err varchar_length
    else ok (codes "VARCHAR(" ++ (print_int spec.length ++ codes ")"))

-- The case "decimal" of `mysqlColumn` and `clickHouseColumn`, which differ in bound and spelling.
unfoldable pub decimal_type : ℤ → Bytes → ColumnSpec → Result OperationError Bytes
decimal_type max spelled spec =
    if is_nonzero spec.length
      || ltb_ℤ spec.precision (pos 1)
      || ltb_ℤ max spec.precision
      || ltb_ℤ spec.scale (pos 0)
      || ltb_ℤ spec.precision spec.scale
    then err decimal_range
    else ok (
        spelled ++ (print_int spec.precision ++ (codes "," ++ (print_int spec.scale ++ codes ")"))))

-- The `switch` of `mysqlColumn`.
unfoldable pub mysql_type : ColumnSpec → Result OperationError Bytes
mysql_type spec =
    if equal spec.kind (codes "int")
    then no_dimensions spec (codes "INT")
    else if equal spec.kind (codes "bigint")
    then no_dimensions spec (codes "BIGINT")
    else if equal spec.kind (codes "varchar")
    then varchar_type spec
    else if equal spec.kind (codes "text")
    then no_dimensions spec (codes "TEXT")
    else if equal spec.kind (codes "decimal")
    then decimal_type max_mysql_decimal (codes "DECIMAL(") spec
    else if equal spec.kind (codes "boolean")
    then no_dimensions spec (codes "BOOLEAN")
    else if equal spec.kind (codes "date")
    then no_dimensions spec (codes "DATE")
    else if equal spec.kind (codes "datetime")
    then no_dimensions spec (codes "DATETIME")
    else if equal spec.kind (codes "timestamp")
    then no_dimensions spec (codes "TIMESTAMP")
    else err (unsupported_kind spec.kind)

unfoldable pub mysql_column : Dialect → ColumnSpec → Result OperationError Bytes
mysql_column dialect spec = do
  name ← quote dialect spec.name
  type_sql ← mysql_type spec
  ok (
      name
      ++ (codes " "
          ++ (type_sql
              ++ (codes " " ++ (if spec.nullable then codes "NULL" else codes "NOT NULL")))))

-- The `switch` of `clickHouseColumn`.
unfoldable pub clickhouse_type : ColumnSpec → Result OperationError Bytes
clickhouse_type spec =
    if equal spec.kind (codes "int64")
    then no_dimensions spec (codes "Int64")
    else if equal spec.kind (codes "uint64")
    then no_dimensions spec (codes "UInt64")
    else if equal spec.kind (codes "string")
    then no_dimensions spec (codes "String")
    else if equal spec.kind (codes "decimal")
    then decimal_type max_clickhouse_decimal (codes "Decimal(") spec
    else if equal spec.kind (codes "bool")
    then no_dimensions spec (codes "Bool")
    else if equal spec.kind (codes "date")
    then no_dimensions spec (codes "Date")
    else if equal spec.kind (codes "datetime")
    then no_dimensions spec (codes "DateTime")
    else err (unsupported_kind spec.kind)

unfoldable pub clickhouse_column : Dialect → ColumnSpec → Result OperationError Bytes
clickhouse_column dialect spec = do
  name ← quote dialect spec.name
  type_sql ← clickhouse_type spec
  ok (
      name
      ++ (codes " "
          ++ (if spec.nullable then codes "Nullable(" ++ (type_sql ++ codes ")") else type_sql)))

unfoldable pub build_columns :
    Dialect
    → List ColumnSpec
    → (Dialect → ColumnSpec → Result OperationError Bytes)
    → Result OperationError (List Bytes)
build_columns dialect specs column =
    if is_nil specs
    then err no_column
    else build_each (λ (spec : ColumnSpec). spec.name) (column dialect) [] [] specs

unfoldable pub join : List Bytes → Bytes
join columns = join_by (codes ", ") columns
