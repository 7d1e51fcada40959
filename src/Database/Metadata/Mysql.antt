-- ===== src/Database/Metadata/Mysql.antt =====
-- The metadata queries of `MySQLDialect`, internal/database/mysql.go.
use mcp_server_for_mysql.Base.{
  Bool, true, false, List, [], ◌∷◌, none, some, ltb, if◌then◌else◌, Bytes, codes, equal, Result, ok,
  err, ◌>>=◌, ℤ, pos, negsuc,
}
use mcp_server_for_mysql.Execution.Value.{Value, string}
use mcp_server_for_mysql.Execution.Driver.{Driver, RowSet, query, Log}
use mcp_server_for_mysql.Database.Metadata.Model.{
  Table, Column, Index, TableDescription, MetadataError, query_failed, Scanner, select, scan_table,
  describe_with,
}
use mcp_server_for_mysql.Database.Metadata.Indexes.{IndexRow, group_rows}

abbrev pub index_expression_support_query : Bytes
index_expression_support_query =
    codes
      "\nSELECT COUNT(*)\nFROM information_schema.columns\nWHERE table_schema = 'information_schema'\n  AND table_name = 'STATISTICS'\n  AND column_name = 'EXPRESSION'"

abbrev pub indexes_with_expressions_query : Bytes
indexes_with_expressions_query =
    codes
      "\nSELECT index_name, non_unique, index_type, column_name, expression\nFROM information_schema.statistics\nWHERE table_schema = DATABASE() AND table_name = ?\nORDER BY index_name, seq_in_index"

abbrev pub indexes_without_expressions_query : Bytes
indexes_without_expressions_query =
    codes
      "\nSELECT index_name, non_unique, index_type, column_name, NULL AS index_expression\nFROM information_schema.statistics\nWHERE table_schema = DATABASE() AND table_name = ?\nORDER BY index_name, seq_in_index"

abbrev pub tables_query : Bytes
tables_query =
    codes
      "\nSELECT table_name, table_type, table_comment\nFROM information_schema.tables\nWHERE table_schema = DATABASE()\nORDER BY table_name"

abbrev pub columns_query : Bytes
columns_query =
    codes
      "\nSELECT column_name, column_type, is_nullable, column_default, column_comment, ordinal_position\nFROM information_schema.columns\nWHERE table_schema = DATABASE() AND table_name = ?\nORDER BY ordinal_position"

abbrev pub is_positive : ℤ → Bool
is_positive (pos n) = ltb 0 n
is_positive (negsuc n) = false

module _ (d : Driver) (sc : Scanner d.Error) where
  abbrev pub list_tables : Log → Result (MetadataError d.Error) (List Table) × Log
  list_tables log = select d (scan_table sc) tables_query [] log

  unfoldable pub scan_column : List Value → Result d.Error Column
  unfolding equal
  scan_column (n ∷ k ∷ y ∷ v ∷ c ∷ p ∷ []) = do
    name ← sc.string_of n
    kind ← sc.string_of k
    nullable ← sc.string_of y
    default_value ← sc.null_string_of v
    comment ← sc.string_of c
    position ← sc.int_of p
    ok (record {
      name = name;
      kind = kind;
      nullable = equal nullable (codes "YES");
      default_value = default_value;
      comment = comment;
      position = position;
    })
  scan_column values = err sc.wrong_count

  unfoldable pub mysql_columns : Bytes → Log → Result (MetadataError d.Error) (List Column) × Log
  unfolding select scan_column
  mysql_columns table_name log = select d scan_column columns_query (string table_name ∷ []) log

  -- `QueryRowContext(...).Scan(&count)`: the first row alone, and the error of an empty
  -- result. Closing the rows is taken to succeed.
  unfoldable pub scan_count : RowSet d.Error → Result d.Error ℤ
  scan_count set = elim set.rows [
    | [] ↦ elim set.rows_error [ some e ↦ err e | none ↦ err sc.no_rows ]
    | row ∷ rows ↦ do
      values ← row
      elim values [
        | [] ↦ err sc.wrong_count
        | v ∷ vs ↦ elim vs [ [] ↦ sc.int_of v | w ∷ ws ↦ err sc.wrong_count ]
      ]
  ]

  unfoldable pub mysql_supports_index_expressions : Log → Result (MetadataError d.Error) Bool × Log
  unfolding scan_count
  mysql_supports_index_expressions log =
      elim (d.query_context log index_expression_support_query []) [
        | err e ↦ (err (query_failed e), query index_expression_support_query [] false ∷ log)
        | ok set ↦ (
          elim (scan_count set) [ err e ↦ err (query_failed e) | ok n ↦ ok (is_positive n) ],
          query index_expression_support_query [] true ∷ log,
        )
      ]

  unfoldable pub scan_index : List Value → Result d.Error IndexRow
  scan_index (n ∷ u ∷ k ∷ c ∷ e ∷ []) = do
    name ← sc.string_of n
    non_unique ← sc.int_of u
    kind ← sc.string_of k
    column ← sc.null_string_of c
    expression ← sc.null_string_of e
    ok (record {
      name = name;
      non_unique = non_unique;
      kind = kind;
      column = column;
      expression = expression;
    })
  scan_index values = err sc.wrong_count

  -- The rows are grouped behind their scan: an error of either discards the indexes so far.
  unfoldable pub mysql_indexes : Bytes → Log → Result (MetadataError d.Error) (List Index) × Log
  unfolding mysql_supports_index_expressions select scan_index group_rows
  mysql_indexes table_name log =
      let (supports_expressions, log) = mysql_supports_index_expressions log in
      elim supports_expressions [
        | err e ↦ (err e, log)
        | ok supported ↦
            let statement =
              if supported
              then indexes_with_expressions_query
              else indexes_without_expressions_query in
            let (rows, log) = select d scan_index statement (string table_name ∷ []) log in
            (elim rows [ err e ↦ err e | ok rs ↦ ok (group_rows rs) ], log)
      ]

  abbrev pub describe_table : Bytes → Log → Result (MetadataError d.Error) TableDescription × Log
  describe_table = describe_with d mysql_columns mysql_indexes
