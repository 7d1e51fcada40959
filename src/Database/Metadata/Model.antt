-- ===== src/Database/Metadata/Model.antt =====
-- The metadata types of internal/database/types.go, and a query whose rows are scanned.
use mcp_server_for_mysql.Base.{
  Bool, true, false, List, [], ◌∷◌, Option, none, some, Bytes, Result, ok, err, ◌>>=◌, ℤ,
}
use mcp_server_for_mysql.Database.Identifier.{IdentifierError, validate_identifier}
use mcp_server_for_mysql.Execution.Value.{Value}
use mcp_server_for_mysql.Execution.Driver.{Driver, query, Log}

pub record Table : Type 0 where
  pub name : Bytes
  pub kind : Bytes
  pub comment : Bytes

pub record Column : Type 0 where
  pub name : Bytes
  pub kind : Bytes
  pub nullable : Bool
  pub default_value : Option Bytes
  pub comment : Bytes
  pub position : ℤ

pub record Index : Type 0 where
  pub name : Bytes
  pub kind : Bytes
  pub columns : List Bytes
  pub expression : Bytes
  pub unique : Bool

pub record TableDescription : Type 0 where
  pub table : Table
  pub columns : List Column
  pub indexes : List Index

-- An error of a query, of the scan of a row or behind the last row, or a refused name.
pub data MetadataError (Error : Type 0) : Type 0 where
  invalid_table : IdentifierError → MetadataError Error
  query_failed scan_failed iterate_failed : Error → MetadataError Error

-- How `database/sql` scans a value into a `string`, a `sql.NullString` and an `int`, and its errors
-- for a row of another length and for a query without a row.
pub record Scanner (Error : Type 0) : Type 0 where
  pub string_of : Value → Result Error Bytes
  pub null_string_of : Value → Result Error (Option Bytes)
  pub int_of : Value → Result Error ℤ
  pub wrong_count : Error
  pub no_rows : Error

-- The three texts of a table.
unfoldable pub scan_table : {Error : Type 0} → Scanner Error → List Value → Result Error Table
scan_table sc (n ∷ k ∷ c ∷ []) = do
  name ← sc.string_of n
  kind ← sc.string_of k
  comment ← sc.string_of c
  ok (record { name = name; kind = kind; comment = comment })
scan_table sc values = err sc.wrong_count

module _ {Error A : Type 0} (scan : List Value → Result Error A) where
  abbrev pub scan_row : Result Error (List Value) → Result (MetadataError Error) A
  scan_row (err e) = err (scan_failed e)
  scan_row (ok values) = elim (scan values) [ err e ↦ err (scan_failed e) | ok a ↦ ok a ]

  -- The loop over `rows.Next()`, with the test of `rows.Err()` behind it.
  unfoldable pub scan_rows :
      List (Result Error (List Value)) → Option Error → Result (MetadataError Error) (List A)
  scan_rows [] (some e) = err (iterate_failed e)
  scan_rows [] none = ok []
  scan_rows (row ∷ rows) last = do a ← scan_row row; rest ← scan_rows rows last; ok (a ∷ rest)

-- A query for rows, as every list of the metadata is read.
unfoldable pub select :
    {A : Type 0} (d : Driver)
    → (List Value → Result d.Error A)
    → Bytes
    → List Value
    → Log
    → Result (MetadataError d.Error) (List A) × Log
unfolding scan_rows
select d scan statement args log = elim (d.query_context log statement args) [
  | err e ↦ (err (query_failed e), query statement args false ∷ log)
  | ok set ↦ (scan_rows scan set.rows set.rows_error, query statement args true ∷ log)
]

-- `DescribeTable`, from the dialect's columns and indexes.
module _ (d : Driver)
    (columns_of : Bytes → Log → Result (MetadataError d.Error) (List Column) × Log)
    (indexes_of : Bytes → Log → Result (MetadataError d.Error) (List Index) × Log) where
  unfoldable pub describe_with : Bytes → Log → Result (MetadataError d.Error) TableDescription × Log
  unfolding validate_identifier
  describe_with table_name log = elim (validate_identifier table_name) [
    | err e ↦ (err (invalid_table e), log)
    | ok u ↦
        let (columns, log) = columns_of table_name log in
        elim columns [
          | err e ↦ (err e, log)
          | ok cs ↦
              let (indexes, log) = indexes_of table_name log in
              (
                elim indexes [
                  | err e ↦ err e
                  | ok ixs ↦ ok (record {
                    table = record { name = table_name; kind = []; comment = [] };
                    columns = cs;
                    indexes = ixs;
                  })
                ],
                log,
              )
        ]
  ]
