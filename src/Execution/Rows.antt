-- ===== src/Execution/Rows.antt =====
-- internal/execution/rows.go and `Executor.Query` of internal/execution/executor.go.
pub mod Laws
use mcp_server_for_mysql.Base.{
  ℕ, zero, suc, Bool, true, false, List, [], ◌∷◌, ◌++◌, map, Option, none, some, ◌==◌, length,
  Bytes, Result, ok, err, ℤ, pos, negsuc,
}
use mcp_server_for_mysql.Execution.Value.{Value, byte_slice, string}
use mcp_server_for_mysql.Execution.Driver.{query, Log, RowSet, Driver}

abbrev pub default_max_rows : ℕ
default_max_rows = 100

pub record QueryResult : Type 0 where
  pub columns : List Bytes
  pub rows : List (List Value)
  pub truncated : Bool

pub data QueryError (Error : Type 0) : Type 0 where
  nil_database : QueryError Error
  driver_error columns_error scan_error rows_error : Error → QueryError Error

-- `Executor.effectiveMaxRows`
unfoldable pub effective_max_rows : ℤ → ℕ
effective_max_rows (pos zero) = default_max_rows
effective_max_rows (pos (suc n)) = suc n
effective_max_rows (negsuc n) = default_max_rows

abbrev pub text_cell : Value → Value
text_cell (byte_slice b) = string b
text_cell v = v

-- The rows collected, and whether the loop stopped at the limit.
pub record Collected : Type 0 where
  pub rows : List (List Value)
  pub truncated : Bool

-- The loop over `rows.Next()`: `collected` are the rows so far.
unfoldable pub collect_loop {ℓ} :
    {Error : Type ℓ}
    → ℕ
    → List (List Value)
    → List (Result Error (List Value))
    → Result Error Collected
collect_loop limit collected [] = ok (record { rows = collected; truncated = false })
collect_loop limit collected (row ∷ rest) = elim (length collected == limit) [
  | true ↦ ok (record { rows = collected; truncated = true })
  | false ↦ elim row [
    | err e ↦ err e
    | ok values ↦ collect_loop limit (collected ++ map text_cell values ∷ []) rest
  ]
]

module _ {Error : Type 0} where
  -- `rows.Err()` behind the loop, and the result. The driver's error stands behind its last row, so a
  -- loop that stopped at the limit has not come to it.
  abbrev finish : List Bytes → Collected → Option Error → Result (QueryError Error) QueryResult
  finish columns c e = elim c.truncated [
    | true ↦ ok (record { columns = columns; rows = c.rows; truncated = true })
    | false ↦ elim e [
      | some e ↦ err (rows_error e)
      | none ↦ ok (record { columns = columns; rows = c.rows; truncated = false })
    ]
  ]

  -- `Executor.collectRows`
  unfoldable pub collect_rows : ℤ → RowSet Error → Result (QueryError Error) QueryResult
  collect_rows max_rows set = elim set.columns [
    | err e ↦ err (columns_error e)
    | ok columns ↦ elim (collect_loop (effective_max_rows max_rows) [] set.rows) [
      | err e ↦ err (scan_error e)
      | ok c ↦ finish columns c set.rows_error
    ]
  ]

-- `Executor.Query`
unfoldable pub run_query :
    (d : Driver)
    → ℤ
    → (has_db : Bool) → Bytes
    → List Value
    → Log
    → Result (QueryError d.Error) QueryResult × Log
run_query d max_rows false statement args log = (err nil_database, log)
run_query d max_rows true statement args log = elim (d.query_context log statement args) [
  | err e ↦ (err (driver_error e), query statement args false ∷ log)
  | ok set ↦ (collect_rows max_rows set, query statement args true ∷ log)
]
