-- ===== src/Execution/Driver.antt =====
-- The package `database/sql` as internal/execution uses it. What a driver answers may depend on
-- all that happened before, so an answer is a function of the events so far, the latest first.
use mcp_server_for_mysql.Base.{Bool, List, Option, Bytes, Result, ℤ}
use mcp_server_for_mysql.Execution.Value.{Value}

-- A call and whether it succeeded. `exec` is on the transaction, or on the pool.
pub data Event : Type 0 where
  begin : (done : Bool) → Event
  exec : (in_tx : Bool) → Bytes → List Value → (done : Bool) → Event
  commit : (done : Bool) → Event
  rollback : (done : Bool) → Event
  query : Bytes → List Value → (done : Bool) → Event

abbrev pub Log : Type 0
Log = List Event

-- What a driver reports of a mutation; `none` is an error of that accessor.
pub record ExecReply : Type 0 where
  pub rows_affected : Option ℤ
  pub last_insert_id : Option ℤ

-- A result set: its columns, each row or the error of its scan, and the error after the last row.
pub record RowSet (Error : Type 0) : Type 0 where
  pub columns : Result Error (List Bytes)
  pub rows : List (Result Error (List Value))
  pub rows_error : Option Error

pub record Driver : Type 1 where
  pub Error : Type 0
  pub begin_tx : Log → Option Error
  pub exec_context : Log → Bool → Bytes → List Value → Result Error ExecReply
  pub commit_tx : Log → Option Error
  pub rollback_tx : Log → Option Error
  pub query_context : Log → Bytes → List Value → Result Error (RowSet Error)
