-- ===== src/Execution/Executor.antt =====
-- internal/execution/executor.go, without the deadline: an expired one is an error of the driver.
pub mod Runs
pub mod Effects
pub mod Refinement
use mcp_server_for_mysql.Base.{
  ℕ, zero, suc, Bool, true, false, not, ◌&&◌, List, [], ◌∷◌, ◌++◌, Option, none, some, ltb,
  if◌then◌else◌, length, trim_space, ok, err, ℤ,
}
use mcp_server_for_mysql.Database.Dialect.{Capability}
use mcp_server_for_mysql.Database.Source.{Source, capabilities}
use mcp_server_for_mysql.Sqlguard.Model.{
  Plan, Statement, StatementKind, read_only, write, ddl, session, is_write,
}
use mcp_server_for_mysql.Sqlguard.Splitter.{is_nil}
use mcp_server_for_mysql.Execution.Value.{Value}
use mcp_server_for_mysql.Execution.Driver.{
  Event, begin, exec, commit, rollback, Log, ExecReply, Driver,
}

pub record StatementResult : Type 0 where
  pub index : ℕ
  pub rows_affected : Option ℤ
  pub last_insert_id : Option ℤ

pub record ExecuteResult : Type 0 where
  pub statements : List StatementResult
  pub atomic : Bool

pub data ExecuteError (Error : Type 0) : Type 0 where
  invalid_plan ambiguous_batch_args nil_source_database : ExecuteError Error
  begin_failed : Error → ExecuteError Error
  statement_failed : (index : ℕ) → Error → (rollback_error : Option Error) → ExecuteError Error
  commit_failed : Error → ExecuteError Error

unfoldable pub all_writes : List Statement → Bool
all_writes [] = true
all_writes (s ∷ ss) = is_write s.kind && all_writes ss

-- `IsAtomicBatch`; a nil source is `none`.
unfoldable pub is_atomic_batch : Option Source → Plan → Bool
unfolding all_writes
is_atomic_batch none plan = false
is_atomic_batch (some source) plan =
    (capabilities source).atomic_batches && all_writes plan.statements

abbrev is_executable : StatementKind → Bool
is_executable write = true
is_executable ddl = true
is_executable _ = false

-- The loop of `validateExecutionPlan`.
unfoldable pub all_executable : List Statement → Bool
all_executable [] = true
all_executable (s ∷ ss) =
    if is_nil (trim_space s.normalized_sql)
    then false
    else if is_executable s.kind
    then all_executable ss
    else false

unfoldable pub validate_execution_plan : Plan → Bool
unfolding all_executable
validate_execution_plan plan = not (is_nil plan.statements) && all_executable plan.statements

abbrev pub execution_args : ℕ → List Value → List Value
execution_args zero args = args
execution_args (suc _) args = []

-- How a run over statements ends: the results, and the index and error of the one that failed.
pub record Run (Error : Type 0) : Type 0 where
  pub results : List StatementResult
  pub failure : Option (ℕ × Error)
  pub log : Log

-- A result with its error, as Go returns them, and the events.
pub record Execution (Error : Type 0) : Type 0 where
  pub result : ExecuteResult
  pub error : Option (ExecuteError Error)
  pub log : Log

module _ (d : Driver) where
  abbrev statement_result : ℕ → ExecReply → StatementResult
  statement_result index reply = record {
    index = index;
    rows_affected = reply.rows_affected;
    last_insert_id = reply.last_insert_id;
  }

  -- The loop of `executeAtomically` and `executeSequentially`, from `index` on.
  unfoldable pub run_statements :
      Bool → ℕ → List StatementResult → List Value → List Statement → Log → Run d.Error
  run_statements in_tx index results args [] log = record {
    results = results;
    failure = none;
    log = log;
  }
  run_statements in_tx index results args (s ∷ ss) log =
      elim (d.exec_context log in_tx s.normalized_sql (execution_args index args)) [
        | err e ↦ record {
          results = results;
          failure = some (index, e);
          log = exec in_tx s.normalized_sql (execution_args index args) false ∷ log;
        }
        | ok reply ↦
            run_statements in_tx (suc index) (results ++ statement_result index reply ∷ []) args ss
              (exec in_tx s.normalized_sql (execution_args index args) true ∷ log)
      ]

  abbrev pub is_none {ℓ} : {A : Type ℓ} → Option A → Bool
  is_none none = true
  is_none (some _) = false

  abbrev execution :
      List StatementResult → Bool → Option (ExecuteError d.Error) → Log → Execution d.Error
  execution results atomic error log = record {
    result = record { statements = results; atomic = atomic };
    error = error;
    log = log;
  }

  -- The commit or the rollback that ends a run inside a transaction.
  unfoldable pub end_transaction : Run d.Error → Execution d.Error
  end_transaction r = elim r.failure [
    | some (index, e) ↦
        let reply = d.rollback_tx r.log in
        execution r.results true (some (statement_failed index e reply))
          (rollback (is_none reply) ∷ r.log)
    | none ↦ elim (d.commit_tx r.log) [
      | none ↦ execution r.results true none (commit true ∷ r.log)
      | some e ↦ execution r.results true (some (commit_failed e)) (commit false ∷ r.log)
    ]
  ]

  unfoldable pub execute_atomically : List Statement → List Value → Log → Execution d.Error
  execute_atomically statements args log = elim (d.begin_tx log) [
    | some e ↦ execution [] true (some (begin_failed e)) (begin false ∷ log)
    | none ↦ end_transaction (run_statements true 0 [] args statements (begin true ∷ log))
  ]

  abbrev sequential_error : Option (ℕ × d.Error) → Option (ExecuteError d.Error)
  sequential_error none = none
  sequential_error (some (index, e)) = some (statement_failed index e none)

  unfoldable pub execute_sequentially : List Statement → List Value → Log → Execution d.Error
  execute_sequentially statements args log =
      let r = run_statements false 0 [] args statements log in
      execution r.results false (sequential_error r.failure) r.log

  abbrev pub refused : ExecuteError d.Error → Log → Execution d.Error
  refused e log = execution [] false (some e) log

  abbrev pub has_database : Option Source → Bool
  has_database none = false
  has_database (some source) = source.has_db

  -- `Executor.ExecutePlan`
  unfoldable pub execute_plan : Option Source → Plan → List Value → Log → Execution d.Error
  execute_plan source plan args log =
      if not (validate_execution_plan plan)
      then refused invalid_plan log
      else if ltb 1 (length plan.statements) && not (is_nil args)
      then refused ambiguous_batch_args log
      else if not (has_database source)
      then refused nil_source_database log
      else if is_atomic_batch source plan
      then execute_atomically plan.statements args log
      else execute_sequentially plan.statements args log
