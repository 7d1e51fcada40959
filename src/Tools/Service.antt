-- ===== src/Tools/Service.antt =====
-- internal/tools/service.go: the query, the mutations by SQL, and what they share.
use mcp_server_for_mysql.Base.{
  Bool, true, false, not, ◌&&◌, ◌||◌, List, [], ◌∷◌, Option, none, some, ltb, if◌then◌else◌, length,
  Bytes, codes, equal, trim_space, Result, ok, err, ◌>>=◌,
}
use mcp_server_for_mysql.Database.Source.{Source}
use mcp_server_for_mysql.Database.Registry.{lookup_source}
use mcp_server_for_mysql.Sqlguard.Model.{Plan, Statement, high_risk, SqlError}
use mcp_server_for_mysql.Sqlguard.Splitter.{is_nil}
use mcp_server_for_mysql.Sqlguard.Mysql as Mysql
use mcp_server_for_mysql.Sqlguard.ClickHouse as ClickHouse
use mcp_server_for_mysql.Execution.Value.{Value}
use mcp_server_for_mysql.Execution.Model.{
  Mode, quick_mode, other_mode, Confirmation, DecisionState, execute_now, preview_required,
  policy_denied, Intent, Preview,
}
use mcp_server_for_mysql.Execution.Policy.{authorize, Authorization}
use mcp_server_for_mysql.Execution.Preview.{parameters_of}
use mcp_server_for_mysql.Execution.Driver.{Driver, Log}
use mcp_server_for_mysql.Execution.Executor.{
  ExecuteError, invalid_plan, ambiguous_batch_args, nil_source_database, begin_failed,
  statement_failed, commit_failed, Execution, is_atomic_batch, execute_plan,
}
use mcp_server_for_mysql.Execution.Rows.{
  QueryResult, QueryError, nil_database, driver_error, columns_error, scan_error, rows_error,
  run_query,
}
use mcp_server_for_mysql.Tools.Normalize.{normalize_parameters}
use mcp_server_for_mysql.Tools.Model.{
  RequestMeta, SqlInput, ErrorCode, invalid_input, unknown_source, unsafe_sql, preview_mismatch,
  unsupported, timeout, connection, execution, executed, confirmation_required, mismatch,
  empty_response, Service, ErrorKind, deadline_exceeded, conn_done, other_error, Env, Reply,
}

-- `NewService` gives the quick mode to an empty one.
unfoldable pub service_mode : Mode → Mode
service_mode (other_mode []) = quick_mode
service_mode m = m

abbrev pub fail : Bytes → ErrorCode → Log → Reply
fail id code log = record { response = empty_response id; failure = some code; log = log }

-- `Service.source`
unfoldable pub source_for : Service → Bytes → Result ErrorCode Source
source_for s id = elim s.registry [
  | none ↦ err invalid_input
  | some m ↦
      if is_nil (trim_space id)
      then err invalid_input
      else elim (lookup_source id m) [ none ↦ err unknown_source | some source ↦ ok source ]
]

module _ (env : Env) where
  abbrev driver : Driver
  driver = env.driver

  unfoldable pub request_id : Bytes → Bytes
  request_id value =
      if not (is_nil (trim_space value))
      then value
      else elim env.random_hex [ none ↦ codes "request-unavailable" | some hex ↦ hex ]

  -- `analyzerFor`
  unfoldable pub analyzer_for : Source → Result ErrorCode (Bytes → Result SqlError Plan)
  analyzer_for source =
      if equal source.engine (codes "mysql")
      then elim (Mysql.new_mysql_analyzer env.new_mysql_parser []) [
        | none ↦ err execution
        | some analyze ↦ ok analyze
      ]
      else if equal source.engine (codes "clickhouse")
      then ok (ClickHouse.analyze env.clickhouse_parser)
      else err unsupported

  abbrev pub as_unsafe : Result SqlError Plan → Result ErrorCode Plan
  as_unsafe (ok plan) = ok plan
  as_unsafe (err _) = err unsafe_sql

  abbrev pub require : Bool → ErrorCode → Result ErrorCode (Unit {0})
  require true e = ok tt
  require false e = err e

  -- `Service.analyze`
  unfoldable pub analyze_request : Service → Bytes → Bytes → Result ErrorCode (Source × Plan)
  analyze_request s source_id text = do
    source ← source_for s source_id
    _ ← require (not (is_nil (trim_space text))) invalid_input
    analyze ← analyzer_for source
    plan ← as_unsafe (analyze text)
    ok (source, plan)

  -- `databaseError`, on the errors of the executor.
  abbrev pub error_code : ErrorKind → ErrorCode
  error_code deadline_exceeded = timeout
  error_code conn_done = connection
  error_code other_error = execution

  abbrev execute_code : ExecuteError env.driver.Error → ErrorCode
  execute_code invalid_plan = execution
  execute_code ambiguous_batch_args = execution
  execute_code nil_source_database = connection
  execute_code (begin_failed e) = error_code (env.error_kind e)
  execute_code (statement_failed _ e _) = error_code (env.error_kind e)
  execute_code (commit_failed e) = error_code (env.error_kind e)

  abbrev query_code : QueryError env.driver.Error → ErrorCode
  query_code nil_database = connection
  query_code (driver_error e) = error_code (env.error_kind e)
  query_code (columns_error e) = error_code (env.error_kind e)
  query_code (scan_error e) = error_code (env.error_kind e)
  query_code (rows_error e) = error_code (env.error_kind e)

  -- `Service.authorize`: the authorization of the request's own intent.
  abbrev pub intent_of : Source → Bytes → Plan → Option (List Value) → Intent
  intent_of source tool plan parameters = record {
    source_id = source.id;
    tool = tool;
    parameters = parameters;
    atomic = is_atomic_batch (some source) plan;
    plan = plan;
  }

  abbrev pub confirmation_of : RequestMeta → Confirmation
  confirmation_of meta = record { confirm = meta.confirm; preview_hash = meta.preview_hash }

  unfoldable pub authorization_of :
      Service → RequestMeta → Source → Bytes → Plan → Option (List Value) → Authorization
  authorization_of s meta source tool plan parameters =
      authorize env.digest s.mode (intent_of source tool plan parameters) (confirmation_of meta)

  abbrev with_source : Source → Preview → Preview
  with_source source p = record p {
    source = some (record { id = source.id; display_name = source.profile.display_name });
  }

  -- The response to a decision, where the request may not go on; `none` lets it.
  unfoldable pub refusal : Bytes → Source → Authorization → Log → Option Reply
  refusal id source a log = elim a.error [
    | some _ ↦ some (fail id unsafe_sql log)
    | none ↦ elim a.decision [
      | execute_now ↦ none
      | preview_required ↦ some (record {
        response = record (empty_response id) {
          state = confirmation_required;
          preview = some (with_source source a.preview);
        };
        failure = none;
        log = log;
      })
      | DecisionState.preview_mismatch ↦ some (record {
        response = record (empty_response id) {
          state = mismatch;
          preview = some (with_source source a.preview);
        };
        failure = some preview_mismatch;
        log = log;
      })
      | policy_denied ↦ some (fail id unsafe_sql log)
    ]
  ]

  abbrev pub query_reply : Bytes → Result (QueryError env.driver.Error) QueryResult × Log → Reply
  query_reply id (err e, log) = fail id (query_code e) log
  query_reply id (ok q, log) = record {
    response = record (empty_response id) { state = executed; query = some q };
    failure = none;
    log = log;
  }

  abbrev pub first_sql : List Statement → Bytes
  first_sql [] = []
  first_sql (s ∷ _) = s.normalized_sql

  -- The part of `Query` behind the authorization.
  unfoldable pub authorized_query :
      Service → Bytes → RequestMeta → Source → Plan → Option (List Value) → Log → Reply
  authorized_query s id meta source plan parameters log =
      elim (refusal id source (authorization_of s meta source (codes "query") plan parameters)
        log) [
          | some reply ↦ reply
          | none ↦ query_reply id (
              run_query env.driver s.max_rows source.has_db (first_sql plan.statements)
                (parameters_of parameters) log)
        ]

  abbrev pub is_one : List Statement → Bool
  is_one (s ∷ []) = true
  is_one _ = false

  -- The checks of `Query` before the authorization.
  unfoldable pub prepare_query :
      Service → SqlInput → Result ErrorCode (Source × Plan × Option (List Value))
  prepare_query s input = do
    analyzed ← analyze_request s input.meta.source_id input.sql
    _ ← require (analyzed.1.read_only_plan && is_one analyzed.1.statements) unsafe_sql
    parameters ← normalize_parameters env.parse_int64 env.parse_float64 input.parameters
    ok (analyzed.0, analyzed.1, parameters)

  -- `Service.Query`
  unfoldable pub run_query_tool : Service → SqlInput → Log → Reply
  run_query_tool s input log =
      let id = request_id input.meta.request_id in
      elim (prepare_query s input) [
        | err code ↦ fail id code log
        | ok (source, plan, parameters) ↦
            authorized_query s id input.meta source plan parameters log
      ]

  abbrev pub execute_reply : Bytes → Execution env.driver.Error → Reply
  execute_reply id x = elim x.error [
    | some e ↦ fail id (execute_code e) x.log
    | none ↦ record {
      response = record (empty_response id) { state = executed; execution = some x.result };
      failure = none;
      log = x.log;
    }
  ]

  -- The part of `executeSQL` and `executeOperation` behind the plan.
  unfoldable pub authorized_execution :
      Service → Bytes → RequestMeta → Source → Bytes → Plan → Option (List Value) → Log → Reply
  authorized_execution s id meta source tool plan parameters log =
      elim (refusal id source (authorization_of s meta source tool plan parameters) log) [
        | some reply ↦ reply
        | none ↦
            execute_reply id
              (execute_plan env.driver (some source) plan (parameters_of parameters) log)
      ]

  abbrev pub raise_risk : Bool → Plan → Plan
  raise_risk force plan =
      if force || ltb 1 (length plan.statements) then record plan { risk = high_risk } else plan

  -- The checks of `executeSQL` before the authorization.
  unfoldable pub prepare_execution :
      Service → Bool → SqlInput → Result ErrorCode (Source × Plan × Option (List Value))
  prepare_execution s force input = do
    analyzed ← analyze_request s input.meta.source_id input.sql
    _ ← require (not analyzed.1.read_only_plan) unsafe_sql
    parameters ← normalize_parameters env.parse_int64 env.parse_float64 input.parameters
    ok (analyzed.0, raise_risk force analyzed.1, parameters)

  -- `Service.executeSQL`
  unfoldable pub execute_sql_as : Service → Bytes → Bool → SqlInput → Log → Reply
  execute_sql_as s tool force input log =
      let id = request_id input.meta.request_id in
      elim (prepare_execution s force input) [
        | err code ↦ fail id code log
        | ok (source, plan, parameters) ↦
            authorized_execution s id input.meta source tool plan parameters log
      ]

  -- `Service.ExecuteSQL` and `Service.Migrate`
  unfoldable pub execute_sql : Service → SqlInput → Log → Reply
  execute_sql s input log = execute_sql_as s (codes "execute_sql") false input log

  unfoldable pub migrate : Service → SqlInput → Log → Reply
  migrate s input log = execute_sql_as s (codes "migrate") true input log
