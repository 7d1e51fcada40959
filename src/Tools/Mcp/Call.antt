-- ===== src/Tools/Mcp/Call.antt =====
-- `RegisterAll` and the handler of `registerUntypedTool`, internal/tools/mcp.go. The JSON decoder is
-- the parameter `decode`: a value of the tool's type, or nothing for an input that is refused.
use mcp_server_for_mysql.Base.{
  Bool, true, false, List, [], Option, none, some, if◌then◌else◌, Bytes, codes, Result, ok, err, ℤ,
}
use mcp_server_for_mysql.Sqlguard.Splitter.{is_nil}
use mcp_server_for_mysql.Execution.Value.{Value}
use mcp_server_for_mysql.Execution.Driver.{Log}
use mcp_server_for_mysql.Database.Metadata.Model.{Scanner}
use mcp_server_for_mysql.Operation.Model.{
  CreateTableRequest, DropTableRequest, AddColumnsRequest, DropColumnsRequest, ModifyColumnsRequest,
  CreateIndexRequest, DropIndexRequest, RenameTableRequest, CopyTableRequest,
}
use mcp_server_for_mysql.Tools.Model.{
  RequestMeta, SqlInput, ErrorCode, invalid_input, Response, ResponseState, no_state, error_state,
  executed, empty_response, SourceInfo, sources_data, Service, Env, Reply,
}
use mcp_server_for_mysql.Tools.Service.{request_id, run_query_tool, execute_sql, migrate}
use mcp_server_for_mysql.Tools.Metadata.{
  TableInput, list_sources, list_tables_tool, describe_table_tool, list_indexes_tool, pool_status,
}
use mcp_server_for_mysql.Tools.Operations as Operations

pub data Tool : Type 0 where
  list_sources_tool list_tables_of describe_table query_tool execute_sql_of create_table
        drop_table :
      Tool
  add_columns drop_columns modify_columns create_index drop_index list_indexes rename_table : Tool
  copy_table copy_table_structure migrate_of pool_status_of : Tool

abbrev pub tool_name : Tool → Bytes
tool_name list_sources_tool = codes "list_sources"
tool_name list_tables_of = codes "list_tables"
tool_name describe_table = codes "describe_table"
tool_name query_tool = codes "query"
tool_name execute_sql_of = codes "execute_sql"
tool_name create_table = codes "create_table"
tool_name drop_table = codes "drop_table"
tool_name add_columns = codes "add_columns"
tool_name drop_columns = codes "drop_columns"
tool_name modify_columns = codes "modify_columns"
tool_name create_index = codes "create_index"
tool_name drop_index = codes "drop_index"
tool_name list_indexes = codes "list_indexes"
tool_name rename_table = codes "rename_table"
tool_name copy_table = codes "copy_table"
tool_name copy_table_structure = codes "copy_table_structure"
tool_name migrate_of = codes "migrate"
tool_name pool_status_of = codes "pool_status"

-- The part of an input that is not its `RequestMeta`; of `ListSourcesInput` only the request's ID is
-- ever set.
abbrev pub Arguments : Tool → Type 0
Arguments list_sources_tool = Unit
Arguments list_tables_of = Unit
Arguments describe_table = Bytes
Arguments query_tool = Bytes × Option (List Value)
Arguments execute_sql_of = Bytes × Option (List Value)
Arguments create_table = CreateTableRequest
Arguments drop_table = DropTableRequest
Arguments add_columns = AddColumnsRequest
Arguments drop_columns = DropColumnsRequest
Arguments modify_columns = ModifyColumnsRequest
Arguments create_index = CreateIndexRequest
Arguments drop_index = DropIndexRequest
Arguments list_indexes = Bytes
Arguments rename_table = RenameTableRequest
Arguments copy_table = CopyTableRequest
Arguments copy_table_structure = CopyTableRequest
Arguments migrate_of = Bytes × Option (List Value)
Arguments pool_status_of = Unit

abbrev pub Input : Tool → Type 0
Input tool = RequestMeta × Arguments tool

abbrev pub sql_input : RequestMeta → Bytes × Option (List Value) → SqlInput
sql_input meta (sql, parameters) = record { meta = meta; sql = sql; parameters = parameters }

abbrev pub table_input : RequestMeta → Bytes → TableInput
table_input meta table = record { meta = meta; table = table }

-- `observability.Event` without its duration: the only fields that are logged.
pub record LogEvent : Type 0 where
  pub request_id : Bytes
  pub tool : Bytes
  pub source_id : Bytes
  pub state : ResponseState
  pub error : Option ErrorCode

-- What a call returns to the client, whether it is marked as an error, what is logged, and the
-- events of the driver.
pub record CallResult : Type 0 where
  pub response : Response
  pub is_error : Bool
  pub event : LogEvent
  pub log : Log

-- `applyToolError`, with the code of the error.
unfoldable pub apply_tool_error : Response → Bytes → ErrorCode → Response
apply_tool_error response fallback code = record response {
  error = some code;
  request_id = if is_nil response.request_id then fallback else response.request_id;
  state = elim response.state [ no_state ↦ error_state | s ↦ s ];
}

-- `responseForError`
abbrev pub response_for_error : Bytes → ErrorCode → Response
response_for_error id code = record (empty_response id) { state = error_state; error = some code }

abbrev pub is_present : {A : Type 0} → Option A → Bool
is_present none = false
is_present (some a) = true

abbrev pub call_result : Tool → Bytes → Response → Log → CallResult
call_result tool source_id response log = record {
  response = response;
  is_error = is_present response.error;
  event = record {
    request_id = response.request_id;
    tool = tool_name tool;
    source_id = source_id;
    state = response.state;
    error = response.error;
  };
  log = log;
}

module _ (env : Env) (sc : Scanner env.driver.Error) (pool_stats : Log → List ℤ) (s : Service) where
  -- The handler of `list_sources`, which sets the state whether or not there is an error.
  abbrev pub sources_reply : RequestMeta → Result ErrorCode (List SourceInfo) → Log → Reply
  sources_reply meta (ok sources) log = record {
    response = record (empty_response (request_id env meta.request_id)) {
      state = executed;
      data_value = some (sources_data sources);
    };
    failure = none;
    log = log;
  }
  sources_reply meta (err code) log = record {
    response = record (empty_response (request_id env meta.request_id)) { state = executed };
    failure = some code;
    log = log;
  }

  -- The functions that `RegisterAll` registers.
  unfoldable pub handle : (tool : Tool) → Input tool → Log → Reply
  handle list_sources_tool (meta, _) log = sources_reply meta (list_sources s) log
  handle list_tables_of (meta, _) log = list_tables_tool env sc pool_stats s meta log
  handle describe_table (meta, table) log =
      describe_table_tool env sc pool_stats s (table_input meta table) log
  handle query_tool (meta, args) log = run_query_tool env s (sql_input meta args) log
  handle execute_sql_of (meta, args) log = execute_sql env s (sql_input meta args) log
  handle create_table (meta, r) log = Operations.create_table env s meta r log
  handle drop_table (meta, r) log = Operations.drop_table env s meta r log
  handle add_columns (meta, r) log = Operations.add_columns env s meta r log
  handle drop_columns (meta, r) log = Operations.drop_columns env s meta r log
  handle modify_columns (meta, r) log = Operations.modify_columns env s meta r log
  handle create_index (meta, r) log = Operations.create_index env s meta r log
  handle drop_index (meta, r) log = Operations.drop_index env s meta r log
  handle list_indexes (meta, table) log =
      list_indexes_tool env sc pool_stats s (table_input meta table) log
  handle rename_table (meta, r) log = Operations.rename_table env s meta r log
  handle copy_table (meta, r) log = Operations.copy_table env s meta r log
  handle copy_table_structure (meta, r) log = Operations.copy_table_structure env s meta r log
  handle migrate_of (meta, args) log = migrate env s (sql_input meta args) log
  handle pool_status_of (meta, _) log = pool_status env sc pool_stats s meta log

  -- The response of a handler, with its error.
  abbrev pub finished : Bytes → Reply → Response
  finished fallback reply = elim reply.failure [
    | none ↦ reply.response
    | some code ↦ apply_tool_error reply.response fallback code
  ]

  -- A call of a registered tool. The request's ID and the source's are the fields of its
  -- `RequestMeta`, which the reflection over an input finds first.
  unfoldable pub call :
      ((tool : Tool) → Bytes → Option (Input tool)) → (tool : Tool) → Bytes → Log → CallResult
  unfolding handle apply_tool_error
  call decode tool raw log = elim (decode tool (if is_nil raw then codes "{}" else raw)) [
    | none ↦ call_result tool [] (response_for_error [] invalid_input) log
    | some input ↦
        let reply = handle tool input log in
        call_result tool input.0.source_id (finished input.0.request_id reply) reply.log
  ]
