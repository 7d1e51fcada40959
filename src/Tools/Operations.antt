-- ===== src/Tools/Operations.antt =====
-- internal/tools/service.go: the structured operations, from `CreateTable` to `copyTable`.
use mcp_server_for_mysql.Base.{
  false, not, List, none, if◌then◌else◌, Bytes, codes, equal, join_by, Result, ok, err, ◌>>=◌,
}
use mcp_server_for_mysql.Database.Source.{Source}
use mcp_server_for_mysql.Sqlguard.Model.{Plan}
use mcp_server_for_mysql.Operation.Model.{
  CreateTableRequest, DropTableRequest, AddColumnsRequest, DropColumnsRequest, ModifyColumnsRequest,
  CreateIndexRequest, DropIndexRequest, RenameTableRequest, CopyTableRequest, OperationError,
  unsupported_capability, Builder,
}
use mcp_server_for_mysql.Operation.Mysql.{mysql_builder}
use mcp_server_for_mysql.Operation.ClickHouse.{clickhouse_builder}
use mcp_server_for_mysql.Execution.Driver.{Log}
use mcp_server_for_mysql.Tools.Model.{
  RequestMeta, ErrorCode, invalid_input, unsafe_sql, unsupported, Service, Env, Reply,
}
use mcp_server_for_mysql.Tools.Service.{
  fail, source_for, request_id, analyzer_for, as_unsafe, require, authorized_execution,
}

-- `builderFor`
unfoldable pub builder_for : Source → Builder
builder_for source =
    if equal source.engine (codes "clickhouse") then clickhouse_builder else mysql_builder

-- `operationError`
abbrev operation_error : OperationError → ErrorCode
operation_error unsupported_capability = unsupported
operation_error _ = invalid_input

abbrev from_operation : Result OperationError (List Bytes) → Result ErrorCode (List Bytes)
from_operation (ok statements) = ok statements
from_operation (err e) = err (operation_error e)

module _ (env : Env) (s : Service) where
  -- The checks of `executeOperation` before the authorization.
  unfoldable pub prepare_operation :
      RequestMeta
      → (Builder → Result OperationError (List Bytes))
      → Result ErrorCode (Source × Plan)
  prepare_operation meta build = do
    source ← source_for s meta.source_id
    statements ← from_operation (build (builder_for source))
    analyze ← analyzer_for env source
    plan ← as_unsafe env (analyze (join_by (codes "; ") statements))
    _ ← require env (not plan.read_only_plan) unsafe_sql
    ok (source, plan)

  -- `Service.executeOperation`
  unfoldable pub execute_operation :
      RequestMeta → Bytes → (Builder → Result OperationError (List Bytes)) → Log → Reply
  execute_operation meta tool build log =
      let id = request_id env meta.request_id in
      elim (prepare_operation meta build) [
        | err code ↦ fail id code log
        | ok (source, plan) ↦ authorized_execution env s id meta source tool plan none log
      ]

  unfoldable pub create_table : RequestMeta → CreateTableRequest → Log → Reply
  create_table meta r = execute_operation meta (codes "create_table") (λ b. b.create_table r)

  unfoldable pub drop_table : RequestMeta → DropTableRequest → Log → Reply
  drop_table meta r = execute_operation meta (codes "drop_table") (λ b. b.drop_table r)

  unfoldable pub add_columns : RequestMeta → AddColumnsRequest → Log → Reply
  add_columns meta r = execute_operation meta (codes "add_columns") (λ b. b.add_columns r)

  unfoldable pub drop_columns : RequestMeta → DropColumnsRequest → Log → Reply
  drop_columns meta r = execute_operation meta (codes "drop_columns") (λ b. b.drop_columns r)

  unfoldable pub modify_columns : RequestMeta → ModifyColumnsRequest → Log → Reply
  modify_columns meta r = execute_operation meta (codes "modify_columns") (λ b. b.modify_columns r)

  unfoldable pub create_index : RequestMeta → CreateIndexRequest → Log → Reply
  create_index meta r = execute_operation meta (codes "create_index") (λ b. b.create_index r)

  unfoldable pub drop_index : RequestMeta → DropIndexRequest → Log → Reply
  drop_index meta r = execute_operation meta (codes "drop_index") (λ b. b.drop_index r)

  unfoldable pub rename_table : RequestMeta → RenameTableRequest → Log → Reply
  rename_table meta r = execute_operation meta (codes "rename_table") (λ b. b.rename_table r)

  unfoldable pub copy_table : RequestMeta → CopyTableRequest → Log → Reply
  copy_table meta r = execute_operation meta (codes "copy_table") (λ b. b.copy_table r)

  -- `CopyTableStructure` passes `false` for the data, whatever the input says.
  unfoldable pub copy_table_structure : RequestMeta → CopyTableRequest → Log → Reply
  copy_table_structure meta r =
      execute_operation meta (codes "copy_table_structure")
        (λ b. b.copy_table (record r { with_data = false }))
