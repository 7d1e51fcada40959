-- ===== src/Tools/Tests.antt =====
-- Instances of the theorems on internal/tools, at a service with one source.
use mcp_server_for_mysql.Base.{
  false, List, [], ◌∷◌, ◌⊎◌, none, some, ◌≡◌, refl, All, Bytes, codes, equal, Result, ok, pos, sym,
  join_by, ◌++◌, Option, true, trim_space,
}
use mcp_server_for_mysql.Operation.Model.{Builder, OperationError}
use mcp_server_for_mysql.Execution.Value.{json_number, integer, string}
use mcp_server_for_mysql.Tools.Model.{SqlInput, Env}
use mcp_server_for_mysql.Tools.Normalize.{
  normalize_number, normalize_value, normalize_list, normalize_parameters,
}
use mcp_server_for_mysql.Tools.Normalize.Laws.{IsNormal, normalize_parameters-IsFixed}
use mcp_server_for_mysql.Tools.Service.{
  run_query_tool, execute_sql, migrate, execute_sql_as, prepare_execution, analyze_request,
  source_for, analyzer_for, authorized_execution, authorization_of, refusal, request_id,
}
use mcp_server_for_mysql.Tools.Operations.{execute_operation}
use mcp_server_for_mysql.Tools.Safety.{
  IsUnconfirmedExecution, migrate-unconfirmed, execute_sql-unconfirmed,
}
use mcp_server_for_mysql.Tools.Safety.Structured.{
  IsUnconfirmedOperation, execute_operation-unconfirmed,
}
use mcp_server_for_mysql.Execution.Model.{Preview, preview_required}
use mcp_server_for_mysql.Sqlguard.Model.{high_risk, make_plan, risk_for_atomic_batches}
use mcp_server_for_mysql.Execution.Preview.{
  Envelope, build_preview, build_envelope, canonical_plan_sql, canonical_from,
}
use mcp_server_for_mysql.Execution.Policy.Completion.{IsVisibleDigest}
use mcp_server_for_mysql.Tools.Completion.{IsCompleted, execute_sql_as-completes}
use mcp_server_for_mysql.Database.Registry.{lookup_source}
use mcp_server_for_mysql.Sqlguard.Mysql as Mysql
use mcp_server_for_mysql.Sqlguard.Splitter.{split_sql_statement_groups}
use mcp_server_for_mysql.Sqlguard.Analyze.{analyze_pieces}
use mcp_server_for_mysql.Execution.Policy.{authorize, decide_preview, requires_confirmation}
use mcp_server_for_mysql.Execution.Executor.{is_atomic_batch}
use mcp_server_for_mysql.Tools.Reads.{IsQueried, run_query_tool-reads}
use mcp_server_for_mysql.Tools.Examples.{service, parse_int64, parse_float64, env, meta}

abbrev input : Bytes → SqlInput
input text = record { meta = meta; sql = text; parameters = none }

migrate-unconfirmed_example : (migrate env service (input (codes "UPDATE")) []).log ≡ []
migrate-unconfirmed_example = migrate-unconfirmed env service (input (codes "UPDATE")) [] refl

execute_sql-unconfirmed_example :
    IsUnconfirmedExecution env service false (input (codes "UPDATE"))
    ⊎ ((execute_sql env service (input (codes "UPDATE")) []).log ≡ [])
execute_sql-unconfirmed_example =
    execute_sql-unconfirmed env service (input (codes "UPDATE")) [] refl

abbrev build : Builder → Result OperationError (List Bytes)
build b = b.rename_table (record { from_table = codes "a"; to_table = codes "b" })

execute_operation-unconfirmed_example :
    IsUnconfirmedOperation env service meta build
    ⊎ ((execute_operation env service meta (codes "rename_table") build []).log ≡ [])
execute_operation-unconfirmed_example =
    execute_operation-unconfirmed env service meta (codes "rename_table") build [] refl

run_query_tool-reads_example :
    ((run_query_tool env service (input (codes "SELECT 1")) []).log ≡ [])
    ⊎ IsQueried env service
        (input (codes "SELECT 1"))
        []
        (run_query_tool env service (input (codes "SELECT 1")) []).log
run_query_tool-reads_example = run_query_tool-reads env service (input (codes "SELECT 1")) []

normalize_parameters-IsFixed_example :
    All IsNormal (integer (pos 7) ∷ string (codes "x") ∷ [])
    × (normalize_parameters parse_int64 parse_float64
          (some (integer (pos 7) ∷ string (codes "x") ∷ []))
        ≡ ok (some (integer (pos 7) ∷ string (codes "x") ∷ [])))
unfolding normalize_parameters normalize_list normalize_value normalize_number equal
normalize_parameters-IsFixed_example =
    normalize_parameters-IsFixed parse_int64 parse_float64
      (json_number (codes "7") ∷ string (codes "x") ∷ [])
      (integer (pos 7) ∷ string (codes "x") ∷ []) refl

abbrev visible_digest : Envelope → Option Bytes
visible_digest e = some (codes "#" ++ join_by (codes ";") e.sql)

visible_digest-IsVisible : IsVisibleDigest visible_digest
visible_digest-IsVisible e hash h = rw (sym (by_some h)) refl
  where
    by_some : {a b : Bytes} → some a ≡ some b → a ≡ b
    by_some h = cc

abbrev visible_env : Env
visible_env = record env { digest = visible_digest }

abbrev migration : SqlInput
migration = input (codes "UPDATE")

abbrev migration_preview : Preview
migration_preview = record {
  state = preview_required;
  source = some (record { id = codes "main"; display_name = codes "Main" });
  sql = codes "update t set a = 1 where b = 2" ∷ [];
  risk = high_risk;
  atomic = true;
  preview_hash = codes "#update t set a = 1 where b = 2";
}

execute_sql_as-completes_example :
    IsCompleted visible_env service visible_digest-IsVisible
      (codes "migrate")
      true
      migration
      []
      (codes "#update t set a = 1 where b = 2")
unfolding trim_space equal normalize_parameters execute_sql_as prepare_execution analyze_request
    source_for analyzer_for authorized_execution authorization_of refusal request_id lookup_source
    Mysql.new_mysql_analyzer Mysql.analyze Mysql.analyze_piece Mysql.classify
    split_sql_statement_groups analyze_pieces make_plan risk_for_atomic_batches authorize
    decide_preview requires_confirmation build_preview build_envelope canonical_plan_sql
    canonical_from is_atomic_batch
execute_sql_as-completes_example =
    execute_sql_as-completes visible_env service visible_digest-IsVisible (codes "migrate") true
      migration [] [] migration_preview refl
