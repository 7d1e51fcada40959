-- ===== src/Tools/Mcp/Strict.antt =====
-- What the tools of internal/tools/mcp.go send for a request that is not confirmed in strict mode.
use mcp_server_for_mysql.Base.{
  false, List, [], ◌++◌, inl, inr, Option, none, some, ◌≡◌, refl, if◌then◌else◌, Bool-cases, All,
  Bytes, codes, Result, ok, err, ℤ, Yields, All-weaken,
}
use mcp_server_for_mysql.Sqlguard.Splitter.{is_nil}
use mcp_server_for_mysql.Database.Source.{Source}
use mcp_server_for_mysql.Database.Metadata.Model.{Scanner}
use mcp_server_for_mysql.Database.Metadata.Sent.{Extends, IsMetadataQuery}
use mcp_server_for_mysql.Execution.Model.{quick_mode, strict_mode}
use mcp_server_for_mysql.Execution.Driver.{Event, Log}
use mcp_server_for_mysql.Operation.Model.{Builder, OperationError}
use mcp_server_for_mysql.Tools.Model.{RequestMeta, ErrorCode, SourceInfo, Service, Env}
use mcp_server_for_mysql.Tools.Service.{source_for}
use mcp_server_for_mysql.Tools.Operations as Operations
use mcp_server_for_mysql.Tools.Metadata.{list_sources, pool_status}
use mcp_server_for_mysql.Tools.Metadata.Laws.{
  list_tables_tool-Extends, describe_table_tool-Extends, list_indexes_tool_lem,
}
use mcp_server_for_mysql.Tools.Safety.{migrate-unconfirmed, execute_sql-unconfirmed}
use mcp_server_for_mysql.Tools.Safety.Structured.{execute_operation-unconfirmed}
use mcp_server_for_mysql.Tools.Reads.{run_query_tool-reads}
use mcp_server_for_mysql.Tools.Mcp.Call.{
  Tool, list_sources_tool, list_tables_of, describe_table, query_tool, execute_sql_of, create_table,
  drop_table, add_columns, drop_columns, modify_columns, create_index, drop_index, list_indexes,
  rename_table, copy_table, copy_table_structure, migrate_of, pool_status_of, Input, sources_reply,
  sql_input, table_input, handle, call,
}

-- The second log extends the first by constant metadata queries alone.
abbrev pub ReadsMetadata : Log → Log → Type 0
ReadsMetadata log log' =
    (sent : Log) × All (λ (e : Event). (table : Bytes) × IsMetadataQuery table e) sent
    × (log' ≡ sent ++ log)

nothing : {log log' : Log} → log' ≡ log → ReadsMetadata log log'
nothing e = ([], tt, e)

of_table : {table : Bytes} {log log' : Log} → Extends table log log' → ReadsMetadata log log'
of_table {table} (sent, all, e) = (sent, All-weaken _ _ sent (λ x q. (table, q)) all, e)

module _ (env : Env) (sc : Scanner env.driver.Error) (pool_stats : Log → List ℤ) (s : Service)
    (strict : s.mode ≡ strict_mode) where
  not_quick : {A : Type 0} → s.mode ≡ quick_mode → A
  not_quick quick = cc

  operation :
      (meta : RequestMeta) (tool : Bytes) (build : Builder → Result OperationError (List Bytes))
      (log : Log)
      → meta.confirm ≡ false
      → ReadsMetadata log (Operations.execute_operation env s meta tool build log).log
  operation meta tool build log f =
      elim (execute_operation-unconfirmed env s meta tool build log f) [
        | inl free ↦ not_quick free.0
        | inr e ↦ nothing e
      ]

  sources_reply-log :
      (meta : RequestMeta) (r : Result ErrorCode (List SourceInfo)) (log : Log)
      → (sources_reply env sc pool_stats s meta r log).log ≡ log
  sources_reply-log meta (ok sources) log = refl
  sources_reply-log meta (err code) log = refl

  pool_status-log :
      (meta : RequestMeta) (log : Log) → (pool_status env sc pool_stats s meta log).log ≡ log
  unfolding pool_status
  pool_status-log meta log = by_source (source_for s meta.source_id) refl
    where
      by_source :
          (r : Result ErrorCode Source)
          → source_for s meta.source_id ≡ r
          → (pool_status env sc pool_stats s meta log).log ≡ log
      by_source (err code) h = rw (h, pool_status) refl
      by_source (ok source) h = elim (Bool-cases source.has_db) [
        | inl b ↦ rw (h, pool_status, b) refl
        | inr b ↦ rw (h, pool_status, b) refl
      ]

  handle-ReadsMetadata :
      (tool : Tool) (input : Input tool) (log : Log)
      → input.0.confirm ≡ false
      → ReadsMetadata log (handle env sc pool_stats s tool input log).log
  unfolding handle Operations.create_table Operations.drop_table Operations.add_columns
      Operations.drop_columns Operations.modify_columns Operations.create_index
      Operations.drop_index Operations.rename_table Operations.copy_table
      Operations.copy_table_structure
  handle-ReadsMetadata list_sources_tool (meta, _) log f =
      nothing (sources_reply-log meta (list_sources s) log)
  handle-ReadsMetadata list_tables_of (meta, _) log f =
      of_table (list_tables_tool-Extends env sc pool_stats s meta log)
  handle-ReadsMetadata describe_table (meta, table) log f =
      of_table (describe_table_tool-Extends env sc pool_stats s (table_input meta table) log)
  handle-ReadsMetadata query_tool (meta, args) log f =
      elim (run_query_tool-reads env s (sql_input meta args) log) [
        | inl e ↦ nothing e
        | inr (_, _, _, _, _, _, _, _, _, allowed) ↦ elim allowed [
          | inl sure ↦ cc (sure, f)
          | inr quick ↦ not_quick quick
        ]
      ]
  handle-ReadsMetadata execute_sql_of (meta, args) log f =
      elim (execute_sql-unconfirmed env s (sql_input meta args) log f) [
        | inl free ↦ not_quick free.0
        | inr e ↦ nothing e
      ]
  handle-ReadsMetadata create_table (meta, r) log f = operation meta _ _ log f
  handle-ReadsMetadata drop_table (meta, r) log f = operation meta _ _ log f
  handle-ReadsMetadata add_columns (meta, r) log f = operation meta _ _ log f
  handle-ReadsMetadata drop_columns (meta, r) log f = operation meta _ _ log f
  handle-ReadsMetadata modify_columns (meta, r) log f = operation meta _ _ log f
  handle-ReadsMetadata create_index (meta, r) log f = operation meta _ _ log f
  handle-ReadsMetadata drop_index (meta, r) log f = operation meta _ _ log f
  handle-ReadsMetadata list_indexes (meta, table) log f =
      of_table (list_indexes_tool_lem env sc pool_stats s (table_input meta table) log).0
  handle-ReadsMetadata rename_table (meta, r) log f = operation meta _ _ log f
  handle-ReadsMetadata copy_table (meta, r) log f = operation meta _ _ log f
  handle-ReadsMetadata copy_table_structure (meta, r) log f = operation meta _ _ log f
  handle-ReadsMetadata migrate_of (meta, args) log f =
      nothing (migrate-unconfirmed env s (sql_input meta args) log f)
  handle-ReadsMetadata pool_status_of (meta, _) log f = nothing (pool_status-log meta log)

  -- In strict mode a call of any tool with any input sends nothing but constant metadata queries,
  -- unless the input is decoded to one that is confirmed.
  pub call-ReadsMetadata :
      (decode : (tool : Tool) → Bytes → Option (Input tool)) (tool : Tool) (raw : Bytes) (log : Log)
      → Yields
          (λ (input : Input tool). input.0.confirm ≡ false)
          (decode tool (if is_nil raw then codes "{}" else raw))
      → ReadsMetadata log (call env sc pool_stats s decode tool raw log).log
  unfolding call
  call-ReadsMetadata decode tool raw log f =
      by_input (decode tool (if is_nil raw then codes "{}" else raw)) refl f
    where
      by_input :
          (r : Option (Input tool))
          → decode tool (if is_nil raw then codes "{}" else raw) ≡ r
          → Yields (λ (input : Input tool). input.0.confirm ≡ false) r
          → ReadsMetadata log (call env sc pool_stats s decode tool raw log).log
      by_input none e f = rw (e, call) (nothing refl)
      by_input (some input) e f = rw (e, call) (handle-ReadsMetadata tool input log f)
