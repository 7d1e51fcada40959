-- ===== src/Tools/Metadata.antt =====
-- The tools of internal/tools/service.go that read metadata. As `openSource` leaves it, a source has
-- a connection pool; without one, the calls of `ListTables` and `DescribeTable` would panic.
pub mod Laws
mod Tests
use mcp_server_for_mysql.Base.{
  List, map, Option, none, some, if◌then◌else◌, Bytes, trim_space, Result, ok, err, ℤ,
}
use mcp_server_for_mysql.Database.Source.{Source}
use mcp_server_for_mysql.Database.Dialect.{Dialect, mysql_dialect, clickhouse_dialect}
use mcp_server_for_mysql.Database.Registry.{sources_of}
use mcp_server_for_mysql.Database.Metadata.Model.{
  Table, Column, Index, TableDescription, MetadataError, invalid_table, query_failed, scan_failed,
  iterate_failed, Scanner,
}
use mcp_server_for_mysql.Database.Metadata.Mysql as Mysql
use mcp_server_for_mysql.Database.Metadata.ClickHouse as ClickHouse
use mcp_server_for_mysql.Sqlguard.Splitter.{is_nil}
use mcp_server_for_mysql.Execution.Driver.{Driver, Log}
use mcp_server_for_mysql.Tools.Model.{
  RequestMeta, ErrorCode, invalid_input, connection, execution, executed, empty_response, Service,
  Env, Reply, SourceInfo, ResponseData, sources_data, tables_data, description_data, indexes_data,
  stats_data,
}
use mcp_server_for_mysql.Tools.Service.{source_for, request_id, fail, error_code}

pub record TableInput : Type 0 where
  pub meta : RequestMeta
  pub table : Bytes

abbrev pub source_info : Source → SourceInfo
source_info source = record {
  id = source.id;
  engine = source.engine;
  display_name = source.profile.display_name;
  description = source.profile.description;
  aliases = source.profile.aliases;
  keywords = source.profile.keywords;
}

-- `Service.ListSources`
unfoldable pub list_sources : Service → Result ErrorCode (List SourceInfo)
unfolding sources_of
list_sources s = elim s.registry [
  | none ↦ err execution
  | some m ↦ ok (map source_info (sources_of m))
]

abbrev pub dialect_list_tables :
    Dialect
    → (d : Driver) → Scanner d.Error
    → Log
    → Result (MetadataError d.Error) (List Table) × Log
dialect_list_tables mysql_dialect d sc log = Mysql.list_tables d sc log
dialect_list_tables clickhouse_dialect d sc log = ClickHouse.list_tables d sc log

abbrev pub dialect_describe_table :
    Dialect
    → (d : Driver) → Scanner d.Error
    → Bytes
    → Log
    → Result (MetadataError d.Error) TableDescription × Log
dialect_describe_table mysql_dialect d sc table log = Mysql.describe_table d sc table log
dialect_describe_table clickhouse_dialect d sc table log = ClickHouse.describe_table d sc table log

-- `pool_stats` is what `DB.Stats` answers.
module _ (env : Env) (sc : Scanner env.driver.Error) (pool_stats : Log → List ℤ) where
  -- `databaseError`, on the errors of the metadata queries: their wrapping keeps the kind.
  abbrev pub metadata_code : MetadataError env.driver.Error → ErrorCode
  metadata_code (invalid_table e) = execution
  metadata_code (query_failed e) = error_code env (env.error_kind e)
  metadata_code (scan_failed e) = error_code env (env.error_kind e)
  metadata_code (iterate_failed e) = error_code env (env.error_kind e)

  abbrev pub data_reply : Bytes → ResponseData → Log → Reply
  data_reply id value log = record {
    response = record (empty_response id) { state = executed; data_value = some value };
    failure = none;
    log = log;
  }

  -- `Service.ListTables`
  unfoldable pub list_tables_tool : Service → RequestMeta → Log → Reply
  list_tables_tool s meta log =
      let id = request_id env meta.request_id in
      elim (source_for s meta.source_id) [
        | err code ↦ fail id code log
        | ok source ↦
            let (tables, log) = dialect_list_tables source.dialect env.driver sc log in
            elim tables [
              | err e ↦ fail id (metadata_code e) log
              | ok ts ↦ data_reply id (tables_data ts) log
            ]
      ]

  -- `Service.DescribeTable`
  unfoldable pub describe_table_tool : Service → TableInput → Log → Reply
  describe_table_tool s input log =
      let id = request_id env input.meta.request_id in
      elim (source_for s input.meta.source_id) [
        | err code ↦ fail id code log
        | ok source ↦
            if is_nil (trim_space input.table)
            then fail id invalid_input log
            else let (description, log) =
                dialect_describe_table source.dialect env.driver sc input.table log in
              elim description [
                | err e ↦ fail id (metadata_code e) log
                | ok t ↦ data_reply id (description_data t) log
              ]
      ]

  -- The type assertion on the description, and the indexes in its place.
  abbrev pub only_indexes : Option ResponseData → Option ResponseData
  only_indexes (some (description_data t)) = some (indexes_data t.indexes)
  only_indexes _ = none

  abbrev pub index_reply : Reply → Reply
  index_reply reply = elim reply.failure [
    | some code ↦ reply
    | none ↦ record reply {
      response = record reply.response { data_value = only_indexes reply.response.data_value };
    }
  ]

  -- `Service.ListIndexes`
  unfoldable pub list_indexes_tool : Service → TableInput → Log → Reply
  unfolding describe_table_tool
  list_indexes_tool s input log = index_reply (describe_table_tool s input log)

  -- `Service.PoolStatus`
  unfoldable pub pool_status : Service → RequestMeta → Log → Reply
  pool_status s meta log =
      let id = request_id env meta.request_id in
      elim (source_for s meta.source_id) [
        | err code ↦ fail id code log
        | ok source ↦
            if source.has_db
            then data_reply id (stats_data (pool_stats log)) log
            else fail id connection log
      ]
