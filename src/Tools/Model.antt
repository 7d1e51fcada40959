-- ===== src/Tools/Model.antt =====
-- internal/tools/input.go and internal/tools/response.go, with the service of
-- internal/tools/service.go. Of a `ToolError` the code is kept; its cause is not read again.
use mcp_server_for_mysql.Base.{ℕ, Bool, List, Option, none, Bytes, ℤ}
use mcp_server_for_mysql.Database.Registry.{SourceMap}
use mcp_server_for_mysql.Database.Metadata.Model.{Table, Index, TableDescription}
use mcp_server_for_mysql.Sqlguard.Mysql as Mysql
use mcp_server_for_mysql.Sqlguard.ClickHouse as ClickHouse
use mcp_server_for_mysql.Execution.Value.{Value}
use mcp_server_for_mysql.Execution.Model.{Mode, Preview}
use mcp_server_for_mysql.Execution.Preview.{Envelope}
use mcp_server_for_mysql.Execution.Driver.{Driver, Log}
use mcp_server_for_mysql.Execution.Executor.{ExecuteResult}
use mcp_server_for_mysql.Execution.Rows.{QueryResult}

pub record RequestMeta : Type 0 where
  pub source_id : Bytes
  pub confirm : Bool
  pub preview_hash : Bytes
  pub request_id : Bytes

-- `QueryInput`, `ExecuteSQLInput` and `MigrateInput`, which have the same fields.
pub record SqlInput : Type 0 where
  pub meta : RequestMeta
  pub sql : Bytes
  pub parameters : Option (List Value)

pub data ErrorCode : Type 0 where
  invalid_input unknown_source unsafe_sql confirmation preview_mismatch : ErrorCode
  unsupported timeout connection execution : ErrorCode

pub data ResponseState : Type 0 where
  no_state executed confirmation_required mismatch error_state : ResponseState

pub record SourceInfo : Type 0 where
  pub id : Bytes
  pub engine : Bytes
  pub display_name : Bytes
  pub description : Bytes
  pub aliases : Option (List Bytes)
  pub keywords : Option (List Bytes)

-- What the field `Data` holds; a `sql.DBStats` is the list of its numbers.
pub data ResponseData : Type 0 where
  sources_data : List SourceInfo → ResponseData
  tables_data : List Table → ResponseData
  description_data : TableDescription → ResponseData
  indexes_data : List Index → ResponseData
  stats_data : List ℤ → ResponseData

pub record Response : Type 0 where
  pub request_id : Bytes
  pub state : ResponseState
  pub preview : Option Preview
  pub query : Option QueryResult
  pub execution : Option ExecuteResult
  pub data_value : Option ResponseData
  pub error : Option ErrorCode

abbrev pub empty_response : Bytes → Response
empty_response id = record {
  request_id = id;
  state = no_state;
  preview = none;
  query = none;
  execution = none;
  data_value = none;
  error = none;
}

-- `Service`; a registry that is nil is `none`, and `max_rows` is the executor's.
pub record Service : Type 0 where
  pub registry : Option SourceMap
  pub mode : Mode
  pub max_rows : ℤ

-- What an error of the database is, to `errors.Is`.
pub data ErrorKind : Type 0 where
  deadline_exceeded conn_done other_error : ErrorKind

-- What the service takes from packages that are not the program's: the driver, the two parsers,
-- the digest of an envelope, 16 random bytes in hexadecimal, and `strconv` on a `json.Number`.
pub record Env : Type 1 where
  pub driver : Driver
  pub error_kind : driver.Error → ErrorKind
  pub new_mysql_parser : Bytes → Option Mysql.Parser
  pub clickhouse_parser : ClickHouse.Parser
  pub digest : Envelope → Option Bytes
  pub random_hex : Option Bytes
  pub parse_int64 : Bytes → Option ℤ
  pub parse_float64 : Bytes → Option ℕ

-- What a method returns, and the events so far.
pub record Reply : Type 0 where
  pub response : Response
  pub failure : Option ErrorCode
  pub log : Log
