-- ===== src/Tools/Examples.antt =====
-- A service with one source, for the instances of the theorems on internal/tools.
use mcp_server_for_mysql.Base.{
  ℕ, true, false, [], ◌∷◌, Option, none, some, if◌then◌else◌, Bytes, codes, equal, ℤ, pos,
}
use mcp_server_for_mysql.Database.Source.{Source}
use mcp_server_for_mysql.Database.Dialect.{mysql_dialect}
use mcp_server_for_mysql.Sqlguard.Examples.{mysql_parser, clickhouse_parser}
use mcp_server_for_mysql.Execution.Model.{quick_mode}
use mcp_server_for_mysql.Execution.Examples.{driver, digest}
use mcp_server_for_mysql.Tools.Model.{RequestMeta, Service, Env, other_error}

abbrev pub source : Source
source = record {
  id = codes "main";
  engine = codes "mysql";
  profile = record {
    display_name = codes "Main";
    description = [];
    aliases = none;
    keywords = none;
  };
  has_db = true;
  dialect = mysql_dialect;
}

abbrev pub service : Service
service = record {
  registry = some ((codes "main", source) ∷ []);
  mode = quick_mode;
  max_rows = pos 0;
}

abbrev pub parse_int64 : Bytes → Option ℤ
parse_int64 text = if equal text (codes "7") then some (pos 7) else none

abbrev pub parse_float64 : Bytes → Option ℕ
parse_float64 text = none

abbrev pub env : Env
env = record {
  driver = driver;
  error_kind = λ e. other_error;
  new_mysql_parser = λ version. some mysql_parser;
  clickhouse_parser = clickhouse_parser;
  digest = digest;
  random_hex = none;
  parse_int64 = parse_int64;
  parse_float64 = parse_float64;
}

abbrev pub meta : RequestMeta
meta = record {
  source_id = codes "main";
  confirm = false;
  preview_hash = [];
  request_id = codes "r";
}
