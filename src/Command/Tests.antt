-- ===== src/Command/Tests.antt =====
-- An application over two sources.
use mcp_server_for_mysql.Base.{true, [], ◌∷◌, none, some, refl, Bytes, codes, equal, trim_space}
use mcp_server_for_mysql.Database.Registry.{new_registry, index_sources, lookup_source}
use mathlib.Core.List.{Memᴰ}
use mcp_server_for_mysql.Config.Model.{SourceConfig, Settings}
use mcp_server_for_mysql.Database.Dialect.{mysql_dialect, clickhouse_dialect}
use mcp_server_for_mysql.Database.Opening.{source_from_config}
use mcp_server_for_mysql.Execution.Model.{strict_mode}
use mcp_server_for_mysql.Tools.Mcp.Inputs.{registered_tool_names}
use mcp_server_for_mysql.Command.{
  Application, new_service, open_application, IsServed, open_application-IsServed,
}

abbrev config_of : Bytes → Bytes → SourceConfig
config_of name engine = record {
  name = name;
  display_name = name;
  description = codes "A database";
  aliases = none;
  keywords = none;
  engine = engine;
  dsn = codes "dsn";
}

abbrev orders : SourceConfig
orders = config_of (codes "orders") (codes "mysql")

abbrev events : SourceConfig
events = config_of (codes "events") (codes "clickhouse")

abbrev settings : Settings
settings = record { mode = strict_mode; sources = orders ∷ events ∷ [] }

abbrev application : Application
application = record {
  service =
      new_service
        ((codes "events", source_from_config events clickhouse_dialect)
          ∷ (codes "orders", source_from_config orders mysql_dialect)
          ∷ [])
        strict_mode;
  tool_names = registered_tool_names;
}

open_application-IsServed_example :
    IsServed {Pool = Bytes} some some (λ pool. true) application.service events
unfolding open_application equal trim_space new_registry index_sources lookup_source
open_application-IsServed_example =
    open_application-IsServed some some (λ pool. true) settings application events
      (Memᴰ.tail (Memᴰ.head refl)) refl refl
