-- ===== src/Database/Tests.antt =====
-- Instances of the theorems on internal/database, at concrete names.
use mcp_server_for_mysql.Base.{
  List, ℕ, true, [], ◌∷◌, ◌↔◌, none, ◌≡◌, refl, if◌then◌else◌, Bytes, codes, equal, Result, ok, err,
  Option, some, false,
}
use mcp_server_for_mysql.Database.Dialect.{mysql_dialect}
use mcp_server_for_mysql.Database.Identifier.{quote_identifier}
use mcp_server_for_mysql.Database.Identifier.Laws.{IsIdentifier, backticked, quote_identifier_iff}
use mcp_server_for_mysql.Database.Registry.{open_registry, SourceMap}
use mcp_server_for_mysql.Database.Registry.Opening.{IsOwned, opened_by, open_registry-IsOwned}
use mcp_server_for_mysql.Database.Source.{Source}
use mcp_server_for_mysql.Config.Model.{SourceConfig}
use mcp_server_for_mysql.Database.Opening.{
  Opened, open_source, IsOpened, open_source-IsOpened, open_state, close_registry, close_times,
  close_times-IsOnce,
}

quote_identifier_iff_example :
    (quote_identifier (codes "user_1") ≡ ok (codes "`user_1`"))
    ↔ (IsIdentifier (codes "user_1") × (codes "`user_1`" ≡ backticked (codes "user_1")))
quote_identifier_iff_example = quote_identifier_iff (codes "user_1") (codes "`user_1`")

abbrev source_named : Bytes → Source
source_named name = record {
  id = name;
  engine = codes "mysql";
  profile = record { display_name = name; description = []; aliases = none; keywords = none };
  has_db = true;
  dialect = mysql_dialect;
}

abbrev config_named : Bytes → SourceConfig
config_named name = record {
  name = name;
  display_name = name;
  description = codes "A database";
  aliases = none;
  keywords = none;
  engine = codes "mysql";
  dsn = codes "dsn";
}

abbrev main_config : SourceConfig
main_config = config_named (codes "main")

abbrev configs : List SourceConfig
configs = config_named (codes "a") ∷ config_named (codes "b") ∷ []

-- A factory that cannot open the source `b`.
abbrev factory : SourceConfig → Result ℕ Source
factory cfg = if equal cfg.name (codes "b") then err 7 else ok (source_named cfg.name)

open_registry-IsOwned_example :
    IsOwned (opened_by factory configs) (open_registry factory [] configs)
open_registry-IsOwned_example = open_registry-IsOwned factory configs

closes_the_first : (open_registry factory [] configs).closed ≡ codes "a" ∷ []
unfolding open_registry equal
closes_the_first = refl

-- A pool is its DSN, and its check fails.
abbrev unreachable : Opened Bytes
unreachable = open_source some some (λ pool. false) main_config

open_source-IsOpened_example :
    IsOpened {Pool = Bytes} some some
      (λ pool. false)
      main_config
      unreachable.outcome
      unreachable.left_open
open_source-IsOpened_example = open_source-IsOpened some some (λ pool. false) main_config

abbrev failing_close : Bytes → Option ℕ
failing_close id = some 7

abbrev two_sources : SourceMap
two_sources = (codes "a", source_named (codes "a")) ∷ (codes "b", source_named (codes "b")) ∷ []

close_times-IsOnce_example :
    (close_times failing_close 3 two_sources open_state
      ≡ close_registry failing_close two_sources open_state)
    × ((close_registry failing_close two_sources open_state).closed ≡ codes "a" ∷ codes "b" ∷ [])
close_times-IsOnce_example = close_times-IsOnce failing_close 2 two_sources
