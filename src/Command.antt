-- ===== src/Command.antt =====
-- cmd/main.go: the application that is built from a configuration. The MCP server itself, the flags
-- and the signals are the SDK's and the system's.
mod Tests
use mcp_server_for_mysql.Base.{
  Bool, true, false, List, [], Option, none, some, ◌≡◌, refl, sym, ap, ◌∙◌, All, Bytes, trim_space,
  Result, ok, err, pos, subst,
}
use mathlib.Core.List.{Memᴰ}
use mcp_server_for_mysql.Config.Model.{SourceConfig, Settings}
use mcp_server_for_mysql.Database.Dialect.{dialect_name}
use mcp_server_for_mysql.Database.Source.{Source}
use mcp_server_for_mysql.Database.Registry.{RegistryError, SourceMap, lookup_source, open_registry}
use mcp_server_for_mysql.Database.Registry.Opening.{IsFound, Opens, open_registry-Opens}
use mcp_server_for_mysql.Database.Opening.{
  OpenError, Opened, open_source, IsOpened, open_source-IsOpened,
}
use mcp_server_for_mysql.Sqlguard.Splitter.{is_nil}
use mcp_server_for_mysql.Execution.Model.{Mode}
use mcp_server_for_mysql.Execution.Rows.{default_max_rows}
use mcp_server_for_mysql.Tools.Model.{Service, ErrorCode}
use mcp_server_for_mysql.Tools.Service.{service_mode, source_for}
use mcp_server_for_mysql.Tools.Mcp.Inputs.{registered_tool_names}

pub data StartError : Type 0 where
  no_opener nil_registry : StartError
  registry_failed : RegistryError OpenError → StartError

-- `application`, of its server the service that the tools run on.
pub record Application : Type 0 where
  pub service : Service
  pub tool_names : List Bytes

-- `NewService` with the default executor.
abbrev pub new_service : SourceMap → Mode → Service
new_service m mode = record {
  registry = some m;
  mode = service_mode mode;
  max_rows = pos default_max_rows;
}

-- `buildApplication`; the registration of the tools fails only without a server or a service.
unfoldable pub build_application :
    Option (Settings → Result (RegistryError OpenError) (Option SourceMap))
    → Settings
    → Result StartError Application
build_application none cfg = err no_opener
build_application (some opener) cfg = elim (opener cfg) [
  | err e ↦ err (registry_failed e)
  | ok m ↦ elim m [
    | none ↦ err nil_registry
    | some m ↦ ok (record { service = new_service m cfg.mode; tool_names = registered_tool_names })
  ]
]

-- A property of all members holds of each.
All-Memᴰ : {A : Type 0} (P : A → Type 0) {x : A} {xs : List A} → Memᴰ x xs → All P xs → P x
All-Memᴰ P (Memᴰ.head e) (p, ps) = subst P (sym e) p
All-Memᴰ P (Memᴰ.tail i) (p, ps) = All-Memᴰ P i ps

module _ {Pool : Type 0} (open_mysql open_clickhouse : Bytes → Option Pool)
    (ping : Pool → Bool) where
  abbrev pub without_pool : Result OpenError (Source × Pool) → Result OpenError Source
  without_pool (err e) = err e
  without_pool (ok (s, pool)) = ok s

  abbrev pub factory : SourceConfig → Result OpenError Source
  factory cfg = without_pool (open_source open_mysql open_clickhouse ping cfg).outcome

  abbrev pub as_registry :
      Result (RegistryError OpenError) SourceMap
      → Result (RegistryError OpenError) (Option SourceMap)
  as_registry (err e) = err e
  as_registry (ok m) = ok (some m)

  -- `database.OpenRegistry`
  abbrev pub open_all : Settings → Result (RegistryError OpenError) (Option SourceMap)
  open_all cfg = as_registry (open_registry factory [] cfg.sources).outcome

  -- `openApplication`
  unfoldable pub open_application : Settings → Result StartError Application
  unfolding build_application open_registry open_source
  open_application cfg = build_application (some open_all) cfg

  -- The source of a configuration: its engine is that of its dialect, and it has a pool.
  abbrev pub IsSourceOf : SourceConfig → Source → Type 0
  IsSourceOf cfg s =
      (s.id ≡ cfg.name)
      × (s.engine ≡ cfg.engine)
      × (s.engine ≡ dialect_name s.dialect)
      × (s.has_db ≡ true)

  abbrev pub IsServed : Service → SourceConfig → Type 0
  IsServed service cfg = (s : Source) × (source_for service cfg.name ≡ ok s) × IsSourceOf cfg s

  factory-IsSourceOf : (cfg : SourceConfig) (s : Source) → factory cfg ≡ ok s → IsSourceOf cfg s
  factory-IsSourceOf cfg s h =
      by_outcome r.outcome r.left_open (open_source-IsOpened open_mysql open_clickhouse ping cfg) h
    where
      r : Opened Pool
      r = open_source open_mysql open_clickhouse ping cfg

      same : {a b : Source} {o : Result OpenError Source} → o ≡ ok a → o ≡ ok b → a ≡ b
      same e h = cc

      by_outcome :
          (o : Result OpenError (Source × Pool)) (left : List Pool)
          → IsOpened open_mysql open_clickhouse ping cfg o left
          → without_pool o ≡ ok s
          → IsSourceOf cfg s
      by_outcome (err e) left i h = cc
      by_outcome (ok (t, pool)) left (_, id, engine, dialect, _, db) h =
          subst (IsSourceOf cfg) (same refl h) (id, engine, dialect, db)

  Opens-IsServed :
      (m : SourceMap) (mode : Mode) (c : SourceConfig)
      → is_nil (trim_space c.name) ≡ false
      → Opens factory (IsFound m) c
      → IsServed (new_service m mode) c
  unfolding source_for
  Opens-IsServed m mode c n (s, f, found) =
      let of = factory-IsSourceOf c s f in
      (s, finds s n (ap (λ k. lookup_source k m) (sym of.0) ∙ found), of)
    where
      finds :
          (s : Source)
          → is_nil (trim_space c.name) ≡ false
          → lookup_source c.name m ≡ some s
          → source_for (new_service m mode) c.name ≡ ok s
      finds s n found = rw (n, found, source_for) refl

  -- An application that opens serves each configured source whose own name is not blank, whatever the
  -- other names are: under its name, with a pool and with the dialect of its engine.
  pub open_application-IsServed :
      (cfg : Settings) (app : Application) (c : SourceConfig)
      → Memᴰ c cfg.sources
      → is_nil (trim_space c.name) ≡ false
      → open_application cfg ≡ ok app
      → IsServed app.service c
  unfolding open_application build_application
  open_application-IsServed cfg app c i named h =
      by_outcome (open_registry factory [] cfg.sources).outcome refl h
    where
      same : {a b : Application} {o : Result StartError Application} → o ≡ ok a → o ≡ ok b → a ≡ b
      same e h = cc

      by_outcome :
          (o : Result (RegistryError OpenError) SourceMap)
          → (open_registry factory [] cfg.sources).outcome ≡ o
          → build_application (some (λ c. as_registry o)) cfg ≡ ok app
          → IsServed app.service c
      by_outcome (err e) o h = cc
      by_outcome (ok m) o h =
          subst (λ (a : Application). IsServed a.service c) (same refl h)
            (Opens-IsServed m cfg.mode c named
              (All-Memᴰ _ i (open_registry-Opens factory cfg.sources o)))
