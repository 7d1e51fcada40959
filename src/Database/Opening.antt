-- ===== src/Database/Opening.antt =====
-- `openSource`, `profileFromConfig` and the methods `Close` of internal/database/registry.go. The
-- drivers' ways to open a pool and to check it are parameters; the limits of a pool are not modelled.
use mcp_server_for_mysql.Base.{
  ℕ, zero, suc, Bool, true, false, List, [], ◌∷◌, ◌++◌, map, append-nil, append_assoc, inl, inr,
  Option, none, some, ◌≡◌, refl, sym, ap, ◌∙◌, if◌then◌else◌, Bool-cases, Bytes, codes, equal,
  equal_iff, Result, ok, err,
}
use mcp_server_for_mysql.Config.Model.{SourceConfig}
use mcp_server_for_mysql.Database.Dialect.{Dialect, dialect_name, mysql_dialect, clickhouse_dialect}
use mcp_server_for_mysql.Database.Source.{Source, SourceProfile}
use mcp_server_for_mysql.Database.Registry.{SourceMap}

pub data OpenError : Type 0 where
  unsupported_engine open_connection check_failed : OpenError

-- The source that is opened with its pool, and the pools left open.
pub record Opened (Pool : Type 0) : Type 0 where
  pub outcome : Result OpenError (Source × Pool)
  pub left_open : List Pool

abbrev pub profile_from_config : SourceConfig → SourceProfile
profile_from_config cfg = record {
  display_name = cfg.display_name;
  description = cfg.description;
  aliases = cfg.aliases;
  keywords = cfg.keywords;
}

abbrev pub source_from_config : SourceConfig → Dialect → Source
source_from_config cfg dialect = record {
  id = cfg.name;
  engine = cfg.engine;
  profile = profile_from_config cfg;
  has_db = true;
  dialect = dialect;
}

module _ {Pool : Type 0} (open_mysql open_clickhouse : Bytes → Option Pool)
    (ping : Pool → Bool) where
  -- What follows the opening, with the pool or without it.
  abbrev pub checked : SourceConfig → Dialect → Option Pool → Opened Pool
  checked cfg dialect none = record { outcome = err open_connection; left_open = [] }
  checked cfg dialect (some pool) =
      if ping pool
      then record { outcome = ok (source_from_config cfg dialect, pool); left_open = pool ∷ [] }
      else record { outcome = err check_failed; left_open = [] }

  unfoldable pub open_source : SourceConfig → Opened Pool
  unfolding equal
  open_source cfg =
      if equal cfg.engine (codes "mysql")
      then checked cfg mysql_dialect (open_mysql cfg.dsn)
      else if equal cfg.engine (codes "clickhouse")
      then checked cfg clickhouse_dialect (open_clickhouse cfg.dsn)
      else record { outcome = err unsupported_engine; left_open = [] }

  -- A source is opened with its pool, under the name, the engine and the profile of its
  -- configuration and with the dialect of that engine; or nothing is left open.
  abbrev pub IsOpened : SourceConfig → Result OpenError (Source × Pool) → List Pool → Type 0
  IsOpened cfg (err e) left_open = left_open ≡ []
  IsOpened cfg (ok (s, pool)) left_open =
      (left_open ≡ pool ∷ [])
      × (s.id ≡ cfg.name)
      × (s.engine ≡ cfg.engine)
      × (s.engine ≡ dialect_name s.dialect)
      × (s.profile ≡ profile_from_config cfg)
      × (s.has_db ≡ true)

  checked-IsOpened :
      (cfg : SourceConfig) (dialect : Dialect) (r : Option Pool)
      → cfg.engine ≡ dialect_name dialect
      → IsOpened cfg (checked cfg dialect r).outcome (checked cfg dialect r).left_open
  checked-IsOpened cfg dialect none e = refl
  checked-IsOpened cfg dialect (some pool) e = by_ping (ping pool)
    where
      by_ping :
          (b : Bool)
          → (let r : Opened Pool =
                if b
                then record {
                  outcome = ok (source_from_config cfg dialect, pool);
                  left_open = pool ∷ [];
                }
                else record { outcome = err check_failed; left_open = [] } in
              IsOpened cfg r.outcome r.left_open)
      by_ping true = (refl, refl, refl, e, refl, refl)
      by_ping false = refl

  -- `openSource` leaks no pool, and the source that it opens is the configured one.
  pub open_source-IsOpened :
      (cfg : SourceConfig) → IsOpened cfg (open_source cfg).outcome (open_source cfg).left_open
  unfolding open_source
  open_source-IsOpened cfg = elim (Bool-cases (equal cfg.engine (codes "mysql"))) [
    | inl m ↦
        rw (m, open_source)
          (checked-IsOpened cfg mysql_dialect (open_mysql cfg.dsn)
            ((equal_iff cfg.engine (codes "mysql")).0 m))
    | inr m ↦ elim (Bool-cases (equal cfg.engine (codes "clickhouse"))) [
      | inl c ↦
          rw (m, c, open_source)
            (checked-IsOpened cfg clickhouse_dialect (open_clickhouse cfg.dsn)
              ((equal_iff cfg.engine (codes "clickhouse")).0 c))
      | inr c ↦ rw (m, c, open_source) refl
    ]
  ]

-- A registry is closed in the order of its list; that of a Go map is not fixed. This is the
-- registry's `sync.Once` with its joined errors, and the sources whose `Close` ran.
pub record Closing (Error : Type 0) : Type 0 where
  pub finished : Bool
  pub close_err : List Error
  pub closed : List Bytes

abbrev pub open_state : {Error : Type 0} → Closing Error
open_state = record { finished = false; close_err = []; closed = [] }

module _ {Error : Type 0} (close_source : Bytes → Option Error) where
  unfoldable pub close_each : SourceMap → Closing Error → Closing Error
  close_each [] st = record st { finished = true }
  close_each ((id, s) ∷ m) st = close_each m (record st {
    close_err = elim (close_source id) [ none ↦ st.close_err | some e ↦ st.close_err ++ e ∷ [] ];
    closed = st.closed ++ id ∷ [];
  })

  -- `Registry.Close`; it returns `close_err`.
  unfoldable pub close_registry : SourceMap → Closing Error → Closing Error
  unfolding close_each
  close_registry m st = if st.finished then st else close_each m st

  unfoldable pub close_times : ℕ → SourceMap → Closing Error → Closing Error
  unfolding close_registry
  close_times zero m st = st
  close_times (suc n) m st = close_times n m (close_registry m st)

  close_each-finished : (m : SourceMap) (st : Closing Error) → (close_each m st).finished ≡ true
  unfolding close_each
  close_each-finished [] st = refl
  close_each-finished ((id, s) ∷ m) st = close_each-finished m _

  close_each-closed :
      (m : SourceMap) (st : Closing Error)
      → (close_each m st).closed ≡ st.closed ++ map (λ (e : Bytes × Source). e.0) m
  unfolding close_each
  close_each-closed [] st = sym (append-nil st.closed)
  close_each-closed ((id, s) ∷ m) st =
      close_each-closed m _ ∙ append_assoc st.closed (id ∷ []) (map (λ (e : Bytes × Source). e.0) m)

  close_times-finished :
      (n : ℕ) (m : SourceMap) (st : Closing Error) → st.finished ≡ true → close_times n m st ≡ st
  unfolding close_times
  close_times-finished zero m st h = refl
  close_times-finished (suc n) m st h = ap (close_times n m) again ∙ close_times-finished n m st h
    where
      again : close_registry m st ≡ st
      again = rw (h, close_registry) refl

  -- However often a registry is closed, each source is closed once, and every call returns the
  -- errors that the first one returned.
  pub close_times-IsOnce :
      (n : ℕ) (m : SourceMap)
      → (close_times (suc n) m open_state ≡ close_registry m open_state)
        × ((close_registry m open_state).closed ≡ map (λ (e : Bytes × Source). e.0) m)
  unfolding close_times close_registry
  close_times-IsOnce n m = (
    close_times-finished n m (close_each m open_state) (close_each-finished m open_state),
    close_each-closed m open_state,
  )
