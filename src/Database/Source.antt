-- ===== src/Database/Source.antt =====
-- The interface `Source` of internal/database/types.go, as its one implementation `sqlSource` of
-- internal/database/registry.go fills it. The connection pool is not read here: `has_db` says
-- whether there is one.
use mcp_server_for_mysql.Base.{Bool, List, Option, Bytes}
use mcp_server_for_mysql.Database.Dialect.{Dialect, Capability, dialect_capabilities}

-- `none` is a nil slice, which is kept apart from an empty one.
pub record SourceProfile : Type 0 where
  pub display_name : Bytes
  pub description : Bytes
  pub aliases : Option (List Bytes)
  pub keywords : Option (List Bytes)

pub record Source : Type 0 where
  pub id : Bytes
  pub engine : Bytes
  pub profile : SourceProfile
  pub has_db : Bool
  pub dialect : Dialect

abbrev pub capabilities : Source → Capability
capabilities s = dialect_capabilities s.dialect
