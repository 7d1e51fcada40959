-- ===== src/Config/Model.antt =====
-- The types of internal/config/config.go, and what makes `Load` fail.
use mcp_server_for_mysql.Base.{ℕ, List, Option, Bytes}
use mcp_server_for_mysql.Execution.Model.{Mode}

-- `engine` is the field `Type`; a nil slice is `none`.
pub record SourceConfig : Type 0 where
  pub name : Bytes
  pub display_name : Bytes
  pub description : Bytes
  pub aliases : Option (List Bytes)
  pub keywords : Option (List Bytes)
  pub engine : Bytes
  pub dsn : Bytes

pub record Settings : Type 0 where
  pub mode : Mode
  pub sources : List SourceConfig

abbrev pub max_display_name_runes : ℕ
max_display_name_runes = 80

abbrev pub max_description_runes : ℕ
max_description_runes = 500

abbrev pub max_profile_item_runes : ℕ
max_profile_item_runes = 80

abbrev pub max_aliases : ℕ
max_aliases = 20

abbrev pub max_keywords : ℕ
max_keywords = 30

-- The field of a profile that an error names.
pub data ProfileField : Type 0 where
  display_name description aliases keywords : ProfileField

-- An error names its source, and for an item of a list its index. It never holds a DSN.
pub data ConfigError : Type 0 where
  unreadable_file invalid_file source_required name_required : ConfigError
  invalid_mode : Mode → ConfigError
  duplicate_name unsupported_type dsn_required invalid_reference value_required :
      Bytes → ConfigError
  field_required not_utf8 too_long : Bytes → ProfileField → ConfigError
  too_many_items duplicate_item : Bytes → ProfileField → ConfigError
  item_required item_not_utf8 item_too_long : Bytes → ProfileField → ℕ → ConfigError
