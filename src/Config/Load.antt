-- ===== src/Config/Load.antt =====
-- `Load` of internal/config/config.go. Reading the file and decoding its YAML are parameters.
pub mod Profile
pub mod Sources
pub mod Laws
pub mod Secrecy
use mcp_server_for_mysql.Base.{
  ℕ, ◌+◌, Bool, not, ◌||◌, List, [], ◌∷◌, map, Option, none, some, leb, if◌then◌else◌, length,
  Bytes, codes, equal, contains, trim_space, Result, ok, ◌>>=◌, guard, from_option,
}
use mcp_server_for_mysql.Execution.Model.{Mode, quick_mode, other_mode}
use mcp_server_for_mysql.Execution.Policy.{is_known_mode}
use mcp_server_for_mysql.Sqlguard.Splitter.{is_nil}
use mcp_server_for_mysql.Config.Utf8.{valid_string, rune_count}
use mcp_server_for_mysql.Config.Reference.{environment_reference}
use mcp_server_for_mysql.Config.Model.{
  SourceConfig, Settings, ProfileField, ConfigError, max_display_name_runes, max_description_runes,
  max_profile_item_runes, max_aliases, max_keywords, unreadable_file, invalid_file, source_required,
  name_required, invalid_mode, duplicate_name, unsupported_type, dsn_required, invalid_reference,
  value_required, field_required, not_utf8, too_long, too_many_items, duplicate_item, item_required,
  item_not_utf8, item_too_long,
}

abbrev pub trim_items : Option (List Bytes) → Option (List Bytes)
trim_items none = none
trim_items (some items) = some (map trim_space items)

-- The items of a slice; a nil one has none.
abbrev pub items_of : Option (List Bytes) → List Bytes
items_of none = []
items_of (some items) = items

-- `normalizeSourceProfile`
unfoldable pub normalize_source_profile : SourceConfig → SourceConfig
normalize_source_profile s = record s {
  display_name = trim_space s.display_name;
  description = trim_space s.description;
  aliases = trim_items s.aliases;
  keywords = trim_items s.keywords;
}

-- `validateRequiredProfileField`
unfoldable pub validate_required_profile_field :
    Bytes → ProfileField → Bytes → ℕ → Result ConfigError (Unit {0})
validate_required_profile_field source_name field value max_runes = do
  _ ← guard (not (is_nil value)) (field_required source_name field)
  _ ← guard (valid_string value) (not_utf8 source_name field)
  guard (leb (rune_count value) max_runes) (too_long source_name field)

-- The loop of `validateProfileItems` from index `i`: `seen` are the items before it.
unfoldable pub validate_items :
    Bytes → ProfileField → ℕ → List Bytes → List Bytes → Result ConfigError (Unit {0})
validate_items source_name field i seen [] = ok tt
validate_items source_name field i seen (item ∷ items) = do
  _ ← guard (not (is_nil item)) (item_required source_name field i)
  _ ← guard (valid_string item) (item_not_utf8 source_name field i)
  _ ← guard (leb (rune_count item) max_profile_item_runes) (item_too_long source_name field i)
  _ ← guard (not (contains item seen)) (duplicate_item source_name field)
  validate_items source_name field (i + 1) (item ∷ seen) items

unfoldable pub validate_profile_items :
    Bytes → ProfileField → List Bytes → ℕ → Result ConfigError (Unit {0})
unfolding validate_items
validate_profile_items source_name field items max_items = do
  _ ← guard (leb (length items) max_items) (too_many_items source_name field)
  validate_items source_name field 0 [] items

-- The checks of `validateSourceProfile`, on the normalized source.
unfoldable pub validate_profile : SourceConfig → Result ConfigError (Unit {0})
unfolding validate_required_profile_field validate_profile_items
validate_profile s = do
  _ ←
      validate_required_profile_field s.name ProfileField.display_name s.display_name
        max_display_name_runes
  _ ←
      validate_required_profile_field s.name ProfileField.description s.description
        max_description_runes
  _ ← validate_profile_items s.name ProfileField.aliases (items_of s.aliases) max_aliases
  validate_profile_items s.name ProfileField.keywords (items_of s.keywords) max_keywords

-- `validateSourceProfile`, which returns the source that it changed in place.
unfoldable pub validate_source_profile : SourceConfig → Result ConfigError SourceConfig
unfolding normalize_source_profile validate_profile
validate_source_profile source = do
  let s = normalize_source_profile source
  _ ← validate_profile s
  ok s

abbrev pub is_supported : Bytes → Bool
is_supported engine = equal engine (codes "mysql") || equal engine (codes "clickhouse")

-- The body of the first loop of `Load`: the source, and the name of its variable.
unfoldable pub check_source : List Bytes → SourceConfig → Result ConfigError (SourceConfig × Bytes)
unfolding validate_source_profile environment_reference
check_source names source = do
  _ ← guard (not (is_nil (trim_space source.name))) name_required
  _ ← guard (not (contains source.name names)) (duplicate_name source.name)
  s ← validate_source_profile source
  _ ← guard (is_supported s.engine) (unsupported_type s.name)
  _ ← guard (not (is_nil (trim_space s.dsn))) (dsn_required s.name)
  variable ← from_option (environment_reference s.dsn) (invalid_reference s.name)
  ok (s, variable)

unfoldable pub check_sources :
    List Bytes → List SourceConfig → Result ConfigError (List (SourceConfig × Bytes))
unfolding check_source
check_sources names [] = ok []
check_sources names (source ∷ sources) = do
  checked ← check_source names source
  rest ← check_sources (source.name ∷ names) sources
  ok (checked ∷ rest)

-- The value of a variable that is set to more than white space.
abbrev pub usable : Option Bytes → Option Bytes
usable none = none
usable (some value) = if is_nil (trim_space value) then none else some value

-- The second loop of `Load`.
unfoldable pub resolve_sources :
    (Bytes → Option Bytes) → List (SourceConfig × Bytes) → Result ConfigError (List SourceConfig)
resolve_sources lookup_env [] = ok []
resolve_sources lookup_env ((source, variable) ∷ rest) = do
  resolved ← from_option (usable (lookup_env variable)) (value_required source.name)
  sources ← resolve_sources lookup_env rest
  ok (record source { dsn = resolved } ∷ sources)

abbrev pub default_mode : Mode → Mode
default_mode (other_mode []) = quick_mode
default_mode m = m

abbrev pub first_name : List SourceConfig → Bytes
first_name [] = []
first_name (source ∷ _) = source.name

-- `read_file` is `os.ReadFile`, `decode` the first `Decode` of a file and `at_end` whether the
-- second one finds its end; a nil function to look variables up is `none`.
module _ (read_file : Bytes → Option Bytes) (decode : Bytes → Option Settings)
    (at_end : Bytes → Bool) where
  -- The part of `Load` in front of the variables: the settings with the default mode, and the
  -- sources checked.
  unfoldable pub load_checked : Bytes → Result ConfigError (Settings × List (SourceConfig × Bytes))
  unfolding check_sources
  load_checked path = do
    contents ← from_option (read_file path) unreadable_file
    config ← from_option (decode contents) invalid_file
    _ ← guard (at_end contents) invalid_file
    let mode = default_mode config.mode
    _ ← guard (is_known_mode mode) (invalid_mode mode)
    _ ← guard (not (is_nil config.sources)) source_required
    checked ← check_sources [] config.sources
    ok (record config { mode = mode }, checked)

  unfoldable pub load : Bytes → Option (Bytes → Option Bytes) → Result ConfigError Settings
  unfolding load_checked resolve_sources
  load path lookup_env = do
    checked ← load_checked path
    lookup ← from_option lookup_env (value_required (first_name checked.0.sources))
    sources ← resolve_sources lookup checked.1
    ok (record { mode = checked.0.mode; sources = sources })
