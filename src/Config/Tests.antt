-- ===== src/Config/Tests.antt =====
-- Instances of the theorems on internal/config, at a file with one source.
use mcp_server_for_mysql.Base.{
  Bool, true, false, [], ◌∷◌, ◌↔◌, Option, none, some, ◌≡◌, refl, if◌then◌else◌, Bytes, codes,
  equal, trim_space, ok, err,
}
use mcp_server_for_mysql.Execution.Model.{quick_mode, other_mode}
use mcp_server_for_mysql.Config.Utf8.{valid_string, rune_count}
use mcp_server_for_mysql.Config.Model.{
  max_display_name_runes, max_description_runes, max_profile_item_runes, max_aliases, max_keywords,
  SourceConfig, Settings, value_required,
}
use mcp_server_for_mysql.Config.Reference.{environment_reference}
use mcp_server_for_mysql.Config.Reference.Laws.{reference_to, environment_reference_iff}
use mcp_server_for_mysql.Database.Identifier.Laws.{IsIdentifier}
use mcp_server_for_mysql.Config.Load.{load, usable, validate_profile}
use mcp_server_for_mysql.Config.Load.Profile.{IsProfile, validate_profile_iff}
use mcp_server_for_mysql.Config.Load.Laws.{IsLoaded, load_iff}
use mcp_server_for_mysql.Config.Load.Secrecy.{error_of, load_error, is_usable}

abbrev source : SourceConfig
source = record {
  name = codes "main";
  display_name = codes " Main ";
  description = codes "The main database";
  aliases = some (codes "db" ∷ []);
  keywords = none;
  engine = codes "mysql";
  dsn = codes "${MAIN_DSN}";
}

abbrev read_file : Bytes → Option Bytes
read_file path = some (codes "file")

abbrev decode : Bytes → Option Settings
decode contents = some (record { mode = other_mode []; sources = source ∷ [] })

abbrev at_end : Bytes → Bool
at_end contents = true

abbrev lookup_env : Bytes → Option Bytes
lookup_env variable = if equal variable (codes "MAIN_DSN") then some (codes "secret") else none

abbrev lookup_other : Bytes → Option Bytes
lookup_other variable = if equal variable (codes "MAIN_DSN") then some (codes "other") else none

abbrev loaded : Settings
loaded = record {
  mode = quick_mode;
  sources = record source { display_name = codes "Main"; dsn = codes "secret" } ∷ [];
}

load_runs : load read_file decode at_end (codes "config.yaml") (some lookup_env) ≡ ok loaded
unfolding load equal trim_space valid_string rune_count
load_runs = refl

load_unset :
    load read_file decode at_end (codes "config.yaml") (some (λ variable. none))
    ≡ err (value_required (codes "main"))
unfolding load equal trim_space valid_string rune_count
load_unset = refl

load_iff_example :
    (load read_file decode at_end (codes "config.yaml") (some lookup_env) ≡ ok loaded)
    ↔ IsLoaded read_file decode at_end (codes "config.yaml") (some lookup_env) loaded
load_iff_example = load_iff read_file decode at_end (codes "config.yaml") (some lookup_env) loaded

load_error_example :
    error_of (load read_file decode at_end (codes "config.yaml") (some lookup_env))
    ≡ error_of (load read_file decode at_end (codes "config.yaml") (some lookup_other))
unfolding trim_space
load_error_example =
    load_error read_file decode at_end (codes "config.yaml") lookup_env lookup_other same
  where
    same :
        (variable : Bytes)
        → is_usable (usable (lookup_env variable)) ≡ is_usable (usable (lookup_other variable))
    same variable = by_test (equal variable (codes "MAIN_DSN"))
      where
        by_test :
            (b : Bool)
            → is_usable (usable (if b then some (codes "secret") else none))
              ≡ is_usable (usable (if b then some (codes "other") else none))
        by_test true = refl
        by_test false = refl

main_reference :
    (environment_reference (codes "${DSN}") ≡ some (codes "DSN"))
    ↔ (IsIdentifier (codes "DSN") × (codes "${DSN}" ≡ reference_to (codes "DSN")))
main_reference = environment_reference_iff (codes "${DSN}") (codes "DSN")

validate_profile_iff_example : (validate_profile source ≡ ok tt) ↔ IsProfile source
validate_profile_iff_example = validate_profile_iff source

-- The limits of a profile.
profile_limits :
    (max_display_name_runes ≡ 80)
    × (max_description_runes ≡ 500)
    × (max_profile_item_runes ≡ 80)
    × (max_aliases ≡ 20)
    × (max_keywords ≡ 30)
profile_limits = (refl, refl, refl, refl, refl)
