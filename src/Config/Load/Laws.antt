-- ===== src/Config/Load/Laws.antt =====
-- What `Load` of internal/config/config.go accepts, and with what result.
use mcp_server_for_mysql.Base.{
  subst, Bool, true, false, not, List, [], ◌∷◌, ◌≢◌, ◌↔◌, ◌⊎◌, Option, none, some, ◌≡◌, refl, sym,
  ap, ◌∙◌, arith, All, Bytes, contains, ok, >>=-eq-ok, guard_iff, from_option,
}
use mcp_server_for_mysql.Execution.Model.{Mode, quick_mode, strict_mode}
use mcp_server_for_mysql.Execution.Policy.{is_known_mode}
use mcp_server_for_mysql.Sqlguard.Splitter.{is_nil}
use mcp_server_for_mysql.Config.Model.{
  SourceConfig, Settings, ConfigError, unreadable_file, invalid_file, source_required, invalid_mode,
}
use mcp_server_for_mysql.Config.Load.{
  check_sources, resolve_sources, default_mode, load_checked, load,
}
use mcp_server_for_mysql.Config.Load.Profile.{IsDistinct}
use mcp_server_for_mysql.Config.Load.Sources.{
  Each, names_of, IsCheckedAs, IsResolved, check_sources_iff, resolve_sources_iff,
}

-- What `Load` makes of a file and of the variables.
pub record IsLoaded (read_file : Bytes → Option Bytes) (decode : Bytes → Option Settings)
    (at_end : Bytes → Bool) (path : Bytes) (lookup_env : Option (Bytes → Option Bytes))
    (settings : Settings) : Type 0 where
  pub contents : Bytes
  pub config : Settings
  pub lookup : Bytes → Option Bytes
  pub checked : List (SourceConfig × Bytes)
  pub read : read_file path ≡ some contents
  pub decoded : decode contents ≡ some config
  pub ended : at_end contents ≡ true
  pub moded : settings.mode ≡ default_mode config.mode
  pub known : (settings.mode ≡ quick_mode) ⊎ (settings.mode ≡ strict_mode)
  pub some_source : config.sources ≢ []
  pub distinct : IsDistinct (names_of config.sources)
  pub valid : Each IsCheckedAs config.sources checked
  pub looked_up : lookup_env ≡ some lookup
  pub resolved : Each (IsResolved lookup) checked settings.sources

from_option_iff :
    {A : Type 0} (r : Option A) (e : ConfigError) (a : A) → (from_option r e ≡ ok a) ↔ (r ≡ some a)
from_option_iff none e a = (λ h. cc, λ h. cc)
from_option_iff (some b) e a = (λ h. ground arith, λ h. ground arith)

known_iff : (m : Mode) → (is_known_mode m ≡ true) ↔ ((m ≡ quick_mode) ⊎ (m ≡ strict_mode))
known_iff m = (λ h. ground arith, λ h. ground arith)

some_iff : (ss : List SourceConfig) → (not (is_nil ss) ≡ true) ↔ (ss ≢ [])
some_iff [] = (λ h. cc, λ h. absurd (h refl))
some_iff (s ∷ ss) = (λ h. ground arith, λ h. refl)

unseen-nil : (ns : List Bytes) → All (λ n. contains n [] ≡ false) ns
unseen-nil [] = tt
unseen-nil (n ∷ ns) = (refl, unseen-nil ns)

-- The file, what is decoded of it, and the tests in front of the sources.
record IsFront (read_file : Bytes → Option Bytes) (decode : Bytes → Option Settings)
    (at_end : Bytes → Bool) (path : Bytes) (c : Settings × List (SourceConfig × Bytes))
    : Type 0 where
  contents : Bytes
  config : Settings
  read : read_file path ≡ some contents
  decoded : decode contents ≡ some config
  ended : at_end contents ≡ true
  known : is_known_mode (default_mode config.mode) ≡ true
  some_source : not (is_nil config.sources) ≡ true
  checks : check_sources [] config.sources ≡ ok c.1
  same : record config { mode = default_mode config.mode } ≡ c.0

module _ (read_file : Bytes → Option Bytes) (decode : Bytes → Option Settings)
    (at_end : Bytes → Bool) (path : Bytes) where
  load_checked-IsFront :
      (c : Settings × List (SourceConfig × Bytes))
      → load_checked read_file decode at_end path ≡ ok c
      → IsFront read_file decode at_end path c
  unfolding load_checked
  load_checked-IsFront c h =
      let (contents, r, h₁) = >>=-eq-ok (from_option (read_file path) unreadable_file) _ h in
      let (config, d, h₂) = >>=-eq-ok (from_option (decode contents) invalid_file) _ h₁ in
      let (ended, h₃) = (guard_iff (at_end contents) invalid_file _ _).0 h₂ in
      let mode = default_mode config.mode in
      let (known, h₄) = (guard_iff (is_known_mode mode) (invalid_mode mode) _ _).0 h₃ in
      let (some_source, h₅) = (guard_iff (not (is_nil config.sources)) source_required _ _).0 h₄ in
      let (checked, checks, e) = >>=-eq-ok (check_sources [] config.sources) _ h₅ in
      record {
        contents = contents;
        config = config;
        read = (from_option_iff (read_file path) unreadable_file contents).0 r;
        decoded = (from_option_iff (decode contents) invalid_file config).0 d;
        ended = ended;
        known = known;
        some_source = some_source;
        checks = checks ∙ ground arith;
        same = ground arith;
      }

  module _ (lookup_env : Option (Bytes → Option Bytes)) (settings : Settings) where
    load-IsLoaded :
        load read_file decode at_end path lookup_env ≡ ok settings
        → IsLoaded read_file decode at_end path lookup_env settings
    unfolding load
    load-IsLoaded h =
        let (c, front, h₁) = >>=-eq-ok (load_checked read_file decode at_end path) _ h in
        let (lookup, l, h₂) = >>=-eq-ok (from_option lookup_env _) _ h₁ in
        let (sources, r, e) = >>=-eq-ok (resolve_sources lookup c.1) _ h₂ in
        let f = load_checked-IsFront c front in
        let loaded : record { mode = c.0.mode; sources = sources } ≡ settings = ground arith in
        let (_, distinct, valid) = (check_sources_iff [] f.config.sources c.1).0 f.checks in
        let mode : settings.mode ≡ default_mode f.config.mode =
          sym (ap (λ (q : Settings). q.mode) loaded) ∙ sym (ap (λ (q : Settings). q.mode) f.same) in
        record {
          contents = f.contents;
          config = f.config;
          lookup = lookup;
          checked = c.1;
          read = f.read;
          decoded = f.decoded;
          ended = f.ended;
          moded = mode;
          known = (known_iff settings.mode).0 (ap is_known_mode mode ∙ f.known);
          some_source = (some_iff f.config.sources).0 f.some_source;
          distinct = distinct;
          valid = valid;
          looked_up = (from_option_iff lookup_env _ lookup).0 l;
          resolved =
              subst (Each (IsResolved lookup) c.1) (ap (λ (q : Settings). q.sources) loaded)
                ((resolve_sources_iff lookup c.1 sources).0 r);
        }

    load-accepts :
        IsLoaded read_file decode at_end path lookup_env settings
        → load read_file decode at_end path lookup_env ≡ ok settings
    unfolding load load_checked
    load-accepts l =
        let known = ap is_known_mode (sym l.moded) ∙ (known_iff settings.mode).1 l.known in
        let checks =
          (check_sources_iff [] l.config.sources l.checked).1
            (unseen-nil (names_of l.config.sources), l.distinct, l.valid) in
        let resolves = (resolve_sources_iff l.lookup l.checked settings.sources).1 l.resolved in
        rw
          (
            l.read,
            l.decoded,
            l.ended,
            known,
            (some_iff l.config.sources).1 l.some_source,
            checks,
            l.looked_up,
            resolves,
          )
          (ap (λ m. ok (record { mode = m; sources = settings.sources })) (sym l.moded))

    -- `Load` succeeds exactly when the file is read, decodes as one document and has a known or no
    -- mode and some source, the names of its sources are distinct, each source is valid once its
    -- profile is trimmed, and every DSN refers to a variable with a value, which takes its place.
    pub load_iff :
        (load read_file decode at_end path lookup_env ≡ ok settings)
        ↔ IsLoaded read_file decode at_end path lookup_env settings
    load_iff = (load-IsLoaded, load-accepts)
