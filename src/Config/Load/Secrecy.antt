-- ===== src/Config/Load/Secrecy.antt =====
-- What an error of `Load` (internal/config/config.go) tells of the values of variables.
use mcp_server_for_mysql.Base.{
  Bool, true, false, List, [], ◌∷◌, Option, none, some, ◌≡◌, refl, Bytes, Result, ok, err, ◌>>=◌,
  from_option,
}
use mcp_server_for_mysql.Config.Model.{SourceConfig, Settings, ConfigError, value_required}
use mcp_server_for_mysql.Config.Load.{usable, resolve_sources, load_checked, load}

abbrev pub error_of {ℓ κ} : {E : Type ℓ} {A : Type κ} → Result E A → Option E
error_of (ok a) = none
error_of (err e) = some e

abbrev pub is_usable : Option Bytes → Bool
is_usable none = false
is_usable (some value) = true

-- The same variables have a value, which may differ.
abbrev pub SameVariables : (Bytes → Option Bytes) → (Bytes → Option Bytes) → Type 0
SameVariables lookup lookup' =
    (variable : Bytes)
    → is_usable (usable (lookup variable)) ≡ is_usable (usable (lookup' variable))

-- One round of the loop: the errors agree if the values are both usable or both not, and the errors
-- of the rest agree.
round :
    (source : SourceConfig) (r r' : Option Bytes)
    (later later' : Result ConfigError (List SourceConfig))
    → is_usable r ≡ is_usable r'
    → error_of later ≡ error_of later'
    → error_of (
        from_option r (value_required source.name) >>= λ v.
        later >>= λ ss. ok (record source { dsn = v } ∷ ss))
      ≡ error_of (
          from_option r' (value_required source.name) >>= λ v.
          later' >>= λ ss. ok (record source { dsn = v } ∷ ss))
round source none none later later' u e = refl
round source none (some v) later later' u e = cc
round source (some v) none later later' u e = cc
round source (some v) (some v') (ok ss) (ok ss') u e = refl
round source (some v) (some v') (ok ss) (err x) u e = cc
round source (some v) (some v') (err x) (ok ss') u e = cc
round source (some v) (some v') (err x) (err x') u e = e

resolve_sources-error :
    (lookup lookup' : Bytes → Option Bytes) (checked : List (SourceConfig × Bytes))
    → SameVariables lookup lookup'
    → error_of (resolve_sources lookup checked) ≡ error_of (resolve_sources lookup' checked)
unfolding resolve_sources
resolve_sources-error lookup lookup' [] same = refl
resolve_sources-error lookup lookup' ((source, variable) ∷ checked) same =
    round source (usable (lookup variable)) (usable (lookup' variable))
      (resolve_sources lookup checked) (resolve_sources lookup' checked) (same variable)
      (resolve_sources-error lookup lookup' checked same)

-- An error of `Load` tells nothing of the values of variables: where the same variables have a
-- value, it fails alike, whatever the values are.
pub load_error :
    (read_file : Bytes → Option Bytes) (decode : Bytes → Option Settings) (at_end : Bytes → Bool)
    (path : Bytes) (lookup lookup' : Bytes → Option Bytes)
    → SameVariables lookup lookup'
    → error_of (load read_file decode at_end path (some lookup))
      ≡ error_of (load read_file decode at_end path (some lookup'))
unfolding load
load_error read_file decode at_end path lookup lookup' same =
    by_front (load_checked read_file decode at_end path)
  where
    settings_of :
        Settings × List (SourceConfig × Bytes) → List SourceConfig → Result ConfigError Settings
    settings_of c sources = ok (record { mode = c.0.mode; sources = sources })

    after :
        (Bytes → Option Bytes)
        → Settings × List (SourceConfig × Bytes)
        → Result ConfigError Settings
    after l c = resolve_sources l c.1 >>= settings_of c

    finish :
        (c : Settings × List (SourceConfig × Bytes)) (r r' : Result ConfigError (List SourceConfig))
        → error_of r ≡ error_of r'
        → error_of (r >>= settings_of c) ≡ error_of (r' >>= settings_of c)
    finish c (ok ss) (ok ss') e = refl
    finish c (ok ss) (err x) e = cc
    finish c (err x) (ok ss) e = cc
    finish c (err x) (err x') e = e

    by_front :
        (front : Result ConfigError (Settings × List (SourceConfig × Bytes)))
        → error_of (front >>= after lookup) ≡ error_of (front >>= after lookup')
    by_front (err e) = refl
    by_front (ok c) = finish c _ _ (resolve_sources-error lookup lookup' c.1 same)
