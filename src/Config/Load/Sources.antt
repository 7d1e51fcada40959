-- ===== src/Config/Load/Sources.antt =====
-- What the two loops of `Load`, internal/config/config.go, make of the sources.
use mcp_server_for_mysql.Base.{
  subst, true, false, not, List, [], ◌∷◌, map, ◌↔◌, Option, none, some, ◌≡◌, refl, sym, ap, arith,
  All, Bytes, contains, trim_space, Result, ok, err, ◌>>=◌, >>=-eq-ok, guard, guard_iff,
  collect_iff, from_option,
}
use mcp_server_for_mysql.Database.Identifier.Laws.{IsIdentifier}
use mcp_server_for_mysql.Sqlguard.Splitter.{is_nil}
use mcp_server_for_mysql.Config.Reference.{environment_reference}
use mcp_server_for_mysql.Config.Reference.Laws.{reference_to, environment_reference_iff}
use mcp_server_for_mysql.Config.Model.{
  SourceConfig, ConfigError, name_required, duplicate_name, unsupported_type, dsn_required,
  invalid_reference, value_required,
}
use mcp_server_for_mysql.Config.Load.{
  normalize_source_profile, validate_profile, validate_source_profile, is_supported, check_source,
  check_sources, usable, resolve_sources,
}
use mcp_server_for_mysql.Config.Load.Profile.{
  IsProfile, IsDistinct, validate_profile_iff, not_nil_iff, unseen_iff,
}

abbrev pub IsBlank : Bytes → Type 0
IsBlank s = trim_space s ≡ []

-- The source has a name of its own and a supported engine, its profile is valid once trimmed, and
-- its DSN refers to the variable.
abbrev pub IsChecked : SourceConfig → SourceConfig → Bytes → Type 0
IsChecked source s variable =
    (s ≡ normalize_source_profile source)
    × ¬ IsBlank source.name
    × IsProfile s
    × (is_supported source.engine ≡ true)
    × ¬ IsBlank source.dsn
    × IsIdentifier variable
    × (source.dsn ≡ reference_to variable)

check_source_iff :
    (names : List Bytes) (source s : SourceConfig) (variable : Bytes)
    → (check_source names source ≡ ok (s, variable))
      ↔ ((contains source.name names ≡ false) × IsChecked source s variable)
unfolding check_source validate_source_profile
check_source_iff names source s variable = (to, from)
  where
    normal : SourceConfig
    normal = normalize_source_profile source

    done : SourceConfig → Bytes → Result ConfigError (SourceConfig × Bytes)
    done u v = ok (u, v)

    rest : SourceConfig → Result ConfigError (SourceConfig × Bytes)
    rest u = guard (is_supported u.engine) (unsupported_type u.name) >>= λ _.
        guard (not (is_nil (trim_space u.dsn))) (dsn_required u.name) >>= λ _.
        from_option (environment_reference u.dsn) (invalid_reference u.name) >>= done u

    to :
        check_source names source ≡ ok (s, variable)
        → (contains source.name names ≡ false) × IsChecked source s variable
    to h =
        let (named, h₁) =
          (guard_iff (not (is_nil (trim_space source.name))) name_required _ _).0 h in
        let (free, h₂) =
          (guard_iff (not (contains source.name names)) (duplicate_name source.name) _ _).0 h₁ in
        let (t, profile, h₃) = >>=-eq-ok (validate_source_profile source) _ h₂ in
        let (_, valid, same) = >>=-eq-ok (validate_profile normal) _ profile in
        let e' : t ≡ normal = ground arith in
        let (engine, h₄) =
          (guard_iff (is_supported source.engine) (unsupported_type source.name) _ _).0
            (subst (λ u. rest u ≡ ok (s, variable)) e' h₃) in
        let (present, h₅) =
          (guard_iff (not (is_nil (trim_space source.dsn))) (dsn_required source.name) _ _).0 h₄ in
        let (found, e) = referred (environment_reference source.dsn) h₅ in
        let (i, text) = (environment_reference_iff source.dsn variable).0 found in
        (
          ground arith,
          (
            sym e,
            (not_nil_iff _).0 named,
            subst IsProfile e ((validate_profile_iff normal).0 valid),
            engine,
            (not_nil_iff _).0 present,
            i,
            text,
          ),
        )
      where
        referred :
            (r : Option Bytes)
            → (from_option r (invalid_reference source.name) >>= done normal) ≡ ok (s, variable)
            → (r ≡ some variable) × (normal ≡ s)
        referred none h = cc
        referred (some v) h = (ground arith, ground arith)

    from :
        (contains source.name names ≡ false) × IsChecked source s variable
        → check_source names source ≡ ok (s, variable)
    from (free, (e, named, valid, engine, present, i, text)) =
        let named' = (not_nil_iff (trim_space source.name)).1 named in
        let present' = (not_nil_iff (trim_space source.dsn)).1 present in
        let valid' = (validate_profile_iff normal).1 (subst IsProfile e valid) in
        let found = (environment_reference_iff source.dsn variable).1 (i, text) in
        rw (named', free, valid', engine, present', found) (ground arith)

-- The lists are of one length, and related place by place.
abbrev pub Each {ℓ κ} : {A : Type ℓ} {B : Type κ} → (A → B → Type 0) → List A → List B → Type 0
Each R [] [] = Unit
Each R [] (y ∷ ys) = ⊥
Each R (x ∷ xs) [] = ⊥
Each R (x ∷ xs) (y ∷ ys) = R x y × Each R xs ys

abbrev pub names_of : List SourceConfig → List Bytes
names_of = map (λ (s : SourceConfig). s.name)

abbrev pub IsCheckedAs : SourceConfig → SourceConfig × Bytes → Type 0
IsCheckedAs source c = IsChecked source c.0 c.1

-- The variable of a checked source has a value, which becomes its DSN.
abbrev pub IsResolved : (Bytes → Option Bytes) → SourceConfig × Bytes → SourceConfig → Type 0
IsResolved lookup c t =
    (value : Bytes) × (lookup c.1 ≡ some value) × ¬ IsBlank value × (t ≡ record c.0 { dsn = value })

pub check_sources_iff :
    (names : List Bytes) (sources : List SourceConfig) (checked : List (SourceConfig × Bytes))
    → (check_sources names sources ≡ ok checked) ↔ (
        All (λ n. contains n names ≡ false) (names_of sources)
        × IsDistinct (names_of sources)
        × Each IsCheckedAs sources checked)
unfolding check_sources
check_sources_iff names [] [] = (λ h. (tt, tt, tt), λ h. refl)
check_sources_iff names [] (c ∷ checked) = (λ h. cc, λ h. absurd (h.2))
check_sources_iff names (s ∷ sources) [] = (
  λ h.
      let (c, cs, first, later, e) =
        (collect_iff (check_source names s) (check_sources (s.name ∷ names) sources) []).0 h in
      cc,
  λ h. absurd (h.2),
)
check_sources_iff names (s ∷ sources) (c ∷ checked) =
    let ih = check_sources_iff (s.name ∷ names) sources checked in
    let new = unseen_iff s.name names (names_of sources) in
    let one = check_source_iff names s c.0 c.1 in
    let both =
      collect_iff (check_source names s) (check_sources (s.name ∷ names) sources) (c ∷ checked) in
    (
      λ h.
          let (x, xs, first, later, e) = both.0 h in
          let (free, valid) = one.0 (cc) in
          let (unseen, distinct, each) = ih.0 (cc) in
          let (others, before) = new.0 unseen in
          ((free, before), (others, distinct), (valid, each)),
      λ h.
          both.1
            (c, checked, one.1 (h.0.0, h.2.0), ih.1 (new.1 (h.1.0, h.0.1), h.1.1, h.2.1), refl),
    )

usable_iff :
    (r : Option Bytes) (value : Bytes)
    → (usable r ≡ some value) ↔ ((r ≡ some value) × ¬ IsBlank value)
usable_iff none value = (λ h. cc, λ h. cc (h.0))
usable_iff (some v) value = (
  λ h. ground (arith, not_nil_iff (trim_space v)),
  λ h. ground (arith, not_nil_iff (trim_space v)),
)

pub resolve_sources_iff :
    (lookup : Bytes → Option Bytes) (checked : List (SourceConfig × Bytes))
    (sources : List SourceConfig)
    → (resolve_sources lookup checked ≡ ok sources) ↔ Each (IsResolved lookup) checked sources
unfolding resolve_sources
resolve_sources_iff lookup [] [] = (λ h. tt, λ h. refl)
resolve_sources_iff lookup [] (t ∷ sources) = (λ h. cc, λ h. absurd h)
resolve_sources_iff lookup (c ∷ checked) [] =
    (first (usable (lookup c.1)) (resolve_sources lookup checked), λ h. absurd h)
  where
    first :
        (r : Option Bytes) (later : Result ConfigError (List SourceConfig))
        → (from_option r (value_required c.0.name) >>= λ v.
            later >>= λ ss. ok (record c.0 { dsn = v } ∷ ss))
          ≡ ok []
        → ⊥
    first none later h = cc
    first (some v) (ok ss) h = cc
    first (some v) (err e) h = cc
resolve_sources_iff lookup (c ∷ checked) (t ∷ sources) =
    let ih = resolve_sources_iff lookup checked sources in
    (
      λ h. to (usable (lookup c.1)) (resolve_sources lookup checked) refl h ih.0,
      λ h.
          let ((v, found, present, e), each) = h in
          rw ((usable_iff (lookup c.1) v).1 (found, present), ih.1 each)
            (ap (λ s. ok (s ∷ sources)) (sym e)),
    )
  where
    to :
        (r : Option Bytes) (later : Result ConfigError (List SourceConfig))
        → usable (lookup c.1) ≡ r
        → (from_option r (value_required c.0.name) >>= λ v.
            later >>= λ ss. ok (record c.0 { dsn = v } ∷ ss))
          ≡ ok (t ∷ sources)
        → (later ≡ ok sources → Each (IsResolved lookup) checked sources)
        → Each (IsResolved lookup) (c ∷ checked) (t ∷ sources)
    to none later e h ih = cc
    to (some v) (ok ss) e h ih =
        let (found, present) = (usable_iff (lookup c.1) v).0 e in
        ((v, found, present, ground arith), ih (ground arith))
    to (some v) (err x) e h ih = cc
