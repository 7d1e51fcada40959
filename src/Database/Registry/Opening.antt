-- ===== src/Database/Registry/Opening.antt =====
-- What `openRegistry` and `NewRegistry` of internal/database/registry.go keep open, and under what.
use mcp_server_for_mysql.Base.{
  true, false, List, [], ◌∷◌, ◌++◌, append-nil, append_assoc, ◌⊎◌, inl, inr, some, ◌≡◌, refl, sym,
  ap, ◌∙◌, Bool-cases, All, Bytes, equal, equal_iff, equal_refl, Result, ok, err, subst,
}
use mcp_server_for_mysql.Config.Model.{SourceConfig}
use mcp_server_for_mysql.Database.Source.{Source}
use mcp_server_for_mysql.Database.Registry.{
  RegistryError, duplicate_source, open_failed, SourceMap, lookup_source, is_some, index_sources,
  Opened, ids, with_closed, new_registry, open_registry,
}

-- The map has the source under its ID.
abbrev pub IsFound : SourceMap → Source → Type 0
IsFound m s = lookup_source s.id m ≡ some s

lookup_source-keeps :
    (s : Source) (m : SourceMap) (id : Bytes) (t : Source)
    → is_some (lookup_source s.id m) ≡ false
    → lookup_source id m ≡ some t
    → lookup_source id ((s.id, s) ∷ m) ≡ some t
unfolding lookup_source
lookup_source-keeps s m id t free h = elim (Bool-cases (equal id s.id)) [
  | inl same ↦
      let e : id ≡ s.id = (equal_iff id s.id).0 same in
      let taken : is_some (lookup_source s.id m) ≡ true =
        ap is_some (ap (λ k. lookup_source k m) (sym e) ∙ h) in
      cc
  | inr other ↦ rw other h
]

lookup_source-first : (s : Source) (m : SourceMap) → lookup_source s.id ((s.id, s) ∷ m) ≡ some s
unfolding lookup_source
lookup_source-first s m = rw (equal_refl s.id) refl

module _ {Error : Type 0} where
  abbrev duplicate : Bytes → RegistryError Error
  duplicate = duplicate_source

  -- What indexing keeps, and what it adds.
  index_sources-IsFound :
      (by_id : SourceMap) (ss : List Source) {m : SourceMap}
      → index_sources duplicate by_id ss ≡ ok m
      → ((id : Bytes) (t : Source) → lookup_source id by_id ≡ some t → lookup_source id m ≡ some t)
        × All (IsFound m) ss
  unfolding index_sources
  index_sources-IsFound by_id [] {m} h =
      let same : by_id ≡ m = cc in
      (λ id t found. ap (λ k. lookup_source id k) (sym same) ∙ found, tt)
  index_sources-IsFound by_id (s ∷ ss) {m} h =
      elim (Bool-cases (is_some (lookup_source s.id by_id))) [
        | inl taken ↦
            let failed : index_sources duplicate by_id (s ∷ ss) ≡ err (duplicate s.id) =
              rw (taken, index_sources) refl in
            cc
        | inr free ↦
            let (keeps, found) = index_sources-IsFound ((s.id, s) ∷ by_id) ss (indexed free) in
            (
              λ id t old. keeps id t (lookup_source-keeps s by_id id t free old),
              (keeps s.id s (lookup_source-first s by_id), found),
            )
      ]
    where
      indexed :
          is_some (lookup_source s.id by_id) ≡ false
          → index_sources duplicate ((s.id, s) ∷ by_id) ss ≡ ok m
      indexed free = sym (rw (free, index_sources) refl) ∙ h

  -- The sources that a factory opens: those of the configurations in front of the first that fails.
  abbrev pub opened_by : (SourceConfig → Result Error Source) → List SourceConfig → List Source
  opened_by factory [] = []
  opened_by factory (cfg ∷ cfgs) =
      let rest = opened_by factory cfgs in elim (factory cfg) [ err e ↦ [] | ok s ↦ s ∷ rest ]

  -- Either everything is found under its ID and nothing is closed, or everything is closed.
  abbrev pub IsOwned : List Source → Opened Error → Type 0
  IsOwned sources r =
      ((m : SourceMap) × (r.outcome ≡ ok m) × (r.closed ≡ []) × All (IsFound m) sources)
      ⊎ ((e : RegistryError Error) × (r.outcome ≡ err e) × (r.closed ≡ ids sources))

  new_registry-IsOwned : (sources : List Source) → IsOwned sources (new_registry sources)
  unfolding new_registry
  new_registry-IsOwned sources = by_result (index_sources duplicate [] sources) refl
    where
      by_result :
          (r : Result (RegistryError Error) SourceMap)
          → index_sources duplicate [] sources ≡ r
          → IsOwned sources (with_closed sources r)
      by_result (ok m) h = inl (m, refl, refl, (index_sources-IsFound [] sources h).1)
      by_result (err e) h = inr (e, refl, refl)

  open_registry-from :
      (factory : SourceConfig → Result Error Source) (sources : List Source)
      (cfgs : List SourceConfig)
      → IsOwned (sources ++ opened_by factory cfgs) (open_registry factory sources cfgs)
  unfolding open_registry
  open_registry-from factory sources [] =
      subst (λ ss. IsOwned ss (new_registry sources)) (sym (append-nil sources))
        (new_registry-IsOwned sources)
  open_registry-from factory sources (cfg ∷ cfgs) =
      by_result (λ s. open_registry-from factory (sources ++ s ∷ []) cfgs) (factory cfg) refl
    where
      by_result :
          ((s : Source)
            → IsOwned
                ((sources ++ s ∷ []) ++ opened_by factory cfgs)
                (open_registry factory (sources ++ s ∷ []) cfgs))
          → (r : Result Error Source) → factory cfg ≡ r
          → IsOwned
              (sources ++ opened_by factory (cfg ∷ cfgs))
              (open_registry factory sources (cfg ∷ cfgs))
      by_result rest (err e) h = inr (
        open_failed cfg.name e,
        rw (h, open_registry, opened_by) refl,
        rw (h, open_registry, opened_by) (ap ids (sym (append-nil sources))),
      )
      by_result rest (ok s) h =
          rw (h, open_registry, opened_by)
            (subst (λ ss. IsOwned ss (open_registry factory (sources ++ s ∷ []) cfgs))
              (append_assoc sources (s ∷ []) (opened_by factory cfgs)) (rest s))

  -- Opening a registry leaks nothing: it succeeds, closes nothing and finds every source that was
  -- opened under its ID, or it fails and has closed every source that was opened.
  pub open_registry-IsOwned :
      (factory : SourceConfig → Result Error Source) (cfgs : List SourceConfig)
      → IsOwned (opened_by factory cfgs) (open_registry factory [] cfgs)
  open_registry-IsOwned factory cfgs = open_registry-from factory [] cfgs

  module _ (factory : SourceConfig → Result Error Source) where
    -- The factory opens a source with the property for the configuration.
    abbrev pub Opens : (Source → Type 0) → SourceConfig → Type 0
    Opens P cfg = (s : Source) × (factory cfg ≡ ok s) × P s

    all_open :
        (P : Source → Type 0) (sources : List Source) (cfgs : List SourceConfig) {m : SourceMap}
        → (open_registry factory sources cfgs).outcome ≡ ok m
        → All P (opened_by factory cfgs)
        → All (Opens P) cfgs
    unfolding open_registry
    all_open P sources [] h all = tt
    all_open P sources (cfg ∷ cfgs) {m} h all =
        by_result (λ s. all_open P (sources ++ s ∷ []) cfgs) (factory cfg) refl
      where
        by_result :
            ((s : Source)
              → (open_registry factory (sources ++ s ∷ []) cfgs).outcome ≡ ok m
              → All P (opened_by factory cfgs)
              → All (Opens P) cfgs)
            → (r : Result Error Source) → factory cfg ≡ r
            → All (Opens P) (cfg ∷ cfgs)
        by_result rest (err e) f = cc (failed f)
          where
            failed :
                {e : Error}
                → factory cfg ≡ err e
                → (open_registry factory sources (cfg ∷ cfgs)).outcome
                  ≡ err (open_failed cfg.name e)
            failed f = rw (f, open_registry) refl
        by_result rest (ok s) f =
            let (p, ps) = subst (All P) (first f) all in ((s, f, p), rest s (sym (next f) ∙ h) ps)
          where
            first :
                {s : Source}
                → factory cfg ≡ ok s
                → opened_by factory (cfg ∷ cfgs) ≡ s ∷ opened_by factory cfgs
            first f = rw (f, opened_by) refl

            next :
                {s : Source}
                → factory cfg ≡ ok s
                → (open_registry factory sources (cfg ∷ cfgs)).outcome
                  ≡ (open_registry factory (sources ++ s ∷ []) cfgs).outcome
            next f = rw (f, open_registry) refl

  -- A registry that is opened holds a source for every configuration, under the source's ID.
  pub open_registry-Opens :
      (factory : SourceConfig → Result Error Source) (cfgs : List SourceConfig) {m : SourceMap}
      → (open_registry factory [] cfgs).outcome ≡ ok m
      → All (Opens factory (IsFound m)) cfgs
  open_registry-Opens factory cfgs {m} h = elim (open_registry-IsOwned factory cfgs) [
    | inl (m', e, _, found) ↦
        all_open factory (IsFound m) [] cfgs h
          (subst (λ k. All (IsFound k) (opened_by factory cfgs)) (same e h) found)
    | inr (e, f, _) ↦ cc
  ]
    where
      same :
          {r : Result (RegistryError Error) SourceMap} {a b : SourceMap}
          → r ≡ ok a
          → r ≡ ok b
          → a ≡ b
      same e h = cc
