-- ===== src/Database/Registry.antt =====
-- internal/database/registry.go: the registry of the opened sources. Opening a connection is the
-- parameter `factory`; a Go map from IDs is an association list, which the code never reads in order.
pub mod Opening
use mcp_server_for_mysql.Base.{
  Bool, true, false, ◌&&◌, List, [], ◌∷◌, ◌++◌, map, Option, none, some, ltb, ◌==◌, if◌then◌else◌,
  Bytes, equal, Result, ok, err,
}
use mcp_server_for_mysql.Config.Model.{SourceConfig}
use mcp_server_for_mysql.Database.Source.{Source}

pub data RegistryError (Error : Type 0) : Type 0 where
  duplicate_source unknown_source : Bytes → RegistryError Error
  open_failed : Bytes → Error → RegistryError Error

abbrev pub SourceMap : Type 0
SourceMap = List (Bytes × Source)

-- `r.sources[id]`
unfoldable pub lookup_source : Bytes → SourceMap → Option Source
lookup_source id [] = none
lookup_source id ((k, s) ∷ m) = if equal id k then some s else lookup_source id m

abbrev pub is_some {ℓ} : {A : Type ℓ} → Option A → Bool
is_some none = false
is_some (some _) = true

-- The loop of `NewRegistry`: `by_id` is the map so far.
unfoldable pub index_sources {ℓ} :
    {Error : Type ℓ} → (Bytes → Error) → SourceMap → List Source → Result Error SourceMap
index_sources duplicate by_id [] = ok by_id
index_sources duplicate by_id (s ∷ ss) =
    if is_some (lookup_source s.id by_id)
    then err (duplicate s.id)
    else index_sources duplicate ((s.id, s) ∷ by_id) ss

-- A registry, or the error and the IDs of the sources that were closed because of it.
pub record Opened (Error : Type 0) : Type 0 where
  pub outcome : Result (RegistryError Error) SourceMap
  pub closed : List Bytes

abbrev pub ids : List Source → List Bytes
ids = map (λ (s : Source). s.id)

module _ {Error : Type 0} where
  abbrev pub with_closed : List Source → Result (RegistryError Error) SourceMap → Opened Error
  with_closed sources (ok m) = record { outcome = ok m; closed = [] }
  with_closed sources (err e) = record { outcome = err e; closed = ids sources }

  -- `NewRegistry`
  unfoldable pub new_registry : List Source → Opened Error
  new_registry sources = with_closed sources (index_sources duplicate_source [] sources)

  -- `openRegistry`, over the configured sources and a factory: `sources` are those opened so far.
  unfoldable pub open_registry :
      (SourceConfig → Result Error Source) → List Source → List SourceConfig → Opened Error
  open_registry factory sources [] = new_registry sources
  open_registry factory sources (cfg ∷ cfgs) = elim (factory cfg) [
    | err e ↦ record { outcome = err (open_failed cfg.name e); closed = ids sources }
    | ok s ↦ open_registry factory (sources ++ s ∷ []) cfgs
  ]

  -- `Registry.Source`
  unfoldable pub find_source : SourceMap → Bytes → Result (RegistryError Error) Source
  find_source m id = elim (lookup_source id m) [ none ↦ err (unknown_source id) | some s ↦ ok s ]

-- The order of Go strings, byte by byte.
unfoldable pub leq : Bytes → Bytes → Bool
leq [] ys = true
leq (x ∷ xs) [] = false
leq (x ∷ xs) (y ∷ ys) = if ltb x y then true else x == y && leq xs ys

-- `sort.Strings`, as an insertion sort.
unfoldable pub insert_sorted : Bytes → List Bytes → List Bytes
insert_sorted a [] = a ∷ []
insert_sorted a (b ∷ bs) = if leq a b then a ∷ b ∷ bs else b ∷ insert_sorted a bs

unfoldable pub sort_strings : List Bytes → List Bytes
unfolding insert_sorted
sort_strings [] = []
sort_strings (a ∷ as') = insert_sorted a (sort_strings as')

-- The loop of `Registry.Sources` over the sorted IDs.
unfoldable pub select_sources : SourceMap → List Bytes → List Source
select_sources m [] = []
select_sources m (id ∷ rest) =
    let others = select_sources m rest in
    elim (lookup_source id m) [ none ↦ others | some s ↦ s ∷ others ]

unfoldable pub sources_of : SourceMap → List Source
sources_of m = select_sources m (sort_strings (map (λ (e : Bytes × Source). e.0) m))
