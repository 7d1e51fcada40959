-- ===== src/Database/Metadata/Nullable/Termination.antt =====
-- The loop of `isClickHouseNullable` (internal/database/clickhouse.go) ends, and what it decides.
use mcp_server_for_mysql.Base.{
  subst, ℕ, zero, suc, ◌≤◌, ◌<◌, Bool, true, false, [], ◌∷◌, ◌++◌, ◌↔◌, ◌⊎◌, inl, inr, Option, none,
  some, ◌≡◌, refl, sym, ap, ◌∙◌, arith, Bool-cases, length, Bytes, codes, equal, equal_iff,
  space_width, Yields, length-append,
}
use mcp_server_for_mysql.Database.Metadata.Nullable.{
  remove_spaces, lower_from, lower_skip, normalize, outer_wrapper, nullable_loop, is_nullable,
}
use mcp_server_for_mysql.Database.Metadata.Nullable.Parts.{IsWrapped, outer_wrapper-IsWrapped}

length-remove_spaces : (skip : ℕ) (s : Bytes) → length (remove_spaces skip s) ≤ length s
unfolding remove_spaces
length-remove_spaces skip [] = omega arith
length-remove_spaces (suc skip) (c ∷ s) = omega (arith, length-remove_spaces skip s)
length-remove_spaces zero (c ∷ s) =
    by_width (space_width (c ∷ s)) refl (length-remove_spaces 0 s) (λ w. length-remove_spaces w s)
  where
    by_width :
        (w : ℕ)
        → space_width (c ∷ s) ≡ w
        → length (remove_spaces 0 s) ≤ length s
        → ((w : ℕ) → length (remove_spaces w s) ≤ length s)
        → length (remove_spaces zero (c ∷ s)) ≤ length (c ∷ s)
    by_width zero e h k = rw (e, remove_spaces) (omega arith)
    by_width (suc w) e h k = rw (e, remove_spaces) (omega (arith, k w))

length-lower_from : (skip : ℕ) (s : Bytes) → length (lower_from skip s) ≤ length s
unfolding lower_from
length-lower_from skip [] = omega arith
length-lower_from (suc skip) (c ∷ s) = omega (arith, length-lower_from skip s)
length-lower_from zero (c ∷ s) = omega (arith, length-lower_from (lower_skip c s) s)

length-normalize : (s : Bytes) → length (normalize s) ≤ length s
unfolding normalize
length-normalize s =
    omega (arith, length-lower_from 0 (remove_spaces 0 s), length-remove_spaces 0 s)

-- What is inside a wrapper is shorter than the type.
outer_wrapper-shorter :
    (type_name : Bytes) → Yields (λ p. length p.1 < length type_name) (outer_wrapper type_name)
outer_wrapper-shorter type_name =
    by_parts (outer_wrapper type_name) (outer_wrapper-IsWrapped type_name)
  where
    by_parts :
        (r : Option (Bytes × Bytes))
        → Yields (IsWrapped (normalize type_name)) r
        → Yields (λ p. length p.1 < length type_name) r
    by_parts none h = tt
    by_parts (some (name, inner)) h =
        let whole = ap length (h.0) in
        omega (
          arith,
          length-normalize type_name,
          length-append name (b'(' ∷ (inner ++ b')' ∷ [])),
          length-append inner (b')' ∷ []),
        )

-- A type is nullable if it is `Nullable` of something, or `LowCardinality` of a nullable type.
pub data IsNullable : Bytes → Type 0 where
  nullable :
      {type_name inner : Bytes}
      → outer_wrapper type_name ≡ some (codes "nullable", inner)
      → IsNullable type_name
  low_cardinality :
      {type_name inner : Bytes}
      → outer_wrapper type_name ≡ some (codes "lowcardinality", inner)
      → IsNullable inner
      → IsNullable type_name

-- The loop has decided.
abbrev IsDecided : Bytes → Option Bool → Type 0
IsDecided type_name r = (b : Bool) × (r ≡ some b) × ((b ≡ true) ↔ IsNullable type_name)

inversion :
    {type_name : Bytes}
    → IsNullable type_name
    → (wrapper : Bytes) × (inner : Bytes) × (outer_wrapper type_name ≡ some (wrapper, inner))
      × ((wrapper ≡ codes "nullable") ⊎ ((wrapper ≡ codes "lowcardinality") × IsNullable inner))
inversion (nullable {inner = inner} h) = (codes "nullable", inner, h, inl refl)
inversion (low_cardinality {inner = inner} h n) = (codes "lowcardinality", inner, h, inr (refl, n))

nullable_loop-IsDecided :
    (fuel : ℕ) (type_name : Bytes)
    → length type_name < fuel
    → IsDecided type_name (nullable_loop fuel (outer_wrapper type_name))
unfolding nullable_loop
nullable_loop-IsDecided zero type_name h = elim h [ ]
nullable_loop-IsDecided (suc fuel) type_name h =
    by_wrapper (outer_wrapper type_name) refl (outer_wrapper-shorter type_name)
      (λ inner. nullable_loop-IsDecided fuel inner)
  where
    by_wrapper :
        (r : Option (Bytes × Bytes))
        → outer_wrapper type_name ≡ r
        → Yields (λ p. length p.1 < length type_name) r
        → ((inner : Bytes)
            → length inner < fuel
            → IsDecided inner (nullable_loop fuel (outer_wrapper inner)))
        → IsDecided type_name (nullable_loop (suc fuel) r)
    by_wrapper none e s ih =
        (false, refl, ((λ f. cc), λ n. let (w, i, found, _) = inversion n in cc))
    by_wrapper (some (wrapper, inner)) e s ih =
        elim (Bool-cases (equal wrapper (codes "lowcardinality"))) [
          | inl low ↦
              let (b, done, i) = ih inner (omega (arith, s)) in
              let is_low = (equal_iff wrapper (codes "lowcardinality")).0 low in
              rw low (
                b,
                done,
                (
                  λ t. low_cardinality (e ∙ ap (λ w. some (w, inner)) is_low) (i.0 t),
                  λ n. i.1 (inside is_low n),
                ),
              )
          | inr other ↦ rw other (
            equal wrapper (codes "nullable"),
            refl,
            (
              λ t.
                  nullable
                    (e ∙ ap (λ w. some (w, inner)) ((equal_iff wrapper (codes "nullable")).0 t)),
              outside other,
            ),
          )
        ]
      where
        inside : wrapper ≡ codes "lowcardinality" → IsNullable type_name → IsNullable inner
        inside low n =
            let (w, j, found, which) = inversion n in
            elim which [
              | inl is_nullable ↦ cc
              | inr (_, rest) ↦ let same : j ≡ inner = ground arith in subst IsNullable same rest
            ]

        outside :
            equal wrapper (codes "lowcardinality") ≡ false
            → IsNullable type_name
            → equal wrapper (codes "nullable") ≡ true
        outside other n =
            let (w, j, found, which) = inversion n in
            let same : w ≡ wrapper = ground arith in
            elim which [
              | inl is_nullable ↦ (equal_iff wrapper (codes "nullable")).1 (sym same ∙ is_nullable)
              | inr (low, _) ↦
                  let yes_low = (equal_iff wrapper (codes "lowcardinality")).1 (sym same ∙ low) in
                  cc
            ]

-- The loop of `isClickHouseNullable` ends on every type, with as many rounds as the type has bytes,
-- and finds whether the type is `Nullable` under any number of `LowCardinality`.
pub is_nullable-IsDecided :
    (type_name : Bytes)
    → (nullable_loop (suc (length type_name)) (outer_wrapper type_name)
        ≡ some (is_nullable type_name))
      × ((is_nullable type_name ≡ true) ↔ IsNullable type_name)
unfolding is_nullable
is_nullable-IsDecided type_name =
    let (b, done, i) = nullable_loop-IsDecided (suc (length type_name)) type_name (omega arith) in
    rw done (refl, i)
