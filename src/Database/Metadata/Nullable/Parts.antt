-- ===== src/Database/Metadata/Nullable/Parts.antt =====
-- The parts that `clickHouseOuterWrapper` (internal/database/clickhouse.go) cuts a type into.
use mcp_server_for_mysql.Base.{
  Bool, true, false, [], ◌∷◌, ◌++◌, ◌≢◌, ◌⊎◌, inl, inr, Option, none, some, ◌≡◌, refl, sym, ap, ◌∙◌,
  arith, ◌==◌, if◌then◌else◌, Bool-cases, All, Bytes, Yields,
}
use mcp_server_for_mysql.Database.Metadata.Nullable.{
  normalize, cut_open, before_close, is_balanced, wrapped, outer_wrapper,
}

-- What is left in front of the last bracket.
pub before_close-append : (s : Bytes) → Yields (λ t. s ≡ t ++ b')' ∷ []) (before_close s)
unfolding before_close
before_close-append [] = tt
before_close-append (c ∷ []) = by_test (c == b')') refl
  where
    by_test :
        (b : Bool)
        → (c == b')') ≡ b
        → Yields (λ t. c ∷ [] ≡ t ++ b')' ∷ []) (if b then some [] else none)
    by_test true e = ground arith
    by_test false e = tt
before_close-append (c ∷ d ∷ s) = by_rest (before_close (d ∷ s)) (before_close-append (d ∷ s))
  where
    by_rest :
        (r : Option Bytes)
        → Yields (λ t. d ∷ s ≡ t ++ b')' ∷ []) r
        → Yields (λ t. c ∷ d ∷ s ≡ t ++ b')' ∷ []) (elim r [ none ↦ none | some t ↦ some (c ∷ t) ])
    by_rest none h = tt
    by_rest (some t) h = ap (◌∷◌ c) h

-- What stands in front of the first bracket, and behind it.
abbrev pub IsCut : Bytes → Bytes × Bytes → Type 0
IsCut s (name, inner) = (s ≡ name ++ b'(' ∷ inner) × All (λ c. c ≢ b'(') name

pub cut_open-IsCut : (s : Bytes) → Yields (IsCut s) (cut_open s)
unfolding cut_open
cut_open-IsCut [] = tt
cut_open-IsCut (c ∷ s) = by_test (Bool-cases (c == b'(')) (cut_open s) refl (cut_open-IsCut s)
  where
    by_test :
        ((c == b'(') ≡ true) ⊎ ((c == b'(') ≡ false)
        → (r : Option (Bytes × Bytes)) → cut_open s ≡ r
        → Yields (IsCut s) r
        → Yields (IsCut (c ∷ s)) (cut_open (c ∷ s))
    by_test (inl opens) r e h = rw (opens, cut_open) (ground arith, tt)
    by_test (inr other) none e h = rw (other, e, cut_open) tt
    by_test (inr other) (some (name, inner)) e h =
        rw (other, e, cut_open) (ap (◌∷◌ c) (h.0), ((λ same. ground arith), h.1))

-- The parts of a wrapped type.
abbrev pub IsWrapped : Bytes → Bytes × Bytes → Type 0
IsWrapped s (name, inner) =
    (s ≡ name ++ b'(' ∷ (inner ++ b')' ∷ []))
    × (name ≢ [])
    × All (λ c. c ≢ b'(') name
    × (is_balanced 0 (b'(' ∷ (inner ++ b')' ∷ [])) ≡ true)

pub outer_wrapper-IsWrapped :
    (type_name : Bytes) → Yields (IsWrapped (normalize type_name)) (outer_wrapper type_name)
unfolding outer_wrapper
outer_wrapper-IsWrapped type_name =
    by_cut (cut_open (normalize type_name)) (cut_open-IsCut (normalize type_name))
  where
    by_close :
        (name inner : Bytes) (r : Option Bytes)
        → normalize type_name ≡ name ++ b'(' ∷ inner
        → All (λ c. c ≢ b'(') name
        → name ≢ []
        → Yields (λ t. inner ≡ t ++ b')' ∷ []) r
        → Yields (IsWrapped (normalize type_name)) (elim r [
          | none ↦ none
          | some s ↦ if is_balanced 0 (b'(' ∷ inner) then some (name, s) else none
        ])
    by_close name inner none e a ne h = tt
    by_close name inner (some s) e a ne h = elim (Bool-cases (is_balanced 0 (b'(' ∷ inner))) [
      | inl good ↦ rw good (
        e ∙ ap (λ i. name ++ b'(' ∷ i) h,
        ne,
        a,
        ap (λ i. is_balanced 0 (b'(' ∷ i)) (sym h) ∙ good,
      )
      | inr bad ↦ rw bad tt
    ]

    by_cut :
        (r : Option (Bytes × Bytes))
        → Yields (IsCut (normalize type_name)) r
        → Yields
            (IsWrapped (normalize type_name))
            (elim r [ none ↦ none | some (name, inner) ↦ wrapped name inner ])
    by_cut none h = tt
    by_cut (some ([], inner)) h = tt
    by_cut (some (c ∷ name, inner)) h =
        by_close (c ∷ name) inner (before_close inner) h.0 h.1 (λ e. cc) (before_close-append inner)
