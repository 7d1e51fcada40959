-- ===== src/Database/Metadata/Indexes/Positions.antt =====
-- The loop of `mysqlIndexes` (internal/database/mysql.go) step by step: a position is as good as a name.
use mcp_server_for_mysql.Base.{
  ℕ, suc, Bool, true, false, List, [], ◌∷◌, ◌++◌, map, Option, none, some, ◌≡◌, refl, ap, ◌∙◌,
  if◌then◌else◌, length, Bytes, equal, contains,
}
use mcp_server_for_mysql.Database.Metadata.Model.{Index}
use mcp_server_for_mysql.Database.Metadata.Indexes.{
  IndexRow, present, new_index, with_part, add_part, update_at,
}

abbrev pub names_of : List Index → List Bytes
names_of = map (λ (ix : Index). ix.name)

-- The names of the rows in the order of their first row, behind those seen.
abbrev pub first_names : List Bytes → List IndexRow → List Bytes
first_names seen [] = seen
first_names seen (row ∷ rows) =
    first_names (if contains row.name seen then seen else seen ++ row.name ∷ []) rows

abbrev pub find_index : Bytes → List Index → Option Index
find_index name [] = none
find_index name (ix ∷ ixs) = if equal name ix.name then some ix else find_index name ixs

abbrev pub or_new : Option Index → IndexRow → Index
or_new none row = new_index row
or_new (some ix) row = ix

-- The index of a name: the properties of its first row, and the parts of its rows in their order.
abbrev pub described : Bytes → Option Index → List IndexRow → Option Index
described name found [] = found
described name found (row ∷ rows) =
    described name (if equal name row.name then some (add_part row (or_new found row)) else found)
      rows

-- The same step by name, without positions.
unfoldable pub upsert : IndexRow → List Index → List Index
upsert row [] = add_part row (new_index row) ∷ []
upsert row (ix ∷ ixs) =
    let others = upsert row ixs in
    if equal row.name ix.name then add_part row ix ∷ ixs else ix ∷ others

-- The position behind a name that matches or not.
abbrev pub shifted : Bool → Option ℕ → Option ℕ
shifted true found = some 0
shifted false none = none
shifted false (some p) = some (suc p)

unfoldable pub position_of : Bytes → List Bytes → Option ℕ
position_of name [] = none
position_of name (k ∷ ks) = shifted (equal name k) (position_of name ks)

pub add_part-name : (row : IndexRow) (ix : Index) → (add_part row ix).name ≡ ix.name
add_part-name row ix = by_parts (present row.column) (present row.expression)
  where
    by_parts : (c e : Option Bytes) → (with_part c e ix).name ≡ ix.name
    by_parts (some c) e = refl
    by_parts none (some e) = refl
    by_parts none none = refl

-- What a row does to the indexes at the position of its name, or without one.
abbrev pub updated : IndexRow → List Index → Option ℕ → List Index
updated row ixs (some p) = update_at p (add_part row) ixs
updated row ixs none = update_at (length ixs) (add_part row) (ixs ++ new_index row ∷ [])

pub updated-upsert :
    (row : IndexRow) (ixs : List Index)
    → updated row ixs (position_of row.name (names_of ixs)) ≡ upsert row ixs
unfolding position_of update_at upsert
updated-upsert row [] = refl
updated-upsert row (ix ∷ ixs) =
    by_test (equal row.name ix.name) (position_of row.name (names_of ixs)) (upsert row ixs)
      (updated-upsert row ixs)
  where
    by_test :
        (b : Bool) (r : Option ℕ) (others : List Index)
        → updated row ixs r ≡ others
        → updated row (ix ∷ ixs) (shifted b r) ≡ (if b then add_part row ix ∷ ixs else ix ∷ others)
    by_test true r others h = refl
    by_test false none others h = ap (◌∷◌ ix) h
    by_test false (some p) others h = ap (◌∷◌ ix) h

abbrev pub extended : List Bytes → Bytes → Option ℕ → List Bytes
extended names name (some p) = names
extended names name none = names ++ name ∷ []

pub names_of-upsert :
    (row : IndexRow) (ixs : List Index)
    → names_of (upsert row ixs)
      ≡ extended (names_of ixs) row.name (position_of row.name (names_of ixs))
unfolding position_of upsert
names_of-upsert row [] = ap (λ n. n ∷ []) (add_part-name row (new_index row))
names_of-upsert row (ix ∷ ixs) =
    by_test (equal row.name ix.name) (position_of row.name (names_of ixs)) (upsert row ixs)
      (names_of-upsert row ixs)
  where
    by_test :
        (b : Bool) (r : Option ℕ) (others : List Index)
        → names_of others ≡ extended (names_of ixs) row.name r
        → names_of (if b then add_part row ix ∷ ixs else ix ∷ others)
          ≡ extended (names_of (ix ∷ ixs)) row.name (shifted b r)
    by_test true r others h = ap (λ n. n ∷ names_of ixs) (add_part-name row ix)
    by_test false none others h = ap (◌∷◌ ix.name) h
    by_test false (some p) others h = ap (◌∷◌ ix.name) h

abbrev pub behind : Bytes → Bytes → List Bytes → Option ℕ → Option ℕ
behind name last names (some p) = some p
behind name last names none = if equal name last then some (length names) else none

pub position_of-append :
    (name last : Bytes) (names : List Bytes)
    → position_of name (names ++ last ∷ []) ≡ behind name last names (position_of name names)
unfolding position_of
position_of-append name last [] = by_test (equal name last)
  where
    by_test : (b : Bool) → shifted b none ≡ (if b then some 0 else none)
    by_test true = refl
    by_test false = refl
position_of-append name last (k ∷ names) =
    by_test (equal name k) (position_of name names) (position_of name (names ++ last ∷ []))
      (position_of-append name last names)
  where
    by_last :
        (c : Bool)
        → shifted false (if c then some (length names) else none)
          ≡ (if c then some (suc (length names)) else none)
    by_last true = refl
    by_last false = refl

    by_test :
        (b : Bool) (r later : Option ℕ)
        → later ≡ behind name last names r
        → shifted b later ≡ behind name last (k ∷ names) (shifted b r)
    by_test true r later h = refl
    by_test false (some p) later h = ap (shifted false) h
    by_test false none later h = ap (shifted false) h ∙ by_last (equal name last)

pub length-names_of : (ixs : List Index) → length (names_of ixs) ≡ length ixs
length-names_of [] = refl
length-names_of (ix ∷ ixs) = ap suc (length-names_of ixs)
