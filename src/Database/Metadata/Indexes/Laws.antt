-- ===== src/Database/Metadata/Indexes/Laws.antt =====
-- What the loop of `mysqlIndexes` (internal/database/mysql.go) collects.
use mcp_server_for_mysql.Base.{
  ℕ, Bool, true, false, List, [], ◌∷◌, ◌++◌, inl, inr, Option, none, some, ◌≡◌, refl, sym, ap, ◌∙◌,
  arith, if◌then◌else◌, Bool-cases, Option-cases, length, Bytes, equal, equal_iff, equal_refl,
  contains,
}
use mcp_server_for_mysql.Database.Metadata.Model.{Index}
use mcp_server_for_mysql.Database.Metadata.Indexes.{
  IndexRow, new_index, add_part, Grouping, lookup_position, group_row, group_from, group_rows,
}
use mcp_server_for_mysql.Database.Metadata.Indexes.Positions.{
  names_of, first_names, find_index, or_new, described, upsert, shifted, position_of, add_part-name,
  updated, updated-upsert, extended, names_of-upsert, behind, position_of-append, length-names_of,
}

-- The map `byName` holds the position of each index.
IsIndexed : Grouping → Type 0
IsIndexed g =
    (name : Bytes) → lookup_position name g.by_name ≡ position_of name (names_of g.indexes)

group_row-indexes :
    (g : Grouping) (row : IndexRow) → IsIndexed g → (group_row g row).indexes ≡ upsert row g.indexes
unfolding group_row IsIndexed
group_row-indexes g row h = elim (Option-cases (lookup_position row.name g.by_name)) [
  | inl e ↦ rw (e, group_row) (by_map e)
  | inr (p, e) ↦ rw (e, group_row) (by_map e)
]
  where
    by_map :
        {r : Option ℕ}
        → lookup_position row.name g.by_name ≡ r
        → updated row g.indexes r ≡ upsert row g.indexes
    by_map {r} e = ap (updated row g.indexes) (sym e ∙ h row.name) ∙ updated-upsert row g.indexes

equal-apart : (a b c : Bytes) → equal b c ≡ false → equal a c ≡ true → equal a b ≡ false
equal-apart a b c e h =
    let same = (equal_iff a c).0 h in
    let others = equal_iff a b in let again = equal_iff b c in ground arith

find_index-upsert :
    (name : Bytes) (row : IndexRow) (ixs : List Index)
    → find_index name (upsert row ixs) ≡ (
        if equal name row.name
        then some (add_part row (or_new (find_index name ixs) row))
        else find_index name ixs)
unfolding upsert
find_index-upsert name row [] = rw (add_part-name row (new_index row)) refl
find_index-upsert name row (ix ∷ ixs) = elim (Bool-cases (equal row.name ix.name)) [
  | inl e ↦
      rw (e, add_part-name row ix, ap (equal name) ((equal_iff row.name ix.name).0 e))
        (by_same (equal name ix.name))
  | inr e ↦ rw e (
      by_other (equal name ix.name) (equal name row.name) (equal-apart name row.name ix.name e)
        (find_index-upsert name row ixs))
]
  where
    found : Option Index
    found = find_index name ixs

    by_same :
        (b : Bool)
        → (if b then some (add_part row ix) else found) ≡ (
            if b
            then some (add_part row (or_new (if b then some ix else found) row))
            else if b
            then some ix
            else found)
    by_same true = refl
    by_same false = refl

    by_other :
        (b c : Bool) {later : Option Index}
        → ((b ≡ true) → c ≡ false)
        → later ≡ (if c then some (add_part row (or_new found row)) else found)
        → (if b then some ix else later) ≡ (
            if c
            then some (add_part row (or_new (if b then some ix else found) row))
            else if b
            then some ix
            else found)
    by_other true c h e = rw (h refl) refl
    by_other false c h e = e

new_position :
    (name last : Bytes) (ixs : List Index) {found : Option ℕ}
    → position_of last (names_of ixs) ≡ none
    → found ≡ position_of name (names_of ixs)
    → (if equal name last then some (length ixs) else found)
      ≡ position_of name (names_of ixs ++ last ∷ [])
unfolding lookup_position
new_position name last ixs {found} e h = elim (Bool-cases (equal name last)) [
  | inl t ↦
      rw
        (
          position_of-append name last (names_of ixs),
          (equal_iff name last).0 t,
          e,
          equal_refl last,
          length-names_of ixs,
        )
        refl
  | inr t ↦
      rw (position_of-append name last (names_of ixs), t, h)
        (by_position (position_of name (names_of ixs)) t)
]
  where
    by_position : (r : Option ℕ) → equal name last ≡ false → r ≡ behind name last (names_of ixs) r
    by_position none t = rw t refl
    by_position (some p) t = refl

-- The map and the names of the indexes agree in front of each row.
group_row-IsIndexed : (g : Grouping) (row : IndexRow) → IsIndexed g → IsIndexed (group_row g row)
unfolding IsIndexed lookup_position group_row
group_row-IsIndexed g row h name = elim (Option-cases (lookup_position row.name g.by_name)) [
  | inl e ↦ by_map (added e) (new_name e) ∙ ap (position_of name) (sym (names e))
  | inr (p, e) ↦ by_map (kept e) (h name) ∙ ap (position_of name) (sym (names e))
]
  where
    added :
        lookup_position row.name g.by_name ≡ none
        → (group_row g row).by_name ≡ (row.name, length g.indexes) ∷ g.by_name
    added e = rw (e, group_row) refl

    kept :
        {p : ℕ}
        → lookup_position row.name g.by_name ≡ some p
        → (group_row g row).by_name ≡ g.by_name
    kept e = rw (e, group_row) refl

    by_map :
        {r : Option ℕ} {m k : List (Bytes × ℕ)}
        → m ≡ k
        → lookup_position name k ≡ r
        → lookup_position name m ≡ r
    by_map e k = ap (lookup_position name) e ∙ k

    names :
        {r : Option ℕ}
        → lookup_position row.name g.by_name ≡ r
        → names_of (group_row g row).indexes ≡ extended (names_of g.indexes) row.name r
    names {r} e =
        ap names_of (group_row-indexes g row h)
        ∙ names_of-upsert row g.indexes
        ∙ ap (extended (names_of g.indexes) row.name) (sym (h row.name) ∙ e)

    new_name :
        lookup_position row.name g.by_name ≡ none
        → lookup_position name ((row.name, length g.indexes) ∷ g.by_name)
          ≡ position_of name (names_of g.indexes ++ row.name ∷ [])
    new_name e = new_position name row.name g.indexes (sym (h row.name) ∙ e) (h name)

-- Names and indexes of the rows, without positions.
upserts : List IndexRow → List Index → List Index
upserts [] ixs = ixs
upserts (row ∷ rows) ixs = upserts rows (upsert row ixs)

group_from-upserts :
    (g : Grouping) (rows : List IndexRow)
    → IsIndexed g
    → (group_from g rows).indexes ≡ upserts rows g.indexes
unfolding group_from upserts
group_from-upserts g [] h = refl
group_from-upserts g (row ∷ rows) h =
    group_from-upserts (group_row g row) rows (group_row-IsIndexed g row h)
    ∙ ap (upserts rows) (group_row-indexes g row h)

find_index-upserts :
    (name : Bytes) (rows : List IndexRow) (ixs : List Index)
    → find_index name (upserts rows ixs) ≡ described name (find_index name ixs) rows
unfolding upserts
find_index-upserts name [] ixs = refl
find_index-upserts name (row ∷ rows) ixs =
    find_index-upserts name rows (upsert row ixs)
    ∙ ap (λ found. described name found rows) (find_index-upsert name row ixs)

extended-contains :
    (name : Bytes) (names : List Bytes)
    → extended names name (position_of name names)
      ≡ (if contains name names then names else names ++ name ∷ [])
unfolding position_of
extended-contains name [] = refl
extended-contains name (k ∷ names) =
    by_test (equal name k) (position_of name names) (contains name names)
      (extended-contains name names)
  where
    by_test :
        (b : Bool) (r : Option ℕ) (c : Bool)
        → extended names name r ≡ (if c then names else names ++ name ∷ [])
        → extended (k ∷ names) name (shifted b r)
          ≡ (if (if b then true else c) then k ∷ names else k ∷ names ++ name ∷ [])
    by_test true r c h = refl
    by_test false none true h = ap (◌∷◌ k) h
    by_test false none false h = ap (◌∷◌ k) h
    by_test false (some p) true h = ap (◌∷◌ k) h
    by_test false (some p) false h = ap (◌∷◌ k) h

names_of-upserts :
    (rows : List IndexRow) (ixs : List Index)
    → names_of (upserts rows ixs) ≡ first_names (names_of ixs) rows
unfolding upserts
names_of-upserts [] ixs = refl
names_of-upserts (row ∷ rows) ixs =
    names_of-upserts rows (upsert row ixs)
    ∙ ap (λ seen. first_names seen rows)
        (names_of-upsert row ixs ∙ extended-contains row.name (names_of ixs))

-- The indexes of a table are in the order of the first row of each name, every name once; the index
-- of a name has the kind and the uniqueness of its first row and the parts of its rows in order.
pub group_rows_lem :
    (rows : List IndexRow)
    → (names_of (group_rows rows) ≡ first_names [] rows)
      × ((name : Bytes) → find_index name (group_rows rows) ≡ described name none rows)
unfolding group_rows IsIndexed position_of
group_rows_lem rows =
    let grouped = group_from-upserts (record { by_name = []; indexes = [] }) rows (λ name. refl) in
    (
      ap names_of grouped ∙ names_of-upserts rows [],
      λ name. ap (find_index name) grouped ∙ find_index-upserts name rows [],
    )
