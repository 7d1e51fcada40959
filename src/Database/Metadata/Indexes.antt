-- ===== src/Database/Metadata/Indexes.antt =====
-- The loop of `mysqlIndexes` (internal/database/mysql.go), on rows that are scanned.
pub mod Positions
pub mod Laws
use mcp_server_for_mysql.Base.{
  ℕ, zero, suc, Bool, true, false, List, [], ◌∷◌, ◌++◌, Option, none, some, if◌then◌else◌, length,
  Bytes, equal, ℤ, pos,
}
use mcp_server_for_mysql.Database.Metadata.Model.{Index}

-- The variables that a row is scanned into; an invalid `sql.NullString` is `none`.
pub record IndexRow : Type 0 where
  pub name : Bytes
  pub non_unique : ℤ
  pub kind : Bytes
  pub column : Option Bytes
  pub expression : Option Bytes

-- The text of a `sql.NullString` that is valid and not empty.
abbrev pub present : Option Bytes → Option Bytes
present none = none
present (some []) = none
present (some (c ∷ s)) = some (c ∷ s)

abbrev pub is_zero : ℤ → Bool
is_zero (pos zero) = true
is_zero _ = false

abbrev pub new_index : IndexRow → Index
new_index row = record {
  name = row.name;
  kind = row.kind;
  columns = [];
  expression = [];
  unique = is_zero row.non_unique;
}

-- The column of a row, or else its expression.
abbrev pub with_part : Option Bytes → Option Bytes → Index → Index
with_part (some column) expression ix = record ix { columns = ix.columns ++ column ∷ [] }
with_part none (some expression) ix = record ix { expression = expression }
with_part none none ix = ix

abbrev pub add_part : IndexRow → Index → Index
add_part row ix = with_part (present row.column) (present row.expression) ix

-- `byName` and `indexes`.
pub record Grouping : Type 0 where
  pub by_name : List (Bytes × ℕ)
  pub indexes : List Index

unfoldable pub lookup_position : Bytes → List (Bytes × ℕ) → Option ℕ
lookup_position name [] = none
lookup_position name ((k, p) ∷ m) = if equal name k then some p else lookup_position name m

unfoldable pub update_at : ℕ → (Index → Index) → List Index → List Index
update_at p f [] = []
update_at zero f (ix ∷ ixs) = f ix ∷ ixs
update_at (suc p) f (ix ∷ ixs) = ix ∷ update_at p f ixs

unfoldable pub group_row : Grouping → IndexRow → Grouping
unfolding lookup_position update_at
group_row g row = elim (lookup_position row.name g.by_name) [
  | some p ↦ record g { indexes = update_at p (add_part row) g.indexes }
  | none ↦
      let position = length g.indexes in
      record {
        by_name = (row.name, position) ∷ g.by_name;
        indexes = update_at position (add_part row) (g.indexes ++ new_index row ∷ []);
      }
]

unfoldable pub group_from : Grouping → List IndexRow → Grouping
unfolding group_row
group_from g [] = g
group_from g (row ∷ rows) = group_from (group_row g row) rows

unfoldable pub group_rows : List IndexRow → List Index
unfolding group_from
group_rows rows = (group_from (record { by_name = []; indexes = [] }) rows).indexes
