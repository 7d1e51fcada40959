-- ===== src/Operation/Validate/Columns.antt =====
-- The column lists of internal/operation/validate.go: what the two loops return.
use mcp_server_for_mysql.Base.{
  true, false, List, [], ◌∷◌, ◌++◌, map, append-nil, append_assoc, ◌≢◌, ◌↔◌, inl, inr, ◌≡◌, refl,
  sym, ap, ◌∙◌, if◌then◌else◌, Bool-cases, All, Bytes, contains, Result, ok, err, ◌>>=◌, >>=-eq-ok,
  Returns, Returns-ok,
}
use mcp_server_for_mysql.Database.Dialect.{Dialect}
use mcp_server_for_mysql.Operation.Model.{ColumnSpec, OperationError, no_column, duplicate_column}
use mcp_server_for_mysql.Operation.Sql.{is_plain_text}
use mcp_server_for_mysql.Operation.Sql.Build.{IsPiece, IsPiece-literal}
use mcp_server_for_mysql.Sqlguard.Splitter.{is_nil}
use mcp_server_for_mysql.Operation.Validate.Text.{quote-IsPiece, IsPieces}
use mcp_server_for_mysql.Operation.Validate.{quote, quoted_columns, build_columns, build_each}

module _ {A : Type 0} (name_of : A → Bytes) (build : A → Result OperationError Bytes) where
  -- Each text is built from the item in its place, whose name no item before it has.
  pub data IsBuilt : List Bytes → List A → List Bytes → Type 0 where
    nil : {seen : List Bytes} → IsBuilt seen [] []
    cons :
        {seen : List Bytes} {item : A} {items : List A} {text : Bytes} {texts : List Bytes}
        → contains (name_of item) seen ≡ false
        → build item ≡ ok text
        → IsBuilt (name_of item ∷ seen) items texts
        → IsBuilt seen (item ∷ items) (text ∷ texts)

  build_each-step :
      (seen built : List Bytes) (item : A) (items : List A)
      → contains (name_of item) seen ≡ false
      → build_each name_of build seen built (item ∷ items) ≡ (
          build item >>= λ text.
          build_each name_of build (name_of item ∷ seen) (built ++ text ∷ []) items)
  unfolding build_each
  build_each-step seen built item items h = rw h

  build_each-seen :
      (seen built : List Bytes) (item : A) (items : List A)
      → contains (name_of item) seen ≡ true
      → build_each name_of build seen built (item ∷ items) ≡ err (duplicate_column (name_of item))
  unfolding build_each
  build_each-seen seen built item items h = rw h

  build_each-ok :
      (seen built : List Bytes) (items : List A) {out : List Bytes}
      → build_each name_of build seen built items ≡ ok out
      → (texts : List Bytes) × IsBuilt seen items texts × (out ≡ built ++ texts)
  build_each-ok seen built [] e = ([], nil, rw append-nil (unfold build_each in cc))
  build_each-ok seen built (item ∷ items) e = elim (Bool-cases (contains (name_of item) seen)) [
    | inl h ↦ cc (build_each-seen seen built item items h)
    | inr h ↦
        let (text, one, more) =
          >>=-eq-ok (build item)
            (λ text. build_each name_of build (name_of item ∷ seen) (built ++ text ∷ []) items)
            (sym (build_each-step seen built item items h) ∙ e) in
        let (texts, rest, same) =
          build_each-ok (name_of item ∷ seen) (built ++ text ∷ []) items more in
        (text ∷ texts, cons h one rest, same ∙ append_assoc built (text ∷ []) texts)
  ]

  build_each-IsBuilt :
      (seen built : List Bytes) {items : List A} {texts : List Bytes}
      → IsBuilt seen items texts
      → build_each name_of build seen built items ≡ ok (built ++ texts)
  build_each-IsBuilt seen built nil = rw append-nil (unfold build_each in refl)
  build_each-IsBuilt seen built
        (cons {item = item} {items = items} {text = text} {texts = texts} h e b) =
      build_each-step seen built item items h
      ∙ ap (λ r. r >>= λ t. build_each name_of build (name_of item ∷ seen) (built ++ t ∷ []) items)
          e
      ∙ build_each-IsBuilt (name_of item ∷ seen) (built ++ text ∷ []) b
      ∙ ap ok (append_assoc built (text ∷ []) texts)

  -- The loop succeeds exactly when the names are pairwise distinct and every item is built, and
  -- it returns the texts in the order of the items.
  pub build_each_iff :
      (items : List A) (texts : List Bytes)
      → (build_each name_of build [] [] items ≡ ok texts) ↔ IsBuilt [] items texts
  build_each_iff items texts = (
    λ e. let (ts, b, same) = build_each-ok [] [] items e in rw same b,
    λ b. build_each-IsBuilt [] [] b,
  )

  built-All :
      {seen : List Bytes} {items : List A} {texts : List Bytes}
      → ((item : A) → Returns IsPiece (build item))
      → IsBuilt seen items texts
      → All IsPiece texts
  built-All each nil = tt
  built-All each (cons {item} h e b) =
      (Returns-ok IsPiece (build item) (each item) e, built-All each b)

  build_each-IsPieces :
      (items : List A) (r : Result OperationError (List Bytes))
      → ((item : A) → Returns IsPiece (build item))
      → build_each name_of build [] [] items ≡ r
      → items ≢ []
      → Returns IsPieces r
  build_each-IsPieces items (err x) each e ne = tt
  build_each-IsPieces items (ok texts) each e ne =
      some_text items texts ne ((build_each_iff items texts).0 e)
    where
      some_text : (is : List A) (ts : List Bytes) → is ≢ [] → IsBuilt [] is ts → IsPieces ts
      some_text [] ts ne b = absurd (ne refl)
      some_text (i ∷ is) [] ne b = elim b [ ]
      some_text (i ∷ is) (t ∷ ts) ne b = built-All each b

  -- Where each item is built as a piece, a non-empty list of items is built as pieces.
  pub guarded-IsPieces :
      (items : List A)
      → ((item : A) → Returns IsPiece (build item))
      → Returns IsPieces
          (if is_nil items then err no_column else build_each name_of build [] [] items)
  guarded-IsPieces [] each = tt
  guarded-IsPieces (item ∷ items) each = build_each-IsPieces (item ∷ items) _ each refl (λ e. cc)

pub quoted_columns-IsPieces :
    (d : Dialect) (columns : List Bytes) → Returns IsPieces (quoted_columns d columns)
unfolding quoted_columns
quoted_columns-IsPieces d columns =
    guarded-IsPieces (λ column. column) (quote d) columns (quote-IsPiece d)

pub build_columns-IsPieces :
    (d : Dialect) (specs : List ColumnSpec)
    (column : Dialect → ColumnSpec → Result OperationError Bytes)
    → ((spec : ColumnSpec) → Returns IsPiece (column d spec))
    → Returns IsPieces (build_columns d specs column)
unfolding build_columns
build_columns-IsPieces d specs column each =
    guarded-IsPieces (λ (spec : ColumnSpec). spec.name) (column d) specs each

clause-All :
    (clause : Bytes)
    → is_plain_text clause ≡ true
    → (cs : List Bytes) → All IsPiece cs
    → All IsPiece (map (λ c. clause ++ c) cs)
clause-All clause k [] h = tt
clause-All clause k (c ∷ cs) h = (IsPiece-literal clause k h.0, clause-All clause k cs h.1)

-- Each column behind a clause.
pub clause-IsPieces :
    (clause : Bytes)
    → is_plain_text clause ≡ true
    → (cs : List Bytes) → IsPieces cs
    → IsPieces (map (λ c. clause ++ c) cs)
clause-IsPieces clause k [] h = absurd h
clause-IsPieces clause k (c ∷ cs) h = (IsPiece-literal clause k h.0, clause-All clause k cs h.1)
