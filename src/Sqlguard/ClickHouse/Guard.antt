-- ===== src/Sqlguard/ClickHouse/Guard.antt =====
-- What internal/sqlguard/clickhouse.go lets through as read-only.
use mcp_server_for_mysql.Base.{
  Bool, true, false, not, List, [], ◌∷◌, ◌≢◌, ◌↔◌, ◌≡◌, refl, arith, if◌then◌else◌, All, Bytes, ok,
}
use mcp_server_for_mysql.Sqlguard.Model.{StatementKind, read_only, Statement}
use mcp_server_for_mysql.Sqlguard.Splitter.{is_nil}
use mcp_server_for_mysql.Sqlguard.ClickHouse.{
  SelectItem, SelectQuery, Parsed, select_query, explain_stmt, Node, table_function_expr,
  other_node, Parser, is_clause_item, no_clause_item, not_table_function, has_table_function,
  valid_select, statement_of, classify,
}

-- An item that is not the bare name of a clause.
abbrev pub IsItem : SelectItem → Type 0
IsItem item = is_clause_item item ≡ false

items-All : (items : List SelectItem) → (no_clause_item items ≡ true) ↔ All IsItem items
unfolding no_clause_item
items-All [] = (λ h. tt, λ h. refl)
items-All (item ∷ items) =
    (λ h. ground (arith, items-All items), λ h. ground (arith, items-All items))

tests :
    (a b c : Bool)
    → (if a then false else if b then false else c) ≡ true
    → (a ≡ false) × (b ≡ false) × (c ≡ true)
tests a b c h = ground arith

is_nil_iff : (items : List SelectItem) → (is_nil items ≡ false) ↔ (items ≢ [])
is_nil_iff [] = (λ h. cc, λ h. absurd (h refl))
is_nil_iff (item ∷ items) = (λ h. ground arith, λ h. refl)

module _ (v : Parser) where
  -- At least one item, no bare clause word among them, and no table function in the query.
  pub record IsSafeQuery (query : SelectQuery v.Tree) : Type 0 where
    pub some_item : query.select_items ≢ []
    pub items : All IsItem query.select_items
    pub no_table_function : ¬ v.Within table_function_expr query.tree

  walk-none :
      (query : SelectQuery v.Tree)
      → (has_table_function v query ≡ false) ↔ (¬ v.Within table_function_expr query.tree)
  unfolding has_table_function
  walk-none query = (to, from)
    where
      all :
          (¬ v.Within table_function_expr query.tree)
          → (n : Node) → v.Within n query.tree
          → not_table_function n ≡ true
      all h table_function_expr w = absurd (h w)
      all h other_node w = refl

      to :
          not (v.walk query.tree not_table_function) ≡ false
          → ¬ v.Within table_function_expr query.tree
      to h w =
          cc ((v.walk_true query.tree not_table_function).0 (ground arith) table_function_expr w)

      from :
          (¬ v.Within table_function_expr query.tree)
          → not (v.walk query.tree not_table_function) ≡ false
      from h = rw ((v.walk_true query.tree not_table_function).1 (all h))

  valid_select_iff :
      (query : SelectQuery v.Tree) → (valid_select v query ≡ true) ↔ IsSafeQuery query
  unfolding valid_select
  valid_select_iff query = (
    λ h.
        let (filled, clean, each) =
          tests (is_nil query.select_items) (has_table_function v query)
            (no_clause_item query.select_items) h in
        record {
          some_item = (is_nil_iff query.select_items).0 filled;
          items = (items-All query.select_items).0 each;
          no_table_function = (walk-none query).0 clean;
        },
    λ s.
        rw ((is_nil_iff query.select_items).1 s.some_item, (walk-none query).1 s.no_table_function)
          ((items-All query.select_items).1 s.items),
  )

  abbrev pub IsReadable : Parsed v.Tree → Type 0
  IsReadable (select_query query) = IsSafeQuery query
  IsReadable (explain_stmt (select_query query)) = IsSafeQuery query
  IsReadable _ = ⊥

  pub record IsKind (kind : StatementKind) (raw : Bytes) (stmt : Parsed v.Tree) : Type 0 where
    pub statement : Statement
    pub classified : classify v raw stmt ≡ ok statement
    pub of_kind : statement.kind ≡ kind
    pub prints : statement.normalized_sql ≡ v.format stmt

  classify-IsKind :
      (raw : Bytes) (stmt : Parsed v.Tree) → IsReadable stmt → IsKind read_only raw stmt
  unfolding classify
  classify-IsKind raw (select_query query) h = record {
    statement = statement_of v raw (select_query query) read_only false false;
    classified = rw ((valid_select_iff query).1 h);
    of_kind = refl;
    prints = refl;
  }
  classify-IsKind raw (explain_stmt (select_query query)) h = record {
    statement = statement_of v raw (explain_stmt (select_query query)) read_only false false;
    classified = rw ((valid_select_iff query).1 h);
    of_kind = refl;
    prints = refl;
  }
  classify-IsKind raw _ h = absurd h

  classify-IsReadable :
      (raw : Bytes) (stmt : Parsed v.Tree) (s : Statement)
      → classify v raw stmt ≡ ok s
      → s.kind ≡ read_only
      → IsReadable stmt
  unfolding classify
  classify-IsReadable raw (select_query query) s h k = (valid_select_iff query).0 (ground arith)
  classify-IsReadable raw (explain_stmt (select_query query)) s h k =
      (valid_select_iff query).0 (ground arith)
  classify-IsReadable raw _ s h k = ground arith

  -- A statement is classified as read-only exactly when it is, or explains, a SELECT with items, no
  -- bare clause word among them and no table function anywhere in it.
  pub classify_clickhouse-read_only :
      (raw : Bytes) (stmt : Parsed v.Tree) → IsReadable stmt ↔ IsKind read_only raw stmt
  classify_clickhouse-read_only raw stmt = (
    classify-IsKind raw stmt,
    λ k. classify-IsReadable raw stmt k.statement k.classified k.of_kind,
  )
