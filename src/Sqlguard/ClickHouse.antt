-- ===== src/Sqlguard/ClickHouse.antt =====
-- internal/sqlguard/clickhouse.go. The ClickHouse parser is a parameter; the types below hold what
-- the code reads of its syntax tree, as for MySQL.
pub mod Guard
use mcp_server_for_mysql.Base.{
  Bool, true, false, not, ◌&&◌, List, [], ◌∷◌, ◌↔◌, Option, some, ◌≡◌, if◌then◌else◌, Bytes, codes,
  equal, contains, Result, ok, err,
}
use mcp_server_for_mysql.Sqlguard.Model.{
  StatementKind, read_only, write, ddl, session, SqlError, unsafe_or_unsupported_sql, Statement,
  Plan,
}
use mcp_server_for_mysql.Sqlguard.Analyze.{analyze_text}
use mcp_server_for_mysql.Sqlguard.Splitter.{is_nil}
use mcp_server_for_mysql.Sqlguard.Words.{to_upper}

-- The expression of a select item: an identifier with its name, or anything else.
pub data SelectItem : Type 0 where
  ident : (unquoted : Bool) → Bytes → SelectItem
  other_item : SelectItem

pub record SelectQuery (Tree : Type 0) : Type 0 where
  pub select_items : List SelectItem
  pub tree : Tree

pub data Parsed (Tree : Type 0) : Type 0 where
  select_query : SelectQuery Tree → Parsed Tree
  explain_stmt : Parsed Tree → Parsed Tree
  insert_stmt : Parsed Tree
  delete_clause : (has_where : Bool) → Parsed Tree
  alter_table : Parsed Tree
  create_database create_table create_materialized_view create_view create_function : Parsed Tree
  create_role create_user create_live_view create_dictionary : Parsed Tree
  create_named_collection alter_role drop_database drop_stmt drop_user_or_role : Parsed Tree
  truncate_table rename_stmt : Parsed Tree
  set_stmt use_stmt other_stmt : Parsed Tree

-- A node of the tree, by the type assertion of `hasClickHouseTableFunction`.
pub data Node : Type 0 where
  table_function_expr other_node : Node

-- github.com/AfterShip/clickhouse-sql-parser. `Walk` reports whether its function returned true at
-- every node of the tree.
pub record Parser : Type 1 where
  pub Tree : Type 0
  pub Within : Node → Tree → Type 0
  pub walk : Tree → (Node → Bool) → Bool
  pub walk_true :
      (t : Tree) (f : Node → Bool) → (walk t f ≡ true) ↔ ((n : Node) → Within n t → f n ≡ true)
  pub parse_stmts : Bytes → Option (List (Parsed Tree))
  pub format : Parsed Tree → Bytes

abbrev clause_words : List Bytes
clause_words =
    codes "FROM"
    ∷ codes "WHERE"
    ∷ codes "PREWHERE"
    ∷ codes "GROUP"
    ∷ codes "HAVING"
    ∷ codes "ORDER"
    ∷ codes "LIMIT"
    ∷ codes "SETTINGS"
    ∷ codes "FORMAT"
    ∷ codes "UNION"
    ∷ codes "EXCEPT"
    ∷ codes "INTERSECT"
    ∷ codes "INTO"
    ∷ []

unfoldable pub is_clause_word : Bytes → Bool
unfolding to_upper equal
is_clause_word name = contains (to_upper name) clause_words

abbrev pub is_clause_item : SelectItem → Bool
is_clause_item (ident unquoted name) = unquoted && is_clause_word name
is_clause_item other_item = false

-- The loop over the items of `validClickHouseSelect`.
unfoldable pub no_clause_item : List SelectItem → Bool
no_clause_item [] = true
no_clause_item (item ∷ items) = if is_clause_item item then false else no_clause_item items

abbrev pub not_table_function : Node → Bool
not_table_function table_function_expr = false
not_table_function other_node = true

unsafe_sql {ℓ} : {A : Type ℓ} → Result SqlError A
unsafe_sql = err unsafe_or_unsupported_sql

module _ (v : Parser) where
  -- `hasClickHouseTableFunction`
  unfoldable pub has_table_function : SelectQuery v.Tree → Bool
  has_table_function query = not (v.walk query.tree not_table_function)

  -- `validClickHouseSelect`
  unfoldable pub valid_select : SelectQuery v.Tree → Bool
  valid_select query =
      if is_nil query.select_items
      then false
      else if has_table_function query
      then false
      else no_clause_item query.select_items

  abbrev statement_of :
      Bytes → Parsed v.Tree → StatementKind → (has_where requires : Bool) → Statement
  statement_of raw stmt kind has_where requires = record {
    sql = raw;
    normalized_sql = v.format stmt;
    kind = kind;
    has_where_clause = has_where;
    requires_where = requires;
  }

  abbrev ddl_of : Bytes → Parsed v.Tree → Result SqlError Statement
  ddl_of raw stmt = ok (statement_of raw stmt ddl false false)

  -- `classifyClickHouseStatement`
  unfoldable pub classify : Bytes → Parsed v.Tree → Result SqlError Statement
  unfolding unsafe_sql
  classify raw (select_query query) =
      if not (valid_select query)
      then unsafe_sql
      else ok (statement_of raw (select_query query) read_only false false)
  classify raw (explain_stmt (select_query query)) =
      if not (valid_select query)
      then unsafe_sql
      else ok (statement_of raw (explain_stmt (select_query query)) read_only false false)
  classify raw (explain_stmt _) = unsafe_sql
  classify raw insert_stmt = ok (statement_of raw insert_stmt write false false)
  classify raw (delete_clause has_where) =
      ok (statement_of raw (delete_clause has_where) write has_where true)
  classify raw alter_table = ddl_of raw alter_table
  classify raw create_database = ddl_of raw create_database
  classify raw create_table = ddl_of raw create_table
  classify raw create_materialized_view = ddl_of raw create_materialized_view
  classify raw create_view = ddl_of raw create_view
  classify raw create_function = ddl_of raw create_function
  classify raw create_role = ddl_of raw create_role
  classify raw create_user = ddl_of raw create_user
  classify raw create_live_view = ddl_of raw create_live_view
  classify raw create_dictionary = ddl_of raw create_dictionary
  classify raw create_named_collection = ddl_of raw create_named_collection
  classify raw alter_role = ddl_of raw alter_role
  classify raw drop_database = ddl_of raw drop_database
  classify raw drop_stmt = ddl_of raw drop_stmt
  classify raw drop_user_or_role = ddl_of raw drop_user_or_role
  classify raw truncate_table = ddl_of raw truncate_table
  classify raw rename_stmt = ddl_of raw rename_stmt
  classify raw set_stmt = unsafe_sql
  classify raw use_stmt = unsafe_sql
  classify raw other_stmt = unsafe_sql

  -- `err != nil || len(parsed) != 1`, and the classification of `parsed[0]`.
  abbrev classify_only : Bytes → Option (List (Parsed v.Tree)) → Result SqlError Statement
  classify_only piece (some (stmt ∷ [])) = classify piece stmt
  classify_only piece _ = err unsafe_or_unsupported_sql

  -- The body of the loop of `Analyze`, on one piece.
  unfoldable pub analyze_piece : Bytes → Result SqlError Statement
  analyze_piece piece = classify_only piece (v.parse_stmts piece)

  -- `clickHouseAnalyzer.Analyze`
  unfoldable pub analyze : Bytes → Result SqlError Plan
  unfolding analyze_text
  analyze = analyze_text analyze_piece
