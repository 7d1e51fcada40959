-- ===== src/Sqlguard/Mysql.antt =====
-- internal/sqlguard/mysql.go. The vitess parser is a parameter; of its syntax tree the types below
-- hold what the code reads: a constructor for each case of a type switch, `Bool` for a test
-- against nil, `NoLock` or a flag, and the rest of a tree as an abstract `Tree` that is walked.
pub mod Guard
use mcp_server_for_mysql.Base.{
  Bool, true, false, not, ◌||◌, List, [], ◌∷◌, Option, none, some, ◌≡◌, if◌then◌else◌, Bytes, codes,
  equal, contains, Result, ok, err,
}
use mcp_server_for_mysql.Sqlguard.Model.{
  StatementKind, read_only, write, ddl, session, SqlError, unsafe_or_unsupported_sql, Statement,
  Plan, make_plan, default_max_statements,
}
use mcp_server_for_mysql.Sqlguard.Splitter.{split_sql_statement_groups, is_nil}
use mcp_server_for_mysql.Sqlguard.Analyze.{analyze_text}
use mcp_server_for_mysql.Sqlguard.Words.{to_upper}

pub data GtidType : Type 0 where
  wait_for_executed_gtid_set wait_until_sql_thread_after_gtids : GtidType
  other_gtid : GtidType

-- A node of the tree, by the type switch of `hasMySQLConnectionStateFunction`.
pub data Node : Type 0 where
  assignment_expr locking_func other_node : Node
  gtid_func_expr : GtidType → Node
  func_expr : Bytes → Node

-- `Union` has clauses of its own (WITH, ORDER BY, LIMIT), which the code does not read.
pub data SelectStatement (Tree : Type 0) : Type 0 where
  select : Tree → (into lock : Bool) → SelectStatement Tree
  union :
      Tree → (into lock : Bool) → SelectStatement Tree → SelectStatement Tree → SelectStatement Tree
  other_select : SelectStatement Tree

pub data Parsed (Tree : Type 0) : Type 0 where
  of_select : SelectStatement Tree → Parsed Tree
  explain_stmt : (analyze : Bool) → Parsed Tree → Parsed Tree
  insert : Parsed Tree
  update : (has_with has_where : Bool) → Parsed Tree
  delete : (has_with has_where : Bool) → Parsed Tree
  ddl_statement : (fully_parsed : Bool) → Parsed Tree
  db_ddl_statement : (fully_parsed : Bool) → Parsed Tree
  comment_only set use_stmt begin commit rollback srollback savepoint release : Parsed Tree
  other_statement : Parsed Tree

-- vitess.io/vitess/go/vt/sqlparser. `Walk` calls the visitor on nodes of the tree only, and it
-- comes to every node unless the visitor returned false at some node before.
pub record Parser : Type 1 where
  pub Tree : Type 0
  pub Within : Node → Tree → Type 0
  pub walk : (Node → Bool → Bool × Bool) → Tree → Bool → Bool
  pub walk_visits :
      (visit : Node → Bool → Bool × Bool) (t : Tree) (P : Bool → Type 0)
      → ((n : Node) (s : Bool) → Within n t → P s → P (visit n s).1)
      → (s : Bool) → P s
      → P (walk visit t s)
  pub walk_reaches :
      (visit : Node → Bool → Bool × Bool) (t : Tree) (n : Node) (P : Bool → Type 0)
      → Within n t
      → ((m : Node) (s : Bool) → P s → P (visit m s).1)
      → ((m : Node) (s : Bool) → (visit m s).0 ≡ false → P (visit m s).1)
      → ((s : Bool) → P (visit n s).1)
      → (s : Bool) → P (walk visit t s)
  pub parse_strict_ddl : Bytes → Option (Parsed Tree)
  pub string : Parsed Tree → Bytes

abbrev stateful_functions : List Bytes
stateful_functions =
    codes "GET_LOCK"
    ∷ codes "RELEASE_LOCK"
    ∷ codes "IS_FREE_LOCK"
    ∷ codes "IS_USED_LOCK"
    ∷ codes "SLEEP"
    ∷ codes "BENCHMARK"
    ∷ codes "LAST_INSERT_ID"
    ∷ codes "LOAD_FILE"
    ∷ codes "MASTER_POS_WAIT"
    ∷ codes "WAIT_FOR_EXECUTED_GTID_SET"
    ∷ codes "WAIT_UNTIL_SQL_THREAD_AFTER_GTIDS"
    ∷ []

unfoldable pub is_stateful_name : Bytes → Bool
unfolding to_upper equal
is_stateful_name name = contains (to_upper name) stateful_functions

-- The visitor: whether to go on below the node, and the new value of `unsafe`.
unfoldable pub visit_node : Node → Bool → Bool × Bool
visit_node assignment_expr unsafe = (false, true)
visit_node (gtid_func_expr wait_for_executed_gtid_set) unsafe = (false, true)
visit_node (gtid_func_expr wait_until_sql_thread_after_gtids) unsafe = (false, true)
visit_node (gtid_func_expr other_gtid) unsafe = (true, unsafe)
visit_node locking_func unsafe = (false, true)
visit_node (func_expr name) unsafe = if is_stateful_name name then (false, true) else (true, unsafe)
visit_node other_node unsafe = (true, unsafe)

unsafe_sql {ℓ} : {A : Type ℓ} → Result SqlError A
unsafe_sql = err unsafe_or_unsupported_sql

module _ (v : Parser) where
  -- `hasMySQLConnectionStateFunction`
  unfoldable pub has_connection_state_function : v.Tree → Bool
  has_connection_state_function t = v.walk visit_node t false

  unfoldable pub has_unsafe_select : SelectStatement v.Tree → Bool
  has_unsafe_select (select t into lock) = into || lock || has_connection_state_function t
  has_unsafe_select (union t into lock left right) =
      into || lock || has_unsafe_select left || has_unsafe_select right
  has_unsafe_select other_select = true

  -- `isSafeMySQLExplain`
  unfoldable pub is_safe_explain : Parsed v.Tree → Bool
  is_safe_explain (of_select (select t into lock)) = not (has_unsafe_select (select t into lock))
  is_safe_explain (of_select (union t into lock left right)) =
      not (has_unsafe_select (union t into lock left right))
  is_safe_explain _ = false

  abbrev statement_of :
      Bytes → Parsed v.Tree → StatementKind → (has_where requires : Bool) → Statement
  statement_of raw stmt kind has_where requires = record {
    sql = raw;
    normalized_sql = v.string stmt;
    kind = kind;
    has_where_clause = has_where;
    requires_where = requires;
  }

  -- `classifyMySQLStatement`
  unfoldable pub classify : Bytes → Parsed v.Tree → Result SqlError Statement
  unfolding unsafe_sql
  classify raw (of_select other_select) = unsafe_sql
  classify raw (of_select (select t into lock)) =
      if has_unsafe_select (select t into lock)
      then unsafe_sql
      else ok (statement_of raw (of_select (select t into lock)) read_only false false)
  classify raw (of_select (union t into lock left right)) =
      if has_unsafe_select (union t into lock left right)
      then unsafe_sql
      else ok (statement_of raw (of_select (union t into lock left right)) read_only false false)
  classify raw (explain_stmt analyze stmt) =
      if analyze || not (is_safe_explain stmt)
      then unsafe_sql
      else ok (statement_of raw (explain_stmt analyze stmt) read_only false false)
  classify raw insert = ok (statement_of raw insert write false false)
  classify raw (update has_with has_where) =
      if has_with
      then unsafe_sql
      else ok (statement_of raw (update has_with has_where) write has_where true)
  classify raw (delete has_with has_where) =
      if has_with
      then unsafe_sql
      else ok (statement_of raw (delete has_with has_where) write has_where true)
  classify raw (ddl_statement fully_parsed) =
      if not fully_parsed
      then unsafe_sql
      else ok (statement_of raw (ddl_statement fully_parsed) ddl false false)
  classify raw (db_ddl_statement fully_parsed) =
      if not fully_parsed
      then unsafe_sql
      else ok (statement_of raw (db_ddl_statement fully_parsed) ddl false false)
  classify raw _ = unsafe_sql

  -- The body of the loop of `Analyze`, on one piece.
  unfoldable pub analyze_piece : Bytes → Result SqlError Statement
  unfolding unsafe_sql
  analyze_piece piece = elim (v.parse_strict_ddl piece) [
    | none ↦ unsafe_sql
    | some stmt ↦ classify piece stmt
  ]

  -- `mysqlAnalyzer.Analyze`
  unfoldable pub analyze : Bytes → Result SqlError Plan
  unfolding analyze_text
  analyze = analyze_text analyze_piece

abbrev pub default_mysql_server_version : Bytes
default_mysql_server_version = codes "8.0.0"

-- `NewMySQLAnalyzer`, over `sqlparser.New`, which fails on a version that it cannot read.
unfoldable pub new_mysql_analyzer :
    (Bytes → Option Parser) → Bytes → Option (Bytes → Result SqlError Plan)
new_mysql_analyzer new server_version =
    let version = if is_nil server_version then default_mysql_server_version else server_version in
    elim (new version) [ none ↦ none | some v ↦ some (analyze v) ]
