-- ===== src/Sqlguard/Tests.antt =====
-- Instances of the theorems on internal/sqlguard, at concrete texts and statements.
mod Vocabulary
use mcp_server_for_mysql.Base.{
  inl, inr, true, false, List, [], ◌∷◌, ◌↔◌, ◌≡◌, refl, Bytes, codes, join_by, Result, ok,
}
use mcp_server_for_mysql.Sqlguard.Mysql as Mysql
use mcp_server_for_mysql.Sqlguard.ClickHouse as ClickHouse
use mcp_server_for_mysql.Sqlguard.Mysql.Guard as MysqlGuard
use mcp_server_for_mysql.Sqlguard.ClickHouse.Guard as ClickHouseGuard
use mcp_server_for_mysql.Sqlguard.Model.{
  Statement, write, ddl, read_only, high_risk, make_plan, SqlError,
}
use mcp_server_for_mysql.Sqlguard.Model.Laws.{make_plan_lem}
use mcp_server_for_mysql.Sqlguard.Splitter.{
  split_groups, split_sql_statement_groups, statement_group_has_code,
}
use mcp_server_for_mysql.Sqlguard.Splitter.Grammar.{
  Lexed, last, open_escape, done, cut, piece, code, quoted, single, hash_comment, plain, end,
}
use mcp_server_for_mysql.Sqlguard.Splitter.Grammar.Scan.{split_groups-Lexed}
use mcp_server_for_mysql.Sqlguard.Splitter.Grammar.Code as Code
use mcp_server_for_mysql.Sqlguard.Splitter.Grammar.Code.{
  IsCoded, has_code-IsCoded, trivia, solid, nothing,
}
use mcp_server_for_mysql.Sqlguard.Splitter.Groups.{IsSplit, split_sql_statement_groups_iff}
use mcp_server_for_mysql.Sqlguard.Splitter.Lossless.{semicolon, join_by-split_groups}
use mcp_server_for_mysql.Sqlguard.Analyze.{analyze_text}
use mcp_server_for_mysql.Sqlguard.Analyze.Laws.{IsAnalysis, analyze_text_iff}
use mcp_server_for_mysql.Sqlguard.Examples.{mysql_parser, clickhouse_parser}

quoted_semicolon : Lexed (codes "';';b") (codes "';'" ∷ codes "b" ∷ [])
quoted_semicolon =
    piece (quoted single (codes ";") (plain (λ e. cc) (λ e. cc) end) refl refl) refl
      (cut refl (piece (code b'b' refl refl) refl done))

split_groups-Lexed_example :
    Lexed (codes "';';b") (codes "';'" ∷ codes "b" ∷ [])
    ↔ (split_groups (codes "';';b") ≡ codes "';'" ∷ codes "b" ∷ [])
split_groups-Lexed_example = split_groups-Lexed (codes "';';b") (codes "';'" ∷ codes "b" ∷ [])

quoted_semicolon-split : split_groups (codes "';';b") ≡ codes "';'" ∷ codes "b" ∷ []
quoted_semicolon-split = (split_groups-Lexed _ _).0 quoted_semicolon

-- A lone backslash at the end of an open quote.
lone_backslash : Lexed (b'\'' ∷ b'\\' ∷ []) ((b'\'' ∷ b'\\' ∷ []) ∷ [])
lone_backslash = last (open_escape single [] end refl)

lone_backslash-code : statement_group_has_code (b'\'' ∷ b'\\' ∷ []) ≡ true
lone_backslash-code = (has_code-IsCoded _ _).0 (Code.last (open_escape single [] end refl) refl)

split_sql_statement_groups_iff_example :
    (split_sql_statement_groups (codes "a ; b;") ≡ ok (codes "a" ∷ codes "b" ∷ []))
    ↔ IsSplit (split_groups (codes "a ; b;")) (codes "a" ∷ codes "b" ∷ [])
split_sql_statement_groups_iff_example =
    split_sql_statement_groups_iff (codes "a ; b;") (codes "a" ∷ codes "b" ∷ [])

join_by-split_groups_example : join_by semicolon (split_groups (codes "a;';'")) ≡ codes "a;';'"
join_by-split_groups_example = join_by-split_groups (codes "a;';'")

has_code-IsCoded_example :
    IsCoded (codes " #x\na") true ↔ (statement_group_has_code (codes " #x\na") ≡ true)
has_code-IsCoded_example = has_code-IsCoded (codes " #x\na") true

comment-code : statement_group_has_code (codes " #x\na") ≡ true
comment-code = (has_code-IsCoded _ _).0 (
    trivia {s = codes "#x\na"} (code b' ' refl refl) refl refl (
      trivia {s = codes "a"} (hash_comment (codes "x") b'\n' (refl, tt) refl refl) refl refl
        (solid {s = []} (code b'a' refl refl) refl refl)))

has_code-comment : statement_group_has_code (codes "#x\n") ≡ false
has_code-comment =
    (has_code-IsCoded _ _).0
      (trivia {s = []} (hash_comment (codes "x") b'\n' (refl, tt) refl refl) refl refl nothing)

abbrev drop_statement : Statement
drop_statement = record {
  sql = codes "drop table t";
  normalized_sql = codes "drop table t";
  kind = ddl;
  has_where_clause = false;
  requires_where = false;
}

abbrev update_statement : Statement
update_statement = record drop_statement {
  kind = write;
  has_where_clause = true;
  requires_where = true;
}

make_plan_lem_example : make_plan (update_statement ∷ drop_statement ∷ []) ≡ record {
  statements = update_statement ∷ drop_statement ∷ [];
  risk = high_risk;
  read_only_plan = false;
}
make_plan_lem_example = make_plan_lem (update_statement ∷ drop_statement ∷ [])

abbrev as_update : Bytes → Result SqlError Statement
as_update text = ok (record update_statement { sql = text; normalized_sql = text })

analyze_text_iff_example :
    (analyze_text as_update (codes "u")
      ≡ ok (
          make_plan (record update_statement { sql = codes "u"; normalized_sql = codes "u" } ∷ [])))
    ↔ IsAnalysis as_update
        (codes "u")
        (make_plan (record update_statement { sql = codes "u"; normalized_sql = codes "u" } ∷ []))
analyze_text_iff_example =
    analyze_text_iff as_update (codes "u")
      (make_plan (record update_statement { sql = codes "u"; normalized_sql = codes "u" } ∷ []))

abbrev sleeping : List Mysql.Node
sleeping = Mysql.other_node ∷ Mysql.func_expr (codes "sleep") ∷ []

has_connection_state_function_iff_example :
    (Mysql.has_connection_state_function mysql_parser sleeping ≡ false)
    ↔ MysqlGuard.IsStateless mysql_parser sleeping
has_connection_state_function_iff_example =
    MysqlGuard.has_connection_state_function_iff mysql_parser sleeping

abbrev plain_select : Mysql.SelectStatement (List Mysql.Node)
plain_select = Mysql.select (Mysql.other_node ∷ []) false false

-- A UNION of two such, by the nodes of its own clauses.
abbrev union_of_two : List Mysql.Node → Mysql.Parsed (List Mysql.Node)
union_of_two clauses = Mysql.of_select (Mysql.union clauses false false plain_select plain_select)

-- A UNION whose ORDER BY sleeps is classified as read-only all the same, and is not readable.
sleeping_union-IsKind :
    MysqlGuard.IsKind mysql_parser read_only (codes "SELECT 1") (union_of_two sleeping)
unfolding Mysql.classify Mysql.has_unsafe_select Mysql.has_connection_state_function
    Mysql.visit_node
sleeping_union-IsKind = record { statement = _; classified = refl; of_kind = refl; prints = refl }

sleeping_union-unreadable : ¬ MysqlGuard.IsReadable mysql_parser (union_of_two sleeping)
unfolding Mysql.is_stateful_name
sleeping_union-unreadable r =
    r.2 (Mysql.func_expr (codes "sleep")) (inr (inl refl)) (MysqlGuard.calls (codes "sleep") refl)

abbrev select_item : ClickHouse.Parsed (List ClickHouse.Node)
select_item = ClickHouse.select_query (record {
  select_items = ClickHouse.ident true (codes "a") ∷ [];
  tree = ClickHouse.other_node ∷ [];
})

classify_clickhouse-read_only_example :
    ClickHouseGuard.IsReadable clickhouse_parser select_item
    ↔ ClickHouseGuard.IsKind clickhouse_parser read_only (codes "SELECT a") select_item
classify_clickhouse-read_only_example =
    ClickHouseGuard.classify_clickhouse-read_only clickhouse_parser (codes "SELECT a") select_item
