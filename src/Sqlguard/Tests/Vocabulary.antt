-- ===== src/Sqlguard/Tests/Vocabulary.antt =====
-- The words that internal/sqlguard/mysql.go and clickhouse.go look for, in any case, and the limit of
-- internal/sqlguard/model.go.
use mcp_server_for_mysql.Base.{
  Bool, true, false, ◌&&◌, List, [], ◌∷◌, ◌≡◌, refl, Bytes, codes, equal,
}
use mcp_server_for_mysql.Sqlguard.Model.{default_max_statements}
use mcp_server_for_mysql.Sqlguard.Mysql.{is_stateful_name}
use mcp_server_for_mysql.Sqlguard.ClickHouse.{is_clause_word}

abbrev every : (Bytes → Bool) → List Bytes → Bool
every f [] = true
every f (w ∷ ws) = f w && every f ws

stateful_names :
    every is_stateful_name (
      codes "get_lock"
      ∷ codes "Release_Lock"
      ∷ codes "is_free_lock"
      ∷ codes "is_used_lock"
      ∷ codes "sleep"
      ∷ codes "Benchmark"
      ∷ codes "last_insert_id"
      ∷ codes "load_file"
      ∷ codes "master_pos_wait"
      ∷ codes "wait_for_executed_gtid_set"
      ∷ codes "wait_until_sql_thread_after_gtids"
      ∷ [])
    ≡ true
unfolding is_stateful_name equal
stateful_names = refl

plain_name : is_stateful_name (codes "COUNT") ≡ false
unfolding is_stateful_name equal
plain_name = refl

longer_name : is_stateful_name (codes "SLEEPS") ≡ false
unfolding is_stateful_name equal
longer_name = refl

clause_words :
    every is_clause_word (
      codes "from"
      ∷ codes "Where"
      ∷ codes "prewhere"
      ∷ codes "group"
      ∷ codes "having"
      ∷ codes "order"
      ∷ codes "limit"
      ∷ codes "settings"
      ∷ codes "format"
      ∷ codes "union"
      ∷ codes "except"
      ∷ codes "intersect"
      ∷ codes "into"
      ∷ [])
    ≡ true
unfolding is_clause_word equal
clause_words = refl

plain_column : is_clause_word (codes "format_id") ≡ false
unfolding is_clause_word equal
plain_column = refl

statement_limit : default_max_statements ≡ 50
statement_limit = refl
