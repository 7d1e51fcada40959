-- ===== src/Sqlguard/Analyze.antt =====
-- The method `Analyze` that internal/sqlguard/mysql.go and internal/sqlguard/clickhouse.go spell
-- out alike; `classify_piece` is the part of the loop's body that differs.
pub mod Laws
use mcp_server_for_mysql.Base.{
  ◌||◌, List, [], ◌∷◌, ◌++◌, ltb, if◌then◌else◌, length, Bytes, Result, ok, err, ◌>>=◌,
}
use mcp_server_for_mysql.Sqlguard.Model.{
  SqlError, unsafe_or_unsupported_sql, Statement, Plan, make_plan, default_max_statements,
}
use mcp_server_for_mysql.Sqlguard.Splitter.{split_sql_statement_groups, is_nil}

-- The loop over the pieces: `statements` are those appended so far.
unfoldable pub analyze_pieces :
    (Bytes → Result SqlError Statement) → List Statement → List Bytes → Result SqlError Plan
analyze_pieces classify_piece statements [] = ok (make_plan statements)
analyze_pieces classify_piece statements (piece ∷ pieces) = do
  statement ← classify_piece piece
  analyze_pieces classify_piece (statements ++ statement ∷ []) pieces

unfoldable pub analyze_text : (Bytes → Result SqlError Statement) → Bytes → Result SqlError Plan
analyze_text classify_piece text = elim (split_sql_statement_groups text) [
  | err _ ↦ err unsafe_or_unsupported_sql
  | ok pieces ↦
      if is_nil pieces || ltb default_max_statements (length pieces)
      then err unsafe_or_unsupported_sql
      else analyze_pieces classify_piece [] pieces
]
