-- ===== src/Sqlguard/Splitter/Tests.antt =====
-- Runs of the splitter and instances of its theorems.
use mcp_server_for_mysql.Base.{◌≡◌, refl, [], ◌∷◌, codes, equal, ok, err}
use mcp_server_for_mysql.Sqlguard.Splitter.{split_sql_statement_groups, invalid_statement_groups}

split_two :
    split_sql_statement_groups (codes "SELECT ';' ; DROP TABLE t -- x;y\n ; ")
    ≡ ok (codes "SELECT ';'" ∷ codes "DROP TABLE t -- x;y" ∷ [])
unfolding split_sql_statement_groups equal
split_two = refl

split_empty : split_sql_statement_groups (codes " ; SELECT 1") ≡ err invalid_statement_groups
unfolding split_sql_statement_groups equal
split_empty = refl

-- The `*` that opens a comment may also close it.
split_short_comment :
    split_sql_statement_groups (codes "/*/ a; b */") ≡ ok (codes "/*/ a" ∷ codes "b */" ∷ [])
unfolding split_sql_statement_groups equal
split_short_comment = refl
