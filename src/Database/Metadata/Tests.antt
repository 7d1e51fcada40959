-- ===== src/Database/Metadata/Tests.antt =====
-- Instances of the theorems on the metadata queries, at concrete types, rows and names.
use mcp_server_for_mysql.Base.{
  true, List, [], ◌∷◌, ◌↔◌, none, some, ◌≡◌, Bytes, codes, equal, ok, pos,
}
use mcp_server_for_mysql.Execution.Examples.{driver}
use mcp_server_for_mysql.Database.Metadata.Model.{Scanner}
use mcp_server_for_mysql.Database.Metadata.Mysql as Mysql
use mcp_server_for_mysql.Database.Metadata.ClickHouse as ClickHouse
use mcp_server_for_mysql.Database.Metadata.Sent.{Extends, metadata-Extends}
use mcp_server_for_mysql.Database.Metadata.Nullable.{
  normalize, outer_wrapper, nullable_loop, is_nullable,
}
use mcp_server_for_mysql.Database.Metadata.Nullable.Brackets.{IsWrapper, outer_wrapper_iff}
use mcp_server_for_mysql.Database.Metadata.Nullable.Termination.{IsNullable, is_nullable-IsDecided}
use mcp_server_for_mysql.Database.Metadata.Indexes.{IndexRow, group_rows}
use mcp_server_for_mysql.Database.Metadata.Indexes.Positions.{names_of, find_index, described}
use mcp_server_for_mysql.Database.Metadata.Indexes.Laws.{group_rows_lem}

abbrev nullable_text : Bytes
nullable_text = codes "LowCardinality(Nullable(String))"

is_nullable-IsDecided_example :
    (nullable_loop 33 (outer_wrapper nullable_text) ≡ some (is_nullable nullable_text))
    × ((is_nullable nullable_text ≡ true) ↔ IsNullable nullable_text)
is_nullable-IsDecided_example = is_nullable-IsDecided nullable_text

outer_wrapper_iff_example :
    (outer_wrapper (codes "Array (String)") ≡ some (codes "array", codes "string"))
    ↔ IsWrapper (normalize (codes "Array (String)")) (codes "array") (codes "string")
outer_wrapper_iff_example =
    outer_wrapper_iff (codes "Array (String)") (codes "array") (codes "string")

abbrev row : Bytes → Bytes → IndexRow
row name column = record {
  name = name;
  non_unique = pos 1;
  kind = codes "BTREE";
  column = some column;
  expression = none;
}

abbrev rows : List IndexRow
rows = row (codes "b") (codes "x") ∷ row (codes "a") (codes "y") ∷ row (codes "b") (codes "z") ∷ []

group_rows_lem_example :
    (names_of (group_rows rows) ≡ codes "b" ∷ codes "a" ∷ [])
    × ((name : Bytes) → find_index name (group_rows rows) ≡ described name none rows)
unfolding equal
group_rows_lem_example = group_rows_lem rows

abbrev scanner : Scanner Bytes
scanner = record {
  string_of = λ v. ok (codes "t");
  null_string_of = λ v. ok none;
  int_of = λ v. ok (pos 1);
  wrong_count = codes "wrong count";
  no_rows = codes "no rows";
}

metadata-Extends_example :
    Extends (codes "t") [] (Mysql.list_tables driver scanner []).1
    × Extends (codes "t") [] (Mysql.describe_table driver scanner (codes "t") []).1
    × Extends (codes "t") [] (ClickHouse.list_tables driver scanner []).1
    × Extends (codes "t") [] (ClickHouse.describe_table driver scanner (codes "t") []).1
metadata-Extends_example = metadata-Extends driver scanner (codes "t") []
