-- ===== src/Operation/Mysql/Safe.antt =====
-- The statements of the MySQL builder (internal/operation/mysql.go), for the scanner of
-- internal/sqlguard that reads them next.
use mcp_server_for_mysql.Base.{
  Bool, true, false, List, [], ◌∷◌, ◌++◌, ◌≡◌, refl, arith, if◌then◌else◌, Bytes, codes, Result,
  ◌>>=◌, Returns, Returns-bind,
}
use mcp_server_for_mysql.Operation.Model.{
  CreateTableRequest, DropTableRequest, AddColumnsRequest, DropColumnsRequest, ModifyColumnsRequest,
  CreateIndexRequest, DropIndexRequest, RenameTableRequest, CopyTableRequest, OperationError,
}
use mcp_server_for_mysql.Operation.Script.{
  IsStatements, IsSafeBuilder, single, IsScript-Returns, parenthesised,
}
use mcp_server_for_mysql.Operation.Sql.{IsStatement, is_plain_text}
use mcp_server_for_mysql.Operation.Sql.Build.{
  IsPiece, IsPiece-literal, IsPiece-append, IsStatement-literal,
}
use mcp_server_for_mysql.Operation.Validate.Text.{
  quote-IsPiece, IsPieces, join-IsPiece, mysql_column-IsPiece,
}
use mcp_server_for_mysql.Operation.Validate.Columns.{
  quoted_columns-IsPieces, build_columns-IsPieces, clause-IsPieces,
}
use mcp_server_for_mysql.Operation.Validate.{quote, mysql_column}
use mcp_server_for_mysql.Operation.Mysql.{
  dialect, create_table, drop_table, alter_table, add_columns, drop_columns, modify_columns,
  create_index, drop_index, rename_table, copy_table, mysql_builder,
}

-- A quoted name, or a list of columns, and what is made of it.
with_name :
    (n : Bytes) (f : Bytes → Result OperationError (List Bytes))
    → ((q : Bytes) → IsPiece q → Returns IsStatements (f q))
    → Returns IsStatements (quote dialect n >>= f)
with_name n f k = Returns-bind IsPiece IsStatements (quote dialect n) f (quote-IsPiece dialect n) k

with_columns :
    (m : Result OperationError (List Bytes)) (f : List Bytes → Result OperationError (List Bytes))
    → Returns IsPieces m
    → ((cs : List Bytes) → IsPieces cs → Returns IsStatements (f cs))
    → Returns IsStatements (m >>= f)
with_columns m f h k = Returns-bind IsPieces IsStatements m f h k

alter_table-IsStatements :
    (table clause : Bytes) (cs : List Bytes)
    → is_plain_text clause ≡ true
    → IsPiece table
    → IsPieces cs
    → IsStatements (alter_table table clause cs)
alter_table-IsStatements table clause cs k t c = single (
    IsStatement-literal b'A' (codes "LTER TABLE ") (omega arith) refl (
      IsPiece-append t
        (IsPiece-literal (codes " ") refl (join-IsPiece _ (clause-IsPieces clause k cs c))) refl))

create_table-IsStatements : (r : CreateTableRequest) → Returns IsStatements (create_table r)
unfolding create_table
create_table-IsStatements r = with_name r.table _ λ table t.
    with_columns _ _
      (build_columns-IsPieces dialect r.columns mysql_column (mysql_column-IsPiece dialect))
      λ cs c. single (
        IsStatement-literal b'C' (codes "REATE TABLE ") (omega arith) refl (
          IsPiece-append t (IsPiece-literal (codes " (") refl (parenthesised (join-IsPiece cs c)))
            refl))

drop_table-IsStatements : (r : DropTableRequest) → Returns IsStatements (drop_table r)
unfolding drop_table
drop_table-IsStatements r =
    with_name r.table _
      λ table t. single (IsStatement-literal b'D' (codes "ROP TABLE ") (omega arith) refl t)

add_columns-IsStatements : (r : AddColumnsRequest) → Returns IsStatements (add_columns r)
unfolding add_columns
add_columns-IsStatements r = with_name r.table _ λ table t.
    with_columns _ _
      (build_columns-IsPieces dialect r.columns mysql_column (mysql_column-IsPiece dialect))
      λ cs c. alter_table-IsStatements table (codes "ADD COLUMN ") cs refl t c

drop_columns-IsStatements : (r : DropColumnsRequest) → Returns IsStatements (drop_columns r)
unfolding drop_columns
drop_columns-IsStatements r = with_name r.table _ λ table t.
    with_columns _ _ (quoted_columns-IsPieces dialect r.columns)
      λ cs c. alter_table-IsStatements table (codes "DROP COLUMN ") cs refl t c

modify_columns-IsStatements : (r : ModifyColumnsRequest) → Returns IsStatements (modify_columns r)
unfolding modify_columns
modify_columns-IsStatements r = with_name r.table _ λ table t.
    with_columns _ _
      (build_columns-IsPieces dialect r.columns mysql_column (mysql_column-IsPiece dialect))
      λ cs c. alter_table-IsStatements table (codes "MODIFY COLUMN ") cs refl t c

rename_table-IsStatements : (r : RenameTableRequest) → Returns IsStatements (rename_table r)
unfolding rename_table
rename_table-IsStatements r = with_name r.from_table _ λ old o. with_name r.to_table _ λ new n.
    single (
      IsStatement-literal b'R' (codes "ENAME TABLE ") (omega arith) refl
        (IsPiece-append o (IsPiece-literal (codes " TO ") refl n) refl))

index_prefix :
    (unique : Bool) {t : Bytes}
    → IsPiece t
    → IsStatement
        ((if unique then codes "CREATE UNIQUE INDEX" else codes "CREATE INDEX") ++ (codes " " ++ t))
index_prefix true h = IsStatement-literal b'C' (codes "REATE UNIQUE INDEX ") (omega arith) refl h
index_prefix false h = IsStatement-literal b'C' (codes "REATE INDEX ") (omega arith) refl h

create_index-IsStatements : (r : CreateIndexRequest) → Returns IsStatements (create_index r)
unfolding create_index
create_index-IsStatements r = with_name r.table _ λ table t. with_name r.index _ λ index i.
    with_columns _ _ (quoted_columns-IsPieces dialect r.columns) λ cs c. single (
      index_prefix r.unique (
        IsPiece-append i
          (IsPiece-literal (codes " ON ") refl (
            IsPiece-append t (IsPiece-literal (codes " (") refl (parenthesised (join-IsPiece cs c)))
              refl))
          refl))

drop_index-IsStatements : (r : DropIndexRequest) → Returns IsStatements (drop_index r)
unfolding drop_index
drop_index-IsStatements r = with_name r.table _ λ table t. with_name r.index _ λ index i. single (
    IsStatement-literal b'D' (codes "ROP INDEX ") (omega arith) refl
      (IsPiece-append i (IsPiece-literal (codes " ON ") refl t) refl))

copied :
    (with_data : Bool) {create fill : Bytes}
    → IsStatement create
    → IsStatement fill
    → IsStatements (create ∷ (if with_data then fill ∷ [] else []))
copied true c f = (c, (f, tt))
copied false c f = (c, tt)

copy_table-IsStatements : (r : CopyTableRequest) → Returns IsStatements (copy_table r)
unfolding copy_table
copy_table-IsStatements r = with_name r.source _ λ source s.
    with_name r.destination _ λ destination d.
      copied r.with_data
        (IsStatement-literal b'C' (codes "REATE TABLE ") (omega arith) refl
          (IsPiece-append d (IsPiece-literal (codes " LIKE ") refl s) refl))
        (IsStatement-literal b'I' (codes "NSERT INTO ") (omega arith) refl
          (IsPiece-append d (IsPiece-literal (codes " SELECT * FROM ") refl s) refl))

-- Whatever a request holds, the statements that the MySQL builder returns for it, joined by "; ",
-- are split by the scanner into those statements and no others.
pub mysql_builder-IsSafeBuilder : IsSafeBuilder mysql_builder
mysql_builder-IsSafeBuilder = record {
  create_table = λ r. IsScript-Returns _ (create_table-IsStatements r);
  drop_table = λ r. IsScript-Returns _ (drop_table-IsStatements r);
  add_columns = λ r. IsScript-Returns _ (add_columns-IsStatements r);
  drop_columns = λ r. IsScript-Returns _ (drop_columns-IsStatements r);
  modify_columns = λ r. IsScript-Returns _ (modify_columns-IsStatements r);
  create_index = λ r. IsScript-Returns _ (create_index-IsStatements r);
  drop_index = λ r. IsScript-Returns _ (drop_index-IsStatements r);
  rename_table = λ r. IsScript-Returns _ (rename_table-IsStatements r);
  copy_table = λ r. IsScript-Returns _ (copy_table-IsStatements r);
}
