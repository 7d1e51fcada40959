-- ===== src/Operation/Script.antt =====
-- What a builder of internal/operation promises to its caller, whatever the dialect.
use mcp_server_for_mysql.Base.{
  List, [], ◌∷◌, ◌++◌, ◌≡◌, refl, arith, All, Bytes, codes, join_by, Result, ok, Returns,
  Returns-map,
}
use mcp_server_for_mysql.Operation.Model.{
  CreateTableRequest, DropTableRequest, AddColumnsRequest, DropColumnsRequest, ModifyColumnsRequest,
  CreateIndexRequest, DropIndexRequest, RenameTableRequest, CopyTableRequest, OperationError,
  Builder,
}
use mcp_server_for_mysql.Operation.Sql.{IsStatement, byte, nil, separator}
use mcp_server_for_mysql.Operation.Sql.Build.{IsPiece, IsPiece-append, Ends-byte}
use mcp_server_for_mysql.Operation.Sql.Split.{split-statements}
use mcp_server_for_mysql.Sqlguard.Splitter.{split_sql_statement_groups}

-- The statements, joined by "; ", are split into the same statements.
abbrev pub IsScript : List Bytes → Type 0
IsScript ss = split_sql_statement_groups (join_by separator ss) ≡ ok ss

-- The contract of the interface `Builder`: every result is such a script.
pub record IsSafeBuilder (b : Builder) : Type 0 where
  pub create_table : (r : CreateTableRequest) → Returns IsScript (b.create_table r)
  pub drop_table : (r : DropTableRequest) → Returns IsScript (b.drop_table r)
  pub add_columns : (r : AddColumnsRequest) → Returns IsScript (b.add_columns r)
  pub drop_columns : (r : DropColumnsRequest) → Returns IsScript (b.drop_columns r)
  pub modify_columns : (r : ModifyColumnsRequest) → Returns IsScript (b.modify_columns r)
  pub create_index : (r : CreateIndexRequest) → Returns IsScript (b.create_index r)
  pub drop_index : (r : DropIndexRequest) → Returns IsScript (b.drop_index r)
  pub rename_table : (r : RenameTableRequest) → Returns IsScript (b.rename_table r)
  pub copy_table : (r : CopyTableRequest) → Returns IsScript (b.copy_table r)

-- One or more statements.
abbrev pub IsStatements : List Bytes → Type 0
IsStatements [] = ⊥
IsStatements (s ∷ ss) = IsStatement s × All IsStatement ss

statements-IsScript : (ss : List Bytes) → IsStatements ss → IsScript ss
statements-IsScript [] h = absurd h
statements-IsScript (s ∷ ss) h = split-statements s ss h.0 h.1

pub IsScript-Returns :
    (r : Result OperationError (List Bytes)) → Returns IsStatements r → Returns IsScript r
IsScript-Returns r h = Returns-map IsStatements IsScript r statements-IsScript h

pub single : {s : Bytes} → IsStatement s → IsStatements (s ∷ [])
single h = (h, tt)

pub parenthesis : IsPiece (codes ")")
parenthesis = (byte refl nil, Ends-byte b')' (omega arith))

pub parenthesised : {s : Bytes} → IsPiece s → IsPiece (s ++ codes ")")
parenthesised h = IsPiece-append h parenthesis refl
