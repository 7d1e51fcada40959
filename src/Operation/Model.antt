-- ===== src/Operation/Model.antt =====
-- internal/operation/model.go
use mcp_server_for_mysql.Base.{Bool, List, Bytes, Result, ℤ}
use mcp_server_for_mysql.Database.Identifier.{IdentifierError}

pub record ColumnSpec : Type 0 where
  pub name : Bytes
  pub kind : Bytes
  pub length : ℤ
  pub precision : ℤ
  pub scale : ℤ
  pub nullable : Bool

pub record CreateTableRequest : Type 0 where
  pub table : Bytes
  pub columns : List ColumnSpec

pub record DropTableRequest : Type 0 where
  pub table : Bytes

pub record AddColumnsRequest : Type 0 where
  pub table : Bytes
  pub columns : List ColumnSpec

pub record DropColumnsRequest : Type 0 where
  pub table : Bytes
  pub columns : List Bytes

pub record ModifyColumnsRequest : Type 0 where
  pub table : Bytes
  pub columns : List ColumnSpec

pub record CreateIndexRequest : Type 0 where
  pub table : Bytes
  pub index : Bytes
  pub columns : List Bytes
  pub unique : Bool

pub record DropIndexRequest : Type 0 where
  pub table : Bytes
  pub index : Bytes

pub record RenameTableRequest : Type 0 where
  pub from_table : Bytes
  pub to_table : Bytes

pub record CopyTableRequest : Type 0 where
  pub source : Bytes
  pub destination : Bytes
  pub with_data : Bool

-- The errors of the builders; those with a text in the source carry what it names.
pub data OperationError : Type 0 where
  identifier : IdentifierError → OperationError
  no_column : OperationError
  duplicate_column : Bytes → OperationError
  dimensions : Bytes → OperationError
  varchar_length : OperationError
  decimal_range : OperationError
  unsupported_kind : Bytes → OperationError
  unsupported_capability : OperationError

-- The interface `Builder`.
pub record Builder : Type 0 where
  pub create_table : CreateTableRequest → Result OperationError (List Bytes)
  pub drop_table : DropTableRequest → Result OperationError (List Bytes)
  pub add_columns : AddColumnsRequest → Result OperationError (List Bytes)
  pub drop_columns : DropColumnsRequest → Result OperationError (List Bytes)
  pub modify_columns : ModifyColumnsRequest → Result OperationError (List Bytes)
  pub create_index : CreateIndexRequest → Result OperationError (List Bytes)
  pub drop_index : DropIndexRequest → Result OperationError (List Bytes)
  pub rename_table : RenameTableRequest → Result OperationError (List Bytes)
  pub copy_table : CopyTableRequest → Result OperationError (List Bytes)
