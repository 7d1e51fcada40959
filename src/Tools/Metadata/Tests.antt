-- ===== src/Tools/Metadata/Tests.antt =====
-- Instances of the theorems on the metadata tools, at a driver with one table.
use mcp_server_for_mysql.Base.{
  true, List, [], ◌∷◌, ◌⊎◌, none, some, ◌≡◌, refl, if◌then◌else◌, Bytes, codes, equal, trim_space,
  Result, ok, err, ℤ, pos,
}
use mcp_server_for_mysql.Database.Metadata.Model.{Index, TableDescription, Scanner, describe_with}
use mcp_server_for_mysql.Database.Metadata.Sent.{Extends}
use mcp_server_for_mysql.Database.Metadata.Mysql.{
  index_expression_support_query, columns_query, mysql_columns, mysql_indexes,
}
use mcp_server_for_mysql.Database.Registry.{lookup_source}
use mcp_server_for_mysql.Database.Identifier.{validate_identifier}
use mcp_server_for_mysql.Execution.Value.{Value, null, string, integer}
use mcp_server_for_mysql.Execution.Driver.{Driver, Log}
use mcp_server_for_mysql.Execution.Examples.{driver}
use mcp_server_for_mysql.Tools.Examples.{service, env, meta}
use mcp_server_for_mysql.Tools.Model.{
  ErrorCode, execution, Env, Reply, other_error, indexes_data, description_data,
}
use mcp_server_for_mysql.Tools.Service.{fail, source_for, request_id}
use mcp_server_for_mysql.Tools.Metadata.{
  TableInput, data_reply, describe_table_tool, list_indexes_tool,
}
use mcp_server_for_mysql.Tools.Metadata.Laws.{list_indexes_tool_lem, describe_table_tool-refused}

abbrev index_row : Bytes → Result Bytes (List Value)
index_row column =
    ok (string (codes "key") ∷ integer (pos 0) ∷ string (codes "BTREE") ∷ string column ∷ null ∷ [])

-- A driver that answers the metadata queries: one column and one index of two columns.
abbrev metadata_driver : Driver
metadata_driver = record {
  Error = Bytes;
  begin_tx = driver.begin_tx;
  exec_context = driver.exec_context;
  commit_tx = driver.commit_tx;
  rollback_tx = driver.rollback_tx;
  query_context = λ log sql args. ok (record {
    columns = ok [];
    rows =
        if equal sql index_expression_support_query
        then ok (integer (pos 1) ∷ []) ∷ []
        else if equal sql columns_query
        then ok (
            string (codes "id")
            ∷ string (codes "int")
            ∷ string (codes "NO")
            ∷ null
            ∷ string []
            ∷ integer (pos 1)
            ∷ [])
          ∷ []
        else index_row (codes "id") ∷ index_row (codes "at") ∷ [];
    rows_error = none;
  });
}

abbrev scanner : Scanner Bytes
scanner = record {
  string_of = λ v. elim v [ string s ↦ ok s | _ ↦ err (codes "no string") ];
  null_string_of =
      λ v. elim v [ string s ↦ ok (some s) | null ↦ ok none | _ ↦ err (codes "no string") ];
  int_of = λ v. elim v [ integer n ↦ ok n | _ ↦ err (codes "no integer") ];
  wrong_count = codes "wrong count";
  no_rows = codes "no rows";
}

abbrev metadata_env : Env
metadata_env = record env { driver = metadata_driver; error_kind = λ e. other_error }

abbrev table_input : Bytes → TableInput
table_input table = record { meta = meta; table = table }

abbrev pool_stats : Log → List ℤ
pool_stats log = pos 0 ∷ []

abbrev key_index : Index
key_index = record {
  name = codes "key";
  kind = codes "BTREE";
  columns = codes "id" ∷ codes "at" ∷ [];
  expression = [];
  unique = true;
}

lists_one_index :
    (list_indexes_tool metadata_env scanner pool_stats service
      (table_input (codes "t"))
      []).response.data_value
    ≡ some (indexes_data (key_index ∷ []))
unfolding list_indexes_tool source_for trim_space lookup_source equal describe_with mysql_columns
    mysql_indexes
lists_one_index = refl

abbrev listed : Reply
listed = list_indexes_tool metadata_env scanner pool_stats service (table_input (codes "t")) []

abbrev described : Reply
described = describe_table_tool metadata_env scanner pool_stats service (table_input (codes "t")) []

list_indexes_tool_lem_example :
    Extends (codes "t") [] listed.log
    × (((code : ErrorCode) × (described.failure ≡ some code) × (listed ≡ described))
        ⊎ ((t : TableDescription) × (later : Log) × (described
              ≡ data_reply metadata_env scanner pool_stats
                  (request_id metadata_env (codes "r"))
                  (description_data t)
                  later)
            × (listed
                ≡ data_reply metadata_env scanner pool_stats
                    (request_id metadata_env (codes "r"))
                    (indexes_data t.indexes)
                    later)))
list_indexes_tool_lem_example =
    list_indexes_tool_lem metadata_env scanner pool_stats service (table_input (codes "t")) []

refuses_a_statement :
    describe_table_tool metadata_env scanner pool_stats service (table_input (codes "t; DROP")) []
    ≡ fail (request_id metadata_env (codes "r")) execution []
unfolding source_for trim_space lookup_source equal validate_identifier
refuses_a_statement =
    describe_table_tool-refused metadata_env scanner pool_stats service
      (table_input (codes "t; DROP")) [] refl refl
