-- ===== src/Tools/Mcp/Inputs.antt =====
-- The input types of internal/tools/input.go, with `ColumnSpec` of internal/operation/model.go, as
-- `reflect` shows them to the schemas, and the list of the tools.
use mcp_server_for_mysql.Base.{true, false, List, [], ◌∷◌, map, ◌≡◌, refl, Bytes, codes}
use mcp_server_for_mysql.Tools.Mcp.Schema.{
  GoType, string_type, bool_type, int_type, other_type, slice_type, struct_type, GoFields,
  no_fields, go_field,
}
use mcp_server_for_mysql.Tools.Mcp.Call.{
  Tool, list_sources_tool, list_tables_of, describe_table, query_tool, execute_sql_of, create_table,
  drop_table, add_columns, drop_columns, modify_columns, create_index, drop_index, list_indexes,
  rename_table, copy_table, copy_table_structure, migrate_of, pool_status_of, tool_name,
}

-- An exported field with a tag.
abbrev field : Bytes → GoType → GoFields → GoFields
field tag t fs = go_field true false tag t fs

abbrev pub request_meta_type : GoType
request_meta_type = struct_type (
    field (codes "source_id") string_type (
      field (codes "confirm,omitempty") bool_type (
        field (codes "preview_hash,omitempty") string_type
          (field (codes "request_id,omitempty") string_type no_fields))))

-- A type that embeds `RequestMeta`.
abbrev with_meta : GoFields → GoType
with_meta fs = struct_type (go_field true true [] request_meta_type fs)

abbrev pub column_spec_type : GoType
column_spec_type = struct_type (
    field (codes "name") string_type (
      field (codes "kind") string_type (
        field (codes "length,omitempty") int_type (
          field (codes "precision,omitempty") int_type (
            field (codes "scale,omitempty") int_type
              (field (codes "nullable") bool_type no_fields))))))

abbrev table_field : GoFields → GoFields
table_field fs = field (codes "table") string_type fs

abbrev sql_type : GoType
sql_type = with_meta (
    field (codes "sql") string_type
      (field (codes "parameters,omitempty") (slice_type other_type) no_fields))

abbrev columns_type : GoType
columns_type =
    with_meta (table_field (field (codes "columns") (slice_type column_spec_type) no_fields))

abbrev copy_type : GoType
copy_type = with_meta (
    field (codes "source_table") string_type (
      field (codes "destination_table") string_type
        (field (codes "with_data") bool_type no_fields)))

-- The type of the input of each tool.
abbrev pub input_type : Tool → GoType
input_type list_sources_tool =
    struct_type (field (codes "request_id,omitempty") string_type no_fields)
input_type list_tables_of = request_meta_type
input_type describe_table = with_meta (table_field no_fields)
input_type query_tool = sql_type
input_type execute_sql_of = sql_type
input_type create_table = columns_type
input_type drop_table = with_meta (table_field no_fields)
input_type add_columns = columns_type
input_type drop_columns =
    with_meta (table_field (field (codes "columns") (slice_type string_type) no_fields))
input_type modify_columns = columns_type
input_type create_index = with_meta (
    table_field (
      field (codes "index") string_type (
        field (codes "columns") (slice_type string_type)
          (field (codes "unique") bool_type no_fields))))
input_type drop_index = with_meta (table_field (field (codes "index") string_type no_fields))
input_type list_indexes = with_meta (table_field no_fields)
input_type rename_table =
    with_meta (field (codes "from") string_type (field (codes "to") string_type no_fields))
input_type copy_table = copy_type
input_type copy_table_structure = copy_type
input_type migrate_of = sql_type
input_type pool_status_of = request_meta_type

-- The tools in the order of `RegisterAll`.
abbrev pub registered : List Tool
registered =
    list_sources_tool ∷ list_tables_of ∷ describe_table ∷ query_tool ∷ execute_sql_of ∷ create_table
    ∷ drop_table ∷ add_columns ∷ drop_columns ∷ modify_columns ∷ create_index ∷ drop_index
    ∷ list_indexes ∷ rename_table ∷ copy_table ∷ copy_table_structure ∷ migrate_of ∷ pool_status_of
    ∷ []

-- `RegisteredToolNames`
abbrev pub registered_tool_names : List Bytes
registered_tool_names =
    codes "list_sources"
    ∷ codes "list_tables"
    ∷ codes "describe_table"
    ∷ codes "query"
    ∷ codes "execute_sql"
    ∷ codes "create_table"
    ∷ codes "drop_table"
    ∷ codes "add_columns"
    ∷ codes "drop_columns"
    ∷ codes "modify_columns"
    ∷ codes "create_index"
    ∷ codes "drop_index"
    ∷ codes "list_indexes"
    ∷ codes "rename_table"
    ∷ codes "copy_table"
    ∷ codes "copy_table_structure"
    ∷ codes "migrate"
    ∷ codes "pool_status"
    ∷ []

names_are_registered : map tool_name registered ≡ registered_tool_names
names_are_registered = refl
