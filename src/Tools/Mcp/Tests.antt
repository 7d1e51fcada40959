-- ===== src/Tools/Mcp/Tests.antt =====
-- Instances of the theorems on the MCP tools.
use mcp_server_for_mysql.Base.{
  Bool, true, false, ◌&&◌, List, [], ◌∷◌, Option, none, some, ◌≡◌, refl, Bytes, codes, equal, ok, ℤ,
  pos,
}
use mcp_server_for_mysql.Execution.Model.{strict_mode}
use mcp_server_for_mysql.Execution.Driver.{Log}
use mcp_server_for_mysql.Database.Metadata.Model.{Scanner}
use mcp_server_for_mysql.Tools.Examples.{service, env, meta}
use mcp_server_for_mysql.Tools.Model.{Service, Response, executed, execution}
use mcp_server_for_mysql.Tools.Mcp.Schema.{
  Schema, typed_schema, array_schema, any_schema, object_schema, no_properties, property,
  json_schema, string_type, struct_type, no_fields, go_field,
}
use mcp_server_for_mysql.Tools.Mcp.Schema.Declared.{IsClosed}
use mcp_server_for_mysql.Tools.Mcp.Schema.Laws.{json_schema-IsClosed}
use mcp_server_for_mysql.Tools.Metadata.{list_sources}
use mcp_server_for_mysql.Tools.Mcp.Inputs.{input_type, registered}
use mcp_server_for_mysql.Tools.Mcp.Call.{
  list_sources_tool, Tool, query_tool, drop_table, Input, call,
}
use mcp_server_for_mysql.Tools.Mcp.Strict.{ReadsMetadata, call-ReadsMetadata}

abbrev has_schema : Option Schema → Bool
has_schema none = false
has_schema (some s) = true

abbrev all_have_schemas : List Tool → Bool
all_have_schemas [] = true
all_have_schemas (t ∷ ts) = has_schema (json_schema (input_type t)) && all_have_schemas ts

-- No registration panics on a schema.
schemas_of_all_tools : all_have_schemas registered ≡ true
unfolding json_schema equal
schemas_of_all_tools = refl

abbrev text_schema : Schema
text_schema = typed_schema (codes "string")

abbrev sql_schema : Schema
sql_schema =
    object_schema
      (property (codes "source_id") text_schema (
        property (codes "confirm") (typed_schema (codes "boolean")) (
          property (codes "preview_hash") text_schema (
            property (codes "request_id") text_schema (
              property (codes "sql") text_schema
                (property (codes "parameters") (array_schema any_schema) no_properties))))))
      (codes "source_id" ∷ codes "sql" ∷ [])

json_schema-IsClosed_example : IsClosed sql_schema
unfolding json_schema equal
json_schema-IsClosed_example = json_schema-IsClosed (input_type query_tool) sql_schema refl

abbrev strict_service : Service
strict_service = record service { mode = strict_mode }

abbrev scanner : Scanner Bytes
scanner = record {
  string_of = λ v. ok (codes "t");
  null_string_of = λ v. ok none;
  int_of = λ v. ok (pos 1);
  wrong_count = codes "wrong count";
  no_rows = codes "no rows";
}

abbrev pool_stats : Log → List ℤ
pool_stats log = []

-- Every input of the tool `drop_table` names the table `t`; no other tool's input decodes.
abbrev decode : (tool : Tool) → Bytes → Option (Input tool)
decode drop_table raw = some (meta, record { table = codes "t" })
decode _ raw = none

call-ReadsMetadata_example :
    ReadsMetadata []
      (call env scanner pool_stats strict_service decode drop_table (codes "{}") []).log
call-ReadsMetadata_example =
    call-ReadsMetadata env scanner pool_stats strict_service refl decode drop_table (codes "{}") []
      refl

-- An embedded type whose fields are all optional makes the derivation panic.
embedding_without_required :
    json_schema (
      struct_type (
        go_field true true []
          (struct_type (go_field true false (codes "a,omitempty") string_type no_fields))
          no_fields))
    ≡ none
unfolding json_schema equal
embedding_without_required = refl

abbrev decode_sources : (tool : Tool) → Bytes → Option (Input tool)
decode_sources list_sources_tool raw = some (meta, tt)
decode_sources _ raw = none

abbrev unregistered : Response
unregistered =
    (call env scanner pool_stats (record service { registry = none }) decode_sources
      list_sources_tool [] []).response

-- Without a registry the sources are an error, with the state of a success.
lists_no_sources : (unregistered.state ≡ executed) × (unregistered.error ≡ some execution)
unfolding call list_sources
lists_no_sources = (refl, refl)
