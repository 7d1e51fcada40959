-- ===== src/Tools/Mcp/Schema.antt =====
-- The JSON schemas of internal/tools/mcp.go. A Go type is what `reflect` tells of it, and `none` is a
-- panic: of a type assertion on the schema of an embedded type.
pub mod Declared
pub mod Laws
use mcp_server_for_mysql.Base.{
  Bool, true, false, ◌||◌, List, [], ◌∷◌, ◌++◌, Option, none, some, ◌==◌, if◌then◌else◌, Bytes,
  codes, equal, contains,
}
use mcp_server_for_mysql.Sqlguard.Splitter.{is_nil}

mutual
  pub data GoType : Type 0 where
    string_type bool_type int_type uint_type float_type other_type : GoType
    slice_type pointer_type : GoType → GoType
    struct_type : GoFields → GoType

  -- A field: whether it is exported and embedded, and the text of its tag `json`.
  pub data GoFields : Type 0 where
    no_fields : GoFields
    go_field : (exported embedded : Bool) → (tag : Bytes) → GoType → GoFields → GoFields

mutual
  pub data Schema : Type 0 where
    any_schema unsigned_schema opaque_object : Schema
    typed_schema : Bytes → Schema
    array_schema : Schema → Schema
    object_schema : Properties → List Bytes → Schema

  -- The map `properties`, with each name once.
  pub data Properties : Type 0 where
    no_properties : Properties
    property : Bytes → Schema → Properties → Properties

unfoldable pub set_property : Bytes → Schema → Properties → Properties
set_property name value no_properties = property name value no_properties
set_property name value (property k v ps) =
    let others = set_property name value ps in
    if equal name k then property k value ps else property k v others

unfoldable pub set_properties : Properties → Properties → Properties
unfolding set_property
set_properties no_properties ps = ps
set_properties (property name value qs) ps = set_properties qs (set_property name value ps)

-- `strings.Split` at commas: the part so far, and the parts behind it.
unfoldable pub split_commas : Bytes → Bytes × List Bytes
split_commas [] = ([], [])
split_commas (c ∷ s) =
    let (part, parts) = split_commas s in
    if c == b',' then ([], part ∷ parts) else (c ∷ part, parts)

-- `jsonFieldName`: the name, and whether the field is optional.
unfoldable pub json_field_name : Bytes → Bytes × Bool
unfolding split_commas equal
json_field_name tag =
    let (name, options) = split_commas tag in
    if is_nil name || equal name (codes "-")
    then ([], true)
    else (name, contains (codes "omitempty") options)

-- The map and the list of `objectSchema` so far.
abbrev pub Parts : Type 0
Parts = Properties × List Bytes

abbrev pub as_object : Parts → Schema
as_object (ps, required) = object_schema ps required

-- The two assertions on the schema of an embedded type: without fields that are required it has no
-- entry `required`, and without a struct no entry `properties`.
abbrev pub embedded_parts : Parts → Schema → Option Parts
embedded_parts (ps, required) (object_schema qs (r ∷ rs)) =
    some (set_properties qs ps, required ++ r ∷ rs)
embedded_parts parts _ = none

abbrev pub named_parts : Bytes → Bool → Parts → Schema → Parts
named_parts name true (ps, required) value = (set_property name value ps, required)
named_parts name false (ps, required) value = (set_property name value ps, required ++ name ∷ [])

abbrev pub bind {ℓ κ} : {A : Type ℓ} {B : Type κ} → Option A → (A → Option B) → Option B
bind none f = none
bind (some a) f = f a

unfoldable mutual
  unfolding set_properties json_field_name

  pub value_schema : GoType → Option Schema
  value_schema string_type = some (typed_schema (codes "string"))
  value_schema bool_type = some (typed_schema (codes "boolean"))
  value_schema int_type = some (typed_schema (codes "integer"))
  value_schema uint_type = some unsigned_schema
  value_schema float_type = some (typed_schema (codes "number"))
  value_schema other_type = some any_schema
  value_schema (slice_type t) = bind (value_schema t) (λ s. some (array_schema s))
  value_schema (pointer_type t) = value_schema t
  value_schema (struct_type fs) =
      bind (field_parts fs (no_properties, [])) (λ parts. some (as_object parts))

  -- The loop of `objectSchema`.
  pub field_parts : GoFields → Parts → Option Parts
  field_parts no_fields parts = some parts
  field_parts (go_field false embedded tag t fs) parts = field_parts fs parts
  field_parts (go_field true true tag t fs) parts =
      bind (embedded_schema t) (λ s. bind (embedded_parts parts s) (field_parts fs))
  field_parts (go_field true false tag t fs) parts =
      let (name, optional) = json_field_name tag in
      if is_nil name
      then field_parts fs parts
      else bind (value_schema t) (λ s. field_parts fs (named_parts name optional parts s))

  -- `objectSchema`
  pub embedded_schema : GoType → Option Schema
  embedded_schema (pointer_type t) = embedded_schema t
  embedded_schema (struct_type fs) =
      bind (field_parts fs (no_properties, [])) (λ parts. some (as_object parts))
  embedded_schema _ = some opaque_object

-- `JSONSchema`
unfoldable pub json_schema : GoType → Option Schema
unfolding embedded_schema
json_schema t = embedded_schema t
