-- ===== src/Tools/Mcp/Schema/Laws.antt =====
-- What the schemas of internal/tools/mcp.go require is what they declare.
use mcp_server_for_mysql.Base.{
  Bool, true, false, [], ◌∷◌, Option, none, some, ◌≡◌, if◌then◌else◌, Bytes, Yields, Yields-some,
  All-append, All-weaken,
}
use mcp_server_for_mysql.Sqlguard.Splitter.{is_nil}
use mcp_server_for_mysql.Tools.Mcp.Schema.{
  GoType, string_type, bool_type, int_type, uint_type, float_type, other_type, slice_type,
  pointer_type, struct_type, GoFields, no_fields, go_field, Schema, any_schema, unsigned_schema,
  opaque_object, typed_schema, array_schema, object_schema, Properties, no_properties, set_property,
  set_properties, json_field_name, Parts, as_object, embedded_parts, named_parts, bind,
  value_schema, field_parts, embedded_schema, json_schema,
}
use mcp_server_for_mysql.Tools.Mcp.Schema.Declared.{
  IsClosed, has_property, set_property-has, set_property-keeps, set_property-AreClosed,
  set_properties-keeps, set_properties-has, set_properties-AreClosed,
}

abbrev IsClosedPair : Parts → Type 0
IsClosedPair parts = IsClosed (as_object parts)

abbrev IsDeclared : Properties → Bytes → Type 0
IsDeclared ps name = has_property name ps ≡ true

embedded_parts-Yields :
    (parts : Parts) (s : Schema)
    → IsClosedPair parts
    → IsClosed s
    → Yields IsClosedPair (embedded_parts parts s)
unfolding IsClosed
embedded_parts-Yields (ps, required) (object_schema qs (r ∷ rs)) (c, a) (d, b) = (
  set_properties-AreClosed qs ps d c,
  All-append (IsDeclared (set_properties qs ps)) required (r ∷ rs)
      (All-weaken _ _ required (λ n. set_properties-keeps n qs ps) a)
      (All-weaken _ _ (r ∷ rs) (λ n. set_properties-has n qs ps) b),
)
embedded_parts-Yields parts (object_schema qs []) c d = tt
embedded_parts-Yields parts any_schema c d = tt
embedded_parts-Yields parts unsigned_schema c d = tt
embedded_parts-Yields parts opaque_object c d = tt
embedded_parts-Yields parts (typed_schema t) c d = tt
embedded_parts-Yields parts (array_schema s) c d = tt

named_parts-IsClosed :
    (name : Bytes) (optional : Bool) (parts : Parts) (value : Schema)
    → IsClosedPair parts
    → IsClosed value
    → IsClosedPair (named_parts name optional parts value)
unfolding IsClosed
named_parts-IsClosed name true (ps, required) value (c, a) v = (
  set_property-AreClosed name value ps v c,
  All-weaken _ _ required (λ n. set_property-keeps n name value ps) a,
)
named_parts-IsClosed name false (ps, required) value (c, a) v = (
  set_property-AreClosed name value ps v c,
  All-append (IsDeclared (set_property name value ps)) required (name ∷ [])
      (All-weaken _ _ required (λ n. set_property-keeps n name value ps) a)
      (set_property-has name value ps, tt),
)

bind-Yields :
    {A B : Type 0} (P : A → Type 0) (Q : B → Type 0) (o : Option A) (f : A → Option B)
    → Yields P o
    → ((a : A) → P a → Yields Q (f a))
    → Yields Q (bind o f)
bind-Yields P Q none f p q = tt
bind-Yields P Q (some a) f p q = q a p

mutual
  unfolding IsClosed value_schema

  value_schema-Yields : (t : GoType) → Yields IsClosed (value_schema t)
  value_schema-Yields string_type = tt
  value_schema-Yields bool_type = tt
  value_schema-Yields int_type = tt
  value_schema-Yields uint_type = tt
  value_schema-Yields float_type = tt
  value_schema-Yields other_type = tt
  value_schema-Yields (slice_type t) =
      bind-Yields IsClosed IsClosed (value_schema t) _ (value_schema-Yields t) (λ s c. c)
  value_schema-Yields (pointer_type t) = value_schema-Yields t
  value_schema-Yields (struct_type fs) =
      bind-Yields IsClosedPair IsClosed (field_parts fs (no_properties, [])) _
        (field_parts-Yields fs (no_properties, []) (tt, tt)) (λ parts c. c)

  field_parts-Yields :
      (fs : GoFields) (parts : Parts)
      → IsClosedPair parts
      → Yields IsClosedPair (field_parts fs parts)
  field_parts-Yields no_fields parts c = c
  field_parts-Yields (go_field false embedded tag t fs) parts c = field_parts-Yields fs parts c
  field_parts-Yields (go_field true true tag t fs) parts c =
      bind-Yields IsClosed IsClosedPair (embedded_schema t) _ (embedded_schema-Yields t) (λ s d.
        bind-Yields IsClosedPair IsClosedPair (embedded_parts parts s) (field_parts fs)
          (embedded_parts-Yields parts s c d) (λ p e. field_parts-Yields fs p e))
  field_parts-Yields (go_field true false tag t fs) parts c =
      by_name (is_nil (json_field_name tag).0) (field_parts-Yields fs parts c)
        (value_schema-Yields t) (field_parts-Yields fs)
    where
      by_name :
          (b : Bool)
          → Yields IsClosedPair (field_parts fs parts)
          → Yields IsClosed (value_schema t)
          → ((p : Parts) → IsClosedPair p → Yields IsClosedPair (field_parts fs p))
          → Yields IsClosedPair (
              if b
              then field_parts fs parts
              else bind (value_schema t) (λ s.
                field_parts fs
                  (named_parts (json_field_name tag).0 (json_field_name tag).1 parts s)))
      by_name true skipped v rest = skipped
      by_name false skipped v rest = bind-Yields IsClosed IsClosedPair (value_schema t) _ v (λ s d.
          rest _ (named_parts-IsClosed (json_field_name tag).0 (json_field_name tag).1 parts s c d))

  embedded_schema-Yields : (t : GoType) → Yields IsClosed (embedded_schema t)
  embedded_schema-Yields (pointer_type t) = embedded_schema-Yields t
  embedded_schema-Yields (struct_type fs) =
      bind-Yields IsClosedPair IsClosed (field_parts fs (no_properties, [])) _
        (field_parts-Yields fs (no_properties, []) (tt, tt)) (λ parts c. c)
  embedded_schema-Yields string_type = tt
  embedded_schema-Yields bool_type = tt
  embedded_schema-Yields int_type = tt
  embedded_schema-Yields uint_type = tt
  embedded_schema-Yields float_type = tt
  embedded_schema-Yields other_type = tt
  embedded_schema-Yields (slice_type t) = tt

-- A schema that is derived for a Go type requires only properties that it declares, at any depth.
pub json_schema-IsClosed : (t : GoType) (s : Schema) → json_schema t ≡ some s → IsClosed s
unfolding json_schema
json_schema-IsClosed t s h = Yields-some IsClosed (embedded_schema t) (embedded_schema-Yields t) h
