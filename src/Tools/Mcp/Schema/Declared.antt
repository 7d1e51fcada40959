-- ===== src/Tools/Mcp/Schema/Declared.antt =====
-- Setting properties of a schema, internal/tools/mcp.go, and what they declare.
use mcp_server_for_mysql.Base.{
  Bool, true, false, ◌||◌, inl, inr, ◌≡◌, refl, arith, if◌then◌else◌, Bool-cases, All, Bytes, equal,
  equal_iff, equal_refl, subst,
}
use mcp_server_for_mysql.Tools.Mcp.Schema.{
  Schema, any_schema, unsigned_schema, opaque_object, typed_schema, array_schema, object_schema,
  Properties, no_properties, property, set_property, set_properties,
}

unfoldable pub has_property : Bytes → Properties → Bool
has_property name no_properties = false
has_property name (property k v ps) = equal name k || has_property name ps

-- Every object of the schema, at any depth, declares the properties that it requires.
unfoldable mutual
  unfolding has_property

  pub IsClosed : Schema → Type 0
  IsClosed any_schema = Unit
  IsClosed unsigned_schema = Unit
  IsClosed opaque_object = Unit
  IsClosed (typed_schema t) = Unit
  IsClosed (array_schema s) = IsClosed s
  IsClosed (object_schema ps required) =
      AreClosed ps × All (λ name. has_property name ps ≡ true) required

  pub AreClosed : Properties → Type 0
  AreClosed no_properties = Unit
  AreClosed (property k v ps) = IsClosed v × AreClosed ps

pub set_property-has :
    (name : Bytes) (value : Schema) (ps : Properties)
    → has_property name (set_property name value ps) ≡ true
unfolding has_property set_property
set_property-has name value no_properties = rw (equal_refl name) refl
set_property-has name value (property k v ps) =
    by_test (equal name k) refl (set_property-has name value ps)
  where
    by_test :
        (b : Bool)
        → equal name k ≡ b
        → has_property name (set_property name value ps) ≡ true
        → has_property name
            (if b then property k value ps else property k v (set_property name value ps))
          ≡ true
    by_test true e h = rw e refl
    by_test false e h = rw e h

pub set_property-keeps :
    (other name : Bytes) (value : Schema) (ps : Properties)
    → has_property other ps ≡ true
    → has_property other (set_property name value ps) ≡ true
unfolding has_property set_property
set_property-keeps other name value no_properties h = cc
set_property-keeps other name value (property k v ps) h =
    by_test (equal name k) (equal other k) h (set_property-keeps other name value ps) refl
  where
    by_test :
        (b c : Bool)
        → (c || has_property other ps) ≡ true
        → (has_property other ps ≡ true → has_property other (set_property name value ps) ≡ true)
        → equal other k ≡ c
        → has_property other
            (if b then property k value ps else property k v (set_property name value ps))
          ≡ true
    by_test true c h ih e = rw e h
    by_test false true h ih e = rw e refl
    by_test false false h ih e = rw e (ih h)

pub set_property-AreClosed :
    (name : Bytes) (value : Schema) (ps : Properties)
    → IsClosed value
    → AreClosed ps
    → AreClosed (set_property name value ps)
unfolding IsClosed AreClosed set_property
set_property-AreClosed name value no_properties c cs = (c, tt)
set_property-AreClosed name value (property k v ps) c (d, ds) =
    by_test (equal name k) (set_property-AreClosed name value ps c ds)
  where
    by_test :
        (b : Bool)
        → AreClosed (set_property name value ps)
        → AreClosed (if b then property k value ps else property k v (set_property name value ps))
    by_test true rest = (c, ds)
    by_test false rest = (d, rest)

pub set_properties-keeps :
    (other : Bytes) (qs ps : Properties)
    → has_property other ps ≡ true
    → has_property other (set_properties qs ps) ≡ true
unfolding set_properties
set_properties-keeps other no_properties ps h = h
set_properties-keeps other (property name value qs) ps h =
    set_properties-keeps other qs (set_property name value ps)
      (set_property-keeps other name value ps h)

pub set_properties-has :
    (other : Bytes) (qs ps : Properties)
    → has_property other qs ≡ true
    → has_property other (set_properties qs ps) ≡ true
unfolding set_properties has_property
set_properties-has other no_properties ps h = cc
set_properties-has other (property name value qs) ps h = elim (Bool-cases (equal other name)) [
  | inl e ↦ set_properties-keeps other qs (set_property name value ps) (
      subst (λ k. has_property other (set_property k value ps) ≡ true) ((equal_iff other name).0 e)
        (set_property-has other value ps))
  | inr e ↦ set_properties-has other qs (set_property name value ps) (behind e)
]
  where
    behind : equal other name ≡ false → has_property other qs ≡ true
    behind e = ground arith

pub set_properties-AreClosed :
    (qs ps : Properties) → AreClosed qs → AreClosed ps → AreClosed (set_properties qs ps)
unfolding set_properties AreClosed
set_properties-AreClosed no_properties ps c d = d
set_properties-AreClosed (property name value qs) ps (c, cs) d =
    set_properties-AreClosed qs (set_property name value ps) cs
      (set_property-AreClosed name value ps c d)
