-- ===== src/Tools/Normalize/Laws.antt =====
-- What `normalizeParameters` of internal/tools/service.go makes of the parameters of a call.
use mcp_server_for_mysql.Base.{
  Yields, subst, ℕ, List, [], ◌∷◌, Option, none, some, ◌≡◌, refl, ap, ◌∙◌, All, Bytes, ok, err, ℤ,
}
use mcp_server_for_mysql.Execution.Value.{
  Value, null, boolean, json_number, integer, floating, string, byte_slice, array, object, Values,
  nil, cons, Fields, end, field,
}
use mcp_server_for_mysql.Tools.Model.{invalid_input}
use mcp_server_for_mysql.Tools.Normalize.{
  normalize_number, normalize_value, normalize_values, normalize_fields, normalize_list,
  normalize_parameters, then_array, then_object, then_cons, then_field, then_list,
}

-- A value that holds no text of a number, at any depth.
unfoldable mutual
  pub IsNormal : Value → Type 0
  IsNormal (json_number text) = ⊥
  IsNormal (array vs) = IsNormalArray vs
  IsNormal (object fs) = IsNormalObject fs
  IsNormal v = Unit

  pub IsNormalArray : Values → Type 0
  IsNormalArray nil = Unit
  IsNormalArray (cons v vs) = IsNormal v × IsNormalArray vs

  pub IsNormalObject : Fields → Type 0
  IsNormalObject end = Unit
  IsNormalObject (field k v fs) = IsNormal v × IsNormalObject fs

module _ (parse_int64 : Bytes → Option ℤ) (parse_float64 : Bytes → Option ℕ) where
  abbrev value : Value → Option Value
  value = normalize_value parse_int64 parse_float64

  abbrev values : Values → Option Values
  values = normalize_values parse_int64 parse_float64

  abbrev fields : Fields → Option Fields
  fields = normalize_fields parse_int64 parse_float64

  -- Normal, and left as it is by another run.
  abbrev IsFixed : Value → Type 0
  IsFixed w = IsNormal w × (value w ≡ some w)

  abbrev IsFixedArray : Values → Type 0
  IsFixedArray ws = IsNormalArray ws × (values ws ≡ some ws)

  abbrev IsFixedObject : Fields → Type 0
  IsFixedObject gs = IsNormalObject gs × (fields gs ≡ some gs)

  number-IsFixed : (text : Bytes) → Yields IsFixed (normalize_number parse_int64 parse_float64 text)
  unfolding normalize_number normalize_value IsNormal IsNormalArray IsNormalObject
  number-IsFixed text = by_int (parse_int64 text) (parse_float64 text)
    where
      by_int :
          (i : Option ℤ) (f : Option ℕ)
          → Yields IsFixed (elim i [
            | some i' ↦ some (integer i')
            | none ↦ elim f [ some f' ↦ some (floating f') | none ↦ none ]
          ])
      by_int (some i) f = (tt, refl)
      by_int none (some f) = (tt, refl)
      by_int none none = tt

  array-IsFixed :
      (r : Option Values)
      → Yields IsFixedArray r
      → Yields IsFixed (then_array parse_int64 parse_float64 r)
  unfolding normalize_value IsNormal IsNormalArray IsNormalObject
  array-IsFixed none h = tt
  array-IsFixed (some ws) h = (h.0, rw (h.1) refl)

  object-IsFixed :
      (r : Option Fields)
      → Yields IsFixedObject r
      → Yields IsFixed (then_object parse_int64 parse_float64 r)
  unfolding normalize_value IsNormal IsNormalArray IsNormalObject
  object-IsFixed none h = tt
  object-IsFixed (some gs) h = (h.0, rw (h.1) refl)

  cons-IsFixed :
      (r : Option Value) (rs : Option Values)
      → Yields IsFixed r
      → Yields IsFixedArray rs
      → Yields IsFixedArray (then_cons parse_int64 parse_float64 r rs)
  unfolding normalize_values IsNormal IsNormalArray IsNormalObject
  cons-IsFixed none rs h k = tt
  cons-IsFixed (some w) none h k = tt
  cons-IsFixed (some w) (some ws) h k = ((h.0, k.0), rw (h.1, k.1) refl)

  field-IsFixed :
      (name : Bytes) (r : Option Value) (rs : Option Fields)
      → Yields IsFixed r
      → Yields IsFixedObject rs
      → Yields IsFixedObject (then_field parse_int64 parse_float64 name r rs)
  unfolding normalize_fields IsNormal IsNormalArray IsNormalObject
  field-IsFixed name none rs h k = tt
  field-IsFixed name (some w) none h k = tt
  field-IsFixed name (some w) (some gs) h k = ((h.0, k.0), rw (h.1, k.1) refl)

  mutual
    unfolding normalize_value normalize_values normalize_fields IsNormal IsNormalArray
        IsNormalObject

    value-IsFixed : (v : Value) → Yields IsFixed (value v)
    value-IsFixed (json_number text) = number-IsFixed text
    value-IsFixed (array vs) = array-IsFixed (values vs) (values-IsFixed vs)
    value-IsFixed (object fs) = object-IsFixed (fields fs) (fields-IsFixed fs)
    value-IsFixed null = (tt, refl)
    value-IsFixed (boolean b) = (tt, refl)
    value-IsFixed (integer i) = (tt, refl)
    value-IsFixed (floating f) = (tt, refl)
    value-IsFixed (string t) = (tt, refl)
    value-IsFixed (byte_slice t) = (tt, refl)

    values-IsFixed : (vs : Values) → Yields IsFixedArray (values vs)
    values-IsFixed nil = (tt, refl)
    values-IsFixed (cons v vs) =
        cons-IsFixed (value v) (values vs) (value-IsFixed v) (values-IsFixed vs)

    fields-IsFixed : (fs : Fields) → Yields IsFixedObject (fields fs)
    fields-IsFixed end = (tt, refl)
    fields-IsFixed (field k v fs) =
        field-IsFixed k (value v) (fields fs) (value-IsFixed v) (fields-IsFixed fs)

  abbrev IsFixedList : List Value → Type 0
  IsFixedList ws = All IsNormal ws × (normalize_list parse_int64 parse_float64 ws ≡ some ws)

  list-IsFixed :
      (vs : List Value) → Yields IsFixedList (normalize_list parse_int64 parse_float64 vs)
  unfolding normalize_list
  list-IsFixed [] = (tt, refl)
  list-IsFixed (v ∷ vs) =
      then_fixed (value v) (normalize_list parse_int64 parse_float64 vs) (value-IsFixed v)
        (list-IsFixed vs)
    where
      then_fixed :
          (r : Option Value) (rs : Option (List Value))
          → Yields IsFixed r
          → Yields IsFixedList rs
          → Yields IsFixedList (then_list parse_int64 parse_float64 r rs)
      then_fixed none rs h k = tt
      then_fixed (some w) none h k = tt
      then_fixed (some w) (some ws) h k = ((h.0, k.0), rw (h.1, k.1) refl)

  -- The parameters that a call passes on hold no text of a number at any depth, and normalizing
  -- them again gives the same parameters.
  pub normalize_parameters-IsFixed :
      (vs ws : List Value)
      → normalize_parameters parse_int64 parse_float64 (some vs) ≡ ok (some ws)
      → All IsNormal ws × (normalize_parameters parse_int64 parse_float64 (some ws) ≡ ok (some ws))
  unfolding normalize_parameters
  normalize_parameters-IsFixed vs ws h = by_list (normalize_list parse_int64 parse_float64 vs) refl
    where
      by_list :
          (r : Option (List Value))
          → normalize_list parse_int64 parse_float64 vs ≡ r
          → All IsNormal ws
            × (normalize_parameters parse_int64 parse_float64 (some ws) ≡ ok (some ws))
      by_list none e =
          let failed : normalize_parameters parse_int64 parse_float64 (some vs)
              ≡ err invalid_input =
            rw (e, normalize_parameters) refl in
          cc
      by_list (some ws') e =
          let got : normalize_parameters parse_int64 parse_float64 (some vs) ≡ ok (some ws') =
            rw (e, normalize_parameters) refl in
          let same : ws' ≡ ws = cc in
          let (normal, again) =
            subst (λ r. Yields IsFixedList r) (e ∙ ap some same) (list-IsFixed vs) in
          (normal, rw (again, normalize_parameters) refl)
