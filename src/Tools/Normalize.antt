-- ===== src/Tools/Normalize.antt =====
-- `normalizeParameters` and `normalizeJSONValue` of internal/tools/service.go.
pub mod Laws
use mcp_server_for_mysql.Base.{ℕ, List, [], ◌∷◌, Option, none, some, Bytes, Result, ok, err, ℤ}
use mcp_server_for_mysql.Execution.Value.{
  Value, null, boolean, json_number, integer, floating, string, byte_slice, array, object, Values,
  nil, cons, Fields, end, field,
}
use mcp_server_for_mysql.Tools.Model.{ErrorCode, invalid_input, Env}

module _ (parse_int64 : Bytes → Option ℤ) (parse_float64 : Bytes → Option ℕ) where
  -- An integer if the text is one, otherwise a float.
  unfoldable pub normalize_number : Bytes → Option Value
  normalize_number text = elim (parse_int64 text) [
    | some i ↦ some (integer i)
    | none ↦ elim (parse_float64 text) [ some f ↦ some (floating f) | none ↦ none ]
  ]

  abbrev pub then_array : Option Values → Option Value
  then_array none = none
  then_array (some vs) = some (array vs)

  abbrev pub then_object : Option Fields → Option Value
  then_object none = none
  then_object (some fs) = some (object fs)

  abbrev pub then_cons : Option Value → Option Values → Option Values
  then_cons none vs = none
  then_cons (some v) none = none
  then_cons (some v) (some vs) = some (cons v vs)

  abbrev pub then_field : Bytes → Option Value → Option Fields → Option Fields
  then_field k none fs = none
  then_field k (some v) none = none
  then_field k (some v) (some fs) = some (field k v fs)

  -- `none` is the error of an invalid number.
  unfoldable mutual
    pub normalize_value : Value → Option Value
    normalize_value (json_number text) = normalize_number text
    normalize_value (array vs) = then_array (normalize_values vs)
    normalize_value (object fs) = then_object (normalize_fields fs)
    normalize_value v = some v

    pub normalize_values : Values → Option Values
    normalize_values nil = some nil
    normalize_values (cons v vs) = then_cons (normalize_value v) (normalize_values vs)

    pub normalize_fields : Fields → Option Fields
    normalize_fields end = some end
    normalize_fields (field k v fs) = then_field k (normalize_value v) (normalize_fields fs)

  abbrev pub then_list : Option Value → Option (List Value) → Option (List Value)
  then_list none vs = none
  then_list (some v) none = none
  then_list (some v) (some vs) = some (v ∷ vs)

  unfoldable pub normalize_list : List Value → Option (List Value)
  normalize_list [] = some []
  normalize_list (v ∷ vs) = then_list (normalize_value v) (normalize_list vs)

  unfoldable pub normalize_parameters : Option (List Value) → Result ErrorCode (Option (List Value))
  normalize_parameters none = ok none
  normalize_parameters (some vs) = elim (normalize_list vs) [
    | none ↦ err invalid_input
    | some ws ↦ ok (some ws)
  ]
