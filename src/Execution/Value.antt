-- ===== src/Execution/Value.antt =====
-- The values of type `any` that the program passes on: parameters of a call and cells of a row.
use mcp_server_for_mysql.Base.{ℕ, Bool, Bytes, ℤ}

-- A float64 is its bit pattern; `json_number` is the text of a `json.Number`.
mutual
  pub data Value : Type 0 where
    null : Value
    boolean : Bool → Value
    json_number : Bytes → Value
    integer : ℤ → Value
    floating : ℕ → Value
    string : Bytes → Value
    byte_slice : Bytes → Value
    array : Values → Value
    object : Fields → Value

  pub data Values : Type 0 where
    nil : Values
    cons : Value → Values → Values

  pub data Fields : Type 0 where
    end : Fields
    field : Bytes → Value → Fields → Fields
