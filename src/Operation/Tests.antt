-- ===== src/Operation/Tests.antt =====
-- Instances of the theorems on internal/operation, at concrete columns.
use mcp_server_for_mysql.Base.{[], ◌∷◌, ◌↔◌, ◌≡◌, Bytes, codes, Result, ok}
use mcp_server_for_mysql.Operation.Model.{OperationError}
use mcp_server_for_mysql.Operation.Validate.{build_each}
use mcp_server_for_mysql.Operation.Validate.Columns.{IsBuilt, build_each_iff}

abbrev by_name : Bytes → Bytes
by_name name = name

abbrev as_text : Bytes → Result OperationError Bytes
as_text name = ok name

build_each_iff_example :
    (build_each by_name as_text [] [] (codes "a" ∷ codes "b" ∷ [])
      ≡ ok (codes "a" ∷ codes "b" ∷ []))
    ↔ IsBuilt by_name as_text [] (codes "a" ∷ codes "b" ∷ []) (codes "a" ∷ codes "b" ∷ [])
build_each_iff_example =
    build_each_iff by_name as_text (codes "a" ∷ codes "b" ∷ []) (codes "a" ∷ codes "b" ∷ [])
