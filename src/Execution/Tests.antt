-- ===== src/Execution/Tests.antt =====
-- Instances of the theorems on internal/execution, at concrete plans and rows.
use mcp_server_for_mysql.Base.{
  true, [], ◌∷◌, ◌≡◌, refl, Bytes, codes, equal, trim_space, ok, Returns, pos, none, some, err,
}
use mcp_server_for_mysql.Sqlguard.Model.{low_risk, risk_for_atomic_batches}
use mcp_server_for_mysql.Execution.Value.{integer, byte_slice, string}
use mcp_server_for_mysql.Execution.Model.{quick_mode, strict_mode}
use mcp_server_for_mysql.Execution.Preview.{
  canonical_from, canonical_plan_sql, build_envelope, build_preview,
}
use mcp_server_for_mysql.Execution.Policy.{requires_confirmation, decide_preview, authorize}
use mcp_server_for_mysql.Execution.Policy.Laws.{unconfirmed_execution, confirmation_binds}
use mcp_server_for_mysql.Execution.Executor.{
  execute_atomically, execute_sequentially, execute_plan, is_atomic_batch,
}
use mcp_server_for_mysql.Execution.Executor.Effects.{
  IsAllOrNothing, IsPrefix, execute_atomically-IsAllOrNothing, execute_sequentially-IsPrefix,
}
use mcp_server_for_mysql.Execution.Examples.{
  update_plan, driver, digest, write_of, update_intent, update_envelope, update_preview,
  unconfirmed, confirmed,
}
use mcp_server_for_mysql.Execution.Executor.Runs.{view}
use mcp_server_for_mysql.Execution.Executor.Refinement.{Applies, is_failed, execute_plan-Applies}
use mcp_server_for_mysql.Execution.Rows.{
  collect_loop, run_query, collect_rows, effective_max_rows, rows_error,
}
use mcp_server_for_mysql.Execution.Driver.{RowSet}
use mcp_server_for_mysql.Execution.Rows.Laws.{
  collect_loop-take, run_query-bound, IsBounded, row_limit,
}

unconfirmed_execution_example :
    (quick_mode ≡ quick_mode)
    × (risk_for_atomic_batches update_intent.plan update_intent.atomic ≡ low_risk)
unfolding authorize build_preview build_envelope canonical_plan_sql canonical_from decide_preview
    requires_confirmation risk_for_atomic_batches trim_space
unconfirmed_execution_example =
    unconfirmed_execution digest quick_mode update_intent unconfirmed refl refl

confirmation_binds_example : update_envelope ≡ update_envelope
unfolding authorize build_preview build_envelope canonical_plan_sql canonical_from decide_preview
    requires_confirmation risk_for_atomic_batches trim_space equal
confirmation_binds_example =
    confirmation_binds digest strict_mode update_intent update_intent confirmed update_preview
      update_envelope update_envelope refl refl refl refl refl (λ _. refl) refl

execute_atomically-IsAllOrNothing_example :
    IsAllOrNothing driver []
      (write_of (codes "a") ∷ write_of (codes "bad") ∷ [])
      []
      (execute_atomically driver (write_of (codes "a") ∷ write_of (codes "bad") ∷ []) [] [])
execute_atomically-IsAllOrNothing_example =
    execute_atomically-IsAllOrNothing driver [] (write_of (codes "a") ∷ write_of (codes "bad") ∷ [])
      []

execute_sequentially-IsPrefix_example :
    IsPrefix driver []
      (write_of (codes "a") ∷ write_of (codes "bad") ∷ [])
      []
      (execute_sequentially driver (write_of (codes "a") ∷ write_of (codes "bad") ∷ []) [] [])
execute_sequentially-IsPrefix_example =
    execute_sequentially-IsPrefix driver [] (write_of (codes "a") ∷ write_of (codes "bad") ∷ []) []

collect_loop-take_example :
    collect_loop {Error = Bytes} 1 []
      (ok (byte_slice (codes "x") ∷ []) ∷ ok (integer (pos 2) ∷ []) ∷ [])
    ≡ ok (record { rows = (string (codes "x") ∷ []) ∷ []; truncated = true })
collect_loop-take_example =
    collect_loop-take {Error = Bytes} 1
      ((byte_slice (codes "x") ∷ []) ∷ (integer (pos 2) ∷ []) ∷ [])

run_query-bound_example :
    Returns
      (IsBounded (row_limit (pos 1)))
      (run_query driver (pos 1) true (codes "SELECT 1") [] []).0
run_query-bound_example = run_query-bound driver (pos 1) true (codes "SELECT 1") [] []

execute_plan-Applies_example :
    Applies update_plan.statements []
      (is_atomic_batch none update_plan)
      (is_failed driver [] (execute_plan driver none update_plan [] []))
      (view (execute_plan driver none update_plan [] []).log).applied
execute_plan-Applies_example = execute_plan-Applies driver [] none update_plan []

-- Two rows, behind which the driver has an error.
abbrev failing_rows : RowSet Bytes
failing_rows = record {
  columns = ok (codes "a" ∷ []);
  rows = ok (integer (pos 1) ∷ []) ∷ ok (integer (pos 2) ∷ []) ∷ [];
  rows_error = some (codes "lost");
}

-- A loop that stops at the limit does not come to the error.
rows_error-unseen :
    collect_rows (pos 1) failing_rows
    ≡ ok (record { columns = codes "a" ∷ []; rows = (integer (pos 1) ∷ []) ∷ []; truncated = true })
unfolding collect_rows collect_loop effective_max_rows
rows_error-unseen = refl

rows_error-seen : collect_rows (pos 2) failing_rows ≡ err (rows_error (codes "lost"))
unfolding collect_rows collect_loop effective_max_rows
rows_error-seen = refl
