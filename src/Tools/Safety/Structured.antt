-- ===== src/Tools/Safety/Structured.antt =====
-- What the structured operations of internal/tools/service.go send to a database without a
-- confirmation.
use mcp_server_for_mysql.Base.{
  false, List, ◌⊎◌, inl, inr, none, some, ◌≡◌, refl, Bytes, Result, ok, err,
}
use mcp_server_for_mysql.Database.Source.{Source}
use mcp_server_for_mysql.Sqlguard.Model.{Plan, low_risk, risk_for_atomic_batches}
use mcp_server_for_mysql.Execution.Model.{quick_mode}
use mcp_server_for_mysql.Execution.Driver.{Log}
use mcp_server_for_mysql.Execution.Executor.{is_atomic_batch}
use mcp_server_for_mysql.Operation.Model.{OperationError, Builder}
use mcp_server_for_mysql.Tools.Model.{RequestMeta, ErrorCode, Service, Env}
use mcp_server_for_mysql.Tools.Service.{request_id}
use mcp_server_for_mysql.Tools.Operations.{prepare_operation, execute_operation}
use mcp_server_for_mysql.Tools.Safety.{unconfirmed}

module _ (env : Env) (s : Service) where
  -- An operation that goes on unconfirmed: in quick mode, with a plan of low risk.
  abbrev pub IsUnconfirmedOperation :
      RequestMeta → (Builder → Result OperationError (List Bytes)) → Type 0
  IsUnconfirmedOperation meta build =
      (s.mode ≡ quick_mode)
      × (source : Source) × (plan : Plan) × (prepare_operation env s meta build ≡ ok (source, plan))
      × (risk_for_atomic_batches plan (is_atomic_batch (some source) plan) ≡ low_risk)

  -- A structured operation without a confirmation adds no event, unless the mode is quick and its
  -- plan's risk, for the atomicity of the source, is low.
  pub execute_operation-unconfirmed :
      (meta : RequestMeta) (tool : Bytes) (build : Builder → Result OperationError (List Bytes))
      (log : Log)
      → meta.confirm ≡ false
      → IsUnconfirmedOperation meta build
        ⊎ ((execute_operation env s meta tool build log).log ≡ log)
  unfolding execute_operation
  execute_operation-unconfirmed meta tool build log f =
      by_plan (prepare_operation env s meta build) refl
    where
      by_plan :
          (r : Result ErrorCode (Source × Plan))
          → prepare_operation env s meta build ≡ r
          → IsUnconfirmedOperation meta build
            ⊎ ((execute_operation env s meta tool build log).log ≡ log)
      by_plan (err e) h = inr (rw (h, execute_operation) refl)
      by_plan (ok (source, plan)) h =
          elim (unconfirmed env s (request_id env meta.request_id) meta source tool plan none log
            f) [
              | inl (quick, low) ↦ inl (quick, source, plan, h, low)
              | inr unchanged ↦ inr (rw (h, execute_operation) unchanged)
            ]
