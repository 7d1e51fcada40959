-- ===== src/Tools/Safety.antt =====
-- What the mutations of internal/tools/service.go send to a database without a confirmation.
pub mod Structured
use mcp_server_for_mysql.Base.{
  Bool, true, false, not, List, ◌⊎◌, inl, inr, Option, none, some, ◌≡◌, refl, sym, ap, ◌∙◌, arith,
  ltb, length, Bytes, codes, Result, ok, err, Returns, Returns-bind, Returns-ok,
}
use mcp_server_for_mysql.Database.Source.{Source}
use mcp_server_for_mysql.Sqlguard.Model.{Plan, low_risk, risk_for_atomic_batches}
use mcp_server_for_mysql.Execution.Value.{Value}
use mcp_server_for_mysql.Execution.Model.{
  quick_mode, DecisionState, execute_now, preview_required, policy_denied, Preview,
}
use mcp_server_for_mysql.Execution.Policy.{Authorization, AuthorizeError}
use mcp_server_for_mysql.Execution.Policy.Laws.{unconfirmed_execution}
use mcp_server_for_mysql.Execution.Driver.{Log}
use mcp_server_for_mysql.Execution.Executor.{is_atomic_batch}
use mcp_server_for_mysql.Execution.Model as Decision
use mcp_server_for_mysql.Operation.Model.{OperationError, Builder}
use mcp_server_for_mysql.Tools.Model.{
  RequestMeta, SqlInput, ErrorCode, unsafe_sql, Service, Env, Reply,
}
use mcp_server_for_mysql.Tools.Normalize.{normalize_parameters}
use mcp_server_for_mysql.Tools.Service.{
  refusal, intent_of, confirmation_of, authorization_of, authorized_execution, prepare_execution,
  execute_sql_as, execute_sql, migrate, request_id, raise_risk, analyze_request, require,
}
use mcp_server_for_mysql.Tools.Operations.{prepare_operation, execute_operation}

-- A refused request has a reply that adds no event; one that goes on was allowed to execute.
abbrev pub RefusalCases : Env → Bytes → Source → Authorization → Log → Type 0
RefusalCases env id source a log =
    ((refusal env id source a log ≡ none) × (a.decision ≡ execute_now))
    ⊎ ((reply : Reply) × (refusal env id source a log ≡ some reply) × (reply.log ≡ log))

pub refusal-cases :
    (env : Env) (id : Bytes) (source : Source) (a : Authorization) (log : Log)
    → RefusalCases env id source a log
unfolding refusal
refusal-cases env id source a log = by_fields a.error a.decision
  where
    by_fields :
        (e : Option AuthorizeError) (d : DecisionState)
        → RefusalCases env id source (record { decision = d; preview = a.preview; error = e }) log
    by_fields (some e) d = inr (_, refl, refl)
    by_fields none execute_now = inl (refl, refl)
    by_fields none preview_required = inr (_, refl, refl)
    by_fields none Decision.preview_mismatch = inr (_, refl, refl)
    by_fields none policy_denied = inr (_, refl, refl)

module _ (env : Env) (s : Service) where
  authorized_execution-cases :
      (id : Bytes) (meta : RequestMeta) (source : Source) (tool : Bytes) (plan : Plan)
      (parameters : Option (List Value)) (log : Log)
      → ((authorization_of env s meta source tool plan parameters).decision ≡ execute_now)
        ⊎ ((authorized_execution env s id meta source tool plan parameters log).log ≡ log)
  unfolding authorized_execution
  authorized_execution-cases id meta source tool plan parameters log =
      elim (refusal-cases env id source (authorization_of env s meta source tool plan parameters)
        log) [
          | inl (_, allowed) ↦ inl allowed
          | inr (reply, refused, unchanged) ↦ inr (rw (refused, authorized_execution) unchanged)
        ]

  -- The part behind the plan, for a request that is not confirmed.
  unconfirmed :
      (id : Bytes) (meta : RequestMeta) (source : Source) (tool : Bytes) (plan : Plan)
      (parameters : Option (List Value)) (log : Log)
      → meta.confirm ≡ false
      → ((s.mode ≡ quick_mode)
          × (risk_for_atomic_batches plan (is_atomic_batch (some source) plan) ≡ low_risk))
        ⊎ ((authorized_execution env s id meta source tool plan parameters log).log ≡ log)
  unfolding authorization_of
  unconfirmed id meta source tool plan parameters log f =
      elim (authorized_execution-cases id meta source tool plan parameters log) [
        | inl allowed ↦ inl (
            unconfirmed_execution env.digest s.mode (intent_of env source tool plan parameters)
              (confirmation_of env meta) f allowed)
        | inr unchanged ↦ inr unchanged
      ]

  -- The plan that `executeSQL` authorizes comes from `raise_risk`, and is not read-only.
  prepare_execution-Returns :
      (force : Bool) (input : SqlInput)
      → Returns
          (λ r. (p : Plan) × (r.1 ≡ raise_risk env force p) × (p.read_only_plan ≡ false))
          (prepare_execution env s force input)
  unfolding prepare_execution
  prepare_execution-Returns force input =
      let P = λ (r : Source × Plan × Option (List Value)).
        (p : Plan) × (r.1 ≡ raise_risk env force p) × (p.read_only_plan ≡ false) in
      Returns-bind (λ _. Unit) P (analyze_request env s input.meta.source_id input.sql) _ (any _)
        λ analyzed _.
          Returns-bind (λ _. analyzed.1.read_only_plan ≡ false) P
            (require env (not analyzed.1.read_only_plan) unsafe_sql) _
            (required analyzed.1.read_only_plan)
            λ _ mutates.
              Returns-bind (λ _. Unit) P
                (normalize_parameters env.parse_int64 env.parse_float64 input.parameters) _ (any _)
                λ _ _. (analyzed.1, refl, mutates)
    where
      any : {A : Type 0} (r : Result ErrorCode A) → Returns (λ _. Unit) r
      any (ok a) = tt
      any (err e) = tt

      required : (b : Bool) → Returns (λ _. b ≡ false) (require env (not b) unsafe_sql)
      required true = tt
      required false = refl

  -- The risk of a raised plan is low only for one statement, unforced.
  raise_risk-low :
      (force atomic : Bool) (p : Plan)
      → risk_for_atomic_batches (raise_risk env force p) atomic ≡ low_risk
      → (force ≡ false) × (ltb 1 (length p.statements) ≡ false) × (raise_risk env force p ≡ p)
  unfolding risk_for_atomic_batches
  raise_risk-low force atomic p h = ground arith

  -- What goes on unconfirmed: in quick mode, one statement of low risk that is not read-only.
  abbrev pub IsUnconfirmedExecution : Bool → SqlInput → Type 0
  IsUnconfirmedExecution force input =
      (s.mode ≡ quick_mode)
      × (force ≡ false)
      × (source : Source) × (plan : Plan) × (parameters : Option (List Value)) × (prepare_execution
            env s force input
          ≡ ok (source, plan, parameters))
      × (plan.risk ≡ low_risk)
      × (plan.read_only_plan ≡ false)
      × (ltb 1 (length plan.statements) ≡ false)

  execute_sql_as-unconfirmed :
      (tool : Bytes) (force : Bool) (input : SqlInput) (log : Log)
      → input.meta.confirm ≡ false
      → IsUnconfirmedExecution force input ⊎ ((execute_sql_as env s tool force input log).log ≡ log)
  unfolding execute_sql_as risk_for_atomic_batches
  execute_sql_as-unconfirmed tool force input log f =
      by_plan (prepare_execution env s force input) refl
    where
      free :
          (source : Source) (plan p : Plan) (parameters : Option (List Value))
          → prepare_execution env s force input ≡ ok (source, plan, parameters)
          → plan ≡ raise_risk env force p
          → p.read_only_plan ≡ false
          → s.mode ≡ quick_mode
          → risk_for_atomic_batches plan (is_atomic_batch (some source) plan) ≡ low_risk
          → IsUnconfirmedExecution force input
      free source plan p parameters e raised mutates quick low =
          let (unforced, one, same) = raise_risk-low force (is_atomic_batch (some source) plan) p (
            ap (λ q. risk_for_atomic_batches q (is_atomic_batch (some source) plan)) (sym raised)
            ∙ low) in
          let plan_is : plan ≡ p = raised ∙ same in
          let small : ltb 1 (length plan.statements) ≡ false =
            ap (λ q. ltb 1 (length q.statements)) plan_is ∙ one in
          (
            quick,
            unforced,
            source,
            plan,
            parameters,
            e,
            ground arith,
            ap (λ q. q.read_only_plan) plan_is ∙ mutates,
            small,
          )

      by_plan :
          (r : Result ErrorCode (Source × Plan × Option (List Value)))
          → prepare_execution env s force input ≡ r
          → IsUnconfirmedExecution force input
            ⊎ ((execute_sql_as env s tool force input log).log ≡ log)
      by_plan (err e) h = inr (rw (h, execute_sql_as) refl)
      by_plan (ok (source, plan, parameters)) h =
          let (p, raised, mutates) = Returns-ok _ _ (prepare_execution-Returns force input) h in
          elim (unconfirmed (request_id env input.meta.request_id) input.meta source tool plan
            parameters log f) [
              | inl (quick, low) ↦ inl (free source plan p parameters h raised mutates quick low)
              | inr unchanged ↦ inr (rw (h, execute_sql_as) unchanged)
            ]

  -- `migrate` without a confirmation adds no event, whatever the mode, the source and the SQL.
  pub migrate-unconfirmed :
      (input : SqlInput) (log : Log)
      → input.meta.confirm ≡ false
      → (migrate env s input log).log ≡ log
  unfolding migrate
  migrate-unconfirmed input log f =
      elim (execute_sql_as-unconfirmed (codes "migrate") true input log f) [
        | inl free ↦ cc (free.1)
        | inr unchanged ↦ unchanged
      ]

  -- `execute_sql` without a confirmation adds no event, unless the mode is quick and the SQL is at
  -- most one statement, not read-only and of low risk.
  pub execute_sql-unconfirmed :
      (input : SqlInput) (log : Log)
      → input.meta.confirm ≡ false
      → IsUnconfirmedExecution false input ⊎ ((execute_sql env s input log).log ≡ log)
  unfolding execute_sql
  execute_sql-unconfirmed input log f =
      execute_sql_as-unconfirmed (codes "execute_sql") false input log f
