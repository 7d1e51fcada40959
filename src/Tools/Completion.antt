-- ===== src/Tools/Completion.antt =====
-- What a caller of internal/tools/service.go reaches that repeats a request with the hash of its preview.
use mcp_server_for_mysql.Base.{
  Bool, true, List, Option, none, some, ◌≡◌, refl, sym, ◌∙◌, Bytes, Result, ok, err, subst, Yields,
  Yields-some,
}
use mcp_server_for_mysql.Database.Source.{Source}
use mcp_server_for_mysql.Sqlguard.Model.{Plan}
use mcp_server_for_mysql.Execution.Value.{Value}
use mcp_server_for_mysql.Execution.Model.{
  DecisionState, execute_now, preview_required, policy_denied, Preview,
}
use mcp_server_for_mysql.Execution.Policy.{Authorization, AuthorizeError}
use mcp_server_for_mysql.Execution.Policy.Completion.{
  IsVisibleDigest, IsExecuted, authorize_completes,
}
use mcp_server_for_mysql.Execution.Preview.{parameters_of}
use mcp_server_for_mysql.Execution.Driver.{Log}
use mcp_server_for_mysql.Execution.Executor.{Execution, ExecuteError, execute_plan, is_atomic_batch}
use mcp_server_for_mysql.Execution.Executor.Runs.{view}
use mcp_server_for_mysql.Execution.Executor.Refinement.{Applies, is_failed, execute_plan-Applies}
use mcp_server_for_mysql.Tools.Model.{RequestMeta, SqlInput, ErrorCode, Service, Env, Reply}
use mcp_server_for_mysql.Tools.Service.{
  refusal, authorization_of, authorized_execution, execute_reply, prepare_execution, execute_sql_as,
  request_id, intent_of, confirmation_of,
}

abbrev pub confirmed_meta : Bytes → RequestMeta → RequestMeta
confirmed_meta hash meta = record meta { confirm = true; preview_hash = hash }

abbrev pub confirmed_input : Bytes → SqlInput → SqlInput
confirmed_input hash input = record input { meta = confirmed_meta hash input.meta }

abbrev preview_in : Option Reply → Option Preview
preview_in none = none
preview_in (some reply) = reply.response.preview

-- A preview that comes with no error, under its own hash.
abbrev IsOf : Authorization → Preview → Type 0
IsOf a p = (a.error ≡ none) × (p.preview_hash ≡ a.preview.preview_hash)

module _ (env : Env) (s : Service) where
  refusal-Yields :
      (id : Bytes) (source : Source) (a : Authorization) (log : Log)
      → Yields (IsOf a) (preview_in (refusal env id source a log))
  unfolding refusal
  refusal-Yields id source a log = by_fields a.error a.decision
    where
      by_fields :
          (e : Option AuthorizeError) (d : DecisionState)
          → Yields (IsOf (record { decision = d; preview = a.preview; error = e })) (
              preview_in (
                refusal env id source
                  (record { decision = d; preview = a.preview; error = e })
                  log))
      by_fields (some e) d = tt
      by_fields none execute_now = tt
      by_fields none preview_required = (refl, refl)
      by_fields none DecisionState.preview_mismatch = (refl, refl)
      by_fields none policy_denied = tt

  execute_reply-preview :
      (id : Bytes) (x : Execution env.driver.Error)
      → (execute_reply env id x).response.preview ≡ none
  execute_reply-preview id x = by_error x.error
    where
      by_error :
          (e : Option (ExecuteError env.driver.Error))
          → (execute_reply env id (record x { error = e })).response.preview ≡ none
      by_error none = refl
      by_error (some e) = refl

  module _ (id : Bytes) (meta : RequestMeta) (source : Source) (tool : Bytes) (plan : Plan)
      (parameters : Option (List Value)) where
    abbrev asked : Authorization
    asked = authorization_of env s meta source tool plan parameters

    authorized_execution-Yields :
        (log : Log)
        → Yields
            (IsOf asked)
            (authorized_execution env s id meta source tool plan parameters log).response.preview
    unfolding authorized_execution
    authorized_execution-Yields log = by_refusal (refusal env id source asked log) refl
      where
        x : Execution env.driver.Error
        x = execute_plan env.driver (some source) plan (parameters_of parameters) log

        by_refusal :
            (r : Option Reply)
            → refusal env id source asked log ≡ r
            → Yields
                (IsOf asked)
                (authorized_execution env s id meta source tool plan parameters
                  log).response.preview
        by_refusal none h = rw (h, authorized_execution, execute_reply-preview id x) tt
        by_refusal (some reply) h =
            rw (h, authorized_execution)
              (subst (λ r. Yields (IsOf asked) (preview_in r)) h
                (refusal-Yields id source asked log))

  module _ (visible : IsVisibleDigest env.digest) where
    authorized_execution-confirmed :
        (id : Bytes) (meta : RequestMeta) (source : Source) (tool : Bytes) (plan : Plan)
        (parameters : Option (List Value)) (log later : Log) (p : Preview)
        → (authorized_execution env s id meta source tool plan parameters log).response.preview
          ≡ some p
        → authorized_execution env s id
            (confirmed_meta p.preview_hash meta)
            source
            tool
            plan
            parameters
            later
          ≡ execute_reply env id
              (execute_plan env.driver (some source) plan (parameters_of parameters) later)
    unfolding authorization_of authorized_execution refusal
    authorized_execution-confirmed id meta source tool plan parameters log later p h =
        let (no_error, hash) =
          Yields-some (IsOf (asked id meta source tool plan parameters)) _
            (authorized_execution-Yields id meta source tool plan parameters log) h in
        let completes =
          authorize_completes env.digest visible s.mode (intent_of env source tool plan parameters)
            (confirmation_of env meta) no_error in
        executed_reply (
          subst
            (λ (hash : Bytes).
              IsExecuted (asked id (confirmed_meta hash meta) source tool plan parameters))
            (sym hash) completes)
      where
        meta' : RequestMeta
        meta' = confirmed_meta p.preview_hash meta

        no_refusal : (a : Authorization) → IsExecuted a → refusal env id source a later ≡ none
        no_refusal a (decision, no_error) = rw (no_error, decision, refusal) refl

        executed_reply :
            IsExecuted (asked id meta' source tool plan parameters)
            → authorized_execution env s id meta' source tool plan parameters later
              ≡ execute_reply env id
                  (execute_plan env.driver (some source) plan (parameters_of parameters) later)
        executed_reply x =
            rw (no_refusal (asked id meta' source tool plan parameters) x, authorized_execution)
              refl

    -- The request behind `executeSQL` with a preview is executed when it is repeated with its hash.
    abbrev pub IsCompleted : Bytes → Bool → SqlInput → Log → Bytes → Type 0
    IsCompleted tool force input later hash =
        (source : Source) × (plan : Plan) × (parameters : Option (List Value)) × (prepare_execution
            env s force input
          ≡ ok (source, plan, parameters))
        × (let x = execute_plan env.driver (some source) plan (parameters_of parameters) later in
            (execute_sql_as env s tool force (confirmed_input hash input) later
              ≡ execute_reply env (request_id env input.meta.request_id) x)
            × Applies plan.statements (view later).applied (is_atomic_batch (some source) plan)
                (is_failed env.driver (parameters_of parameters) x) (view x.log).applied)

    -- Where `ExecuteSQL` or `Migrate` answers with a preview, the same request confirmed with the hash
    -- of that preview, at any later time, is executed: its plan is applied as a batch.
    pub execute_sql_as-completes :
        (tool : Bytes) (force : Bool) (input : SqlInput) (log later : Log) (p : Preview)
        → (execute_sql_as env s tool force input log).response.preview ≡ some p
        → IsCompleted tool force input later p.preview_hash
    unfolding execute_sql_as prepare_execution
    execute_sql_as-completes tool force input log later p h =
        by_plan (prepare_execution env s force input) refl h
      where
        id : Bytes
        id = request_id env input.meta.request_id

        refused :
            {code : ErrorCode}
            → prepare_execution env s force input ≡ err code
            → (execute_sql_as env s tool force input log).response.preview ≡ none
        refused e = rw (e, execute_sql_as) refl

        authorized :
            {source : Source} {plan : Plan} {parameters : Option (List Value)}
            → prepare_execution env s force input ≡ ok (source, plan, parameters)
            → (execute_sql_as env s tool force input log).response.preview
              ≡ (authorized_execution env s id input.meta source tool plan parameters
                  log).response.preview
        authorized e = rw (e, execute_sql_as) refl

        by_plan :
            (r : Result ErrorCode (Source × Plan × Option (List Value)))
            → prepare_execution env s force input ≡ r
            → (execute_sql_as env s tool force input log).response.preview ≡ some p
            → IsCompleted tool force input later p.preview_hash
        by_plan (err code) e h = cc (refused e)
        by_plan (ok (source, plan, parameters)) e h = (
          source,
          plan,
          parameters,
          e,
          (
            rw (e, execute_sql_as)
                (authorized_execution-confirmed id input.meta source tool plan parameters log later
                  p (sym (authorized e) ∙ h)),
            execute_plan-Applies env.driver (parameters_of parameters) (some source) plan later,
          ),
        )
