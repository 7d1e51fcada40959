-- ===== src/Tools/Reads.antt =====
-- What the tool `query` of internal/tools/service.go sends to a database.
use mcp_server_for_mysql.Base.{
  Bool, true, false, ◌&&◌, List, [], ◌∷◌, ◌⊎◌, inl, inr, Option, ◌≡◌, refl, ap, ◌∙◌, Bool-cases,
  Bytes, codes, Result, ok, err, Returns, Returns-bind, Returns-ok, ℤ,
}
use mcp_server_for_mysql.Database.Source.{Source}
use mcp_server_for_mysql.Sqlguard.Model.{Plan, Statement}
use mcp_server_for_mysql.Execution.Value.{Value}
use mcp_server_for_mysql.Execution.Model.{quick_mode}
use mcp_server_for_mysql.Execution.Policy.Laws.{unconfirmed_execution}
use mcp_server_for_mysql.Execution.Driver.{Log, Driver, query}
use mcp_server_for_mysql.Execution.Preview.{parameters_of}
use mcp_server_for_mysql.Execution.Rows.{run_query, QueryResult, QueryError}
use mcp_server_for_mysql.Tools.Model.{SqlInput, ErrorCode, unsafe_sql, Service, Env}
use mcp_server_for_mysql.Tools.Normalize.{normalize_parameters}
use mcp_server_for_mysql.Tools.Service.{
  intent_of, confirmation_of, authorization_of, authorized_query, first_sql, is_one, query_reply,
  prepare_query, run_query_tool, request_id, analyze_request, require,
}
use mcp_server_for_mysql.Tools.Safety.{refusal-cases}

-- Running a query adds nothing, or the event of that query.
run_query-events :
    (d : Driver) (max_rows : ℤ) (has_db : Bool) (sql : Bytes) (args : List Value) (log : Log)
    → ((run_query d max_rows has_db sql args log).1 ≡ log)
      ⊎ ((done : Bool) × ((run_query d max_rows has_db sql args log).1 ≡ query sql args done ∷ log))
unfolding run_query
run_query-events d max_rows false sql args log = inl refl
run_query-events d max_rows true sql args log = by_answer (d.query_context log sql args) refl
  where
    by_answer :
        (r : Result d.Error _)
        → d.query_context log sql args ≡ r
        → ((run_query d max_rows true sql args log).1 ≡ log)
          ⊎ ((done : Bool) × ((run_query d max_rows true sql args log).1
                ≡ query sql args done ∷ log))
    by_answer (ok set) e = inr (true, rw (e, run_query) refl)
    by_answer (err x) e = inr (false, rw (e, run_query) refl)

module _ (env : Env) (s : Service) where
  query_reply-log :
      (id : Bytes) (r : Result (QueryError env.driver.Error) QueryResult × Log)
      → (query_reply env id r).log ≡ r.1
  query_reply-log id (ok q, log) = refl
  query_reply-log id (err e, log) = refl

  -- The checks of `Query` leave one statement, and a plan that is read-only.
  abbrev IsRead : Source × Plan × Option (List Value) → Type 0
  IsRead r = (st : Statement) × (r.1.statements ≡ st ∷ []) × (r.1.read_only_plan ≡ true)

  prepare_query-Returns : (input : SqlInput) → Returns IsRead (prepare_query env s input)
  unfolding prepare_query
  prepare_query-Returns input =
      Returns-bind (λ _. Unit) IsRead (analyze_request env s input.meta.source_id input.sql) _
        (any _)
        λ analyzed _.
          let safe = analyzed.1.read_only_plan && is_one env analyzed.1.statements in
          Returns-bind (λ _. safe ≡ true) IsRead (require env safe unsafe_sql) _ (required safe)
            λ _ h.
              Returns-bind (λ _. Unit) IsRead
                (normalize_parameters env.parse_int64 env.parse_float64 input.parameters) _ (any _)
                λ _ _. one analyzed.1.statements analyzed.1.read_only_plan h
    where
      any : {A : Type 0} (r : Result ErrorCode A) → Returns (λ _. Unit) r
      any (ok a) = tt
      any (err e) = tt

      required : (b : Bool) → Returns (λ _. b ≡ true) (require env b unsafe_sql)
      required true = refl
      required false = tt

      one :
          (ss : List Statement) (b : Bool)
          → (b && is_one env ss) ≡ true
          → (st : Statement) × (ss ≡ st ∷ []) × (b ≡ true)
      one (st ∷ []) true h = (st, refl, refl)
      one (st ∷ []) false h = cc
      one [] true h = cc
      one [] false h = cc
      one (st ∷ st' ∷ ss) true h = cc
      one (st ∷ st' ∷ ss) false h = cc

  -- What a query that goes on adds: the event of the one statement of its plan.
  abbrev pub IsQueried : SqlInput → Log → Log → Type 0
  IsQueried input log log' =
      (source : Source) × (plan : Plan) × (parameters : Option (List Value)) × (st : Statement)
      × (done : Bool) × (prepare_query env s input ≡ ok (source, plan, parameters))
      × (plan.statements ≡ st ∷ [])
      × (plan.read_only_plan ≡ true)
      × (log' ≡ query st.normalized_sql (parameters_of parameters) done ∷ log)
      × ((input.meta.confirm ≡ true) ⊎ (s.mode ≡ quick_mode))

  -- The tool `query` adds no event, or one: the query of the one statement of a read-only plan, and
  -- that only with a confirmation or in quick mode.
  pub run_query_tool-reads :
      (input : SqlInput) (log : Log)
      → ((run_query_tool env s input log).log ≡ log)
        ⊎ IsQueried input log (run_query_tool env s input log).log
  unfolding run_query_tool authorized_query authorization_of
  run_query_tool-reads input log = by_plan (prepare_query env s input) refl
    where
      Goal : Type 0
      Goal =
          ((run_query_tool env s input log).log ≡ log)
          ⊎ IsQueried input log (run_query_tool env s input log).log

      id : Bytes
      id = request_id env input.meta.request_id

      by_refusal :
          (source : Source) (plan : Plan) (parameters : Option (List Value)) (st : Statement)
          → prepare_query env s input ≡ ok (source, plan, parameters)
          → plan.statements ≡ st ∷ []
          → plan.read_only_plan ≡ true
          → (run_query_tool env s input log).log
            ≡ (authorized_query env s id input.meta source plan parameters log).log
          → Goal
      by_refusal source plan parameters st e one read same =
          let a = authorization_of env s input.meta source (codes "query") plan parameters in
          elim (refusal-cases env id source a log) [
            | inr (reply, refused, unchanged) ↦
                inl (same ∙ rw (refused, authorized_query) unchanged)
            | inl (goes_on, allowed) ↦
                let sql = first_sql env plan.statements in
                let sent =
                  run_query env.driver s.max_rows source.has_db sql (parameters_of parameters)
                    log in
                let events : (run_query_tool env s input log).log ≡ sent.1 =
                  same ∙ rw (goes_on, authorized_query) (query_reply-log id sent) in
                let permitted : (input.meta.confirm ≡ true) ⊎ (s.mode ≡ quick_mode) =
                  elim (Bool-cases input.meta.confirm) [
                    | inl sure ↦ inl sure
                    | inr unsure ↦
                        inr
                          (unconfirmed_execution env.digest s.mode
                            (intent_of env source (codes "query") plan parameters)
                            (confirmation_of env input.meta) unsure allowed).0
                  ] in
                elim (run_query-events env.driver s.max_rows source.has_db sql
                  (parameters_of parameters) log) [
                    | inl unchanged ↦ inl (events ∙ unchanged)
                    | inr (done, asked) ↦ inr (
                      source,
                      plan,
                      parameters,
                      st,
                      done,
                      e,
                      one,
                      read,
                      events
                          ∙ asked
                          ∙ ap
                              (λ ss. query (first_sql env ss) (parameters_of parameters) done ∷ log)
                              one,
                      permitted,
                    )
                  ]
          ]

      by_plan :
          (r : Result ErrorCode (Source × Plan × Option (List Value)))
          → prepare_query env s input ≡ r
          → Goal
      by_plan (err e) h = inl (rw (h, run_query_tool) refl)
      by_plan (ok (source, plan, parameters)) h =
          let (st, one, read) = Returns-ok IsRead _ (prepare_query-Returns input) h in
          by_refusal source plan parameters st h one read (rw (h, run_query_tool) refl)
