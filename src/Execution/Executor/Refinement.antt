-- ===== src/Execution/Executor/Refinement.antt =====
-- What `ExecutePlan` of internal/execution/executor.go promises, and that it keeps the promise.
use mcp_server_for_mysql.Base.{
  Bool, true, false, not, ◌&&◌, List, [], ◌++◌, map, append-nil, Option, none, some, ◌≡◌, refl, sym,
  ap, ◌∙◌, ltb, if◌then◌else◌, length, Bytes, subst,
}
use mcp_server_for_mysql.Sqlguard.Model.{Plan, Statement}
use mcp_server_for_mysql.Sqlguard.Splitter.{is_nil}
use mcp_server_for_mysql.Database.Source.{Source}
use mcp_server_for_mysql.Execution.Value.{Value}
use mcp_server_for_mysql.Execution.Driver.{Driver, Log}
use mcp_server_for_mysql.Execution.Executor.{
  Execution, ExecuteError, invalid_plan, ambiguous_batch_args, nil_source_database,
  validate_execution_plan, is_atomic_batch, has_database, refused, is_none, execute_atomically,
  execute_sequentially, execute_plan,
}
use mcp_server_for_mysql.Execution.Executor.Effects.{
  execute_atomically-IsAllOrNothing, execute_sequentially-IsPrefix,
}
use mcp_server_for_mysql.Execution.Executor.Runs.{view, sql_of}

-- What a batch may do to the list of the applied statements, by whether it is atomic and whether it
-- fails: all of it, nothing, or, where it is not atomic, the statements before the first failure.
pub data Applies (statements : List Statement) (before : List Bytes)
    : (atomic failed : Bool) → List Bytes → Type 0 where
  applies_all :
      {atomic : Bool} → Applies statements before atomic false (before ++ map sql_of statements)
  applies_none : {atomic : Bool} → Applies statements before atomic true before
  applies_some :
      (done left : List Statement)
      → statements ≡ done ++ left
      → Applies statements before false true (before ++ map sql_of done)

module _ (d : Driver) (args : List Value) where
  abbrev pub is_failed : Execution d.Error → Bool
  is_failed x = not (is_none d x.error)

  module _ (statements : List Statement) (log : Log) where
    atomically :
        (e : Option (ExecuteError d.Error)) (after : List Bytes)
        → after ≡ (
            if is_none d e then (view log).applied ++ map sql_of statements else (view log).applied)
        → Applies statements (view log).applied true (not (is_none d e)) after
    atomically none after h =
        subst (Applies statements (view log).applied true false) (sym h) applies_all
    atomically (some e) after h =
        subst (Applies statements (view log).applied true true) (sym h) applies_none

    sequentially :
        (e : Option (ExecuteError d.Error)) (after : List Bytes) (done left : List Statement)
        → statements ≡ done ++ left
        → (e ≡ none → left ≡ [])
        → after ≡ (view log).applied ++ map sql_of done
        → Applies statements (view log).applied false (not (is_none d e)) after
    sequentially none after done left s l h =
        let whole : statements ≡ done = s ∙ ap (◌++◌ done) (l refl) ∙ append-nil done in
        subst (Applies statements (view log).applied false false)
          (sym (h ∙ ap (λ ss. (view log).applied ++ map sql_of ss) (sym whole))) applies_all
    sequentially (some e) after done left s l h =
        subst (Applies statements (view log).applied false true) (sym h) (applies_some done left s)

  -- `ExecutePlan` refines the batch: whatever the driver answers, it applies all of the plan where it
  -- returns no error, and where it returns one nothing or, if the batch is not atomic, a prefix.
  pub execute_plan-Applies :
      (source : Option Source) (plan : Plan) (log : Log)
      → Applies plan.statements
          (view log).applied
          (is_atomic_batch source plan)
          (is_failed (execute_plan d source plan args log))
          (view (execute_plan d source plan args log).log).applied
  unfolding execute_plan
  execute_plan-Applies source plan log =
      by_tests (validate_execution_plan plan) (ltb 1 (length plan.statements) && not (is_nil args))
        (has_database d source) (is_atomic_batch source plan)
    where
      by_tests :
          (valid ambiguous has_db atomic : Bool)
          → (let x : Execution d.Error =
                if not valid
                then refused d invalid_plan log
                else if ambiguous
                then refused d ambiguous_batch_args log
                else if not has_db
                then refused d nil_source_database log
                else if atomic
                then execute_atomically d plan.statements args log
                else execute_sequentially d plan.statements args log in
              Applies plan.statements (view log).applied atomic (is_failed x) (view x.log).applied)
      by_tests false a h b = applies_none
      by_tests true true h b = applies_none
      by_tests true false false b = applies_none
      by_tests true false true true =
          atomically plan.statements log _ _
            (execute_atomically-IsAllOrNothing d args plan.statements log).0
      by_tests true false true false =
          let p = execute_sequentially-IsPrefix d args plan.statements log in
          sequentially plan.statements log _ _ p.done p.left p.splits p.all_done p.applied
