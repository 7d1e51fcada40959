-- ===== src/Execution/Executor/Effects.antt =====
-- What the batches of internal/execution/executor.go leave in the database.
use mcp_server_for_mysql.Base.{
  subst, ℕ, true, false, List, [], ◌∷◌, ◌++◌, map, append-nil, Option, none, some, ◌≡◌, refl, sym,
  ap, ◌∙◌, arith, if◌then◌else◌, length,
}
use mathlib.Core.Path.{ap₂}
use mcp_server_for_mysql.Sqlguard.Model.{Statement}
use mcp_server_for_mysql.Execution.Value.{Value}
use mcp_server_for_mysql.Execution.Driver.{begin, Log, Driver}
use mcp_server_for_mysql.Execution.Executor.{
  Run, Execution, ExecuteError, statement_failed, run_statements, end_transaction,
  execute_atomically, execute_sequentially, is_none, sequential_error,
}
use mcp_server_for_mysql.Execution.Executor.Runs.{
  View, view, sql_of, Reports, Reports-length, IsRun, run_statements-IsRun,
}

module _ (d : Driver) (args : List Value) where
  -- Nothing, or all of the statements, by whether an error is returned.
  abbrev pub IsAllOrNothing : List Statement → Log → Execution d.Error → Type 0
  IsAllOrNothing statements log x =
      ((view x.log).applied ≡ (
        if is_none d x.error
        then (view log).applied ++ map sql_of statements
        else (view log).applied))
      × ((view x.log).pending ≡ [])

  module _ (statements : List Statement) (log : Log) (r : Run d.Error)
      (i : IsRun d args true 0 [] statements (begin true ∷ log) r) where
    whole : r.failure ≡ none → map sql_of i.done ≡ map sql_of statements
    whole h =
        ap (map sql_of) (sym (i.splits ∙ ap (λ l. i.done ++ l) (i.all_done h) ∙ append-nil i.done))

    committed :
        (reply : Option d.Error)
        → r.failure ≡ none
        → d.commit_tx r.log ≡ reply
        → IsAllOrNothing statements log (end_transaction d r)
    unfolding end_transaction
    committed none h k =
        rw (h, k, end_transaction)
          (
            ap₂ ◌++◌ (ap (λ (v : View). v.applied) i.seen)
                (ap (λ (v : View). v.pending) i.seen ∙ whole h),
            refl,
          )
    committed (some e) h k = rw (h, k, end_transaction) (ap (λ (v : View). v.applied) i.seen, refl)

    ended :
        (f : Option (ℕ × d.Error))
        → r.failure ≡ f
        → IsAllOrNothing statements log (end_transaction d r)
    unfolding end_transaction
    ended none h = committed (d.commit_tx r.log) h refl
    ended (some (index, e)) h = rw (h, end_transaction) (ap (λ (v : View). v.applied) i.seen, refl)

  atomic :
      (statements : List Statement) (log : Log) (reply : Option d.Error)
      → d.begin_tx log ≡ reply
      → IsAllOrNothing statements log (execute_atomically d statements args log)
  unfolding execute_atomically
  atomic statements log (some e) h = rw (h, execute_atomically) (refl, refl)
  atomic statements log none h =
      rw (h, execute_atomically)
        (ended statements log _
          (run_statements-IsRun d args true 0 [] statements (begin true ∷ log)) _ refl)

  -- An atomic batch applies all of its statements if it returns no error, and none of them if it
  -- returns one; either way no transaction is left open.
  pub execute_atomically-IsAllOrNothing :
      (statements : List Statement) (log : Log)
      → IsAllOrNothing statements log (execute_atomically d statements args log)
  execute_atomically-IsAllOrNothing statements log = atomic statements log (d.begin_tx log) refl

  -- The statements up to the first that fails, with a result for each, and all if there is no
  -- error; the error has the position of the first statement that is not applied.
  pub record IsPrefix (statements : List Statement) (log : Log) (x : Execution d.Error)
      : Type 0 where
    pub done : List Statement
    pub left : List Statement
    pub splits : statements ≡ done ++ left
    pub applied : (view x.log).applied ≡ (view log).applied ++ map sql_of done
    pub counted : length x.result.statements ≡ length done
    pub reports : Reports d args false 0 done log x.result.statements
    pub all_done : x.error ≡ none → left ≡ []
    pub stops :
        (e : ExecuteError d.Error)
        → x.error ≡ some e
        → (cause : d.Error) × (e ≡ statement_failed (length done) cause none)
          × (s : Statement) × (rest : List Statement) × (left ≡ s ∷ rest)

  no_failure : (f : Option (ℕ × d.Error)) → sequential_error d f ≡ none → f ≡ none
  no_failure none h = refl
  no_failure (some f) h = cc

  failure_of :
      (f : Option (ℕ × d.Error)) (e : ExecuteError d.Error)
      → sequential_error d f ≡ some e
      → (position : ℕ) × (cause : d.Error) × (f ≡ some (position, cause))
        × (e ≡ statement_failed position cause none)
  failure_of none e h = cc
  failure_of (some (position, cause)) e h = (position, cause, refl, cc)

  -- A batch that is not atomic applies exactly the statements that it reports results for, which
  -- are those before the first failure, and all of them where it returns no error. The results have
  -- the positions 0, 1, 2 and so on of these statements, with the counts that the driver answered;
  -- an error names the position of the first statement that is not applied, and no rollback.
  pub execute_sequentially-IsPrefix :
      (statements : List Statement) (log : Log)
      → IsPrefix statements log (execute_sequentially d statements args log)
  unfolding execute_sequentially
  execute_sequentially-IsPrefix statements log =
      let r = run_statements d false 0 [] args statements log in
      let i = run_statements-IsRun d args false 0 [] statements log in
      record {
        done = i.done;
        left = i.left;
        splits = i.splits;
        applied = ap (λ (v : View). v.applied) i.seen;
        counted = ap length i.adds ∙ Reports-length d args false 0 i.done log i.added i.reports;
        reports = subst (Reports d args false 0 i.done log) (sym i.adds) i.reports;
        all_done = λ h. i.all_done (no_failure r.failure h);
        stops = λ e h.
            let (position, cause, f, named) = failure_of r.failure e h in
            let (at, s, rest, l) = i.stops position cause f in
            (
              cause,
              named ∙ ap (λ n. statement_failed n cause none) (omega (arith, at)),
              s,
              rest,
              l,
            );
      }
