-- ===== src/Execution/Executor/Runs.antt =====
-- What a run over statements, of internal/execution/executor.go, leaves in the database: the statements
-- applied, and those pending in an open transaction. A failed commit is taken to apply nothing.
use mcp_server_for_mysql.Base.{
  ℕ, suc, ◌+◌, Bool, true, false, List, [], ◌∷◌, ◌++◌, map, append-nil, append_assoc, none, some,
  ◌≡◌, refl, sym, ap, ◌∙◌, arith, if◌then◌else◌, length, Bytes, Result, ok, err,
}
use mcp_server_for_mysql.Sqlguard.Model.{Statement}
use mcp_server_for_mysql.Execution.Value.{Value}
use mcp_server_for_mysql.Execution.Driver.{
  Event, begin, exec, commit, rollback, query, Log, ExecReply, Driver,
}
use mcp_server_for_mysql.Execution.Executor.{
  StatementResult, Run, execution_args, run_statements, statement_result,
}

pub record View : Type 0 where
  pub applied : List Bytes
  pub pending : List Bytes

abbrev after_event : Event → View → View
after_event (begin done) v = record v { pending = [] }
after_event (exec true sql args true) v = record v { pending = v.pending ++ sql ∷ [] }
after_event (exec false sql args true) v = record v { applied = v.applied ++ sql ∷ [] }
after_event (exec in_tx sql args false) v = v
after_event (commit true) v = record { applied = v.applied ++ v.pending; pending = [] }
after_event (commit false) v = record v { pending = [] }
after_event (rollback done) v = record v { pending = [] }
after_event (query sql args done) v = v

abbrev pub view : Log → View
view [] = record { applied = []; pending = [] }
view (e ∷ log) = after_event e (view log)

abbrev pub sql_of : Statement → Bytes
sql_of s = s.normalized_sql

module _ (d : Driver) (args : List Value) where
  -- The results are those of the statements, in their order: each has the position of its statement,
  -- the first one at `index`, and what the driver answered to it.
  abbrev pub Reports :
      (in_tx : Bool) (index : ℕ) → List Statement → Log → List StatementResult → Type 0
  Reports in_tx index [] log [] = Unit
  Reports in_tx index (s ∷ ss) log (x ∷ xs) =
      (reply : ExecReply) × (d.exec_context log in_tx s.normalized_sql (execution_args index args)
        ≡ ok reply)
      × (x ≡ record {
        index = index;
        rows_affected = reply.rows_affected;
        last_insert_id = reply.last_insert_id;
      })
      × Reports in_tx (suc index) ss
          (exec in_tx s.normalized_sql (execution_args index args) true ∷ log) xs
  Reports in_tx index _ log _ = ⊥

  pub Reports-length :
      (in_tx : Bool) (index : ℕ) (ss : List Statement) (log : Log) (xs : List StatementResult)
      → Reports in_tx index ss log xs
      → length xs ≡ length ss
  Reports-length in_tx index [] log [] h = refl
  Reports-length in_tx index (s ∷ ss) log (x ∷ xs) (reply, e, k, h) =
      ap suc (Reports-length in_tx (suc index) ss _ xs h)
  Reports-length in_tx index [] log (x ∷ xs) h = absurd h
  Reports-length in_tx index (s ∷ ss) log [] h = absurd h

  -- A run applies its statements up to the first that fails, and adds a result for each.
  pub record IsRun (in_tx : Bool) (index : ℕ) (results : List StatementResult)
      (statements : List Statement) (log : Log) (r : Run d.Error) : Type 0 where
    pub done : List Statement
    pub left : List Statement
    pub splits : statements ≡ done ++ left
    pub all_done : r.failure ≡ none → left ≡ []
    pub added : List StatementResult
    pub adds : r.results ≡ results ++ added
    pub reports : Reports in_tx index done log added
    -- The statement at the failing position is the first that is not applied.
    pub stops :
        (position : ℕ) (e : d.Error)
        → r.failure ≡ some (position, e)
        → (position ≡ index + length done)
          × (s : Statement) × (rest : List Statement) × (left ≡ s ∷ rest)
    pub seen : view r.log ≡ (
        if in_tx
        then record {
          applied = (view log).applied;
          pending = (view log).pending ++ map sql_of done;
        }
        else record {
          applied = (view log).applied ++ map sql_of done;
          pending = (view log).pending;
        })

  failed :
      (in_tx : Bool) (index : ℕ) (results : List StatementResult) (s : Statement)
      (ss : List Statement) (log : Log) (sql : Bytes) (args' : List Value) (e : d.Error)
      → IsRun in_tx index results (s ∷ ss) log (record {
        results = results;
        failure = some (index, e);
        log = exec in_tx sql args' false ∷ log;
      })
  failed true index results s ss log sql args' e = record {
    done = [];
    left = s ∷ ss;
    splits = refl;
    all_done = λ e. cc;
    added = [];
    adds = sym (append-nil results);
    reports = tt;
    stops = λ position e h. (ground arith, s, ss, refl);
    seen = rw append-nil;
  }
  failed false index results s ss log sql args' e = record {
    done = [];
    left = s ∷ ss;
    splits = refl;
    all_done = λ e. cc;
    added = [];
    adds = sym (append-nil results);
    reports = tt;
    stops = λ position e h. (ground arith, s, ss, refl);
    seen = rw append-nil;
  }

  stepped :
      (in_tx : Bool) (index : ℕ) (results : List StatementResult) (s : Statement)
      (ss : List Statement) (log : Log) (reply : ExecReply) (r : Run d.Error)
      → d.exec_context log in_tx s.normalized_sql (execution_args index args) ≡ ok reply
      → IsRun in_tx
          (suc index)
          (results ++ statement_result d index reply ∷ [])
          ss
          (exec in_tx s.normalized_sql (execution_args index args) true ∷ log)
          r
      → IsRun in_tx index results (s ∷ ss) log r
  stepped true index results s ss log reply r answer i = record {
    done = s ∷ i.done;
    left = i.left;
    splits = ap (◌∷◌ s) i.splits;
    all_done = i.all_done;
    added = statement_result d index reply ∷ i.added;
    adds = i.adds ∙ rw append_assoc;
    reports = (reply, answer, refl, i.reports);
    stops = λ position e h.
        let (at, s', rest, l) = i.stops position e h in (omega (arith, at), s', rest, l);
    seen = i.seen ∙ rw append_assoc;
  }
  stepped false index results s ss log reply r answer i = record {
    done = s ∷ i.done;
    left = i.left;
    splits = ap (◌∷◌ s) i.splits;
    all_done = i.all_done;
    added = statement_result d index reply ∷ i.added;
    adds = i.adds ∙ rw append_assoc;
    reports = (reply, answer, refl, i.reports);
    stops = λ position e h.
        let (at, s', rest, l) = i.stops position e h in (omega (arith, at), s', rest, l);
    seen = i.seen ∙ rw append_assoc;
  }

  -- One round of the loop, by what the driver answers.
  round :
      (in_tx : Bool) (index : ℕ) (results : List StatementResult) (s : Statement)
      (ss : List Statement) (log : Log) (r : Result d.Error ExecReply)
      → d.exec_context log in_tx s.normalized_sql (execution_args index args) ≡ r
      → ((results' : List StatementResult) (log' : Log)
          → IsRun in_tx
              (suc index)
              results'
              ss
              log'
              (run_statements d in_tx (suc index) results' args ss log'))
      → IsRun in_tx index results
          (s ∷ ss)
          log
          (run_statements d in_tx index results args (s ∷ ss) log)
  unfolding run_statements
  round in_tx index results s ss log (err e) h rest =
      rw (h, run_statements)
        (failed in_tx index results s ss log s.normalized_sql (execution_args index args) e)
  round in_tx index results s ss log (ok reply) h rest =
      rw (h, run_statements) (stepped in_tx index results s ss log reply _ h (rest _ _))

  finished :
      (in_tx : Bool) (index : ℕ) (results : List StatementResult) (log : Log)
      → IsRun in_tx index results [] log (run_statements d in_tx index results args [] log)
  unfolding run_statements
  finished true index results log = record {
    done = [];
    left = [];
    splits = refl;
    all_done = λ _. refl;
    added = [];
    adds = sym (append-nil results);
    reports = tt;
    stops = λ position e h. cc;
    seen = rw append-nil;
  }
  finished false index results log = record {
    done = [];
    left = [];
    splits = refl;
    all_done = λ _. refl;
    added = [];
    adds = sym (append-nil results);
    reports = tt;
    stops = λ position e h. cc;
    seen = rw append-nil;
  }

  pub run_statements-IsRun :
      (in_tx : Bool) (index : ℕ) (results : List StatementResult) (statements : List Statement)
      (log : Log)
      → IsRun in_tx index results statements log
          (run_statements d in_tx index results args statements log)
  run_statements-IsRun in_tx index results [] log = finished in_tx index results log
  run_statements-IsRun in_tx index results (s ∷ ss) log =
      round in_tx index results s ss log _ refl
        (λ results' log'. run_statements-IsRun in_tx (suc index) results' ss log')
