-- ===== src/Sqlguard/Mysql/Guard.antt =====
-- What internal/sqlguard/mysql.go lets through as read-only, write and DDL.
use mcp_server_for_mysql.Base.{
  Bool, true, false, ◌↔◌, ◌⊎◌, inl, inr, ◌≡◌, refl, sym, ◌∙◌, Bool-cases, Bytes, ok,
}
use mcp_server_for_mysql.Sqlguard.Model.{StatementKind, Statement}
use mcp_server_for_mysql.Sqlguard.Mysql.{
  wait_for_executed_gtid_set, wait_until_sql_thread_after_gtids, other_gtid, Node, assignment_expr,
  locking_func, other_node, gtid_func_expr, func_expr, SelectStatement, select, union, other_select,
  Parsed, of_select, explain_stmt, Parser, is_stateful_name, visit_node,
  has_connection_state_function, classify,
}

-- The nodes that assign a variable, wait, lock, or call one of the listed functions.
pub data IsStateful : Node → Type 0 where
  assigns : IsStateful assignment_expr
  waits_for_set : IsStateful (gtid_func_expr wait_for_executed_gtid_set)
  waits_for_thread : IsStateful (gtid_func_expr wait_until_sql_thread_after_gtids)
  locks : IsStateful locking_func
  calls : (name : Bytes) → is_stateful_name name ≡ true → IsStateful (func_expr name)

IsTrue : Bool → Type 0
IsTrue b = b ≡ true

-- The visitor answers a stateful node alike from either value of `unsafe`.
visit-IsStateful : {n : Node} (s : Bool) → IsStateful n → visit_node n s ≡ (false, true)
unfolding visit_node
visit-IsStateful s assigns = refl
visit-IsStateful s waits_for_set = refl
visit-IsStateful s waits_for_thread = refl
visit-IsStateful s locks = refl
visit-IsStateful s (calls name h) = rw h

-- Every other node is passed over.
visit-cases : (n : Node) (s : Bool) → IsStateful n ⊎ (visit_node n s ≡ (true, s))
unfolding visit_node
visit-cases assignment_expr s = inl assigns
visit-cases (gtid_func_expr wait_for_executed_gtid_set) s = inl waits_for_set
visit-cases (gtid_func_expr wait_until_sql_thread_after_gtids) s = inl waits_for_thread
visit-cases (gtid_func_expr other_gtid) s = inr refl
visit-cases locking_func s = inl locks
visit-cases (func_expr name) s = elim (Bool-cases (is_stateful_name name)) [
  | inl h ↦ inl (calls name h)
  | inr h ↦ inr (rw h)
]
visit-cases other_node s = inr refl

visit_keeps : (n : Node) (s : Bool) → s ≡ true → (visit_node n s).1 ≡ true
visit_keeps n s h = elim (visit-cases n s) [ inl i ↦ rw (visit-IsStateful s i) | inr e ↦ rw e h ]

visit_stops : (n : Node) (s : Bool) → (visit_node n s).0 ≡ false → (visit_node n s).1 ≡ true
visit_stops n s h = elim (visit-cases n s) [ inl i ↦ rw (visit-IsStateful s i) | inr e ↦ cc ]

visit_passes : (n : Node) (s : Bool) → ¬ IsStateful n → s ≡ false → (visit_node n s).1 ≡ false
visit_passes n s no_state h = elim (visit-cases n s) [
  | inl i ↦ absurd (no_state i)
  | inr e ↦ rw e h
]

module _ (v : Parser) where
  -- No node of the tree is stateful.
  abbrev pub IsStateless : v.Tree → Type 0
  IsStateless t = (n : Node) → v.Within n t → ¬ IsStateful n

  stateless-none : (t : v.Tree) → IsStateless t → has_connection_state_function v t ≡ false
  unfolding has_connection_state_function
  stateless-none t h =
      v.walk_visits visit_node t (λ b. b ≡ false) (λ n s w. visit_passes n s (h n w)) false refl

  stateful-some :
      (t : v.Tree) (n : Node)
      → v.Within n t
      → IsStateful n
      → has_connection_state_function v t ≡ true
  unfolding has_connection_state_function
  stateful-some t n w i =
      v.walk_reaches visit_node t n (λ b. b ≡ true) w visit_keeps visit_stops
        (λ s. rw (visit-IsStateful s i)) false

  true-false : true ≡ false → ⊥
  true-false e = cc

  -- The walk finds a stateful node wherever in the tree it stands.
  pub has_connection_state_function_iff :
      (t : v.Tree) → (has_connection_state_function v t ≡ false) ↔ IsStateless t
  has_connection_state_function_iff t =
      (λ h n w i. true-false (sym (stateful-some t n w i) ∙ h), stateless-none t)

  -- A SELECT without INTO and lock over a stateless tree, or a UNION of such that has neither and
  -- whose own clauses (WITH, ORDER BY, LIMIT) are stateless.
  abbrev pub IsSafeSelect : SelectStatement v.Tree → Type 0
  IsSafeSelect (select t into lock) = (into ≡ false) × (lock ≡ false) × IsStateless t
  IsSafeSelect (union t into lock left right) =
      (into ≡ false) × (lock ≡ false) × IsStateless t × IsSafeSelect left × IsSafeSelect right
  IsSafeSelect other_select = ⊥

  -- The own clauses of every UNION in it are stateless.
  abbrev pub HasStatelessClauses : SelectStatement v.Tree → Type 0
  HasStatelessClauses (union t into lock left right) =
      IsStateless t × HasStatelessClauses left × HasStatelessClauses right
  HasStatelessClauses _ = Unit

  -- The same of a statement, and of the one that it explains.
  abbrev pub HasStatelessUnions : Parsed v.Tree → Type 0
  HasStatelessUnions (of_select s) = HasStatelessClauses s
  HasStatelessUnions (explain_stmt analyze stmt) = HasStatelessUnions stmt
  HasStatelessUnions _ = Unit

  -- The statements that may run as reads: a safe SELECT or UNION, or EXPLAIN of one without ANALYZE.
  abbrev pub IsReadable : Parsed v.Tree → Type 0
  IsReadable (of_select s) = IsSafeSelect s
  IsReadable (explain_stmt analyze (of_select s)) = (analyze ≡ false) × IsSafeSelect s
  IsReadable _ = ⊥

  -- The classification has this kind, and the parser's text of the statement.
  pub record IsKind (kind : StatementKind) (raw : Bytes) (stmt : Parsed v.Tree) : Type 0 where
    pub statement : Statement
    pub classified : classify v raw stmt ≡ ok statement
    pub of_kind : statement.kind ≡ kind
    pub prints : statement.normalized_sql ≡ v.string stmt
