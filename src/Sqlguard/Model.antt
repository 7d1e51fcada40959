-- ===== src/Sqlguard/Model.antt =====
-- internal/sqlguard/model.go and analyzer.go: statements, plans and their risk.
pub mod Laws
use mcp_server_for_mysql.Base.{
  ℕ, Bool, true, false, not, ◌&&◌, ◌||◌, List, [], ◌∷◌, Bytes, length, ltb, if◌then◌else◌,
}

pub data StatementKind : Type 0 where
  read_only write ddl session : StatementKind

-- The Go type is a string: `unknown` stands for a value that is neither constant.
pub data Risk : Type 0 where
  low_risk high_risk : Risk
  unknown : Bytes → Risk

abbrev pub default_max_statements : ℕ
default_max_statements = 50

-- The only error of the analyzers, `ErrUnsafeOrUnsupportedSQL`; its cause is text.
pub data SqlError : Type 0 where
  unsafe_or_unsupported_sql : SqlError

pub record Statement : Type 0 where
  pub sql : Bytes
  pub normalized_sql : Bytes
  pub kind : StatementKind
  pub has_where_clause : Bool
  pub requires_where : Bool

pub record Plan : Type 0 where
  pub statements : List Statement
  pub risk : Risk
  pub read_only_plan : Bool

abbrev pub is_read_only : StatementKind → Bool
is_read_only read_only = true
is_read_only _ = false

abbrev pub is_ddl : StatementKind → Bool
is_ddl ddl = true
is_ddl _ = false

abbrev pub is_write : StatementKind → Bool
is_write write = true
is_write _ = false

-- `Plan.RiskForAtomicBatches`
unfoldable pub risk_for_atomic_batches : Plan → Bool → Risk
risk_for_atomic_batches p atomic_batches =
    if not atomic_batches && ltb 1 (length p.statements) then high_risk else p.risk

-- The loop of `makePlan`: one statement updates the plan built so far.
abbrev pub add_statement : Plan → Statement → Plan
add_statement plan s =
    let read = if not (is_read_only s.kind) then false else plan.read_only_plan in
    let risk =
      if is_ddl s.kind || s.requires_where && not s.has_where_clause
      then high_risk
      else plan.risk in
    record plan { read_only_plan = read; risk = risk }

unfoldable pub make_plan_from : Plan → List Statement → Plan
make_plan_from plan [] = plan
make_plan_from plan (s ∷ ss) = make_plan_from (add_statement plan s) ss

unfoldable pub make_plan : List Statement → Plan
unfolding make_plan_from
make_plan ss =
    make_plan_from (record { statements = ss; risk = low_risk; read_only_plan = true }) ss
