-- ===== src/Sqlguard/Model/Laws.antt =====
-- What `makePlan` (internal/sqlguard/analyzer.go) computes, without the loop.
use mcp_server_for_mysql.Base.{
  Bool, true, false, not, ◌&&◌, ◌||◌, List, [], ◌∷◌, ◌≡◌, arith, if◌then◌else◌,
}
use mcp_server_for_mysql.Sqlguard.Model.{
  low_risk, high_risk, Statement, Plan, is_read_only, is_ddl, add_statement, make_plan_from,
  make_plan,
}

-- A statement that alone makes the plan high-risk.
abbrev pub is_dangerous : Statement → Bool
is_dangerous s = is_ddl s.kind || s.requires_where && not s.has_where_clause

abbrev pub some_dangerous : List Statement → Bool
some_dangerous [] = false
some_dangerous (s ∷ ss) = is_dangerous s || some_dangerous ss

abbrev pub all_read_only : List Statement → Bool
all_read_only [] = true
all_read_only (s ∷ ss) = is_read_only s.kind && all_read_only ss

make_plan_from_lem :
    (p : Plan) (ss : List Statement)
    → make_plan_from p ss ≡ record {
      statements = p.statements;
      risk = if some_dangerous ss then high_risk else p.risk;
      read_only_plan = p.read_only_plan && all_read_only ss;
    }
unfolding make_plan_from
make_plan_from_lem p [] = ground arith
make_plan_from_lem p (s ∷ ss) = ground (arith, make_plan_from_lem (add_statement p s) ss)

-- The plan keeps the statements, is high-risk exactly when one of them is DDL or lacks a WHERE
-- clause that it requires (and low-risk otherwise), and is read-only exactly when all are.
pub make_plan_lem :
    (ss : List Statement)
    → make_plan ss ≡ record {
      statements = ss;
      risk = if some_dangerous ss then high_risk else low_risk;
      read_only_plan = all_read_only ss;
    }
unfolding make_plan
make_plan_lem ss =
    make_plan_from_lem (record { statements = ss; risk = low_risk; read_only_plan = true }) ss
