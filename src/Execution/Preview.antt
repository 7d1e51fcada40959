-- ===== src/Execution/Preview.antt =====
-- internal/execution/preview.go. The digest, which is the hexadecimal SHA-256 of the envelope's
-- JSON, is a parameter; `none` is a value that `json.Marshal` refuses.
use mcp_server_for_mysql.Base.{
  ℕ, ◌+◌, Bool, true, false, not, List, [], ◌∷◌, map, Option, none, some, if◌then◌else◌, Bytes,
  trim_space, Result, ok, err, ◌>>=◌,
}
use mcp_server_for_mysql.Sqlguard.Model.{
  Plan, Statement, Risk, low_risk, high_risk, unknown, risk_for_atomic_batches,
}
use mcp_server_for_mysql.Sqlguard.Splitter.{is_nil}
use mcp_server_for_mysql.Execution.Value.{Value}
use mcp_server_for_mysql.Execution.Model.{Intent, Preview, policy_denied, preview_required}

pub record Envelope : Type 0 where
  pub source_id : Bytes
  pub tool : Bytes
  pub sql : List Bytes
  pub parameters : List Value
  pub risk : Risk
  pub atomic : Bool

pub data PreviewError : Type 0 where
  no_statement : PreviewError
  empty_statement : ℕ → PreviewError
  source_required tool_required invalid_risk not_encodable : PreviewError

-- The loop of `canonicalPlanSQL` from index `i`.
unfoldable pub canonical_from : ℕ → List Statement → Result PreviewError (List Bytes)
canonical_from i [] = ok []
canonical_from i (s ∷ ss) =
    let normalized = trim_space s.normalized_sql in
    if is_nil normalized
    then err (empty_statement (i + 1))
    else do rest ← canonical_from (i + 1) ss; ok (normalized ∷ rest)

unfoldable pub canonical_plan_sql : Plan → Result PreviewError (List Bytes)
canonical_plan_sql plan =
    if is_nil plan.statements then err no_statement else canonical_from 0 plan.statements

abbrev normalized_of : Statement → Bytes
normalized_of s = trim_space s.normalized_sql

unfoldable pub invalid_preview : Intent → Preview
invalid_preview intent = record {
  state = policy_denied;
  source = none;
  sql = map normalized_of intent.plan.statements;
  risk = risk_for_atomic_batches intent.plan intent.atomic;
  atomic = intent.atomic;
  preview_hash = [];
}

abbrev pub is_known_risk : Risk → Bool
is_known_risk low_risk = true
is_known_risk high_risk = true
is_known_risk (unknown _) = false

abbrev pub parameters_of : Option (List Value) → List Value
parameters_of none = []
parameters_of (some ps) = ps

abbrev pub check : Bool → PreviewError → Result PreviewError (Unit {0})
check true e = ok tt
check false e = err e

-- What `BuildPreview` hashes, or why it refuses.
unfoldable pub build_envelope : Intent → Result PreviewError Envelope
build_envelope intent = do
  canonical_sql ← canonical_plan_sql intent.plan
  _ ← check (not (is_nil (trim_space intent.source_id))) source_required
  _ ← check (not (is_nil (trim_space intent.tool))) tool_required
  let effective_risk = risk_for_atomic_batches intent.plan intent.atomic
  _ ← check (is_known_risk effective_risk) invalid_risk
  ok (record {
    source_id = intent.source_id;
    tool = intent.tool;
    sql = canonical_sql;
    parameters = parameters_of intent.parameters;
    risk = effective_risk;
    atomic = intent.atomic;
  })

abbrev pub preview_of : Envelope → Bytes → Preview
preview_of e hash = record {
  state = preview_required;
  source = none;
  sql = e.sql;
  risk = e.risk;
  atomic = e.atomic;
  preview_hash = hash;
}

module _ (digest : Envelope → Option Bytes) where
  abbrev pub encode : Envelope → Result PreviewError Preview
  encode e = elim (digest e) [ none ↦ err not_encodable | some hash ↦ ok (preview_of e hash) ]

  -- `BuildPreview`, without the preview that it returns beside an error, `invalid_preview`.
  unfoldable pub build_preview : Intent → Result PreviewError Preview
  build_preview intent = do envelope ← build_envelope intent; encode envelope
