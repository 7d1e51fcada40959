-- ===== src/Execution/Policy.antt =====
-- internal/execution/policy.go
pub mod Laws
pub mod Completion
use mcp_server_for_mysql.Base.{
  Bool, true, false, not, ◌&&◌, ◌||◌, Option, none, some, if◌then◌else◌, Bytes, equal, ok, err,
}
use mcp_server_for_mysql.Sqlguard.Model.{Risk, high_risk, low_risk, unknown}
use mcp_server_for_mysql.Sqlguard.Splitter.{is_nil}
use mcp_server_for_mysql.Execution.Model.{
  Mode, quick_mode, strict_mode, other_mode, Confirmation, DecisionState, execute_now,
  preview_required, preview_mismatch, policy_denied, Intent, Preview,
}
use mcp_server_for_mysql.Execution.Preview.{Envelope, PreviewError, build_preview, invalid_preview}

abbrev pub is_strict : Mode → Bool
is_strict strict_mode = true
is_strict _ = false

abbrev pub is_known_mode : Mode → Bool
is_known_mode quick_mode = true
is_known_mode strict_mode = true
is_known_mode (other_mode _) = false

abbrev pub is_high : Risk → Bool
is_high high_risk = true
is_high _ = false

unfoldable pub requires_confirmation : Mode → Preview → Bool
requires_confirmation mode preview =
    is_high preview.risk || is_strict mode && not (is_nil preview.sql)

-- `subtle.ConstantTimeCompare` is 1 exactly on equal texts.
unfoldable pub decide_preview : Mode → Preview → Confirmation → DecisionState
decide_preview mode preview confirmation =
    if confirmation.confirm
    then (if is_nil confirmation.preview_hash
          || not (equal confirmation.preview_hash preview.preview_hash)
        then preview_mismatch
        else execute_now)
    else if requires_confirmation mode preview
    then preview_required
    else execute_now

pub data AuthorizeError : Type 0 where
  invalid_mode : Bytes → AuthorizeError
  no_preview : PreviewError → AuthorizeError

-- `Authorize`. With an error it returns the decision `policy_denied` and `invalid_preview`.
pub record Authorization : Type 0 where
  pub decision : DecisionState
  pub preview : Preview
  pub error : Option AuthorizeError

abbrev pub denied : Intent → AuthorizeError → Authorization
denied intent e = record {
  decision = policy_denied;
  preview = invalid_preview intent;
  error = some e;
}

module _ (digest : Envelope → Option Bytes) where
  abbrev pub authorize_known : Mode → Intent → Confirmation → Authorization
  authorize_known mode intent confirmation = elim (build_preview digest intent) [
    | err e ↦ denied intent (no_preview e)
    | ok preview ↦ record {
      decision = decide_preview mode preview confirmation;
      preview = preview;
      error = none;
    }
  ]

  unfoldable pub authorize : Mode → Intent → Confirmation → Authorization
  authorize quick_mode intent confirmation = authorize_known quick_mode intent confirmation
  authorize strict_mode intent confirmation = authorize_known strict_mode intent confirmation
  authorize (other_mode m) intent confirmation = denied intent (invalid_mode m)
