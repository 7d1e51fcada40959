-- ===== src/Execution/Model.antt =====
-- internal/execution/model.go, and the modes of internal/config/config.go.
use mcp_server_for_mysql.Base.{Bool, List, Option, Bytes}
use mcp_server_for_mysql.Sqlguard.Model.{Plan, Risk}
use mcp_server_for_mysql.Execution.Value.{Value}

-- `config.Mode`, a Go string.
pub data Mode : Type 0 where
  quick_mode strict_mode : Mode
  other_mode : Bytes → Mode

pub record Confirmation : Type 0 where
  pub confirm : Bool
  pub preview_hash : Bytes

pub data DecisionState : Type 0 where
  execute_now preview_required preview_mismatch policy_denied : DecisionState

-- `parameters` is `none` for a nil slice.
pub record Intent : Type 0 where
  pub source_id : Bytes
  pub tool : Bytes
  pub parameters : Option (List Value)
  pub atomic : Bool
  pub plan : Plan

pub record SourceReference : Type 0 where
  pub id : Bytes
  pub display_name : Bytes

pub record Preview : Type 0 where
  pub state : DecisionState
  pub source : Option SourceReference
  pub sql : List Bytes
  pub risk : Risk
  pub atomic : Bool
  pub preview_hash : Bytes
