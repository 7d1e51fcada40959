-- ===== src/Execution/Examples.antt =====
-- A driver and a digest that stand in for those of internal/execution.
use mcp_server_for_mysql.Base.{
  true, false, [], ◌∷◌, ◌++◌, Option, none, some, if◌then◌else◌, Bytes, codes, equal, join_by, ok,
  err, pos,
}
use mcp_server_for_mysql.Sqlguard.Model.{Statement, Plan, write, low_risk}
use mcp_server_for_mysql.Execution.Value.{integer}
use mcp_server_for_mysql.Execution.Model.{Intent, Confirmation, Preview}
use mcp_server_for_mysql.Execution.Preview.{Envelope, preview_of}
use mcp_server_for_mysql.Execution.Driver.{Driver}

-- A driver on which the statement `bad` fails.
abbrev pub driver : Driver
driver = record {
  Error = Bytes;
  begin_tx = λ log. none;
  exec_context = λ log in_tx sql args.
      if equal sql (codes "bad")
      then err (codes "failed")
      else ok (record { rows_affected = some (pos 1); last_insert_id = none });
  commit_tx = λ log. none;
  rollback_tx = λ log. none;
  query_context = λ log sql args. ok (record {
    columns = ok (codes "a" ∷ []);
    rows = ok (integer (pos 1) ∷ []) ∷ ok (integer (pos 2) ∷ []) ∷ [];
    rows_error = none;
  });
}

abbrev pub digest : Envelope → Option Bytes
digest e = some (e.tool ++ join_by (codes ";") e.sql)

abbrev pub write_of : Bytes → Statement
write_of sql = record {
  sql = sql;
  normalized_sql = sql;
  kind = write;
  has_where_clause = true;
  requires_where = true;
}

abbrev pub update_plan : Plan
update_plan = record {
  statements = write_of (codes "update") ∷ [];
  risk = low_risk;
  read_only_plan = false;
}

abbrev pub update_intent : Intent
update_intent = record {
  source_id = codes "main";
  tool = codes "execute_sql";
  parameters = none;
  atomic = true;
  plan = update_plan;
}

abbrev pub update_envelope : Envelope
update_envelope = record {
  source_id = codes "main";
  tool = codes "execute_sql";
  sql = codes "update" ∷ [];
  parameters = [];
  risk = low_risk;
  atomic = true;
}

abbrev pub update_hash : Bytes
update_hash = codes "execute_sqlupdate"

abbrev pub update_preview : Preview
update_preview = preview_of update_envelope update_hash

abbrev pub unconfirmed : Confirmation
unconfirmed = record { confirm = false; preview_hash = [] }

abbrev pub confirmed : Confirmation
confirmed = record { confirm = true; preview_hash = update_hash }
