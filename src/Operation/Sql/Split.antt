-- ===== src/Operation/Sql/Split.antt =====
-- internal/tools joins the statements of a builder by "; " and internal/sqlguard splits them again.
use mcp_server_for_mysql.Base.{
  List, [], ◌∷◌, map, inl, ◌≡◌, refl, sym, All, Bytes, join_by, trim_space, ok, trim_space_visible,
  trim_space_spaced,
}
use mathlib.Core.Path.{ap₂}
use mcp_server_for_mysql.Sqlguard.Splitter.{split_sql_statement_groups}
use mcp_server_for_mysql.Sqlguard.Splitter.Grammar.Scan.{split_groups-Lexed}
use mcp_server_for_mysql.Sqlguard.Splitter.Groups.{HasCode, split_sql_statement_groups_iff}
use mcp_server_for_mysql.Operation.Sql.{
  IsText, IsStatement, has_code-IsStatement, has_code-spaced, separator, spaced, Lexed-statements,
}

All-IsText : (ss : List Bytes) → All IsStatement ss → All IsText ss
All-IsText [] h = tt
All-IsText (s ∷ ss) h = (h.0.text, All-IsText ss h.1)

All-spaced : (ss : List Bytes) → All IsStatement ss → All HasCode (map spaced ss)
All-spaced [] h = tt
All-spaced (s ∷ ss) h = (has_code-spaced h.0, All-spaced ss h.1)

trim-statement : {s : Bytes} → IsStatement s → trim_space s ≡ s
trim-statement {s} x =
    trim_space_visible s x.first x.later x.earlier x.final x.starts x.ends x.first_visible
      x.final_visible

map-spaced : (ss : List Bytes) → All IsStatement ss → ss ≡ map trim_space (map spaced ss)
map-spaced [] h = refl
map-spaced (s ∷ ss) (x, h) =
    ap₂ ◌∷◌
      (sym (
        trim_space_spaced s x.first x.later x.earlier x.final x.starts x.ends x.first_visible
          x.final_visible))
      (map-spaced ss h)

-- One or more statements, joined by "; ", are split into the same statements.
pub split-statements :
    (s : Bytes) (ss : List Bytes)
    → IsStatement s
    → All IsStatement ss
    → split_sql_statement_groups (join_by separator (s ∷ ss)) ≡ ok (s ∷ ss)
split-statements s ss x h =
    (split_sql_statement_groups_iff (join_by separator (s ∷ ss)) (s ∷ ss)).1 (record {
      kept = s ∷ map spaced ss;
      code = (has_code-IsStatement x, All-spaced ss h);
      trimmed = ap₂ ◌∷◌ (sym (trim-statement x)) (map-spaced ss h);
      some_kept = λ e. cc;
      covers = inl ((split_groups-Lexed _ _).0 (Lexed-statements s ss x.text (All-IsText ss h)));
    })
