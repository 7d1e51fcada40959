-- ===== src/Config/Reference.antt =====
-- The regular expression `environmentReference` of internal/config/config.go.
pub mod Laws
use mcp_server_for_mysql.Base.{
  ℕ, Bool, not, ◌&&◌, [], ◌∷◌, ◌++◌, Option, none, some, ◌==◌, if◌then◌else◌, Bytes,
}
use mcp_server_for_mysql.Database.Identifier.{is_identifier_start, is_identifier_part}
use mcp_server_for_mysql.Sqlguard.Splitter.{is_nil}

-- `[A-Za-z_]`, behind other characters `[A-Za-z0-9_]`.
abbrev pub is_name_byte : Bytes → ℕ → Bool
is_name_byte [] c = is_identifier_start c
is_name_byte (_ ∷ _) c = is_identifier_part c

-- The rest of a match, behind the characters of the name so far.
unfoldable pub match_name : Bytes → Bytes → Option Bytes
match_name name [] = none
match_name name (c ∷ []) = if c == b'}' && not (is_nil name) then some name else none
match_name name (c ∷ d ∷ rest) =
    let more = match_name (name ++ c ∷ []) (d ∷ rest) in if is_name_byte name c then more else none

-- `environmentReference.FindStringSubmatch(text)[1]`, `none` without a match.
unfoldable pub environment_reference : Bytes → Option Bytes
unfolding match_name is_identifier_start is_identifier_part
environment_reference (dollar ∷ brace ∷ rest) =
    if dollar == b'$' && brace == b'{' then match_name [] rest else none
environment_reference _ = none
