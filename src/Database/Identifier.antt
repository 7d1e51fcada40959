-- ===== src/Database/Identifier.antt =====
-- internal/database/identifier.go
pub mod Laws
use mcp_server_for_mysql.Base.{
  ℕ, Bool, true, false, not, ◌&&◌, ◌||◌, [], ◌∷◌, ◌++◌, ltb, leb, ◌==◌, if◌then◌else◌, Bytes,
  Result, ok, err, ◌>>=◌,
}

pub data IdentifierError : Type 0 where
  invalid_identifier : Bytes → IdentifierError

abbrev within : ℕ → ℕ → ℕ → Bool
within lo hi c = leb lo c && leb c hi

unfoldable pub is_identifier_start : ℕ → Bool
is_identifier_start c = c == b'_' || within b'A' b'Z' c || within b'a' b'z' c

unfoldable pub is_identifier_part : ℕ → Bool
unfolding is_identifier_start
is_identifier_part c = is_identifier_start c || within b'0' b'9' c

-- The loop of `validateIdentifier` from index i; `first` is `i == 0`.
unfoldable pub all_identifier_bytes : Bool → Bytes → Bool
all_identifier_bytes first [] = true
all_identifier_bytes first (c ∷ cs) =
    if ltb 0x7f c || first && not (is_identifier_start c) || not first && not (is_identifier_part c)
    then false
    else all_identifier_bytes false cs

-- The error quotes the identifier, except for an empty one.
unfoldable pub validate_identifier : Bytes → Result IdentifierError (Unit {0})
unfolding all_identifier_bytes is_identifier_start is_identifier_part
validate_identifier [] = err (invalid_identifier [])
validate_identifier (c ∷ cs) =
    if all_identifier_bytes true (c ∷ cs) then ok tt else err (invalid_identifier (c ∷ cs))

unfoldable pub quote_identifier : Bytes → Result IdentifierError Bytes
unfolding validate_identifier
quote_identifier identifier = do
  _ ← validate_identifier identifier
  ok (b'`' ∷ (identifier ++ b'`' ∷ []))
