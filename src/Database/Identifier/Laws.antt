-- ===== src/Database/Identifier/Laws.antt =====
-- Which identifiers internal/database/identifier.go quotes, and how.
use mcp_server_for_mysql.Base.{
  ℕ, ◌≤◌, Bool, true, false, [], ◌∷◌, ◌++◌, ◌≢◌, ◌↔◌, ◌⊎◌, ◌≡◌, refl, sym, ◌∙◌, arith, ltb,
  if◌then◌else◌, All, Bytes, Result, ok, err, ◌>>=◌,
}
use mcp_server_for_mysql.Database.Identifier.{
  IdentifierError, invalid_identifier, is_identifier_start, is_identifier_part,
  all_identifier_bytes, quote_identifier,
}

-- A letter or an underscore; a digit may follow.
abbrev pub IsStart : ℕ → Type 0
IsStart c = (c ≡ b'_') ⊎ ((b'A' ≤ c) × (c ≤ b'Z')) ⊎ ((b'a' ≤ c) × (c ≤ b'z'))

abbrev pub IsPart : ℕ → Type 0
IsPart c = IsStart c ⊎ ((b'0' ≤ c) × (c ≤ b'9'))

abbrev pub IsIdentifier : Bytes → Type 0
IsIdentifier [] = ⊥
IsIdentifier (c ∷ cs) = IsStart c × All IsPart cs

pub is_identifier_start_iff : (c : ℕ) → (is_identifier_start c ≡ true) ↔ IsStart c
unfolding is_identifier_start
is_identifier_start_iff c = (λ h. ground arith, λ h. ground arith)

pub is_identifier_part_iff : (c : ℕ) → (is_identifier_part c ≡ true) ↔ IsPart c
unfolding is_identifier_part is_identifier_start
is_identifier_part_iff c = (λ h. ground arith, λ h. ground arith)

start-small : (c : ℕ) → IsStart c → ltb 0x7f c ≡ false
start-small c h = ground arith

part-small : (c : ℕ) → IsPart c → ltb 0x7f c ≡ false
part-small c h = ground arith

parts_iff : (cs : Bytes) → (all_identifier_bytes false cs ≡ true) ↔ All IsPart cs
unfolding all_identifier_bytes
parts_iff [] = (λ h. tt, λ h. refl)
parts_iff (c ∷ cs) = (
  λ h. ((is_identifier_part_iff c).0 (ground arith), (parts_iff cs).0 (ground arith)),
  λ h. rw (part-small c h.0, (is_identifier_part_iff c).1 h.0) ((parts_iff cs).1 h.1),
)

bytes_iff : (s : Bytes) → s ≢ [] → (all_identifier_bytes true s ≡ true) ↔ IsIdentifier s
unfolding all_identifier_bytes
bytes_iff [] ne = absurd (ne refl)
bytes_iff (c ∷ cs) ne = (
  λ h. ((is_identifier_start_iff c).0 (ground arith), (parts_iff cs).0 (ground arith)),
  λ h. rw (start-small c h.0, (is_identifier_start_iff c).1 h.0) ((parts_iff cs).1 h.1),
)

-- A name in backticks.
abbrev pub backticked : Bytes → Bytes
backticked name = b'`' ∷ (name ++ b'`' ∷ [])

quoting : (b : Bool) (name : Bytes) → Result IdentifierError Bytes
quoting b name =
    (if b then ok tt else err (invalid_identifier name)) >>= λ (_ : Unit {0}). ok (backticked name)

quote_identifier-quoting :
    (name : Bytes)
    → name ≢ []
    → quote_identifier name ≡ quoting (all_identifier_bytes true name) name
quote_identifier-quoting [] ne = absurd (ne refl)
quote_identifier-quoting (c ∷ cs) ne = unfold quote_identifier quoting in refl

quoting_iff :
    (b : Bool) (name quoted : Bytes)
    → (quoting b name ≡ ok quoted) ↔ ((b ≡ true) × (quoted ≡ backticked name))
unfolding quoting
quoting_iff true name quoted = (λ h. (refl, ground arith), λ h. ground arith)
quoting_iff false name quoted = (λ h. cc, λ h. cc (h.0))

quote_identifier-nil : quote_identifier [] ≡ err (invalid_identifier [])
unfolding quote_identifier
quote_identifier-nil = refl

-- A name is quoted exactly when it is a letter or underscore followed by letters, digits and
-- underscores, and the result is the name between backticks.
pub quote_identifier_iff :
    (name quoted : Bytes)
    → (quote_identifier name ≡ ok quoted) ↔ (IsIdentifier name × (quoted ≡ backticked name))
quote_identifier_iff [] quoted = (λ h. cc (quote_identifier-nil), λ h. absurd (h.0))
quote_identifier_iff (c ∷ cs) quoted =
    let ne : c ∷ cs ≢ [] = λ e. cc in
    let b = all_identifier_bytes true (c ∷ cs) in
    let q = quoting_iff b (c ∷ cs) quoted in
    let i = bytes_iff (c ∷ cs) ne in
    (
      λ h. let (t, e) = q.0 (sym (quote_identifier-quoting (c ∷ cs) ne) ∙ h) in (i.0 t, e),
      λ h. quote_identifier-quoting (c ∷ cs) ne ∙ q.1 (i.1 h.0, h.1),
    )
