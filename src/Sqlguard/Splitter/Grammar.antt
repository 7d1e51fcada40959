-- ===== src/Sqlguard/Splitter/Grammar.antt =====
-- The lexical grammar that internal/sqlguard/splitter.go scans, as a description that does not
-- mention the scanner: pieces, such as a quoted text or a comment, between semicolons.
pub mod Rounds
pub mod Total
pub mod Scan
pub mod Code
use mcp_server_for_mysql.Base.{
  ℕ, Bool, true, false, ◌&&◌, ◌||◌, List, [], ◌∷◌, ◌++◌, ◌≢◌, ◌≡◌, ◌==◌, All, Bytes,
}
use mcp_server_for_mysql.Sqlguard.Splitter.{
  ScanState, scan_single_quote, scan_double_quote, scan_backtick, next_is, starts_line_comment,
}

-- The three quoting states and their quotes.
pub data Quote : Type 0 where
  single double backtick : Quote

abbrev pub quote_byte : Quote → ℕ
quote_byte single = b'\''
quote_byte double = b'"'
quote_byte backtick = b'`'

abbrev pub quote_state : Quote → ScanState
quote_state single = scan_single_quote
quote_state double = scan_double_quote
quote_state backtick = scan_backtick

-- The inside of a quoted text: a quote stands in it only doubled or behind a backslash.
pub data IsBody (q : ℕ) : Bytes → Type 0 where
  end : IsBody q []
  plain : {c : ℕ} {s : Bytes} → c ≢ q → c ≢ b'\\' → IsBody q s → IsBody q (c ∷ s)
  escaped : {b c : ℕ} {s : Bytes} → b ≡ b'\\' → IsBody q s → IsBody q (b ∷ c ∷ s)
  doubled : {c d : ℕ} {s : Bytes} → c ≡ q → d ≡ q → IsBody q s → IsBody q (c ∷ d ∷ s)

abbrev pub is_break : ℕ → Bool
is_break c = c == b'\n' || c == b'\r'

-- The inside of a line comment holds no line break.
abbrev pub IsLine : Bytes → Type 0
IsLine = All (λ c. is_break c ≡ false)

-- The inside of a block comment holds no `*/`.
abbrev pub IsBlock : Bytes → Type 0
IsBlock [] = Unit
IsBlock (c ∷ cs) = ((c == b'*' && next_is b'/' cs) ≡ false) × IsBlock cs

abbrev pub is_special : ℕ → Bool
is_special c =
    c == b'\'' || c == b'"' || c == b'`' || c == b'-' || c == b'#' || c == b'/' || c == b';'

-- `p` is one piece of the text, in front of `rest`.
pub data Piece (rest p : Bytes) : Type 0 where
  code : (c : ℕ) → is_special c ≡ false → p ≡ c ∷ [] → Piece rest p
  dash : starts_line_comment rest ≡ false → p ≡ b'-' ∷ [] → Piece rest p
  slash : next_is b'*' rest ≡ false → p ≡ b'/' ∷ [] → Piece rest p
  quoted :
      (q : Quote) (body : Bytes)
      → IsBody (quote_byte q) body
      → next_is (quote_byte q) rest ≡ false
      → p ≡ quote_byte q ∷ (body ++ quote_byte q ∷ [])
      → Piece rest p
  hash_comment :
      (body : Bytes) (nl : ℕ)
      → IsLine body
      → is_break nl ≡ true
      → p ≡ b'#' ∷ (body ++ nl ∷ [])
      → Piece rest p
  dash_comment :
      (body : Bytes) (nl : ℕ)
      → IsLine body
      → is_break nl ≡ true
      → starts_line_comment (body ++ nl ∷ []) ≡ true
      → p ≡ b'-' ∷ (body ++ nl ∷ [])
      → Piece rest p
  block_comment :
      (body : Bytes)
      → IsBlock body
      → next_is b'*' (body ++ b'*' ∷ []) ≡ true
      → p ≡ b'/' ∷ (body ++ b'*' ∷ b'/' ∷ [])
      → Piece rest p

-- A quoted text or a comment that the input ends in the middle of; in a quoted text also right
-- behind a backslash.
pub data Open (p : Bytes) : Type 0 where
  open_quote :
      (q : Quote) (body : Bytes) → IsBody (quote_byte q) body → p ≡ quote_byte q ∷ body → Open p
  open_escape :
      (q : Quote) (body : Bytes)
      → IsBody (quote_byte q) body
      → p ≡ quote_byte q ∷ (body ++ b'\\' ∷ [])
      → Open p
  open_hash : (body : Bytes) → IsLine body → p ≡ b'#' ∷ body → Open p
  open_dash :
      (body : Bytes) → IsLine body → starts_line_comment body ≡ true → p ≡ b'-' ∷ body → Open p
  open_block : (body : Bytes) → IsBlock body → next_is b'*' body ≡ true → p ≡ b'/' ∷ body → Open p

-- The text is a sequence of pieces, which the semicolons between them cut into groups.
pub data Lexed : Bytes → List Bytes → Type 0 where
  done : Lexed [] ([] ∷ [])
  last : {p : Bytes} → Open p → Lexed p (p ∷ [])
  cut : {c : ℕ} {s : Bytes} {gs : List Bytes} → c ≡ b';' → Lexed s gs → Lexed (c ∷ s) ([] ∷ gs)
  piece :
      {p s t g : Bytes} {gs : List Bytes}
      → Piece s p
      → t ≡ p ++ s
      → Lexed s (g ∷ gs)
      → Lexed t ((p ++ g) ∷ gs)
