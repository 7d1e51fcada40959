-- ===== src/Sqlguard/Splitter/Grammar/Code.antt =====
-- `statementGroupHasCode` of internal/sqlguard/splitter.go against the grammar.
use mcp_server_for_mysql.Base.{
  zero, suc, ◌≤◌, ◌↔◌, inl, inr, ap, Bool-cases, length, subst, ℕ, Bool, true, false, not, [], ◌∷◌,
  ◌++◌, append_assoc, ◌≡◌, refl, sym, ◌∙◌, arith, if◌then◌else◌, Bytes,
}
use mcp_server_for_mysql.Sqlguard.Splitter.{
  scan_normal, scan_line_comment, scan_block_comment, next_is, starts_line_comment,
  is_comment_space, has_code_loop, code_round, statement_group_has_code,
}
use mcp_server_for_mysql.Sqlguard.Splitter.Grammar.{
  Quote, single, quote_byte, is_break, IsLine, IsBlock, is_special, Piece, code, dash, slash,
  quoted, hash_comment, dash_comment, block_comment, Open, open_quote, open_escape, open_hash,
  open_dash, open_block,
}
use mcp_server_for_mysql.Sqlguard.Splitter.Grammar.Rounds.{
  starts_line_comment-append, next_is-append,
}
use mcp_server_for_mysql.Sqlguard.Splitter.Grammar.Total.{cuts, opens, takes, first, shorter}

-- A piece that is white space or a comment.
abbrev pub is_trivia : {rest p : Bytes} → Piece rest p → Bool
is_trivia (code c _ _) = is_comment_space c
is_trivia (dash _ _) = false
is_trivia (slash _ _) = false
is_trivia (quoted _ _ _ _ _) = false
is_trivia (hash_comment _ _ _ _ _) = true
is_trivia (dash_comment _ _ _ _ _ _) = true
is_trivia (block_comment _ _ _ _) = true

abbrev pub is_comment : {p : Bytes} → Open p → Bool
is_comment (open_quote _ _ _ _) = false
is_comment (open_escape _ _ _ _) = false
is_comment (open_hash _ _ _) = true
is_comment (open_dash _ _ _ _) = true
is_comment (open_block _ _ _ _) = true

-- Whether the text has anything but white space and comments; a semicolon is code.
pub data IsCoded : Bytes → Bool → Type 0 where
  nothing : IsCoded [] false
  last : {p : Bytes} {b : Bool} (o : Open p) → b ≡ not (is_comment o) → IsCoded p b
  trivia :
      {p s t : Bytes} {b : Bool} (x : Piece s p)
      → is_trivia x ≡ true
      → t ≡ p ++ s
      → IsCoded s b
      → IsCoded t b
  semicolon : {c : ℕ} {s : Bytes} → c ≡ b';' → IsCoded (c ∷ s) true
  solid : {p s t : Bytes} (x : Piece s p) → is_trivia x ≡ false → t ≡ p ++ s → IsCoded t true

line_end :
    (body rest : Bytes) (nl : ℕ)
    → IsLine body
    → is_break nl ≡ true
    → has_code_loop false scan_line_comment (body ++ (nl ∷ rest))
      ≡ has_code_loop false scan_normal rest
unfolding has_code_loop code_round
line_end [] rest nl h k = ground arith
line_end (c ∷ body) rest nl h k = ground (arith, line_end body rest nl h.1 k)

line_open : (body : Bytes) → IsLine body → has_code_loop false scan_line_comment body ≡ false
unfolding has_code_loop code_round
line_open [] h = refl
line_open (c ∷ body) h = ground (arith, line_open body h.1)

block_end :
    (body rest : Bytes)
    → IsBlock body
    → has_code_loop false scan_block_comment (body ++ (b'*' ∷ b'/' ∷ rest))
      ≡ has_code_loop false scan_normal rest
unfolding has_code_loop code_round
block_end [] rest h = refl
block_end (c ∷ []) rest h = ground arith
block_end (c ∷ d ∷ body) rest h = ground (arith, block_end (d ∷ body) rest h.1)

block_open : (body : Bytes) → IsBlock body → has_code_loop false scan_block_comment body ≡ false
unfolding has_code_loop code_round
block_open [] h = refl
block_open (c ∷ []) h = ground arith
block_open (c ∷ d ∷ body) h = ground (arith, block_open (d ∷ body) h.1)

loop_dash :
    (rest : Bytes)
    → has_code_loop false scan_normal (b'-' ∷ rest)
      ≡ (if starts_line_comment rest then has_code_loop false scan_line_comment rest else true)
unfolding has_code_loop code_round
loop_dash rest = ground arith

loop_slash :
    (rest : Bytes)
    → has_code_loop false scan_normal (b'/' ∷ rest)
      ≡ (if next_is b'*' rest then has_code_loop false scan_block_comment rest else true)
unfolding has_code_loop code_round
loop_slash rest = ground arith

loop_hash :
    (rest : Bytes)
    → has_code_loop false scan_normal (b'#' ∷ rest) ≡ has_code_loop false scan_line_comment rest
unfolding has_code_loop code_round
loop_hash rest = refl

loop_semicolon :
    (c : ℕ) (rest : Bytes) → c ≡ b';' → has_code_loop false scan_normal (c ∷ rest) ≡ true
unfolding has_code_loop code_round
loop_semicolon c rest e = rw e

loop_quote :
    (q : Quote) (rest : Bytes) → has_code_loop false scan_normal (quote_byte q ∷ rest) ≡ true
unfolding has_code_loop code_round
loop_quote single rest = refl
loop_quote _ rest = refl

loop_code :
    (c : ℕ) (rest : Bytes)
    → is_special c ≡ false
    → has_code_loop false scan_normal (c ∷ rest)
      ≡ (if is_comment_space c then has_code_loop false scan_normal rest else true)
unfolding has_code_loop code_round
loop_code c rest h = ground arith

loop-Piece :
    (p rest : Bytes) (x : Piece rest p)
    → has_code_loop false scan_normal (p ++ rest)
      ≡ (if is_trivia x then has_code_loop false scan_normal rest else true)
loop-Piece p rest (code c h e) = rw e (loop_code c rest h)
loop-Piece p rest (dash h e) = rw e (loop_dash rest ∙ rw h)
loop-Piece p rest (slash h e) = rw e (loop_slash rest ∙ rw h)
loop-Piece p rest (quoted q body b h e) = rw (e, append_assoc) (loop_quote q _)
loop-Piece p rest (hash_comment body nl h k e) =
    rw (e, append_assoc) (loop_hash _ ∙ line_end body rest nl h k)
loop-Piece p rest (dash_comment body nl h k s e) =
    rw (e, append_assoc)
      (loop_dash _ ∙ rw (starts_line_comment-append body nl rest k s) (line_end body rest nl h k))
loop-Piece p rest (block_comment body h s e) =
    rw (e, append_assoc)
      (loop_slash _ ∙ rw (next_is-append body (b'/' ∷ rest) s) (block_end body rest h))

loop-Open : (p : Bytes) (o : Open p) → has_code_loop false scan_normal p ≡ not (is_comment o)
loop-Open p (open_quote q body b e) = rw e (loop_quote q body)
loop-Open p (open_escape q body b e) = rw e (loop_quote q (body ++ b'\\' ∷ []))
loop-Open p (open_hash body h e) = rw e (loop_hash body ∙ line_open body h)
loop-Open p (open_dash body h s e) = rw e (loop_dash body ∙ rw s (line_open body h))
loop-Open p (open_block body h s e) = rw e (loop_slash body ∙ rw s (block_open body h))

loop-IsCoded : {s : Bytes} {b : Bool} → IsCoded s b → has_code_loop false scan_normal s ≡ b
unfolding has_code_loop
loop-IsCoded nothing = refl
loop-IsCoded (last {p} o e) = loop-Open p o ∙ sym e
loop-IsCoded (trivia {p} {s} x k e c) = rw e (loop-Piece p s x ∙ rw k (loop-IsCoded c))
loop-IsCoded (semicolon {c} {s} e) = loop_semicolon c s e
loop-IsCoded (solid {p} {s} x k e) = rw e (loop-Piece p s x ∙ rw k)

code_of : {s : Bytes} {b : Bool} → IsCoded s b → statement_group_has_code s ≡ b
unfolding statement_group_has_code
code_of i = loop-IsCoded i

-- Whether a text is code, by the grammar; `first` names the piece that it begins with.
coded_upto : (n : ℕ) (s : Bytes) → length s ≤ n → (b : Bool) × IsCoded s b
coded_upto n [] h = (false, nothing)
coded_upto zero (c ∷ s) h = absurd (omega arith)
coded_upto (suc n) (c ∷ s) h = elim (first c s) [
  | cuts e ↦ (true, semicolon e)
  | opens o ↦ (not (is_comment o), last o refl)
  | takes p rest x e ↦ elim (Bool-cases (is_trivia x)) [
    | inl k ↦
        let (b, i) = coded_upto n rest (shorter p rest s n e h) in (b, trivia x k (ap (◌∷◌ c) e) i)
    | inr k ↦ (true, solid x k (ap (◌∷◌ c) e))
  ]
]

-- A text counts as code exactly when some piece of it is neither white space nor a comment. A
-- semicolon, and a quoted text that the text ends inside of, are code.
pub has_code-IsCoded : (s : Bytes) (b : Bool) → IsCoded s b ↔ (statement_group_has_code s ≡ b)
has_code-IsCoded s b = (
  code_of,
  λ e.
      let (b', i) = coded_upto (length s) s (omega arith) in
      subst (IsCoded s) (sym (code_of i) ∙ e) i,
)
