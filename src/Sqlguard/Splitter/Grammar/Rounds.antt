-- ===== src/Sqlguard/Splitter/Grammar/Rounds.antt =====
-- The rounds of the scanner of internal/sqlguard/splitter.go over the parts of a piece.
use mcp_server_for_mysql.Base.{
  ℕ, Bool, true, false, ◌&&◌, List, [], ◌∷◌, ◌++◌, append-nil, append_assoc, ◌≢◌, ◌≡◌, refl, ◌∙◌,
  arith, ◌==◌, if◌then◌else◌, Bytes,
}
use mcp_server_for_mysql.Sqlguard.Splitter.{
  ScanState, scan_normal, scan_line_comment, scan_block_comment, split_round, split_loop, next_is,
  starts_line_comment, go, go_skip,
}
use mcp_server_for_mysql.Sqlguard.Splitter.Grammar.{
  Quote, single, double, backtick, quote_byte, quote_state, IsBody, end, plain, escaped, doubled,
  is_break, IsLine, IsBlock, is_special,
}

module _ (group : Bytes) (groups : List Bytes) where
  pub loop-go :
      (st st' : ScanState) (c : ℕ) (rest : Bytes)
      → split_round st c rest ≡ go st'
      → split_loop false st group groups (c ∷ rest)
        ≡ split_loop false st' (group ++ c ∷ []) groups rest
  unfolding split_loop
  loop-go st st' c rest e = rw e

  pub loop-go_skip :
      (st st' : ScanState) (c d : ℕ) (rest : Bytes)
      → split_round st c (d ∷ rest) ≡ go_skip st'
      → split_loop false st group groups (c ∷ d ∷ rest)
        ≡ split_loop false st' (group ++ (c ∷ d ∷ [])) groups rest
  unfolding split_loop
  loop-go_skip st st' c d rest e = rw (e, split_loop) (rw append_assoc)

round_plain :
    (q : Quote) (c : ℕ) (rest : Bytes)
    → c ≢ quote_byte q
    → c ≢ b'\\'
    → split_round (quote_state q) c rest ≡ go (quote_state q)
unfolding split_round
round_plain single c rest h k = ground arith
round_plain _ c rest h k = ground arith

round_escaped :
    (q : Quote) (c d : ℕ) (rest : Bytes)
    → c ≡ b'\\'
    → split_round (quote_state q) c (d ∷ rest) ≡ go_skip (quote_state q)
unfolding split_round
round_escaped single c d rest h = ground arith
round_escaped _ c d rest h = ground arith

round_doubled :
    (q : Quote) (c d : ℕ) (rest : Bytes)
    → c ≡ quote_byte q
    → d ≡ quote_byte q
    → split_round (quote_state q) c (d ∷ rest) ≡ go_skip (quote_state q)
unfolding split_round
round_doubled single c d rest h k = ground arith
round_doubled _ c d rest h k = ground arith

round_closing :
    (q : Quote) (rest : Bytes)
    → next_is (quote_byte q) rest ≡ false
    → split_round (quote_state q) (quote_byte q) rest ≡ go scan_normal
unfolding split_round
round_closing single rest h = ground arith
round_closing _ rest h = ground arith

pub round_opening :
    (q : Quote) (rest : Bytes) → split_round scan_normal (quote_byte q) rest ≡ go (quote_state q)
unfolding split_round
round_opening single rest = refl
round_opening _ rest = refl

-- A backslash at the very end of the text escapes nothing.
pub round_lone : (q : Quote) → split_round (quote_state q) b'\\' [] ≡ go (quote_state q)
unfolding split_round
round_lone single = refl
round_lone double = refl
round_lone backtick = refl

-- The text that is read moves from the input to the group.
pub shift :
    (group p q : Bytes) (st : ScanState) (groups : List Bytes) (rest : Bytes)
    → split_loop false st ((group ++ p) ++ q) groups rest
      ≡ split_loop false st (group ++ (p ++ q)) groups rest
shift group p q st groups rest = rw append_assoc

pub loop-IsBody :
    (q : Quote) (group : Bytes) (groups : List Bytes) {body : Bytes} (rest : Bytes)
    → IsBody (quote_byte q) body
    → split_loop false (quote_state q) group groups (body ++ rest)
      ≡ split_loop false (quote_state q) (group ++ body) groups rest
loop-IsBody q group groups rest end = rw append-nil
loop-IsBody q group groups rest (plain {c} {s} h k b) =
    loop-go group groups _ _ c (s ++ rest) (round_plain q c (s ++ rest) h k)
    ∙ loop-IsBody q (group ++ c ∷ []) groups rest b
    ∙ shift group (c ∷ []) s _ groups rest
loop-IsBody q group groups rest (escaped {b} {c} {s} h t) =
    loop-go_skip group groups _ _ b c (s ++ rest) (round_escaped q b c (s ++ rest) h)
    ∙ loop-IsBody q (group ++ (b ∷ c ∷ [])) groups rest t
    ∙ shift group (b ∷ c ∷ []) s _ groups rest
loop-IsBody q group groups rest (doubled {c} {d} {s} h k t) =
    loop-go_skip group groups _ _ c d (s ++ rest) (round_doubled q c d (s ++ rest) h k)
    ∙ loop-IsBody q (group ++ (c ∷ d ∷ [])) groups rest t
    ∙ shift group (c ∷ d ∷ []) s _ groups rest

pub loop-IsLine :
    (group : Bytes) (groups : List Bytes) (body rest : Bytes)
    → IsLine body
    → split_loop false scan_line_comment group groups (body ++ rest)
      ≡ split_loop false scan_line_comment (group ++ body) groups rest
loop-IsLine group groups [] rest h = rw append-nil
loop-IsLine group groups (c ∷ body) rest h =
    loop-go group groups scan_line_comment scan_line_comment c (body ++ rest)
      (unfold split_round in ground arith)
    ∙ loop-IsLine (group ++ c ∷ []) groups body rest h.1
    ∙ shift group (c ∷ []) body _ groups rest

block_round :
    (c : ℕ) (cs rest : Bytes)
    → (c == b'*' && next_is b'/' cs) ≡ false
    → next_is b'/' rest ≡ false
    → split_round scan_block_comment c (cs ++ rest) ≡ go scan_block_comment
unfolding split_round
block_round c [] rest h k = ground arith
block_round c (d ∷ cs) rest h k = ground arith

pub loop-IsBlock :
    (group : Bytes) (groups : List Bytes) (body rest : Bytes)
    → IsBlock body
    → next_is b'/' rest ≡ false
    → split_loop false scan_block_comment group groups (body ++ rest)
      ≡ split_loop false scan_block_comment (group ++ body) groups rest
loop-IsBlock group groups [] rest h k = rw append-nil
loop-IsBlock group groups (c ∷ body) rest h k =
    loop-go group groups scan_block_comment scan_block_comment c (body ++ rest)
      (block_round c body rest h.0 k)
    ∙ loop-IsBlock (group ++ c ∷ []) groups body rest h.1 k
    ∙ shift group (c ∷ []) body _ groups rest

round_break :
    (nl : ℕ) (rest : Bytes)
    → is_break nl ≡ true
    → split_round scan_line_comment nl rest ≡ go scan_normal
unfolding split_round
round_break nl rest h = ground arith

pub round_code :
    (c : ℕ) (rest : Bytes) → is_special c ≡ false → split_round scan_normal c rest ≡ go scan_normal
unfolding split_round
round_code c rest h = ground arith

pub round_dash :
    (b : Bool) (rest : Bytes)
    → starts_line_comment rest ≡ b
    → split_round scan_normal b'-' rest ≡ (if b then go scan_line_comment else go scan_normal)
unfolding split_round
round_dash b rest h = ground arith

pub round_slash :
    (b : Bool) (rest : Bytes)
    → next_is b'*' rest ≡ b
    → split_round scan_normal b'/' rest ≡ (if b then go scan_block_comment else go scan_normal)
unfolding split_round
round_slash b rest h = ground arith

pub round_hash : (rest : Bytes) → split_round scan_normal b'#' rest ≡ go scan_line_comment
unfolding split_round
round_hash rest = refl

round_close :
    (rest : Bytes) → split_round scan_block_comment b'*' (b'/' ∷ rest) ≡ go_skip scan_normal
unfolding split_round
round_close rest = refl

-- The test of a dash reads two bytes, which the text of a comment and its line break have.
pub starts_line_comment-append :
    (body : Bytes) (nl : ℕ) (rest : Bytes)
    → is_break nl ≡ true
    → starts_line_comment (body ++ nl ∷ []) ≡ true
    → starts_line_comment (body ++ (nl ∷ rest)) ≡ true
unfolding starts_line_comment
starts_line_comment-append [] nl rest h k = ground arith
starts_line_comment-append (c ∷ []) nl rest h k = ground arith
starts_line_comment-append (c ∷ d ∷ body) nl rest h k = k

pub next_is-append :
    (body rest : Bytes)
    → next_is b'*' (body ++ b'*' ∷ []) ≡ true
    → next_is b'*' (body ++ (b'*' ∷ rest)) ≡ true
next_is-append [] rest h = refl
next_is-append (c ∷ body) rest h = h

pub line_end :
    (group : Bytes) (groups : List Bytes) (body rest : Bytes) (nl : ℕ)
    → IsLine body
    → is_break nl ≡ true
    → split_loop false scan_line_comment group groups (body ++ (nl ∷ rest))
      ≡ split_loop false scan_normal (group ++ (body ++ nl ∷ [])) groups rest
line_end group groups body rest nl h k =
    loop-IsLine group groups body (nl ∷ rest) h
    ∙ loop-go (group ++ body) groups _ _ nl rest (round_break nl rest k)
    ∙ shift group body (nl ∷ []) _ groups rest

pub block_end :
    (group : Bytes) (groups : List Bytes) (body rest : Bytes)
    → IsBlock body
    → split_loop false scan_block_comment group groups (body ++ (b'*' ∷ b'/' ∷ rest))
      ≡ split_loop false scan_normal (group ++ (body ++ b'*' ∷ b'/' ∷ [])) groups rest
block_end group groups body rest h =
    loop-IsBlock group groups body (b'*' ∷ b'/' ∷ rest) h refl
    ∙ loop-go_skip (group ++ body) groups _ _ b'*' b'/' rest (round_close rest)
    ∙ shift group body (b'*' ∷ b'/' ∷ []) _ groups rest

pub quote_end :
    (q : Quote) (group : Bytes) (groups : List Bytes) {body : Bytes} (rest : Bytes)
    → IsBody (quote_byte q) body
    → next_is (quote_byte q) rest ≡ false
    → split_loop false (quote_state q) group groups (body ++ (quote_byte q ∷ rest))
      ≡ split_loop false scan_normal (group ++ (body ++ quote_byte q ∷ [])) groups rest
quote_end q group groups {body} rest b h =
    loop-IsBody q group groups (quote_byte q ∷ rest) b
    ∙ loop-go (group ++ body) groups _ _ (quote_byte q) rest (round_closing q rest h)
    ∙ shift group body (quote_byte q ∷ []) _ groups rest
