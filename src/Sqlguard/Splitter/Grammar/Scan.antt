-- ===== src/Sqlguard/Splitter/Grammar/Scan.antt =====
-- The scanner of internal/sqlguard/splitter.go reads the grammar: it takes each piece whole.
use mcp_server_for_mysql.Base.{
  ℕ, true, false, List, [], ◌∷◌, ◌++◌, append-nil, append_assoc, ◌≡◌, refl, sym, subst, ◌↔◌, ap,
  ◌∙◌, Bytes,
}
use mcp_server_for_mysql.Sqlguard.Splitter.{
  ScanState, scan_normal, split_round, split_loop, split_groups,
}
use mcp_server_for_mysql.Sqlguard.Splitter.Grammar.{
  quote_byte, quote_state, Piece, code, dash, slash, quoted, hash_comment, dash_comment,
  block_comment, Open, open_quote, open_escape, open_hash, open_dash, open_block, Lexed, done, last,
  cut, piece,
}
use mcp_server_for_mysql.Sqlguard.Splitter.Grammar.Rounds.{
  loop-go, round_opening, round_lone, shift, loop-IsBody, loop-IsLine, loop-IsBlock, round_code,
  round_dash, round_slash, round_hash, starts_line_comment-append, next_is-append, line_end,
  block_end, quote_end,
}
use mcp_server_for_mysql.Sqlguard.Splitter.Grammar.Total.{groups_total}

-- The scanner takes a piece into the group and is back in its normal state.
pub loop-Piece :
    (group : Bytes) (groups : List Bytes) (p rest : Bytes)
    → Piece rest p
    → split_loop false scan_normal group groups (p ++ rest)
      ≡ split_loop false scan_normal (group ++ p) groups rest
loop-Piece group groups p rest (code c h e) =
    rw e (loop-go group groups _ _ c rest (round_code c rest h))
loop-Piece group groups p rest (dash h e) =
    rw e (loop-go group groups _ _ b'-' rest (round_dash false rest h))
loop-Piece group groups p rest (slash h e) =
    rw e (loop-go group groups _ _ b'/' rest (round_slash false rest h))
loop-Piece group groups p rest (quoted q body b h e) =
    rw (e, append_assoc)
      (loop-go group groups _ _ (quote_byte q) _ (round_opening q _)
        ∙ quote_end q (group ++ quote_byte q ∷ []) groups rest b h
        ∙ shift group (quote_byte q ∷ []) _ _ groups rest)
loop-Piece group groups p rest (hash_comment body nl h k e) =
    rw (e, append_assoc)
      (loop-go group groups _ _ b'#' _ (round_hash _)
        ∙ line_end (group ++ b'#' ∷ []) groups body rest nl h k
        ∙ shift group (b'#' ∷ []) _ _ groups rest)
loop-Piece group groups p rest (dash_comment body nl h k s e) =
    rw (e, append_assoc)
      (loop-go group groups _ _ b'-' _
          (round_dash true _ (starts_line_comment-append body nl rest k s))
        ∙ line_end (group ++ b'-' ∷ []) groups body rest nl h k
        ∙ shift group (b'-' ∷ []) _ _ groups rest)
loop-Piece group groups p rest (block_comment body h s e) =
    rw (e, append_assoc)
      (loop-go group groups _ _ b'/' _ (round_slash true _ (next_is-append body (b'/' ∷ rest) s))
        ∙ block_end (group ++ b'/' ∷ []) groups body rest h
        ∙ shift group (b'/' ∷ []) _ _ groups rest)

-- A text or comment that the input ends in is the last group.
loop-nil :
    (st : ScanState) (group : Bytes) (groups : List Bytes)
    → split_loop false st group groups [] ≡ groups ++ group ∷ []
unfolding split_loop
loop-nil st group groups = refl

-- What takes the rest of the input into the group takes it to the end of the input.
loop_end :
    (st : ScanState) (group : Bytes) (groups : List Bytes) (body : Bytes)
    → split_loop false st group groups (body ++ []) ≡ split_loop false st (group ++ body) groups []
    → split_loop false st group groups body ≡ groups ++ (group ++ body) ∷ []
loop_end st group groups body e =
    ap (split_loop false st group groups) (sym (append-nil body))
    ∙ e
    ∙ loop-nil st (group ++ body) groups

regroup :
    (group : Bytes) (groups : List Bytes) (c : ℕ) (body : Bytes)
    → groups ++ ((group ++ c ∷ []) ++ body) ∷ [] ≡ groups ++ (group ++ (c ∷ body)) ∷ []
regroup group groups c body = rw append_assoc

loop-Open :
    (group : Bytes) (groups : List Bytes) (p : Bytes)
    → Open p
    → split_loop false scan_normal group groups p ≡ groups ++ (group ++ p) ∷ []
loop-Open group groups p (open_quote q body b e) = rw e (
    loop-go group groups _ _ (quote_byte q) body (round_opening q body)
    ∙ loop_end _ _ groups body (loop-IsBody q (group ++ quote_byte q ∷ []) groups [] b)
    ∙ regroup group groups (quote_byte q) body)
loop-Open group groups p (open_escape q body b e) = rw e (
    loop-go group groups _ _ (quote_byte q) _ (round_opening q _)
    ∙ loop-IsBody q (group ++ quote_byte q ∷ []) groups (b'\\' ∷ []) b
    ∙ loop-go _ groups _ _ b'\\' [] (round_lone q)
    ∙ loop-nil (quote_state q) _ groups
    ∙ rw append_assoc (regroup group groups (quote_byte q) (body ++ b'\\' ∷ [])))
loop-Open group groups p (open_hash body h e) = rw e (
    loop-go group groups _ _ b'#' body (round_hash body)
    ∙ loop_end _ _ groups body (loop-IsLine (group ++ b'#' ∷ []) groups body [] h)
    ∙ regroup group groups b'#' body)
loop-Open group groups p (open_dash body h s e) = rw e (
    loop-go group groups _ _ b'-' body (round_dash true body s)
    ∙ loop_end _ _ groups body (loop-IsLine (group ++ b'-' ∷ []) groups body [] h)
    ∙ regroup group groups b'-' body)
loop-Open group groups p (open_block body h s e) = rw e (
    loop-go group groups _ _ b'/' body (round_slash true body s)
    ∙ loop_end _ _ groups body (loop-IsBlock (group ++ b'/' ∷ []) groups body [] h refl)
    ∙ regroup group groups b'/' body)

-- The bytes in front of the first group.
abbrev prepend : Bytes → List Bytes → List Bytes
prepend g [] = []
prepend g (h ∷ hs) = (g ++ h) ∷ hs

prepend-nil : (gs : List Bytes) → prepend [] gs ≡ gs
prepend-nil [] = refl
prepend-nil (g ∷ gs) = refl

loop_cut :
    (group : Bytes) (groups : List Bytes) (c : ℕ) (rest : Bytes)
    → c ≡ b';'
    → split_loop false scan_normal group groups (c ∷ rest)
      ≡ split_loop false scan_normal [] (groups ++ group ∷ []) rest
unfolding split_loop split_round
loop_cut group groups c rest e = rw e

loop-Lexed :
    {s : Bytes} {gs : List Bytes} (group : Bytes) (groups : List Bytes)
    → Lexed s gs
    → split_loop false scan_normal group groups s ≡ groups ++ prepend group gs
loop-Lexed group groups done = loop-nil scan_normal group groups ∙ rw append-nil
loop-Lexed group groups (last {p} o) = loop-Open group groups p o
loop-Lexed group groups (cut {c} {s} {gs} e l) =
    loop_cut group groups c s e
    ∙ loop-Lexed [] (groups ++ group ∷ []) l
    ∙ rw (prepend-nil, append_assoc, append-nil)
loop-Lexed group groups (piece {p} {s} {t} {g} x e l) =
    rw e (loop-Piece group groups p s x) ∙ loop-Lexed (group ++ p) groups l ∙ rw append_assoc

groups_of : {s : Bytes} {gs : List Bytes} → Lexed s gs → split_groups s ≡ gs
unfolding split_groups
groups_of {gs = gs} l = loop-Lexed [] [] l ∙ prepend-nil gs

-- The scanner returns some groups exactly when these are the groups of the text by the grammar,
-- between the semicolons outside a quoted text or a comment: every text has such groups, and only
-- one list of them.
pub split_groups-Lexed : (s : Bytes) (gs : List Bytes) → Lexed s gs ↔ (split_groups s ≡ gs)
split_groups-Lexed s gs =
    (groups_of, λ e. let (g, hs, l) = groups_total s in subst (Lexed s) (sym (groups_of l) ∙ e) l)
