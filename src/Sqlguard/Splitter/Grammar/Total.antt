-- ===== src/Sqlguard/Splitter/Grammar/Total.antt =====
-- How a text is taken apart by the grammar of what internal/sqlguard/splitter.go scans.
use mcp_server_for_mysql.Base.{
  subst, length-append, ℕ, zero, suc, ◌≤◌, ◌<◌, true, false, ◌&&◌, List, [], ◌∷◌, ◌++◌,
  append_assoc, ◌≢◌, inl, inr, ◌≡◌, refl, ap, ◌∙◌, arith, ◌==◌, Bool-cases, length, Bytes,
}
use mcp_server_for_mysql.Sqlguard.Splitter.{next_is, starts_line_comment}
use mcp_server_for_mysql.Sqlguard.Splitter.Grammar.{
  Quote, single, double, backtick, quote_byte, IsBody, end, plain, escaped, doubled, is_break,
  IsLine, IsBlock, Piece, code, dash, slash, quoted, hash_comment, dash_comment, block_comment,
  Open, open_quote, open_escape, open_hash, open_dash, open_block, Lexed, done, last, cut, piece,
}

-- Where a quoted text ends.
data QuoteEnd (q : ℕ) (s : Bytes) : Type 0 where
  closes :
      (body rest : Bytes)
      → IsBody q body
      → next_is q rest ≡ false
      → s ≡ body ++ (q ∷ rest)
      → QuoteEnd q s
  stays : IsBody q s → QuoteEnd q s
  breaks : (body : Bytes) → IsBody q body → s ≡ body ++ b'\\' ∷ [] → QuoteEnd q s

quote_further :
    {q : ℕ} (p : Bytes) {s : Bytes}
    → ((body : Bytes) → IsBody q body → IsBody q (p ++ body))
    → QuoteEnd q s
    → QuoteEnd q (p ++ s)
quote_further p f (closes body rest b n e) =
    closes (p ++ body) rest (f body b) n (ap (λ t. p ++ t) e ∙ rw append_assoc)
quote_further p f (stays b) = stays (f _ b)
quote_further p f (breaks body b e) =
    breaks (p ++ body) (f body b) (ap (λ t. p ++ t) e ∙ rw append_assoc)

quote_ends : (q : ℕ) → q ≢ b'\\' → (s : Bytes) → QuoteEnd q s
quote_ends q u [] = stays end
quote_ends q u (c ∷ []) = elim (Bool-cases (c == b'\\')) [
  | inl h ↦ breaks [] end (ground arith)
  | inr h ↦ elim (Bool-cases (c == q)) [
    | inl k ↦ closes [] [] end refl (ground arith)
    | inr k ↦ stays (plain (ground arith) (ground arith) end)
  ]
]
quote_ends q u (c ∷ d ∷ s) = elim (Bool-cases (c == b'\\')) [
  | inl h ↦ quote_further (c ∷ d ∷ []) (λ body. escaped (ground arith)) (quote_ends q u s)
  | inr h ↦ elim (Bool-cases (c == q)) [
    | inl k ↦ elim (Bool-cases (d == q)) [
      | inl j ↦
          quote_further (c ∷ d ∷ []) (λ body. doubled (ground arith) (ground arith))
            (quote_ends q u s)
      | inr j ↦ closes [] (d ∷ s) end j (ground arith)
    ]
    | inr k ↦
        quote_further (c ∷ []) (λ body. plain (ground arith) (ground arith))
          (quote_ends q u (d ∷ s))
  ]
]

-- Where a line comment ends.
data LineEnd (s : Bytes) : Type 0 where
  closes :
      (body : Bytes) (nl : ℕ) (rest : Bytes)
      → IsLine body
      → is_break nl ≡ true
      → s ≡ body ++ (nl ∷ rest)
      → LineEnd s
  stays : IsLine s → LineEnd s

line_further : (c : ℕ) {s : Bytes} → is_break c ≡ false → LineEnd s → LineEnd (c ∷ s)
line_further c h (closes body nl rest b n e) = closes (c ∷ body) nl rest (h, b) n (ap (◌∷◌ c) e)
line_further c h (stays b) = stays (h, b)

line_ends : (s : Bytes) → LineEnd s
line_ends [] = stays tt
line_ends (c ∷ s) = elim (Bool-cases (is_break c)) [
  | inl h ↦ closes [] c s tt h refl
  | inr h ↦ line_further c h (line_ends s)
]

-- Where a block comment ends.
data BlockEnd (s : Bytes) : Type 0 where
  closes : (body rest : Bytes) → IsBlock body → s ≡ body ++ (b'*' ∷ b'/' ∷ rest) → BlockEnd s
  stays : IsBlock s → BlockEnd s

block_further :
    (c : ℕ) {s : Bytes} → (c == b'*' && next_is b'/' s) ≡ false → BlockEnd s → BlockEnd (c ∷ s)
block_further c h (stays b) = stays (h, b)
block_further c h (closes [] rest b e) = closes (c ∷ []) rest (ground arith, tt) (ap (◌∷◌ c) e)
block_further c h (closes (d ∷ body) rest b e) =
    closes (c ∷ d ∷ body) rest (subst (λ t. (c == b'*' && next_is b'/' t) ≡ false) e h, b)
      (ap (◌∷◌ c) e)

block_closes : (c : ℕ) (s : Bytes) → (c == b'*' && next_is b'/' s) ≡ true → BlockEnd (c ∷ s)
block_closes c [] h = absurd (ground arith)
block_closes c (d ∷ s) h = closes [] s tt (ground arith)

block_ends : (s : Bytes) → BlockEnd s
block_ends [] = stays tt
block_ends (c ∷ s) = elim (Bool-cases (c == b'*' && next_is b'/' s)) [
  | inl h ↦ block_closes c s h
  | inr h ↦ block_further c h (block_ends s)
]

-- What the text `c ∷ s` begins with: a semicolon, a text or comment that does not end, or a piece.
pub data First (c : ℕ) (s : Bytes) : Type 0 where
  cuts : c ≡ b';' → First c s
  opens : Open (c ∷ s) → First c s
  takes : (p rest : Bytes) → Piece rest (c ∷ p) → s ≡ p ++ rest → First c s

not_backslash : (q : Quote) → quote_byte q ≢ b'\\'
not_backslash single e = omega (arith, e)
not_backslash double e = omega (arith, e)
not_backslash backtick e = omega (arith, e)

quote_first : (q : Quote) (s : Bytes) → First (quote_byte q) s
quote_first q s = elim (quote_ends (quote_byte q) (not_backslash q) s) [
  | closes body rest b n e ↦
      takes (body ++ quote_byte q ∷ []) rest (quoted q body b n refl) (e ∙ rw append_assoc)
  | stays b ↦ opens (open_quote q s b refl)
  | breaks body b e ↦ opens (open_escape q body b (ap (◌∷◌ (quote_byte q)) e))
]

hash_first : (s : Bytes) → First b'#' s
hash_first s = elim (line_ends s) [
  | closes body nl rest b n e ↦
      takes (body ++ nl ∷ []) rest (hash_comment body nl b n refl) (e ∙ rw append_assoc)
  | stays b ↦ opens (open_hash s b refl)
]

starts_without :
    (body : Bytes) (nl : ℕ) (rest : Bytes)
    → is_break nl ≡ true
    → starts_line_comment (body ++ (nl ∷ rest)) ≡ true
    → starts_line_comment (body ++ nl ∷ []) ≡ true
unfolding starts_line_comment
starts_without [] nl rest h k = ground arith
starts_without (c ∷ []) nl rest h k = k
starts_without (c ∷ d ∷ body) nl rest h k = k

dash_first : (s : Bytes) → First b'-' s
dash_first s = elim (Bool-cases (starts_line_comment s)) [
  | inr h ↦ takes [] s (dash h refl) refl
  | inl h ↦ elim (line_ends s) [
    | closes body nl rest b n e ↦
        takes (body ++ nl ∷ []) rest
          (dash_comment body nl b n
            (starts_without body nl rest n (subst (λ t. starts_line_comment t ≡ true) e h)) refl)
          (e ∙ rw append_assoc)
    | stays b ↦ opens (open_dash s b h refl)
  ]
]

star_without :
    (body rest : Bytes)
    → next_is b'*' (body ++ (b'*' ∷ b'/' ∷ rest)) ≡ true
    → next_is b'*' (body ++ b'*' ∷ []) ≡ true
star_without [] rest h = refl
star_without (c ∷ body) rest h = h

slash_first : (s : Bytes) → First b'/' s
slash_first s = elim (Bool-cases (next_is b'*' s)) [
  | inr h ↦ takes [] s (slash h refl) refl
  | inl h ↦ elim (block_ends s) [
    | closes body rest b e ↦
        takes (body ++ b'*' ∷ b'/' ∷ []) rest
          (block_comment body b (star_without body rest (subst (λ t. next_is b'*' t ≡ true) e h))
            refl)
          (e ∙ rw append_assoc)
    | stays b ↦ opens (open_block s b h refl)
  ]
]

at : {c : ℕ} {s : Bytes} (k : ℕ) → (c == k) ≡ true → First k s → First c s
at {c} {s} k h f = subst (λ x. First x s) (ground arith) f

pub first : (c : ℕ) (s : Bytes) → First c s
first c s = elim (Bool-cases (c == b'\'')) [
  | inl h ↦ at b'\'' h (quote_first single s)
  | inr h1 ↦ elim (Bool-cases (c == b'"')) [
    | inl h ↦ at b'"' h (quote_first double s)
    | inr h2 ↦ elim (Bool-cases (c == b'`')) [
      | inl h ↦ at b'`' h (quote_first backtick s)
      | inr h3 ↦ elim (Bool-cases (c == b'-')) [
        | inl h ↦ at b'-' h (dash_first s)
        | inr h4 ↦ elim (Bool-cases (c == b'#')) [
          | inl h ↦ at b'#' h (hash_first s)
          | inr h5 ↦ elim (Bool-cases (c == b'/')) [
            | inl h ↦ at b'/' h (slash_first s)
            | inr h6 ↦ elim (Bool-cases (c == b';')) [
              | inl h ↦ cuts (ground arith)
              | inr h7 ↦ takes [] s (code c (rw (h1, h2, h3, h4, h5, h6, h7)) refl) refl
            ]
          ]
        ]
      ]
    ]
  ]
]

pub shorter : (p rest s : Bytes) (n : ℕ) → s ≡ p ++ rest → length s < suc n → length rest ≤ n
shorter p rest s n e h = omega (arith, ap length e, length-append p rest)

groups_upto :
    (n : ℕ) (s : Bytes) → length s ≤ n → (g : Bytes) × (gs : List Bytes) × Lexed s (g ∷ gs)
groups_upto n [] h = ([], [], done)
groups_upto zero (c ∷ s) h = absurd (omega arith)
groups_upto (suc n) (c ∷ s) h = elim (first c s) [
  | cuts e ↦ let (g, gs, l) = groups_upto n s (omega arith) in ([], g ∷ gs, cut e l)
  | opens o ↦ (c ∷ s, [], last o)
  | takes p rest x e ↦
      let (g, gs, l) = groups_upto n rest (shorter p rest s n e h) in
      ((c ∷ p) ++ g, gs, piece x (ap (◌∷◌ c) e) l)
]

-- Every text has groups by the grammar.
pub groups_total : (s : Bytes) → (g : Bytes) × (gs : List Bytes) × Lexed s (g ∷ gs)
groups_total s = groups_upto (length s) s (omega arith)
