-- ===== src/Operation/Sql.antt =====
-- Text that the builders of internal/operation produce: one statement for the scanner of
-- internal/sqlguard, whatever the request holds.
pub mod Split
pub mod Build
use mcp_server_for_mysql.Base.{
  ℕ, Bool, true, false, not, ◌&&◌, List, [], ◌∷◌, ◌++◌, map, append-nil, append_assoc, ◌≢◌, ◌≡◌,
  refl, sym, ap, arith, All, Bytes, codes, join_by, IsVisible,
}
use mcp_server_for_mysql.Database.Identifier.{is_identifier_start, is_identifier_part}
use mcp_server_for_mysql.Database.Identifier.Laws.{IsStart, IsPart, IsIdentifier, backticked}
use mcp_server_for_mysql.Sqlguard.Splitter.{next_is, is_comment_space, statement_group_has_code}
use mcp_server_for_mysql.Sqlguard.Splitter.Grammar.{
  Quote, backtick, IsBody, end, plain, is_special, Piece, code, quoted, Lexed, done, cut, piece,
}
use mcp_server_for_mysql.Sqlguard.Splitter.Grammar.Code.{IsCoded, solid, trivia, has_code-IsCoded}

-- Bytes that are not special to the scanner, and names in backticks.
pub data IsText : Bytes → Type 0 where
  nil : IsText []
  byte : {c : ℕ} {s : Bytes} → is_special c ≡ false → IsText s → IsText (c ∷ s)
  name :
      (n : Bytes) {s t : Bytes}
      → All IsPart n
      → next_is b'`' s ≡ false
      → t ≡ b'`' ∷ (n ++ (b'`' ∷ s))
      → IsText s
      → IsText t

-- The bytes that a literal of the source may have.
abbrev pub is_plain_text : Bytes → Bool
is_plain_text [] = true
is_plain_text (c ∷ cs) = not (is_special c) && is_plain_text cs

pub IsText-literal : (s : Bytes) {t : Bytes} → is_plain_text s ≡ true → IsText t → IsText (s ++ t)
IsText-literal [] h x = x
IsText-literal (c ∷ s) h x = byte (ground arith) (IsText-literal s (ground arith) x)

next-append :
    (s t : Bytes) → next_is b'`' s ≡ false → next_is b'`' t ≡ false → next_is b'`' (s ++ t) ≡ false
next-append [] t h k = k
next-append (c ∷ s) t h k = h

pub IsText-append : {s t : Bytes} → IsText s → IsText t → next_is b'`' t ≡ false → IsText (s ++ t)
IsText-append nil y h = y
IsText-append (byte k x) y h = byte k (IsText-append x y h)
IsText-append {t = t} (name n {s} a b e x) y h =
    name n a (next-append s t b h) (rw e (ap (◌∷◌ b'`') (append_assoc n (b'`' ∷ s) t)))
      (IsText-append x y h)

IsPart-ne : (c : ℕ) → IsPart c → (c ≢ b'`') × (c ≢ b'\\')
IsPart-ne c h = (ground arith, ground arith)

All-IsBody : (n : Bytes) → All IsPart n → IsBody b'`' n
All-IsBody [] h = end
All-IsBody (c ∷ n) h = plain ((IsPart-ne c h.0).0) ((IsPart-ne c h.0).1) (All-IsBody n h.1)

Lexed-Piece :
    {p s t h g : Bytes} {gs : List Bytes}
    → Piece s p
    → t ≡ p ++ s
    → h ≡ p ++ g
    → Lexed s (g ∷ gs)
    → Lexed t (h ∷ gs)
Lexed-Piece x e f l = rw f (piece x e l)

regroup :
    (n s r : Bytes) {t : Bytes} → t ≡ b'`' ∷ (n ++ (b'`' ∷ s)) → t ++ r ≡ backticked n ++ (s ++ r)
regroup n s r e = rw (e, append_assoc, append_assoc)

-- The scanner reads the text as part of one group.
pub Lexed-IsText :
    {s : Bytes} (rest g : Bytes) {gs : List Bytes}
    → IsText s
    → next_is b'`' rest ≡ false
    → Lexed rest (g ∷ gs)
    → Lexed (s ++ rest) ((s ++ g) ∷ gs)
Lexed-IsText rest g nil h l = l
Lexed-IsText rest g (byte {c} {s} k x) h l = piece (code c k refl) refl (Lexed-IsText rest g x h l)
Lexed-IsText rest g {gs = gs} (name n {s} {t} a b e x) h l =
    Lexed-Piece (quoted backtick n (All-IsBody n a) (next-append s rest b h) refl)
      (regroup n s rest e) (regroup n s g e) (Lexed-IsText rest g x h l)

-- One statement: such a text that begins with a plain visible byte and ends with a visible one.
pub record IsStatement (s : Bytes) : Type 0 where
  pub text : IsText s
  pub first : ℕ
  pub later : Bytes
  pub starts : s ≡ first ∷ later
  pub first_visible : IsVisible first
  pub first_plain : is_special first ≡ false
  pub earlier : Bytes
  pub final : ℕ
  pub ends : s ≡ earlier ++ final ∷ []
  pub final_visible : IsVisible final

solid-code : (c : ℕ) (rest : Bytes) → IsVisible c → is_special c ≡ false → IsCoded (c ∷ rest) true
solid-code c rest h k = solid {p = c ∷ []} {s = rest} (code c k refl) (ground arith) refl

pub has_code-IsStatement : {s : Bytes} → IsStatement s → statement_group_has_code s ≡ true
has_code-IsStatement x =
    rw x.starts
      ((has_code-IsCoded _ _).0 (solid-code x.first x.later x.first_visible x.first_plain))

pub has_code-spaced : {s : Bytes} → IsStatement s → statement_group_has_code (b' ' ∷ s) ≡ true
has_code-spaced {s} x = (has_code-IsCoded _ _).0 (
    trivia {p = b' ' ∷ []} {s = s} (code b' ' refl refl) refl refl
      (rw x.starts (solid-code x.first x.later x.first_visible x.first_plain)))

-- The bytes of `;` and a space between two statements.
abbrev pub separator : Bytes
separator = codes "; "

abbrev pub spaced : Bytes → Bytes
spaced s = b' ' ∷ s

Lexed-eq :
    {t t' g g' : Bytes} {gs : List Bytes} → t ≡ t' → g ≡ g' → Lexed t' (g' ∷ gs) → Lexed t (g ∷ gs)
Lexed-eq e f l = rw (e, f) l

pub Lexed-statements :
    (s : Bytes) (ss : List Bytes)
    → IsText s
    → All IsText ss
    → Lexed (join_by separator (s ∷ ss)) (s ∷ map spaced ss)
Lexed-statements s [] x y =
    Lexed-eq (sym (append-nil s)) (sym (append-nil s)) (Lexed-IsText [] [] x refl done)
Lexed-statements s (u ∷ ss) x y = Lexed-eq refl (sym (append-nil s)) (
    Lexed-IsText _ [] x refl
      (cut refl (piece {p = b' ' ∷ []} (code b' ' refl refl) refl (Lexed-statements u ss y.0 y.1))))
