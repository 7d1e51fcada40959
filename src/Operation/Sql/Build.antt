-- ===== src/Operation/Sql/Build.antt =====
-- How the builders of internal/operation put statements together.
use mcp_server_for_mysql.Base.{
  ℕ, true, false, List, [], ◌∷◌, ◌++◌, append_assoc, inl, ◌≡◌, refl, sym, ap, ◌∙◌, arith, All,
  Bytes, codes, join_by, IsVisible, decimal, decimal-All, IsDigit,
}
use mcp_server_for_mysql.Database.Identifier.Laws.{IsPart, IsIdentifier, backticked}
use mcp_server_for_mysql.Sqlguard.Splitter.{next_is}
use mcp_server_for_mysql.Sqlguard.Splitter.Grammar.{is_special}
use mcp_server_for_mysql.Operation.Sql.{
  IsText, nil, byte, name, is_plain_text, IsText-literal, IsText-append, IsStatement,
}

-- The text ends with a visible byte.
pub record Ends (s : Bytes) : Type 0 where
  pub earlier : Bytes
  pub final : ℕ
  pub ends : s ≡ earlier ++ final ∷ []
  pub visible : IsVisible final

pub Ends-append : (a : Bytes) {b : Bytes} → Ends b → Ends (a ++ b)
Ends-append a x = record {
  earlier = a ++ x.earlier;
  final = x.final;
  ends = ap (λ t. a ++ t) x.ends ∙ sym (append_assoc a x.earlier (x.final ∷ []));
  visible = x.visible;
}

pub Ends-byte : (c : ℕ) → IsVisible c → Ends (c ∷ [])
Ends-byte c h = record { earlier = []; final = c; ends = refl; visible = h }

-- Text that may stand at the end of a statement.
abbrev pub IsPiece : Bytes → Type 0
IsPiece s = IsText s × Ends s

pub IsPiece-literal :
    (s : Bytes) {t : Bytes} → is_plain_text s ≡ true → IsPiece t → IsPiece (s ++ t)
IsPiece-literal s h (x, e) = (IsText-literal s h x, Ends-append s e)

pub IsPiece-append :
    {s t : Bytes} → IsPiece s → IsPiece t → next_is b'`' t ≡ false → IsPiece (s ++ t)
IsPiece-append {s} (x, _) (y, e) h = (IsText-append x y h, Ends-append s e)

parts : (s : Bytes) → IsIdentifier s → All IsPart s
parts [] h = absurd h
parts (c ∷ cs) h = (inl h.0, h.1)

pub IsPiece-backticked : (n : Bytes) → IsIdentifier n → IsPiece (backticked n)
IsPiece-backticked n h =
    (name n (parts n h) refl refl nil, Ends-append (b'`' ∷ n) (Ends-byte b'`' (omega arith)))

digit-plain : (c : ℕ) → IsDigit c → is_special c ≡ false
digit-plain c h = ground arith

digits-IsText : (s : Bytes) {t : Bytes} → All IsDigit s → IsText t → IsText (s ++ t)
digits-IsText [] h x = x
digits-IsText (c ∷ s) h x = byte (digit-plain c h.0) (digits-IsText s h.1 x)

pub IsPiece-decimal : (n : ℕ) {t : Bytes} → IsPiece t → IsPiece (decimal n ++ t)
IsPiece-decimal n (x, e) = (digits-IsText (decimal n) (decimal-All n) x, Ends-append (decimal n) e)

-- The columns of a list, joined by ", ".
pub IsPiece-join :
    (c : Bytes) (cs : List Bytes)
    → IsPiece c
    → All IsPiece cs
    → IsPiece (join_by (codes ", ") (c ∷ cs))
IsPiece-join c [] x h = x
IsPiece-join c (d ∷ cs) x h =
    IsPiece-append x (IsPiece-literal (codes ", ") refl (IsPiece-join d cs h.0 h.1)) refl

-- A literal that begins with a plain visible byte makes the text behind it a statement.
pub IsStatement-literal :
    (c : ℕ) (s : Bytes) {t : Bytes}
    → IsVisible c
    → is_plain_text (c ∷ s) ≡ true
    → IsPiece t
    → IsStatement (c ∷ (s ++ t))
IsStatement-literal c s {t} h k (x, e) =
    let f = Ends-append (c ∷ s) e in
    record {
      text = IsText-literal (c ∷ s) k x;
      first = c;
      later = s ++ t;
      starts = refl;
      first_visible = h;
      first_plain = ground arith;
      earlier = f.earlier;
      final = f.final;
      ends = f.ends;
      final_visible = f.visible;
    }
