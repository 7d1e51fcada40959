-- ===== src/Config/Reference/Laws.antt =====
-- Which texts are a reference to an environment variable (internal/config/config.go).
use mcp_server_for_mysql.Base.{
  subst, ℕ, true, [], ◌∷◌, ◌++◌, append-nil, append_assoc, ◌↔◌, inl, inr, none, some, ◌≡◌, refl,
  sym, ap, ◌∙◌, arith, Bool-cases, All, Bytes,
}
use mcp_server_for_mysql.Database.Identifier.Laws.{
  IsPart, IsIdentifier, is_identifier_start_iff, is_identifier_part_iff,
}
use mcp_server_for_mysql.Config.Reference.{is_name_byte, match_name, environment_reference}

-- What may follow the characters of a name so far.
abbrev IsTail : Bytes → Bytes → Type 0
IsTail [] tail = IsIdentifier tail
IsTail (_ ∷ _) tail = All IsPart tail

name_byte-IsTail :
    (name : Bytes) (c : ℕ) (tail : Bytes)
    → is_name_byte name c ≡ true
    → IsTail (name ++ c ∷ []) tail
    → IsTail name (c ∷ tail)
name_byte-IsTail [] c tail h t = ((is_identifier_start_iff c).0 h, t)
name_byte-IsTail (x ∷ name) c tail h t = ((is_identifier_part_iff c).0 h, t)

IsTail-cons :
    (name : Bytes) (c : ℕ) (tail : Bytes)
    → IsTail name (c ∷ tail)
    → (is_name_byte name c ≡ true) × IsTail (name ++ c ∷ []) tail
IsTail-cons [] c tail (h, t) = ((is_identifier_start_iff c).1 h, t)
IsTail-cons (x ∷ name) c tail (h, t) = ((is_identifier_part_iff c).1 h, t)

match_name-some :
    (name text : Bytes) {found : Bytes}
    → match_name name text ≡ some found
    → (tail : Bytes) × (found ≡ name ++ tail) × (text ≡ tail ++ b'}' ∷ []) × IsTail name tail
unfolding match_name
match_name-some name [] h = cc
match_name-some [] (c ∷ []) h = ground arith
match_name-some (x ∷ name) (c ∷ []) h =
    ([], ground (arith, append-nil (x ∷ name)), ground arith, tt)
match_name-some name (c ∷ d ∷ rest) h = elim (Bool-cases (is_name_byte name c)) [
  | inl good ↦
      let (tail, e, same, t) =
        match_name-some (name ++ c ∷ []) (d ∷ rest) (sym (rw (good, match_name) refl) ∙ h) in
      (
        c ∷ tail,
        e ∙ append_assoc name (c ∷ []) tail,
        ap (◌∷◌ c) same,
        name_byte-IsTail name c tail good t,
      )
  | inr bad ↦ let failed : match_name name (c ∷ d ∷ rest) ≡ none = rw (bad, match_name) refl in cc
]

match_name-matches :
    (name tail : Bytes)
    → IsTail name tail
    → match_name name (tail ++ b'}' ∷ []) ≡ some (name ++ tail)
unfolding match_name
match_name-matches [] [] t = absurd t
match_name-matches (x ∷ name) [] t = ground (arith, append-nil (x ∷ name))
match_name-matches name (c ∷ []) t =
    let (good, rest) = IsTail-cons name c [] t in
    rw good (match_name-matches (name ++ c ∷ []) [] rest ∙ ap some (append_assoc name (c ∷ []) []))
match_name-matches name (c ∷ d ∷ tail) t =
    let (good, rest) = IsTail-cons name c (d ∷ tail) t in
    rw good (
      match_name-matches (name ++ c ∷ []) (d ∷ tail) rest
      ∙ ap some (append_assoc name (c ∷ []) (d ∷ tail)))

-- The text of a reference to a variable.
abbrev pub reference_to : Bytes → Bytes
reference_to name = b'$' ∷ b'{' ∷ (name ++ b'}' ∷ [])

-- A text is a reference exactly when it is an identifier between `${` and `}`, and it refers to
-- that identifier.
pub environment_reference_iff :
    (text name : Bytes)
    → (environment_reference text ≡ some name) ↔ (IsIdentifier name × (text ≡ reference_to name))
unfolding environment_reference
environment_reference_iff text name = (to text, from)
  where
    to :
        (text : Bytes)
        → environment_reference text ≡ some name
        → IsIdentifier name × (text ≡ reference_to name)
    to [] h = cc
    to (d ∷ []) h = cc
    to (d ∷ b ∷ rest) h =
        let (marks, found) = marked d b rest h in
        let (tail, e, same, t) = match_name-some [] rest found in
        (subst IsIdentifier (sym e) t, ground arith)
      where
        marked :
            (d b : ℕ) (rest : Bytes)
            → environment_reference (d ∷ b ∷ rest) ≡ some name
            → ((d ≡ b'$') × (b ≡ b'{')) × (match_name [] rest ≡ some name)
        marked d b rest h = ground arith

    from : IsIdentifier name × (text ≡ reference_to name) → environment_reference text ≡ some name
    from (t, e) = ap environment_reference e ∙ match_name-matches [] name t
