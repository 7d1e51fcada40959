-- ===== src/Base/TrimLaws.antt =====
-- What `strings.TrimSpace` leaves alone.
use Prim.Native.Nat.{ℕ, ◌≤◌}
use mathlib.Core.List.{[], ◌∷◌, ◌++◌, reverse, reverse-append, reverse-reverse}
use mathlib.Core.Path.{◌≡◌, refl, sym, ◌∙◌, ap}
use native.Mathlib.Omega.{arith}
use mcp_server_for_mysql.Base.Text.{Bytes}
use mcp_server_for_mysql.Base.Trim.{space_width, space_width_back, trim_from, trim_back, trim_space}

-- A visible ASCII byte.
abbrev pub IsVisible : ℕ → Type 0
IsVisible c = (33 ≤ c) × (c ≤ 126)

space_width-visible : (c : ℕ) (cs : Bytes) → IsVisible c → space_width (c ∷ cs) ≡ 0
unfolding space_width
space_width-visible c [] h = ground arith
space_width-visible c (a ∷ []) h = ground arith
space_width-visible c (a ∷ b ∷ cs) h = ground arith

space_width_back-visible : (c : ℕ) (cs : Bytes) → IsVisible c → space_width_back (c ∷ cs) ≡ 0
unfolding space_width_back
space_width_back-visible c [] h = ground arith
space_width_back-visible c (a ∷ []) h = ground arith
space_width_back-visible c (a ∷ b ∷ cs) h = ground arith

trim_from-visible : (c : ℕ) (cs : Bytes) → IsVisible c → trim_from 0 (c ∷ cs) ≡ c ∷ cs
unfolding trim_from
trim_from-visible c cs h = rw (space_width-visible c cs h, trim_from)

trim_back-visible : (c : ℕ) (cs : Bytes) → IsVisible c → trim_back 0 (c ∷ cs) ≡ c ∷ cs
unfolding trim_back
trim_back-visible c cs h = rw (space_width_back-visible c cs h, trim_back)

trim_end :
    (s earlier : Bytes) (final : ℕ)
    → s ≡ earlier ++ final ∷ []
    → IsVisible final
    → reverse (trim_back 0 (reverse s)) ≡ s
trim_end s earlier final e h =
    ap (λ t. reverse (trim_back 0 t)) (ap reverse e ∙ reverse-append earlier (final ∷ []))
    ∙ ap reverse (trim_back-visible final (reverse earlier) h)
    ∙ ap reverse (sym (reverse-append earlier (final ∷ [])) ∙ ap reverse (sym e))
    ∙ reverse-reverse s

module _ (s : Bytes) (first : ℕ) (later earlier : Bytes) (final : ℕ) (starts : s ≡ first ∷ later)
    (ends : s ≡ earlier ++ final ∷ []) (h : IsVisible first) (k : IsVisible final) where
  front : trim_from 0 s ≡ s
  front = ap (trim_from 0) starts ∙ trim_from-visible first later h ∙ sym starts

  -- A text between two visible bytes is its own trimmed form.
  pub trim_space_visible : trim_space s ≡ s
  unfolding trim_space
  trim_space_visible =
      ap (λ t. reverse (trim_back 0 (reverse t))) front ∙ trim_end s earlier final ends k

  space_front : trim_from 0 (b' ' ∷ s) ≡ trim_from 0 s
  unfolding trim_from space_width
  space_front =
      ap (λ t. trim_from 0 (b' ' ∷ t)) starts ∙ spaced later ∙ ap (trim_from 0) (sym starts)
    where
      spaced : (l : Bytes) → trim_from 0 (b' ' ∷ first ∷ l) ≡ trim_from 0 (first ∷ l)
      spaced [] = refl
      spaced (a ∷ l) = refl

  -- A space in front of it is trimmed off.
  pub trim_space_spaced : trim_space (b' ' ∷ s) ≡ s
  unfolding trim_space
  trim_space_spaced =
      ap (λ t. reverse (trim_back 0 (reverse t))) (space_front ∙ front)
      ∙ trim_end s earlier final ends k
