-- ===== src/Base/Trim.antt =====
-- `strings.TrimSpace` over bytes: the UTF-8 encodings of the runes of `unicode.IsSpace`.
use Prim.Native.Nat.{ℕ, zero, suc}
use mathlib.Core.Bool.{Bool, ◌&&◌, ◌||◌}
use mathlib.Core.List.{[], ◌∷◌, reverse}
use mcp_server_for_mysql.Base.Tests.{leb, ◌==◌, if◌then◌else◌}
use mcp_server_for_mysql.Base.Text.{Bytes}

abbrev is_ascii_space : ℕ → Bool
is_ascii_space c = c == 32 || leb 9 c && leb c 13

-- U+0085 and U+00A0
abbrev is_space_pair : ℕ → ℕ → Bool
is_space_pair a b = a == 0xc2 && (b == 0x85 || b == 0xa0)

-- U+1680, U+2000 to U+200A, U+2028, U+2029, U+202F, U+205F and U+3000
abbrev is_space_triple : ℕ → ℕ → ℕ → Bool
is_space_triple a b c =
    a == 0xe1 && b == 0x9a && c == 0x80
    || a == 0xe2 && b == 0x80 && (leb 0x80 c && leb c 0x8a || c == 0xa8 || c == 0xa9 || c == 0xaf)
    || a == 0xe2 && b == 0x81 && c == 0x9f
    || a == 0xe3 && b == 0x80 && c == 0x80

-- The width of the space rune that the bytes begin with, or 0.
unfoldable pub space_width : Bytes → ℕ
space_width [] = 0
space_width (a ∷ []) = if is_ascii_space a then 1 else 0
space_width (a ∷ b ∷ []) = if is_ascii_space a then 1 else if is_space_pair a b then 2 else 0
space_width (a ∷ b ∷ c ∷ _) =
    if is_ascii_space a
    then 1
    else if is_space_pair a b
    then 2
    else if is_space_triple a b c
    then 3
    else 0

-- The width of the space rune that a reversed byte sequence begins with, or 0.
unfoldable pub space_width_back : Bytes → ℕ
space_width_back [] = 0
space_width_back (a ∷ []) = if is_ascii_space a then 1 else 0
space_width_back (a ∷ b ∷ []) = if is_ascii_space a then 1 else if is_space_pair b a then 2 else 0
space_width_back (a ∷ b ∷ c ∷ _) =
    if is_ascii_space a
    then 1
    else if is_space_pair b a
    then 2
    else if is_space_triple c b a
    then 3
    else 0

-- Drop `skip` bytes, then every space rune in front.
unfoldable pub trim_from : ℕ → Bytes → Bytes
trim_from skip [] = []
trim_from (suc skip) (c ∷ cs) = trim_from skip cs
trim_from zero (c ∷ cs) = elim (space_width (c ∷ cs)) [ zero ↦ c ∷ cs | suc w ↦ trim_from w cs ]

unfoldable pub trim_back : ℕ → Bytes → Bytes
trim_back skip [] = []
trim_back (suc skip) (c ∷ cs) = trim_back skip cs
trim_back zero (c ∷ cs) = elim (space_width_back (c ∷ cs)) [
  | zero ↦ c ∷ cs
  | suc w ↦ trim_back w cs
]

unfoldable pub trim_space : Bytes → Bytes
unfolding trim_from trim_back space_width space_width_back
trim_space s = reverse (trim_back 0 (reverse (trim_from 0 s)))
