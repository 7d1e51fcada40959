-- ===== src/Config/Utf8.antt =====
-- `utf8.ValidString` and `utf8.RuneCountInString`, which internal/config/config.go uses.
use mcp_server_for_mysql.Base.{
  ℕ, zero, suc, ◌-◌, Bool, true, false, ◌&&◌, [], ◌∷◌, ◌≡◌, refl, ltb, leb, ◌==◌, if◌then◌else◌,
  Bytes,
}

abbrev within : ℕ → ℕ → ℕ → Bool
within lo hi c = leb lo c && leb c hi

-- A byte in this range, and so many continuation bytes behind it.
abbrev continues : ℕ → ℕ → ℕ → Bytes → Bool
continues lo hi n [] = false
continues lo hi zero (c ∷ rest) = within lo hi c
continues lo hi (suc n) (c ∷ rest) = within lo hi c && continues 0x80 0xbf n rest

abbrev width_if : ℕ → Bool → ℕ
width_if n true = n
width_if n false = 0

-- The width of the rune that the text begins with, 0 if there is none.
unfoldable pub rune_width : Bytes → ℕ
rune_width [] = 0
rune_width (c ∷ rest) =
    if ltb c 0x80
    then 1
    else if within 0xc2 0xdf c
    then width_if 2 (continues 0x80 0xbf 0 rest)
    else if c == 0xe0
    then width_if 3 (continues 0xa0 0xbf 1 rest)
    else if c == 0xed
    then width_if 3 (continues 0x80 0x9f 1 rest)
    else if within 0xe1 0xef c
    then width_if 3 (continues 0x80 0xbf 1 rest)
    else if c == 0xf0
    then width_if 4 (continues 0x90 0xbf 2 rest)
    else if within 0xf1 0xf3 c
    then width_if 4 (continues 0x80 0xbf 2 rest)
    else if c == 0xf4
    then width_if 4 (continues 0x80 0x8f 2 rest)
    else 0

-- Behind the next `skip` bytes.
unfoldable pub valid_from : ℕ → Bytes → Bool
valid_from skip [] = true
valid_from (suc skip) (c ∷ rest) = valid_from skip rest
valid_from zero (c ∷ rest) = let w = rune_width (c ∷ rest) in ltb 0 w && valid_from (w - 1) rest

unfoldable pub valid_string : Bytes → Bool
unfolding valid_from rune_width
valid_string = valid_from 0

-- A byte that begins no rune counts as one.
unfoldable pub rune_count_from : ℕ → Bytes → ℕ
rune_count_from skip [] = 0
rune_count_from (suc skip) (c ∷ rest) = rune_count_from skip rest
rune_count_from zero (c ∷ rest) = suc (rune_count_from (rune_width (c ∷ rest) - 1) rest)

unfoldable pub rune_count : Bytes → ℕ
unfolding rune_count_from rune_width
rune_count = rune_count_from 0

rune_count_word : rune_count (b'a' ∷ 0xc3 ∷ 0xa9 ∷ 0xe4 ∷ 0xb8 ∷ 0xad ∷ []) ≡ 3
unfolding rune_count
rune_count_word = refl

valid_string_word : valid_string (b'a' ∷ 0xc3 ∷ 0xa9 ∷ 0xe4 ∷ 0xb8 ∷ 0xad ∷ []) ≡ true
unfolding valid_string
valid_string_word = refl

-- A surrogate, and an overlong form.
valid_string_surrogate : valid_string (0xed ∷ 0xa0 ∷ 0x80 ∷ []) ≡ false
unfolding valid_string
valid_string_surrogate = refl

valid_string_overlong : valid_string (0xe0 ∷ 0x80 ∷ 0x80 ∷ []) ≡ false
unfolding valid_string
valid_string_overlong = refl
