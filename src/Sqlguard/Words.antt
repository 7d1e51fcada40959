-- ===== src/Sqlguard/Words.antt =====
-- `strings.ToUpper`, where its result is only compared with ASCII words. ASCII letters are mapped,
-- and so are the two other runes whose upper case is ASCII, U+0131 (I) and U+017F (S). Every other
-- rune keeps its bytes here, which are none of an ASCII word, as those of its upper case are none.
use mcp_server_for_mysql.Base.{
  ℕ, ◌-◌, Bool, true, false, ◌&&◌, ◌||◌, [], ◌∷◌, ◌≡◌, refl, leb, ◌==◌, if◌then◌else◌, Bytes, codes,
}

second_is : ℕ → Bytes → Bool
second_is c [] = false
second_is c (d ∷ _) = d == c

upper_letter : ℕ → ℕ
upper_letter c = if leb b'a' c && leb c b'z' then c - 32 else c

upper_rune : ℕ → Bytes → ℕ
upper_rune c rest =
    if c == 0xc4 && second_is 0xb1 rest
    then b'I'
    else if c == 0xc5 && second_is 0xbf rest
    then b'S'
    else upper_letter c

is_wide : ℕ → Bytes → Bool
is_wide c rest = c == 0xc4 && second_is 0xb1 rest || c == 0xc5 && second_is 0xbf rest

upper_loop : Bool → Bytes → Bytes
upper_loop skip [] = []
upper_loop true (c ∷ rest) = upper_loop false rest
upper_loop false (c ∷ rest) = upper_rune c rest ∷ upper_loop (is_wide c rest) rest

unfoldable pub to_upper : Bytes → Bytes
unfolding upper_loop upper_rune upper_letter is_wide second_is
to_upper = upper_loop false

to_upper_example : to_upper (codes "Get_Lock9") ≡ codes "GET_LOCK9"
unfolding to_upper
to_upper_example = refl
