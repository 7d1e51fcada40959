-- ===== src/Database/Metadata/Nullable.antt =====
-- `isClickHouseNullable` and `clickHouseOuterWrapper` of internal/database/clickhouse.go.
pub mod Parts
pub mod Termination
pub mod Brackets
use mcp_server_for_mysql.Base.{
  ℕ, zero, suc, ◌+◌, Bool, true, false, not, ◌&&◌, [], ◌∷◌, Option, none, some, ◌≡◌, refl, leb,
  ◌==◌, if◌then◌else◌, length, Bytes, codes, equal, space_width,
}
use mcp_server_for_mysql.Sqlguard.Splitter.{is_nil, next_is}

-- `strings.Join(strings.Fields(s), "")`, behind the next `skip` bytes of a space.
unfoldable pub remove_spaces : ℕ → Bytes → Bytes
remove_spaces skip [] = []
remove_spaces (suc skip) (c ∷ rest) = remove_spaces skip rest
remove_spaces zero (c ∷ rest) = elim (space_width (c ∷ rest)) [
  | zero ↦ c ∷ remove_spaces 0 rest
  | suc w ↦ remove_spaces w rest
]

abbrev follows_are : ℕ → ℕ → Bytes → Bool
follows_are a b [] = false
follows_are a b (c ∷ []) = false
follows_are a b (c ∷ d ∷ _) = c == a && d == b

-- The runes other than letters of ASCII whose lower case is in ASCII: U+0130 (i) and U+212A (k).
abbrev lower_rune : ℕ → Bytes → ℕ
lower_rune c rest =
    if c == 0xc4 && next_is 0xb0 rest
    then b'i'
    else if c == 0xe2 && follows_are 0x84 0xaa rest
    then b'k'
    else if leb b'A' c && leb c b'Z'
    then c + 32
    else c

abbrev pub lower_skip : ℕ → Bytes → ℕ
lower_skip c rest =
    if c == 0xc4 && next_is 0xb0 rest
    then 1
    else if c == 0xe2 && follows_are 0x84 0xaa rest
    then 2
    else 0

-- `strings.ToLower`, where its result is only compared with ASCII words and searched for brackets:
-- a rune whose lower case is not in ASCII keeps its bytes.
unfoldable pub lower_from : ℕ → Bytes → Bytes
lower_from skip [] = []
lower_from (suc skip) (c ∷ rest) = lower_from skip rest
lower_from zero (c ∷ rest) = lower_rune c rest ∷ lower_from (lower_skip c rest) rest

unfoldable pub normalize : Bytes → Bytes
unfolding remove_spaces lower_from space_width
normalize type_name = lower_from 0 (remove_spaces 0 type_name)

-- The text in front of the first `(`, and behind it; `none` without one.
unfoldable pub cut_open : Bytes → Option (Bytes × Bytes)
cut_open [] = none
cut_open (c ∷ rest) =
    let others = cut_open rest in
    if c == b'('
    then some ([], rest)
    else elim others [ none ↦ none | some (name, inner) ↦ some (c ∷ name, inner) ]

-- The depth behind a byte: `none` where the loop returns, since a bracket closes none or is not the
-- last byte though it closes the first.
abbrev pub next_depth : ℕ → ℕ → Bytes → Option ℕ
next_depth depth c rest =
    if c == b'('
    then some (suc depth)
    else if c == b')'
    then elim depth [ zero ↦ none | suc d ↦ if d == 0 && not (is_nil rest) then none else some d ]
    else some depth

-- The loop over the bytes from the first `(` on, with the test of the depth behind it.
unfoldable pub is_balanced : ℕ → Bytes → Bool
is_balanced depth [] = depth == 0
is_balanced depth (c ∷ rest) = elim (next_depth depth c rest) [
  | none ↦ false
  | some d ↦ is_balanced d rest
]

-- `strings.HasSuffix(s, ")")`, and the text in front of it.
unfoldable pub before_close : Bytes → Option Bytes
before_close [] = none
before_close (c ∷ []) = if c == b')' then some [] else none
before_close (c ∷ d ∷ rest) = elim (before_close (d ∷ rest)) [ none ↦ none | some s ↦ some (c ∷ s) ]

abbrev pub wrapped : Bytes → Bytes → Option (Bytes × Bytes)
wrapped name inner = if is_nil name then none else elim (before_close inner) [
  | none ↦ none
  | some s ↦ if is_balanced 0 (b'(' ∷ inner) then some (name, s) else none
]

-- `clickHouseOuterWrapper`: the wrapper and what is inside.
unfoldable pub outer_wrapper : Bytes → Option (Bytes × Bytes)
unfolding normalize cut_open is_balanced before_close
outer_wrapper type_name = elim (cut_open (normalize type_name)) [
  | none ↦ none
  | some (name, inner) ↦ wrapped name inner
]

-- The loop of `isClickHouseNullable` on fuel, over the last result; `none` is out of fuel.
unfoldable pub nullable_loop : ℕ → Option (Bytes × Bytes) → Option Bool
unfolding outer_wrapper
nullable_loop zero w = none
nullable_loop (suc fuel) none = some false
nullable_loop (suc fuel) (some (wrapper, inner)) =
    let more = nullable_loop fuel (outer_wrapper inner) in
    if equal wrapper (codes "lowcardinality") then more else some (equal wrapper (codes "nullable"))

abbrev or_false : Option Bool → Bool
or_false none = false
or_false (some b) = b

unfoldable pub is_nullable : Bytes → Bool
unfolding nullable_loop
is_nullable type_name = or_false (nullable_loop (suc (length type_name)) (outer_wrapper type_name))

is_nullable_nested : is_nullable (codes "LowCardinality( Nullable(FixedString(3)))") ≡ true
unfolding is_nullable equal
is_nullable_nested = refl

is_nullable_tuple : is_nullable (codes "Tuple(Nullable(String))") ≡ false
unfolding is_nullable equal
is_nullable_tuple = refl
