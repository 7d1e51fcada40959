-- ===== src/Base/Text.antt =====
-- A Go string is its sequence of bytes.
use Prim.Native.Char.{code}
use Prim.Native.Nat.{ℕ}
use Prim.Native.String.{String}
use mathlib.Core.Bool.{Bool, true, false, ◌&&◌}
use mathlib.Core.List.{List, [], ◌∷◌, ◌++◌}
use mathlib.Core.Logic.{◌↔◌}
use mathlib.Core.Path.{◌≡◌, refl}
use native.Mathlib.Omega.{arith}
use mcp_server_for_mysql.Base.Tests.{◌==◌, if◌then◌else◌}

abbrev pub Bytes : Type 0
Bytes = List ℕ

-- The bytes of a text literal; every literal below is ASCII.
abbrev pub codes : String → Bytes
codes String.[] = []
codes (String.◌∷◌ c s) = code c ∷ codes s

-- Equality of Go strings, `==`.
unfoldable pub equal : Bytes → Bytes → Bool
equal [] [] = true
equal [] (d ∷ t) = false
equal (c ∷ s) [] = false
equal (c ∷ s) (d ∷ t) = c == d && equal s t

pub equal_iff : (s t : Bytes) → (equal s t ≡ true) ↔ (s ≡ t)
unfolding equal
equal_iff [] [] = (λ _. refl, λ _. refl)
equal_iff [] (d ∷ t) = ground arith
equal_iff (c ∷ s) [] = ground arith
equal_iff (c ∷ s) (d ∷ t) = let same = equal_iff s t in ground arith

pub equal_refl : (a : Bytes) → equal a a ≡ true
equal_refl a = (equal_iff a a).1 refl

-- `slices.Contains` over strings, the test of a Go set `map[string]struct{}`.
abbrev pub contains : Bytes → List Bytes → Bool
contains a [] = false
contains a (x ∷ xs) = if equal a x then true else contains a xs

-- `strings.Join`.
abbrev pub join_by : Bytes → List Bytes → Bytes
join_by sep [] = []
join_by sep (x ∷ []) = x
join_by sep (x ∷ y ∷ ys) = x ++ (sep ++ join_by sep (y ∷ ys))
