-- ===== src/Base/Outcome.antt =====
-- Go's `(T, error)` as a value: a result or an error.
use mathlib.Core.Bool.{Bool, true, false}
use mathlib.Core.List.{List, ◌∷◌}
use mathlib.Core.Logic.{◌↔◌}
use mathlib.Core.Option.{Option, none, some}
use mathlib.Core.Path.{◌≡◌, refl, subst}
use native.Mathlib.Omega.{arith}

pub data Result {ℓ κ} (E : Type ℓ) (A : Type κ) : Type (ℓ ⊔ κ) where
  ok : A → Result E A
  err : E → Result E A

infixl 5 ◌>>=◌
abbrev pub ◌>>=◌ {ℓ κ μ} :
    {E : Type ℓ} {A : Type κ} {B : Type μ} → Result E A → (A → Result E B) → Result E B
ok a >>= f = f a
err e >>= f = err e

pub >>=-eq-ok {ℓ κ μ} :
    {E : Type ℓ} {A : Type κ} {B : Type μ} (first : Result E A) (next : A → Result E B) {y : B}
    → (first >>= next) ≡ ok y
    → (x : A) × (first ≡ ok x) × (next x ≡ ok y)
>>=-eq-ok (err failure) next same = cc
>>=-eq-ok (ok x) next same = (x, refl, same)

-- A result satisfies the postcondition; an error satisfies every one.
abbrev pub Returns {ℓ κ} : {E : Type ℓ} {A : Type κ} → (A → Type 0) → Result E A → Type 0
Returns P (ok a) = P a
Returns P (err e) = Unit

pub Returns-bind {ℓ κ μ} :
    {E : Type ℓ} {A : Type κ} {B : Type μ} (P : A → Type 0) (Q : B → Type 0) (m : Result E A)
    (f : A → Result E B)
    → Returns P m
    → ((a : A) → P a → Returns Q (f a))
    → Returns Q (m >>= f)
Returns-bind P Q (ok a) f h k = k a h
Returns-bind P Q (err e) f h k = tt

pub Returns-map {ℓ κ} :
    {E : Type ℓ} {A : Type κ} (P Q : A → Type 0) (r : Result E A)
    → ((a : A) → P a → Q a)
    → Returns P r
    → Returns Q r
Returns-map P Q (ok a) f h = f a h
Returns-map P Q (err e) f h = tt

pub Returns-ok {ℓ κ} :
    {E : Type ℓ} {A : Type κ} (P : A → Type 0) (r : Result E A) {a : A}
    → Returns P r
    → r ≡ ok a
    → P a
Returns-ok P (ok b) h e = subst (Returns P) e h
Returns-ok P (err x) h e = cc

-- `if !b { return e }`
abbrev pub guard {ℓ} : {E : Type ℓ} → Bool → E → Result E (Unit {0})
guard true e = ok tt
guard false e = err e

abbrev pub from_option {ℓ κ} : {E : Type ℓ} {A : Type κ} → Option A → E → Result E A
from_option (some a) e = ok a
from_option none e = err e

-- A guarded step succeeds exactly when its test does and the rest succeeds.
pub guard_iff {ℓ κ} :
    {E : Type ℓ} {A : Type κ} (b : Bool) (e : E) (rest : Result E A) (a : A)
    → ((guard b e >>= λ _. rest) ≡ ok a) ↔ ((b ≡ true) × (rest ≡ ok a))
guard_iff true e rest a = (λ h. (refl, h), λ h. h.1)
guard_iff false e rest a = (λ h. cc, λ h. cc (h.0))

-- A step and the rest of its loop succeed exactly when both do.
pub collect_iff {ℓ κ} :
    {E : Type ℓ} {A : Type κ} (first : Result E A) (later : Result E (List A)) (all : List A)
    → ((first >>= λ x. later >>= λ xs. ok (x ∷ xs)) ≡ ok all)
      ↔ ((x : A) × (xs : List A) × (first ≡ ok x) × (later ≡ ok xs) × (all ≡ x ∷ xs))
collect_iff (ok x) (ok xs) all =
    (λ h. (x, xs, refl, refl, ground arith), λ (y, ys, e, e', same). ground arith)
collect_iff (ok x) (err e) all = (λ h. cc, λ (y, ys, p, q, same). cc)
collect_iff (err e) later all = (λ h. cc, λ (y, ys, p, q, same). cc)
