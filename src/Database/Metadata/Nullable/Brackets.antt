-- ===== src/Database/Metadata/Nullable/Brackets.antt =====
-- Which types `clickHouseOuterWrapper` (internal/database/clickhouse.go) takes for a wrapper.
use mcp_server_for_mysql.Base.{
  ℕ, zero, suc, true, false, [], ◌∷◌, ◌++◌, append_assoc, ◌≢◌, ◌↔◌, ◌⊎◌, inl, inr, some, ◌≡◌, refl,
  sym, ap, ◌∙◌, arith, ◌==◌, Bool-cases, All, Bytes, subst, Yields-some,
}
use mcp_server_for_mysql.Database.Metadata.Nullable.{
  normalize, cut_open, before_close, next_depth, is_balanced, wrapped, outer_wrapper,
}
use mcp_server_for_mysql.Database.Metadata.Nullable.Parts.{IsWrapped, outer_wrapper-IsWrapped}

-- Every bracket is closed by one of its own.
pub data IsBalanced : Bytes → Type 0 where
  nil : IsBalanced []
  plain : {c : ℕ} {s : Bytes} → c ≢ b'(' → c ≢ b')' → IsBalanced s → IsBalanced (c ∷ s)
  group : {a b s : Bytes} → s ≡ b'(' ∷ (a ++ b')' ∷ b) → IsBalanced a → IsBalanced b → IsBalanced s

-- The text closes `depth` more brackets and one, the last of them by its last byte.
data Closes : ℕ → Bytes → Type 0 where
  last : {a s : Bytes} → s ≡ a ++ b')' ∷ [] → IsBalanced a → Closes zero s
  more :
      {depth : ℕ} {a t s : Bytes}
      → s ≡ a ++ b')' ∷ t
      → IsBalanced a
      → Closes depth t
      → Closes (suc depth) s

Closes-plain :
    {depth c : ℕ} {s : Bytes} → c ≢ b'(' → c ≢ b')' → Closes depth s → Closes depth (c ∷ s)
Closes-plain {c = c} o k (last e a) = last (ap (◌∷◌ c) e) (plain o k a)
Closes-plain {c = c} o k (more e a t) = more (ap (◌∷◌ c) e) (plain o k a) t

Closes-open : {depth : ℕ} {s : Bytes} → Closes (suc depth) s → Closes depth (b'(' ∷ s)
Closes-open (more {a = a} e x (last {a = b} f y)) =
    last
      (ap (λ s. b'(' ∷ s)
        (e ∙ ap (λ t. a ++ b')' ∷ t) f ∙ sym (append_assoc a (b')' ∷ b) (b')' ∷ []))))
      (group {a = a} {b = b} refl x y)
Closes-open (more {a = a} e x (more {a = b} {t = t} f y z)) =
    more
      (ap (λ s. b'(' ∷ s)
        (e ∙ ap (λ t. a ++ b')' ∷ t) f ∙ sym (append_assoc a (b')' ∷ b) (b')' ∷ t))))
      (group {a = a} {b = b} refl x y) z

Closes-close : {depth : ℕ} {s : Bytes} → Closes depth s → Closes (suc depth) (b')' ∷ s)
Closes-close c = more {a = []} refl nil c

is_balanced-step :
    (depth c d : ℕ) (s : Bytes)
    → next_depth depth c s ≡ some d
    → is_balanced depth (c ∷ s) ≡ is_balanced d s
unfolding is_balanced
is_balanced-step depth c d s e = rw (e, is_balanced) refl

is_balanced-Closes : (depth : ℕ) (s : Bytes) → is_balanced (suc depth) s ≡ true → Closes depth s
unfolding is_balanced
is_balanced-Closes depth [] h = ground arith
is_balanced-Closes depth (c ∷ s) h =
    by_byte (Bool-cases (c == b'(')) (Bool-cases (c == b')')) depth h (λ d. is_balanced-Closes d s)
  where
    by_byte :
        ((c == b'(') ≡ true) ⊎ ((c == b'(') ≡ false)
        → ((c == b')') ≡ true) ⊎ ((c == b')') ≡ false)
        → (depth : ℕ) → is_balanced (suc depth) (c ∷ s) ≡ true
        → ((d : ℕ) → is_balanced (suc d) s ≡ true → Closes d s)
        → Closes depth (c ∷ s)
    by_byte (inl opens) close depth h ih =
        let e : b'(' ≡ c = ground arith in
        let step = is_balanced-step (suc depth) c (suc (suc depth)) s (rw opens refl) in
        subst (λ k. Closes depth (k ∷ s)) e (Closes-open (ih (suc depth) (sym step ∙ h)))
    by_byte (inr no_open) (inl closes) zero h ih =
        let e : b')' ≡ c = ground arith in
        subst (λ k. Closes zero (k ∷ s)) e (last {a = []} (ap (λ r. b')' ∷ r) (at_end s h)) nil)
      where
        at_end : (s : Bytes) → is_balanced 1 (c ∷ s) ≡ true → s ≡ []
        at_end [] h = refl
        at_end (d ∷ s) h = ground arith
    by_byte (inr no_open) (inl closes) (suc depth) h ih =
        let e : b')' ≡ c = ground arith in
        let step = is_balanced-step (suc (suc depth)) c (suc depth) s (ground arith) in
        subst (λ k. Closes (suc depth) (k ∷ s)) e (Closes-close (ih depth (sym step ∙ h)))
    by_byte (inr no_open) (inr no_close) depth h ih =
        let step = is_balanced-step (suc depth) c (suc depth) s (rw (no_open, no_close) refl) in
        Closes-plain (λ e. ground arith) (λ e. ground arith) (ih depth (sym step ∙ h))

-- A balanced text leaves the depth as it is, inside a bracket.
is_balanced-append :
    {a : Bytes} (depth : ℕ) (t : Bytes)
    → IsBalanced a
    → is_balanced (suc depth) (a ++ t) ≡ is_balanced (suc depth) t
is_balanced-append depth t nil = refl
is_balanced-append depth t (plain {c} {s} o k a) =
    is_balanced-step (suc depth) c (suc depth) (s ++ t) (ground arith)
    ∙ is_balanced-append depth t a
is_balanced-append depth t (group {a} {b} e x y) =
    ap (λ s. is_balanced (suc depth) (s ++ t)) e
    ∙ ap (λ s. is_balanced (suc depth) (b'(' ∷ s)) (append_assoc a (b')' ∷ b) t)
    ∙ is_balanced-step (suc depth) b'(' (suc (suc depth)) (a ++ b')' ∷ (b ++ t)) refl
    ∙ is_balanced-append (suc depth) (b')' ∷ (b ++ t)) x
    ∙ is_balanced-step (suc (suc depth)) b')' (suc depth) (b ++ t) (ground arith)
    ∙ is_balanced-append depth t y

before_close-of : (s : Bytes) → before_close (s ++ b')' ∷ []) ≡ some s
unfolding before_close
before_close-of [] = refl
before_close-of (c ∷ []) = refl
before_close-of (c ∷ d ∷ s) = rw (before_close-of (d ∷ s))

is_balanced_iff :
    (inner : Bytes) → (is_balanced 0 (b'(' ∷ (inner ++ b')' ∷ [])) ≡ true) ↔ IsBalanced inner
is_balanced_iff inner = (
  λ h. closed refl (is_balanced-Closes 0 (inner ++ b')' ∷ []) (sym opens ∙ h)),
  λ b. opens ∙ is_balanced-append 0 (b')' ∷ []) b ∙ ends,
)
  where
    opens : is_balanced 0 (b'(' ∷ (inner ++ b')' ∷ [])) ≡ is_balanced 1 (inner ++ b')' ∷ [])
    opens = is_balanced-step 0 b'(' 1 (inner ++ b')' ∷ []) refl

    ends : is_balanced 1 (b')' ∷ []) ≡ true
    ends = unfold is_balanced in refl

    closed : {s : Bytes} → s ≡ inner ++ b')' ∷ [] → Closes 0 s → IsBalanced inner
    closed same (last {a = a} e b) =
        let ends =
          sym (before_close-of a) ∙ ap before_close (sym e ∙ same) ∙ before_close-of inner in
        subst IsBalanced (ground arith) b

cut_open-of :
    (name inner : Bytes)
    → All (λ c. c ≢ b'(') name
    → cut_open (name ++ b'(' ∷ inner) ≡ some (name, inner)
unfolding cut_open
cut_open-of [] inner a = refl
cut_open-of (c ∷ name) inner (ne, a) =
    let other : (c == b'(') ≡ false = ground arith in rw (other, cut_open-of name inner a)

-- The parts of a wrapped type: a name without brackets, and between brackets a balanced text.
abbrev pub IsWrapper : Bytes → Bytes → Bytes → Type 0
IsWrapper s name inner =
    (s ≡ name ++ b'(' ∷ (inner ++ b')' ∷ []))
    × (name ≢ [])
    × All (λ c. c ≢ b'(') name
    × IsBalanced inner

-- A type is taken for a wrapper of another exactly when, without white space and in lower case, it
-- is a name in front of a bracket that its last byte closes, with balanced brackets inside.
pub outer_wrapper_iff :
    (type_name name inner : Bytes)
    → (outer_wrapper type_name ≡ some (name, inner)) ↔ IsWrapper (normalize type_name) name inner
unfolding outer_wrapper
outer_wrapper_iff type_name name inner = (to, from name)
  where
    to : outer_wrapper type_name ≡ some (name, inner) → IsWrapper (normalize type_name) name inner
    to h =
        let (e, ne, free, b) =
          Yields-some (IsWrapped (normalize type_name)) (outer_wrapper type_name)
            (outer_wrapper-IsWrapped type_name) h in
        (e, ne, free, (is_balanced_iff inner).0 b)

    at_cut :
        {p : Bytes × Bytes}
        → cut_open (normalize type_name) ≡ some p
        → outer_wrapper type_name ≡ wrapped p.0 p.1
    at_cut h = rw (h, outer_wrapper) refl

    from :
        (name : Bytes)
        → IsWrapper (normalize type_name) name inner
        → outer_wrapper type_name ≡ some (name, inner)
    from [] (e, ne, free, b) = absurd (ne refl)
    from (c ∷ name) (e, ne, free, b) =
        at_cut (ap cut_open e ∙ cut_open-of (c ∷ name) (inner ++ b')' ∷ []) free)
        ∙ rw (before_close-of inner, (is_balanced_iff inner).1 b)
