-- ===== src/Sqlguard/Splitter/Groups.antt =====
-- Which inputs splitSQLStatementGroups (internal/sqlguard/splitter.go) accepts, and with what.
use mcp_server_for_mysql.Base.{
  Bool, true, false, List, [], ◌∷◌, ◌++◌, map, append-nil, append_assoc, ◌≢◌, ◌↔◌, ◌⊎◌, inl, inr,
  ◌≡◌, refl, sym, ap, ◌∙◌, arith, Bool-cases, All, Bytes, equal, equal_iff, trim_space, Result, ok,
  ◌>>=◌, >>=-eq-ok,
}
use mcp_server_for_mysql.Sqlguard.Splitter.{
  split_groups, statement_group_has_code, SplitError, check_groups, is_single, require_statements,
  split_sql_statement_groups,
}

abbrev pub HasCode : Bytes → Type 0
HasCode g = statement_group_has_code g ≡ true

-- A group of white space and comments of which trimming leaves nothing.
abbrev pub IsBlank : Bytes → Type 0
IsBlank g = (statement_group_has_code g ≡ false) × (trim_space g ≡ [])

-- The groups are those kept, and a blank one may follow.
abbrev pub Covers : List Bytes → List Bytes → Type 0
Covers groups kept = (groups ≡ kept) ⊎ ((b : Bytes) × IsBlank b × (groups ≡ kept ++ b ∷ []))

pub record IsSplit (groups statements : List Bytes) : Type 0 where
  pub kept : List Bytes
  pub code : All HasCode kept
  pub trimmed : statements ≡ map trim_space kept
  pub some_kept : kept ≢ []
  pub covers : Covers groups kept

record IsChecked (acc groups out : List Bytes) : Type 0 where
  kept : List Bytes
  code : All HasCode kept
  trimmed : out ≡ acc ++ map trim_space kept
  covers : Covers groups kept

Covers-cons : (g : Bytes) {gs kept : List Bytes} → Covers gs kept → Covers (g ∷ gs) (g ∷ kept)
Covers-cons g (inl e) = inl (ap (◌∷◌ g) e)
Covers-cons g (inr (b, blank, e)) = inr (b, blank, ap (◌∷◌ g) e)

IsChecked-cons :
    (g : Bytes) {acc groups out : List Bytes}
    → HasCode g
    → IsChecked (acc ++ trim_space g ∷ []) groups out
    → IsChecked acc (g ∷ groups) out
IsChecked-cons g {acc} h c = record {
  kept = g ∷ c.kept;
  code = (h, c.code);
  trimmed = c.trimmed ∙ rw append_assoc;
  covers = Covers-cons g c.covers;
}

check_groups-last :
    (single : Bool) (acc : List Bytes) (g : Bytes) (groups : List Bytes) {out : List Bytes}
    → statement_group_has_code g ≡ false
    → check_groups single acc (g ∷ groups) ≡ ok out
    → (groups ≡ []) × (trim_space g ≡ []) × (out ≡ acc)
unfolding check_groups
check_groups-last single acc g [] h e = ground (arith, equal_iff (trim_space g) [])
check_groups-last single acc g (x ∷ groups) h e = ground arith

check_groups-code :
    (single : Bool) (acc : List Bytes) (g : Bytes) (groups : List Bytes)
    → HasCode g
    → check_groups single acc (g ∷ groups) ≡ check_groups single (acc ++ trim_space g ∷ []) groups
unfolding check_groups
check_groups-code single acc g groups h = rw h

check_groups-IsChecked :
    (single : Bool) (acc groups : List Bytes) {out : List Bytes}
    → check_groups single acc groups ≡ ok out
    → IsChecked acc groups out
check_groups-IsChecked single acc [] e = record {
  kept = [];
  code = tt;
  trimmed = unfold check_groups in rw append-nil (cc);
  covers = inl refl;
}
check_groups-IsChecked single acc (g ∷ groups) e = elim (Bool-cases (statement_group_has_code g)) [
  | inl h ↦ IsChecked-cons g h (
      check_groups-IsChecked single (acc ++ trim_space g ∷ []) groups
        (sym (check_groups-code single acc g groups h) ∙ e))
  | inr h ↦
      let (none_left, blank, same) = check_groups-last single acc g groups h e in
      record {
        kept = [];
        code = tt;
        trimmed = same ∙ sym (append-nil acc);
        covers = inr (g, (h, blank), ap (◌∷◌ g) none_left);
      }
]

check_groups-All :
    (single : Bool) (acc kept rest : List Bytes)
    → All HasCode kept
    → check_groups single acc (kept ++ rest) ≡ check_groups single (acc ++ map trim_space kept) rest
check_groups-All single acc [] rest h = rw append-nil
check_groups-All single acc (g ∷ kept) rest h =
    check_groups-code single acc g (kept ++ rest) h.0
    ∙ check_groups-All single (acc ++ trim_space g ∷ []) kept rest h.1
    ∙ rw append_assoc

check_groups-nil : (single : Bool) (acc : List Bytes) → check_groups single acc [] ≡ ok acc
unfolding check_groups
check_groups-nil single acc = refl

check_groups-blank :
    (acc : List Bytes) (b : Bytes) → IsBlank b → check_groups false acc (b ∷ []) ≡ ok acc
unfolding check_groups equal
check_groups-blank acc b (h, k) = rw (h, k)

require-some : (xs : List Bytes) → xs ≢ [] → require_statements xs ≡ ok xs
require-some [] h = absurd (h refl)
require-some (x ∷ xs) h = refl

require-ok :
    (xs : List Bytes) {out : List Bytes} → require_statements xs ≡ ok out → (xs ≡ out) × (xs ≢ [])
require-ok [] e = cc
require-ok (x ∷ xs) e = ground arith

not-single : (kept : List Bytes) (b : Bytes) → kept ≢ [] → is_single (kept ++ b ∷ []) ≡ false
not-single [] b h = absurd (h refl)
not-single (g ∷ []) b h = refl
not-single (g ∷ k ∷ kept) b h = ground arith

map-ne-nil : (kept : List Bytes) → kept ≢ [] → map trim_space kept ≢ []
map-ne-nil [] h = absurd (h refl)
map-ne-nil (g ∷ kept) h = ground arith

checked : List Bytes → Result SplitError (List Bytes)
checked groups = check_groups (is_single groups) [] groups >>= require_statements

checked-IsSplit :
    (groups : List Bytes) {statements : List Bytes}
    → checked groups ≡ ok statements
    → IsSplit groups statements
unfolding checked
checked-IsSplit groups e =
    let (out, c, r) = >>=-eq-ok (check_groups (is_single groups) [] groups) require_statements e in
    let k = check_groups-IsChecked (is_single groups) [] groups c in
    let (same, ne) = require-ok out r in
    record {
      kept = k.kept;
      code = k.code;
      trimmed = sym same ∙ k.trimmed;
      some_kept = λ h. ne (k.trimmed ∙ ap (map trim_space) h);
      covers = k.covers;
    }

check_groups-whole :
    (single : Bool) (kept : List Bytes)
    → All HasCode kept
    → check_groups single [] kept ≡ ok (map trim_space kept)
check_groups-whole single kept h =
    ap (check_groups single []) (sym (append-nil kept))
    ∙ check_groups-All single [] kept [] h
    ∙ check_groups-nil single (map trim_space kept)

checked-Covers :
    {groups : List Bytes} (kept : List Bytes)
    → All HasCode kept
    → kept ≢ []
    → Covers groups kept
    → checked groups ≡ ok (map trim_space kept)
unfolding checked
checked-Covers kept h ne (inl e) =
    rw (e, check_groups-whole (is_single kept) kept h)
      (require-some (map trim_space kept) (map-ne-nil kept ne))
checked-Covers kept h ne (inr (b, blank, e)) =
    rw
      (
        e,
        not-single kept b ne,
        check_groups-All false [] kept (b ∷ []) h,
        check_groups-blank (map trim_space kept) b blank,
      )
      (require-some (map trim_space kept) (map-ne-nil kept ne))

-- The input is accepted exactly when its groups are one or more that have code, with at most one
-- blank group behind them; the statements are the groups with code, trimmed, in order.
pub split_sql_statement_groups_iff :
    (sql : Bytes) (statements : List Bytes)
    → (split_sql_statement_groups sql ≡ ok statements) ↔ IsSplit (split_groups sql) statements
unfolding split_sql_statement_groups checked
split_sql_statement_groups_iff sql statements = (
  checked-IsSplit (split_groups sql),
  λ s. checked-Covers s.kept s.code s.some_kept s.covers ∙ ap ok (sym s.trimmed),
)
