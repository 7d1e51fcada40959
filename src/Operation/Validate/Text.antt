-- ===== src/Operation/Validate/Text.antt =====
-- The column texts of internal/operation/validate.go, for the scanner of internal/sqlguard.
use mcp_server_for_mysql.Base.{
  ℕ, Bool, true, false, ◌||◌, List, [], ◌∷◌, ◌++◌, inl, inr, ◌≡◌, refl, arith, if◌then◌else◌,
  Bool-cases, All, Bytes, codes, equal, Result, ok, err, Returns, Returns-bind, Returns-map,
  IsVisible, ℤ, pos, negsuc, neg_part, ltb_ℤ, is_nonzero, print_int,
}
use mcp_server_for_mysql.Database.Identifier.Laws.{IsIdentifier, backticked, quote_identifier_iff}
use mcp_server_for_mysql.Database.Identifier.{IdentifierError, quote_identifier}
use mcp_server_for_mysql.Database.Dialect.{Dialect, mysql_dialect, clickhouse_dialect}
use mcp_server_for_mysql.Operation.Model.{ColumnSpec, varchar_length}
use mcp_server_for_mysql.Operation.Sql.{nil, byte, is_plain_text}
use mcp_server_for_mysql.Operation.Sql.Build.{
  IsPiece, Ends-byte, IsPiece-literal, IsPiece-append, IsPiece-backticked, IsPiece-decimal,
  IsPiece-join,
}
use mcp_server_for_mysql.Sqlguard.Splitter.Grammar.{is_special}
use mcp_server_for_mysql.Operation.Validate.{
  from_identifier, quote, no_dimensions, varchar_type, decimal_type, mysql_type, mysql_column,
  clickhouse_type, clickhouse_column, join, max_mysql_decimal, max_mysql_varchar_length,
  max_clickhouse_decimal,
}

quote-cases :
    (name : Bytes) (r : Result IdentifierError Bytes)
    → quote_identifier name ≡ r
    → Returns (λ q. IsIdentifier name × (q ≡ backticked name)) (from_identifier r)
quote-cases name (ok q) e = (quote_identifier_iff name q).0 e
quote-cases name (err x) e = tt

-- What a dialect quotes is an identifier, between backticks.
pub quote-Returns :
    (d : Dialect) (name : Bytes)
    → Returns (λ q. IsIdentifier name × (q ≡ backticked name)) (quote d name)
unfolding quote
quote-Returns mysql_dialect name = quote-cases name (quote_identifier name) refl
quote-Returns clickhouse_dialect name = quote-cases name (quote_identifier name) refl

pub quote-IsPiece : (d : Dialect) (name : Bytes) → Returns IsPiece (quote d name)
quote-IsPiece d name =
    Returns-map _ IsPiece (quote d name) (λ q h. rw h.1 (IsPiece-backticked name h.0))
      (quote-Returns d name)

-- A word that ends in a visible byte.
IsPiece-word :
    (s : Bytes) (c : ℕ)
    → is_plain_text s ≡ true
    → IsVisible c
    → is_special c ≡ false
    → IsPiece (s ++ c ∷ [])
IsPiece-word s c h k p = IsPiece-literal s h (byte p nil, Ends-byte c k)

no_dimensions-IsPiece :
    (spec : ColumnSpec) (t : Bytes) → IsPiece t → Returns IsPiece (no_dimensions spec t)
unfolding no_dimensions
no_dimensions-IsPiece spec t h =
    elim (Bool-cases
      (is_nonzero spec.length || is_nonzero spec.precision || is_nonzero spec.scale)) [
        | inl e ↦ rw e tt
        | inr e ↦ rw e h
      ]

closing : IsPiece (codes ")")
closing = IsPiece-word [] b')' refl (omega arith) refl

not-negative : (n : ℕ) (a b c : Bool) → (ltb_ℤ (negsuc n) (pos 1) || a || b || c) ≡ false → ⊥
not-negative n a b c h = ground arith

varchar-IsPiece :
    (l : ℤ) (a b c : Bool)
    → Returns IsPiece (
        if ltb_ℤ l (pos 1) || a || b || c
        then err varchar_length
        else ok (codes "VARCHAR(" ++ (print_int l ++ codes ")")))
varchar-IsPiece (pos n) a b c = elim (Bool-cases (ltb_ℤ (pos n) (pos 1) || a || b || c)) [
  | inl e ↦ rw e tt
  | inr e ↦ rw e (IsPiece-literal (codes "VARCHAR(") refl (IsPiece-decimal n closing))
]
varchar-IsPiece (negsuc n) a b c = elim (Bool-cases (ltb_ℤ (negsuc n) (pos 1) || a || b || c)) [
  | inl e ↦ rw e tt
  | inr e ↦ absurd (not-negative n a b c e)
]

decimal_negative :
    (p s : ℤ) (a b : Bool)
    → (a || ltb_ℤ p (pos 1) || b || ltb_ℤ s (pos 0) || ltb_ℤ p s) ≡ false
    → (neg_part p ≡ 0) × (neg_part s ≡ 0)
decimal_negative (pos n) (pos m) a b h = (refl, refl)
decimal_negative (pos n) (negsuc m) a b h = absurd (ground arith)
decimal_negative (negsuc n) s a b h = absurd (ground arith)

decimal_text-IsPiece :
    (lit : Bytes) (p s : ℤ)
    → is_plain_text lit ≡ true
    → (neg_part p ≡ 0) × (neg_part s ≡ 0)
    → IsPiece (lit ++ (print_int p ++ (codes "," ++ (print_int s ++ codes ")"))))
decimal_text-IsPiece lit (pos n) (pos m) k h =
    IsPiece-literal lit k
      (IsPiece-decimal n (IsPiece-literal (codes ",") refl (IsPiece-decimal m closing)))
decimal_text-IsPiece lit (pos n) (negsuc m) k h = absurd (omega arith)
decimal_text-IsPiece lit (negsuc n) s k h = absurd (omega arith)

decimal_type-IsPiece :
    (max : ℤ) (lit : Bytes) (spec : ColumnSpec)
    → is_plain_text lit ≡ true
    → Returns IsPiece (decimal_type max lit spec)
unfolding decimal_type
decimal_type-IsPiece max lit spec k =
    let fails =
      is_nonzero spec.length
      || ltb_ℤ spec.precision (pos 1)
      || ltb_ℤ max spec.precision
      || ltb_ℤ spec.scale (pos 0)
      || ltb_ℤ spec.precision spec.scale in
    elim (Bool-cases fails) [
      | inl e ↦ rw e tt
      | inr e ↦ rw e (
          decimal_text-IsPiece lit spec.precision spec.scale k (
            decimal_negative spec.precision spec.scale (is_nonzero spec.length)
              (ltb_ℤ max spec.precision) e))
    ]

word :
    (spec : ColumnSpec) (s : Bytes) (c : ℕ)
    → is_plain_text s ≡ true
    → IsVisible c
    → is_special c ≡ false
    → Returns IsPiece (no_dimensions spec (s ++ c ∷ []))
word spec s c h k p = no_dimensions-IsPiece spec (s ++ c ∷ []) (IsPiece-word s c h k p)

mysql_type-IsPiece : (spec : ColumnSpec) → Returns IsPiece (mysql_type spec)
unfolding mysql_type varchar_type
mysql_type-IsPiece spec = elim (Bool-cases (equal spec.kind (codes "int"))) [
  | inl e ↦ rw e (word spec (codes "IN") b'T' refl (omega arith) refl)
  | inr e ↦ rw e (elim (Bool-cases (equal spec.kind (codes "bigint"))) [
    | inl e ↦ rw e (word spec (codes "BIGIN") b'T' refl (omega arith) refl)
    | inr e ↦ rw e (elim (Bool-cases (equal spec.kind (codes "varchar"))) [
      | inl e ↦ rw e (
          varchar-IsPiece spec.length (ltb_ℤ max_mysql_varchar_length spec.length)
            (is_nonzero spec.precision) (is_nonzero spec.scale))
      | inr e ↦ rw e (elim (Bool-cases (equal spec.kind (codes "text"))) [
        | inl e ↦ rw e (word spec (codes "TEX") b'T' refl (omega arith) refl)
        | inr e ↦ rw e (elim (Bool-cases (equal spec.kind (codes "decimal"))) [
          | inl e ↦ rw e (decimal_type-IsPiece max_mysql_decimal (codes "DECIMAL(") spec refl)
          | inr e ↦ rw e (elim (Bool-cases (equal spec.kind (codes "boolean"))) [
            | inl e ↦ rw e (word spec (codes "BOOLEA") b'N' refl (omega arith) refl)
            | inr e ↦ rw e (elim (Bool-cases (equal spec.kind (codes "date"))) [
              | inl e ↦ rw e (word spec (codes "DAT") b'E' refl (omega arith) refl)
              | inr e ↦ rw e (elim (Bool-cases (equal spec.kind (codes "datetime"))) [
                | inl e ↦ rw e (word spec (codes "DATETIM") b'E' refl (omega arith) refl)
                | inr e ↦ rw e (elim (Bool-cases (equal spec.kind (codes "timestamp"))) [
                  | inl e ↦ rw e (word spec (codes "TIMESTAM") b'P' refl (omega arith) refl)
                  | inr e ↦ rw e (tt)
                ])
              ])
            ])
          ])
        ])
      ])
    ])
  ])
]

clickhouse_type-IsPiece : (spec : ColumnSpec) → Returns IsPiece (clickhouse_type spec)
unfolding clickhouse_type
clickhouse_type-IsPiece spec = elim (Bool-cases (equal spec.kind (codes "int64"))) [
  | inl e ↦ rw e (word spec (codes "Int6") b'4' refl (omega arith) refl)
  | inr e ↦ rw e (elim (Bool-cases (equal spec.kind (codes "uint64"))) [
    | inl e ↦ rw e (word spec (codes "UInt6") b'4' refl (omega arith) refl)
    | inr e ↦ rw e (elim (Bool-cases (equal spec.kind (codes "string"))) [
      | inl e ↦ rw e (word spec (codes "Strin") b'g' refl (omega arith) refl)
      | inr e ↦ rw e (elim (Bool-cases (equal spec.kind (codes "decimal"))) [
        | inl e ↦ rw e (decimal_type-IsPiece max_clickhouse_decimal (codes "Decimal(") spec refl)
        | inr e ↦ rw e (elim (Bool-cases (equal spec.kind (codes "bool"))) [
          | inl e ↦ rw e (word spec (codes "Boo") b'l' refl (omega arith) refl)
          | inr e ↦ rw e (elim (Bool-cases (equal spec.kind (codes "date"))) [
            | inl e ↦ rw e (word spec (codes "Dat") b'e' refl (omega arith) refl)
            | inr e ↦ rw e (elim (Bool-cases (equal spec.kind (codes "datetime"))) [
              | inl e ↦ rw e (word spec (codes "DateTim") b'e' refl (omega arith) refl)
              | inr e ↦ rw e (tt)
            ])
          ])
        ])
      ])
    ])
  ])
]

nullability-IsPiece : (b : Bool) → IsPiece (if b then codes "NULL" else codes "NOT NULL")
nullability-IsPiece true = IsPiece-word (codes "NUL") b'L' refl (omega arith) refl
nullability-IsPiece false = IsPiece-word (codes "NOT NUL") b'L' refl (omega arith) refl

spaced-IsPiece : {t : Bytes} → IsPiece t → IsPiece (codes " " ++ t)
spaced-IsPiece h = IsPiece-literal (codes " ") refl h

pub mysql_column-IsPiece : (d : Dialect) (spec : ColumnSpec) → Returns IsPiece (mysql_column d spec)
unfolding mysql_column
mysql_column-IsPiece d spec = Returns-bind IsPiece IsPiece _ _ (quote-IsPiece d spec.name) λ name n.
    Returns-bind IsPiece IsPiece _ _ (mysql_type-IsPiece spec) λ type_sql t.
      IsPiece-append n
        (spaced-IsPiece
          (IsPiece-append t (spaced-IsPiece (nullability-IsPiece spec.nullable)) refl))
        refl

wrapped-IsPiece :
    (b : Bool) (t : Bytes)
    → IsPiece t
    → IsPiece (if b then codes "Nullable(" ++ (t ++ codes ")") else t)
wrapped-IsPiece true t h = IsPiece-literal (codes "Nullable(") refl (IsPiece-append h closing refl)
wrapped-IsPiece false t h = h

pub clickhouse_column-IsPiece :
    (d : Dialect) (spec : ColumnSpec) → Returns IsPiece (clickhouse_column d spec)
unfolding clickhouse_column
clickhouse_column-IsPiece d spec =
    Returns-bind IsPiece IsPiece _ _ (quote-IsPiece d spec.name) λ name n.
      Returns-bind IsPiece IsPiece _ _ (clickhouse_type-IsPiece spec) λ type_sql t.
        IsPiece-append n (spaced-IsPiece (wrapped-IsPiece spec.nullable type_sql t)) refl

-- One or more pieces.
abbrev pub IsPieces : List Bytes → Type 0
IsPieces [] = ⊥
IsPieces (c ∷ cs) = IsPiece c × All IsPiece cs

pub join-IsPiece : (cs : List Bytes) → IsPieces cs → IsPiece (join cs)
unfolding join
join-IsPiece [] h = absurd h
join-IsPiece (c ∷ cs) h = IsPiece-join c cs h.0 h.1
