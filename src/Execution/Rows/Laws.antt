-- ===== src/Execution/Rows/Laws.antt =====
-- The row limit of internal/execution/rows.go.
use mcp_server_for_mysql.Base.{
  subst, pos, negsuc, ℕ, zero, suc, ◌+◌, ◌≤◌, ◌<◌, Bool, true, false, List, [], ◌∷◌, ◌++◌, map,
  append-nil, append_assoc, inl, inr, Option, none, some, ◌≡◌, refl, ap, ◌∙◌, arith, ltb, ◌==◌,
  Bool-cases, length, Bytes, Result, ok, err, Returns, ℤ,
}
use mcp_server_for_mysql.Execution.Value.{Value}
use mcp_server_for_mysql.Execution.Driver.{Log, RowSet, Driver}
use mcp_server_for_mysql.Execution.Rows.{
  QueryResult, effective_max_rows, text_cell, Collected, collect_loop, finish, collect_rows,
  run_query,
}

abbrev pub take {ℓ} : {A : Type ℓ} → ℕ → List A → List A
take zero xs = []
take (suc n) [] = []
take (suc n) (x ∷ xs) = x ∷ take n xs

length-concat : (xs : List (List Value)) (x : List Value) → length (xs ++ x ∷ []) ≡ suc (length xs)
length-concat [] x = refl
length-concat (y ∷ xs) x = ap suc (length-concat xs x)

module _ {Error : Type 0} (limit : ℕ) where
  loop-full :
      (acc : List (List Value)) (r : Result Error (List Value))
      (rest : List (Result Error (List Value)))
      → length acc ≡ limit
      → collect_loop limit acc (r ∷ rest) ≡ ok (record { rows = acc; truncated = true })
  unfolding collect_loop
  loop-full acc r rest h = ground arith

  loop-row :
      (acc : List (List Value)) (v : List Value) (rest : List (Result Error (List Value)))
      → length acc < limit
      → collect_loop limit acc (ok v ∷ rest) ≡ collect_loop limit (acc ++ map text_cell v ∷ []) rest
  unfolding collect_loop
  loop-row acc v rest h = ground arith

  loop-take :
      (room : ℕ) (acc : List (List Value)) (vs : List (List Value))
      → length acc + room ≡ limit
      → collect_loop {Error = Error} limit acc (map ok vs)
        ≡ ok (record {
          rows = acc ++ map (map text_cell) (take room vs);
          truncated = ltb room (length vs);
        })
  unfolding collect_loop
  loop-take zero acc [] h = rw append-nil
  loop-take (suc room) acc [] h = rw append-nil (ground arith)
  loop-take zero acc (v ∷ vs) h =
      loop-full acc (ok v) (map ok vs) (omega arith) ∙ rw append-nil (ground arith)
  loop-take (suc room) acc (v ∷ vs) h =
      loop-row acc v (map ok vs) (omega arith)
      ∙ loop-take room (acc ++ map text_cell v ∷ []) vs
          (omega (arith, length-concat acc (map text_cell v)))
      ∙ rw append_assoc (ground arith)

  -- Where every row is scanned, the result holds the first `limit` rows with their byte slices as
  -- text, and says that it is truncated exactly when there are more.
  pub collect_loop-take :
      (vs : List (List Value))
      → collect_loop {Error = Error} limit [] (map ok vs)
        ≡ ok (record {
          rows = map (map text_cell) (take limit vs);
          truncated = ltb limit (length vs);
        })
  collect_loop-take vs = loop-take limit [] vs (omega arith)

  loop-bound :
      (acc : List (List Value)) (rows : List (Result Error (List Value)))
      → length acc ≤ limit
      → Returns (λ c. length c.rows ≤ limit) (collect_loop limit acc rows)
  unfolding collect_loop
  loop-bound acc [] h = h
  loop-bound acc (err e ∷ rest) h = elim (Bool-cases (length acc == limit)) [
    | inl full ↦ rw (full, collect_loop) h
    | inr room ↦ rw (room, collect_loop) tt
  ]
  loop-bound acc (ok v ∷ rest) h = elim (Bool-cases (length acc == limit)) [
    | inl full ↦ rw (full, collect_loop) h
    | inr room ↦
        rw (room, collect_loop)
          (loop-bound (acc ++ map text_cell v ∷ []) rest
            (ground (arith, length-concat acc (map text_cell v))))
  ]

abbrev pub IsBounded : ℕ → QueryResult → Type 0
IsBounded limit q = length q.rows ≤ limit

finish-bound :
    {Error : Type 0} (limit : ℕ) (columns : List Bytes) (c : Collected) (e : Option Error)
    → length c.rows ≤ limit
    → Returns (IsBounded limit) (finish columns c e)
finish-bound limit columns c none h = elim (Bool-cases c.truncated) [
  | inl t ↦ rw t h
  | inr f ↦ rw f h
]
finish-bound limit columns c (some e) h = elim (Bool-cases c.truncated) [
  | inl t ↦ rw t h
  | inr f ↦ rw f tt
]

module _ {Error : Type 0} (max_rows : ℤ) where
  after_loop :
      (set : RowSet Error) (columns : List Bytes) (r : Result Error Collected)
      → set.columns ≡ ok columns
      → collect_loop (effective_max_rows max_rows) [] set.rows ≡ r
      → Returns (λ c. length c.rows ≤ effective_max_rows max_rows) r
      → Returns (IsBounded (effective_max_rows max_rows)) (collect_rows max_rows set)
  unfolding collect_rows
  after_loop set columns (err e) h k b = rw (h, k, collect_rows) tt
  after_loop set columns (ok c) h k b =
      rw (h, k, collect_rows)
        (finish-bound (effective_max_rows max_rows) columns c set.rows_error b)

  collect_rows-bound :
      (set : RowSet Error) (columns : Result Error (List Bytes))
      → set.columns ≡ columns
      → Returns (IsBounded (effective_max_rows max_rows)) (collect_rows max_rows set)
  collect_rows-bound set (err e) h = unfold collect_rows in rw (h, collect_rows) tt
  collect_rows-bound set (ok columns) h =
      after_loop set columns _ h refl
        (loop-bound (effective_max_rows max_rows) [] set.rows (omega arith))

-- A positive limit as it is, and 100 for any other.
abbrev pub row_limit : ℤ → ℕ
row_limit (pos zero) = 100
row_limit (pos (suc n)) = suc n
row_limit (negsuc n) = 100

effective_max_rows-row_limit : (max_rows : ℤ) → effective_max_rows max_rows ≡ row_limit max_rows
unfolding effective_max_rows
effective_max_rows-row_limit (pos zero) = refl
effective_max_rows-row_limit (pos (suc n)) = refl
effective_max_rows-row_limit (negsuc n) = refl

-- A query returns no more rows than the limit where it is positive, and 100 at most where it is not.
pub run_query-bound :
    (d : Driver) (max_rows : ℤ) (has_db : Bool) (statement : Bytes) (args : List Value) (log : Log)
    → Returns (IsBounded (row_limit max_rows)) (run_query d max_rows has_db statement args log).0
unfolding run_query
run_query-bound d max_rows false statement args log = tt
run_query-bound d max_rows true statement args log =
    by_reply (d.query_context log statement args) refl
  where
    by_reply :
        (r : Result d.Error (RowSet d.Error))
        → d.query_context log statement args ≡ r
        → Returns (IsBounded (row_limit max_rows)) (run_query d max_rows true statement args log).0
    by_reply (err e) h = rw (h, run_query) tt
    by_reply (ok set) h =
        rw (h, run_query)
          (subst (λ n. Returns (IsBounded n) (collect_rows max_rows set))
            (effective_max_rows-row_limit max_rows)
            (collect_rows-bound max_rows set set.columns refl))
