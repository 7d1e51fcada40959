-- ===== src/Sqlguard/Analyze/Laws.antt =====
-- What a plan says of the text that internal/sqlguard analyzed.
use mcp_server_for_mysql.Base.{
  ◌≤◌, ◌||◌, List, [], ◌∷◌, ◌++◌, append-nil, append_assoc, ◌↔◌, ◌≡◌, refl, sym, ap, ◌∙◌, arith,
  ltb, if◌then◌else◌, length, Bytes, Result, ok, err, >>=-eq-ok,
}
use mcp_server_for_mysql.Sqlguard.Model.{
  SqlError, unsafe_or_unsupported_sql, Statement, Plan, make_plan, default_max_statements,
}
use mcp_server_for_mysql.Sqlguard.Splitter.{SplitError, split_sql_statement_groups, is_nil}
use mcp_server_for_mysql.Sqlguard.Analyze.{analyze_pieces, analyze_text}

module _ (classify_piece : Bytes → Result SqlError Statement) where
  -- Each statement is the classification of the piece in its place.
  pub data IsClassified : List Bytes → List Statement → Type 0 where
    nil : IsClassified [] []
    cons :
        {piece : Bytes} {pieces : List Bytes} {s : Statement} {ss : List Statement}
        → classify_piece piece ≡ ok s
        → IsClassified pieces ss
        → IsClassified (piece ∷ pieces) (s ∷ ss)

  pub length-IsClassified :
      {pieces : List Bytes} {ss : List Statement}
      → IsClassified pieces ss
      → length ss ≡ length pieces
  length-IsClassified nil = refl
  length-IsClassified (cons h c) = omega (arith, length-IsClassified c)

  -- The text is split into 1 to 50 pieces, and the plan is made of their classifications.
  pub record IsAnalysis (text : Bytes) (plan : Plan) : Type 0 where
    pub pieces : List Bytes
    pub statements : List Statement
    pub split : split_sql_statement_groups text ≡ ok pieces
    pub some_piece : 1 ≤ length pieces
    pub bounded : length pieces ≤ default_max_statements
    pub classified : IsClassified pieces statements
    pub planned : plan ≡ make_plan statements

  analyze_pieces-ok :
      (acc : List Statement) (pieces : List Bytes) {plan : Plan}
      → analyze_pieces classify_piece acc pieces ≡ ok plan
      → (ss : List Statement) × IsClassified pieces ss × (plan ≡ make_plan (acc ++ ss))
  unfolding analyze_pieces
  analyze_pieces-ok acc [] h = ([], nil, rw append-nil (cc))
  analyze_pieces-ok acc (piece ∷ pieces) h =
      let (s, one, more) =
        >>=-eq-ok (classify_piece piece) (λ s. analyze_pieces classify_piece (acc ++ s ∷ []) pieces)
          h in
      let (ss, c, e) = analyze_pieces-ok (acc ++ s ∷ []) pieces more in
      (s ∷ ss, cons one c, e ∙ ap make_plan (append_assoc acc (s ∷ []) ss))

  analyze_pieces-IsClassified :
      (acc : List Statement) {pieces : List Bytes} {ss : List Statement}
      → IsClassified pieces ss
      → analyze_pieces classify_piece acc pieces ≡ ok (make_plan (acc ++ ss))
  unfolding analyze_pieces
  analyze_pieces-IsClassified acc nil = rw append-nil
  analyze_pieces-IsClassified acc (cons {s = s} {ss = ss} h c) = rw h (
      analyze_pieces-IsClassified (acc ++ s ∷ []) c
      ∙ ap (λ l. ok (make_plan l)) (append_assoc acc (s ∷ []) ss))

  analyze_text-split :
      (text : Bytes) {pieces : List Bytes}
      → split_sql_statement_groups text ≡ ok pieces
      → analyze_text classify_piece text ≡ (
          if is_nil pieces || ltb default_max_statements (length pieces)
          then err unsafe_or_unsupported_sql
          else analyze_pieces classify_piece [] pieces)
  unfolding analyze_text
  analyze_text-split text e = rw (e, analyze_text)

  analyze_text-err :
      (text : Bytes) (e : SplitError)
      → split_sql_statement_groups text ≡ err e
      → analyze_text classify_piece text ≡ err unsafe_or_unsupported_sql
  unfolding analyze_text
  analyze_text-err text e h = rw (h, analyze_text)

  within_bounds :
      (pieces : List Bytes) (r : Result SqlError Plan) {plan : Plan}
      → (if is_nil pieces || ltb default_max_statements (length pieces)
          then err unsafe_or_unsupported_sql
          else r)
        ≡ ok plan
      → (1 ≤ length pieces) × (length pieces ≤ default_max_statements) × (r ≡ ok plan)
  within_bounds [] r h = cc
  within_bounds (p ∷ pieces) r h = ground arith

  in_bounds :
      (pieces : List Bytes) (r : Result SqlError Plan)
      → 1 ≤ length pieces
      → length pieces ≤ default_max_statements
      → (if is_nil pieces || ltb default_max_statements (length pieces)
          then err unsafe_or_unsupported_sql
          else r)
        ≡ r
  in_bounds [] r h k = absurd (omega arith)
  in_bounds (p ∷ pieces) r h k = ground arith

  analyze_text-IsAnalysis :
      (text : Bytes) {plan : Plan}
      → analyze_text classify_piece text ≡ ok plan
      → IsAnalysis text plan
  analyze_text-IsAnalysis text {plan} h = by_split (split_sql_statement_groups text) refl
    where
      by_split :
          (r : Result SplitError (List Bytes))
          → split_sql_statement_groups text ≡ r
          → IsAnalysis text plan
      by_split (err e) s = cc (analyze_text-err text e s)
      by_split (ok pieces) s =
          let (low, high, run) = within_bounds pieces _ (sym (analyze_text-split text s) ∙ h) in
          let (ss, c, e) = analyze_pieces-ok [] pieces run in
          record {
            pieces = pieces;
            statements = ss;
            split = s;
            some_piece = low;
            bounded = high;
            classified = c;
            planned = e;
          }

  -- A text is accepted with a plan exactly when it splits into 1 to 50 pieces that are all
  -- accepted, and the plan is made of the statements in the order of the pieces.
  pub analyze_text_iff :
      (text : Bytes) (plan : Plan)
      → (analyze_text classify_piece text ≡ ok plan) ↔ IsAnalysis text plan
  analyze_text_iff text plan = (
    analyze_text-IsAnalysis text,
    λ a.
        analyze_text-split text a.split
        ∙ in_bounds a.pieces _ a.some_piece a.bounded
        ∙ analyze_pieces-IsClassified [] a.classified
        ∙ ap ok (sym a.planned),
  )
