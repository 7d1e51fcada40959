-- ===== src/Sqlguard/Splitter/Lossless.antt =====
-- The groups of splitSQLStatementGroups (internal/sqlguard/splitter.go) as slices of the input.
use mcp_server_for_mysql.Base.{
  ℕ, Bool, true, false, List, [], ◌∷◌, ◌++◌, append-nil, append_assoc, inl, inr, ◌≡◌, refl, sym, ap,
  ◌∙◌, arith, Bool-cases, Bytes, join_by,
}
use mcp_server_for_mysql.Sqlguard.Splitter.{
  ScanState, scan_normal, split_round, split_loop, split_groups,
}

abbrev pub semicolon : Bytes
semicolon = b';' ∷ []

join_by-concat :
    (sep x y : Bytes) (gs : List Bytes)
    → join_by sep (gs ++ (x ++ (sep ++ y)) ∷ []) ≡ join_by sep ((gs ++ x ∷ []) ++ y ∷ [])
join_by-concat sep x y [] = refl
join_by-concat sep x y (g ∷ []) = refl
join_by-concat sep x y (g ∷ h ∷ gs) = ap (λ t. g ++ (sep ++ t)) (join_by-concat sep x y (h ∷ gs))

split_round-cut :
    (st : ScanState) (c : ℕ) (rest : Bytes) → (split_round st c rest).cut ≡ true → c ≡ b';'
unfolding split_round
split_round-cut scan_normal c rest = ground arith
split_round-cut _ c rest = ground arith

join_by-split_loop :
    (skip : Bool) (st : ScanState) (group : Bytes) (groups : List Bytes) (rest : Bytes)
    → join_by semicolon (split_loop skip st group groups rest)
      ≡ join_by semicolon (groups ++ (group ++ rest) ∷ [])
unfolding split_loop
join_by-split_loop true st group groups [] = rw append-nil refl
join_by-split_loop false st group groups [] = rw append-nil refl
join_by-split_loop true st group groups (c ∷ rest) =
    rw (join_by-split_loop false st (group ++ c ∷ []) groups rest, append_assoc) refl
join_by-split_loop false st group groups (c ∷ rest) =
    let r = split_round st c rest in
    elim (Bool-cases r.cut) [
      | inl cut ↦ rw cut (
          join_by-split_loop r.skip r.state [] (groups ++ group ∷ []) rest
          ∙ rw (split_round-cut st c rest cut) (sym (join_by-concat semicolon group rest groups)))
      | inr keep ↦
          rw keep
            (join_by-split_loop r.skip r.state (group ++ c ∷ []) groups rest ∙ rw append_assoc refl)
    ]

-- No byte is lost, added or moved by the scan: the groups joined by semicolons are the input.
pub join_by-split_groups : (sql : Bytes) → join_by semicolon (split_groups sql) ≡ sql
unfolding split_groups
join_by-split_groups sql = join_by-split_loop false scan_normal [] [] sql
