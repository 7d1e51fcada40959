-- ===== src/Sqlguard/Examples.antt =====
-- Parsers that stand in for those of internal/sqlguard, over trees that are lists of nodes.
use mcp_server_for_mysql.Base.{
  Bool, true, false, ◌&&◌, List, [], ◌∷◌, ◌↔◌, ◌⊎◌, inl, inr, some, ◌≡◌, refl, sym, ap, ◌∙◌, arith,
  if◌then◌else◌, codes, equal, subst,
}
use mcp_server_for_mysql.Sqlguard.Mysql as Mysql
use mcp_server_for_mysql.Sqlguard.ClickHouse as ClickHouse

-- The node is one of the list.
abbrev pub IsIn : {A : Type 0} → A → List A → Type 0
IsIn a [] = ⊥
IsIn a (b ∷ bs) = (b ≡ a) ⊎ IsIn a bs

abbrev pub walk_nodes : (Mysql.Node → Bool → Bool × Bool) → List Mysql.Node → Bool → Bool
walk_nodes visit [] s = s
walk_nodes visit (n ∷ ns) s = walk_nodes visit ns (visit n s).1

pub walk_nodes-visits :
    (visit : Mysql.Node → Bool → Bool × Bool) (t : List Mysql.Node) (P : Bool → Type 0)
    → ((n : Mysql.Node) (s : Bool) → IsIn n t → P s → P (visit n s).1)
    → (s : Bool) → P s
    → P (walk_nodes visit t s)
walk_nodes-visits visit [] P k s p = p
walk_nodes-visits visit (n ∷ ns) P k s p =
    walk_nodes-visits visit ns P (λ m r i. k m r (inr i)) (visit n s).1 (k n s (inl refl) p)

walk_nodes-keeps :
    (visit : Mysql.Node → Bool → Bool × Bool) (t : List Mysql.Node) (P : Bool → Type 0)
    → ((m : Mysql.Node) (s : Bool) → P s → P (visit m s).1)
    → (s : Bool) → P s
    → P (walk_nodes visit t s)
walk_nodes-keeps visit t P k s p = walk_nodes-visits visit t P (λ n r _. k n r) s p

pub walk_nodes-reaches :
    (visit : Mysql.Node → Bool → Bool × Bool) (t : List Mysql.Node) (n : Mysql.Node)
    (P : Bool → Type 0)
    → IsIn n t
    → ((m : Mysql.Node) (s : Bool) → P s → P (visit m s).1)
    → ((m : Mysql.Node) (s : Bool) → (visit m s).0 ≡ false → P (visit m s).1)
    → ((s : Bool) → P (visit n s).1)
    → (s : Bool) → P (walk_nodes visit t s)
walk_nodes-reaches visit [] n P i keep stop here s = absurd i
walk_nodes-reaches visit (m ∷ ms) n P (inl e) keep stop here s =
    walk_nodes-keeps visit ms P keep (visit m s).1 (subst (λ k. P (visit k s).1) (sym e) (here s))
walk_nodes-reaches visit (m ∷ ms) n P (inr i) keep stop here s =
    walk_nodes-reaches visit ms n P i keep stop here (visit m s).1

-- Every text parses as an UPDATE with a WHERE clause, except one.
abbrev pub mysql_parser : Mysql.Parser
mysql_parser = record {
  Tree = List Mysql.Node;
  Within = IsIn;
  walk = walk_nodes;
  walk_visits = walk_nodes-visits;
  walk_reaches = walk_nodes-reaches;
  parse_strict_ddl = λ text. some (
      if equal text (codes "SELECT 1")
      then Mysql.of_select (Mysql.select [] false false)
      else Mysql.update false true);
  string = λ stmt. elim stmt [
    | Mysql.of_select s ↦ codes "select 1 from dual"
    | _ ↦ codes "update t set a = 1 where b = 2"
  ];
}

abbrev pub test_nodes : List ClickHouse.Node → (ClickHouse.Node → Bool) → Bool
test_nodes [] f = true
test_nodes (n ∷ ns) f = f n && test_nodes ns f

pub test_nodes-true :
    (t : List ClickHouse.Node) (f : ClickHouse.Node → Bool)
    → (test_nodes t f ≡ true) ↔ ((n : ClickHouse.Node) → IsIn n t → f n ≡ true)
test_nodes-true [] f = (λ h n i. absurd i, λ h. refl)
test_nodes-true (m ∷ ms) f =
    let ih = test_nodes-true ms f in
    (
      λ h n i. elim i [ inl e ↦ ap f (sym e) ∙ ground arith | inr j ↦ ih.0 (ground arith) n j ],
      λ h. let a = h m (inl refl) in let b = ih.1 (λ n j. h n (inr j)) in ground arith,
    )

abbrev pub clickhouse_parser : ClickHouse.Parser
clickhouse_parser = record {
  Tree = List ClickHouse.Node;
  Within = IsIn;
  walk = test_nodes;
  walk_true = test_nodes-true;
  parse_stmts = λ text. some (ClickHouse.insert_stmt ∷ []);
  format = λ stmt. codes "INSERT INTO t VALUES (1)";
}
