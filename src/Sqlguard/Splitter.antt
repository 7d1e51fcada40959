-- ===== src/Sqlguard/Splitter.antt =====
-- internal/sqlguard/splitter.go: the scanner that cuts SQL at top-level semicolons.
-- A loop over an index is a recursion over the bytes that are left: `sql[i]` is the head, and
-- `sql[i+1]` the head of the tail. A body that says `i++` sets `skip`, and the next round passes
-- its byte over. The slice `sql[start:i]` is the accumulator `group`.
mod Tests
pub mod Lossless
pub mod Grammar
pub mod Groups
use mcp_server_for_mysql.Base.{
  ℕ, Bool, true, false, not, ◌&&◌, ◌||◌, List, [], ◌∷◌, ◌++◌, ◌==◌, if◌then◌else◌, Bytes, equal,
  trim_space, Result, ok, err, ◌>>=◌, length, ltb,
}

pub data ScanState : Type 0 where
  scan_normal scan_single_quote scan_double_quote scan_backtick : ScanState
  scan_line_comment scan_block_comment : ScanState

-- What one round of the loop does.
pub record Round : Type 0 where
  pub state : ScanState
  pub skip : Bool
  pub cut : Bool

abbrev pub go : ScanState → Round
go s = record { state = s; skip = false; cut = false }

abbrev pub go_skip : ScanState → Round
go_skip s = record { state = s; skip = true; cut = false }

-- `i+1 < len(sql) && sql[i+1] == c`
abbrev pub next_is : ℕ → Bytes → Bool
next_is c [] = false
next_is c (d ∷ _) = d == c

-- `i+1 < len(sql)`
abbrev pub has_next : Bytes → Bool
has_next [] = false
has_next (_ ∷ _) = true

abbrev pub is_comment_space : ℕ → Bool
is_comment_space c = c == b' ' || c == b'\t' || c == b'\n' || c == b'\r' || c == 12

abbrev dash_closes : Bytes → Bool
dash_closes [] = true
dash_closes (c ∷ _) = is_comment_space c

-- `startsLineComment(sql, index)`, on the bytes behind `sql[index]`.
unfoldable pub starts_line_comment : Bytes → Bool
starts_line_comment [] = false
starts_line_comment (c ∷ rest) = c == b'-' && dash_closes rest

normal_round : ℕ → Bytes → Round
normal_round c rest =
    if c == b'\''
    then go scan_single_quote
    else if c == b'"'
    then go scan_double_quote
    else if c == b'`'
    then go scan_backtick
    else if c == b'-'
    then (if starts_line_comment rest then go scan_line_comment else go scan_normal)
    else if c == b'#'
    then go scan_line_comment
    else if c == b'/'
    then (if next_is b'*' rest then go scan_block_comment else go scan_normal)
    else if c == b';'
    then record { state = scan_normal; skip = false; cut = true }
    else go scan_normal

-- `case scanSingleQuote`, `scanDoubleQuote` and `scanBacktick`, with their quote `q`.
quote_round : ScanState → ℕ → ℕ → Bytes → Round
quote_round here q c rest =
    if c == b'\\' && has_next rest
    then go_skip here
    else if c == q
    then (if next_is q rest then go_skip here else go scan_normal)
    else go here

line_comment_round : ℕ → Round
line_comment_round c = if c == b'\n' || c == b'\r' then go scan_normal else go scan_line_comment

block_comment_round : ℕ → Bytes → Round
block_comment_round c rest =
    if c == b'*' && next_is b'/' rest then go_skip scan_normal else go scan_block_comment

-- The `switch state` of the loop of `splitSQLStatementGroups`.
unfoldable pub split_round : ScanState → ℕ → Bytes → Round
unfolding normal_round quote_round line_comment_round block_comment_round
split_round scan_normal c rest = normal_round c rest
split_round scan_single_quote c rest = quote_round scan_single_quote b'\'' c rest
split_round scan_double_quote c rest = quote_round scan_double_quote b'"' c rest
split_round scan_backtick c rest = quote_round scan_backtick b'`' c rest
split_round scan_line_comment c rest = line_comment_round c
split_round scan_block_comment c rest = block_comment_round c rest

-- The loop: `skip` passes a byte over, `group` is `sql[start:i]`, `groups` are those appended.
unfoldable pub split_loop : Bool → ScanState → Bytes → List Bytes → Bytes → List Bytes
split_loop skip state group groups [] = groups ++ group ∷ []
split_loop true state group groups (c ∷ rest) = split_loop false state (group ++ c ∷ []) groups rest
split_loop false state group groups (c ∷ rest) =
    let r = split_round state c rest in
    split_loop r.skip r.state (if r.cut then [] else group ++ c ∷ [])
      (if r.cut then groups ++ group ∷ [] else groups) rest

unfoldable pub split_groups : Bytes → List Bytes
unfolding split_loop
split_groups = split_loop false scan_normal [] []

-- The body of the loop of `statementGroupHasCode` in state `scanNormal`: the next state, or
-- `return true`.
pub data CodeRound : Type 0 where
  found_code : CodeRound
  continue : ScanState → Bool → CodeRound

code_round_normal : ℕ → Bytes → CodeRound
code_round_normal c rest =
    if is_comment_space c
    then continue scan_normal false
    else if c == b'-' && starts_line_comment rest
    then continue scan_line_comment false
    else if c == b'#'
    then continue scan_line_comment false
    else if c == b'/' && next_is b'*' rest
    then continue scan_block_comment false
    else found_code

unfoldable pub code_round : ScanState → ℕ → Bytes → CodeRound
unfolding code_round_normal
code_round scan_normal c rest = code_round_normal c rest
code_round scan_line_comment c rest =
    if c == b'\n' || c == b'\r'
    then continue scan_normal false
    else continue scan_line_comment false
code_round scan_block_comment c rest =
    if c == b'*' && next_is b'/' rest
    then continue scan_normal true
    else continue scan_block_comment false
code_round other c rest = continue other false

unfoldable pub has_code_loop : Bool → ScanState → Bytes → Bool
has_code_loop skip state [] = false
has_code_loop true state (c ∷ rest) = has_code_loop false state rest
has_code_loop false state (c ∷ rest) = elim (code_round state c rest) [
  | found_code ↦ true
  | continue next skip ↦ has_code_loop skip next rest
]

-- `statementGroupHasCode`
unfoldable pub statement_group_has_code : Bytes → Bool
unfolding has_code_loop code_round starts_line_comment
statement_group_has_code = has_code_loop false scan_normal

pub data SplitError : Type 0 where
  invalid_statement_groups : SplitError

abbrev pub is_nil {ℓ} : {A : Type ℓ} → List A → Bool
is_nil [] = true
is_nil (_ ∷ _) = false

-- The loop over `groups`: `single` is `len(groups) == 1`, `statements` are those appended.
unfoldable pub check_groups : Bool → List Bytes → List Bytes → Result SplitError (List Bytes)
check_groups single statements [] = ok statements
check_groups single statements (group ∷ groups) =
    let rest_with_code = check_groups single (statements ++ trim_space group ∷ []) groups in
    let rest_blank = check_groups single statements groups in
    if statement_group_has_code group
    then rest_with_code
    else if is_nil groups && not single && equal (trim_space group) []
    then rest_blank
    else err invalid_statement_groups

abbrev is_single : List Bytes → Bool
is_single groups = not (ltb 1 (length groups))

abbrev require_statements : List Bytes → Result SplitError (List Bytes)
require_statements [] = err invalid_statement_groups
require_statements (s ∷ ss) = ok (s ∷ ss)

-- `splitSQLStatementGroups`
unfoldable pub split_sql_statement_groups : Bytes → Result SplitError (List Bytes)
unfolding split_groups split_round starts_line_comment check_groups statement_group_has_code
    trim_space
split_sql_statement_groups sql =
    let groups = split_groups sql in
    check_groups (is_single groups) [] groups >>= require_statements
