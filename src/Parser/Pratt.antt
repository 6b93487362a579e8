-- ===== src/Parser/Pratt.antt =====
-- The expression parser of src/parser.c. A result is a node or NULL, with the state; `none` is a run that
-- the fuel has ended.
pub mod Kept
pub mod Runs
pub mod Prefix
pub mod Turned
pub mod Turns
pub mod Precedence
pub mod Total
pub mod Calls
mod Tests
use Prim.Native.String.{String}
use kavak.Base.{
  ℕ, zero, suc, ◌+◌, ◌-◌, Bool, true, false, not, ◌&&◌, List, [], ◌∷◌, Option, none, some, ltb, leb,
  ◌==◌, if◌then◌else◌, get_elem?, add32, sub32, has_bit,
}
use kavak.Span.{Span, span_union}
use kavak.Token.{Token}
use kavak.Token.Kind
use kavak.Parser.{Parser, token_count, peek, progressed, check_text, eat_text, expect_text, span_of}
use kavak.Parser.Operators.{
  Assoc, left, right, non, Operator, infix_bit, prefix_bit, postfix_bit, operator_for_token,
  next_min_prec, same_precedence_infix_ahead,
}
use kavak.Parser.Rewind.{checkpoint, rewind}
use kavak.Parser.Nodes.{
  AstKind, ast_error, ast_ident, ast_literal, ast_unary, ast_binary, ast_group, ast_selector,
  Payload, literal, ident, op, user, Head, Node, node, head_of, span_of_node, append, Parsing, Env,
  advanced, diag, make_node_at, make_node, make_token_node, finish_node, flag, make_error_node,
}
use kavak.Parser.Atoms.{
  Run, and_then, selector_bit, max_expr_depth, token_span, with_op, parse_prefix_expr,
}

-- a turn of the loop of `kavak_parse_expression`: it ends, or goes on with a new left side
pub data Turn : Type 0 where
  done : Option Node → Parsing → Turn
  again : Node → Parsing → Turn

-- a postfix operator
unfoldable pub postfix_turn : Env → Operator → Parsing → Node → Turn
postfix_turn env postfix s lhs =
    let r = make_node env (advanced s) ast_unary in
    elim r.0 [
      | none ↦ done none r.1
      | some n ↦
          again
            (with_op n s.parser.pos postfix.id (some lhs)
              (span_union (head_of lhs).span (token_span s s.parser.pos)))
            r.1
    ]

-- a selector, behind its operator: a name, or an error that takes the token
abbrev pub with_user : Node → ℕ → Node → Span → Node
with_user (node head children) a child span =
    node (record head { payload = user a; span = span }) (append children (some child))

abbrev pub with_error : Node → Span → Node
with_error (node head children) span = node (record head { flagged = true; span = span }) children

unfoldable pub select_name : Env → Parsing → Node → Turn
select_name env s lhs =
    let r = make_node env (advanced s) ast_selector in
    elim r.0 [
      | none ↦ done none r.1
      | some n ↦
          again
            (with_user n s.parser.pos lhs
              (span_union (head_of lhs).span (token_span s s.parser.pos)))
            r.1
    ]

unfoldable pub select_error : Env → Parsing → Node → Option Token → Turn
select_error env s lhs next =
    let r =
      make_node env (diag env s (span_of next) "expected identifier after selector") ast_error in
    elim r.0 [
      | none ↦ done none (advanced r.1)
      | some n ↦
          done (some (with_error n (span_union (head_of lhs).span (span_of next)))) (advanced r.1)
    ]

abbrev pub is_ident : Option Token → Bool
is_ident none = false
is_ident (some token) = token.kind == Kind.ident

unfoldable pub selector_turn : Env → Parsing → Node → Turn
unfolding select_name select_error
selector_turn env s lhs =
    if is_ident (peek s.parser)
    then select_name env s lhs
    else select_error env s lhs (peek s.parser)

-- a binary operation behind its right side
abbrev pub is_non : Assoc → Bool
is_non left = false
is_non right = false
is_non non = true

abbrev pub joined : Node → ℕ → ℕ → Node → Option Node → Node
joined (node head children) op_token op_id lhs rhs =
    node
      (record head {
        payload = op op_token op_id;
        span = span_union (head_of lhs).span (span_of_node rhs);
      })
      (append (append children (some lhs)) rhs)

unfoldable pub close_binary : Env → Operator → ℕ → Node → Option Node → Parsing → Turn
close_binary env infix_ op_token lhs rhs s =
    let r = make_node env s ast_binary in
    elim r.0 [
      | none ↦ done none r.1
      | some n ↦
          let whole = joined n op_token infix_.id lhs rhs in
          if is_non infix_.assoc && same_precedence_infix_ahead env.operators r.1.parser infix_
          then done (some whole) (
              diag env r.1 (span_of (peek r.1.parser)) "non-associative operator cannot be chained")
          else again whole r.1
    ]

-- turns, with what goes on behind them
abbrev pub Looped : Type 0
Looped = Option Turn

unfoldable pub then_close : Env → Operator → ℕ → Node → Run → Looped
unfolding close_binary
then_close env infix_ op_token lhs none = none
then_close env infix_ op_token lhs (some (rhs, s)) =
    some (close_binary env infix_ op_token lhs rhs s)

unfoldable pub infix_turn : Env → (Parsing → ℕ → Run) → Operator → Parsing → Node → Looped
unfolding then_close selector_turn
infix_turn env parse infix_ s lhs =
    if has_bit infix_.flags selector_bit
    then some (selector_turn env (advanced s) lhs)
    else then_close env infix_ s.parser.pos lhs (parse (advanced s) (next_min_prec infix_))

-- the tests for an infix operator and for a postfix operator
unfoldable pub try_infix : Env → (Parsing → ℕ → Run) → ℕ → Parsing → Node → Looped
unfolding infix_turn
try_infix env parse min_prec s lhs =
    elim (operator_for_token env.operators (peek s.parser) infix_bit) [
      | none ↦ some (done (some lhs) s)
      | some infix_ ↦
          if ltb infix_.prec min_prec
          then some (done (some lhs) s)
          else infix_turn env parse infix_ s lhs
    ]

unfoldable pub operator_turn : Env → (Parsing → ℕ → Run) → ℕ → Parsing → Node → Looped
unfolding try_infix postfix_turn
operator_turn env parse min_prec s lhs =
    elim (operator_for_token env.operators (peek s.parser) postfix_bit) [
      | none ↦ try_infix env parse min_prec s lhs
      | some postfix ↦
          if leb min_prec postfix.prec && not (has_bit postfix.flags infix_bit)
          then some (postfix_turn env postfix s lhs)
          else try_infix env parse min_prec s lhs
    ]

-- the hook for trailing forms, in a build without `assert`; a hook that declines is rewound
abbrev pub rewound : Parsing → Parsing → Parsing
rewound before after =
    if after.parser.pos == before.parser.pos
    then after
    else record after { parser = rewind after.parser (checkpoint before.parser) }

unfoldable pub after_hook :
    Env → (Parsing → ℕ → Run) → ℕ → Parsing → Node → Option Node × Parsing → Looped
unfolding operator_turn
after_hook env parse min_prec s lhs (some ext, after) =
    if progressed after.parser s.parser.pos
    then some (again ext after)
    else some (done (some lhs) after)
after_hook env parse min_prec s lhs (none, after) =
    operator_turn env parse min_prec (rewound s after) lhs

unfoldable pub turn : Env → (Parsing → ℕ → Run) → ℕ → Parsing → Node → Looped
unfolding after_hook
turn env parse min_prec s lhs = elim env.parse_postfix [
  | none ↦ operator_turn env parse min_prec s lhs
  | some hook ↦ after_hook env parse min_prec s lhs (hook s lhs)
]

-- the loop
unfoldable pub go_on : (Parsing → Node → Run) → Looped → Run
go_on next none = none
go_on next (some (done n s)) = some (n, s)
go_on next (some (again n s)) = next s n

unfoldable pub loop : Env → (Parsing → ℕ → Run) → ℕ → ℕ → Parsing → Node → Run
unfolding go_on turn
loop env parse min_prec zero s lhs = none
loop env parse min_prec (suc fuel) s lhs =
    go_on (loop env parse min_prec fuel) (turn env parse min_prec s lhs)

-- `expr_depth++` and `expr_depth--`
abbrev pub deeper : Parsing → Parsing
deeper s = record s { parser = record s.parser { expr_depth = add32 s.parser.expr_depth 1 } }

abbrev pub leave : Option Node → Parsing → Run
leave n s =
    some (n, record s { parser = record s.parser { expr_depth = sub32 s.parser.expr_depth 1 } })

-- one turn for each token that is left, and one for the end
abbrev pub tokens_left : Parsing → ℕ
tokens_left s = suc (token_count s.parser - s.parser.pos)

abbrev pub loop_or_null : Env → (Parsing → ℕ → Run) → ℕ → Option Node → Parsing → Run
loop_or_null env parse min_prec none s = leave none s
loop_or_null env parse min_prec (some lhs) s =
    and_then (loop env parse min_prec (tokens_left s) s lhs) leave

-- `kavak_parse_expression`, with so many levels of recursion left
unfoldable pub parse_levels : Env → ℕ → Parsing → ℕ → Run
unfolding parse_prefix_expr loop and_then
parse_levels env zero s min_prec =
    if leb max_expr_depth s.parser.expr_depth
    then some (make_error_node env s "expression nesting too deep")
    else none
parse_levels env (suc levels) s min_prec =
    let parse = parse_levels env levels in
    let inside =
      and_then (parse_prefix_expr env parse (deeper s)) (loop_or_null env parse min_prec) in
    if leb max_expr_depth s.parser.expr_depth
    then some (make_error_node env s "expression nesting too deep")
    else inside

unfoldable pub parse_expression : Env → Parsing → ℕ → Run
unfolding parse_levels
parse_expression env s min_prec = parse_levels env max_expr_depth s min_prec
