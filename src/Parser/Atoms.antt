-- ===== src/Parser/Atoms.antt =====
-- What an expression of src/parser.c starts with: `parse_prefix_expr`. A result is a node or NULL, with
-- the state; `none` is a run that the fuel has ended.
use kavak.Base.{ℕ, ◌-◌, not, [], ◌∷◌, Option, none, some, ◌==◌, if◌then◌else◌, get_elem?}
use kavak.Span.{Span, span_union}
use kavak.Token.{Token}
use kavak.Token.Kind
use kavak.Parser.{Parser, peek, eat_text, expect_text, span_of}
use kavak.Parser.Operators.{Operator, prefix_bit, operator_for_token}
use kavak.Parser.Nodes.{
  ast_ident, ast_literal, ast_unary, ast_group, literal, ident, op, Node, node, span_of_node,
  append, Parsing, Env, advanced, make_node_at, make_node, make_token_node, finish_node,
  make_error_node,
}

-- a node or NULL, with the state
abbrev pub Run : Type 0
Run = Option (Option Node × Parsing)

unfoldable pub and_then : Run → (Option Node → Parsing → Run) → Run
and_then none f = none
and_then (some (n, s)) f = f n s

-- `KAVAK_OP_FLAG_SELECTOR`
abbrev pub selector_bit : ℕ
selector_bit = 7

-- `KAVAK_PARSER_MAX_EXPR_DEPTH`
abbrev pub max_expr_depth : ℕ
max_expr_depth = 512

-- the literal kind of a token, or 0
abbrev pub literal_kind : Token → ℕ
literal_kind token =
    if token.kind == Kind.int
    then 1
    else if token.kind == Kind.float
    then 2
    else if token.kind == Kind.string
    then 3
    else if token.kind == Kind.char
    then 4
    else 0

-- the span of the token at an index
abbrev pub token_span : Parsing → ℕ → Span
token_span s i = span_of (get_elem? s.parser.tokens i)

-- a node that gets an operator, its last child, and its span
abbrev pub with_op : Node → ℕ → ℕ → Option Node → Span → Node
with_op (node head children) op_token op_id last span =
    node (record head { payload = op op_token op_id; span = span }) (append children last)

-- the end of a group, behind its expression
unfoldable pub close_group : Env → Option Node → Option Node → Parsing → Run
close_group env group expr s =
    let closed = record s {
      parser = (expect_text env.mem s.parser Kind.punct (b')' ∷ []) (some "expected ')'")).1;
    } in
    elim group [
      | none ↦ some (none, closed)
      | some (node head children) ↦
          some (some (finish_node closed.parser (node head (append children expr))), closed)
    ]

-- a group whose opening is eaten
unfoldable pub parse_group : Env → (Parsing → ℕ → Run) → Parsing → Run
unfolding close_group
parse_group env parse s =
    let group = make_node_at env s ast_group (s.parser.pos - 1) in
    and_then (parse group.1 0) (close_group env group.0)

-- the end of a prefix operation, behind its operand
unfoldable pub close_unary : ℕ → ℕ → Span → Option Node → Option Node → Parsing → Run
close_unary op_token op_id span none rhs s = some (none, s)
close_unary op_token op_id span (some n) rhs s =
    some (some (with_op n op_token op_id rhs (span_union span (span_of_node rhs))), s)

unfoldable pub parse_unary : Env → (Parsing → ℕ → Run) → Operator → Parsing → Run
unfolding close_unary
parse_unary env parse prefix s =
    let n = make_node env (advanced s) ast_unary in
    and_then (parse n.1 prefix.prec)
      (close_unary s.parser.pos prefix.id (token_span s s.parser.pos) n.0)

-- the atoms of the language
abbrev pub or_error : Env → Option Node × Parsing → Run
or_error env (some atom, s) = some (some atom, s)
or_error env (none, s) = some (make_error_node env s "expected expression")

unfoldable pub parse_atom : Env → Parsing → Run
parse_atom env s = elim env.parse_primary [
  | none ↦ or_error env (none, s)
  | some hook ↦ or_error env (hook s)
]

-- a token that is no identifier and no literal
unfoldable pub parse_operator : Env → (Parsing → ℕ → Run) → Token → Parsing → Run
unfolding parse_unary parse_atom
parse_operator env parse token s = elim (operator_for_token env.operators (some token) prefix_bit) [
  | some prefix ↦ parse_unary env parse prefix s
  | none ↦ parse_atom env s
]

unfoldable pub group_or_operator :
    Env → (Parsing → ℕ → Run) → Token → Parsing → Option Token × Parser → Run
unfolding parse_group parse_operator
group_or_operator env parse token s (some eaten, p) =
    parse_group env parse (record s { parser = p })
group_or_operator env parse token s (none, p) =
    parse_operator env parse token (record s { parser = p })

unfoldable pub parse_token : Env → (Parsing → ℕ → Run) → Parsing → Token → Run
unfolding group_or_operator
parse_token env parse s token =
    if token.kind == Kind.ident
    then some (make_token_node env (advanced s) ast_ident s.parser.pos (ident s.parser.pos))
    else if not (literal_kind token == 0)
    then some (
        make_token_node env (advanced s) ast_literal s.parser.pos
          (literal s.parser.pos (literal_kind token)))
    else group_or_operator env parse token s (eat_text s.parser Kind.punct (b'(' ∷ []))

-- `parse_prefix_expr`
unfoldable pub parse_prefix_expr : Env → (Parsing → ℕ → Run) → Parsing → Run
unfolding parse_token
parse_prefix_expr env parse s = elim (peek s.parser) [
  | none ↦ some (none, s)
  | some token ↦ parse_token env parse s token
]
