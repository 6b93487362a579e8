-- ===== src/Parser/Pratt/Tests.antt =====
-- Runs of the expression parser on `a = b + c * d` and EOF, with `+` and `*` to the left and `=` to the
-- right, and on `f(a, b)`.
use kavak.Base.{ℕ, ◌≡◌, refl, true, false, has_bit, List, [], ◌∷◌, Option, none, some, arith}
use kavak.Span.{span_make}
use kavak.Token.{Token}
use kavak.Token.Kind
use kavak.Arena.{
  alloc_in, used_needed, arena_alloc, arena_alloc_aligned, alloc_chunks, add_size, align_forward,
  place,
}
use kavak.Parser.{
  peek, previous, at_end, step, advance, check_text, eat_text, expect_text, token_text_eq, expected,
}
use kavak.Parser.Cursor.{IsParser}
use kavak.Parser.Operators.{
  left, right, Operator, operator_for_token, operator_by_id, next_min_prec,
  same_precedence_infix_ahead,
}
use kavak.Parser.Nodes.{
  AstKind, Node, Children, node, nil, cons, Parsing, Env, Payload, alloc_node, make_node_at,
  make_token_node, finish_node,
}
use kavak.Parser.Pratt.Kept.{Parsed}
use kavak.Parser.Pratt.Runs.{Returns}
use kavak.Parser.Pratt.Total.{parse_expression-Parsed}
use kavak.Parser.Pratt.Precedence.{Binds}
use kavak.Parser.Pratt.Precedence.Levels.{parse_expression-Binds}
use kavak.Parser.Pratt.Calls.{
  parse_call, parse_delimited, delimited, items_loop, item_of, after_item, after_sep, close_items,
  finish_call,
}
use kavak.Parser.Pratt.Calls.Ends.{Listed, Gives}
use kavak.Parser.Pratt.Calls.Counted.{parse_delimited-Listed, parse_call-Parsed}
use kavak.Parser.Pratt.{
  parse_expression, parse_levels, loop, go_on, turn, operator_turn, try_infix, infix_turn,
  then_close, close_binary,
}
use kavak.Parser.Atoms.{and_then, parse_prefix_expr, parse_token}

abbrev letter : ℕ → Token
letter at_ = record { kind = Kind.ident; span = span_make at_ 1; v = 0 }

abbrev sign : ℕ → ℕ → Token
sign at_ id = record { kind = Kind.op; span = span_make at_ 1; v = id }

abbrev mark : ℕ → Token
mark at_ = record { kind = Kind.punct; span = span_make at_ 1; v = 0 }

abbrev last : ℕ → Token
last at_ = record { kind = Kind.eof; span = span_make at_ 0; v = 0 }

abbrev assign : Operator
assign = record { prec = 1; assoc = right; flags = 1; id = 1 }

abbrev plus : Operator
plus = record { prec = 2; assoc = left; flags = 1; id = 2 }

abbrev times : Operator
times = record { prec = 3; assoc = left; flags = 1; id = 3 }

abbrev env : Env
env = record {
  mem = λ n. true;
  calloc = λ n. some 4096;
  operators = assign ∷ plus ∷ times ∷ [];
  parse_primary = none;
  parse_postfix = none;
}

abbrev start : Parsing
start = record {
  parser = record {
    source = none;
    tokens =
        letter 0 ∷ sign 1 1 ∷ letter 2 ∷ sign 3 2 ∷ letter 4 ∷ sign 5 3 ∷ letter 6 ∷ last 7 ∷ [];
    pos = 0;
    expr_depth = 0;
    diags = none;
  };
  arena = record {
    chunks = (record { address = 4096; used = 0; cap = 65536 }) ∷ [];
    chunk_size = 65536;
    total_used = 0;
  };
}

-- the tokens of the tree, operators in front
abbrev payload_of : Payload → List ℕ → List ℕ
payload_of (Payload.op i id) rest = i ∷ rest
payload_of (Payload.ident i) rest = i ∷ rest
payload_of (Payload.range i j) rest = i ∷ rest
payload_of _ rest = 99 ∷ rest

mutual
  prefixed : Node → List ℕ → List ℕ
  prefixed (node head children) rest = payload_of head.payload (prefixed_all children rest)

  prefixed_all : Children → List ℕ → List ℕ
  prefixed_all nil rest = rest
  prefixed_all (cons n ns) rest = prefixed n (prefixed_all ns rest)

shape : Option (Option Node × Parsing) → List ℕ
unfolding prefixed
shape none = []
shape (some (none, s)) = []
shape (some (some n, s)) = prefixed n []

mixed : shape (parse_expression env start 0) ≡ 1 ∷ 0 ∷ 3 ∷ 2 ∷ 5 ∷ 4 ∷ 6 ∷ []
unfolding shape prefixed parse_expression parse_levels and_then parse_prefix_expr parse_token
    make_token_node alloc_node arena_alloc arena_alloc_aligned alloc_chunks alloc_in align_forward
    add_size used_needed place peek step at_end loop go_on turn operator_turn try_infix infix_turn
    then_close close_binary make_node_at operator_for_token operator_by_id next_min_prec
    same_precedence_infix_ahead has_bit
mixed = refl

start-IsParser : IsParser start.parser
start-IsParser = record {
  last = last 7;
  last_at = refl;
  last_eof = refl;
  count_le = omega arith;
  pos_lt = omega arith;
}

-- with the right side of the assignment only
above_plus :
    shape (parse_expression env (record start { parser = record start.parser { pos = 2 } }) 3)
    ≡ 2 ∷ []
unfolding shape prefixed parse_expression parse_levels and_then parse_prefix_expr parse_token
    make_token_node alloc_node arena_alloc arena_alloc_aligned alloc_chunks alloc_in align_forward
    add_size used_needed place peek step at_end loop go_on turn operator_turn try_infix
    operator_for_token operator_by_id has_bit
above_plus = refl

parse_expression-Parsed_example : Returns (parse_expression env start 0) (Parsed start.parser)
parse_expression-Parsed_example = parse_expression-Parsed env tt tt start 0 start-IsParser

parse_expression-Binds_example :
    Returns
      (parse_expression env start 0)
      (λ n t. Parsed start.parser n t × Binds env.operators 0 n t)
unfolding has_bit
parse_expression-Binds_example = parse_expression-Binds env refl tt tt start 0 start-IsParser

abbrev callee : Node
callee =
    node
      (record {
        kind = AstKind.ast_ident;
        flagged = false;
        span = span_make 0 1;
        payload = Payload.ident 0;
      })
      nil

-- behind the `f` of `f(a,b)`
abbrev called : Parsing
called = record {
  parser = record {
    source = some (record {
      bytes = b'f' ∷ b'(' ∷ b'a' ∷ b',' ∷ b'b' ∷ b')' ∷ [];
      filename = none;
      newline_flags = 0;
      line_offsets = none;
      line_count = 0;
    });
    tokens = letter 0 ∷ mark 1 ∷ letter 2 ∷ mark 3 ∷ letter 4 ∷ mark 5 ∷ last 6 ∷ [];
    pos = 1;
    expr_depth = 0;
    diags = none;
  };
  arena = start.arena;
}

called-IsParser : IsParser called.parser
called-IsParser = record {
  last = last 6;
  last_at = refl;
  last_eof = refl;
  count_le = omega arith;
  pos_lt = omega arith;
}

two_arguments : shape (parse_call env called callee b'(' b',' b')') ≡ 1 ∷ 0 ∷ 2 ∷ 4 ∷ []
unfolding shape prefixed parse_call parse_delimited delimited items_loop item_of after_item
    after_sep close_items finish_call finish_node check_text token_text_eq eat_text expect_text
    expected advance previous parse_expression parse_levels and_then parse_prefix_expr parse_token
    make_token_node make_node_at alloc_node arena_alloc arena_alloc_aligned alloc_chunks alloc_in
    align_forward add_size used_needed place peek step at_end loop go_on turn operator_turn
    try_infix operator_for_token operator_by_id
two_arguments = refl

parse_delimited-Listed_example :
    Gives (parse_delimited env called callee b'(' b',' b')') (Listed callee called.parser 0)
parse_delimited-Listed_example =
    parse_delimited-Listed env tt tt called callee b'(' b',' b')' called-IsParser

parse_call-Parsed_example :
    Returns (parse_call env called callee b'(' b',' b')') (Parsed called.parser)
parse_call-Parsed_example = parse_call-Parsed env tt tt called callee b'(' b',' b')' called-IsParser
