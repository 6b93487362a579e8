-- ===== src/Parser/Pratt/Total.antt =====
-- `kavak_parse_expression` of src/parser.c ends: each turn of its loop takes a token, and the levels of
-- recursion are bounded by `KAVAK_PARSER_MAX_EXPR_DEPTH`.
use kavak.Base.{
  ℕ, zero, suc, ◌+◌, ◌-◌, ◌≤◌, ◌<◌, ◌≡◌, refl, ap, ◌∙◌, leb, Option, none, some, arith, List,
  length, get_elem?, add32, sub32,
}
use kavak.Token.{Token}
use kavak.Parser.{Parser, token_count, peek, at_end}
use kavak.Parser.Cursor.{IsParser}
use kavak.Parser.Nodes.{Node, Parsing, Env}
use kavak.Parser.Pratt.{
  done, again, Looped, turn, go_on, loop, deeper, leave, tokens_left, loop_or_null, parse_levels,
  parse_expression,
}
use kavak.Parser.Atoms.{Run, parse_prefix_expr, max_expr_depth}
use kavak.Parser.Pratt.Kept.{At, At-lower, At-trans, Parsed, make_error_node-Parsed}
use kavak.Parser.Pratt.Prefix.{parse_prefix_expr-Parsed}
use kavak.Parser.Pratt.Runs.{Returns, and_then-Returns, if-Returns, Parses, Primary}
use kavak.Parser.Pratt.Turns.{Postfix, turn-Turns}
use kavak.Parser.Pratt.Turned.{Turns}

-- What the loop leaves.
abbrev Ends : Parser → Option Node → Parsing → Type 0
Ends q n s = At q.tokens q.expr_depth q.pos s.parser

Ends-behind :
    (q r : Parser) (m : Run)
    → At q.tokens q.expr_depth q.pos r
    → Returns m (Ends r)
    → Returns m (Ends q)
Ends-behind q r none a h = h
Ends-behind q r (some (n, s)) a h = At-trans r s.parser a h

go_on-Returns :
    (q : Parser) (next : Parsing → Node → Run) (l : Looped)
    → Turns q l
    → ((s : Parsing) (n : Node)
        → At q.tokens q.expr_depth (suc q.pos) s.parser
        → Returns (next s n) (Ends q))
    → Returns (go_on next l) (Ends q)
unfolding go_on
go_on-Returns q next none h rest = h
go_on-Returns q next (some (done n s)) h rest = h
go_on-Returns q next (some (again n s)) h rest = rest s n h

-- the depth inside
shallow_lem : (d : ℕ) → d < max_expr_depth → add32 d 1 ≡ d + 1
shallow_lem d shallow = omega (arith, shallow)

back_lem : (d : ℕ) → d < max_expr_depth → sub32 (add32 d 1) 1 ≡ d
back_lem d shallow = omega (arith, shallow)

same_place : (q r : Parser) → r.tokens ≡ q.tokens → r.pos ≡ q.pos → IsParser q → IsParser r
same_place q r tokens pos v = record {
  last = v.last;
  last_at = ap (λ ts. get_elem? ts (length ts - 1)) tokens ∙ v.last_at;
  last_eof = v.last_eof;
  count_le = omega (arith, v.count_le, ap (λ (ts : List Token). length ts) tokens);
  pos_lt = omega (arith, v.pos_lt, pos, ap (λ (ts : List Token). length ts) tokens);
}

left_Parsed :
    (q : Parser) (n : Option Node) (s : Parsing)
    → q.expr_depth < max_expr_depth
    → Parsed (record q { expr_depth = add32 q.expr_depth 1 }) n s
    → Returns (leave n s) (Parsed q)
unfolding at_end peek
left_Parsed q n s shallow p = record {
  kept = record {
    valid =
        same_place s.parser (record s.parser { expr_depth = sub32 s.parser.expr_depth 1 }) refl refl
          p.kept.valid;
    same_tokens = p.kept.same_tokens;
    same_depth = ap (λ d. sub32 d 1) p.kept.same_depth ∙ back_lem q.expr_depth shallow;
    low_le = p.kept.low_le;
  };
  moved = p.moved;
}

module _ (env : Env) (primary : Primary env.parse_primary)
    (postfix : Postfix env.parse_postfix) where
  loop-Ends :
      (depth : ℕ) (parse : Parsing → ℕ → Run)
      → Parses depth parse
      → (min_prec fuel : ℕ) (s : Parsing) (lhs : Node) → IsParser s.parser
      → s.parser.expr_depth ≡ depth
      → token_count s.parser - s.parser.pos < fuel
      → Returns (loop env parse min_prec fuel s lhs) (Ends s.parser)
  unfolding loop
  loop-Ends depth parse parses min_prec zero s lhs v same enough = absurd (omega (arith, enough))
  loop-Ends depth parse parses min_prec (suc fuel) s lhs v same enough =
      go_on-Returns s.parser (loop env parse min_prec fuel) (turn env parse min_prec s lhs)
        (turn-Turns env depth parse parses min_prec s lhs postfix v same)
        (λ t n a.
          let fewer : token_count t.parser - t.parser.pos < fuel = omega (
            arith,
            a.low_le,
            enough,
            ap (λ (ts : List Token). length ts) a.same_tokens,
            a.valid.pos_lt,
          ) in
          Ends-behind s.parser t.parser (loop env parse min_prec fuel t n)
            (At-lower s.parser.pos t.parser (omega arith) a)
            (loop-Ends depth parse parses min_prec fuel t n a.valid (a.same_depth ∙ same) fewer))

  loop_or_null-Parsed :
      (depth : ℕ) (parse : Parsing → ℕ → Run)
      → Parses depth parse
      → (min_prec : ℕ) (q : Parser) (lhs : Option Node) (s : Parsing)
      → q.expr_depth < max_expr_depth
      → add32 q.expr_depth 1 ≡ depth
      → Parsed (record q { expr_depth = add32 q.expr_depth 1 }) lhs s
      → Returns (loop_or_null env parse min_prec lhs s) (Parsed q)
  loop_or_null-Parsed depth parse parses min_prec q none s shallow same p =
      left_Parsed q none s shallow p
  loop_or_null-Parsed depth parse parses min_prec q (some lhs) s shallow same p =
      and_then-Returns (Ends s.parser) (Parsed q) leave
        (loop env parse min_prec (tokens_left s) s lhs)
        (loop-Ends depth parse parses min_prec (tokens_left s) s lhs p.kept.valid
          (p.kept.same_depth ∙ same) (omega arith))
        (λ n t a. left_Parsed q n t shallow (record {
          kept = At-trans s.parser t.parser p.kept a;
          moved = λ _ on. omega (arith, p.moved refl on, a.low_le);
        }))

  parse_levels-Parsed :
      (levels : ℕ) (s : Parsing) (min_prec : ℕ)
      → IsParser s.parser
      → max_expr_depth ≤ levels + s.parser.expr_depth
      → Returns (parse_levels env levels s min_prec) (Parsed s.parser)
  unfolding parse_levels
  parse_levels-Parsed zero s min_prec v enough =
      if-Returns (Parsed s.parser) (leb max_expr_depth s.parser.expr_depth) _ _
        (λ _. make_error_node-Parsed env "expression nesting too deep" s v)
        (λ shallow. absurd (ground (arith, shallow, enough)))
  parse_levels-Parsed (suc levels) s min_prec v enough =
      if-Returns (Parsed s.parser) (leb max_expr_depth s.parser.expr_depth) _ _
        (λ _. make_error_node-Parsed env "expression nesting too deep" s v)
        (λ open_.
          let shallow : s.parser.expr_depth < max_expr_depth = ground (arith, open_) in
          let one_more = shallow_lem s.parser.expr_depth shallow in
          let parses : Parses (add32 s.parser.expr_depth 1) (parse_levels env levels) =
            λ t m w d. parse_levels-Parsed levels t m w (omega (arith, d, one_more, enough)) in
          and_then-Returns (Parsed (deeper s).parser) (Parsed s.parser)
            (loop_or_null env (parse_levels env levels) min_prec)
            (parse_prefix_expr env (parse_levels env levels) (deeper s))
            (parse_prefix_expr-Parsed env (add32 s.parser.expr_depth 1) (parse_levels env levels)
              parses primary (deeper s) (same_place s.parser (deeper s).parser refl refl v) refl)
            (λ lhs t p.
              loop_or_null-Parsed (add32 s.parser.expr_depth 1) (parse_levels env levels) parses
                min_prec s.parser lhs t shallow refl p))

  -- With hooks that keep the tokens and the depth, do not go back and, for atoms, take a token where they
  -- give a node, `kavak_parse_expression` ends on every stream of tokens that ends in EOF, at every
  -- depth of nesting. It keeps the tokens and the depth, stays inside the tokens and does not go
  -- back, and it has taken a token where it gives a node and was not at EOF.
  pub parse_expression-Parsed :
      (s : Parsing) (min_prec : ℕ)
      → IsParser s.parser
      → Returns (parse_expression env s min_prec) (Parsed s.parser)
  unfolding parse_expression
  parse_expression-Parsed s min_prec v =
      parse_levels-Parsed max_expr_depth s min_prec v (omega arith)
