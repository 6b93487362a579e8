-- ===== src/Parser/Pratt/Prefix.antt =====
-- What `parse_prefix_expr` of src/parser.c leaves of a parser, and that it ends.
use mathlib.Core.Path.{subst}
use kavak.Base.{
  ℕ, suc, ◌-◌, ◌<◌, ◌≡◌, refl, sym, ap, ◌∙◌, inl, inr, true, false, not, ◌==◌, Option, none, some,
  arith, Bool-cases, Option-cases, List, [], ◌∷◌, length,
}
use kavak.Span.{Span}
use kavak.Token.{Token}
use kavak.Token.Kind
use kavak.Parser.{Parser, peek, ends, at_end, step, eat_text, expect_text}
use kavak.Parser.Cursor.{IsParser}
use kavak.Parser.Operators.{Operator, operator_for_token, prefix_bit}
use kavak.Parser.Nodes.{
  AstKind, ast_group, ast_unary, ast_ident, ast_literal, Payload, ident, literal, Node, node,
  Parsing, Env, advanced, make_node_at, make_node, make_token_node, alloc_node, make_error_node,
}
use kavak.Parser.Atoms.{
  Run, literal_kind, token_span, close_group, parse_group, close_unary, parse_unary, or_error,
  parse_atom, parse_operator, group_or_operator, parse_token, parse_prefix_expr,
}
use kavak.Parser.Pratt.Kept.{
  At, At-self, At-trans, step_on-At, Eats, took, stayed, eat_text-Eats, expect_text-At,
  make_token_node_parser, given, Parsed, make_error_node-Parsed,
}
use kavak.Parser.Pratt.Runs.{Returns, and_then-Returns, if-Returns, Parses, Primary, Parsed-moved}

-- behind a token that was taken
Parsed-behind :
    (q : Parser) (s : Parsing)
    → At q.tokens q.expr_depth (suc q.pos) s.parser
    → (n : Option Node) (t : Parsing) → Parsed s.parser n t
    → Parsed q n t
Parsed-behind q s a n t p = Parsed-moved q n t (At-trans s.parser t.parser a p.kept)

-- an operator is a token before EOF
pub operator_on :
    (q : Parser) (ops : List Operator) (bit : ℕ) (op : Operator)
    → operator_for_token ops (peek q) bit ≡ some op
    → at_end q ≡ false
unfolding operator_for_token at_end
operator_on q ops bit op h = ground arith

closed_At :
    (env : Env) (q : Parser) (s : Parsing)
    → At q.tokens q.expr_depth (suc q.pos) s.parser
    → At q.tokens q.expr_depth
        (suc q.pos)
        (expect_text env.mem s.parser Kind.punct (b')' ∷ []) (some "expected ')'")).1
closed_At env q s a =
    At-trans s.parser (expect_text env.mem s.parser Kind.punct (b')' ∷ []) (some "expected ')'")).1
      a (expect_text-At env.mem s.parser Kind.punct (b')' ∷ []) (some "expected ')'") a.valid refl)

close_group-Parsed :
    (env : Env) (group expr : Option Node) (q : Parser) (s : Parsing)
    → At q.tokens q.expr_depth (suc q.pos) s.parser
    → Returns (close_group env group expr s) (Parsed q)
unfolding close_group
close_group-Parsed env none expr q s a = Parsed-moved q none _ (closed_At env q s a)
close_group-Parsed env (some (node head children)) expr q s a =
    Parsed-moved q _ _ (closed_At env q s a)

close_unary-Parsed :
    (op_token op_id : ℕ) (span : Span) (n rhs : Option Node) (q : Parser) (s : Parsing)
    → At q.tokens q.expr_depth (suc q.pos) s.parser
    → Returns (close_unary op_token op_id span n rhs s) (Parsed q)
unfolding close_unary
close_unary-Parsed op_token op_id span none rhs q s a = Parsed-moved q none s a
close_unary-Parsed op_token op_id span (some n) rhs q s a = Parsed-moved q _ s a

at_end_same : (q r : Parser) → r.tokens ≡ q.tokens → r.pos ≡ q.pos → at_end r ≡ at_end q
unfolding at_end peek
at_end_same q r tokens pos = ground (arith, tokens, pos, ap (λ (ts : List Token). length ts) tokens)

error_moved :
    (env : Env) (q : Parser) (s : Parsing)
    → At q.tokens q.expr_depth q.pos s.parser
    → given (make_error_node env s "expected expression").0 ≡ true
    → at_end q ≡ false
    → q.pos < (make_error_node env s "expected expression").1.parser.pos
error_moved env q s a g on =
    let r = make_error_node-Parsed env "expected expression" s a.valid in
    elim (Bool-cases (q.pos == s.parser.pos)) [
      | inl same ↦
          let stay : s.parser.pos ≡ q.pos = ground (arith, same) in
          omega (arith, r.moved g (at_end_same q s.parser a.same_tokens stay ∙ on), stay)
      | inr apart ↦ ground (arith, apart, r.kept.low_le, a.low_le)
    ]

or_error-Parsed :
    (env : Env) (q : Parser) (n : Option Node) (s : Parsing)
    → Parsed q n s
    → Returns (or_error env (n, s)) (Parsed q)
or_error-Parsed env q (some n) s p = p
or_error-Parsed env q none s p =
    let r = make_error_node-Parsed env "expected expression" s p.kept.valid in
    record {
      kept = At-trans s.parser (make_error_node env s "expected expression").1.parser p.kept r.kept;
      moved = λ g on. error_moved env q s p.kept g on;
    }

-- an identifier or a literal
token_node-Parsed :
    (env : Env) (s : Parsing) (kind : AstKind) (payload : Payload)
    → IsParser s.parser
    → at_end s.parser ≡ false
    → Returns (some (make_token_node env (advanced s) kind s.parser.pos payload)) (Parsed s.parser)
token_node-Parsed env s kind payload v on =
    let r = make_token_node env (advanced s) kind s.parser.pos payload in
    Parsed-moved s.parser r.0 r.1 (
      subst (At s.parser.tokens s.parser.expr_depth (suc s.parser.pos))
        (sym (make_token_node_parser env (advanced s) kind s.parser.pos payload))
        (step_on-At s.parser v on))

on_at :
    (q : Parser) (token : Token)
    → peek q ≡ some token
    → (token.kind == Kind.eof) ≡ false
    → at_end q ≡ false
unfolding at_end
on_at q token here other = ap ends here ∙ other

module _ (env : Env) (depth : ℕ) (parse : Parsing → ℕ → Run) (parses : Parses depth parse)
    (primary : Primary env.parse_primary) where
  parse_group-Parsed :
      (q : Parser) (s : Parsing)
      → At q.tokens q.expr_depth (suc q.pos) s.parser
      → q.expr_depth ≡ depth
      → Returns (parse_group env parse s) (Parsed q)
  unfolding parse_group make_node_at alloc_node
  parse_group-Parsed q s a same =
      let group = make_node_at env s ast_group (s.parser.pos - 1) in
      and_then-Returns (Parsed s.parser) (Parsed q) (close_group env group.0) (parse group.1 0)
        (parses group.1 0 a.valid (a.same_depth ∙ same))
        (λ expr t p. close_group-Parsed env group.0 expr q t (At-trans s.parser t.parser a p.kept))

  parse_unary-Parsed :
      (prefix : Operator) (s : Parsing)
      → IsParser s.parser
      → at_end s.parser ≡ false
      → s.parser.expr_depth ≡ depth
      → Returns (parse_unary env parse prefix s) (Parsed s.parser)
  unfolding parse_unary make_node_at alloc_node
  parse_unary-Parsed prefix s v on same =
      let a = step_on-At s.parser v on in
      let n = make_node env (advanced s) ast_unary in
      let close = close_unary s.parser.pos prefix.id (token_span s s.parser.pos) n.0 in
      and_then-Returns (Parsed (step s.parser)) (Parsed s.parser) close (parse n.1 prefix.prec)
        (parses n.1 prefix.prec a.valid (a.same_depth ∙ same))
        (λ rhs t p.
          close_unary-Parsed s.parser.pos prefix.id (token_span s s.parser.pos) n.0 rhs s.parser t
            (At-trans (step s.parser) t.parser a p.kept))

  parse_atom-Parsed :
      (s : Parsing) → IsParser s.parser → Returns (parse_atom env s) (Parsed s.parser)
  unfolding parse_atom
  parse_atom-Parsed s v =
      elim (env.parse_primary)
          as (λ h.
            Primary h
            → Returns (elim h [ none ↦ or_error env (none, s) | some hook ↦ or_error env (hook s) ])
                (Parsed s.parser)) [
                  | none ↦ λ _. or_error-Parsed env s.parser none s (record {
                    kept = At-self s.parser v;
                    moved = λ g _. absurd (ground (arith, g));
                  })
                  | some hook ↦
                      λ keeps. or_error-Parsed env s.parser (hook s).0 (hook s).1 (keeps s v)
                ]
        primary

  parse_operator-Parsed :
      (token : Token) (s : Parsing)
      → IsParser s.parser
      → peek s.parser ≡ some token
      → s.parser.expr_depth ≡ depth
      → Returns (parse_operator env parse token s) (Parsed s.parser)
  unfolding parse_operator
  parse_operator-Parsed token s v here same =
      elim (Option-cases (operator_for_token env.operators (some token) prefix_bit)) [
        | inl nothing ↦ rw (nothing, parse_operator) (parse_atom-Parsed s v)
        | inr (prefix, found) ↦
            let on =
              operator_on s.parser env.operators prefix_bit prefix
                (ap (λ o. operator_for_token env.operators o prefix_bit) here ∙ found) in
            rw (found, parse_operator) (parse_unary-Parsed prefix s v on same)
      ]

  group_or_operator-Parsed :
      (token : Token) (s : Parsing) (r : Option Token × Parser)
      → Eats s.parser r
      → IsParser s.parser
      → peek s.parser ≡ some token
      → s.parser.expr_depth ≡ depth
      → Returns (group_or_operator env parse token s r) (Parsed s.parser)
  unfolding group_or_operator
  group_or_operator-Parsed token s r (took t e on) v here same =
      rw e (parse_group-Parsed s.parser (advanced s) (step_on-At s.parser v on) same)
  group_or_operator-Parsed token s r (stayed e) v here same =
      rw e (parse_operator-Parsed token s v here same)

  parse_token-Parsed :
      (token : Token) (s : Parsing)
      → IsParser s.parser
      → peek s.parser ≡ some token
      → s.parser.expr_depth ≡ depth
      → Returns (parse_token env parse s token) (Parsed s.parser)
  unfolding parse_token
  parse_token-Parsed token s v here same =
      if-Returns (Parsed s.parser) (token.kind == Kind.ident) _ _
        (λ name.
          token_node-Parsed env s ast_ident (ident s.parser.pos) v
            (on_at s.parser token here (ground (arith, name))))
        (λ _.
          if-Returns (Parsed s.parser) (not (literal_kind token == 0)) _ _
            (λ value.
              token_node-Parsed env s ast_literal (literal s.parser.pos (literal_kind token)) v
                (on_at s.parser token here (ground (arith, value))))
            (λ _.
              group_or_operator-Parsed token s (eat_text s.parser Kind.punct (b'(' ∷ []))
                (eat_text-Eats s.parser Kind.punct (b'(' ∷ []) v refl) v here same))

  pub parse_prefix_expr-Parsed :
      (s : Parsing)
      → IsParser s.parser
      → s.parser.expr_depth ≡ depth
      → Returns (parse_prefix_expr env parse s) (Parsed s.parser)
  unfolding parse_prefix_expr
  parse_prefix_expr-Parsed s v same = elim (Option-cases (peek s.parser)) [
    | inl nothing ↦
        rw (nothing, parse_prefix_expr)
          (record { kept = At-self s.parser v; moved = λ g _. absurd (ground (arith, g)) })
    | inr (token, here) ↦ rw (here, parse_prefix_expr) (parse_token-Parsed token s v here same)
  ]
