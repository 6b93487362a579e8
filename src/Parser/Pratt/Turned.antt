-- ===== src/Parser/Pratt/Turned.antt =====
-- The operations of the loop of `kavak_parse_expression` of src/parser.c keep the parser valid, and have
-- taken a token where the loop goes on.
use kavak.Base.{ℕ, suc, ◌≡◌, Bool, true, false, ◌&&◌, Option, none, some, if◌then◌else◌, arith}
use kavak.Span.{span_union}
use kavak.Token.{Token}
use kavak.Parser.{Parser, peek, at_end, step, span_of}
use kavak.Parser.Cursor.{IsParser}
use kavak.Parser.Operators.{Operator, same_precedence_infix_ahead}
use kavak.Parser.Nodes.{
  ast_binary, ast_unary, ast_selector, ast_error, Node, Parsing, Env, advanced, diag, make_node_at,
  make_node, alloc_node, head_of,
}
use kavak.Parser.Pratt.{
  Turn, done, again, postfix_turn, select_name, select_error, selector_turn, with_user, with_error,
  is_ident, is_non, joined, close_binary, Looped, then_close,
}
use kavak.Parser.Atoms.{Run, with_op, token_span}
use kavak.Parser.Pratt.Kept.{At, At-lower, At-trans, step_on-At, step-At, diag-At, Parsed}
use kavak.Parser.Pratt.Runs.{Returns}

-- A turn from the parser `q`; one that goes on has moved.
abbrev pub Turned : Parser → Turn → Type 0
Turned q (done n s) = At q.tokens q.expr_depth q.pos s.parser
Turned q (again n s) = At q.tokens q.expr_depth (suc q.pos) s.parser

abbrev pub Turns : Parser → Looped → Type 0
Turns q none = ⊥
Turns q (some t) = Turned q t

made-Turned :
    (q : Parser) (o : Option Node) (f : Node → Node) (s : Parsing)
    → At q.tokens q.expr_depth (suc q.pos) s.parser
    → Turned q (elim o [ none ↦ done none s | some n ↦ again (f n) s ])
made-Turned q none f s a = At-lower q.pos s.parser (omega arith) a
made-Turned q (some n) f s a = a

if-Turned :
    (q : Parser) (b : Bool) (t u : Turn) → Turned q t → Turned q u → Turned q (if b then t else u)
if-Turned q true t u ht hu = ht
if-Turned q false t u ht hu = hu

pub if-Turns :
    (q : Parser) (b : Bool) (t u : Looped) → Turns q t → Turns q u → Turns q (if b then t else u)
if-Turns q true t u ht hu = ht
if-Turns q false t u ht hu = hu

module _ (env : Env) where
  pub postfix_turn-Turned :
      (postfix : Operator) (s : Parsing) (lhs : Node)
      → IsParser s.parser
      → at_end s.parser ≡ false
      → Turned s.parser (postfix_turn env postfix s lhs)
  unfolding postfix_turn make_node_at alloc_node
  postfix_turn-Turned postfix s lhs v on =
      let r = make_node env (advanced s) ast_unary in
      made-Turned s.parser r.0
        (λ n.
          with_op n s.parser.pos postfix.id (some lhs)
            (span_union (head_of lhs).span (token_span s s.parser.pos)))
        r.1 (step_on-At s.parser v on)

  select_name-Turned :
      (q : Parser) (s : Parsing) (lhs : Node)
      → At q.tokens q.expr_depth (suc q.pos) s.parser
      → Turned q (select_name env s lhs)
  unfolding select_name make_node_at alloc_node
  select_name-Turned q s lhs a =
      let r = make_node env (advanced s) ast_selector in
      made-Turned q r.0
        (λ n.
          with_user n s.parser.pos lhs (span_union (head_of lhs).span (token_span s s.parser.pos)))
        r.1 (At-trans s.parser (step s.parser) a (step-At s.parser a.valid))

  select_error-Turned :
      (q : Parser) (s : Parsing) (lhs : Node) (next : Option Token)
      → At q.tokens q.expr_depth (suc q.pos) s.parser
      → Turned q (select_error env s lhs next)
  unfolding select_error make_node_at alloc_node
  select_error-Turned q s lhs next a =
      let told = diag env s (span_of next) "expected identifier after selector" in
      let r = make_node env told ast_error in
      let b =
        At-trans s.parser told.parser a
          (diag-At env s (span_of next) "expected identifier after selector" a.valid) in
      let c =
        At-lower q.pos (step told.parser) (omega arith)
          (At-trans told.parser (step told.parser) b (step-At told.parser b.valid)) in
      elim (r.0)
        as (λ o. Turned q (elim o [
          | none ↦ done none (advanced r.1)
          | some n ↦
              done (some (with_error n (span_union (head_of lhs).span (span_of next))))
                (advanced r.1)
        ])) [ none ↦ c | some n ↦ c ]

  pub selector_turn-Turned :
      (q : Parser) (s : Parsing) (lhs : Node)
      → At q.tokens q.expr_depth (suc q.pos) s.parser
      → Turned q (selector_turn env s lhs)
  unfolding selector_turn
  selector_turn-Turned q s lhs a =
      if-Turned q (is_ident (peek s.parser)) _ _ (select_name-Turned q s lhs a)
        (select_error-Turned q s lhs (peek s.parser) a)

  close_binary-Turned :
      (q : Parser) (infix_ : Operator) (op_token : ℕ) (lhs : Node) (rhs : Option Node) (s : Parsing)
      → At q.tokens q.expr_depth (suc q.pos) s.parser
      → Turned q (close_binary env infix_ op_token lhs rhs s)
  unfolding close_binary make_node_at alloc_node
  close_binary-Turned q infix_ op_token lhs rhs s a =
      let r = make_node env s ast_binary in
      let ended = At-lower q.pos s.parser (omega arith) a in
      let next = span_of (peek r.1.parser) in
      let told = diag env r.1 next "non-associative operator cannot be chained" in
      elim (r.0)
        as (λ o. Turned q (elim o [
          | none ↦ done none r.1
          | some n ↦
              let whole = joined n op_token infix_.id lhs rhs in
              if is_non infix_.assoc && same_precedence_infix_ahead env.operators r.1.parser infix_
              then done (some whole) told
              else again whole r.1
        ])) [
          | none ↦ ended
          | some n ↦
              if-Turned q
                (is_non infix_.assoc && same_precedence_infix_ahead env.operators r.1.parser infix_)
                _ _
                (At-trans s.parser told.parser ended
                  (diag-At env r.1 next "non-associative operator cannot be chained" a.valid))
                a
        ]

  pub then_close-Turns :
      (q : Parser) (infix_ : Operator) (op_token : ℕ) (lhs : Node) (s : Parsing) (r : Run)
      → At q.tokens q.expr_depth (suc q.pos) s.parser
      → Returns r (Parsed s.parser)
      → Turns q (then_close env infix_ op_token lhs r)
  unfolding then_close
  then_close-Turns q infix_ op_token lhs s none a h = h
  then_close-Turns q infix_ op_token lhs s (some (rhs, t)) a h =
      close_binary-Turned q infix_ op_token lhs rhs t (At-trans s.parser t.parser a h.kept)
