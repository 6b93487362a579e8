-- ===== src/Parser/Pratt/Precedence/Prefix.antt =====
-- The trees that `parse_prefix_expr` of src/parser.c makes are no binary operations.
use Prim.Native.String.{String}
use kavak.Base.{
  ℕ, ◌-◌, ◌≡◌, refl, Bool, true, false, not, ◌==◌, List, [], ◌∷◌, Option, none, some, if◌then◌else◌,
  arith, leb, get_elem?,
}
use kavak.Span.{Span}
use kavak.Token.{Token}
use kavak.Token.Kind
use kavak.Parser.{Parser, token_count, peek, eat_text, span_of}
use kavak.Parser.Operators.{Operator, operator_for_token, prefix_bit}
use kavak.Parser.Nodes.{
  AstKind, ast_group, ast_unary, ast_ident, ast_literal, Payload, ident, literal, Head, Node,
  Children, node, nil, append, Parsing, Env, advanced, place_node, make_node_at, make_node,
  make_token_node, alloc_node, finish_node, error_at, make_error_node,
}
use kavak.Parser.Atoms.{
  Run, and_then, literal_kind, token_span, close_group, parse_group, close_unary, parse_unary,
  or_error, parse_atom, parse_operator, group_or_operator, parse_token, parse_prefix_expr,
}
use kavak.Parser.Pratt.Precedence.{
  is_binary, infix_of, Nested, nested, AllNested, nil_nested, cons_nested, Binds, Ensures,
}

pub and_then-Ensures :
    (P Q : Option Node → Parsing → Type 0) (f : Option Node → Parsing → Run) (r : Run)
    → Ensures r P
    → ((n : Option Node) (s : Parsing) → P n s → Ensures (f n s) Q)
    → Ensures (and_then r f) Q
unfolding and_then
and_then-Ensures P Q f none h rest = tt
and_then-Ensures P Q f (some (n, s)) h rest = rest n s h

pub if-Ensures :
    (P : Option Node → Parsing → Type 0) (b : Bool) (x y : Run)
    → Ensures x P
    → Ensures y P
    → Ensures (if b then x else y) P
if-Ensures P true x y hx hy = hx
if-Ensures P false x y hx hy = hy

-- A parser of expressions that binds so at every precedence.
abbrev pub AllBind : List Operator → (Parsing → ℕ → Run) → Type 0
AllBind ops parse = (s : Parsing) (min_prec : ℕ) → Ensures (parse s min_prec) (Binds ops min_prec)

-- A hook that the language does not have.
abbrev pub Absent : {A : Type 0} → Option A → Type 0
Absent none = Unit
Absent (some a) = ⊥

-- no binary operation, or NULL
abbrev pub Plain : List Operator → Option Node → Type 0
Plain ops none = Unit
Plain ops (some n) = Nested ops n × (infix_of ops n ≡ none)

pub Plain-node :
    (ops : List Operator) (head : Head) (children : Children)
    → is_binary head.kind ≡ false
    → AllNested ops children
    → Plain ops (some (node head children))
Plain-node ops head children other all =
    let nothing : infix_of ops (node head children) ≡ none = ground (arith, other) in
    (nested head children all (λ op found. absurd (ground (arith, nothing, found))), nothing)

placed_Plain :
    (ops : List Operator) (head : Head) (o : Option ℕ)
    → is_binary head.kind ≡ false
    → Plain ops (place_node head o)
placed_Plain ops head none other = tt
placed_Plain ops head (some address) other = Plain-node ops head nil other nil_nested

error_Plain :
    (ops : List Operator) (env : Env) (message : String) (head : Head) (o : Option ℕ) (s : Parsing)
    → is_binary head.kind ≡ false
    → Plain ops (error_at env message (place_node head o, s)).0
unfolding finish_node
error_Plain ops env message head none s other = tt
error_Plain ops env message head (some address) s other = Plain-node ops _ nil other nil_nested

pub make_error_node-Plain :
    (ops : List Operator) (env : Env) (s : Parsing) (message : String)
    → Plain ops (make_error_node env s message).0
unfolding make_error_node make_node_at alloc_node
make_error_node-Plain ops env s message = error_Plain ops env message _ _ _ refl

token_node-Plain :
    (ops : List Operator) (env : Env) (s : Parsing) (kind : AstKind) (i : ℕ) (payload : Payload)
    → is_binary kind ≡ false
    → Plain ops (make_token_node env s kind i payload).0
unfolding make_token_node alloc_node
token_node-Plain ops env s kind i payload other =
    elim (leb (token_count s.parser) i)
      as (λ b.
        Plain ops
          (if b
            then (none, s)
            else alloc_node env s (record {
              kind = kind;
              flagged = false;
              span = span_of (get_elem? s.parser.tokens i);
              payload = payload;
            })).0) [ true ↦ tt | false ↦ placed_Plain ops _ _ other ]

-- a child that may be NULL
abbrev OrNull : List Operator → Option Node → Type 0
OrNull ops none = Unit
OrNull ops (some n) = Nested ops n

binds_OrNull :
    (ops : List Operator) (min_prec : ℕ) (n : Option Node) (s : Parsing)
    → Binds ops min_prec n s
    → OrNull ops n
binds_OrNull ops min_prec none s h = tt
binds_OrNull ops min_prec (some n) s h = h.0

child_nested : (ops : List Operator) (n : Option Node) → OrNull ops n → AllNested ops (append nil n)
child_nested ops none h = nil_nested
child_nested ops (some n) h = cons_nested n nil h nil_nested

close_group-Plain :
    (ops : List Operator) (env : Env) (head : Head) (o : Option ℕ) (expr : Option Node)
    (s : Parsing)
    → is_binary head.kind ≡ false
    → OrNull ops expr
    → Ensures (close_group env (place_node head o) expr s) (λ n t. Plain ops n)
unfolding close_group finish_node
close_group-Plain ops env head none expr s other h = tt
close_group-Plain ops env head (some address) expr s other h =
    Plain-node ops _ (append nil expr) other (child_nested ops expr h)

close_unary-Plain :
    (ops : List Operator) (i id : ℕ) (span : Span) (head : Head) (o : Option ℕ) (rhs : Option Node)
    (s : Parsing)
    → is_binary head.kind ≡ false
    → OrNull ops rhs
    → Ensures (close_unary i id span (place_node head o) rhs s) (λ n t. Plain ops n)
unfolding close_unary
close_unary-Plain ops i id span head none rhs s other h = tt
close_unary-Plain ops i id span head (some address) rhs s other h =
    Plain-node ops _ (append nil rhs) other (child_nested ops rhs h)

or_error-Plain :
    (ops : List Operator) (env : Env) (s : Parsing)
    → Ensures (or_error env (none, s)) (λ n t. Plain ops n)
or_error-Plain ops env s = make_error_node-Plain ops env s "expected expression"

module _ (env : Env) (ops : List Operator) (parse : Parsing → ℕ → Run) (bind : AllBind ops parse)
    (absent : Absent env.parse_primary) where
  parse_group-Plain : (s : Parsing) → Ensures (parse_group env parse s) (λ n t. Plain ops n)
  unfolding parse_group make_node_at alloc_node
  parse_group-Plain s =
      let group = make_node_at env s ast_group (s.parser.pos - 1) in
      and_then-Ensures (Binds ops 0) (λ n t. Plain ops n) (close_group env group.0)
        (parse group.1 0) (bind group.1 0)
        (λ expr t h. close_group-Plain ops env _ _ expr t refl (binds_OrNull ops 0 expr t h))

  parse_unary-Plain :
      (prefix : Operator) (s : Parsing)
      → Ensures (parse_unary env parse prefix s) (λ n t. Plain ops n)
  unfolding parse_unary make_node_at alloc_node
  parse_unary-Plain prefix s =
      let n = make_node env (advanced s) ast_unary in
      let close = close_unary s.parser.pos prefix.id (token_span s s.parser.pos) n.0 in
      and_then-Ensures (Binds ops prefix.prec) (λ n t. Plain ops n) close (parse n.1 prefix.prec)
        (bind n.1 prefix.prec)
        (λ rhs t h.
          close_unary-Plain ops _ _ _ _ _ rhs t refl (binds_OrNull ops prefix.prec rhs t h))

  parse_atom-Plain : (s : Parsing) → Ensures (parse_atom env s) (λ n t. Plain ops n)
  unfolding parse_atom
  parse_atom-Plain s =
      elim (env.parse_primary)
          as (λ h.
            Absent h
            → Ensures (elim h [ none ↦ or_error env (none, s) | some hook ↦ or_error env (hook s) ])
                (λ n t. Plain ops n)) [
                  | none ↦ λ _. or_error-Plain ops env s
                  | some hook ↦ λ no_hook. absurd no_hook
                ]
        absent

  parse_operator-Plain :
      (token : Token) (s : Parsing)
      → Ensures (parse_operator env parse token s) (λ n t. Plain ops n)
  unfolding parse_operator
  parse_operator-Plain token s =
      elim (operator_for_token env.operators (some token) prefix_bit)
        as (λ o.
          Ensures
            (elim o [ some prefix ↦ parse_unary env parse prefix s | none ↦ parse_atom env s ])
            (λ n t. Plain ops n)) [
              | some prefix ↦ parse_unary-Plain prefix s
              | none ↦ parse_atom-Plain s
            ]

  group_or_operator-Plain :
      (token : Token) (s : Parsing) (r : Option Token × Parser)
      → Ensures (group_or_operator env parse token s r) (λ n t. Plain ops n)
  unfolding group_or_operator
  group_or_operator-Plain token s (some eaten, p) = parse_group-Plain (record s { parser = p })
  group_or_operator-Plain token s (none, p) = parse_operator-Plain token (record s { parser = p })

  parse_token-Plain :
      (token : Token) (s : Parsing) → Ensures (parse_token env parse s token) (λ n t. Plain ops n)
  unfolding parse_token
  parse_token-Plain token s =
      if-Ensures (λ n t. Plain ops n) (token.kind == Kind.ident) _ _
        (token_node-Plain ops env (advanced s) ast_ident s.parser.pos (ident s.parser.pos) refl)
        (if-Ensures (λ n t. Plain ops n) (not (literal_kind token == 0)) _ _
          (token_node-Plain ops env (advanced s) ast_literal s.parser.pos
            (literal s.parser.pos (literal_kind token)) refl)
          (group_or_operator-Plain token s (eat_text s.parser Kind.punct (b'(' ∷ []))))

  pub parse_prefix_expr-Plain :
      (s : Parsing) → Ensures (parse_prefix_expr env parse s) (λ n t. Plain ops n)
  unfolding parse_prefix_expr
  parse_prefix_expr-Plain s =
      elim (peek s.parser)
        as (λ o.
          Ensures (elim o [ none ↦ some (none, s) | some token ↦ parse_token env parse s token ])
            (λ n t. Plain ops n)) [ none ↦ tt | some token ↦ parse_token-Plain token s ]
