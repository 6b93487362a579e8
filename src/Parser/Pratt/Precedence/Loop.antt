-- ===== src/Parser/Pratt/Precedence/Loop.antt =====
-- The loop of `kavak_parse_expression` of src/parser.c builds trees whose operators bind by precedence
-- and associativity.
use mathlib.Core.Path.{subst}
use kavak.Base.{
  ℕ, ◌≤◌, ◌≡◌, refl, ap, ◌⊎◌, inl, inr, Bool, true, false, not, ◌&&◌, ltb, leb, List, Option, none,
  some, if◌then◌else◌, arith, has_bit, Option-cases, get_elem?,
}
use kavak.Span.{Span}
use kavak.Token.{Token}
use kavak.Parser.{peek, span_of}
use kavak.Parser.Operators.{
  Operator, operator_for_token, infix_bit, postfix_bit, same_precedence_infix_ahead, next_min_prec,
}
use kavak.Parser.Nodes.{
  ast_binary, ast_error, range, Head, Node, node, nil, cons, Parsing, Env, advanced, diag,
  place_node, make_node_at, make_node, alloc_node,
}
use kavak.Parser.Pratt.{
  Turn, done, again, postfix_turn, select_name, select_error, selector_turn, with_error, is_ident,
  joined, close_binary, Looped, then_close, infix_turn, try_infix, operator_turn,
}
use kavak.Parser.Atoms.{Run, selector_bit}
use kavak.Parser.Pratt.Precedence.{
  associative, is_binary, is_error, erroneous, Bounded, Nested, nil_nested, cons_nested, Binds,
  Ensures,
}
use kavak.Parser.Pratt.Precedence.Join.{Left, Plain-Left, found_by_id, found_not_non, joined-Left}
use kavak.Parser.Pratt.Precedence.Prefix.{AllBind, Plain, Plain-node}

abbrev pub TurnBinds : List Operator → ℕ → Turn → Type 0
TurnBinds ops min_prec (done n s) = Binds ops min_prec n s
TurnBinds ops min_prec (again n s) = Left ops min_prec n s

abbrev pub LoopedBinds : List Operator → ℕ → Looped → Type 0
LoopedBinds ops min_prec none = Unit
LoopedBinds ops min_prec (some t) = TurnBinds ops min_prec t

if-LoopedBinds :
    (ops : List Operator) (min_prec : ℕ) (b : Bool) (x y : Looped)
    → (b ≡ true → LoopedBinds ops min_prec x)
    → (b ≡ false → LoopedBinds ops min_prec y)
    → LoopedBinds ops min_prec (if b then x else y)
if-LoopedBinds ops min_prec true x y hx hy = hx refl
if-LoopedBinds ops min_prec false x y hx hy = hy refl

-- the state matters by its parser only
binds_along :
    (ops : List Operator) (min_prec : ℕ) (n : Option Node) (s t : Parsing)
    → s.parser ≡ t.parser
    → Binds ops min_prec n s
    → Binds ops min_prec n t
binds_along ops min_prec none s t same h = tt
binds_along ops min_prec (some n) s t same h =
    (h.0, h.1, subst (λ p. (erroneous n ≡ true) ⊎ Bounded ops p min_prec) same h.2)

module _ (env : Env) (parse : Parsing → ℕ → Run) (bind : AllBind env.operators parse)
    (all : associative env.operators ≡ true) where
  made_TurnBinds :
      (min_prec : ℕ) (head : Head) (o : Option ℕ) (f : Node → Node) (s : Parsing)
      → Plain env.operators (some (f (node head nil)))
      → TurnBinds env.operators min_prec
          (elim (place_node head o) [ none ↦ done none s | some n ↦ again (f n) s ])
  made_TurnBinds min_prec head none f s plain = tt
  made_TurnBinds min_prec head (some a) f s plain =
      Plain-Left env.operators min_prec (f (node head nil)) s plain

  postfix_turn-TurnBinds :
      (min_prec : ℕ) (postfix : Operator) (s : Parsing) (lhs : Node)
      → Nested env.operators lhs
      → TurnBinds env.operators min_prec (postfix_turn env postfix s lhs)
  unfolding postfix_turn make_node_at alloc_node
  postfix_turn-TurnBinds min_prec postfix s lhs tree =
      made_TurnBinds min_prec _ _ _ _
        (Plain-node env.operators _ (cons lhs nil) refl (cons_nested lhs nil tree nil_nested))

  select_name-TurnBinds :
      (min_prec : ℕ) (s : Parsing) (lhs : Node)
      → Nested env.operators lhs
      → TurnBinds env.operators min_prec (select_name env s lhs)
  unfolding select_name make_node_at alloc_node
  select_name-TurnBinds min_prec s lhs tree =
      made_TurnBinds min_prec _ _ _ _
        (Plain-node env.operators _ (cons lhs nil) refl (cons_nested lhs nil tree nil_nested))

  error_binds :
      (min_prec : ℕ) (head : Head) (o : Option ℕ) (span : Span) (s : Parsing)
      → head.kind ≡ ast_error
      → TurnBinds env.operators min_prec (elim (place_node head o) [
        | none ↦ done none s
        | some n ↦ done (some (with_error n span)) s
      ])
  error_binds min_prec head none span s kind = tt
  error_binds min_prec head (some a) span s kind =
      let plain =
        Plain-node env.operators (record head { flagged = true; span = span }) nil
          (ap is_binary kind) nil_nested in
      (plain.0, (λ op found. absurd (ground (arith, plain.1, found))), inl (ap is_error kind))

  select_error-TurnBinds :
      (min_prec : ℕ) (s : Parsing) (lhs : Node) (next : Option Token)
      → TurnBinds env.operators min_prec (select_error env s lhs next)
  unfolding select_error make_node_at alloc_node
  select_error-TurnBinds min_prec s lhs next = error_binds min_prec _ _ _ _ refl

  close_lem :
      (min_prec : ℕ) (op : Operator) (i : ℕ) (head : Head) (o : Option ℕ) (lhs : Node)
      (rhs : Option Node)
      → (chained : Bool) (s told : Parsing) → chained ≡ false
      → Left env.operators min_prec (joined (node head nil) i op.id lhs rhs) s
      → TurnBinds env.operators min_prec (elim (place_node head o) [
        | none ↦ done none s
        | some n ↦
            let whole = joined n i op.id lhs rhs in
            if chained then done (some whole) told else again whole s
      ])
  close_lem min_prec op i head none lhs rhs chained s told free l = tt
  close_lem min_prec op i head (some a) lhs rhs true s told free l = absurd (ground (arith, free))
  close_lem min_prec op i head (some a) lhs rhs false s told free l = l

  close_binary-TurnBinds :
      (min_prec : ℕ) (op : Operator) (i : ℕ) (lhs : Node) (rhs : Option Node) (before s : Parsing)
      → operator_for_token env.operators (peek before.parser) infix_bit ≡ some op
      → min_prec ≤ op.prec
      → Left env.operators min_prec lhs before
      → Binds env.operators (next_min_prec op) rhs s
      → TurnBinds env.operators min_prec (close_binary env op i lhs rhs s)
  unfolding close_binary make_node_at alloc_node
  close_binary-TurnBinds min_prec op i lhs rhs before s found le l h =
      let free =
        found_not_non env.operators op.id op all
          (found_by_id env.operators (peek before.parser) op found) in
      let r = make_node env s ast_binary in
      let head : Head = record {
        kind = ast_binary;
        flagged = false;
        span = span_of (get_elem? s.parser.tokens s.parser.pos);
        payload = range s.parser.pos s.parser.pos;
      } in
      close_lem min_prec op i _ _ lhs rhs _ r.1
        (diag env r.1 (span_of (peek r.1.parser)) "non-associative operator cannot be chained")
        (ap (λ b. b && same_precedence_infix_ahead env.operators s.parser op) free)
        (joined-Left env.operators min_prec op i head lhs rhs before r.1 refl found le l
          (binds_along env.operators (next_min_prec op) rhs s r.1 refl h))

  then_close-LoopedBinds :
      (min_prec : ℕ) (op : Operator) (i : ℕ) (lhs : Node) (r : Run) (before : Parsing)
      → operator_for_token env.operators (peek before.parser) infix_bit ≡ some op
      → min_prec ≤ op.prec
      → Left env.operators min_prec lhs before
      → Ensures r (Binds env.operators (next_min_prec op))
      → LoopedBinds env.operators min_prec (then_close env op i lhs r)
  unfolding then_close
  then_close-LoopedBinds min_prec op i lhs none before found le l h = tt
  then_close-LoopedBinds min_prec op i lhs (some (rhs, s)) before found le l h =
      close_binary-TurnBinds min_prec op i lhs rhs before s found le l h

  selector_turn-LoopedBinds :
      (min_prec : ℕ) (s : Parsing) (lhs : Node)
      → Nested env.operators lhs
      → TurnBinds env.operators min_prec (selector_turn env s lhs)
  unfolding selector_turn
  selector_turn-LoopedBinds min_prec s lhs tree =
      elim (is_ident (peek s.parser))
        as (λ b.
          TurnBinds env.operators min_prec
            (if b then select_name env s lhs else select_error env s lhs (peek s.parser))) [
              | true ↦ select_name-TurnBinds min_prec s lhs tree
              | false ↦ select_error-TurnBinds min_prec s lhs (peek s.parser)
            ]

  infix_turn-LoopedBinds :
      (min_prec : ℕ) (op : Operator) (s : Parsing) (lhs : Node)
      → operator_for_token env.operators (peek s.parser) infix_bit ≡ some op
      → min_prec ≤ op.prec
      → Left env.operators min_prec lhs s
      → LoopedBinds env.operators min_prec (infix_turn env parse op s lhs)
  unfolding infix_turn
  infix_turn-LoopedBinds min_prec op s lhs found le l =
      if-LoopedBinds env.operators min_prec (has_bit op.flags selector_bit) _ _
        (λ _. selector_turn-LoopedBinds min_prec (advanced s) lhs l.tree)
        (λ _.
          then_close-LoopedBinds min_prec op s.parser.pos lhs
            (parse (advanced s) (next_min_prec op)) s found le l
            (bind (advanced s) (next_min_prec op)))

  -- a left side that no operator follows
  ended :
      (min_prec : ℕ) (s : Parsing) (lhs : Node)
      → Left env.operators min_prec lhs s
      → Bounded env.operators s.parser min_prec
      → LoopedBinds env.operators min_prec (some (done (some lhs) s))
  ended min_prec s lhs l bounded = (l.tree, l.at_least, inr bounded)

  try_infix-LoopedBinds :
      (min_prec : ℕ) (s : Parsing) (lhs : Node)
      → Left env.operators min_prec lhs s
      → LoopedBinds env.operators min_prec (try_infix env parse min_prec s lhs)
  unfolding try_infix
  try_infix-LoopedBinds min_prec s lhs l =
      elim (Option-cases (operator_for_token env.operators (peek s.parser) infix_bit)) [
        | inl nothing ↦
            rw (nothing, try_infix)
              (ended min_prec s lhs l (λ op found. absurd (ground (arith, nothing, found))))
        | inr (op, found) ↦
            rw (found, try_infix)
              (if-LoopedBinds env.operators min_prec (ltb op.prec min_prec) _ _
                (λ low. ended min_prec s lhs l (λ o also. ground (arith, low, found, also)))
                (λ high. infix_turn-LoopedBinds min_prec op s lhs found (ground (arith, high)) l))
      ]

  pub operator_turn-LoopedBinds :
      (min_prec : ℕ) (s : Parsing) (lhs : Node)
      → Left env.operators min_prec lhs s
      → LoopedBinds env.operators min_prec (operator_turn env parse min_prec s lhs)
  unfolding operator_turn
  operator_turn-LoopedBinds min_prec s lhs l =
      elim (operator_for_token env.operators (peek s.parser) postfix_bit)
        as (λ o. LoopedBinds env.operators min_prec (elim o [
          | none ↦ try_infix env parse min_prec s lhs
          | some postfix ↦
              if leb min_prec postfix.prec && not (has_bit postfix.flags infix_bit)
              then some (postfix_turn env postfix s lhs)
              else try_infix env parse min_prec s lhs
        ])) [
          | none ↦ try_infix-LoopedBinds min_prec s lhs l
          | some postfix ↦
              if-LoopedBinds env.operators min_prec
                (leb min_prec postfix.prec && not (has_bit postfix.flags infix_bit)) _ _
                (λ _. postfix_turn-TurnBinds min_prec postfix s lhs l.tree)
                (λ _. try_infix-LoopedBinds min_prec s lhs l)
        ]
