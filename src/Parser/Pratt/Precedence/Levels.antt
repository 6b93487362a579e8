-- ===== src/Parser/Pratt/Precedence/Levels.antt =====
-- The trees of `kavak_parse_expression` of src/parser.c, for a language without hooks.
use Prim.Native.String.{String}
use kavak.Base.{ℕ, zero, suc, ◌≡◌, refl, ap, inl, true, leb, List, Option, none, some, arith}
use kavak.Parser.{peek}
use kavak.Parser.Cursor.{IsParser}
use kavak.Parser.Operators.{Operator}
use kavak.Parser.Nodes.{
  ast_error, Head, Node, nil, Parsing, Env, make_error_node, error_at, finish_node, place_node,
  make_node_at, alloc_node,
}
use kavak.Parser.Pratt.{
  Looped, done, again, turn, operator_turn, after_hook, go_on, loop, deeper, leave, tokens_left,
  loop_or_null, parse_levels, parse_expression,
}
use kavak.Parser.Atoms.{Run, parse_prefix_expr, max_expr_depth}
use kavak.Parser.Pratt.Kept.{Parsed}
use kavak.Parser.Pratt.Runs.{Returns, Primary}
use kavak.Parser.Pratt.Turns.{Postfix}
use kavak.Parser.Pratt.Total.{parse_expression-Parsed}
use kavak.Parser.Pratt.Precedence.{associative, is_binary, is_error, nil_nested, Binds, Ensures}
use kavak.Parser.Pratt.Precedence.Join.{Left, Plain-Left}
use kavak.Parser.Pratt.Precedence.Loop.{LoopedBinds, operator_turn-LoopedBinds}
use kavak.Parser.Pratt.Precedence.Prefix.{
  AllBind, Absent, Plain, Plain-node, parse_prefix_expr-Plain, and_then-Ensures, if-Ensures,
}

error_binds :
    (ops : List Operator) (env : Env) (min_prec : ℕ) (message : String) (head : Head) (o : Option ℕ)
    (s : Parsing)
    → head.kind ≡ ast_error
    → Ensures (some (error_at env message (place_node head o, s))) (Binds ops min_prec)
unfolding finish_node
error_binds ops env min_prec message head none s kind = tt
error_binds ops env min_prec message head (some a) s kind =
    let plain = Plain-node ops _ nil (ap is_binary kind) nil_nested in
    (plain.0, (λ op found. absurd (ground (arith, plain.1, found))), inl (ap is_error kind))

too_deep :
    (ops : List Operator) (env : Env) (min_prec : ℕ) (s : Parsing) (message : String)
    → Ensures (some (make_error_node env s message)) (Binds ops min_prec)
unfolding make_error_node make_node_at alloc_node
too_deep ops env min_prec s message = error_binds ops env min_prec message _ _ _ refl

Absent-Primary : (h : Option (Parsing → Option Node × Parsing)) → Absent h → Primary h
Absent-Primary none no_hook = tt
Absent-Primary (some hook) no_hook = absurd no_hook

Absent-Postfix : (h : Option (Parsing → Node → Option Node × Parsing)) → Absent h → Postfix h
Absent-Postfix none no_hook = tt
Absent-Postfix (some hook) no_hook = absurd no_hook

both :
    (r : Run) (P Q : Option Node → Parsing → Type 0)
    → Returns r P
    → Ensures r Q
    → Returns r (λ n t. P n t × Q n t)
both none P Q h k = h
both (some (n, t)) P Q h k = (h, k)

module _ (env : Env) (all : associative env.operators ≡ true)
    (no_primary : Absent env.parse_primary) (no_postfix : Absent env.parse_postfix) where
  turn-LoopedBinds :
      (parse : Parsing → ℕ → Run)
      → AllBind env.operators parse
      → (min_prec : ℕ) (s : Parsing) (lhs : Node) → Left env.operators min_prec lhs s
      → LoopedBinds env.operators min_prec (turn env parse min_prec s lhs)
  unfolding turn
  turn-LoopedBinds parse bind min_prec s lhs l =
      elim (env.parse_postfix)
          as (λ h.
            Absent h
            → LoopedBinds env.operators min_prec (elim h [
              | none ↦ operator_turn env parse min_prec s lhs
              | some hook ↦ after_hook env parse min_prec s lhs (hook s lhs)
            ])) [
              | none ↦ λ _. operator_turn-LoopedBinds env parse bind all min_prec s lhs l
              | some hook ↦ λ no_hook. absurd no_hook
            ]
        no_postfix

  go_on-Ensures :
      (min_prec : ℕ) (next : Parsing → Node → Run) (l : Looped)
      → LoopedBinds env.operators min_prec l
      → ((s : Parsing) (n : Node)
          → Left env.operators min_prec n s
          → Ensures (next s n) (Binds env.operators min_prec))
      → Ensures (go_on next l) (Binds env.operators min_prec)
  unfolding go_on
  go_on-Ensures min_prec next none h rest = tt
  go_on-Ensures min_prec next (some (done n s)) h rest = h
  go_on-Ensures min_prec next (some (again n s)) h rest = rest s n h

  loop-Ensures :
      (parse : Parsing → ℕ → Run)
      → AllBind env.operators parse
      → (min_prec fuel : ℕ) (s : Parsing) (lhs : Node) → Left env.operators min_prec lhs s
      → Ensures (loop env parse min_prec fuel s lhs) (Binds env.operators min_prec)
  unfolding loop
  loop-Ensures parse bind min_prec zero s lhs l = tt
  loop-Ensures parse bind min_prec (suc fuel) s lhs l =
      go_on-Ensures min_prec (loop env parse min_prec fuel) (turn env parse min_prec s lhs)
        (turn-LoopedBinds parse bind min_prec s lhs l)
        (λ t n left. loop-Ensures parse bind min_prec fuel t n left)

  leave-Ensures :
      (min_prec : ℕ) (n : Option Node) (s : Parsing)
      → Binds env.operators min_prec n s
      → Ensures (leave n s) (Binds env.operators min_prec)
  unfolding peek
  leave-Ensures min_prec none s h = tt
  leave-Ensures min_prec (some n) s h = h

  loop_or_null-Ensures :
      (parse : Parsing → ℕ → Run)
      → AllBind env.operators parse
      → (min_prec : ℕ) (n : Option Node) (s : Parsing) → Plain env.operators n
      → Ensures (loop_or_null env parse min_prec n s) (Binds env.operators min_prec)
  loop_or_null-Ensures parse bind min_prec none s plain = tt
  loop_or_null-Ensures parse bind min_prec (some lhs) s plain =
      and_then-Ensures (Binds env.operators min_prec) (Binds env.operators min_prec) leave
        (loop env parse min_prec (tokens_left s) s lhs)
        (loop-Ensures parse bind min_prec (tokens_left s) s lhs
          (Plain-Left env.operators min_prec lhs s plain))
        (λ n t h. leave-Ensures min_prec n t h)

  parse_levels-Ensures :
      (levels : ℕ) (s : Parsing) (min_prec : ℕ)
      → Ensures (parse_levels env levels s min_prec) (Binds env.operators min_prec)
  unfolding parse_levels
  parse_levels-Ensures zero s min_prec =
      if-Ensures (Binds env.operators min_prec) (leb max_expr_depth s.parser.expr_depth) _ _
        (too_deep env.operators env min_prec s "expression nesting too deep") tt
  parse_levels-Ensures (suc levels) s min_prec =
      let parse = parse_levels env levels in
      let bind : AllBind env.operators parse = λ t m. parse_levels-Ensures levels t m in
      if-Ensures (Binds env.operators min_prec) (leb max_expr_depth s.parser.expr_depth) _ _
        (too_deep env.operators env min_prec s "expression nesting too deep")
        (and_then-Ensures (λ n t. Plain env.operators n) (Binds env.operators min_prec)
          (loop_or_null env parse min_prec) (parse_prefix_expr env parse (deeper s))
          (parse_prefix_expr-Plain env env.operators parse bind no_primary (deeper s))
          (λ n t plain. loop_or_null-Ensures parse bind min_prec n t plain))

  -- In a language without hooks and without non-associative infix operators, on every stream of tokens
  -- that ends in EOF, `kavak_parse_expression` ends, with what it keeps of the parser, and gives a tree
  -- or NULL. In the tree, an operation that is the right operand of a binary operation belongs there: it
  -- binds tighter, or as tightly where the operator groups to the right or the precedence is the
  -- largest. An operation that is the left operand, with a right operand of its own that is no error node,
  -- would not have taken the operator. The operator of the whole tree has at least `min_prec`, and
  -- unless the tree is an error node, no infix operator with at least `min_prec` is next.
  pub parse_expression-Binds :
      (s : Parsing) (min_prec : ℕ)
      → IsParser s.parser
      → Returns
          (parse_expression env s min_prec)
          (λ n t. Parsed s.parser n t × Binds env.operators min_prec n t)
  unfolding parse_expression
  parse_expression-Binds s min_prec v =
      both (parse_expression env s min_prec) (Parsed s.parser) (Binds env.operators min_prec)
        (parse_expression-Parsed env (Absent-Primary env.parse_primary no_primary)
          (Absent-Postfix env.parse_postfix no_postfix) s min_prec v)
        (parse_levels-Ensures max_expr_depth s min_prec)
