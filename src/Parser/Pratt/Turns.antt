-- ===== src/Parser/Pratt/Turns.antt =====
-- The turns of the loop of `kavak_parse_expression` of src/parser.c: one that goes on has taken a token.
use kavak.Base.{
  ℕ, ◌<◌, ◌≡◌, ap, ◌∙◌, inl, inr, false, not, ◌&&◌, ltb, leb, Option, none, some, arith, Bool-cases,
  Option-cases, List, length, has_bit,
}
use kavak.Token.{Token}
use kavak.Parser.{Parser, token_count, peek, at_end, progressed}
use kavak.Parser.Cursor.{IsParser}
use kavak.Parser.Operators.{Operator, operator_for_token, infix_bit, postfix_bit, next_min_prec}
use kavak.Parser.Nodes.{Node, Parsing, Env, advanced}
use kavak.Parser.Rewind.{rewind}
use kavak.Parser.Pratt.{
  done, again, Looped, infix_turn, try_infix, operator_turn, rewound, after_hook, turn,
}
use kavak.Parser.Atoms.{Run, selector_bit}
use kavak.Parser.Pratt.Kept.{At, At-self, At-same, step_on-At}
use kavak.Parser.Pratt.Prefix.{operator_on}
use kavak.Parser.Pratt.Turned.{
  Turns, if-Turns, postfix_turn-Turned, selector_turn-Turned, then_close-Turns,
}
use kavak.Parser.Pratt.Runs.{Parses}

-- A hook for trailing forms that keeps the tokens and the depth and does not go back.
abbrev pub Postfix : Option (Parsing → Node → Option Node × Parsing) → Type 0
Postfix none = Unit
Postfix (some hook) =
    (s : Parsing) (lhs : Node)
    → IsParser s.parser
    → At s.parser.tokens s.parser.expr_depth s.parser.pos (hook s lhs).1.parser

-- from a parser at the same place
Turns-at :
    (q r : Parser) (l : Looped)
    → r.tokens ≡ q.tokens
    → r.expr_depth ≡ q.expr_depth
    → r.pos ≡ q.pos
    → Turns r l
    → Turns q l
Turns-at q r none tokens depths pos h = h
Turns-at q r (some (done n s)) tokens depths pos h = record {
  valid = h.valid;
  same_tokens = h.same_tokens ∙ tokens;
  same_depth = h.same_depth ∙ depths;
  low_le = omega (arith, h.low_le, pos);
}
Turns-at q r (some (again n s)) tokens depths pos h = record {
  valid = h.valid;
  same_tokens = h.same_tokens ∙ tokens;
  same_depth = h.same_depth ∙ depths;
  low_le = omega (arith, h.low_le, pos);
}

-- what a hook consumed before it declined is given back
rewound_tokens : (s after : Parsing) → (rewound s after).parser.tokens ≡ after.parser.tokens
unfolding rewind
rewound_tokens s after = ground arith

rewound_depth : (s after : Parsing) → (rewound s after).parser.expr_depth ≡ after.parser.expr_depth
unfolding rewind
rewound_depth s after = ground arith

pub rewound_pos :
    (s after : Parsing)
    → s.parser.pos < token_count after.parser
    → (rewound s after).parser.pos ≡ s.parser.pos
unfolding rewind
rewound_pos s after inside = ground (arith, inside)

module _ (env : Env) (depth : ℕ) (parse : Parsing → ℕ → Run) (parses : Parses depth parse) where
  infix_turn-Turns :
      (infix_ : Operator) (s : Parsing) (lhs : Node)
      → IsParser s.parser
      → at_end s.parser ≡ false
      → s.parser.expr_depth ≡ depth
      → Turns s.parser (infix_turn env parse infix_ s lhs)
  unfolding infix_turn
  infix_turn-Turns infix_ s lhs v on same =
      let a = step_on-At s.parser v on in
      if-Turns s.parser (has_bit infix_.flags selector_bit) _ _
        (selector_turn-Turned env s.parser (advanced s) lhs a)
        (then_close-Turns env s.parser infix_ s.parser.pos lhs (advanced s)
          (parse (advanced s) (next_min_prec infix_)) a
          (parses (advanced s) (next_min_prec infix_) a.valid (a.same_depth ∙ same)))

  try_infix-Turns :
      (min_prec : ℕ) (s : Parsing) (lhs : Node)
      → IsParser s.parser
      → s.parser.expr_depth ≡ depth
      → Turns s.parser (try_infix env parse min_prec s lhs)
  unfolding try_infix
  try_infix-Turns min_prec s lhs v same =
      elim (Option-cases (operator_for_token env.operators (peek s.parser) infix_bit)) [
        | inl nothing ↦ rw (nothing, try_infix) (At-self s.parser v)
        | inr (op, found) ↦
            rw (found, try_infix)
              (if-Turns s.parser (ltb op.prec min_prec) _ _ (At-self s.parser v) (
                infix_turn-Turns op s lhs v (operator_on s.parser env.operators infix_bit op found)
                  same))
      ]

  operator_turn-Turns :
      (min_prec : ℕ) (s : Parsing) (lhs : Node)
      → IsParser s.parser
      → s.parser.expr_depth ≡ depth
      → Turns s.parser (operator_turn env parse min_prec s lhs)
  unfolding operator_turn
  operator_turn-Turns min_prec s lhs v same =
      elim (Option-cases (operator_for_token env.operators (peek s.parser) postfix_bit)) [
        | inl nothing ↦ rw (nothing, operator_turn) (try_infix-Turns min_prec s lhs v same)
        | inr (op, found) ↦
            rw (found, operator_turn)
              (if-Turns s.parser (leb min_prec op.prec && not (has_bit op.flags infix_bit)) _ _
                (postfix_turn-Turned env op s lhs v
                  (operator_on s.parser env.operators postfix_bit op found))
                (try_infix-Turns min_prec s lhs v same))
      ]

  after_hook-Turns :
      (min_prec : ℕ) (s : Parsing) (lhs : Node) (r : Option Node × Parsing)
      → IsParser s.parser
      → s.parser.expr_depth ≡ depth
      → At s.parser.tokens s.parser.expr_depth s.parser.pos r.1.parser
      → Turns s.parser (after_hook env parse min_prec s lhs r)
  unfolding after_hook
  after_hook-Turns min_prec s lhs (some ext, after) v same a =
      elim (Bool-cases (progressed after.parser s.parser.pos)) [
        | inl moved ↦
            rw (moved, after_hook)
              (record {
                valid = a.valid;
                same_tokens = a.same_tokens;
                same_depth = a.same_depth;
                low_le = ground (arith, moved);
              })
        | inr stuck ↦ rw (stuck, after_hook) a
      ]
  after_hook-Turns min_prec s lhs (none, after) v same a =
      let back = rewound s after in
      let inside : s.parser.pos < token_count after.parser =
        omega (arith, v.pos_lt, ap (λ (ts : List Token). length ts) a.same_tokens) in
      let tokens = rewound_tokens s after ∙ a.same_tokens in
      let depths = rewound_depth s after ∙ a.same_depth in
      let pos = rewound_pos s after inside in
      Turns-at s.parser back.parser (operator_turn env parse min_prec back lhs) tokens depths pos (
        operator_turn-Turns min_prec back lhs
          (At-same s.parser back.parser tokens pos depths v).valid (depths ∙ same))

  pub turn-Turns :
      (min_prec : ℕ) (s : Parsing) (lhs : Node)
      → Postfix env.parse_postfix
      → IsParser s.parser
      → s.parser.expr_depth ≡ depth
      → Turns s.parser (turn env parse min_prec s lhs)
  unfolding turn
  turn-Turns min_prec s lhs postfix v same =
      elim (env.parse_postfix)
          as (λ h.
            Postfix h
            → Turns s.parser (elim h [
              | none ↦ operator_turn env parse min_prec s lhs
              | some hook ↦ after_hook env parse min_prec s lhs (hook s lhs)
            ])) [
              | none ↦ λ _. operator_turn-Turns min_prec s lhs v same
              | some hook ↦
                  λ keeps. after_hook-Turns min_prec s lhs (hook s lhs) v same (keeps s lhs v)
            ]
        postfix
