-- ===== src/Parser/Pratt/Precedence/Join.antt =====
-- A binary operation of src/parser.c binds by precedence and associativity where its sides do.
use mathlib.Core.Path.{subst}
use kavak.Base.{
  ◌<◌, refl, leb, ltb, Bool, ◌||◌, ℕ, ◌≤◌, ◌≡◌, ap, ◌∙◌, inl, inr, true, false, ◌&&◌, ◌==◌, List,
  [], ◌∷◌, Option, none, some, if◌then◌else◌, arith, has_bit, Bool-cases,
}
use kavak.Token.{Token}
use kavak.Parser.{peek}
use kavak.Parser.Operators.{
  Operator, operator_by_id, operator_for_token, infix_bit, next_min_prec, above_prec, uint16_max,
  left, right, non,
}
use kavak.Parser.Nodes.{ast_binary, Head, Node, Children, node, nil, cons, append, head_of, Parsing}
use kavak.Parser.Pratt.{is_non, joined}
use kavak.Parser.Pratt.Precedence.{
  takes_right, associative, is_binary, infix_of, sound, Bounded, AtLeast, Sides, Nested, nested,
  AllNested, nil_nested, cons_nested, Binds,
}
use kavak.Parser.Pratt.Precedence.Prefix.{Plain}

-- A left side for the operators from `min_prec`: behind its right side there is none that this would
-- have taken.
pub record Left (ops : List Operator) (min_prec : ℕ) (n : Node) (s : Parsing) : Type 0 where
  pub tree : Nested ops n
  pub at_least : AtLeast ops min_prec n
  pub ready :
      (op : Operator)
      → infix_of ops n ≡ some op
      → sound n ≡ true
      → Bounded ops s.parser (next_min_prec op)

pub Plain-Left :
    (ops : List Operator) (min_prec : ℕ) (n : Node) (s : Parsing)
    → Plain ops (some n)
    → Left ops min_prec n s
Plain-Left ops min_prec n s h = record {
  tree = h.0;
  at_least = λ op found. absurd (ground (arith, h.1, found));
  ready = λ op found. absurd (ground (arith, h.1, found));
}

-- an operator of the table is found by its number
found_id :
    (ops : List Operator) (id bit : ℕ) (op : Operator)
    → operator_by_id ops id bit ≡ some op
    → op.id ≡ id
unfolding operator_by_id
found_id [] id bit op h = absurd (ground (arith, h))
found_id (o ∷ ops) id bit op h = elim (Bool-cases (o.id == id && has_bit o.flags bit)) [
  | inl here ↦ ground (arith, h, here)
  | inr later ↦ found_id ops id bit op (ground (arith, h, later))
]

pub found_by_id :
    (ops : List Operator) (token : Option Token) (op : Operator)
    → operator_for_token ops token infix_bit ≡ some op
    → operator_by_id ops op.id infix_bit ≡ some op
unfolding operator_for_token
found_by_id ops none op h = absurd (ground (arith, h))
found_by_id ops (some token) op h =
    let by_v : operator_by_id ops token.v infix_bit ≡ some op = ground (arith, h) in
    ap (λ id. operator_by_id ops id infix_bit) (found_id ops token.v infix_bit op by_v) ∙ by_v

pub found_not_non :
    (ops : List Operator) (id : ℕ) (op : Operator)
    → associative ops ≡ true
    → operator_by_id ops id infix_bit ≡ some op
    → is_non op.assoc ≡ false
unfolding operator_by_id
found_not_non [] id op all h = absurd (ground (arith, h))
found_not_non (o ∷ ops) id op all h = elim (Bool-cases (o.id == id && has_bit o.flags infix_bit)) [
  | inl here ↦ ground (arith, h, here, all)
  | inr later ↦ found_not_non ops id op (ground (arith, all)) (ground (arith, h, later))
]

one_value : (o : Option Operator) (a b : Operator) → o ≡ some a → o ≡ some b → a ≡ b
one_value none a b ha hb = absurd (ground (arith, ha))
one_value (some x) a b ha hb = ground (arith, ha, hb)

joined-Nested :
    (ops : List Operator) (op : Operator) (head : Head) (children : Children)
    → infix_of ops (node head children) ≡ some op
    → AllNested ops children
    → Sides ops op children
    → Nested ops (node head children)
joined-Nested ops op head children found all sides =
    nested head children all
      (λ o also. subst (λ x. Sides ops x children) (one_value _ op o found also) sides)

-- `next_min_prec` is the bound for what belongs to the right side
above_lem :
    (p prec : ℕ) → (ltb p prec || (p == uint16_max && prec == uint16_max)) ≡ leb (above_prec p) prec
above_lem p prec = ground arith

takes_right-next_min_prec :
    (op : Operator) (prec : ℕ) → takes_right op prec ≡ leb (next_min_prec op) prec
unfolding takes_right next_min_prec
takes_right-next_min_prec op prec =
    elim (op.assoc)
      as (λ a.
        (elim a as (λ _. Bool) [
          | right ↦ leb op.prec prec
          | left ↦ ltb op.prec prec || (op.prec == uint16_max && prec == uint16_max)
          | non ↦ ltb op.prec prec || (op.prec == uint16_max && prec == uint16_max)
        ])
        ≡ leb
            (elim a as (λ _. ℕ) [
              | right ↦ op.prec
              | left ↦ above_prec op.prec
              | non ↦ above_prec op.prec
            ])
            prec) [ right ↦ refl | left ↦ above_lem op.prec prec | non ↦ above_lem op.prec prec ]

not_taken : (op : Operator) (prec : ℕ) → prec < next_min_prec op → takes_right op prec ≡ false
not_taken op prec h = takes_right-next_min_prec op prec ∙ ground (arith, h)

taken : (op : Operator) (prec : ℕ) → next_min_prec op ≤ prec → takes_right op prec ≡ true
taken op prec h = takes_right-next_min_prec op prec ∙ ground (arith, h)

-- the sides, from what the left one and the right one promise
joined-Sides :
    (ops : List Operator) (min_prec : ℕ) (op : Operator) (lhs : Node) (rhs : Option Node)
    (before s : Parsing)
    → operator_for_token ops (peek before.parser) infix_bit ≡ some op
    → Left ops min_prec lhs before
    → Binds ops (next_min_prec op) rhs s
    → AllNested ops (append (append nil (some lhs)) rhs)
      × Sides ops op (append (append nil (some lhs)) rhs)
joined-Sides ops min_prec op lhs none before s found l h = (
  cons_nested lhs nil l.tree nil_nested,
  λ inner is_inner sound_. not_taken inner op.prec (l.ready inner is_inner sound_ op found),
)
joined-Sides ops min_prec op lhs (some rhs) before s found l h = (
  cons_nested lhs (cons rhs nil) l.tree (cons_nested rhs nil h.0 nil_nested),
  (
    (λ inner is_inner sound_. not_taken inner op.prec (l.ready inner is_inner sound_ op found)),
    (λ inner is_inner. taken op inner.prec (h.1 inner is_inner)),
  ),
)

-- behind the right side
joined_ready :
    (ops : List Operator) (op : Operator) (head : Head) (lhs : Node) (rhs : Option Node)
    (s : Parsing)
    → Binds ops (next_min_prec op) rhs s
    → sound (node head (append (append nil (some lhs)) rhs)) ≡ true
    → Bounded ops s.parser (next_min_prec op)
joined_ready ops op head lhs none s h whole = absurd (ground (arith, whole))
joined_ready ops op head lhs (some rhs) s h whole = elim (h.2) [
  | inl broken ↦ absurd (ground (arith, whole, broken))
  | inr bounded ↦ bounded
]

-- a new operation
pub joined-Left :
    (ops : List Operator) (min_prec : ℕ) (op : Operator) (i : ℕ) (head : Head) (lhs : Node)
    (rhs : Option Node) (before s : Parsing)
    → head.kind ≡ ast_binary
    → operator_for_token ops (peek before.parser) infix_bit ≡ some op
    → min_prec ≤ op.prec
    → Left ops min_prec lhs before
    → Binds ops (next_min_prec op) rhs s
    → Left ops min_prec (joined (node head nil) i op.id lhs rhs) s
joined-Left ops min_prec op i head lhs rhs before s kind found le l h =
    let whole = joined (node head nil) i op.id lhs rhs in
    let is_op : infix_of ops whole ≡ some op =
      ap (λ k. if is_binary k then operator_by_id ops op.id infix_bit else none) kind
      ∙ found_by_id ops (peek before.parser) op found in
    let sides = joined-Sides ops min_prec op lhs rhs before s found l h in
    record {
      tree = joined-Nested ops op (head_of whole) _ is_op sides.0 sides.1;
      at_least =
          λ o also. subst (λ (x : Operator). min_prec ≤ x.prec) (one_value _ op o is_op also) le;
      ready = λ o also good.
          subst (λ x. Bounded ops s.parser (next_min_prec x)) (one_value _ op o is_op also)
            (joined_ready ops op (head_of whole) lhs rhs s h good);
    }
