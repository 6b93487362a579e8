-- ===== src/Parser/Pratt/Precedence.antt =====
-- How the operators of a tree bind: what `kavak_parse_expression` of src/parser.c promises by its
-- argument `min_prec` and by `next_min_prec`.
pub mod Prefix
pub mod Join
pub mod Loop
pub mod Levels
use kavak.Base.{
  ℕ, ◌≤◌, ◌<◌, ◌≡◌, ◌⊎◌, Bool, true, false, not, ◌&&◌, ◌||◌, List, [], ◌∷◌, Option, none, some,
  if◌then◌else◌, has_bit, ltb, leb, ◌==◌, ◌||◌,
}
use kavak.Parser.{Parser, peek}
use kavak.Parser.Operators.{
  Operator, infix_bit, operator_by_id, operator_for_token, uint16_max, Assoc, left, right, non,
}
use kavak.Parser.Nodes.{
  AstKind, ast_binary, ast_error, Payload, Head, Node, Children, node, nil, cons, Parsing,
}
use kavak.Parser.Pratt.{is_non}
use kavak.Parser.Atoms.{Run}

-- No infix operator of the table is non-associative.
abbrev pub associative : List Operator → Bool
associative [] = true
associative (op ∷ ops) = not (has_bit op.flags infix_bit && is_non op.assoc) && associative ops

abbrev pub is_binary : AstKind → Bool
is_binary ast_binary = true
is_binary _ = false

abbrev pub is_error : AstKind → Bool
is_error ast_error = true
is_error _ = false

-- the operator of a binary operation
abbrev pub of_payload : List Operator → Payload → Option Operator
of_payload ops (Payload.op token id) = operator_by_id ops id infix_bit
of_payload ops _ = none

abbrev pub infix_of : List Operator → Node → Option Operator
infix_of ops (node head children) =
    if is_binary head.kind then of_payload ops head.payload else none

abbrev pub erroneous : Node → Bool
erroneous (node head children) = is_error head.kind

-- a right side that is there and no error
abbrev pub right_sound : Children → Bool
right_sound nil = false
right_sound (cons l nil) = false
right_sound (cons l (cons r nil)) = not (erroneous r)
right_sound (cons l (cons r (cons n ns))) = false

abbrev pub sound : Node → Bool
sound (node head children) = right_sound children

-- No infix operator of this precedence or a higher one is next.
abbrev pub Bounded : List Operator → Parser → ℕ → Type 0
Bounded ops p prec =
    (op : Operator) → operator_for_token ops (peek p) infix_bit ≡ some op → op.prec < prec

-- Whether an operator of precedence `prec` behind the right side of `op` belongs to that side: one that
-- binds tighter, or as tightly where `op` groups to the right. At the largest precedence every operator
-- groups to the right.
unfoldable pub takes_right : Operator → ℕ → Bool
takes_right op prec = elim (op.assoc) [
  | right ↦ leb op.prec prec
  | left ↦ ltb op.prec prec || (op.prec == uint16_max && prec == uint16_max)
  | non ↦ ltb op.prec prec || (op.prec == uint16_max && prec == uint16_max)
]

-- An operation to the left of `op`: its own right side, where that is sound, would not have taken `op`.
abbrev pub LeftOf : List Operator → Operator → Node → Type 0
LeftOf ops op l =
    (inner : Operator)
    → infix_of ops l ≡ some inner
    → sound l ≡ true
    → takes_right inner op.prec ≡ false

-- An operation to the right of `op`.
abbrev pub RightOf : List Operator → Operator → Node → Type 0
RightOf ops op r =
    (inner : Operator) → infix_of ops r ≡ some inner → takes_right op inner.prec ≡ true

abbrev pub Sides : List Operator → Operator → Children → Type 0
Sides ops op nil = Unit
Sides ops op (cons l nil) = LeftOf ops op l
Sides ops op (cons l (cons r nil)) = LeftOf ops op l × RightOf ops op r
Sides ops op (cons l (cons r (cons n ns))) = ⊥

-- A tree whose operator has at least this precedence.
abbrev pub AtLeast : List Operator → ℕ → Node → Type 0
AtLeast ops prec n = (op : Operator) → infix_of ops n ≡ some op → prec ≤ op.prec

-- A tree in which it is so for each binary operation.
mutual
  pub data Nested (ops : List Operator) : Node → Type 0 where
    nested :
        (head : Head) (children : Children)
        → AllNested ops children
        → ((op : Operator) → infix_of ops (node head children) ≡ some op → Sides ops op children)
        → Nested ops (node head children)

  pub data AllNested (ops : List Operator) : Children → Type 0 where
    nil_nested : AllNested ops nil
    cons_nested :
        (n : Node) (ns : Children) → Nested ops n → AllNested ops ns → AllNested ops (cons n ns)

-- What a parse at `min_prec` gives: such a tree, whose operator has at least that precedence, with no
-- such operator next unless the tree is an error node; or NULL.
abbrev pub Binds : List Operator → ℕ → Option Node → Parsing → Type 0
Binds ops min_prec none s = Unit
Binds ops min_prec (some n) s =
    Nested ops n × AtLeast ops min_prec n × ((erroneous n ≡ true) ⊎ Bounded ops s.parser min_prec)

-- A run that promises so if it ends.
abbrev pub Ensures : Run → (Option Node → Parsing → Type 0) → Type 0
Ensures none P = Unit
Ensures (some (n, s)) P = P n s
