-- ===== src/Parser/Operators.antt =====
-- The operator table of the expression parser, and the span that a finished node gets, of src/parser.c.
use kavak.Base.{
  ℕ, zero, suc, ◌+◌, Bool, false, not, ◌&&◌, List, [], ◌∷◌, Option, none, some, ltb, leb, ◌==◌,
  if◌then◌else◌, get_elem?, has_bit,
}
use kavak.Span.{Span, span_union}
use kavak.Token.{Token}
use kavak.Token.Kind
use kavak.Parser.{Parser, token_count, peek, ends}

-- `KavakAssoc`
pub data Assoc : Type 0 where
  left right non : Assoc

-- `KavakOperator`, without its spelling
pub record Operator : Type 0 where
  pub prec : ℕ
  pub assoc : Assoc
  pub flags : ℕ
  pub id : ℕ

-- the bit numbers of `KAVAK_OP_FLAG_INFIX`, `_PREFIX` and `_POSTFIX`
abbrev pub infix_bit : ℕ
infix_bit = 0

abbrev pub prefix_bit : ℕ
prefix_bit = 1

abbrev pub postfix_bit : ℕ
postfix_bit = 2

-- the loop of `operator_for_token`, for the flag with the number `bit`
unfoldable pub operator_by_id : List Operator → ℕ → ℕ → Option Operator
operator_by_id [] id bit = none
operator_by_id (op ∷ ops) id bit =
    if op.id == id && has_bit op.flags bit then some op else operator_by_id ops id bit

-- `operator_for_token`; a NULL table is empty
unfoldable pub operator_for_token : List Operator → Option Token → ℕ → Option Operator
operator_for_token ops none bit = none
operator_for_token ops (some token) bit =
    if not (token.kind == Kind.op) then none else operator_by_id ops token.v bit

-- `UINT16_MAX`
abbrev pub uint16_max : ℕ
uint16_max = 65535

-- `next_min_prec`
abbrev pub above_prec : ℕ → ℕ
above_prec prec = if prec == uint16_max then uint16_max else prec + 1

unfoldable pub next_min_prec : Operator → ℕ
next_min_prec op = elim (op.assoc) [
  | right ↦ op.prec
  | left ↦ above_prec op.prec
  | non ↦ above_prec op.prec
]

-- `same_precedence_infix_ahead`
abbrev pub has_prec : Option Operator → ℕ → Bool
has_prec none prec = false
has_prec (some next) prec = next.prec == prec

unfoldable pub same_precedence_infix_ahead : List Operator → Parser → Operator → Bool
same_precedence_infix_ahead ops p op = has_prec (operator_for_token ops (peek p) infix_bit) op.prec

-- the loop of `kavak_parser_finish_node` over the EOF tokens before `end`
unfoldable pub last_end : List Token → ℕ → ℕ
last_end tokens zero = zero
last_end tokens (suc n) =
    let before = last_end tokens n in if ends (get_elem? tokens n) then before else suc n

-- the span up to the last token that was consumed
unfoldable pub with_last : Span → List Token → ℕ → Span
with_last span tokens zero = span
with_last span tokens (suc n) = elim (get_elem? tokens n) [
  | none ↦ span
  | some last ↦ if leb span.start last.span.start then span_union span last.span else span
]

-- the loop over the spans of the children
unfoldable pub with_children : Span → List Span → Span
with_children span [] = span
with_children span (child ∷ children) = with_children (span_union span child) children

-- `kavak_parser_finish_node`: the span of the node afterwards, from that of its first token and those
-- of its children
unfoldable pub finish_span : Parser → Span → List Span → Span
unfolding with_last with_children last_end
finish_span p span children =
    let end_ = if ltb (token_count p) p.pos then token_count p else p.pos in
    with_children (with_last span p.tokens (last_end p.tokens end_)) children
