-- ===== src/Parser.antt =====
-- The parser toolkit: include/kavak.h section 8 and src/parser.c. A token or position that the code
-- reads through a pointer is read from the list of tokens, whose length is `token_count`; a NULL
-- token is `none`. `mem n` says whether an allocation of `n` bytes succeeds.
pub mod Cursor
pub mod Recovery
pub mod Brackets
pub mod Operators
pub mod Rewind
pub mod Nodes
pub mod Atoms
pub mod Pratt
mod Tests
use Prim.Native.String.{String}
use kavak.Base.{
  bytes_eq, ℕ, zero, suc, ◌+◌, ◌-◌, Bool, true, false, not, ◌&&◌, ◌||◌, List, [], ◌∷◌, Option, none,
  some, ltb, leb, ◌==◌, if◌then◌else◌, length, get_elem?, take, drop, add32,
}
use kavak.Span.{Span, span_none}
use kavak.Token.{Token}
use kavak.Token.Kind
use kavak.Diag.{DiagVec, error, diag_vec_push_or_same}
use kavak.Source.{Source, len}

-- The part of `KavakParser` that the cursor reads and changes
pub record Parser : Type 0 where
  pub source : Option Source
  pub tokens : List Token
  pub pos : ℕ
  pub expr_depth : ℕ
  pub diags : Option DiagVec

-- the field `token_count`
abbrev pub token_count : Parser → ℕ
token_count p = length p.tokens

-- `parser_diag`
unfoldable pub parser_diag : (ℕ → Bool) → Parser → Span → Option String → Parser
parser_diag mem p span message = elim (p.diags) [
  | none ↦ p
  | some d ↦ record p {
    diags =
        some (
          diag_vec_push_or_same mem d
            (record { severity = error; message = message; span = span }));
  }
]

-- `token_text_eq`, for a text that is not NULL; `text` is its bytes before the terminator
unfoldable pub token_text_eq : Parser → Token → List ℕ → Bool
token_text_eq p token text = elim (p.source) [
  | none ↦ false
  | some source ↦
      if not (token.span.len == length text)
      then false
      else if ltb (len source) (token.span.start + length text)
      then false
      else bytes_eq (take (length text) (drop token.span.start source.bytes)) text
]

-- `kavak_parser_peek`
unfoldable pub peek : Parser → Option Token
peek p =
    if token_count p == 0
    then none
    else if leb (token_count p) p.pos
    then get_elem? p.tokens (token_count p - 1)
    else get_elem? p.tokens p.pos

-- `kavak_parser_peek_at`
unfoldable pub peek_at : Parser → ℕ → Option Token
peek_at p offset =
    if token_count p == 0
    then none
    else if leb (token_count p) p.pos
    then get_elem? p.tokens (token_count p - 1)
    else let index =
        if ltb offset (token_count p - p.pos) then p.pos + offset else token_count p - 1 in
      get_elem? p.tokens index

-- `kavak_parser_previous`
unfoldable pub previous : Parser → Option Token
previous p =
    if p.pos == 0 || token_count p == 0
    then none
    else get_elem? p.tokens
        (if ltb (p.pos - 1) (token_count p) then p.pos - 1 else token_count p - 1)

-- the tests on a token of `kavak_parser_at_end`, `kavak_parser_check` and `kavak_parser_check_v`
abbrev pub ends : Option Token → Bool
ends none = true
ends (some token) = token.kind == Kind.eof

abbrev pub has_kind : Option Token → ℕ → Bool
has_kind none kind = false
has_kind (some token) kind = token.kind == kind

abbrev pub has_kind_v : Option Token → ℕ → ℕ → Bool
has_kind_v none kind v = false
has_kind_v (some token) kind v = token.kind == kind && token.v == v

-- `kavak_parser_at_end`
unfoldable pub at_end : Parser → Bool
at_end p = ends (peek p)

-- `kavak_parser_progressed`
abbrev pub progressed : Parser → ℕ → Bool
progressed p prev_pos = ltb prev_pos p.pos

-- `kavak_parser_check`
unfoldable pub check : Parser → ℕ → Bool
check p kind = has_kind (peek p) kind

-- `kavak_parser_check_v`
unfoldable pub check_v : Parser → ℕ → ℕ → Bool
check_v p kind v = has_kind_v (peek p) kind v

-- `kavak_parser_check_text`
unfoldable pub check_text : Parser → ℕ → List ℕ → Bool
check_text p kind text = elim (peek p) [
  | none ↦ false
  | some token ↦ token.kind == kind && token_text_eq p token text
]

-- the parser after `parser_advance`
unfoldable pub step : Parser → Parser
step p = if at_end p then p else record p { pos = add32 p.pos 1 }

-- `parser_advance`
unfoldable pub advance : Parser → Option Token × Parser
advance p = (previous (step p), step p)

-- `kavak_parser_eat`, `kavak_parser_eat_v` and `kavak_parser_eat_text`
unfoldable pub eat : Parser → ℕ → Option Token × Parser
eat p kind = if check p kind then advance p else (none, p)

unfoldable pub eat_v : Parser → ℕ → ℕ → Option Token × Parser
eat_v p kind v = if check_v p kind v then advance p else (none, p)

unfoldable pub eat_text : Parser → ℕ → List ℕ → Option Token × Parser
eat_text p kind text = if check_text p kind text then advance p else (none, p)

-- `at ? at->span : KAVAK_SPAN_NONE`
abbrev pub span_of : Option Token → Span
span_of none = span_none
span_of (some token) = token.span

-- what `kavak_parser_expect` and `kavak_parser_expect_text` do with what was eaten
unfoldable pub expected : (ℕ → Bool) → Option String → Option Token × Parser → Option Token × Parser
expected mem message (some token, p) = (some token, p)
expected mem message (none, p) = (none, parser_diag mem p (span_of (peek p)) message)

-- `kavak_parser_expect`
unfoldable pub expect : (ℕ → Bool) → Parser → ℕ → Option String → Option Token × Parser
expect mem p kind message = expected mem message (eat p kind)

-- `kavak_parser_expect_text`
unfoldable pub expect_text :
    (ℕ → Bool) → Parser → ℕ → List ℕ → Option String → Option Token × Parser
expect_text mem p kind text message = expected mem message (eat_text p kind text)

-- `kavak_parser_new` for tokens and an arena that are not NULL; `got` says whether its allocation
-- succeeds
unfoldable pub parser_new : Bool → Option Source → List Token → Option DiagVec → Option Parser
parser_new got source tokens diags =
    if length tokens == 0
    then none
    else if not got
    then none
    else some (record { source = source; tokens = tokens; pos = 0; expr_depth = 0; diags = diags })
