-- ===== src/Lexer.antt =====
-- The lexer of src/lexer.c: its state, its cursor, and what it emits. `mem n` says whether an allocation
-- of `n` bytes succeeds; `none` is the result -1, which ends the run. The texts of a configuration are
-- the bytes before their terminator.
pub mod Escape
pub mod Layout
pub mod Scan
pub mod Number
pub mod Strings
pub mod Driver
mod Tests
use Prim.Native.String.{String}
use kavak.Base.{
  ℕ, zero, suc, ◌+◌, ◌-◌, ◌*◌, Bool, true, false, not, ◌&&◌, ◌||◌, List, [], ◌∷◌, Option, none,
  some, ltb, leb, ◌==◌, if◌then◌else◌, length, get_or, take, drop, bytes_eq, get_elem?,
}
use kavak.Span.{Span, span_make, span_from_to}
use kavak.Token.{Token, TokenVec, token_vec_push}
use kavak.Token.Kind
use kavak.Diag.{Diag, DiagVec, Severity, diag_vec_push_or_same}
use kavak.Source.{Source, len, newline_default, source_newline_len}

-- `KavakCommentRule`
pub record CommentRule : Type 0 where
  pub open_text : List ℕ
  pub close_text : List ℕ
  pub nest : Bool
  pub is_doc : Bool

-- `KavakIndentUnit`
pub data IndentUnit : Type 0 where
  spaces tabs both : IndentUnit

-- `KavakOffsideConfig`
pub record Offside : Type 0 where
  pub unit : IndentUnit
  pub dedent_on_lower_or_equal : Bool

-- `KavakAutoSemicolon`
pub record AutoSemicolon : Type 0 where
  pub is_terminating : Option (Token → Bool)
  pub emit_kind : ℕ
  pub emit_v : ℕ

-- the `text` and `id` of a `KavakOperator` or a `KavakKeyword`
pub record Word : Type 0 where
  pub text : List ℕ
  pub id : ℕ

-- `KavakNumberStyle`
pub record NumberStyle : Type 0 where
  pub flags : ℕ
  pub suffixes : List (List ℕ)

-- `KavakStringRule`, the `escapes` by their `esc`; a text other than `interp_close` that is NULL is empty
pub record StringRule : Type 0 where
  pub open_text : List ℕ
  pub close_text : List ℕ
  pub flags : ℕ
  pub interp_open : List ℕ
  pub interp_close : Option (List ℕ)
  pub escapes : List ℕ
  pub fragment_kind : ℕ
  pub interp_open_kind : ℕ
  pub interp_close_kind : ℕ
  pub bare_ident_kind : ℕ

-- `KavakLexerConfig`; a NULL table is empty
pub record Config : Type 0 where
  pub is_ident_start : Option (ℕ → Bool)
  pub is_ident_cont : Option (ℕ → Bool)
  pub numbers : NumberStyle
  pub comments : List CommentRule
  pub strings : List StringRule
  pub operators : List Word
  pub keywords : List Word
  pub soft_keywords : List ℕ
  pub offside : Option Offside
  pub auto_semi : Option AutoSemicolon
  pub newline_flags : ℕ
  pub keep_doc_comments : Bool
  pub keep_comments : Bool
  pub emit_newlines : Bool

-- `Lexer`. `indents` holds the entries 1 to `indent_top` of `indent_stack`, the top first; entry 0 is 0.
pub record Lexer : Type 0 where
  pub source : Source
  pub config : Config
  pub tokens : TokenVec
  pub diags : Option DiagVec
  pub pos : ℕ
  pub indents : List ℕ
  pub last_significant_index : ℕ
  pub at_line_start : Bool
  pub line_has_significant : Bool

-- `at_eof`, `peek` and `newline_flags`
abbrev pub at_eof : Lexer → Bool
at_eof lex = leb (len lex.source) lex.pos

abbrev pub peek : Lexer → ℕ
peek lex = if at_eof lex then 0 else get_or lex.source.bytes lex.pos 0

abbrev pub newline_flags_of : Lexer → ℕ
newline_flags_of lex =
    if not (lex.config.newline_flags == 0)
    then lex.config.newline_flags
    else if lex.source.newline_flags == 0
    then newline_default
    else lex.source.newline_flags

-- `newline_len_at`
unfoldable pub newline_len_at : Lexer → ℕ → ℕ
newline_len_at lex pos = source_newline_len lex.source pos (newline_flags_of lex)

-- `starts_newline` and `consume_newline`
abbrev pub starts_newline : Lexer → Bool
starts_newline lex = not (at_eof lex) && not (newline_len_at lex lex.pos == 0)

abbrev pub consume_newline : Lexer → Lexer
consume_newline lex = record lex { pos = lex.pos + newline_len_at lex lex.pos }

-- `is_inline_ws`
abbrev pub is_inline_ws : ℕ → Bool
is_inline_ws c = c == b' ' || (c == 0x09 || (c == 0x0C || c == 0x0B))

-- the bytes from the position on, of which `skip_inline_whitespace` skips those in front
abbrev pub ahead : Lexer → List ℕ
ahead lex = drop lex.pos lex.source.bytes

abbrev pub inline_ws : List ℕ → ℕ
inline_ws [] = 0
inline_ws (c ∷ s) = let more = inline_ws s in if is_inline_ws c then suc more else 0

unfoldable pub skip_inline_whitespace : Lexer → Lexer
skip_inline_whitespace lex = record lex { pos = lex.pos + inline_ws (ahead lex) }

-- `match_lit_at`, and `match_lit` at the position
unfoldable pub match_lit_at : Lexer → ℕ → List ℕ → Bool
match_lit_at lex pos lit =
    if ltb (len lex.source) (pos + length lit)
    then false
    else bytes_eq (take (length lit) (drop pos lex.source.bytes)) lit

abbrev pub match_lit : Lexer → List ℕ → Bool
match_lit lex lit = match_lit_at lex lex.pos lit

-- `emit_token`
abbrev pub with_tokens : Lexer → Option TokenVec → Option Lexer
with_tokens lex none = none
with_tokens lex (some tokens) = some (record lex { tokens = tokens })

unfoldable pub emit_token : (ℕ → Bool) → Lexer → ℕ → Span → ℕ → Option Lexer
emit_token mem lex kind span v =
    with_tokens lex (token_vec_push mem lex.tokens (record { kind = kind; span = span; v = v }))

-- `push_diag`
unfoldable pub push_diag : (ℕ → Bool) → Lexer → Span → String → Lexer
push_diag mem lex span message = elim lex.diags [
  | none ↦ lex
  | some diags ↦ record lex {
    diags = some (
        diag_vec_push_or_same mem diags
          (record { severity = Severity.error; message = some message; span = span }));
  }
]

-- `emit_invalid`
unfoldable pub emit_invalid : (ℕ → Bool) → Lexer → ℕ → String → Option Lexer
unfolding push_diag
emit_invalid mem lex start message =
    elim (emit_token mem lex Kind.invalid (span_from_to start lex.pos) 0) [
      | none ↦ none
      | some lex' ↦ some (push_diag mem lex' (span_from_to start lex.pos) message)
    ]

-- `token_kind_is_significant`
abbrev pub token_kind_is_significant : ℕ → Bool
token_kind_is_significant kind = not (
    kind == Kind.invalid
    || (kind == Kind.eof
        || (kind == Kind.newline
            || (kind == Kind.indent || (kind == Kind.dedent || kind == Kind.comment)))))

-- the loop of `note_emitted_tokens` from an index on
unfoldable pub note_from : ℕ → List Token → Lexer → Lexer
note_from i [] lex = lex
note_from i (token ∷ tokens) lex = note_from (i + 1) tokens (
    if token_kind_is_significant token.kind
    then record lex { last_significant_index = i; line_has_significant = true }
    else lex)

unfoldable pub note_emitted_tokens : Lexer → ℕ → Lexer
unfolding note_from
note_emitted_tokens lex first = note_from first (drop first lex.tokens.items) lex
