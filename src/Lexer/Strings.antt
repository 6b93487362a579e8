-- ===== src/Lexer/Strings.antt =====
-- The scanner for strings of src/lexer.c, with escapes and interpolations. `none` is a run that the fuel
-- has ended.
pub mod Literal
pub mod Progress
pub mod Interpolation
pub mod Turns
pub mod Ends
use Prim.Native.String.{String}
use kavak.Base.{
  ℕ, zero, suc, ◌+◌, ◌-◌, Bool, true, false, not, ◌&&◌, ◌||◌, List, [], ◌∷◌, Option, none, some,
  ltb, leb, ◌==◌, if◌then◌else◌, length, drop, get_or, bytes_eq, has_bit, min,
}
use kavak.Span.{span_make, span_from_to}
use kavak.Token.{Token, TokenVec}
use kavak.Token.Kind
use kavak.Utf8.{utf8_decode}
use kavak.Source.{len}
use kavak.Lexer.{
  StringRule, Lexer, at_eof, peek, newline_len_at, is_inline_ws, match_lit, emit_token,
  emit_invalid, push_diag,
}
use kavak.Lexer.Scan.{
  ScanResult, no_match, matched, oom, moved, matched_or_oom, longest_match, is_ident_start_cfg,
  peek_cp, accepted_len, try_scan_identifier,
}

-- the bit numbers of `KAVAK_STR_FLAG_…`
abbrev pub raw_bit : ℕ
raw_bit = 0

abbrev pub template_bit : ℕ
template_bit = 1

abbrev pub triple_bit : ℕ
triple_bit = 2

abbrev pub multiline_bit : ℕ
multiline_bit = 3

abbrev pub char_bit : ℕ
char_bit = 4

abbrev pub ident_bit : ℕ
ident_bit = 5

-- `utf8_recovery_len`
abbrev pub expected_len : ℕ → ℕ
expected_len lead =
    if leb 0xC2 lead && leb lead 0xDF
    then 2
    else if leb 0xE0 lead && leb lead 0xEF
    then 3
    else if leb 0xF0 lead && leb lead 0xF4
    then 4
    else 1

unfoldable pub utf8_recovery_len : Lexer → ℕ
utf8_recovery_len lex =
    if ltb (expected_len (peek lex)) (len lex.source - lex.pos)
    then expected_len (peek lex)
    else len lex.source - lex.pos

-- `match_longest_string_rule`, for a configuration that `lexer_config_valid` accepts
unfoldable pub match_longest_string_rule : Lexer → Option StringRule
unfolding longest_match
match_longest_string_rule lex =
    longest_match (λ (rule : StringRule). rule.open_text) lex lex.config.strings none 0

-- `escape_is_allowed`, on the table of the rule
unfoldable pub escape_is_allowed : List ℕ → ℕ → Bool
escape_is_allowed [] esc = false
escape_is_allowed (e ∷ escapes) esc = e == esc || escape_is_allowed escapes esc

-- `string_rule_allows_newline`, `string_rule_emits_char` and `string_rule_close_kind`
abbrev pub string_rule_allows_newline : StringRule → Bool
string_rule_allows_newline rule = has_bit rule.flags triple_bit || has_bit rule.flags multiline_bit

abbrev pub string_rule_emits_char : StringRule → Bool
string_rule_emits_char rule =
    has_bit rule.flags char_bit
    || (bytes_eq rule.open_text (b'\'' ∷ [])
        && (bytes_eq rule.close_text (b'\'' ∷ [])
            && not (string_rule_allows_newline rule || has_bit rule.flags template_bit)))

abbrev pub string_rule_close_kind : StringRule → ℕ
string_rule_close_kind rule =
    if has_bit rule.flags ident_bit
    then Kind.ident
    else if string_rule_emits_char rule
    then Kind.char
    else Kind.string

-- `interp_marker_starts_interpolation`
unfoldable pub interp_marker_starts_interpolation : Lexer → StringRule → Bool
interp_marker_starts_interpolation lex rule =
    let after = lex.pos + length rule.interp_open in
    elim rule.interp_close [
      | some close ↦ true
      | none ↦
          if leb (len lex.source) after
          then false
          else if get_or lex.source.bytes after 0 == b'{'
          then true
          else elim (accepted_len (is_ident_start_cfg lex)
              (utf8_decode (drop after lex.source.bytes))) [ none ↦ false | some n ↦ true ]
    ]

-- `paired_open_for_close`, and whether it stands at the position
abbrev pub paired_open_for_close : List ℕ → Option ℕ
paired_open_for_close (c ∷ []) =
    if c == b'}'
    then some b'{'
    else if c == b')'
    then some b'('
    else if c == b']'
    then some b'['
    else none
paired_open_for_close _ = none

abbrev pub match_open : Lexer → Option ℕ → Bool
match_open lex none = false
match_open lex (some c) = match_lit lex (c ∷ [])

-- the results of the interpolation scanners: -1, 0 and 1
pub data Interp : Type 0 where
  failed : Interp
  stopped : Lexer → Interp
  closed : Lexer → Interp

abbrev pub stopped_or_failed : Option Lexer → Interp
stopped_or_failed none = failed
stopped_or_failed (some lex) = stopped lex

abbrev pub closed_or_failed : Option Lexer → Interp
closed_or_failed none = failed
closed_or_failed (some lex) = closed lex

-- `emit_interpolation_invalid`
unfoldable pub emit_interpolation_invalid : (ℕ → Bool) → Lexer → ℕ → String → Option Lexer
emit_interpolation_invalid mem lex start message =
    emit_invalid mem (if leb lex.pos start then record lex { pos = start + 1 } else lex) start
      message

-- `skip_whitespace`, and the loop of `skip_interpolation_whitespace`, with so many bytes left
unfoldable pub skip_whitespace : ℕ → Lexer → Lexer
skip_whitespace zero lex = lex
skip_whitespace (suc fuel) lex =
    let n = newline_len_at lex lex.pos in
    elim (at_eof lex || (n == 0 && not (is_inline_ws (peek lex)))) [
      | true ↦ lex
      | false ↦ skip_whitespace fuel (moved lex (if n == 0 then 1 else n))
    ]

unfoldable pub newline_tokens : (ℕ → Bool) → ℕ → Lexer → Option Lexer
newline_tokens mem zero lex = some lex
newline_tokens mem (suc fuel) lex =
    let n = newline_len_at lex lex.pos in
    elim (at_eof lex || (n == 0 && not (is_inline_ws (peek lex)))) [
      | true ↦ some lex
      | false ↦ elim (n == 0) [
        | true ↦ newline_tokens mem fuel (moved lex 1)
        | false ↦ elim (emit_token mem lex Kind.newline (span_make lex.pos n) 0) [
          | none ↦ none
          | some lex' ↦ newline_tokens mem fuel (moved lex' n)
        ]
      ]
    ]

unfoldable pub skip_interpolation_whitespace : (ℕ → Bool) → Lexer → Option Lexer
unfolding skip_whitespace newline_tokens
skip_interpolation_whitespace mem lex =
    let fuel = len lex.source - lex.pos in
    if lex.config.emit_newlines
    then newline_tokens mem fuel lex
    else some (skip_whitespace fuel lex)

-- a marker token over what was consumed since `start`, unless its kind is 0
abbrev pub emit_marker : (ℕ → Bool) → Lexer → ℕ → ℕ → Option Lexer
emit_marker mem lex kind start =
    if kind == 0 then some lex else emit_token mem lex kind (span_from_to start lex.pos) 0

-- the closer of an interpolation
unfoldable pub close_interp : (ℕ → Bool) → Lexer → List ℕ → ℕ → Interp
close_interp mem lex close close_kind =
    closed_or_failed (emit_marker mem (moved lex (length close)) close_kind lex.pos)

-- the depth of the pairs behind a token
abbrev pub paired : Lexer → List ℕ → ℕ → ℕ
paired lex close pairs =
    if match_open lex (paired_open_for_close close)
    then pairs + 1
    else if ltb 0 pairs && (ltb 0 (length close) && match_lit lex close)
    then pairs - 1
    else pairs

-- behind a token of the expression
unfoldable pub after_token :
    (ℕ → Bool)
    → (ℕ → Lexer → Option Interp)
    → List ℕ
    → ℕ
    → Lexer
    → Option ScanResult
    → Option Interp
after_token mem rest close pairs lex none = none
after_token mem rest close pairs lex (some oom) = some failed
after_token mem rest close pairs lex (some (matched lex')) = rest (paired lex close pairs) lex'
after_token mem rest close pairs lex (some no_match) =
    elim (emit_invalid mem (moved lex 1) lex.pos "unknown character") [
      | none ↦ some failed
      | some lex' ↦ rest pairs lex'
    ]

-- behind the whitespace in front of it
unfoldable pub interp_turn :
    (ℕ → Bool)
    → (Lexer → Option ScanResult)
    → (ℕ → Lexer → Option Interp)
    → ℕ
    → List ℕ
    → ℕ
    → ℕ
    → Option Lexer
    → Option Interp
unfolding after_token close_interp
interp_turn mem scan rest start close close_kind pairs none = some failed
interp_turn mem scan rest start close close_kind pairs (some lex) =
    if at_eof lex
    then some (stopped_or_failed (emit_invalid mem lex start "unterminated string interpolation"))
    else if pairs == 0 && (ltb 0 (length close) && match_lit lex close)
    then some (close_interp mem lex close close_kind)
    else after_token mem rest close pairs lex (scan lex)

-- the loop of `scan_interpolation_expression`
unfoldable pub interp_loop :
    (ℕ → Bool) → (Lexer → Option ScanResult) → ℕ → List ℕ → ℕ → ℕ → ℕ → Lexer → Option Interp
unfolding interp_turn skip_interpolation_whitespace
interp_loop mem scan start close close_kind zero pairs lex = none
interp_loop mem scan start close close_kind (suc fuel) pairs lex =
    interp_turn mem scan (interp_loop mem scan start close close_kind fuel) start close close_kind
      pairs (skip_interpolation_whitespace mem lex)
