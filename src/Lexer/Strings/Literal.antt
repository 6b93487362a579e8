-- ===== src/Lexer/Strings/Literal.antt =====
-- `try_scan_string` and `scan_token` of src/lexer.c. The scanner of an expression in an interpolation is
-- `scan_token` one level further in; at `KAVAK_MAX_INTERP_DEPTH` there is none.
use kavak.Base.{
  ℕ, zero, suc, ◌+◌, ◌-◌, Bool, true, false, not, ◌&&◌, ◌||◌, List, [], ◌∷◌, Option, none, some,
  ltb, leb, ◌==◌, if◌then◌else◌, length, bytes_eq, has_bit,
}
use kavak.Span.{span_make, span_from_to}
use kavak.Token.{Token}
use kavak.Token.Kind
use kavak.Source.{len}
use kavak.Lexer.{StringRule, Lexer, at_eof, peek, match_lit, emit_token, emit_invalid, push_diag}
use kavak.Lexer.Scan.{
  ScanResult, no_match, matched, oom, moved, matched_or_oom, peek_cp, try_scan_identifier,
  try_scan_comment, try_scan_operator,
}
use kavak.Lexer.Number.{try_scan_number}
use kavak.Lexer.Strings.{
  raw_bit, template_bit, utf8_recovery_len, match_longest_string_rule, escape_is_allowed,
  string_rule_allows_newline, string_rule_close_kind, interp_marker_starts_interpolation, Interp,
  failed, stopped, closed, stopped_or_failed, emit_interpolation_invalid, emit_marker, interp_loop,
}

-- the scanner of the next level, where there is one
abbrev pub Inner : Type 0
Inner = Option (Lexer → Option ScanResult)

-- `scan_interpolation_expression`
unfoldable pub scan_interpolation_expression :
    (ℕ → Bool) → Inner → Lexer → ℕ → List ℕ → ℕ → Option Interp
unfolding interp_loop emit_interpolation_invalid
scan_interpolation_expression mem none lex start close close_kind = some (
    stopped_or_failed
      (emit_interpolation_invalid mem lex start "string interpolation nesting too deep"))
scan_interpolation_expression mem (some scan) lex start close close_kind =
    interp_loop mem scan start close close_kind (suc (len lex.source - lex.pos)) 0 lex

-- the last token of a vector, replaced
abbrev pub set_last : List Token → Token → List Token
set_last [] token = []
set_last (t ∷ []) token = token ∷ []
set_last (t ∷ (u ∷ tokens)) token = t ∷ set_last (u ∷ tokens) token

abbrev pub patched : Lexer → ℕ → ℕ → Lexer
patched lex kind start = if kind == 0 then lex else record lex {
  tokens = record lex.tokens {
    items =
        set_last lex.tokens.items
          (record { kind = kind; span = span_from_to start lex.pos; v = 0 });
  };
}

-- `scan_bare_interpolation_identifier`, behind the scanner for identifiers
unfoldable pub bare_identifier : (ℕ → Bool) → StringRule → Lexer → ℕ → ScanResult → Interp
unfolding emit_interpolation_invalid
bare_identifier mem rule lex start oom = failed
bare_identifier mem rule lex start (matched lex') = closed (patched lex' rule.bare_ident_kind start)
bare_identifier mem rule lex start no_match =
    stopped_or_failed
      (emit_interpolation_invalid mem lex start "expected identifier after interpolation marker")

-- an expression behind its opening marker
unfoldable pub marked_expression :
    (ℕ → Bool) → Inner → StringRule → ℕ → List ℕ → Option Lexer → Option Interp
unfolding scan_interpolation_expression
marked_expression mem inner rule start close none = some failed
marked_expression mem inner rule start close (some lex) =
    scan_interpolation_expression mem inner lex start close rule.interp_close_kind

-- the form without a close of its own: `{…}` behind `$`, or an identifier
unfoldable pub scan_dual : (ℕ → Bool) → Inner → StringRule → Lexer → ℕ → Option Interp
unfolding marked_expression bare_identifier
scan_dual mem inner rule lex start =
    if bytes_eq rule.interp_open (b'$' ∷ []) && match_lit lex (b'{' ∷ [])
    then marked_expression mem inner rule start (b'}' ∷ [])
        (emit_marker mem (moved lex 1) rule.interp_open_kind start)
    else some (bare_identifier mem rule lex start (try_scan_identifier mem lex))

-- `scan_string_interpolation`
unfoldable pub scan_string_interpolation : (ℕ → Bool) → Inner → StringRule → Lexer → Option Interp
unfolding scan_dual
scan_string_interpolation mem inner rule lex =
    let behind = moved lex (length rule.interp_open) in
    elim rule.interp_close [
      | some close ↦
          marked_expression mem inner rule lex.pos close
            (emit_marker mem behind rule.interp_open_kind lex.pos)
      | none ↦ scan_dual mem inner rule behind lex.pos
    ]

-- where the loop of `try_scan_string` stands: its `fragment_start`, its `had_interp` and the state
pub record Fragment : Type 0 where
  pub from : ℕ
  pub had_interp : Bool
  pub state : Lexer

-- a turn of it: it returns or goes on
pub data Turn : Type 0 where
  result : ScanResult → Turn
  more : Fragment → Turn

unfoldable pub unterminated : (ℕ → Bool) → Fragment → Turn
unterminated mem f =
    result (matched_or_oom (emit_invalid mem f.state f.from "unterminated string literal"))

-- the close delimiter
unfoldable pub close_string : (ℕ → Bool) → StringRule → Fragment → Turn
close_string mem rule f =
    let behind = moved f.state (length rule.close_text) in
    let tagged = f.had_interp && not (rule.fragment_kind == 0) in
    result (
      matched_or_oom (
        emit_token mem behind (if tagged then rule.fragment_kind else string_rule_close_kind rule)
          (span_from_to f.from behind.pos) (if tagged then 3 else 0)))

-- the fragment in front of an interpolation, unless it is empty
unfoldable pub emit_fragment : (ℕ → Bool) → StringRule → ℕ → Fragment → Option Lexer
emit_fragment mem rule start f =
    let plain = rule.fragment_kind == 0 in
    let value = if f.from == start then 1 else 2 in
    if ltb f.from f.state.pos
    then emit_token mem f.state (if plain then Kind.string else rule.fragment_kind)
        (span_from_to f.from f.state.pos) (if plain then 0 else value)
    else some f.state

unfoldable pub after_interp : Option Interp → Option Turn
after_interp none = none
after_interp (some failed) = some (result oom)
after_interp (some (stopped lex)) = some (result (matched lex))
after_interp (some (closed lex)) =
    some (more (record { from = lex.pos; had_interp = true; state = lex }))

unfoldable pub interp_behind : (ℕ → Bool) → Inner → StringRule → Option Lexer → Option Turn
unfolding after_interp scan_string_interpolation
interp_behind mem inner rule none = some (result oom)
interp_behind mem inner rule (some lex) =
    after_interp (scan_string_interpolation mem inner rule lex)

-- an escape, behind its backslash
unfoldable pub check_escape : (ℕ → Bool) → StringRule → Lexer → ℕ → ℕ → Bool → Lexer
check_escape mem rule lex start n bad =
    let behind = moved lex n in
    let told =
      if bad
      then push_diag mem behind (span_make (start + 1) n) "invalid UTF-8 in string escape"
      else behind in
    if escape_is_allowed rule.escapes (peek lex)
    then told
    else push_diag mem told (span_from_to start behind.pos) "invalid escape sequence"

unfoldable pub scan_escape : (ℕ → Bool) → StringRule → Lexer → ℕ → Lexer
unfolding check_escape
scan_escape mem rule lex start =
    if ltb (peek lex) 0x80 then check_escape mem rule lex start 1 false else elim (peek_cp lex) [
      | none ↦ check_escape mem rule lex start (utf8_recovery_len lex) true
      | some (cp, n) ↦ check_escape mem rule lex start n false
    ]

abbrev pub is_line_end : ℕ → Bool
is_line_end c = c == 0x0A || c == 0x0D

unfoldable pub escape_turn : (ℕ → Bool) → StringRule → Fragment → Turn
unfolding scan_escape unterminated
escape_turn mem rule f =
    let behind = moved f.state 1 in
    if at_eof behind || (not (string_rule_allows_newline rule) && is_line_end (peek behind))
    then unterminated mem (record f { state = behind })
    else more (record f { state = scan_escape mem rule behind f.state.pos })

-- any other code point or byte
unfoldable pub text_turn : (ℕ → Bool) → Lexer → Lexer
text_turn mem lex = elim (peek_cp lex) [
  | some (cp, n) ↦ moved lex n
  | none ↦
      if leb 0x80 (peek lex)
      then push_diag mem (moved lex 1) (span_make lex.pos 1) "invalid UTF-8 in string literal"
      else moved lex 1
]

unfoldable pub string_turn : (ℕ → Bool) → Inner → StringRule → ℕ → Fragment → Option Turn
unfolding unterminated close_string emit_fragment interp_behind escape_turn text_turn
string_turn mem inner rule start f =
    let lex = f.state in
    if at_eof lex || (not (string_rule_allows_newline rule) && is_line_end (peek lex))
    then some (unterminated mem f)
    else if ltb 0 (length rule.close_text) && match_lit lex rule.close_text
    then some (close_string mem rule f)
    else if has_bit rule.flags template_bit
        && (ltb 0 (length rule.interp_open)
            && (match_lit lex rule.interp_open && interp_marker_starts_interpolation lex rule))
    then interp_behind mem inner rule (emit_fragment mem rule start f)
    else if not (has_bit rule.flags raw_bit) && peek lex == 0x5C
    then some (escape_turn mem rule f)
    else some (more (record f { state = text_turn mem lex }))

abbrev pub then_more : (Fragment → Option ScanResult) → Option Turn → Option ScanResult
then_more f none = none
then_more f (some (result r)) = some r
then_more f (some (more fragment)) = f fragment

-- the loop
unfoldable pub string_loop : (ℕ → Bool) → Inner → StringRule → ℕ → ℕ → Fragment → Option ScanResult
unfolding string_turn
string_loop mem inner rule start zero f = none
string_loop mem inner rule start (suc fuel) f =
    then_more (string_loop mem inner rule start fuel) (string_turn mem inner rule start f)

-- `try_scan_string`
unfoldable pub try_scan_string : (ℕ → Bool) → Inner → Lexer → Option ScanResult
unfolding string_loop match_longest_string_rule
try_scan_string mem inner lex = elim (match_longest_string_rule lex) [
  | none ↦ some no_match
  | some rule ↦
      string_loop mem inner rule lex.pos (suc (len lex.source - lex.pos))
        (record { from = lex.pos; had_interp = false; state = moved lex (length rule.open_text) })
]

-- `scan_token`, with so many levels of interpolation left
abbrev pub or_else : ScanResult → ScanResult → ScanResult
or_else no_match r = r
or_else (matched lex) r = matched lex
or_else oom r = oom

abbrev pub or_rest : Option ScanResult → ScanResult → Option ScanResult
or_rest none r = none
or_rest (some s) r = some (or_else s r)

unfoldable pub scan_with : (ℕ → Bool) → Inner → Lexer → Option ScanResult
unfolding try_scan_string
scan_with mem inner lex =
    let rest =
      or_else (try_scan_number mem lex)
        (or_else (try_scan_identifier mem lex) (try_scan_operator mem lex)) in
    elim (try_scan_comment mem lex) [
      | matched lex' ↦ some (matched lex')
      | oom ↦ some oom
      | no_match ↦ or_rest (try_scan_string mem inner lex) rest
    ]

unfoldable pub scan_levels : (ℕ → Bool) → ℕ → Lexer → Option ScanResult
unfolding scan_with
scan_levels mem zero lex = scan_with mem none lex
scan_levels mem (suc levels) lex = scan_with mem (some (scan_levels mem levels)) lex

-- `KAVAK_MAX_INTERP_DEPTH`
abbrev pub max_interp_depth : ℕ
max_interp_depth = 64

unfoldable pub scan_token : (ℕ → Bool) → Lexer → Option ScanResult
unfolding scan_levels
scan_token mem lex = scan_levels mem max_interp_depth lex
