-- ===== src/Lexer/Number.antt =====
-- The scanner for numbers of src/lexer.c.
pub mod Progress
mod Tests
use kavak.Base.{
  ℕ, zero, suc, ◌+◌, ◌-◌, ◌*◌, Bool, true, false, not, ◌&&◌, ◌||◌, List, [], ◌∷◌, Option, none,
  some, ltb, leb, ◌==◌, if◌then◌else◌, length, drop, get_or, has_bit, uint32_max,
}
use kavak.Span.{span_from_to}
use kavak.Token.Kind
use kavak.Utf8.{utf8_decode}
use kavak.Source.{len}
use kavak.Lexer.{Lexer, at_eof, peek, ahead, emit_token, emit_invalid}
use kavak.Lexer.Escape.{ascii_digit_value}
use kavak.Lexer.Scan.{
  ScanResult, no_match, matched, oom, moved, matched_or_oom, longest_match, is_ident_cont_cfg,
  peek_cp, accepted_len, munch,
}

-- the bit numbers of `KAVAK_NUM_…`
abbrev pub base_hex_bit : ℕ
base_hex_bit = 1

abbrev pub base_oct_bit : ℕ
base_oct_bit = 2

abbrev pub base_bin_bit : ℕ
base_bin_bit = 3

-- `is_digit_for_base`
unfoldable pub is_digit_for_base : ℕ → ℕ → Bool
is_digit_for_base c base = elim (ascii_digit_value c) [ none ↦ false | some value ↦ ltb value base ]

-- `byte_at_is_digit_for_base`
unfoldable pub byte_at_is_digit_for_base : Lexer → ℕ → ℕ → Bool
unfolding is_digit_for_base
byte_at_is_digit_for_base lex pos base =
    ltb pos (len lex.source) && is_digit_for_base (get_or lex.source.bytes pos 0) base

abbrev pub underscores_bit : ℕ
underscores_bit = 4

abbrev pub float_bit : ℕ
float_bit = 5

abbrev pub exponent_bit : ℕ
exponent_bit = 6

abbrev pub leading_dot_bit : ℕ
leading_dot_bit = 7

abbrev pub suffix_requires_boundary_bit : ℕ
suffix_requires_boundary_bit = 8

abbrev pub strict_invalid_digits_bit : ℕ
strict_invalid_digits_bit = 9

abbrev pub has_flag : Lexer → ℕ → Bool
has_flag lex bit = has_bit lex.config.numbers.flags bit

-- the length of a run of `_`
abbrev pub underscore_run : List ℕ → ℕ
underscore_run [] = 0
underscore_run (c ∷ s) = let more = underscore_run s in if c == b'_' then suc more else 0

-- One turn of `scan_digits`: the bytes that it takes and the digits counted so far, or its end.
unfoldable pub digits_turn : ℕ → Lexer → ℕ → Option (ℕ × ℕ)
unfolding byte_at_is_digit_for_base
digits_turn base lex digit_count =
    let run = underscore_run (ahead lex) in
    if at_eof lex
    then none
    else if is_digit_for_base (peek lex) base
    then some (1, (if digit_count == uint32_max then digit_count else digit_count + 1))
    else if peek lex == b'_' && (has_flag lex underscores_bit && ltb 0 digit_count)
    then if byte_at_is_digit_for_base lex (lex.pos + run) base
      then some (run, digit_count)
      else none
    else none

-- `scan_digits`, with so many bytes left: the count and the state
unfoldable pub scan_digits_from : ℕ → ℕ → Lexer → ℕ → ℕ × Lexer
unfolding digits_turn
scan_digits_from zero base lex digit_count = (digit_count, lex)
scan_digits_from (suc fuel) base lex digit_count = elim (digits_turn base lex digit_count) [
  | none ↦ (digit_count, lex)
  | some turn ↦ scan_digits_from fuel base (moved lex turn.0) turn.1
]

abbrev pub scan_digits : ℕ → Lexer → ℕ × Lexer
scan_digits base lex = scan_digits_from (len lex.source - lex.pos) base lex 0

-- `exponent_starts_here`
abbrev pub is_sign : ℕ → Bool
is_sign c = c == b'+' || c == b'-'

unfoldable pub exponent_starts_here : Lexer → Bool
exponent_starts_here lex =
    let p = lex.pos + 1 in
    let signed = ltb p (len lex.source) && is_sign (get_or lex.source.bytes p 0) in
    if at_eof lex
    then false
    else if not (peek lex == b'e' || peek lex == b'E')
    then false
    else byte_at_is_digit_for_base lex (if signed then p + 1 else p) 10

-- `consume_number_suffix`
unfoldable pub suffix_bounded : Lexer → List ℕ → Bool
suffix_bounded lex suffix =
    if has_flag lex suffix_requires_boundary_bit
    then elim (accepted_len (is_ident_cont_cfg lex)
        (utf8_decode (drop (lex.pos + length suffix) lex.source.bytes))) [
          | none ↦ true
          | some n ↦ false
        ]
    else true

unfoldable pub consume_number_suffix : Lexer → Lexer
unfolding suffix_bounded
consume_number_suffix lex =
    elim (longest_match (λ (suffix : List ℕ). suffix) lex lex.config.numbers.suffixes none 0) [
      | none ↦ lex
      | some suffix ↦ if suffix_bounded lex suffix then moved lex (length suffix) else lex
    ]

-- `emit_number`: the end of a literal behind its suffix
unfoldable pub end_number : (ℕ → Bool) → ℕ → ℕ → Lexer → ScanResult
end_number mem start kind lex =
    let trailing =
      if has_flag lex strict_invalid_digits_bit
      then accepted_len (is_ident_cont_cfg lex) (peek_cp lex)
      else none in
    elim trailing [
      | none ↦ matched_or_oom (emit_token mem lex kind (span_from_to start lex.pos) 0)
      | some n ↦ matched_or_oom (
          emit_invalid mem (munch (len lex.source - lex.pos) (moved lex n)) start
            "malformed number literal")
    ]

unfoldable pub emit_number : (ℕ → Bool) → ℕ → ℕ → Lexer → ScanResult
unfolding end_number
emit_number mem start kind lex = end_number mem start kind (consume_number_suffix lex)

-- `try_scan_number`: a leading dot, and the base that a marker stands for
unfoldable pub leading_dot : Lexer → Bool
leading_dot lex =
    has_flag lex leading_dot_bit
    && (has_flag lex float_bit
        && (peek lex == b'.' && byte_at_is_digit_for_base lex (lex.pos + 1) 10))

unfoldable pub base_of : Lexer → ℕ → Option ℕ
base_of lex marker =
    if (marker == b'x' || marker == b'X') && has_flag lex base_hex_bit
    then some 16
    else if (marker == b'o' || marker == b'O') && has_flag lex base_oct_bit
    then some 8
    else if (marker == b'b' || marker == b'B') && has_flag lex base_bin_bit
    then some 2
    else none

unfoldable pub base_ahead : Lexer → Option ℕ
unfolding base_of
base_ahead lex =
    if peek lex == b'0' && ltb (lex.pos + 1) (len lex.source)
    then base_of lex (get_or lex.source.bytes (lex.pos + 1) 0)
    else none

-- a literal with a marked base
unfoldable pub scan_based : (ℕ → Bool) → ℕ → Lexer → ScanResult
scan_based mem base lex =
    let r = scan_digits base (moved lex 2) in
    if r.0 == 0
    then matched_or_oom (emit_invalid mem r.1 lex.pos "malformed number literal")
    else emit_number mem lex.pos Kind.int r.1

-- a decimal literal up to its fraction, and its exponent: the kind and the state
unfoldable pub scan_fraction : Bool → Lexer → ℕ × Lexer
scan_fraction true lex = (Kind.float, (scan_digits 10 (moved lex 1)).1)
scan_fraction false lex =
    let whole = (scan_digits 10 lex).1 in
    if has_flag whole float_bit
      && (peek whole == b'.' && byte_at_is_digit_for_base whole (whole.pos + 1) 10)
    then (Kind.float, (scan_digits 10 (moved whole 1)).1)
    else (Kind.int, whole)

abbrev pub skip_sign : Lexer → Lexer
skip_sign lex = if not (at_eof lex) && is_sign (peek lex) then moved lex 1 else lex

unfoldable pub scan_exponent : ℕ × Lexer → ℕ × Lexer
unfolding exponent_starts_here
scan_exponent r =
    if has_flag r.1 exponent_bit && exponent_starts_here r.1
    then (Kind.float, (scan_digits 10 (skip_sign (moved r.1 1))).1)
    else r

unfoldable pub scan_decimal : (ℕ → Bool) → Bool → Lexer → ScanResult
unfolding scan_fraction scan_exponent
scan_decimal mem dot lex =
    let r = scan_exponent (scan_fraction dot lex) in emit_number mem lex.pos r.0 r.1

-- `try_scan_number`
unfoldable pub try_scan_number : (ℕ → Bool) → Lexer → ScanResult
unfolding leading_dot base_ahead scan_based scan_decimal
try_scan_number mem lex =
    if not (leading_dot lex) && not (byte_at_is_digit_for_base lex lex.pos 10)
    then no_match
    else elim (if leading_dot lex then none else base_ahead lex) [
      | some base ↦ scan_based mem base lex
      | none ↦ scan_decimal mem (leading_dot lex) lex
    ]
