-- ===== src/Lexer/Number/Tests.antt =====
-- The scanner for numbers of src/lexer.c, in a language with all bases, separators, fractions, exponents and the suffixes `u` and `us`.
use kavak.Base.{
  ℕ, ◌≡◌, refl, Bool, true, false, List, [], ◌∷◌, Option, none, some, get_elem?, has_bit,
}
use kavak.Token.{token_vec_push}
use kavak.Token.Kind
use kavak.Utf8.{utf8_decode, utf8_lead_len, ascii_is_ident_start, ascii_is_ident_cont}
use kavak.Lexer.{Lexer, match_lit_at, emit_token, emit_invalid, push_diag}
use kavak.Lexer.Escape.{ascii_digit_value}
use kavak.Lexer.Scan.{ScanResult, no_match, matched, oom, longest_match, munch}
use kavak.Lexer.Number.{
  is_digit_for_base, byte_at_is_digit_for_base, digits_turn, scan_digits_from, exponent_starts_here,
  suffix_bounded, consume_number_suffix, end_number, emit_number, leading_dot, base_of, base_ahead,
  scan_based, scan_fraction, scan_exponent, scan_decimal, try_scan_number,
}

abbrev memory : ℕ → Bool
memory n = true

-- flags in all but the leading dot and the boundary of suffixes
abbrev number : List ℕ → Lexer
number text = record {
  source = record {
    bytes = text;
    filename = none;
    newline_flags = 7;
    line_offsets = none;
    line_count = 0;
  };
  config = record {
    is_ident_start = none;
    is_ident_cont = none;
    numbers = record { flags = 639; suffixes = (b'u' ∷ []) ∷ (b'u' ∷ b's' ∷ []) ∷ [] };
    comments = [];
    operators = [];
    keywords = [];
    soft_keywords = [];
    offside = none;
    auto_semi = none;
    newline_flags = 0;
    keep_doc_comments = false;
    keep_comments = false;
    strings = [];
    emit_newlines = false;
  };
  tokens = record { items = []; cap = 16 };
  diags = none;
  pos = 0;
  indents = [];
  last_significant_index = 0;
  at_line_start = false;
  line_has_significant = false;
}

-- the end and the kind of the token
abbrev emitted : ScanResult → Option (ℕ × ℕ)
emitted no_match = none
emitted oom = none
emitted (matched lex) = elim (get_elem? lex.tokens.items 0) [
  | none ↦ none
  | some token ↦ some (lex.pos, token.kind)
]

-- `0x1_Fus`, the malformed `1_`, `1.5e+2`, and a prefix without digits
hex_run :
    emitted (try_scan_number memory (number (b'0' ∷ b'x' ∷ b'1' ∷ b'_' ∷ b'F' ∷ b'u' ∷ b's' ∷ [])))
    ≡ some (7, Kind.int)
unfolding try_scan_number leading_dot base_ahead base_of scan_based scan_decimal scan_digits_from
    digits_turn byte_at_is_digit_for_base is_digit_for_base ascii_digit_value emit_number end_number
    consume_number_suffix suffix_bounded longest_match match_lit_at emit_token token_vec_push
    has_bit utf8_decode
hex_run = refl

separator_run :
    emitted (try_scan_number memory (number (b'1' ∷ b'_' ∷ b'+' ∷ []))) ≡ some (2, Kind.invalid)
unfolding try_scan_number leading_dot base_ahead base_of scan_fraction scan_exponent scan_decimal
    scan_digits_from digits_turn byte_at_is_digit_for_base is_digit_for_base ascii_digit_value
    emit_number end_number consume_number_suffix suffix_bounded longest_match match_lit_at
    emit_invalid push_diag emit_token token_vec_push has_bit utf8_decode utf8_lead_len
    ascii_is_ident_start ascii_is_ident_cont munch exponent_starts_here
separator_run = refl

float_run :
    emitted (try_scan_number memory (number (b'1' ∷ b'.' ∷ b'5' ∷ b'e' ∷ b'+' ∷ b'2' ∷ b';' ∷ [])))
    ≡ some (6, Kind.float)
unfolding try_scan_number leading_dot base_ahead base_of scan_fraction scan_exponent scan_decimal
    scan_digits_from digits_turn byte_at_is_digit_for_base is_digit_for_base ascii_digit_value
    emit_number end_number consume_number_suffix suffix_bounded longest_match match_lit_at
    emit_token token_vec_push has_bit utf8_decode utf8_lead_len ascii_is_ident_start
    ascii_is_ident_cont exponent_starts_here
float_run = refl

bare_prefix_run :
    emitted (try_scan_number memory (number (b'0' ∷ b'x' ∷ b'g' ∷ []))) ≡ some (2, Kind.invalid)
unfolding try_scan_number leading_dot base_ahead base_of scan_based scan_digits_from digits_turn
    byte_at_is_digit_for_base is_digit_for_base ascii_digit_value emit_invalid push_diag emit_token
    token_vec_push has_bit
bare_prefix_run = refl
