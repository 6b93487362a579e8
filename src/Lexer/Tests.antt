-- ===== src/Lexer/Tests.antt =====
-- Escapes and indented lines on small sources.
use kavak.Base.{
  ℕ, ◌≡◌, refl, Bool, true, false, not, ◌&&◌, get_elem?, List, [], ◌∷◌, Option, none, some, length,
  has_bit, arith,
}
use kavak.Span.{span_make}
use kavak.Token.{Token, token_vec_push}
use kavak.Token.Kind
use kavak.Source.{source_newline_len, newline_at, lf_follows}
use kavak.Lexer.{
  spaces, Lexer, emit_token, newline_len_at, CommentRule, match_lit_at, emit_invalid, push_diag,
  at_eof, starts_newline,
}
use kavak.Utf8.{utf8_decode, utf8_lead_len, ascii_is_ident_start, ascii_is_ident_cont}
use kavak.Lexer.Escape.{
  ascii_digit_value, is_unicode_scalar, scan_braced, scan_fixed, accept_fixed, scan_width,
  scan_hex_escape,
}
use kavak.Lexer.Escape.Sound.{Escapes, scan_hex_escape-Escapes}
use kavak.Lexer.Layout.{
  set_indent, open_indent, skip_indent, scan_indent, indentation_col_after_byte, comment_starts,
  drain_offside, drain_indentation, pop_indent, emit_newline_if, maybe_emit_auto_semicolon,
  handle_offside_line_start, finish_physical_line, finish_eof_layout,
}
use kavak.Lexer.Scan.{
  ScanResult, no_match, matched, oom, longest_match, skip_line, block_turn, skip_block,
  keep_comment, end_block, scan_comment, try_scan_comment, match_longest_op, try_scan_operator,
  munch, is_soft, keyword_of, emit_ident, try_scan_identifier,
}
use kavak.Lexer.Scan.Progress.{scanners_advance}
use kavak.Lexer.Scan.Within.{Advances}
use kavak.Lexer.Scan.Ends.{BlockEnded, IdentEnded, loops_end}
use kavak.Lexer.Layout.Laid.{After, Laid}
use kavak.Lexer.Layout.Balance.{Closed, lines_keep_layout}
use kavak.Lexer.Driver.Balanced.{
  Scanned, next, begun, line_starts, line_ends, scans, finish_run-Closed,
}

-- `\u{1F600}`, `\x4a`, a surrogate, and a digit too few
braced_run :
    scan_hex_escape (b'{' ∷ b'1' ∷ b'F' ∷ b'6' ∷ b'0' ∷ b'0' ∷ b'}' ∷ b'!' ∷ []) b'u'
    ≡ some (0x1F600, 7)
unfolding scan_hex_escape scan_braced ascii_digit_value is_unicode_scalar
braced_run = refl

raw_run : scan_hex_escape (b'4' ∷ b'a' ∷ []) b'x' ≡ some (0x4A, 2)
unfolding scan_hex_escape scan_width scan_fixed accept_fixed ascii_digit_value is_unicode_scalar
raw_run = refl

surrogate_run : scan_hex_escape (b'd' ∷ b'8' ∷ b'0' ∷ b'0' ∷ []) b'u' ≡ none
unfolding scan_hex_escape scan_width scan_fixed accept_fixed ascii_digit_value is_unicode_scalar
surrogate_run = refl

short_run : scan_hex_escape (b'4' ∷ []) b'x' ≡ none
unfolding scan_hex_escape scan_width scan_fixed accept_fixed ascii_digit_value is_unicode_scalar
short_run = refl

scan_hex_escape-Escapes_example :
    Escapes b'u' (b'{' ∷ b'1' ∷ b'F' ∷ b'6' ∷ b'0' ∷ b'0' ∷ b'}' ∷ b'!' ∷ []) 0x1F600 7
scan_hex_escape-Escapes_example =
    scan_hex_escape-Escapes (b'{' ∷ b'1' ∷ b'F' ∷ b'6' ∷ b'0' ∷ b'0' ∷ b'}' ∷ b'!' ∷ []) b'u'
      0x1F600 7 braced_run

-- a line that is indented by two spaces, in a language with an offside rule
abbrev indented : Lexer
indented = record {
  source = record {
    bytes = b' ' ∷ b' ' ∷ b'x' ∷ b'\n' ∷ [];
    filename = none;
    newline_flags = 7;
    line_offsets = none;
    line_count = 0;
  };
  config = record {
    is_ident_start = none;
    is_ident_cont = none;
    numbers = record { flags = 0; suffixes = [] };
    comments = [];
    operators = [];
    keywords = [];
    soft_keywords = [];
    offside = some (record { unit = spaces; dedent_on_lower_or_equal = false });
    auto_semi = none;
    newline_flags = 0;
    keep_doc_comments = false;
    keep_comments = false;
    strings = [];
    emit_newlines = false;
  };
  tokens = record { items = []; cap = 16 };
  diags = none;
  pos = 0;
  indents = [];
  last_significant_index = 0;
  at_line_start = true;
  line_has_significant = false;
}

abbrev memory : ℕ → Bool
memory n = true

indented-Laid : Laid indented
indented-Laid =
    (record { fits = ground arith; cap_le = ground arith }, tt, ground arith, ground arith)

lines_keep_layout_example :
    After Laid (handle_offside_line_start memory indented)
    × After Laid (finish_physical_line memory indented)
lines_keep_layout_example = lines_keep_layout memory indented tt indented-Laid

-- that line, its token, and its end
abbrev token : ℕ → ℕ → ℕ → Token
token kind at_ n = record { kind = kind; span = span_make at_ n; v = 0 }

abbrev open_level : Lexer
open_level = record indented {
  tokens = record { items = token Kind.indent 2 0 ∷ []; cap = 16 };
  pos = 2;
  indents = 2 ∷ [];
}

abbrev with_name : Lexer
with_name = record open_level {
  tokens = record { items = token Kind.indent 2 0 ∷ token Kind.ident 2 1 ∷ []; cap = 16 };
  pos = 3;
  last_significant_index = 1;
  at_line_start = false;
  line_has_significant = true;
}

abbrev line_end : Lexer
line_end = record with_name {
  tokens = record {
    items = token Kind.indent 2 0 ∷ token Kind.ident 2 1 ∷ token Kind.newline 3 1 ∷ [];
    cap = 16;
  };
  pos = 4;
  at_line_start = true;
  line_has_significant = false;
}

opens_run : handle_offside_line_start memory indented ≡ some open_level
unfolding handle_offside_line_start set_indent open_indent skip_indent scan_indent
    indentation_col_after_byte emit_token token_vec_push comment_starts newline_len_at
    source_newline_len newline_at lf_follows has_bit
opens_run = refl

with_name-Scanned : Scanned open_level with_name
with_name-Scanned = record {
  valid = record { fits = ground arith; cap_le = ground arith };
  same_config = refl;
  same_stack = refl;
  same_indents = ground arith;
  same_dedents = ground arith;
}

ends_run : finish_physical_line memory with_name ≡ some line_end
unfolding finish_physical_line maybe_emit_auto_semicolon emit_newline_if emit_token token_vec_push
    newline_len_at source_newline_len newline_at lf_follows has_bit
ends_run = refl

finish_run-Closed_example : After Closed (finish_eof_layout memory line_end)
finish_run-Closed_example =
    finish_run-Closed memory indented.source indented.config indented.tokens none
      (record { fits = ground arith; cap_le = ground arith }) refl tt refl
      (next (next (next begun (line_starts opens_run)) (scans with_name-Scanned))
        (line_ends ends_run))

-- what these runs leave
abbrev indents_after : Option Lexer → Option (List ℕ × ℕ)
indents_after none = none
indents_after (some lex) = some (lex.indents, length lex.tokens.items)

indent_run : indents_after (handle_offside_line_start memory indented) ≡ some (2 ∷ [], 1)
unfolding handle_offside_line_start set_indent open_indent skip_indent scan_indent
    indentation_col_after_byte emit_token token_vec_push comment_starts newline_len_at
    source_newline_len newline_at lf_follows has_bit
indent_run = refl

eof_run : indents_after (finish_eof_layout memory line_end) ≡ some ([], 4)
unfolding finish_eof_layout drain_offside drain_indentation pop_indent emit_newline_if
    maybe_emit_auto_semicolon emit_token token_vec_push
eof_run = refl

-- a language with nested block comments, the operators `<` and `<<`, and the keyword `let`
abbrev block_rule : CommentRule
block_rule = record {
  open_text = b'(' ∷ b'*' ∷ [];
  close_text = b'*' ∷ b')' ∷ [];
  nest = true;
  is_doc = false;
}

abbrev scanning : List ℕ → Lexer
scanning text = record indented {
  source = record indented.source { bytes = text };
  config = record indented.config {
    comments = block_rule ∷ [];
    operators =
        (record { text = b'<' ∷ []; id = 1 }) ∷ (record { text = b'<' ∷ b'<' ∷ []; id = 2 }) ∷ [];
    keywords = (record { text = b'l' ∷ b'e' ∷ b't' ∷ []; id = 7 }) ∷ [];
    keep_comments = true;
  };
}

-- the end, the kind and the value of the token that a scanner emits
abbrev emitted : ScanResult → Option (ℕ × ℕ × ℕ)
emitted no_match = none
emitted oom = none
emitted (matched lex) = elim (get_elem? lex.tokens.items 0) [
  | none ↦ none
  | some token ↦ some (lex.pos, token.kind, token.v)
]

-- `(*(**)*)` is one comment, `(*(**)` a malformed one, `<<` one operator, and `let` a keyword
nested_run :
    emitted (
      try_scan_comment memory
        (scanning (b'(' ∷ b'*' ∷ b'(' ∷ b'*' ∷ b'*' ∷ b')' ∷ b'*' ∷ b')' ∷ b'x' ∷ [])))
    ≡ some (8, Kind.comment, 0)
unfolding try_scan_comment longest_match scan_comment skip_block block_turn end_block keep_comment
    match_lit_at emit_token token_vec_push
nested_run = refl

unterminated_run :
    emitted (try_scan_comment memory (scanning (b'(' ∷ b'*' ∷ b'(' ∷ b'*' ∷ b'*' ∷ b')' ∷ [])))
    ≡ some (6, Kind.invalid, 0)
unfolding try_scan_comment longest_match scan_comment skip_block block_turn end_block keep_comment
    match_lit_at emit_invalid push_diag emit_token token_vec_push
unterminated_run = refl

operator_run :
    emitted (try_scan_operator memory (scanning (b'<' ∷ b'<' ∷ b'=' ∷ []))) ≡ some (2, Kind.op, 2)
unfolding try_scan_operator match_longest_op longest_match match_lit_at emit_token token_vec_push
operator_run = refl

keyword_run :
    emitted (try_scan_identifier memory (scanning (b'l' ∷ b'e' ∷ b't' ∷ b' ' ∷ [])))
    ≡ some (3, Kind.keyword, 7)
unfolding try_scan_identifier munch emit_ident keyword_of is_soft emit_token token_vec_push
    utf8_decode utf8_lead_len ascii_is_ident_start ascii_is_ident_cont
keyword_run = refl

scanners_advance_example :
    Advances (scanning (b'<' ∷ [])) (try_scan_comment memory (scanning (b'<' ∷ [])))
    × Advances (scanning (b'<' ∷ [])) (try_scan_operator memory (scanning (b'<' ∷ [])))
    × Advances (scanning (b'<' ∷ [])) (try_scan_identifier memory (scanning (b'<' ∷ [])))
scanners_advance_example = scanners_advance memory (scanning (b'<' ∷ []))

abbrev in_comment : Lexer
in_comment = scanning (b'a' ∷ b'*' ∷ b')' ∷ [])

loops_end_example :
    BlockEnded (skip_block 3 block_rule in_comment 1)
    × ((not (at_eof (skip_line 3 in_comment)) && not (starts_newline (skip_line 3 in_comment)))
        ≡ false)
    × IdentEnded (munch 3 in_comment)
loops_end_example = loops_end block_rule in_comment 1 (ground arith) (ground arith)
