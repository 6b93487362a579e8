-- ===== src/Pipeline/Tests.antt =====
-- A run of `kavak_lex` on the template string "a$b", whose tokens go to the parser.
use kavak.Base.{ℕ, ◌≡◌, refl, true, false, [], ◌∷◌, arith, none, some, has_bit}
use kavak.Span.{span_make, span_from_to}
use kavak.Token.{Token, TokenVec, token_vec_push}
use kavak.Token.Kind
use kavak.Source.{Source, len, source_newline_len, newline_at}
use kavak.Utf8.{utf8_decode, ascii_is_ident_start, ascii_is_ident_cont}
use kavak.Arena.{Arena}
use kavak.Parser.{parser_new}
use kavak.Parser.Nodes.{Env}
use kavak.Pipeline.{Feeds, kavak_lex-Feeds}
use kavak.Lexer.{
  StringRule, Config, Lexer, newline_len_at, match_lit_at, emit_token, note_emitted_tokens,
}
use kavak.Lexer.Scan.{try_scan_comment, try_scan_identifier}
use kavak.Lexer.Strings.{skip_whitespace, interp_marker_starts_interpolation}
use kavak.Lexer.Strings.Literal.{scan_token}
use kavak.Lexer.Driver.{kavak_lex, lexer_config_valid}
use kavak.Lexer.Driver.Ends.{Closes, kavak_lex-Closes}

abbrev template : StringRule
template = record {
  open_text = b'"' ∷ [];
  close_text = b'"' ∷ [];
  flags = 2;
  interp_open = b'$' ∷ [];
  interp_close = none;
  escapes = [];
  fragment_kind = 0;
  interp_open_kind = 0;
  interp_close_kind = 0;
  bare_ident_kind = 0;
}

abbrev language : Config
language = record {
  is_ident_start = none;
  is_ident_cont = none;
  numbers = record { flags = 0; suffixes = [] };
  comments = [];
  strings = template ∷ [];
  operators = [];
  keywords = [];
  soft_keywords = [];
  offside = none;
  auto_semi = none;
  newline_flags = 0;
  keep_doc_comments = false;
  keep_comments = false;
  emit_newlines = false;
}

abbrev source : Source
source = record {
  bytes = b'"' ∷ b'a' ∷ b'$' ∷ b'b' ∷ b'"' ∷ [];
  filename = none;
  newline_flags = 7;
  line_offsets = none;
  line_count = 0;
}

abbrev vec : TokenVec
vec = record { items = []; cap = 16 }

abbrev token : ℕ → ℕ → ℕ → Token
token kind at_ n = record { kind = kind; span = span_make at_ n; v = 0 }

abbrev lexed : Lexer
lexed = record {
  source = source;
  config = language;
  tokens = record {
    items =
        token Kind.string 0 2
        ∷ token Kind.ident 3 1
        ∷ token Kind.string 4 1
        ∷ token Kind.eof 5 0
        ∷ [];
    cap = 16;
  };
  diags = none;
  pos = 5;
  indents = [];
  last_significant_index = 2;
  at_line_start = false;
  line_has_significant = true;
}

template_run : kavak_lex (λ n. true) source language vec none ≡ some (some lexed)
unfolding kavak_lex lexer_config_valid skip_whitespace newline_len_at source_newline_len newline_at
    has_bit scan_token try_scan_comment match_lit_at utf8_decode interp_marker_starts_interpolation
    ascii_is_ident_start ascii_is_ident_cont emit_token token_vec_push try_scan_identifier
    note_emitted_tokens span_from_to
template_run = refl

kavak_lex-Closes_example : Closes (len source) (kavak_lex (λ n. true) source language vec none)
kavak_lex-Closes_example = kavak_lex-Closes (λ n. true) source language vec none

abbrev env : Env
env = record {
  mem = λ n. true;
  calloc = λ n. some 4096;
  operators = [];
  parse_primary = none;
  parse_postfix = none;
}

abbrev arena : Arena
arena = record { chunks = []; chunk_size = 4096; total_used = 0 }

kavak_lex-Feeds_example : Feeds env arena (parser_new true (some source) lexed.tokens.items none)
kavak_lex-Feeds_example =
    kavak_lex-Feeds env (λ n. true) source language vec none none arena lexed tt tt template_run
      (omega arith)
