-- ===== src/Lexer/Driver.antt =====
-- `kavak_lex` of src/lexer.c. `none` is a run that the fuel has ended; inside it, `none` is the result -1.
pub mod Lines
pub mod Balanced
pub mod Tokens
pub mod Reached
pub mod Steps
pub mod Ends
use kavak.Base.{
  ℕ, zero, suc, ◌+◌, ◌-◌, Bool, true, false, not, ◌&&◌, ◌||◌, List, [], ◌∷◌, Option, none, some,
  ltb, leb, ◌==◌, if◌then◌else◌, length, uint32_max,
}
use kavak.Span.{span_make}
use kavak.Token.{TokenVec, count}
use kavak.Token.Kind
use kavak.Diag.{DiagVec}
use kavak.Source.{Source, len}
use kavak.Lexer.{
  CommentRule, StringRule, Word, Config, Lexer, at_eof, starts_newline, skip_inline_whitespace,
  emit_token, emit_invalid, push_diag, note_emitted_tokens,
}
use kavak.Lexer.Layout.{
  max_indent_depth, handle_offside_line_start, finish_physical_line, finish_eof_layout, is_offside,
}
use kavak.Lexer.Scan.{ScanResult, no_match, matched, oom, moved}
use kavak.Lexer.Strings.{skip_whitespace}
use kavak.Lexer.Strings.Literal.{scan_token}

-- `lexer_config_valid`: no text is empty
abbrev pub all_words : List Word → Bool
all_words [] = true
all_words (w ∷ ws) = not (length w.text == 0) && all_words ws

abbrev pub all_comments : List CommentRule → Bool
all_comments [] = true
all_comments (r ∷ rs) =
    not (length r.open_text == 0) && (not (length r.close_text == 0) && all_comments rs)

abbrev pub all_strings : List StringRule → Bool
all_strings [] = true
all_strings (r ∷ rs) =
    not (length r.open_text == 0) && (not (length r.close_text == 0) && all_strings rs)

unfoldable pub lexer_config_valid : Config → Bool
lexer_config_valid config =
    all_words config.keywords
    && (all_words config.operators && (all_comments config.comments && all_strings config.strings))

-- `newline_aware`
abbrev pub newline_aware : Lexer → Bool
newline_aware lex =
    is_offside lex
    || (elim lex.config.auto_semi [ none ↦ false | some semi ↦ true ] || lex.config.emit_newlines)

-- a turn of the loop: the result -1, a `break`, or the next turn
pub data Step : Type 0 where
  fails : Step
  breaks : Lexer → Step
  goes_on : Lexer → Step

abbrev pub noted : ℕ → Option Lexer → Step
noted first none = fails
noted first (some lex) = goes_on (note_emitted_tokens lex first)

-- a token, or a byte that no scanner claims
unfoldable pub after_scan : (ℕ → Bool) → Lexer → Option ScanResult → Option Step
after_scan mem lex none = none
after_scan mem lex (some oom) = some fails
after_scan mem lex (some (matched lex')) = some (noted (count lex.tokens) (some lex'))
after_scan mem lex (some no_match) =
    some (noted (count lex.tokens) (emit_invalid mem (moved lex 1) lex.pos "unknown character"))

abbrev pub on_line : Lexer → Lexer
on_line lex = record lex { at_line_start = false }

unfoldable pub token_step : (ℕ → Bool) → Lexer → Option Step
unfolding after_scan
token_step mem lex = after_scan mem (on_line lex) (scan_token mem (on_line lex))

-- a line, behind its indentation
abbrev pub or_fails : Option Lexer → Step
or_fails none = fails
or_fails (some lex) = goes_on lex

unfoldable pub line_step : (ℕ → Bool) → Option Lexer → Option Step
unfolding token_step
line_step mem none = some fails
line_step mem (some indented) =
    let lex = skip_inline_whitespace indented in
    if at_eof lex
    then some (breaks lex)
    else if starts_newline lex
    then some (or_fails (finish_physical_line mem lex))
    else token_step mem lex

unfoldable pub plain_step : (ℕ → Bool) → Lexer → Option Step
unfolding token_step
plain_step mem lex = if at_eof lex then some (breaks lex) else token_step mem lex

unfoldable pub lex_step : (ℕ → Bool) → Lexer → Option Step
unfolding line_step plain_step
lex_step mem lex =
    if leb (uint32_max - (max_indent_depth + 4)) (count lex.tokens)
    then some (
        breaks
          (push_diag mem lex (span_make lex.pos 0) "source exceeds the token limit; truncated"))
    else if newline_aware lex
    then line_step mem (if lex.at_line_start then handle_offside_line_start mem lex else some lex)
    else plain_step mem (skip_whitespace (len lex.source - lex.pos) lex)

-- the loop
abbrev pub Lexed : Type 0
Lexed = Option (Option Lexer)

unfoldable pub then_lex : (Lexer → Lexed) → Option Step → Lexed
then_lex f none = none
then_lex f (some fails) = some none
then_lex f (some (breaks lex)) = some (some lex)
then_lex f (some (goes_on lex)) = f lex

unfoldable pub lex_loop : (ℕ → Bool) → ℕ → Lexer → Lexed
unfolding lex_step then_lex
lex_loop mem zero lex = none
lex_loop mem (suc fuel) lex = then_lex (lex_loop mem fuel) (lex_step mem lex)

-- the end of the source
abbrev pub emit_eof : (ℕ → Bool) → Option Lexer → Option Lexer
emit_eof mem none = none
emit_eof mem (some lex) = emit_token mem lex Kind.eof (span_make lex.pos 0) 0

unfoldable pub finish_lex : (ℕ → Bool) → Lexed → Lexed
finish_lex mem none = none
finish_lex mem (some none) = some none
finish_lex mem (some (some lex)) =
    some (emit_eof mem (if newline_aware lex then finish_eof_layout mem lex else some lex))

abbrev pub lexer_init : Source → Config → TokenVec → Option DiagVec → Lexer
lexer_init source config tokens diags = record {
  source = source;
  config = config;
  tokens = tokens;
  diags = diags;
  pos = 0;
  indents = [];
  last_significant_index = 0;
  at_line_start = true;
  line_has_significant = false;
}

-- `kavak_lex`
unfoldable pub kavak_lex : (ℕ → Bool) → Source → Config → TokenVec → Option DiagVec → Lexed
unfolding lex_loop finish_lex
kavak_lex mem source config tokens diags =
    if not (lexer_config_valid config)
    then some none
    else if ltb uint32_max (len source)
    then some none
    else finish_lex mem (lex_loop mem (suc (len source)) (lexer_init source config tokens diags))
