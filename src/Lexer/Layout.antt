-- ===== src/Lexer/Layout.antt =====
-- The newline-aware wrappers of src/lexer.c: the indentation stack, virtual semicolons, and the ends of
-- lines and of the source.
pub mod Laid
pub mod Balance
use kavak.Base.{
  ℕ, zero, suc, ◌+◌, ◌-◌, ◌*◌, ◌/◌, ◌%◌, Bool, true, false, not, ◌&&◌, ◌||◌, List, [], ◌∷◌, Option,
  none, some, ltb, leb, ◌==◌, if◌then◌else◌, length, get_elem?, bytes_eq, add32,
}
use kavak.Span.{span_make, span_from_to}
use kavak.Token.{Token}
use kavak.Token.Kind
use kavak.Lexer.{
  CommentRule, IndentUnit, spaces, tabs, both, Offside, AutoSemicolon, Config, Lexer, at_eof,
  newline_len_at, starts_newline, consume_newline, ahead, match_lit_at, emit_token, push_diag,
}

-- `KAVAK_MAX_INDENT_DEPTH`
abbrev pub max_indent_depth : ℕ
max_indent_depth = 128

-- the loop of `line_comment_starts_at`
unfoldable pub comment_starts : Lexer → ℕ → List CommentRule → Bool
comment_starts lex pos [] = false
comment_starts lex pos (rule ∷ rules) =
    (bytes_eq rule.close_text (b'\n' ∷ []) && match_lit_at lex pos rule.open_text)
    || comment_starts lex pos rules

abbrev pub line_comment_starts_at : Lexer → ℕ → Bool
line_comment_starts_at lex pos = comment_starts lex pos lex.config.comments

-- `indentation_col_after_byte`: the column, and `bad_unit`
abbrev pub tab_stop : ℕ → ℕ
tab_stop col = (add32 (col / 8) 1 * 8) % 4294967296

abbrev pub col_after_space : IndentUnit → ℕ → Bool → ℕ × Bool
col_after_space tabs col bad = (add32 col 1, true)
col_after_space spaces col bad = (add32 col 1, bad)
col_after_space both col bad = (add32 col 1, bad)

abbrev pub col_after_tab : IndentUnit → ℕ → Bool → ℕ × Bool
col_after_tab spaces col bad = (tab_stop col, true)
col_after_tab tabs col bad = (add32 col 1, bad)
col_after_tab both col bad = (tab_stop col, bad)

unfoldable pub indentation_col_after_byte : IndentUnit → ℕ → ℕ → Bool → ℕ × Bool
indentation_col_after_byte unit c col bad =
    if c == b' ' then col_after_space unit col bad else col_after_tab unit col bad

-- the loop over spaces and tabs: how many, the column, and `bad_unit`
unfoldable pub scan_indent : IndentUnit → List ℕ → ℕ → ℕ → Bool → ℕ × ℕ × Bool
unfolding indentation_col_after_byte
scan_indent unit [] n col bad = (n, col, bad)
scan_indent unit (c ∷ s) n col bad =
    let r = indentation_col_after_byte unit c col bad in
    let more = scan_indent unit s (n + 1) r.0 r.1 in
    if c == b' ' || c == 0x09 then more else (n, col, bad)

-- `indent_stack[indent_top]`
abbrev pub current : List ℕ → ℕ
current [] = 0
current (i ∷ indents) = i

-- `emit_indent_token`
abbrev pub emit_indent_token : (ℕ → Bool) → Lexer → ℕ → ℕ → Option Lexer
emit_indent_token mem lex kind pos = emit_token mem lex kind (span_make pos 0) 0

-- a deeper column
unfoldable pub open_indent : (ℕ → Bool) → Lexer → ℕ → Option Lexer
open_indent mem lex col =
    if leb max_indent_depth (length lex.indents + 1)
    then some (push_diag mem lex (span_make lex.pos 0) "indentation nesting too deep")
    else emit_indent_token mem (record lex { indents = col ∷ lex.indents }) Kind.indent lex.pos

-- a level that is given up, at a position
unfoldable pub pop_indent : (ℕ → Bool) → Lexer → List ℕ → ℕ → Option Lexer
pop_indent mem lex indents pos =
    emit_indent_token mem (record lex { indents = indents }) Kind.dedent pos

-- the loop over the levels that are deeper than the column, on the entries of the stack
unfoldable pub pop_deeper : (ℕ → Bool) → List ℕ → ℕ → Lexer → Option Lexer
unfolding pop_indent
pop_deeper mem [] col lex = some lex
pop_deeper mem (i ∷ indents) col lex =
    if ltb col i
    then elim (pop_indent mem lex indents lex.pos) [
      | none ↦ none
      | some lex' ↦ pop_deeper mem indents col lex'
    ]
    else some lex

-- the test behind it, unless a level was closed
unfoldable pub check_dedent : (ℕ → Bool) → Lexer → ℕ → Lexer
check_dedent mem lex col =
    if not (col == current lex.indents)
    then push_diag mem lex (span_make lex.pos 0) "misaligned dedent"
    else lex

-- the close of a level at the same column
unfoldable pub close_equal : (ℕ → Bool) → Bool → Lexer → List ℕ → ℕ → Option Lexer
unfolding check_dedent pop_indent
close_equal mem closes lex [] col = some (check_dedent mem lex col)
close_equal mem closes lex (i ∷ indents) col =
    if closes && col == i
    then pop_indent mem lex indents lex.pos
    else some (check_dedent mem lex col)

-- a column that is not deeper
unfoldable pub close_indents : (ℕ → Bool) → Offside → Lexer → ℕ → Option Lexer
unfolding pop_deeper close_equal
close_indents mem offside lex col = elim (pop_deeper mem lex.indents col lex) [
  | none ↦ none
  | some lex' ↦ close_equal mem offside.dedent_on_lower_or_equal lex' lex'.indents col
]

-- the line behind its indentation
unfoldable pub set_indent : (ℕ → Bool) → Offside → Lexer → ℕ → Option Lexer
unfolding open_indent close_indents
set_indent mem offside lex col =
    if at_eof lex || (starts_newline lex || line_comment_starts_at lex lex.pos)
    then some lex
    else if ltb (current lex.indents) col
    then open_indent mem lex col
    else close_indents mem offside lex col

-- the spaces and tabs of a line, with the diagnostic on their unit
unfoldable pub skip_indent : (ℕ → Bool) → Lexer → ℕ → Bool → Lexer
skip_indent mem lex n bad =
    let moved = record lex { pos = lex.pos + n } in
    if bad
    then push_diag mem moved (span_from_to lex.pos moved.pos)
        "indentation uses a disallowed whitespace unit"
    else moved

-- `handle_offside_line_start`
unfoldable pub handle_offside_line_start : (ℕ → Bool) → Lexer → Option Lexer
unfolding set_indent skip_indent
handle_offside_line_start mem lex = elim lex.config.offside [
  | none ↦ some lex
  | some offside ↦
      let r = scan_indent offside.unit (ahead lex) 0 0 false in
      if not lex.at_line_start
      then some lex
      else set_indent mem offside (skip_indent mem lex r.0 r.2) r.1
]

-- `maybe_emit_auto_semicolon`
unfoldable pub semicolon_after :
    (ℕ → Bool) → Lexer → AutoSemicolon → Option Token → ℕ → Option Lexer
semicolon_after mem lex auto_semi none pos = some lex
semicolon_after mem lex auto_semi (some token) pos = elim auto_semi.is_terminating [
  | none ↦ some lex
  | some is_terminating ↦
      if is_terminating token && lex.line_has_significant
      then emit_token mem lex auto_semi.emit_kind (span_make pos 0) auto_semi.emit_v
      else some lex
]

unfoldable pub maybe_emit_auto_semicolon : (ℕ → Bool) → Lexer → ℕ → Option Lexer
unfolding semicolon_after
maybe_emit_auto_semicolon mem lex pos = elim lex.config.auto_semi [
  | none ↦ some lex
  | some auto_semi ↦
      semicolon_after mem lex auto_semi (get_elem? lex.tokens.items lex.last_significant_index) pos
]

abbrev pub is_offside : Lexer → Bool
is_offside lex = elim lex.config.offside [ none ↦ false | some offside ↦ true ]

-- a NEWLINE token, where a condition asks for it
unfoldable pub emit_newline_if : (ℕ → Bool) → Bool → ℕ → ℕ → Lexer → Option Lexer
emit_newline_if mem wanted pos n lex =
    if wanted then emit_token mem lex Kind.newline (span_make pos n) 0 else some lex

-- `finish_physical_line`
abbrev pub end_line : Option Lexer → Option Lexer
end_line none = none
end_line (some lex) =
    some (record (consume_newline lex) { at_line_start = true; line_has_significant = false })

unfoldable pub finish_physical_line : (ℕ → Bool) → Lexer → Option Lexer
unfolding maybe_emit_auto_semicolon emit_newline_if
finish_physical_line mem lex = elim (maybe_emit_auto_semicolon mem lex lex.pos) [
  | none ↦ none
  | some lex' ↦ end_line (
      emit_newline_if mem
        (lex'.config.emit_newlines || (is_offside lex' && lex'.line_has_significant)) lex.pos
        (newline_len_at lex lex.pos) lex')
]

-- `drain_indentation`, on the entries of the stack
unfoldable pub drain_indentation : (ℕ → Bool) → List ℕ → ℕ → Lexer → Option Lexer
unfolding pop_indent
drain_indentation mem [] pos lex = some lex
drain_indentation mem (i ∷ indents) pos lex = elim (pop_indent mem lex indents pos) [
  | none ↦ none
  | some lex' ↦ drain_indentation mem indents pos lex'
]

-- `finish_eof_layout`
abbrev pub end_source : Option Lexer → Option Lexer
end_source none = none
end_source (some lex) = some (record lex { line_has_significant = false })

unfoldable pub drain_offside : (ℕ → Bool) → Bool → ℕ → Lexer → Option Lexer
unfolding drain_indentation
drain_offside mem offside pos lex =
    if offside then drain_indentation mem lex.indents pos lex else some lex

unfoldable pub finish_eof_layout : (ℕ → Bool) → Lexer → Option Lexer
unfolding maybe_emit_auto_semicolon emit_newline_if drain_offside
finish_eof_layout mem lex = elim (maybe_emit_auto_semicolon mem lex lex.pos) [
  | none ↦ none
  | some lex' ↦
      elim (emit_newline_if mem (is_offside lex' && lex'.line_has_significant) lex.pos 0 lex') [
        | none ↦ none
        | some lex'' ↦ end_source (drain_offside mem (is_offside lex'') lex.pos lex'')
      ]
]
