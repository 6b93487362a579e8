-- ===== src/Lexer/Driver/Lines.antt =====
-- The layout of lines of src/lexer.c does not go back, and the end of a line takes it.
use Prim.Native.String.{String}
use kavak.Base.{
  ℕ, suc, ◌+◌, ◌≡◌, refl, ap, ◌∙◌, Bool, true, false, not, ◌&&◌, ◌||◌, List, [], ◌∷◌, Option, none,
  some, ltb, leb, ◌==◌, if◌then◌else◌, length, arith, get_elem?,
}
use kavak.Span.{Span, span_make, span_from_to}
use kavak.Token.{Token, TokenVec, token_vec_push}
use kavak.Token.Kind
use kavak.Source.{len, source_newline_len}
use kavak.Lexer.{
  Offside, AutoSemicolon, Lexer, at_eof, ahead, starts_newline, newline_len_at, newline_flags_of,
  with_tokens, emit_token, push_diag,
}
use kavak.Lexer.Layout.{
  max_indent_depth, line_comment_starts_at, scan_indent, current, open_indent, pop_indent,
  pop_deeper, check_dedent, close_equal, close_indents, set_indent, skip_indent,
  handle_offside_line_start, semicolon_after, maybe_emit_auto_semicolon, is_offside,
  emit_newline_if, end_line, finish_physical_line,
}
use kavak.Lexer.Layout.Laid.{After, then-After, After-map}
use kavak.Lexer.Strings.Progress.{Past, emit_token-Past, push_diag-Past}

pub if-After :
    (P : Lexer → Type 0) (b : Bool) (x y : Option Lexer)
    → After P x
    → After P y
    → After P (if b then x else y)
if-After P true x y hx hy = hx
if-After P false x y hx hy = hy

module _ (mem : ℕ → Bool) (n low : ℕ) where
  pop_indent-Past :
      (lex : Lexer) (indents : List ℕ) (pos : ℕ)
      → Past n low lex
      → After (Past n low) (pop_indent mem lex indents pos)
  unfolding pop_indent
  pop_indent-Past lex indents pos h =
      emit_token-Past mem n low (record lex { indents = indents }) Kind.dedent (span_make pos 0) 0 h

  pop_deeper-Past :
      (indents : List ℕ) (col : ℕ) (lex : Lexer)
      → Past n low lex
      → After (Past n low) (pop_deeper mem indents col lex)
  unfolding pop_deeper
  pop_deeper-Past [] col lex h = h
  pop_deeper-Past (i ∷ indents) col lex h =
      if-After (Past n low) (ltb col i) _ _
        (then-After (Past n low) (Past n low) (pop_indent mem lex indents lex.pos)
          (pop_deeper mem indents col) (pop_indent-Past lex indents lex.pos h)
          (λ lex' h'. pop_deeper-Past indents col lex' h'))
        h

  check_dedent-Past :
      (lex : Lexer) (col : ℕ) → Past n low lex → Past n low (check_dedent mem lex col)
  unfolding check_dedent
  check_dedent-Past lex col h =
      elim (not (col == current lex.indents))
        as (λ b.
          Past n low
            (if b then push_diag mem lex (span_make lex.pos 0) "misaligned dedent" else lex)) [
              | true ↦ push_diag-Past mem n low lex (span_make lex.pos 0) "misaligned dedent" h
              | false ↦ h
            ]

  close_equal-Past :
      (closes : Bool) (lex : Lexer) (indents : List ℕ) (col : ℕ)
      → Past n low lex
      → After (Past n low) (close_equal mem closes lex indents col)
  unfolding close_equal
  close_equal-Past closes lex [] col h = check_dedent-Past lex col h
  close_equal-Past closes lex (i ∷ indents) col h =
      if-After (Past n low) (closes && col == i) _ _ (pop_indent-Past lex indents lex.pos h)
        (check_dedent-Past lex col h)

  set_indent-Past :
      (offside : Offside) (lex : Lexer) (col : ℕ)
      → Past n low lex
      → After (Past n low) (set_indent mem offside lex col)
  unfolding set_indent open_indent close_indents
  set_indent-Past offside lex col h =
      if-After (Past n low)
        (at_eof lex || (starts_newline lex || line_comment_starts_at lex lex.pos)) _ _ h
        (if-After (Past n low) (ltb (current lex.indents) col) _ _
          (if-After (Past n low) (leb max_indent_depth (length lex.indents + 1)) _ _
            (push_diag-Past mem n low lex (span_make lex.pos 0) "indentation nesting too deep" h)
            (emit_token-Past mem n low (record lex { indents = col ∷ lex.indents }) Kind.indent
              (span_make lex.pos 0) 0 h))
          (then-After (Past n low) (Past n low) (pop_deeper mem lex.indents col lex)
            (λ (lex' : Lexer).
              close_equal mem offside.dedent_on_lower_or_equal lex' lex'.indents col)
            (pop_deeper-Past lex.indents col lex h)
            (λ lex' h'.
              close_equal-Past offside.dedent_on_lower_or_equal lex' lex'.indents col h')))

  skip_indent-Past :
      (lex : Lexer) (k : ℕ) (bad : Bool) → Past n low lex → Past n low (skip_indent mem lex k bad)
  unfolding skip_indent
  skip_indent-Past lex k bad h =
      let moved = record lex { pos = lex.pos + k } in
      let message : String = "indentation uses a disallowed whitespace unit" in
      elim bad
        as (λ b.
          Past n low
            (if b then push_diag mem moved (span_from_to lex.pos moved.pos) message else moved)) [
              | true ↦
                  push_diag-Past mem n low moved (span_from_to lex.pos moved.pos) message
                    (ground (arith, h))
              | false ↦ ground (arith, h)
            ]

  pub handle_offside-Past :
      (lex : Lexer) → Past n low lex → After (Past n low) (handle_offside_line_start mem lex)
  unfolding handle_offside_line_start
  handle_offside-Past lex h =
      elim lex.config.offside
        as (λ o. After (Past n low) (elim o [
          | none ↦ some lex
          | some offside ↦
              let r = scan_indent offside.unit (ahead lex) 0 0 false in
              if not lex.at_line_start
              then some lex
              else set_indent mem offside (skip_indent mem lex r.0 r.2) r.1
        ])) [
          | none ↦ h
          | some offside ↦
              let r = scan_indent offside.unit (ahead lex) 0 0 false in
              if-After (Past n low) (not lex.at_line_start) _ _ h (
                set_indent-Past offside (skip_indent mem lex r.0 r.2) r.1
                  (skip_indent-Past lex r.0 r.2 h))
        ]

-- A state that differs in what was emitted only.
abbrev SameView : Lexer → Lexer → Type 0
SameView lex lex' = (lex'.pos ≡ lex.pos) × (lex'.source ≡ lex.source) × (lex'.config ≡ lex.config)

with_tokens-SameView :
    (lex : Lexer) (r : Option TokenVec) → After (SameView lex) (with_tokens lex r)
with_tokens-SameView lex none = tt
with_tokens-SameView lex (some t) = (refl, refl, refl)

emit_token-SameView :
    (mem : ℕ → Bool) (lex : Lexer) (kind : ℕ) (span : Span) (v : ℕ)
    → After (SameView lex) (emit_token mem lex kind span v)
unfolding emit_token
emit_token-SameView mem lex kind span v =
    with_tokens-SameView lex
      (token_vec_push mem lex.tokens (record { kind = kind; span = span; v = v }))

semicolon-SameView :
    (mem : ℕ → Bool) (lex : Lexer) (auto_semi : AutoSemicolon) (token : Option Token) (pos : ℕ)
    → After (SameView lex) (semicolon_after mem lex auto_semi token pos)
unfolding semicolon_after
semicolon-SameView mem lex auto_semi none pos = (refl, refl, refl)
semicolon-SameView mem lex auto_semi (some token) pos =
    elim auto_semi.is_terminating
      as (λ o. After (SameView lex) (elim o [
        | none ↦ some lex
        | some is_terminating ↦
            if is_terminating token && lex.line_has_significant
            then emit_token mem lex auto_semi.emit_kind (span_make pos 0) auto_semi.emit_v
            else some lex
      ])) [
        | none ↦ (refl, refl, refl)
        | some is_terminating ↦
            if-After (SameView lex) (is_terminating token && lex.line_has_significant) _ _
              (emit_token-SameView mem lex auto_semi.emit_kind (span_make pos 0) auto_semi.emit_v)
              (refl, refl, refl)
      ]

auto_semicolon-SameView :
    (mem : ℕ → Bool) (lex : Lexer) (pos : ℕ)
    → After (SameView lex) (maybe_emit_auto_semicolon mem lex pos)
unfolding maybe_emit_auto_semicolon
auto_semicolon-SameView mem lex pos =
    elim lex.config.auto_semi
      as (λ o. After (SameView lex) (elim o [
        | none ↦ some lex
        | some auto_semi ↦
            semicolon_after mem lex auto_semi
              (get_elem? lex.tokens.items lex.last_significant_index) pos
      ])) [
        | none ↦ (refl, refl, refl)
        | some auto_semi ↦
            semicolon-SameView mem lex auto_semi
              (get_elem? lex.tokens.items lex.last_significant_index) pos
      ]

newline_if-SameView :
    (mem : ℕ → Bool) (wanted : Bool) (pos k : ℕ) (lex lex' : Lexer)
    → SameView lex lex'
    → After (SameView lex) (emit_newline_if mem wanted pos k lex')
unfolding emit_newline_if
newline_if-SameView mem wanted pos k lex lex' h =
    if-After (SameView lex) wanted _ _
      (After-map (SameView lex') (SameView lex)
        (emit_token mem lex' Kind.newline (span_make pos k) 0)
        (emit_token-SameView mem lex' Kind.newline (span_make pos k) 0)
        (λ l e. (e.0 ∙ h.0, e.1 ∙ h.1, e.2 ∙ h.2)))
      h

same_newline :
    (lex lex' : Lexer)
    → SameView lex lex'
    → newline_len_at lex' lex'.pos ≡ newline_len_at lex lex.pos
unfolding newline_len_at
same_newline lex lex' h = λ i.
    source_newline_len (h.1 i) (h.0 i)
      (newline_flags_of (record lex { source = h.1 i; config = h.2 i }))

end_line-Past :
    (lex : Lexer) (o : Option Lexer)
    → starts_newline lex ≡ true
    → After (SameView lex) o
    → After (Past (len lex.source) (suc lex.pos)) (end_line o)
end_line-Past lex none starts h = tt
end_line-Past lex (some lex') starts h =
    let same = same_newline lex lex' h in (ground (arith, starts, same, h.0), ap len h.1)

pub finish_physical_line-Past :
    (mem : ℕ → Bool) (lex : Lexer)
    → starts_newline lex ≡ true
    → After (Past (len lex.source) (suc lex.pos)) (finish_physical_line mem lex)
unfolding finish_physical_line
finish_physical_line-Past mem lex starts =
    then-After (SameView lex) (Past (len lex.source) (suc lex.pos))
      (maybe_emit_auto_semicolon mem lex lex.pos)
      (λ (lex' : Lexer). end_line (
        emit_newline_if mem
          (lex'.config.emit_newlines || (is_offside lex' && lex'.line_has_significant)) lex.pos
          (newline_len_at lex lex.pos) lex'))
      (auto_semicolon-SameView mem lex lex.pos)
      (λ lex' h'. end_line-Past lex _ starts (
        newline_if-SameView mem
          (lex'.config.emit_newlines || (is_offside lex' && lex'.line_has_significant)) lex.pos
          (newline_len_at lex lex.pos) lex lex' h'))
