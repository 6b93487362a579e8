-- ===== src/Lexer/Layout/Balance.antt =====
-- The line and source events of src/lexer.c keep the indentation laid out, and the end balances it.
use kavak.Base.{
  ℕ, ◌+◌, ◌≡◌, ◌≢◌, inl, inr, refl, sym, ap, ◌∙◌, Bool, true, false, not, ◌&&◌, ◌||◌, List, [], ◌∷◌,
  Option, none, some, ltb, ◌==◌, length, get_elem?, arith, Bool-cases, Option-cases,
}
use kavak.Span.{span_make, span_from_to}
use kavak.Token.{Token}
use kavak.Token.Kind
use kavak.Lexer.{
  Config, Offside, AutoSemicolon, Lexer, at_eof, newline_len_at, starts_newline, ahead,
}
use kavak.Lexer.Layout.{
  line_comment_starts_at, scan_indent, current, pop_indent, pop_deeper, check_dedent, close_equal,
  close_indents, set_indent, skip_indent, handle_offside_line_start, semicolon_after,
  maybe_emit_auto_semicolon, is_offside, emit_newline_if, end_line, finish_physical_line,
  drain_indentation, end_source, drain_offside, finish_eof_layout,
}
use kavak.Lexer.Layout.Laid.{
  count_kind, Laid, LaidIn, After, PlainSemicolon, then-After, After-map, push_diag-LaidIn,
  emit_other-LaidIn, pop_indent-LaidIn, open_indent-LaidIn, pop_deeper-LaidIn,
}

module _ (config : Config) (mem : ℕ → Bool) where
  check_dedent-LaidIn :
      (lex : Lexer) (col : ℕ) → LaidIn config lex → LaidIn config (check_dedent mem lex col)
  unfolding check_dedent
  check_dedent-LaidIn lex col h = elim (Bool-cases (not (col == current lex.indents))) [
    | inl apart ↦
        rw (apart, check_dedent)
          (push_diag-LaidIn config mem lex (span_make lex.pos 0) "misaligned dedent" h)
    | inr aligned ↦ rw (aligned, check_dedent) h
  ]

  close_equal-LaidIn :
      (closes : Bool) (lex : Lexer) (indents : List ℕ) (col : ℕ)
      → lex.indents ≡ indents
      → LaidIn config lex
      → After (LaidIn config) (close_equal mem closes lex indents col)
  unfolding close_equal
  close_equal-LaidIn closes lex [] col e h = check_dedent-LaidIn lex col h
  close_equal-LaidIn closes lex (i ∷ indents) col e h = elim (Bool-cases (closes && col == i)) [
    | inr other ↦ rw (other, close_equal) (check_dedent-LaidIn lex col h)
    | inl equal ↦
        rw (equal, close_equal)
          (After-map (λ lex'. LaidIn config lex' × (lex'.indents ≡ indents)) (LaidIn config)
            (pop_indent mem lex indents lex.pos)
            (pop_indent-LaidIn config mem lex i indents lex.pos (rw e at h.0) h.1)
            (λ lex' h'. h'.0))
  ]

  close_indents-LaidIn :
      (offside : Offside) (lex : Lexer) (col : ℕ)
      → LaidIn config lex
      → After (LaidIn config) (close_indents mem offside lex col)
  unfolding close_indents
  close_indents-LaidIn offside lex col h =
      then-After (LaidIn config) (LaidIn config) (pop_deeper mem lex.indents col lex)
        (λ lex'. close_equal mem offside.dedent_on_lower_or_equal lex' lex'.indents col)
        (pop_deeper-LaidIn config mem lex.indents col lex refl h)
        (λ lex' h'.
          close_equal-LaidIn offside.dedent_on_lower_or_equal lex' lex'.indents col refl h')

  set_indent-LaidIn :
      (offside : Offside) (lex : Lexer) (col : ℕ)
      → LaidIn config lex
      → After (LaidIn config) (set_indent mem offside lex col)
  unfolding set_indent
  set_indent-LaidIn offside lex col h =
      elim (Bool-cases (at_eof lex || (starts_newline lex || line_comment_starts_at lex lex.pos))) [
        | inl blank ↦ rw (blank, set_indent) h
        | inr code ↦ elim (Bool-cases (ltb (current lex.indents) col)) [
          | inl deeper ↦
              rw (code, set_indent, deeper)
                (open_indent-LaidIn config mem lex col (ground (arith, deeper)) h)
          | inr level ↦ rw (code, set_indent, level) (close_indents-LaidIn offside lex col h)
        ]
      ]

  skip_indent-LaidIn :
      (lex : Lexer) (n : ℕ) (bad : Bool)
      → LaidIn config lex
      → LaidIn config (skip_indent mem lex n bad)
  unfolding skip_indent
  skip_indent-LaidIn lex n true h =
      push_diag-LaidIn config mem (record lex { pos = lex.pos + n })
        (span_from_to lex.pos (lex.pos + n)) "indentation uses a disallowed whitespace unit" h
  skip_indent-LaidIn lex n false h = h

  pub handle_offside-LaidIn :
      (lex : Lexer) → LaidIn config lex → After (LaidIn config) (handle_offside_line_start mem lex)
  unfolding handle_offside_line_start
  handle_offside-LaidIn lex h = elim (Option-cases lex.config.offside) [
    | inl none_ ↦ rw (none_, handle_offside_line_start) h
    | inr (offside, some_) ↦ elim (Bool-cases (not lex.at_line_start)) [
      | inl inside ↦ rw (some_, handle_offside_line_start, inside) h
      | inr start ↦
          let r = scan_indent offside.unit (ahead lex) 0 0 false in
          rw (some_, handle_offside_line_start, start)
            (set_indent-LaidIn offside (skip_indent mem lex r.0 r.2) r.1
              (skip_indent-LaidIn lex r.0 r.2 h))
    ]
  ]

  semicolon-LaidIn :
      (lex : Lexer) (auto_semi : AutoSemicolon) (token : Option Token) (pos : ℕ)
      → auto_semi.emit_kind ≢ Kind.indent
      → auto_semi.emit_kind ≢ Kind.dedent
      → LaidIn config lex
      → After (LaidIn config) (semicolon_after mem lex auto_semi token pos)
  unfolding semicolon_after
  semicolon-LaidIn lex auto_semi none pos a b h = h
  semicolon-LaidIn lex auto_semi (some token) pos a b h =
      elim (Option-cases auto_semi.is_terminating) [
        | inl none_ ↦ rw (none_, semicolon_after) h
        | inr (is_terminating, some_) ↦
            elim (Bool-cases (is_terminating token && lex.line_has_significant)) [
              | inr goes_on ↦ rw (some_, semicolon_after, goes_on) h
              | inl ends ↦
                  rw (some_, semicolon_after, ends)
                    (emit_other-LaidIn config mem lex auto_semi.emit_kind (span_make pos 0)
                      auto_semi.emit_v a b h)
            ]
      ]

  plain_kind :
      (auto_semi : AutoSemicolon)
      → config.auto_semi ≡ some auto_semi
      → PlainSemicolon config
      → (auto_semi.emit_kind ≢ Kind.indent) × (auto_semi.emit_kind ≢ Kind.dedent)
  plain_kind auto_semi e plain = rw e at plain

  auto_semicolon-LaidIn :
      (lex : Lexer) (pos : ℕ)
      → PlainSemicolon config
      → LaidIn config lex
      → After (LaidIn config) (maybe_emit_auto_semicolon mem lex pos)
  unfolding maybe_emit_auto_semicolon
  auto_semicolon-LaidIn lex pos plain h = elim (Option-cases lex.config.auto_semi) [
    | inl none_ ↦ rw (none_, maybe_emit_auto_semicolon) h
    | inr (auto_semi, some_) ↦
        let kinds =
          plain_kind auto_semi (ap (λ (c : Config). c.auto_semi) (sym h.1) ∙ some_) plain in
        rw (some_, maybe_emit_auto_semicolon)
          (semicolon-LaidIn lex auto_semi (get_elem? lex.tokens.items lex.last_significant_index)
            pos kinds.0 kinds.1 h)
  ]

  newline_if-LaidIn :
      (wanted : Bool) (pos n : ℕ) (lex : Lexer)
      → LaidIn config lex
      → After (LaidIn config) (emit_newline_if mem wanted pos n lex)
  unfolding emit_newline_if
  newline_if-LaidIn true pos n lex h =
      emit_other-LaidIn config mem lex Kind.newline (span_make pos n) 0
        (λ e. absurd (ground (arith, e))) (λ e. absurd (ground (arith, e))) h
  newline_if-LaidIn false pos n lex h = h

  end_line-LaidIn :
      (r : Option Lexer) → After (LaidIn config) r → After (LaidIn config) (end_line r)
  end_line-LaidIn none h = tt
  end_line-LaidIn (some lex) h = h

  pub finish_line-LaidIn :
      (lex : Lexer)
      → PlainSemicolon config
      → LaidIn config lex
      → After (LaidIn config) (finish_physical_line mem lex)
  unfolding finish_physical_line
  finish_line-LaidIn lex plain h =
      let newline = λ (lex' : Lexer).
        emit_newline_if mem
          (lex'.config.emit_newlines || (is_offside lex' && lex'.line_has_significant)) lex.pos
          (newline_len_at lex lex.pos) lex' in
      then-After (LaidIn config) (LaidIn config) (maybe_emit_auto_semicolon mem lex lex.pos)
        (λ lex'. end_line (newline lex')) (auto_semicolon-LaidIn lex lex.pos plain h)
        (λ lex' h'. end_line-LaidIn (newline lex') (
          newline_if-LaidIn
            (lex'.config.emit_newlines || (is_offside lex' && lex'.line_has_significant)) lex.pos
            (newline_len_at lex lex.pos) lex' h'))

  drain-LaidIn :
      (indents : List ℕ) (pos : ℕ) (lex : Lexer)
      → lex.indents ≡ indents
      → LaidIn config lex
      → After
          (λ lex'. LaidIn config lex' × (lex'.indents ≡ []))
          (drain_indentation mem indents pos lex)
  unfolding drain_indentation
  drain-LaidIn [] pos lex e h = (h, e)
  drain-LaidIn (i ∷ indents) pos lex e h =
      then-After (λ lex'. LaidIn config lex' × (lex'.indents ≡ indents))
        (λ lex'. LaidIn config lex' × (lex'.indents ≡ [])) (pop_indent mem lex indents pos)
        (drain_indentation mem indents pos)
        (pop_indent-LaidIn config mem lex i indents pos (rw e at h.0) h.1)
        (λ lex' h'. drain-LaidIn indents pos lex' h'.1 h'.0)

-- Every INDENT has its DEDENT, and no level is open.
abbrev pub Closed : Lexer → Type 0
Closed lex =
    (count_kind Kind.indent lex.tokens.items ≡ count_kind Kind.dedent lex.tokens.items)
    × (lex.indents ≡ [])

end_source-Closed :
    (config : Config) (r : Option Lexer)
    → After (λ lex. LaidIn config lex × (lex.indents ≡ [])) r
    → After Closed (end_source r)
end_source-Closed config none h = tt
end_source-Closed config (some lex) (laid, empty) =
    let balance = laid.0.3 in
    let no_level : length lex.indents ≡ 0 = ap length empty in
    (ground (arith, balance, no_level), empty)

pub is_offside-config :
    (config : Config) (lex : Lexer)
    → lex.config ≡ config
    → elim config.offside [ none ↦ false | some offside ↦ true ] ≡ true
    → is_offside lex ≡ true
is_offside-config config lex same h =
    ap (λ (c : Config). elim c.offside [ none ↦ false | some offside ↦ true ]) same ∙ h

-- `handle_offside_line_start` and `finish_physical_line` keep the layout: the columns of the stack grow
-- inwards from 0, the stack stays inside its array of 128 entries, and it has as many levels as there
-- are INDENT tokens without a DEDENT. The virtual semicolon must be neither of the two.
pub lines_keep_layout :
    (mem : ℕ → Bool) (lex : Lexer)
    → PlainSemicolon lex.config
    → Laid lex
    → After Laid (handle_offside_line_start mem lex) × After Laid (finish_physical_line mem lex)
lines_keep_layout mem lex plain h = (
  After-map (LaidIn lex.config) Laid (handle_offside_line_start mem lex)
      (handle_offside-LaidIn lex.config mem lex (h, refl)) (λ lex' h'. h'.0),
  After-map (LaidIn lex.config) Laid (finish_physical_line mem lex)
      (finish_line-LaidIn lex.config mem lex plain (h, refl)) (λ lex' h'. h'.0),
)

-- Where the language has an offside rule, its virtual semicolon is neither INDENT nor DEDENT, and the stack is
-- in step with the tokens, `finish_eof_layout` closes every open level, unless it fails: afterwards the stack
-- is empty, and there are as many DEDENT tokens as INDENT tokens.
pub finish_eof_layout-Closed :
    (mem : ℕ → Bool) (lex : Lexer)
    → PlainSemicolon lex.config
    → is_offside lex ≡ true
    → Laid lex
    → After Closed (finish_eof_layout mem lex)
unfolding finish_eof_layout drain_offside
finish_eof_layout-Closed mem lex plain offside h =
    let config = lex.config in
    then-After (LaidIn config) Closed (maybe_emit_auto_semicolon mem lex lex.pos)
      (λ lex'.
        elim (emit_newline_if mem (is_offside lex' && lex'.line_has_significant) lex.pos 0 lex') [
          | none ↦ none
          | some lex'' ↦ end_source (drain_offside mem (is_offside lex'') lex.pos lex'')
        ])
      (auto_semicolon-LaidIn config mem lex lex.pos plain (h, refl))
      (λ lex' h'.
        then-After (LaidIn config) Closed
          (emit_newline_if mem (is_offside lex' && lex'.line_has_significant) lex.pos 0 lex')
          (λ lex''. end_source (drain_offside mem (is_offside lex'') lex.pos lex''))
          (newline_if-LaidIn config mem (is_offside lex' && lex'.line_has_significant) lex.pos 0
            lex' h')
          (λ lex'' h''.
            end_source-Closed config (drain_offside mem (is_offside lex'') lex.pos lex'') (
              rw (is_offside-config config lex'' h''.1 offside)
                (drain-LaidIn config mem lex''.indents lex.pos lex'' refl h''))))
