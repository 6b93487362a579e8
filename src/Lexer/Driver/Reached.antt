-- ===== src/Lexer/Driver/Reached.antt =====
-- Where the loop of `kavak_lex` of src/lexer.c stops: behind the whole source, or at the limit of tokens;
-- what its end emits leaves it there.
use Prim.Native.String.{String}
use kavak.Base.{
  ℕ, ◌+◌, ◌-◌, ◌≡◌, refl, ap, ◌∙◌, Bool, true, ◌&&◌, ◌||◌, List, [], ◌∷◌, ◌++◌, Option, none, some,
  inl, inr, leb, length, length-append, arith, uint32_max, get_elem?, if◌then◌else◌, Option-cases,
}
use kavak.Span.{Span, span_make}
use kavak.Token.{Token, TokenVec, count, token_vec_push}
use kavak.Token.Push.{push_last}
use kavak.Token.Kind
use kavak.Lexer.{AutoSemicolon, Lexer, with_tokens, emit_token, push_diag}
use kavak.Lexer.Layout.{
  max_indent_depth, pop_indent, semicolon_after, maybe_emit_auto_semicolon, is_offside,
  emit_newline_if, drain_indentation, end_source, drain_offside, finish_eof_layout,
}
use kavak.Lexer.Layout.Laid.{After, then-After}
use kavak.Lexer.Driver.Lines.{if-After}

-- Behind a source of this length, or so many tokens that the loop ends.
abbrev pub Reached : ℕ → Lexer → Type 0
Reached n lex =
    (leb n lex.pos || leb (uint32_max - (max_indent_depth + 4)) (count lex.tokens)) ≡ true

pub push_diag-Reached :
    (mem : ℕ → Bool) (n : ℕ) (lex : Lexer) (span : Span) (message : String)
    → Reached n lex
    → Reached n (push_diag mem lex span message)
unfolding push_diag
push_diag-Reached mem n lex span message h = elim (Option-cases lex.diags) [
  | inl none_ ↦ rw none_ h
  | inr (diags, some_) ↦ rw some_ h
]

pub with_tokens-Reached :
    (n : ℕ) (lex : Lexer) (token : Token) (o : Option TokenVec)
    → ((t : TokenVec) → o ≡ some t → t.items ≡ lex.tokens.items ++ token ∷ [])
    → Reached n lex
    → After (Reached n) (with_tokens lex o)
with_tokens-Reached n lex token none same h = tt
with_tokens-Reached n lex token (some t) same h =
    let grown : length t.items ≡ length lex.tokens.items + 1 =
      ap (λ (ts : List Token). length ts) (same t refl)
      ∙ length-append lex.tokens.items (token ∷ []) in
    ground (arith, h, grown)

module _ (mem : ℕ → Bool) (n : ℕ) where
  emit_token-Reached :
      (lex : Lexer) (kind : ℕ) (span : Span) (v : ℕ)
      → Reached n lex
      → After (Reached n) (emit_token mem lex kind span v)
  unfolding emit_token
  emit_token-Reached lex kind span v h =
      let token : Token = record { kind = kind; span = span; v = v } in
      with_tokens-Reached n lex token (token_vec_push mem lex.tokens token)
        (λ t e. push_last mem lex.tokens t token e) h

  semicolon_after-Reached :
      (lex : Lexer) (semi : AutoSemicolon) (o : Option Token) (pos : ℕ)
      → Reached n lex
      → After (Reached n) (semicolon_after mem lex semi o pos)
  unfolding semicolon_after
  semicolon_after-Reached lex semi none pos h = h
  semicolon_after-Reached lex semi (some token) pos h =
      elim semi.is_terminating
        as (λ o. After (Reached n) (elim o [
          | none ↦ some lex
          | some is_terminating ↦
              if is_terminating token && lex.line_has_significant
              then emit_token mem lex semi.emit_kind (span_make pos 0) semi.emit_v
              else some lex
        ])) [
          | none ↦ h
          | some is_terminating ↦
              if-After (Reached n) (is_terminating token && lex.line_has_significant) _ _
                (emit_token-Reached lex semi.emit_kind (span_make pos 0) semi.emit_v h) h
        ]

  auto_semicolon-Reached :
      (lex : Lexer) (pos : ℕ)
      → Reached n lex
      → After (Reached n) (maybe_emit_auto_semicolon mem lex pos)
  unfolding maybe_emit_auto_semicolon
  auto_semicolon-Reached lex pos h =
      elim lex.config.auto_semi
        as (λ o. After (Reached n) (elim o [
          | none ↦ some lex
          | some semi ↦
              semicolon_after mem lex semi (get_elem? lex.tokens.items lex.last_significant_index)
                pos
        ])) [
          | none ↦ h
          | some semi ↦
              semicolon_after-Reached lex semi
                (get_elem? lex.tokens.items lex.last_significant_index) pos h
        ]

  drain_indentation-Reached :
      (indents : List ℕ) (pos : ℕ) (lex : Lexer)
      → Reached n lex
      → After (Reached n) (drain_indentation mem indents pos lex)
  unfolding drain_indentation pop_indent
  drain_indentation-Reached [] pos lex h = h
  drain_indentation-Reached (i ∷ indents) pos lex h =
      then-After (Reached n) (Reached n) (pop_indent mem lex indents pos)
        (drain_indentation mem indents pos)
        (emit_token-Reached (record lex { indents = indents }) Kind.dedent (span_make pos 0) 0 h)
        (λ lex' h'. drain_indentation-Reached indents pos lex' h')

  end_source-Reached : (o : Option Lexer) → After (Reached n) o → After (Reached n) (end_source o)
  end_source-Reached none h = tt
  end_source-Reached (some lex) h = h

  pub finish_eof_layout-Reached :
      (lex : Lexer) → Reached n lex → After (Reached n) (finish_eof_layout mem lex)
  unfolding finish_eof_layout emit_newline_if drain_offside
  finish_eof_layout-Reached lex h =
      then-After (Reached n) (Reached n) (maybe_emit_auto_semicolon mem lex lex.pos) _
        (auto_semicolon-Reached lex lex.pos h)
        (λ lex' h'.
          then-After (Reached n) (Reached n)
            (emit_newline_if mem (is_offside lex' && lex'.line_has_significant) lex.pos 0 lex') _
            (if-After (Reached n) (is_offside lex' && lex'.line_has_significant) _ _
              (emit_token-Reached lex' Kind.newline (span_make lex.pos 0) 0 h') h')
            (λ lex'' h''. end_source-Reached (drain_offside mem (is_offside lex'') lex.pos lex'') (
              if-After (Reached n) (is_offside lex'') _ _
                (drain_indentation-Reached lex''.indents lex.pos lex'' h'') h'')))
