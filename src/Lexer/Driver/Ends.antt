-- ===== src/Lexer/Driver/Ends.antt =====
-- `kavak_lex` of src/lexer.c ends, and what it emits is a stream for the parser of src/parser.c.
use kavak.Base.{
  ℕ, zero, suc, ◌-◌, ◌<◌, ◌≡◌, refl, Bool, true, false, not, List, [], ◌∷◌, ◌++◌, Option, none,
  some, ltb, if◌then◌else◌, arith, uint32_max,
}
use kavak.Span.{span_make}
use kavak.Token.{Token, TokenVec, token_vec_push}
use kavak.Token.Push.{push_last}
use kavak.Token.Kind
use kavak.Diag.{DiagVec}
use kavak.Source.{Source, len}
use kavak.Lexer.{Config, Lexer, with_tokens, emit_token}
use kavak.Lexer.Layout.{finish_eof_layout}
use kavak.Lexer.Strings.Progress.{Past}
use kavak.Lexer.Driver.{
  Step, fails, breaks, goes_on, newline_aware, lex_step, Lexed, then_lex, lex_loop, emit_eof,
  finish_lex, lexer_init, lexer_config_valid, kavak_lex,
}
use kavak.Lexer.Layout.Laid.{After}
use kavak.Lexer.Driver.Lines.{if-After}
use kavak.Lexer.Driver.Reached.{Reached, with_tokens-Reached, finish_eof_layout-Reached}
use kavak.Lexer.Driver.Steps.{StepPast, lex_step-Past}

-- A run that has ended, with -1 or where there is no more.
abbrev Ended : ℕ → Lexed → Type 0
Ended n none = ⊥
Ended n (some none) = Unit
Ended n (some (some lex)) = Reached n lex

then_lex-Ended :
    (n low : ℕ) (next : Lexer → Lexed) (o : Option Step)
    → StepPast n low o
    → ((lex : Lexer) → Past n (suc low) lex → low < n → Ended n (next lex))
    → Ended n (then_lex next o)
unfolding then_lex
then_lex-Ended n low next none h rest = h
then_lex-Ended n low next (some fails) h rest = tt
then_lex-Ended n low next (some (breaks lex)) h rest = h
then_lex-Ended n low next (some (goes_on lex)) h rest = rest lex h.0 h.1

lex_loop-Ended :
    (mem : ℕ → Bool) (n fuel : ℕ) (lex : Lexer)
    → len lex.source ≡ n
    → n - lex.pos < fuel
    → Ended n (lex_loop mem fuel lex)
unfolding lex_loop
lex_loop-Ended mem n zero lex size enough = absurd (omega (arith, enough))
lex_loop-Ended mem n (suc fuel) lex size enough =
    then_lex-Ended n lex.pos (lex_loop mem fuel) (lex_step mem lex) (lex_step-Past mem n lex size)
      (λ lex' h inside. lex_loop-Ended mem n fuel lex' h.1 (omega (arith, h.0, inside, enough)))

-- A run that has ended, with -1, or behind so many bytes, unless it has met the limit of tokens, with a
-- stream whose last token is an empty EOF there.
abbrev pub Closes : ℕ → Lexed → Type 0
Closes n none = ⊥
Closes n (some none) = Unit
Closes n (some (some lex)) =
    Reached n lex
    × ((before : List Token) × (lex.tokens.items
          ≡ before ++ (record { kind = Kind.eof; span = span_make lex.pos 0; v = 0 }) ∷ []))

with_tokens-Closes :
    (n : ℕ) (lex : Lexer) (o : Option TokenVec)
    → After (Reached n) (with_tokens lex o)
    → ((t : TokenVec)
        → o ≡ some t
        → t.items
          ≡ lex.tokens.items
            ++ (record { kind = Kind.eof; span = span_make lex.pos 0; v = 0 }) ∷ [])
    → Closes n (some (with_tokens lex o))
with_tokens-Closes n lex none reached h = tt
with_tokens-Closes n lex (some t) reached h = (reached, (lex.tokens.items, h t refl))

emit_eof-Closes :
    (mem : ℕ → Bool) (n : ℕ) (o : Option Lexer)
    → After (Reached n) o
    → Closes n (some (emit_eof mem o))
unfolding emit_token
emit_eof-Closes mem n none h = tt
emit_eof-Closes mem n (some lex) h =
    let token : Token = record { kind = Kind.eof; span = span_make lex.pos 0; v = 0 } in
    let pushed = token_vec_push mem lex.tokens token in
    let last : (t : TokenVec) → pushed ≡ some t → t.items ≡ lex.tokens.items ++ token ∷ [] =
      λ t e. push_last mem lex.tokens t token e in
    with_tokens-Closes n lex pushed (with_tokens-Reached n lex token pushed last h) last

finish_lex-Closes : (mem : ℕ → Bool) (n : ℕ) (o : Lexed) → Ended n o → Closes n (finish_lex mem o)
unfolding finish_lex
finish_lex-Closes mem n none h = h
finish_lex-Closes mem n (some none) h = tt
finish_lex-Closes mem n (some (some lex)) h =
    emit_eof-Closes mem n (if newline_aware lex then finish_eof_layout mem lex else some lex)
      (if-After (Reached n) (newline_aware lex) _ _ (finish_eof_layout-Reached mem n lex h) h)

-- `kavak_lex` ends, on every source and configuration, and whatever the allocator does: with -1, or with
-- a stream whose last token is an EOF of no length at the position where it stopped; and that is the end of
-- the source, unless the stream has come within `KAVAK_MAX_INDENT_DEPTH + 4` tokens of `UINT32_MAX`.
pub kavak_lex-Closes :
    (mem : ℕ → Bool) (source : Source) (config : Config) (tokens : TokenVec)
    (diags : Option DiagVec)
    → Closes (len source) (kavak_lex mem source config tokens diags)
unfolding kavak_lex
kavak_lex-Closes mem source config tokens diags =
    elim (not (lexer_config_valid config))
      as (λ b. Closes (len source) (
        if b
        then some none
        else if ltb uint32_max (len source)
        then some none
        else finish_lex mem
            (lex_loop mem (suc (len source)) (lexer_init source config tokens diags)))) [
              | true ↦ tt
              | false ↦
                  elim (ltb uint32_max (len source))
                    as (λ b. Closes (len source) (
                      if b
                      then some none
                      else finish_lex mem (
                          lex_loop mem (suc (len source))
                            (lexer_init source config tokens diags)))) [
                              | true ↦ tt
                              | false ↦
                                  finish_lex-Closes mem (len source)
                                    (lex_loop mem (suc (len source))
                                      (lexer_init source config tokens diags))
                                    (lex_loop-Ended mem (len source) (suc (len source))
                                      (lexer_init source config tokens diags) refl (omega arith))
                            ]
            ]
