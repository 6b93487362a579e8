-- ===== src/Lexer/Driver/Balanced.antt =====
-- The layout of a whole source: the line events of src/lexer.c from the state that `kavak_lex` begins with.
use kavak.Base.{ℕ, ◌≡◌, refl, ◌∙◌, Bool, true, Option, some, arith}
use kavak.Token.{TokenVec}
use kavak.Token.Push.{IsValid}
use kavak.Token.Kind
use kavak.Diag.{DiagVec}
use kavak.Source.{Source}
use kavak.Lexer.{Config, Lexer}
use kavak.Lexer.Layout.{
  handle_offside_line_start, finish_physical_line, finish_eof_layout, is_offside,
}
use kavak.Lexer.Layout.Laid.{count_kind, LaidIn, After, PlainSemicolon}
use kavak.Lexer.Layout.Balance.{
  handle_offside-LaidIn, finish_line-LaidIn, is_offside-config, Closed, finish_eof_layout-Closed,
}
use kavak.Lexer.Driver.{lexer_init}

-- What a scanner that pushes neither INDENT nor DEDENT leaves.
pub record Scanned (lex lex' : Lexer) : Type 0 where
  pub valid : IsValid lex'.tokens
  pub same_config : lex'.config ≡ lex.config
  pub same_stack : lex'.indents ≡ lex.indents
  pub same_indents :
      count_kind Kind.indent lex'.tokens.items ≡ count_kind Kind.indent lex.tokens.items
  pub same_dedents :
      count_kind Kind.dedent lex'.tokens.items ≡ count_kind Kind.dedent lex.tokens.items

-- An event in a source: the start of a line, its end, or tokens between.
pub data Event (mem : ℕ → Bool) (lex lex' : Lexer) : Type 0 where
  line_starts : handle_offside_line_start mem lex ≡ some lex' → Event mem lex lex'
  line_ends : finish_physical_line mem lex ≡ some lex' → Event mem lex lex'
  scans : Scanned lex lex' → Event mem lex lex'

-- The states that events lead to, in any order.
pub data Events (mem : ℕ → Bool) (begin_ : Lexer) : Lexer → Type 0 where
  begun : Events mem begin_ begin_
  next : {lex lex' : Lexer} → Events mem begin_ lex → Event mem lex lex' → Events mem begin_ lex'

some-After :
    (P : Lexer → Type 0) (o : Option Lexer) (lex : Lexer) → o ≡ some lex → After P o → P lex
some-After P o lex e h = rw e at h

Event-LaidIn :
    (config : Config) (mem : ℕ → Bool) (lex lex' : Lexer)
    → PlainSemicolon config
    → Event mem lex lex'
    → LaidIn config lex
    → LaidIn config lex'
Event-LaidIn config mem lex lex' plain (line_starts e) h =
    some-After (LaidIn config) (handle_offside_line_start mem lex) lex' e
      (handle_offside-LaidIn config mem lex h)
Event-LaidIn config mem lex lex' plain (line_ends e) h =
    some-After (LaidIn config) (finish_physical_line mem lex) lex' e
      (finish_line-LaidIn config mem lex plain h)
Event-LaidIn config mem lex lex' plain (scans s) ((valid, nested, shallow, balance), same) = (
  (
    s.valid,
    rw s.same_stack nested,
    rw s.same_stack shallow,
    rw (s.same_indents, s.same_dedents, s.same_stack) balance,
  ),
  s.same_config ∙ same,
)

Events-LaidIn :
    (config : Config) (mem : ℕ → Bool) (begin_ : Lexer) {lex : Lexer}
    → PlainSemicolon config
    → Events mem begin_ lex
    → LaidIn config begin_
    → LaidIn config lex
Events-LaidIn config mem begin_ plain begun h = h
Events-LaidIn config mem begin_ plain (next {lex} {lex'} run event) h =
    Event-LaidIn config mem lex lex' plain event (Events-LaidIn config mem begin_ plain run h)

-- For a language with an offside rule, whose virtual semicolon is neither INDENT nor DEDENT, and a valid vector
-- with as many DEDENT as INDENT tokens, such as an empty one: from the state that `kavak_lex` begins with,
-- after any starts and ends of lines and any scans between them that push neither INDENT nor DEDENT,
-- `finish_eof_layout` closes every open level, unless it fails. The stack is empty then, and there are as
-- many DEDENT tokens as INDENT tokens.
pub finish_run-Closed :
    (mem : ℕ → Bool) (source : Source) (config : Config) (tokens : TokenVec)
    (diags : Option DiagVec) {lex : Lexer}
    → IsValid tokens
    → count_kind Kind.indent tokens.items ≡ count_kind Kind.dedent tokens.items
    → PlainSemicolon config
    → is_offside (lexer_init source config tokens diags) ≡ true
    → Events mem (lexer_init source config tokens diags) lex
    → After Closed (finish_eof_layout mem lex)
finish_run-Closed mem source config tokens diags {lex} valid even plain offside run =
    let begun_laid : LaidIn config (lexer_init source config tokens diags) =
      ((valid, tt, ground arith, ground (arith, even)), refl) in
    let (laid, same) =
      Events-LaidIn config mem (lexer_init source config tokens diags) plain run begun_laid in
    finish_eof_layout-Closed mem lex (rw same plain) (is_offside-config config lex same offside)
      laid
