-- ===== src/Pipeline.antt =====
-- The lexer of src/lexer.c in front of the parser of src/parser.c, as `kavak_analyze_bytes` of
-- src/kavak.c puts them: the tokens of the one are a stream for the other.
mod Tests
use mathlib.Core.Path.{subst}
use kavak.Base.{
  ℕ, zero, suc, ◌+◌, ◌-◌, ◌≤◌, ◌<◌, ◌≡◌, refl, sym, ap, ◌∙◌, Bool, true, List, [], ◌∷◌, ◌++◌,
  Option, none, some, length, get_elem?, length-append, arith, uint32_max,
}
use kavak.Span.{span_make}
use kavak.Token.{Token, TokenVec, count, token_vec_init}
use kavak.Token.Kind
use kavak.Diag.{DiagVec}
use kavak.Source.{Source, len}
use kavak.Arena.{Arena}
use kavak.Lexer.{Config, Lexer}
use kavak.Lexer.Driver.{kavak_lex}
use kavak.Lexer.Driver.Ends.{Closes, kavak_lex-Closes}
use kavak.Parser.{Parser, token_count, parser_new}
use kavak.Parser.Cursor.{IsParser}
use kavak.Parser.Nodes.{Node, Parsing, Env}
use kavak.Parser.Pratt.{parse_expression}
use kavak.Parser.Pratt.Kept.{Parsed}
use kavak.Parser.Pratt.Runs.{Returns, Primary}
use kavak.Parser.Pratt.Turns.{Postfix}
use kavak.Parser.Pratt.Total.{parse_expression-Parsed}

get_last :
    (before : List Token) (token : Token)
    → get_elem? (before ++ token ∷ []) (length before) ≡ some token
get_last [] token = refl
get_last (t ∷ before) token = ground (arith, get_last before token)

-- the parser that `kavak_parser_new` makes
abbrev pub new_parser : Option Source → List Token → Option DiagVec → Parser
new_parser source tokens diags = record {
  source = source;
  tokens = tokens;
  pos = 0;
  expr_depth = 0;
  diags = diags;
}

closed-IsParser :
    (source : Option Source) (tokens before : List Token) (token : Token) (diags : Option DiagVec)
    → tokens ≡ before ++ token ∷ []
    → token.kind ≡ Kind.eof
    → length tokens ≤ uint32_max
    → IsParser (new_parser source tokens diags)
closed-IsParser source tokens before token diags same eof fits =
    let size : length tokens ≡ length before + 1 =
      ap (λ (ts : List Token). length ts) same ∙ length-append before (token ∷ []) in
    record {
      last = token;
      last_at =
          ap (get_elem? tokens) (omega (arith, size))
          ∙ ap (λ ts. get_elem? ts (length before)) same
          ∙ get_last before token;
      last_eof = eof;
      count_le = fits;
      pos_lt = omega (arith, size);
    }

made :
    (source : Option Source) (tokens : List Token) (diags : Option DiagVec)
    → IsParser (new_parser source tokens diags)
    → parser_new true source tokens diags ≡ some (new_parser source tokens diags)
unfolding parser_new
made source tokens diags v = ground (arith, v.pos_lt)

lexed-Closes :
    (mem : ℕ → Bool) (source : Source) (config : Config) (tokens : TokenVec)
    (diags : Option DiagVec) (lex : Lexer)
    → kavak_lex mem source config tokens diags ≡ some (some lex)
    → Closes (len source) (some (some lex))
lexed-Closes mem source config tokens diags lex e =
    rw e at (kavak_lex-Closes mem source config tokens diags)

-- What `kavak_parser_new` makes of these tokens: a valid parser, from which an expression can be parsed.
abbrev pub Feeds : Env → Arena → Option Parser → Type 0
Feeds env arena none = ⊥
Feeds env arena (some p) =
    IsParser p × Returns (parse_expression env (record { parser = p; arena = arena }) 0) (Parsed p)

-- Where `kavak_lex` succeeds, with a count of tokens that fits `uint32_t`, `kavak_parser_new` makes a valid
-- parser of its tokens if its allocation succeeds, and with hooks that keep the tokens and the depth and do
-- not go back, and for atoms take a token where they give a node, `kavak_parse_expression` ends on it and
-- keeps the tokens and the depth.
pub kavak_lex-Feeds :
    (env : Env) (mem : ℕ → Bool) (source : Source) (config : Config) (tokens : TokenVec)
    (diags after : Option DiagVec) (arena : Arena) (lex : Lexer)
    → Primary env.parse_primary
    → Postfix env.parse_postfix
    → kavak_lex mem source config tokens diags ≡ some (some lex)
    → count lex.tokens ≤ uint32_max
    → Feeds env arena (parser_new true (some source) lex.tokens.items after)
kavak_lex-Feeds env mem source config tokens diags after arena lex primary postfix e fits =
    let (reached, (before, same)) = lexed-Closes mem source config tokens diags lex e in
    let valid = closed-IsParser (some source) lex.tokens.items before _ after same refl fits in
    let p = new_parser (some source) lex.tokens.items after in
    subst (Feeds env arena) (sym (made (some source) lex.tokens.items after valid)) (
      valid,
      parse_expression-Parsed env primary postfix (record { parser = p; arena = arena }) 0 valid,
    )
