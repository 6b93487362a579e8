-- ===== src/Lexer/Layout/Laid.antt =====
-- The indentation of src/lexer.c: the stack against the INDENT and DEDENT tokens.
use kavak.Base.{
  ℕ, ◌+◌, ◌<◌, ◌≡◌, ◌≢◌, inl, inr, refl, Bool, List, [], ◌∷◌, ◌++◌, Option, none, some, ltb, leb,
  ◌==◌, if◌then◌else◌, length, arith, Bool-cases, Option-cases,
}
use Prim.Native.String.{String}
use kavak.Span.{Span, span_make}
use kavak.Token.{Token, TokenVec, token_vec_push}
use kavak.Token.Push.{IsValid, Pushed, token_vec_push-Pushed}
use kavak.Token.Kind
use kavak.Lexer.{Config, Lexer, with_tokens, emit_token, push_diag}
use kavak.Lexer.Layout.{max_indent_depth, current, open_indent, pop_indent, pop_deeper}

-- How many tokens have a kind.
abbrev pub count_kind : ℕ → List Token → ℕ
count_kind kind [] = 0
count_kind kind (token ∷ tokens) = (if token.kind == kind then 1 else 0) + count_kind kind tokens

-- A stack of columns that grow inwards from 0, the innermost first.
abbrev pub Nested : List ℕ → Type 0
Nested [] = Unit
Nested (i ∷ indents) = (current indents < i) × Nested indents

-- The stack is nested and fits its array, and as many INDENT tokens as it has levels have no DEDENT.
abbrev pub LaidOut : TokenVec → List ℕ → Type 0
LaidOut tokens indents =
    IsValid tokens
    × Nested indents
    × (length indents < max_indent_depth)
    × (count_kind Kind.indent tokens.items ≡ count_kind Kind.dedent tokens.items + length indents)

abbrev pub Laid : Lexer → Type 0
Laid lex = LaidOut lex.tokens lex.indents

-- What holds of the state afterwards, unless the run has ended with -1.
abbrev pub After : (Lexer → Type 0) → Option Lexer → Type 0
After P none = Unit
After P (some lex) = P lex

-- The virtual semicolon, where there is one, is neither INDENT nor DEDENT.
abbrev pub PlainSemicolon : Config → Type 0
PlainSemicolon config = elim config.auto_semi [
  | none ↦ Unit
  | some auto_semi ↦ (auto_semi.emit_kind ≢ Kind.indent) × (auto_semi.emit_kind ≢ Kind.dedent)
]

pub then-After :
    (P Q : Lexer → Type 0) (r : Option Lexer) (f : Lexer → Option Lexer)
    → After P r
    → ((lex : Lexer) → P lex → After Q (f lex))
    → After Q (elim r [ none ↦ none | some lex ↦ f lex ])
then-After P Q none f p q = tt
then-After P Q (some lex) f p q = q lex p

pub After-map :
    (P Q : Lexer → Type 0) (r : Option Lexer)
    → After P r
    → ((lex : Lexer) → P lex → Q lex)
    → After Q r
After-map P Q none p f = tt
After-map P Q (some lex) p f = f lex p

count_kind-last :
    (kind : ℕ) (tokens : List Token) (token : Token)
    → count_kind kind (tokens ++ token ∷ [])
      ≡ count_kind kind tokens + (if token.kind == kind then 1 else 0)
count_kind-last kind [] token = ground arith
count_kind-last kind (t ∷ tokens) token = ground (arith, count_kind-last kind tokens token)

with_tokens-After :
    (P : Lexer → Type 0) (mem : ℕ → Bool) (lex : Lexer) (token : Token) (r : Option TokenVec)
    → Pushed mem lex.tokens token r
    → ((t : TokenVec)
        → t.items ≡ lex.tokens.items ++ token ∷ []
        → IsValid t
        → P (record lex { tokens = t }))
    → After P (with_tokens lex r)
with_tokens-After P mem lex token none pushed p = tt
with_tokens-After P mem lex token (some t) pushed p = p t pushed.0 pushed.1

emit_token-After :
    (P : Lexer → Type 0) (mem : ℕ → Bool) (lex : Lexer) (kind : ℕ) (span : Span) (v : ℕ)
    → IsValid lex.tokens
    → ((t : TokenVec)
        → t.items ≡ lex.tokens.items ++ (record { kind = kind; span = span; v = v }) ∷ []
        → IsValid t
        → P (record lex { tokens = t }))
    → After P (emit_token mem lex kind span v)
unfolding emit_token
emit_token-After P mem lex kind span v valid p =
    let token : Token = record { kind = kind; span = span; v = v } in
    with_tokens-After P mem lex token (token_vec_push mem lex.tokens token)
      (token_vec_push-Pushed mem lex.tokens token valid) p

-- a token of another kind
LaidOut-other :
    (tokens t : TokenVec) (indents : List ℕ) (token : Token)
    → token.kind ≢ Kind.indent
    → token.kind ≢ Kind.dedent
    → t.items ≡ tokens.items ++ token ∷ []
    → IsValid t
    → LaidOut tokens indents
    → LaidOut t indents
LaidOut-other tokens t indents token a b e valid (old, nested, shallow, balance) = (
  valid,
  nested,
  shallow,
  rw
      (
        e,
        count_kind-last Kind.indent tokens.items token,
        count_kind-last Kind.dedent tokens.items token,
      )
      (ground (arith, balance, a, b)),
)

LaidOut-indent :
    (tokens t : TokenVec) (indents : List ℕ) (col : ℕ) (token : Token)
    → token.kind ≡ Kind.indent
    → t.items ≡ tokens.items ++ token ∷ []
    → IsValid t
    → current indents < col
    → length indents + 1 < max_indent_depth
    → LaidOut tokens indents
    → LaidOut t (col ∷ indents)
LaidOut-indent tokens t indents col token a e valid deeper room (old, nested, shallow, balance) = (
  valid,
  (deeper, nested),
  ground (arith, room),
  rw
      (
        e,
        count_kind-last Kind.indent tokens.items token,
        count_kind-last Kind.dedent tokens.items token,
      )
      (ground (arith, balance, a)),
)

LaidOut-dedent :
    (tokens t : TokenVec) (indents : List ℕ) (i : ℕ) (token : Token)
    → token.kind ≡ Kind.dedent
    → t.items ≡ tokens.items ++ token ∷ []
    → IsValid t
    → LaidOut tokens (i ∷ indents)
    → LaidOut t indents
LaidOut-dedent tokens t indents i token a e valid (old, nested, shallow, balance) = (
  valid,
  nested.1,
  ground (arith, shallow),
  rw
      (
        e,
        count_kind-last Kind.indent tokens.items token,
        count_kind-last Kind.dedent tokens.items token,
      )
      (ground (arith, balance, a)),
)

-- the invariant, with the configuration as it was
abbrev pub LaidIn : Config → Lexer → Type 0
LaidIn config lex = Laid lex × (lex.config ≡ config)

pub push_diag-LaidIn :
    (config : Config) (mem : ℕ → Bool) (lex : Lexer) (span : Span) (message : String)
    → LaidIn config lex
    → LaidIn config (push_diag mem lex span message)
unfolding push_diag
push_diag-LaidIn config mem lex span message h = elim (Option-cases lex.diags) [
  | inl none_ ↦ rw none_ h
  | inr (diags, some_) ↦ rw some_ h
]

pub emit_other-LaidIn :
    (config : Config) (mem : ℕ → Bool) (lex : Lexer) (kind : ℕ) (span : Span) (v : ℕ)
    → kind ≢ Kind.indent
    → kind ≢ Kind.dedent
    → LaidIn config lex
    → After (LaidIn config) (emit_token mem lex kind span v)
emit_other-LaidIn config mem lex kind span v a b h =
    emit_token-After (LaidIn config) mem lex kind span v h.0.0 (λ t e valid. (
      LaidOut-other lex.tokens t lex.indents (record { kind = kind; span = span; v = v }) a b e
          valid h.0,
      h.1,
    ))

pub pop_indent-LaidIn :
    (config : Config) (mem : ℕ → Bool) (lex : Lexer) (i : ℕ) (indents : List ℕ) (pos : ℕ)
    → LaidOut lex.tokens (i ∷ indents)
    → lex.config ≡ config
    → After (λ lex'. LaidIn config lex' × (lex'.indents ≡ indents)) (pop_indent mem lex indents pos)
unfolding pop_indent
pop_indent-LaidIn config mem lex i indents pos h same =
    emit_token-After (λ lex'. LaidIn config lex' × (lex'.indents ≡ indents)) mem
      (record lex { indents = indents }) Kind.dedent (span_make pos 0) 0 h.0
      (λ t e valid. (
        (
          LaidOut-dedent lex.tokens t indents i
              (record { kind = Kind.dedent; span = span_make pos 0; v = 0 }) refl e valid h,
          same,
        ),
        refl,
      ))

pub open_indent-LaidIn :
    (config : Config) (mem : ℕ → Bool) (lex : Lexer) (col : ℕ)
    → current lex.indents < col
    → LaidIn config lex
    → After (LaidIn config) (open_indent mem lex col)
unfolding open_indent
open_indent-LaidIn config mem lex col deeper h =
    elim (Bool-cases (leb max_indent_depth (length lex.indents + 1))) [
      | inl full ↦
          rw (full, open_indent)
            (push_diag-LaidIn config mem lex (span_make lex.pos 0) "indentation nesting too deep" h)
      | inr room ↦
          rw (room, open_indent)
            (emit_token-After (LaidIn config) mem (record lex { indents = col ∷ lex.indents })
              Kind.indent (span_make lex.pos 0) 0 h.0.0
              (λ t e valid. (
                LaidOut-indent lex.tokens t lex.indents col
                    (record { kind = Kind.indent; span = span_make lex.pos 0; v = 0 }) refl e valid
                    deeper (ground (arith, room)) h.0,
                h.1,
              )))
    ]

pub pop_deeper-LaidIn :
    (config : Config) (mem : ℕ → Bool) (indents : List ℕ) (col : ℕ) (lex : Lexer)
    → lex.indents ≡ indents
    → LaidIn config lex
    → After (LaidIn config) (pop_deeper mem indents col lex)
unfolding pop_deeper
pop_deeper-LaidIn config mem [] col lex e h = h
pop_deeper-LaidIn config mem (i ∷ indents) col lex e h = elim (Bool-cases (ltb col i)) [
  | inr level ↦ rw (level, pop_deeper) h
  | inl deeper ↦
      rw (deeper, pop_deeper)
        (then-After (λ lex'. LaidIn config lex' × (lex'.indents ≡ indents)) (LaidIn config)
          (pop_indent mem lex indents lex.pos) (pop_deeper mem indents col)
          (pop_indent-LaidIn config mem lex i indents lex.pos (rw e at h.0) h.1)
          (λ lex' h'. pop_deeper-LaidIn config mem indents col lex' h'.1 h'.0))
]
