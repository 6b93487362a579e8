-- ===== src/Lexer/Scan/Within.antt =====
-- The loops and the emission of src/lexer.c: they keep the position inside the source.
use kavak.Base.{
  ℕ, zero, suc, ◌+◌, ◌≤◌, ◌<◌, ◌≡◌, inl, inr, refl, ap, ◌∙◌, Bool, true, false, not, ◌&&◌, List,
  Option, none, some, ◌==◌, length, arith, Bool-cases, Option-cases,
}
use Prim.Native.String.{String}
use kavak.Span.{Span, span_from_to}
use kavak.Token.{TokenVec, token_vec_push}
use kavak.Token.Kind
use kavak.Source.{len}
use kavak.Lexer.{
  CommentRule, Lexer, at_eof, starts_newline, match_lit_at, match_lit, with_tokens, emit_token,
  push_diag, emit_invalid,
}
use kavak.Lexer.Layout.Laid.{After}
use kavak.Lexer.Scan.{
  ScanResult, no_match, matched, oom, moved, matched_or_oom, skip_line, block_turn, skip_block,
}

-- A later state on the same source, not behind its end.
abbrev pub Within : Lexer → Lexer → Type 0
Within before lex =
    (before.pos < lex.pos) × (lex.pos ≤ len before.source) × (lex.source ≡ before.source)

-- A scanner that has claimed the input has moved on, and not behind the end.
abbrev pub Advances : Lexer → ScanResult → Type 0
Advances before no_match = Unit
Advances before (matched lex) = Within before lex
Advances before oom = Unit

-- what emits leaves the position
abbrev pub Stands : Lexer → Lexer → Type 0
Stands lex lex' = (lex'.pos ≡ lex.pos) × (lex'.source ≡ lex.source)

with_tokens-Stands : (lex : Lexer) (r : Option TokenVec) → After (Stands lex) (with_tokens lex r)
with_tokens-Stands lex none = tt
with_tokens-Stands lex (some t) = (refl, refl)

pub emit_token-Stands :
    (mem : ℕ → Bool) (lex : Lexer) (kind : ℕ) (span : Span) (v : ℕ)
    → After (Stands lex) (emit_token mem lex kind span v)
unfolding emit_token
emit_token-Stands mem lex kind span v =
    with_tokens-Stands lex
      (token_vec_push mem lex.tokens (record { kind = kind; span = span; v = v }))

pub push_diag-Stands :
    (mem : ℕ → Bool) (before lex : Lexer) (span : Span) (message : String)
    → Stands before lex
    → Stands before (push_diag mem lex span message)
unfolding push_diag
push_diag-Stands mem before lex span message h = elim (Option-cases lex.diags) [
  | inl none_ ↦ rw none_ h
  | inr (diags, some_) ↦ rw some_ h
]

with_diag-Stands :
    (mem : ℕ → Bool) (lex : Lexer) (span : Span) (message : String) (r : Option Lexer)
    → After (Stands lex) r
    → After
        (Stands lex)
        (elim r [ none ↦ none | some lex' ↦ some (push_diag mem lex' span message) ])
with_diag-Stands mem lex span message none h = tt
with_diag-Stands mem lex span message (some lex') h = push_diag-Stands mem lex lex' span message h

pub emit_invalid-Stands :
    (mem : ℕ → Bool) (lex : Lexer) (start : ℕ) (message : String)
    → After (Stands lex) (emit_invalid mem lex start message)
unfolding emit_invalid
emit_invalid-Stands mem lex start message =
    with_diag-Stands mem lex (span_from_to start lex.pos) message
      (emit_token mem lex Kind.invalid (span_from_to start lex.pos) 0)
      (emit_token-Stands mem lex Kind.invalid (span_from_to start lex.pos) 0)

pub matched-Advances :
    (before lex : Lexer) (r : Option Lexer)
    → Within before lex
    → After (Stands lex) r
    → Advances before (matched_or_oom r)
matched-Advances before lex none w h = tt
matched-Advances before lex (some lex') (later, inside, same) (pos_eq, source_eq) =
    (ground (arith, later, pos_eq), ground (arith, inside, pos_eq), source_eq ∙ same)

pub match_lit-fits :
    (lex : Lexer) (lit : List ℕ) → match_lit lex lit ≡ true → lex.pos + length lit ≤ len lex.source
unfolding match_lit_at
match_lit-fits lex lit h = ground (arith, h)

-- a step from a state inside the source
pub Within-moved :
    (before lex : Lexer) (n : ℕ)
    → Within before lex
    → lex.pos + n ≤ len lex.source
    → Within before (moved lex n)
Within-moved before lex n (later, inside, same) fits =
    let size : len lex.source ≡ len before.source = ap len same in
    (ground (arith, later), ground (arith, fits, size), same)

pub skip_line-Within :
    (before : Lexer) (fuel : ℕ) (lex : Lexer)
    → Within before lex
    → Within before (skip_line fuel lex)
unfolding skip_line
skip_line-Within before zero lex h = h
skip_line-Within before (suc fuel) lex h =
    elim (Bool-cases (not (at_eof lex) && not (starts_newline lex))) [
      | inl inside ↦
          let fits : lex.pos + 1 ≤ len lex.source = ground (arith, inside) in
          rw (inside, skip_line)
            (skip_line-Within before fuel (moved lex 1) (Within-moved before lex 1 h fits))
      | inr ends ↦ rw (ends, skip_line) h
    ]

block_turn-fits :
    (rule : CommentRule) (lex : Lexer) (depth : ℕ)
    → at_eof lex ≡ false
    → lex.pos + (block_turn rule lex depth).0 ≤ len lex.source
unfolding block_turn
block_turn-fits rule lex depth h = elim (Bool-cases (rule.nest && match_lit lex rule.open_text)) [
  | inl opens ↦ rw (opens, block_turn) (match_lit-fits lex rule.open_text (ground (arith, opens)))
  | inr other ↦ elim (Bool-cases (match_lit lex rule.close_text)) [
    | inl closes ↦ rw (other, block_turn, closes) (match_lit-fits lex rule.close_text closes)
    | inr body ↦ rw (other, block_turn, body) (ground (arith, h))
  ]
]

pub skip_block-Within :
    (before : Lexer) (fuel : ℕ) (rule : CommentRule) (lex : Lexer) (depth : ℕ)
    → Within before lex
    → Within before (skip_block fuel rule lex depth).0
unfolding skip_block
skip_block-Within before zero rule lex depth h = h
skip_block-Within before (suc fuel) rule lex depth h = elim (Bool-cases (at_eof lex)) [
  | inl ends ↦ rw (ends, skip_block) h
  | inr inside ↦
      let turn = block_turn rule lex depth in
      let next = Within-moved before lex turn.0 h (block_turn-fits rule lex depth inside) in
      elim (Bool-cases (turn.1 == 0)) [
        | inl closed ↦ rw (inside, skip_block, closed) next
        | inr deeper ↦
            rw (inside, skip_block, deeper)
              (skip_block-Within before fuel rule (moved lex turn.0) turn.1 next)
      ]
]
