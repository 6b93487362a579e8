-- ===== src/Lexer/Scan/Ends.antt =====
-- The loops of the scanners of src/lexer.c come to their end.
use kavak.Base.{
  ℕ, zero, suc, ◌+◌, ◌-◌, ◌≤◌, ◌<◌, ◌≡◌, ◌⊎◌, inl, inr, refl, true, false, not, ◌&&◌, none, ◌==◌,
  length, arith, Bool-cases, Option-cases,
}
use kavak.Source.{len}
use kavak.Lexer.{CommentRule, Lexer, at_eof, starts_newline, match_lit}
use kavak.Lexer.Scan.{
  moved, skip_line, block_turn, skip_block, is_ident_cont_cfg, peek_cp, accepted_len, munch,
}
use kavak.Lexer.Scan.Progress.{accepted_fits}

-- a turn in a block comment takes a byte
block_turn_positive :
    (rule : CommentRule) (lex : Lexer) (depth : ℕ)
    → 0 < length rule.open_text
    → 0 < length rule.close_text
    → 0 < (block_turn rule lex depth).0
unfolding block_turn
block_turn_positive rule lex depth o c =
    elim (Bool-cases (rule.nest && match_lit lex rule.open_text)) [
      | inl opens ↦ rw (opens, block_turn) o
      | inr other ↦ elim (Bool-cases (match_lit lex rule.close_text)) [
        | inl closes ↦ rw (other, block_turn, closes) c
        | inr body ↦ rw (other, block_turn, body) (ground arith)
      ]
    ]

-- The loop of a block comment has closed it, or has met the end of the source.
abbrev pub BlockEnded : Lexer × ℕ → Type 0
BlockEnded r = (r.1 ≡ 0) ⊎ (at_eof r.0 ≡ true)

skip_block-BlockEnded :
    (fuel : ℕ) (rule : CommentRule) (lex : Lexer) (depth : ℕ)
    → 0 < length rule.open_text
    → 0 < length rule.close_text
    → len lex.source ≤ lex.pos + fuel
    → BlockEnded (skip_block fuel rule lex depth)
unfolding skip_block
skip_block-BlockEnded zero rule lex depth o c enough = inr (ground (arith, enough))
skip_block-BlockEnded (suc fuel) rule lex depth o c enough = elim (Bool-cases (at_eof lex)) [
  | inl ends ↦ rw (ends, skip_block) (inr ends)
  | inr inside ↦
      let turn = block_turn rule lex depth in
      let positive = block_turn_positive rule lex depth o c in
      elim (Bool-cases (turn.1 == 0)) [
        | inl closed ↦ rw (inside, skip_block, closed) (inl refl)
        | inr deeper ↦
            rw (inside, skip_block, deeper)
              (skip_block-BlockEnded fuel rule (moved lex turn.0) turn.1 o c
                (ground (arith, enough, positive)))
      ]
]

skip_line_ended :
    (fuel : ℕ) (lex : Lexer)
    → len lex.source ≤ lex.pos + fuel
    → (not (at_eof (skip_line fuel lex)) && not (starts_newline (skip_line fuel lex))) ≡ false
unfolding skip_line
skip_line_ended zero lex enough =
    let ends : at_eof lex ≡ true = ground (arith, enough) in rw ends refl
skip_line_ended (suc fuel) lex enough =
    elim (Bool-cases (not (at_eof lex) && not (starts_newline lex))) [
      | inl inside ↦
          rw (inside, skip_line) (skip_line_ended fuel (moved lex 1) (ground (arith, enough)))
      | inr ends ↦ rw (ends, skip_line) ends
    ]

-- No code point that goes on with an identifier is left at the position.
abbrev pub IdentEnded : Lexer → Type 0
IdentEnded lex = accepted_len (is_ident_cont_cfg lex) (peek_cp lex) ≡ none

munch-IdentEnded :
    (fuel : ℕ) (lex : Lexer) → len lex.source ≤ lex.pos + fuel → IdentEnded (munch fuel lex)
unfolding munch
munch-IdentEnded zero lex enough =
    elim (Option-cases (accepted_len (is_ident_cont_cfg lex) (peek_cp lex))) [
      | inl none_ ↦ none_
      | inr (n, some_) ↦
          let fits = accepted_fits (is_ident_cont_cfg lex) lex n some_ in
          absurd (ground (arith, fits, enough))
    ]
munch-IdentEnded (suc fuel) lex enough =
    elim (Option-cases (accepted_len (is_ident_cont_cfg lex) (peek_cp lex))) [
      | inl none_ ↦ rw (none_, munch) none_
      | inr (n, some_) ↦
          let fits = accepted_fits (is_ident_cont_cfg lex) lex n some_ in
          rw (some_, munch) (munch-IdentEnded fuel (moved lex n) (ground (arith, fits, enough)))
    ]

-- With one turn for each byte that is left, the loops come to their own end: a block comment, whose
-- texts are not empty, is closed or meets the end of the source; a line comment meets the end of the
-- line or of the source; and behind an identifier stands nothing that goes on with it.
pub loops_end :
    (rule : CommentRule) (lex : Lexer) (depth : ℕ)
    → 0 < length rule.open_text
    → 0 < length rule.close_text
    → let fuel = len lex.source - lex.pos in
      BlockEnded (skip_block fuel rule lex depth)
      × ((not (at_eof (skip_line fuel lex)) && not (starts_newline (skip_line fuel lex))) ≡ false)
      × IdentEnded (munch fuel lex)
loops_end rule lex depth o c =
    let fuel = len lex.source - lex.pos in
    let enough : len lex.source ≤ lex.pos + fuel = ground arith in
    (
      skip_block-BlockEnded fuel rule lex depth o c enough,
      skip_line_ended fuel lex enough,
      munch-IdentEnded fuel lex enough,
    )
