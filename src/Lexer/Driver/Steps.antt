-- ===== src/Lexer/Driver/Steps.antt =====
-- A turn of the loop of `kavak_lex` of src/lexer.c ends, and goes on behind what it has taken.
use mathlib.Core.Path.{subst}
use kavak.Base.{
  ℕ, suc, ◌+◌, ◌-◌, ◌≤◌, ◌<◌, ◌≡◌, refl, Bool, true, false, List, [], ◌∷◌, Option, none, some, leb,
  if◌then◌else◌, arith, uint32_max, drop,
}
use kavak.Token.{Token, count}
use kavak.Source.{len}
use kavak.Lexer.{
  Lexer, at_eof, starts_newline, skip_inline_whitespace, emit_invalid, note_from,
  note_emitted_tokens,
}
use kavak.Lexer.Layout.{max_indent_depth, handle_offside_line_start, finish_physical_line}
use kavak.Lexer.Layout.Laid.{After}
use kavak.Lexer.Scan.{ScanResult, no_match, matched, oom, moved}
use kavak.Lexer.Strings.{skip_whitespace}
use kavak.Lexer.Strings.Literal.{scan_token}
use kavak.Lexer.Strings.Progress.{Past, RunPast, emit_invalid-Past, skip_whitespace-Past}
use kavak.Lexer.Driver.{
  Step, fails, breaks, goes_on, noted, after_scan, on_line, token_step, or_fails, line_step,
  plain_step, newline_aware, lex_step,
}
use kavak.Lexer.Driver.Reached.{Reached, push_diag-Reached}
use kavak.Span.{span_make}
use kavak.Lexer.Driver.Lines.{handle_offside-Past, finish_physical_line-Past}
use kavak.Lexer.Driver.Tokens.{scan_token-Claims}

-- A turn of the loop that ends, and goes on behind what it has taken, or stops where there is no more.
abbrev pub StepPast : ℕ → ℕ → Option Step → Type 0
StepPast n low none = ⊥
StepPast n low (some fails) = Unit
StepPast n low (some (breaks lex)) = Reached n lex
StepPast n low (some (goes_on lex)) = Past n (suc low) lex × (low < n)

note-Past :
    (n low i : ℕ) (tokens : List Token) (lex : Lexer)
    → Past n low lex
    → Past n low (note_from i tokens lex)
unfolding note_from
note-Past n low i [] lex h = h
note-Past n low i (token ∷ tokens) lex h = note-Past n low (i + 1) tokens _ (ground (arith, h))

noted-Past :
    (n low first : ℕ) (o : Option Lexer)
    → After (Past n (suc low)) o
    → low < n
    → StepPast n low (some (noted first o))
unfolding note_emitted_tokens
noted-Past n low first none h inside = tt
noted-Past n low first (some lex) h inside =
    (note-Past n (suc low) first (drop first lex.tokens.items) lex h, inside)

after_scan-Past :
    (mem : ℕ → Bool) (n : ℕ) (lex : Lexer) (r : Option ScanResult)
    → len lex.source ≡ n
    → lex.pos < n
    → RunPast n (suc lex.pos) r
    → StepPast n lex.pos (after_scan mem lex r)
unfolding after_scan
after_scan-Past mem n lex none size inside h = h
after_scan-Past mem n lex (some oom) size inside h = tt
after_scan-Past mem n lex (some (matched lex')) size inside h =
    noted-Past n lex.pos (count lex.tokens) (some lex') h inside
after_scan-Past mem n lex (some no_match) size inside h =
    noted-Past n lex.pos (count lex.tokens)
      (emit_invalid mem (moved lex 1) lex.pos "unknown character")
      (emit_invalid-Past mem n (suc lex.pos) (moved lex 1) lex.pos "unknown character"
        (ground arith, size))
      inside

StepPast-lower :
    (n low lower : ℕ) (o : Option Step) → lower ≤ low → StepPast n low o → StepPast n lower o
StepPast-lower n low lower none le h = h
StepPast-lower n low lower (some fails) le h = tt
StepPast-lower n low lower (some (breaks lex)) le h = h
StepPast-lower n low lower (some (goes_on lex)) le (h, inside) =
    ((omega (arith, h.0, le), h.1), omega (arith, inside, le))

token_step-Past :
    (mem : ℕ → Bool) (n : ℕ) (lex : Lexer)
    → len lex.source ≡ n
    → at_eof lex ≡ false
    → StepPast n lex.pos (token_step mem lex)
unfolding token_step
token_step-Past mem n lex size inside =
    after_scan-Past mem n (on_line lex) (scan_token mem (on_line lex)) size
      (ground (arith, inside, size))
      (subst (λ m. RunPast m (suc lex.pos) (scan_token mem (on_line lex))) size
        (scan_token-Claims mem (on_line lex)))

if-StepPast :
    (n low : ℕ) (b : Bool) (x y : Option Step)
    → (b ≡ true → StepPast n low x)
    → (b ≡ false → StepPast n low y)
    → StepPast n low (if b then x else y)
if-StepPast n low true x y hx hy = hx refl
if-StepPast n low false x y hx hy = hy refl

plain_step-Past :
    (mem : ℕ → Bool) (n low : ℕ) (lex : Lexer)
    → Past n low lex
    → StepPast n low (plain_step mem lex)
unfolding plain_step
plain_step-Past mem n low lex h =
    if-StepPast n low (at_eof lex) _ _ (λ ends. ground (arith, ends, h.1))
      (λ inside.
        StepPast-lower n lex.pos low (token_step mem lex) h.0
          (token_step-Past mem n lex h.1 inside))

or_fails-Past :
    (n low : ℕ) (o : Option Lexer)
    → After (Past n (suc low)) o
    → low < n
    → StepPast n low (some (or_fails o))
or_fails-Past n low none h inside = tt
or_fails-Past n low (some lex) h inside = (h, inside)

line_step-Past :
    (mem : ℕ → Bool) (n low : ℕ) (o : Option Lexer)
    → After (Past n low) o
    → StepPast n low (line_step mem o)
unfolding line_step skip_inline_whitespace
line_step-Past mem n low none h = tt
line_step-Past mem n low (some indented) h =
    let lex = skip_inline_whitespace indented in
    let le : low ≤ lex.pos = omega (arith, h.0) in
    if-StepPast n low (at_eof lex) _ _ (λ ends. ground (arith, ends, h.1))
      (λ inside. StepPast-lower n lex.pos low _ le (
        if-StepPast n lex.pos (starts_newline lex) _ _
          (λ starts.
            or_fails-Past n lex.pos (finish_physical_line mem lex)
              (subst (λ m. After (Past m (suc lex.pos)) (finish_physical_line mem lex)) h.1
                (finish_physical_line-Past mem lex starts))
              (ground (arith, inside, h.1)))
          (λ _. token_step-Past mem n lex h.1 inside)))

pub lex_step-Past :
    (mem : ℕ → Bool) (n : ℕ) (lex : Lexer)
    → len lex.source ≡ n
    → StepPast n lex.pos (lex_step mem lex)
unfolding lex_step
lex_step-Past mem n lex size =
    let here : Past n lex.pos lex = (omega arith, size) in
    if-StepPast n lex.pos (leb (uint32_max - (max_indent_depth + 4)) (count lex.tokens)) _ _
      (λ limit.
        push_diag-Reached mem n lex (span_make lex.pos 0)
          "source exceeds the token limit; truncated" (ground (arith, limit)))
      (λ _.
        if-StepPast n lex.pos (newline_aware lex) _ _
          (λ _.
            line_step-Past mem n lex.pos _
              (elim lex.at_line_start
                as (λ b.
                  After (Past n lex.pos)
                    (if b then handle_offside_line_start mem lex else some lex)) [
                      | true ↦ handle_offside-Past mem n lex.pos lex here
                      | false ↦ here
                    ]))
          (λ _.
            plain_step-Past mem n lex.pos (skip_whitespace (len lex.source - lex.pos) lex)
              (skip_whitespace-Past n lex.pos (len lex.source - lex.pos) lex here)))
