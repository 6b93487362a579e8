-- ===== src/Lexer/Strings/Progress.antt =====
-- The string scanner and the token scanner of src/lexer.c end, and take at least a byte.
use Prim.Native.String.{String}
use mathlib.Core.Path.{subst}
use kavak.Base.{
  ℕ, zero, suc, ◌+◌, ◌-◌, ◌≤◌, ◌<◌, ◌≡◌, refl, ap, ◌∙◌, Bool, true, false, not, ◌&&◌, ◌||◌, List,
  Option, none, some, ltb, leb, ◌==◌, if◌then◌else◌, length, arith,
}
use kavak.Span.{Span, span_make, span_from_to}
use kavak.Token.Kind
use kavak.Source.{len}
use kavak.Lexer.{
  Lexer, at_eof, peek, newline_len_at, is_inline_ws, match_lit, emit_token, emit_invalid, push_diag,
}
use kavak.Lexer.Layout.Laid.{After, then-After, After-map}
use kavak.Lexer.Scan.{ScanResult, no_match, matched, oom, moved, matched_or_oom}
use kavak.Lexer.Scan.Within.{
  Advances, Stands, emit_token-Stands, emit_invalid-Stands, push_diag-Stands,
}
use kavak.Lexer.Strings.{
  Interp, failed, stopped, closed, stopped_or_failed, closed_or_failed, emit_interpolation_invalid,
  skip_whitespace, newline_tokens, skip_interpolation_whitespace, emit_marker, close_interp, paired,
  after_token, interp_turn, interp_loop,
}

-- A state on a source of this length, at or behind a position.
abbrev pub Past : ℕ → ℕ → Lexer → Type 0
Past n low lex = (low ≤ lex.pos) × (len lex.source ≡ n)

abbrev pub ScanPast : ℕ → ℕ → ScanResult → Type 0
ScanPast n low no_match = Unit
ScanPast n low (matched lex) = Past n low lex
ScanPast n low oom = Unit

-- A run that has ended.
abbrev pub RunPast : ℕ → ℕ → Option ScanResult → Type 0
RunPast n low none = ⊥
RunPast n low (some r) = ScanPast n low r

abbrev pub InterpPast : ℕ → ℕ → Option Interp → Type 0
InterpPast n low none = ⊥
InterpPast n low (some failed) = Unit
InterpPast n low (some (stopped lex)) = Past n low lex
InterpPast n low (some (closed lex)) = Past n low lex

-- A scanner of tokens that ends and takes at least a byte.
abbrev pub Claims : (Lexer → Option ScanResult) → Type 0
Claims scan = (lex : Lexer) → RunPast (len lex.source) (suc lex.pos) (scan lex)

pub Advances-ScanPast :
    (lex : Lexer) (r : ScanResult) → Advances lex r → ScanPast (len lex.source) (suc lex.pos) r
Advances-ScanPast lex no_match h = tt
Advances-ScanPast lex oom h = tt
Advances-ScanPast lex (matched lex') (later, inside, same) = (ground (arith, later), ap len same)

pub Stands-Past :
    (n low : ℕ) (lex : Lexer) (r : Option Lexer)
    → Past n low lex
    → After (Stands lex) r
    → After (Past n low) r
Stands-Past n low lex none h s = tt
Stands-Past n low lex (some lex') (le, size) (pos, source) =
    (ground (arith, le, pos), ap len source ∙ size)

pub emit_token-Past :
    (mem : ℕ → Bool) (n low : ℕ) (lex : Lexer) (kind : ℕ) (span : Span) (v : ℕ)
    → Past n low lex
    → After (Past n low) (emit_token mem lex kind span v)
emit_token-Past mem n low lex kind span v h =
    Stands-Past n low lex (emit_token mem lex kind span v) h (emit_token-Stands mem lex kind span v)

pub emit_invalid-Past :
    (mem : ℕ → Bool) (n low : ℕ) (lex : Lexer) (start : ℕ) (message : String)
    → Past n low lex
    → After (Past n low) (emit_invalid mem lex start message)
emit_invalid-Past mem n low lex start message h =
    Stands-Past n low lex (emit_invalid mem lex start message) h
      (emit_invalid-Stands mem lex start message)

pub push_diag-Past :
    (mem : ℕ → Bool) (n low : ℕ) (lex : Lexer) (span : Span) (message : String)
    → Past n low lex
    → Past n low (push_diag mem lex span message)
push_diag-Past mem n low lex span message h =
    Stands-Past n low lex (some (push_diag mem lex span message)) h
      (push_diag-Stands mem lex lex span message (refl, refl))

pub matched-Past :
    (n low : ℕ) (r : Option Lexer) → After (Past n low) r → ScanPast n low (matched_or_oom r)
matched-Past n low none h = tt
matched-Past n low (some lex) h = h

pub stopped-Past :
    (n low : ℕ) (r : Option Lexer)
    → After (Past n low) r
    → InterpPast n low (some (stopped_or_failed r))
stopped-Past n low none h = tt
stopped-Past n low (some lex) h = h

closed-Past :
    (n low : ℕ) (r : Option Lexer)
    → After (Past n low) r
    → InterpPast n low (some (closed_or_failed r))
closed-Past n low none h = tt
closed-Past n low (some lex) h = h

pub emit_interpolation_invalid-Past :
    (mem : ℕ → Bool) (n low : ℕ) (lex : Lexer) (start : ℕ) (message : String)
    → Past n low lex
    → After (Past n low) (emit_interpolation_invalid mem lex start message)
unfolding emit_interpolation_invalid
emit_interpolation_invalid-Past mem n low lex start message h =
    let back = if leb lex.pos start then record lex { pos = start + 1 } else lex in
    emit_invalid-Past mem n low back start message (ground (arith, h))

pub emit_marker-Past :
    (mem : ℕ → Bool) (n low : ℕ) (lex : Lexer) (kind start : ℕ)
    → Past n low lex
    → After (Past n low) (emit_marker mem lex kind start)
emit_marker-Past mem n low lex kind start h =
    elim (kind == 0)
      as (λ b.
        After (Past n low)
          (if b then some lex else emit_token mem lex kind (span_from_to start lex.pos) 0)) [
            | true ↦ h
            | false ↦ emit_token-Past mem n low lex kind (span_from_to start lex.pos) 0 h
          ]

pub skip_whitespace-Past :
    (n low fuel : ℕ) (lex : Lexer) → Past n low lex → Past n low (skip_whitespace fuel lex)
unfolding skip_whitespace
skip_whitespace-Past n low zero lex h = h
skip_whitespace-Past n low (suc fuel) lex h =
    let k = newline_len_at lex lex.pos in
    elim (at_eof lex || (k == 0 && not (is_inline_ws (peek lex))))
      as (λ b. Past n low (elim b [
        | true ↦ lex
        | false ↦ skip_whitespace fuel (moved lex (if k == 0 then 1 else k))
      ])) [
        | true ↦ h
        | false ↦
            skip_whitespace-Past n low fuel (moved lex (if k == 0 then 1 else k))
              (ground (arith, h))
      ]

newline_tokens-Past :
    (mem : ℕ → Bool) (n low fuel : ℕ) (lex : Lexer)
    → Past n low lex
    → After (Past n low) (newline_tokens mem fuel lex)
unfolding newline_tokens
newline_tokens-Past mem n low zero lex h = h
newline_tokens-Past mem n low (suc fuel) lex h =
    let k = newline_len_at lex lex.pos in
    let push = emit_token mem lex Kind.newline (span_make lex.pos k) 0 in
    elim (at_eof lex || (k == 0 && not (is_inline_ws (peek lex))))
      as (λ b. After (Past n low) (elim b [
        | true ↦ some lex
        | false ↦ elim (k == 0) [
          | true ↦ newline_tokens mem fuel (moved lex 1)
          | false ↦ elim push [ none ↦ none | some lex' ↦ newline_tokens mem fuel (moved lex' k) ]
        ]
      ])) [
        | true ↦ h
        | false ↦
            elim (k == 0)
              as (λ b. After (Past n low) (elim b [
                | true ↦ newline_tokens mem fuel (moved lex 1)
                | false ↦ elim push [
                  | none ↦ none
                  | some lex' ↦ newline_tokens mem fuel (moved lex' k)
                ]
              ])) [
                | true ↦ newline_tokens-Past mem n low fuel (moved lex 1) (ground (arith, h))
                | false ↦
                    then-After (Past n low) (Past n low) push
                      (λ (lex' : Lexer). newline_tokens mem fuel (moved lex' k))
                      (emit_token-Past mem n low lex Kind.newline (span_make lex.pos k) 0 h)
                      (λ lex' h'.
                        newline_tokens-Past mem n low fuel (moved lex' k) (ground (arith, h')))
              ]
      ]

skip_interpolation-Past :
    (mem : ℕ → Bool) (n low : ℕ) (lex : Lexer)
    → Past n low lex
    → After (Past n low) (skip_interpolation_whitespace mem lex)
unfolding skip_interpolation_whitespace
skip_interpolation-Past mem n low lex h =
    let fuel = len lex.source - lex.pos in
    elim (lex.config.emit_newlines)
      as (λ b.
        After (Past n low)
          (if b then newline_tokens mem fuel lex else some (skip_whitespace fuel lex))) [
            | true ↦ newline_tokens-Past mem n low fuel lex h
            | false ↦ skip_whitespace-Past n low fuel lex h
          ]

close_interp-Past :
    (mem : ℕ → Bool) (n low : ℕ) (lex : Lexer) (close : List ℕ) (kind : ℕ)
    → Past n low lex
    → InterpPast n low (some (close_interp mem lex close kind))
unfolding close_interp
close_interp-Past mem n low lex close kind h =
    closed-Past n low (emit_marker mem (moved lex (length close)) kind lex.pos)
      (emit_marker-Past mem n low (moved lex (length close)) kind lex.pos (ground (arith, h)))

-- The turns that are left, from a state on.
abbrev Rest : ℕ → ℕ → ℕ → (ℕ → Lexer → Option Interp) → Type 0
Rest n low fuel rest =
    (pairs : ℕ) (lex : Lexer)
    → Past n low lex
    → n - lex.pos < fuel
    → InterpPast n low (rest pairs lex)

after_token-Past :
    (mem : ℕ → Bool) (n low fuel : ℕ) (rest : ℕ → Lexer → Option Interp) (close : List ℕ)
    (pairs : ℕ) (lex : Lexer) (r : Option ScanResult)
    → Rest n low fuel rest
    → Past n low lex
    → lex.pos < n
    → n - lex.pos < suc fuel
    → RunPast n (suc lex.pos) r
    → InterpPast n low (after_token mem rest close pairs lex r)
unfolding after_token
after_token-Past mem n low fuel rest close pairs lex none goes h inside enough r = r
after_token-Past mem n low fuel rest close pairs lex (some oom) goes h inside enough r = tt
after_token-Past mem n low fuel rest close pairs lex (some (matched lex')) goes h inside enough r =
    goes (paired lex close pairs) lex' (ground (arith, h, r)) (omega (arith, r.0, inside, enough))
after_token-Past mem n low fuel rest close pairs lex (some no_match) goes h inside enough r =
    let told = emit_invalid mem (moved lex 1) lex.pos "unknown character" in
    unknown told (
      emit_invalid-Past mem n (suc lex.pos) (moved lex 1) lex.pos "unknown character"
        (ground (arith, h)))
  where
    unknown :
        (o : Option Lexer)
        → After (Past n (suc lex.pos)) o
        → InterpPast n low (elim o [ none ↦ some failed | some lex' ↦ rest pairs lex' ])
    unknown none p = tt
    unknown (some lex') p =
        goes pairs lex' (ground (arith, h, p)) (omega (arith, p.0, inside, enough))

if-InterpPast :
    (n low : ℕ) (b : Bool) (x y : Option Interp)
    → InterpPast n low x
    → (b ≡ false → InterpPast n low y)
    → InterpPast n low (if b then x else y)
if-InterpPast n low true x y hx hy = hx
if-InterpPast n low false x y hx hy = hy refl

interp_turn-Past :
    (mem : ℕ → Bool) (scan : Lexer → Option ScanResult) (n low fuel : ℕ)
    (rest : ℕ → Lexer → Option Interp) (start : ℕ) (close : List ℕ) (kind pairs : ℕ)
    (o : Option Lexer)
    → Claims scan
    → Rest n low fuel rest
    → After (λ lex. Past n low lex × (n - lex.pos < suc fuel)) o
    → InterpPast n low (interp_turn mem scan rest start close kind pairs o)
unfolding interp_turn
interp_turn-Past mem scan n low fuel rest start close kind pairs none claims goes h = tt
interp_turn-Past mem scan n low fuel rest start close kind pairs (some lex) claims goes
      (h, enough) =
    if-InterpPast n low (at_eof lex) _ _
      (stopped-Past n low (emit_invalid mem lex start "unterminated string interpolation")
        (emit_invalid-Past mem n low lex start "unterminated string interpolation" h))
      (λ inside.
        if-InterpPast n low (pairs == 0 && (ltb 0 (length close) && match_lit lex close)) _ _
          (close_interp-Past mem n low lex close kind h)
          (λ _.
            after_token-Past mem n low fuel rest close pairs lex (scan lex) goes h
              (ground (arith, inside, h)) enough
              (subst (λ m. RunPast m (suc lex.pos) (scan lex)) h.1 (claims lex))))

-- an expression in an interpolation ends, on one turn for each byte that is left
pub interp_loop-Past :
    (mem : ℕ → Bool) (scan : Lexer → Option ScanResult)
    → Claims scan
    → (n low start : ℕ) (close : List ℕ) (kind fuel pairs : ℕ) (lex : Lexer) → Past n low lex
    → n - lex.pos < fuel
    → InterpPast n low (interp_loop mem scan start close kind fuel pairs lex)
unfolding interp_loop
interp_loop-Past mem scan claims n low start close kind zero pairs lex h enough =
    absurd (omega (arith, enough))
interp_loop-Past mem scan claims n low start close kind (suc fuel) pairs lex h enough =
    interp_turn-Past mem scan n low fuel (interp_loop mem scan start close kind fuel) start close
      kind pairs (skip_interpolation_whitespace mem lex) claims
      (λ p l h' e'. interp_loop-Past mem scan claims n low start close kind fuel p l h' e')
      (After-map (Past n lex.pos) (λ l. Past n low l × (n - l.pos < suc fuel))
        (skip_interpolation_whitespace mem lex)
        (skip_interpolation-Past mem n lex.pos lex (omega arith, h.1))
        (λ l p. ((omega (arith, h.0, p.0), p.1), omega (arith, p.0, enough))))
