-- ===== src/Lexer/Strings/Interpolation.antt =====
-- The interpolations of src/lexer.c: what scans one ends, and does not go back.
use kavak.Base.{
  ℕ, suc, ◌+◌, ◌-◌, ◌≤◌, ◌≡◌, ◌∙◌, Bool, true, false, ◌&&◌, List, [], ◌∷◌, Option, none, some,
  if◌then◌else◌, length, arith, bytes_eq,
}
use kavak.Source.{len}
use kavak.Lexer.{StringRule, Lexer, match_lit}
use kavak.Lexer.Layout.Laid.{After}
use kavak.Lexer.Scan.{ScanResult, no_match, matched, oom, moved, try_scan_identifier}
use kavak.Lexer.Scan.Progress.{scanners_advance}
use kavak.Lexer.Strings.{emit_interpolation_invalid, emit_marker}
use kavak.Lexer.Strings.Literal.{
  Inner, scan_interpolation_expression, patched, bare_identifier, marked_expression, scan_dual,
  scan_string_interpolation,
}
use kavak.Lexer.Strings.Progress.{
  Past, ScanPast, InterpPast, Claims, Advances-ScanPast, stopped-Past,
  emit_interpolation_invalid-Past, emit_marker-Past, interp_loop-Past,
}

-- The next level, where there is one, does so.
abbrev pub InnerClaims : Inner → Type 0
InnerClaims none = Unit
InnerClaims (some scan) = Claims scan

pub ScanPast-lower :
    (m n low lower : ℕ) (r : ScanResult)
    → m ≡ n
    → lower ≤ low
    → ScanPast m low r
    → ScanPast n lower r
ScanPast-lower m n low lower no_match size le h = tt
ScanPast-lower m n low lower oom size le h = tt
ScanPast-lower m n low lower (matched lex) size le h = (omega (arith, h.0, le), h.1 ∙ size)

patched-Past :
    (n low : ℕ) (lex : Lexer) (kind start : ℕ)
    → Past n low lex
    → Past n low (patched lex kind start)
patched-Past n low lex kind start h = ground (arith, h)

module _ (mem : ℕ → Bool) (inner : Inner) (claims : InnerClaims inner) where
  expression-Past :
      (n low : ℕ) (lex : Lexer) (start : ℕ) (close : List ℕ) (kind : ℕ)
      → Past n low lex
      → InterpPast n low (scan_interpolation_expression mem inner lex start close kind)
  unfolding scan_interpolation_expression
  expression-Past n low lex start close kind h =
      elim (inner)
          as (λ i.
            InnerClaims i
            → InterpPast n low (scan_interpolation_expression mem i lex start close kind)) [
              | none ↦ λ _.
                  stopped-Past n low
                    (emit_interpolation_invalid mem lex start
                      "string interpolation nesting too deep")
                    (emit_interpolation_invalid-Past mem n low lex start
                      "string interpolation nesting too deep" h)
              | some scan ↦ λ c.
                  interp_loop-Past mem scan c n low start close kind
                    (suc (len lex.source - lex.pos)) 0 lex h (omega (arith, h.1))
            ]
        claims

  bare_identifier-Past :
      (rule : StringRule) (n low start : ℕ) (lex : Lexer) (r : ScanResult)
      → Past n low lex
      → ScanPast n low r
      → InterpPast n low (some (bare_identifier mem rule lex start r))
  unfolding bare_identifier
  bare_identifier-Past rule n low start lex oom h r = tt
  bare_identifier-Past rule n low start lex (matched lex') h r =
      patched-Past n low lex' rule.bare_ident_kind start r
  bare_identifier-Past rule n low start lex no_match h r =
      stopped-Past n low
        (emit_interpolation_invalid mem lex start "expected identifier after interpolation marker")
        (emit_interpolation_invalid-Past mem n low lex start
          "expected identifier after interpolation marker" h)

  marked_expression-Past :
      (rule : StringRule) (n low start : ℕ) (close : List ℕ) (o : Option Lexer)
      → After (Past n low) o
      → InterpPast n low (marked_expression mem inner rule start close o)
  unfolding marked_expression
  marked_expression-Past rule n low start close none h = tt
  marked_expression-Past rule n low start close (some lex) h =
      expression-Past n low lex start close rule.interp_close_kind h

  identifier-Past :
      (n low : ℕ) (lex : Lexer) → Past n low lex → ScanPast n low (try_scan_identifier mem lex)
  identifier-Past n low lex h =
      ScanPast-lower (len lex.source) n (suc lex.pos) low (try_scan_identifier mem lex) h.1
        (omega (arith, h.0))
        (Advances-ScanPast lex (try_scan_identifier mem lex) (scanners_advance mem lex).2)

  scan_dual-Past :
      (rule : StringRule) (n low start : ℕ) (lex : Lexer)
      → Past n low lex
      → InterpPast n low (scan_dual mem inner rule lex start)
  unfolding scan_dual
  scan_dual-Past rule n low start lex h =
      elim (bytes_eq rule.interp_open (b'$' ∷ []) && match_lit lex (b'{' ∷ []))
        as (λ b. InterpPast n low (
          if b
          then marked_expression mem inner rule start (b'}' ∷ [])
              (emit_marker mem (moved lex 1) rule.interp_open_kind start)
          else some (bare_identifier mem rule lex start (try_scan_identifier mem lex)))) [
            | true ↦
                marked_expression-Past rule n low start (b'}' ∷ [])
                  (emit_marker mem (moved lex 1) rule.interp_open_kind start)
                  (emit_marker-Past mem n low (moved lex 1) rule.interp_open_kind start
                    (ground (arith, h)))
            | false ↦
                bare_identifier-Past rule n low start lex (try_scan_identifier mem lex) h
                  (identifier-Past n low lex h)
          ]

  pub interpolation-Past :
      (rule : StringRule) (n low : ℕ) (lex : Lexer)
      → low ≤ lex.pos + length rule.interp_open
      → len lex.source ≡ n
      → InterpPast n low (scan_string_interpolation mem inner rule lex)
  unfolding scan_string_interpolation
  interpolation-Past rule n low lex le size =
      let behind = moved lex (length rule.interp_open) in
      elim (rule.interp_close)
        as (λ o. InterpPast n low (elim o [
          | some close ↦
              marked_expression mem inner rule lex.pos close
                (emit_marker mem behind rule.interp_open_kind lex.pos)
          | none ↦ scan_dual mem inner rule behind lex.pos
        ])) [
          | some close ↦
              marked_expression-Past rule n low lex.pos close
                (emit_marker mem behind rule.interp_open_kind lex.pos)
                (emit_marker-Past mem n low behind rule.interp_open_kind lex.pos (le, size))
          | none ↦ scan_dual-Past rule n low lex.pos behind (le, size)
        ]
