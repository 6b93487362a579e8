-- ===== src/Lexer/Driver/Tokens.antt =====
-- `scan_token` of src/lexer.c, as the loop of `kavak_lex` and the interpolations call it.
use kavak.Base.{ℕ, zero, suc, Bool, Option, none, some}
use kavak.Source.{len}
use kavak.Lexer.Scan.{
  ScanResult, no_match, matched, oom, try_scan_comment, try_scan_identifier, try_scan_operator,
}
use kavak.Lexer.Scan.Progress.{scanners_advance}
use kavak.Lexer.Number.{try_scan_number}
use kavak.Lexer.Number.Progress.{try_scan_number-Past}
use kavak.Lexer.Strings.Literal.{
  Inner, or_else, or_rest, scan_with, scan_levels, scan_token, max_interp_depth, try_scan_string,
}
use kavak.Lexer.Strings.Progress.{ScanPast, RunPast, Claims, Advances-ScanPast}
use kavak.Lexer.Strings.Interpolation.{InnerClaims}
use kavak.Lexer.Strings.Ends.{try_scan_string-RunPast}

or_else-Past :
    (n low : ℕ) (r s : ScanResult)
    → ScanPast n low r
    → ScanPast n low s
    → ScanPast n low (or_else r s)
or_else-Past n low no_match s hr hs = hs
or_else-Past n low (matched lex) s hr hs = hr
or_else-Past n low oom s hr hs = hr

or_rest-Past :
    (n low : ℕ) (o : Option ScanResult) (s : ScanResult)
    → RunPast n low o
    → ScanPast n low s
    → RunPast n low (or_rest o s)
or_rest-Past n low none s ho hs = ho
or_rest-Past n low (some r) s ho hs = or_else-Past n low r s ho hs

scan_with-Claims :
    (mem : ℕ → Bool) (inner : Inner) → InnerClaims inner → Claims (scan_with mem inner)
unfolding scan_with
scan_with-Claims mem inner claims lex =
    let n = len lex.source in
    let low = suc lex.pos in
    let scanners = scanners_advance mem lex in
    let rest =
      or_else (try_scan_number mem lex)
        (or_else (try_scan_identifier mem lex) (try_scan_operator mem lex)) in
    elim (try_scan_comment mem lex)
        as (λ r.
          ScanPast n low r
          → RunPast n low (elim r [
            | matched lex' ↦ some (matched lex')
            | oom ↦ some oom
            | no_match ↦ or_rest (try_scan_string mem inner lex) rest
          ])) [
            | matched lex' ↦ λ h. h
            | oom ↦ λ h. tt
            | no_match ↦ λ h.
                or_rest-Past n low (try_scan_string mem inner lex) rest
                  (try_scan_string-RunPast mem inner claims lex)
                  (or_else-Past n low (try_scan_number mem lex) _ (try_scan_number-Past mem lex) (
                    or_else-Past n low (try_scan_identifier mem lex) (try_scan_operator mem lex)
                      (Advances-ScanPast lex (try_scan_identifier mem lex) scanners.2)
                      (Advances-ScanPast lex (try_scan_operator mem lex) scanners.1)))
          ]
      (Advances-ScanPast lex (try_scan_comment mem lex) scanners.0)

scan_levels-Claims : (mem : ℕ → Bool) (levels : ℕ) → Claims (scan_levels mem levels)
unfolding scan_levels
scan_levels-Claims mem zero = scan_with-Claims mem none tt
scan_levels-Claims mem (suc levels) =
    scan_with-Claims mem (some (scan_levels mem levels)) (scan_levels-Claims mem levels)

-- `scan_token` ends, at every depth of interpolation, and what it claims takes at least a byte.
pub scan_token-Claims : (mem : ℕ → Bool) → Claims (scan_token mem)
unfolding scan_token
scan_token-Claims mem = scan_levels-Claims mem max_interp_depth
