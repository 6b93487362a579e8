-- ===== src/Lexer/Strings/Ends.antt =====
-- `try_scan_string` of src/lexer.c ends, on one turn for each byte that is left, and takes at least a byte.
use kavak.Base.{
  ℕ, zero, suc, ◌-◌, ◌≤◌, ◌<◌, ◌≡◌, inl, inr, refl, ap, Bool, true, false, not, ◌&&◌, ◌||◌, Option,
  none, some, ltb, ◌==◌, if◌then◌else◌, length, arith, Bool-cases, Option-cases, has_bit,
}
use kavak.Source.{len}
use kavak.Lexer.{StringRule, Lexer, at_eof, peek, match_lit}
use kavak.Lexer.Layout.Laid.{After}
use kavak.Lexer.Scan.{ScanResult, moved}
use kavak.Lexer.Scan.Progress.{longest_match-Hit, Hit}
use kavak.Lexer.Strings.{
  raw_bit, template_bit, match_longest_string_rule, string_rule_allows_newline,
  interp_marker_starts_interpolation,
}
use kavak.Lexer.Strings.Literal.{
  Inner, scan_string_interpolation, Fragment, Turn, result, more, unterminated, emit_fragment,
  interp_behind, is_line_end, string_turn, then_more, string_loop, try_scan_string,
}
use kavak.Lexer.Strings.Progress.{Past, RunPast}
use kavak.Lexer.Strings.Interpolation.{InnerClaims, ScanPast-lower, interpolation-Past}
use kavak.Lexer.Strings.Turns.{
  TurnPast, if-TurnPast, after_interp-Past, text_turn-Past, unterminated-Past, escape_turn-Past,
  close_string-Past, emit_fragment-Past,
}

then_more-Past :
    (n low at_ : ℕ) (next : Fragment → Option ScanResult) (o : Option Turn)
    → low ≤ at_
    → TurnPast n at_ o
    → ((f : Fragment) → Past n (suc at_) f.state → RunPast n low (next f))
    → RunPast n low (then_more next o)
then_more-Past n low at_ next none le h rest = h
then_more-Past n low at_ next (some (result r)) le h rest = ScanPast-lower n n at_ low r refl le h
then_more-Past n low at_ next (some (more f)) le h rest = rest f h

first_branch : (b : Bool) (x y : Option Turn) → b ≡ true → (if b then x else y) ≡ x
first_branch true x y h = refl
first_branch false x y h = absurd (ground (arith, h))

module _ (mem : ℕ → Bool) (inner : Inner) (claims : InnerClaims inner) where
  interp_behind-Past :
      (rule : StringRule) (n low : ℕ) (o : Option Lexer)
      → 0 < length rule.interp_open
      → After (Past n low) o
      → TurnPast n low (interp_behind mem inner rule o)
  unfolding interp_behind
  interp_behind-Past rule n low none some_ h = tt
  interp_behind-Past rule n low (some lex) some_ h =
      after_interp-Past n low (scan_string_interpolation mem inner rule lex)
        (interpolation-Past mem inner claims rule n (suc low) lex (omega (arith, some_, h.0)) h.1)

  string_turn-Past :
      (rule : StringRule) (n start : ℕ) (f : Fragment)
      → len f.state.source ≡ n
      → TurnPast n f.state.pos (string_turn mem inner rule start f)
  unfolding string_turn
  string_turn-Past rule n start f size =
      let lex = f.state in
      let here : Past n lex.pos lex = (omega arith, size) in
      if-TurnPast n lex.pos
        (at_eof lex || (not (string_rule_allows_newline rule) && is_line_end (peek lex))) _ _
        (λ _. unterminated-Past mem n lex.pos f here)
        (λ _.
          if-TurnPast n lex.pos (ltb 0 (length rule.close_text) && match_lit lex rule.close_text) _
            _ (λ _. close_string-Past mem rule n lex.pos f here)
            (λ _.
              if-TurnPast n lex.pos
                (has_bit rule.flags template_bit
                  && (ltb 0 (length rule.interp_open)
                      && (match_lit lex rule.interp_open
                          && interp_marker_starts_interpolation lex rule)))
                _ _
                (λ marked.
                  interp_behind-Past rule n lex.pos (emit_fragment mem rule start f)
                    (ground (arith, marked)) (emit_fragment-Past mem rule n lex.pos start f here))
                (λ _.
                  if-TurnPast n lex.pos (not (has_bit rule.flags raw_bit) && peek lex == 0x5C) _ _
                    (λ _. escape_turn-Past mem rule n f size)
                    (λ _. text_turn-Past mem n lex size))))

  -- at the end of the source there is no more turn
  string_turn_ends :
      (rule : StringRule) (n start : ℕ) (f : Fragment)
      → at_eof f.state ≡ true
      → string_turn mem inner rule start f ≡ some (unterminated mem f)
  unfolding string_turn
  string_turn_ends rule n start f ends =
      first_branch _ _ _
        (ap (λ b. b || (not (string_rule_allows_newline rule) && is_line_end (peek f.state))) ends)

  string_loop-Past :
      (rule : StringRule) (n low start fuel : ℕ) (f : Fragment)
      → Past n low f.state
      → n - f.state.pos < fuel
      → RunPast n low (string_loop mem inner rule start fuel f)
  unfolding string_loop
  string_loop-Past rule n low start zero f h enough = absurd (omega (arith, enough))
  string_loop-Past rule n low start (suc fuel) f h enough = elim (Bool-cases (at_eof f.state)) [
    | inl ends ↦ rw (string_turn_ends rule n start f ends) (unterminated-Past mem n low f h)
    | inr inside ↦
        then_more-Past n low f.state.pos (string_loop mem inner rule start fuel)
          (string_turn mem inner rule start f) h.0 (string_turn-Past rule n start f h.1)
          (λ f' h'.
            string_loop-Past rule n low start fuel f' (omega (arith, h.0, h'.0), h'.1)
              (ground (arith, inside, enough, h'.0, h.1)))
  ]

  pub try_scan_string-RunPast :
      (lex : Lexer) → RunPast (len lex.source) (suc lex.pos) (try_scan_string mem inner lex)
  unfolding try_scan_string match_longest_string_rule
  try_scan_string-RunPast lex =
      let text = λ (rule : StringRule). rule.open_text in
      let hit : Hit text lex (match_longest_string_rule lex) =
        longest_match-Hit text lex lex.config.strings none 0 tt in
      elim (Option-cases (match_longest_string_rule lex)) [
        | inl none_ ↦ rw (none_, try_scan_string) tt
        | inr (rule, some_) ↦
            let begun : Fragment = record {
              from = lex.pos;
              had_interp = false;
              state = moved lex (length rule.open_text);
            } in
            let opened = rw some_ at hit in
            rw (some_, try_scan_string)
              (string_loop-Past rule (len lex.source) (suc lex.pos) lex.pos
                (suc (len lex.source - lex.pos)) begun (ground (arith, opened.0), refl)
                (ground (arith, opened.0)))
      ]
