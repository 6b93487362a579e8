-- ===== src/Lexer/Number/Progress.antt =====
-- The scanner for numbers of src/lexer.c takes at least a byte.
use kavak.Base.{
  ℕ, zero, suc, ◌+◌, ◌-◌, ◌<◌, ◌≡◌, inl, inr, refl, Bool, true, false, not, ◌&&◌, List, none, some,
  ◌==◌, if◌then◌else◌, length, arith, Bool-cases,
}
use kavak.Span.{span_from_to}
use kavak.Token.Kind
use kavak.Source.{len}
use kavak.Lexer.{Lexer, peek, emit_token, emit_invalid}
use kavak.Lexer.Scan.{
  matched_or_oom, moved, munch, accepted_len, is_ident_cont_cfg, peek_cp, longest_match,
}
use kavak.Lexer.Number.{
  digits_turn, scan_digits_from, scan_digits, byte_at_is_digit_for_base, exponent_starts_here,
  exponent_bit, strict_invalid_digits_bit, float_bit, has_flag, suffix_bounded,
  consume_number_suffix, end_number, emit_number, leading_dot, base_ahead, scan_based,
  scan_fraction, skip_sign, scan_exponent, scan_decimal, try_scan_number,
}
use kavak.Lexer.Strings.Progress.{Past, ScanPast, emit_token-Past, emit_invalid-Past, matched-Past}

scan_digits-Past :
    (n low fuel base : ℕ) (lex : Lexer) (k : ℕ)
    → Past n low lex
    → Past n low (scan_digits_from fuel base lex k).1
unfolding scan_digits_from
scan_digits-Past n low zero base lex k h = h
scan_digits-Past n low (suc fuel) base lex k h =
    elim (digits_turn base lex k)
      as (λ o.
        Past n low
          (elim o as (λ _. ℕ × Lexer) [
            | none ↦ (k, lex)
            | some turn ↦ scan_digits_from fuel base (moved lex turn.0) turn.1
          ]).1) [
            | none ↦ h
            | some turn ↦
                scan_digits-Past n low fuel base (moved lex turn.0) turn.1 (ground (arith, h))
          ]

digits_turn_first :
    (base : ℕ) (lex : Lexer)
    → byte_at_is_digit_for_base lex lex.pos base ≡ true
    → digits_turn base lex 0 ≡ some (1, 1)
unfolding digits_turn byte_at_is_digit_for_base
digits_turn_first base lex h = ground (arith, h)

-- a digit at the position is taken
first_digit :
    (base fuel : ℕ) (lex : Lexer)
    → byte_at_is_digit_for_base lex lex.pos base ≡ true
    → 0 < fuel
    → Past (len lex.source) (suc lex.pos) (scan_digits_from fuel base lex 0).1
unfolding scan_digits_from
first_digit base zero lex h room = absurd (omega (arith, room))
first_digit base (suc fuel) lex h room =
    rw (digits_turn_first base lex h, scan_digits_from)
      (scan_digits-Past (len lex.source) (suc lex.pos) fuel base (moved lex 1) 1
        (omega arith, refl))

digit_inside :
    (base : ℕ) (lex : Lexer)
    → byte_at_is_digit_for_base lex lex.pos base ≡ true
    → 0 < len lex.source - lex.pos
unfolding byte_at_is_digit_for_base
digit_inside base lex h = ground (arith, h)

munch-Past : (n low fuel : ℕ) (lex : Lexer) → Past n low lex → Past n low (munch fuel lex)
unfolding munch
munch-Past n low zero lex h = h
munch-Past n low (suc fuel) lex h =
    elim (accepted_len (is_ident_cont_cfg lex) (peek_cp lex))
      as (λ o. Past n low (elim o [ none ↦ lex | some k ↦ munch fuel (moved lex k) ])) [
        | none ↦ h
        | some k ↦ munch-Past n low fuel (moved lex k) (ground (arith, h))
      ]

suffix-Past : (n low : ℕ) (lex : Lexer) → Past n low lex → Past n low (consume_number_suffix lex)
unfolding consume_number_suffix
suffix-Past n low lex h =
    elim (longest_match (λ (suffix : List ℕ). suffix) lex lex.config.numbers.suffixes none 0)
      as (λ o. Past n low (elim o [
        | none ↦ lex
        | some suffix ↦ if suffix_bounded lex suffix then moved lex (length suffix) else lex
      ])) [ none ↦ h | some suffix ↦ ground (arith, h) ]

end_number-Past :
    (mem : ℕ → Bool) (n low start kind : ℕ) (lex : Lexer)
    → Past n low lex
    → ScanPast n low (end_number mem start kind lex)
unfolding end_number
end_number-Past mem n low start kind lex h =
    let trailing =
      if has_flag lex strict_invalid_digits_bit
      then accepted_len (is_ident_cont_cfg lex) (peek_cp lex)
      else none in
    elim trailing
      as (λ o. ScanPast n low (elim o [
        | none ↦ matched_or_oom (emit_token mem lex kind (span_from_to start lex.pos) 0)
        | some k ↦ matched_or_oom (
            emit_invalid mem (munch (len lex.source - lex.pos) (moved lex k)) start
              "malformed number literal")
      ])) [
        | none ↦
            matched-Past n low (emit_token mem lex kind (span_from_to start lex.pos) 0)
              (emit_token-Past mem n low lex kind (span_from_to start lex.pos) 0 h)
        | some k ↦
            let behind = munch (len lex.source - lex.pos) (moved lex k) in
            matched-Past n low (emit_invalid mem behind start "malformed number literal") (
              emit_invalid-Past mem n low behind start "malformed number literal"
                (munch-Past n low (len lex.source - lex.pos) (moved lex k) (ground (arith, h))))
      ]

emit_number-Past :
    (mem : ℕ → Bool) (n low start kind : ℕ) (lex : Lexer)
    → Past n low lex
    → ScanPast n low (emit_number mem start kind lex)
unfolding emit_number
emit_number-Past mem n low start kind lex h =
    end_number-Past mem n low start kind (consume_number_suffix lex) (suffix-Past n low lex h)

scan_based-Past :
    (mem : ℕ → Bool) (base : ℕ) (lex : Lexer)
    → ScanPast (len lex.source) (suc lex.pos) (scan_based mem base lex)
unfolding scan_based
scan_based-Past mem base lex =
    let n = len lex.source in
    let r = scan_digits base (moved lex 2) in
    let h : Past n (suc lex.pos) r.1 =
      scan_digits-Past n (suc lex.pos) (n - (lex.pos + 2)) base (moved lex 2) 0
        (omega arith, refl) in
    elim (r.0 == 0)
      as (λ b. ScanPast n (suc lex.pos) (
        if b
        then matched_or_oom (emit_invalid mem r.1 lex.pos "malformed number literal")
        else emit_number mem lex.pos Kind.int r.1)) [
          | true ↦
              matched-Past n (suc lex.pos) (emit_invalid mem r.1 lex.pos "malformed number literal")
                (emit_invalid-Past mem n (suc lex.pos) r.1 lex.pos "malformed number literal" h)
          | false ↦ emit_number-Past mem n (suc lex.pos) lex.pos Kind.int r.1 h
        ]

fraction-Past :
    (dot : Bool) (lex : Lexer)
    → (dot ≡ false → byte_at_is_digit_for_base lex lex.pos 10 ≡ true)
    → Past (len lex.source) (suc lex.pos) (scan_fraction dot lex).1
unfolding scan_fraction
fraction-Past true lex digit =
    scan_digits-Past (len lex.source) (suc lex.pos) (len lex.source - (lex.pos + 1)) 10
      (moved lex 1) 0 (omega arith, refl)
fraction-Past false lex digit =
    let n = len lex.source in
    let whole = (scan_digits 10 lex).1 in
    let h : Past n (suc lex.pos) whole =
      first_digit 10 (n - lex.pos) lex (digit refl) (digit_inside 10 lex (digit refl)) in
    elim (has_flag whole float_bit
        && (peek whole == b'.' && byte_at_is_digit_for_base whole (whole.pos + 1) 10))
      as (λ b.
        Past n (suc lex.pos)
          (if◌then◌else◌ {A = ℕ × Lexer} b (Kind.float, (scan_digits 10 (moved whole 1)).1)
            (Kind.int, whole)).1) [
              | true ↦
                  scan_digits-Past n (suc lex.pos) (len whole.source - (whole.pos + 1)) 10
                    (moved whole 1) 0 (ground (arith, h))
              | false ↦ h
            ]

exponent-Past : (n low : ℕ) (r : ℕ × Lexer) → Past n low r.1 → Past n low (scan_exponent r).1
unfolding scan_exponent
exponent-Past n low r h =
    elim (has_flag r.1 exponent_bit && exponent_starts_here r.1)
      as (λ b.
        Past n low
          (if◌then◌else◌ {A = ℕ × Lexer} b
            (Kind.float, (scan_digits 10 (skip_sign (moved r.1 1))).1) r).1) [
              | true ↦
                  let signed = skip_sign (moved r.1 1) in
                  scan_digits-Past n low (len signed.source - signed.pos) 10 signed 0
                    (ground (arith, h))
              | false ↦ h
            ]

pub try_scan_number-Past :
    (mem : ℕ → Bool) (lex : Lexer)
    → ScanPast (len lex.source) (suc lex.pos) (try_scan_number mem lex)
unfolding try_scan_number scan_decimal
try_scan_number-Past mem lex =
    let n = len lex.source in
    let dot = leading_dot lex in
    elim (Bool-cases (not dot && not (byte_at_is_digit_for_base lex lex.pos 10))) [
      | inl other ↦ rw (other, try_scan_number) tt
      | inr starts ↦
          rw (starts, try_scan_number)
            (elim (if dot then none else base_ahead lex)
              as (λ o. ScanPast n (suc lex.pos) (elim o [
                | some base ↦ scan_based mem base lex
                | none ↦ scan_decimal mem dot lex
              ])) [
                | some base ↦ scan_based-Past mem base lex
                | none ↦
                    let r = scan_exponent (scan_fraction dot lex) in
                    emit_number-Past mem n (suc lex.pos) lex.pos r.0 r.1 (
                      exponent-Past n (suc lex.pos) (scan_fraction dot lex)
                        (fraction-Past dot lex (λ no_dot. ground (arith, starts, no_dot))))
              ])
    ]
