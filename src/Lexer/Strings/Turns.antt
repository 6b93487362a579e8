-- ===== src/Lexer/Strings/Turns.antt =====
-- A turn of the loop of `try_scan_string` of src/lexer.c ends, and goes on behind what it has taken.
use kavak.Base.{
  ℕ, suc, ◌+◌, ◌≡◌, inl, inr, refl, Bool, true, false, not, ◌&&◌, ◌||◌, Option, none, some, ltb,
  leb, ◌==◌, if◌then◌else◌, length, arith, Option-cases,
}
use kavak.Span.{span_make, span_from_to}
use kavak.Utf8.Decode.{decode_bounds}
use kavak.Token.Kind
use kavak.Source.{len}
use kavak.Lexer.{StringRule, Lexer, ahead, at_eof, peek, emit_token, emit_invalid, push_diag}
use kavak.Lexer.Layout.Laid.{After}
use kavak.Lexer.Scan.{moved, peek_cp}
use kavak.Lexer.Strings.{
  utf8_recovery_len, escape_is_allowed, string_rule_allows_newline, string_rule_close_kind, Interp,
  failed, stopped, closed,
}
use kavak.Lexer.Strings.Literal.{
  Fragment, Turn, result, more, unterminated, close_string, emit_fragment, after_interp,
  check_escape, scan_escape, is_line_end, escape_turn, text_turn,
}
use kavak.Lexer.Strings.Progress.{
  Past, ScanPast, InterpPast, emit_token-Past, emit_invalid-Past, push_diag-Past, matched-Past,
}

-- A turn that ends, and has moved where the loop goes on.
abbrev pub TurnPast : ℕ → ℕ → Option Turn → Type 0
TurnPast n low none = ⊥
TurnPast n low (some (result r)) = ScanPast n low r
TurnPast n low (some (more f)) = Past n (suc low) f.state

pub if-TurnPast :
    (n low : ℕ) (b : Bool) (x y : Option Turn)
    → (b ≡ true → TurnPast n low x)
    → (b ≡ false → TurnPast n low y)
    → TurnPast n low (if b then x else y)
if-TurnPast n low true x y hx hy = hx refl
if-TurnPast n low false x y hx hy = hy refl

pub after_interp-Past :
    (n low : ℕ) (o : Option Interp) → InterpPast n (suc low) o → TurnPast n low (after_interp o)
unfolding after_interp
after_interp-Past n low none h = h
after_interp-Past n low (some failed) h = tt
after_interp-Past n low (some (stopped lex)) h = (omega (arith, h.0), h.1)
after_interp-Past n low (some (closed lex)) h = h

pub text_turn-Past :
    (mem : ℕ → Bool) (n : ℕ) (lex : Lexer)
    → len lex.source ≡ n
    → Past n (suc lex.pos) (text_turn mem lex)
unfolding text_turn
text_turn-Past mem n lex size = elim (Option-cases (peek_cp lex)) [
  | inr ((cp, k), found) ↦
      let bounds = decode_bounds (ahead lex) found in
      rw (found, text_turn) (ground (arith, bounds), size)
  | inl nothing ↦
      rw (nothing, text_turn)
        (elim (leb 0x80 (peek lex))
          as (λ b. Past n (suc lex.pos) (
            if b
            then push_diag mem (moved lex 1) (span_make lex.pos 1) "invalid UTF-8 in string literal"
            else moved lex 1)) [
              | true ↦
                  push_diag-Past mem n (suc lex.pos) (moved lex 1) (span_make lex.pos 1)
                    "invalid UTF-8 in string literal" (omega arith, size)
              | false ↦ (omega arith, size)
            ])
]

check_escape-Past :
    (mem : ℕ → Bool) (rule : StringRule) (n low : ℕ) (lex : Lexer) (start k : ℕ) (bad : Bool)
    → Past n low lex
    → Past n low (check_escape mem rule lex start k bad)
unfolding check_escape
check_escape-Past mem rule n low lex start k bad h =
    let behind = moved lex k in
    let utf8 = push_diag mem behind (span_make (start + 1) k) "invalid UTF-8 in string escape" in
    let told = if bad then utf8 else behind in
    let told_past : Past n low told = elim bad as (λ b. Past n low (if b then utf8 else behind)) [
      | true ↦
          push_diag-Past mem n low behind (span_make (start + 1) k) "invalid UTF-8 in string escape"
            (ground (arith, h))
      | false ↦ ground (arith, h)
    ] in
    elim (escape_is_allowed rule.escapes (peek lex))
      as (λ b. Past n low (
        if b
        then told
        else push_diag mem told (span_from_to start behind.pos) "invalid escape sequence")) [
          | true ↦ told_past
          | false ↦
              push_diag-Past mem n low told (span_from_to start behind.pos)
                "invalid escape sequence" told_past
        ]

scan_escape-Past :
    (mem : ℕ → Bool) (rule : StringRule) (n low : ℕ) (lex : Lexer) (start : ℕ)
    → Past n low lex
    → Past n low (scan_escape mem rule lex start)
unfolding scan_escape
scan_escape-Past mem rule n low lex start h =
    elim (ltb (peek lex) 0x80)
      as (λ b. Past n low (
        if b then check_escape mem rule lex start 1 false else elim (peek_cp lex) [
          | none ↦ check_escape mem rule lex start (utf8_recovery_len lex) true
          | some (cp, n) ↦ check_escape mem rule lex start n false
        ])) [
          | true ↦ check_escape-Past mem rule n low lex start 1 false h
          | false ↦
              elim (peek_cp lex)
                as (λ o. Past n low (elim o [
                  | none ↦ check_escape mem rule lex start (utf8_recovery_len lex) true
                  | some (cp, n) ↦ check_escape mem rule lex start n false
                ])) [
                  | none ↦ check_escape-Past mem rule n low lex start (utf8_recovery_len lex) true h
                  | some (cp, k) ↦ check_escape-Past mem rule n low lex start k false h
                ]
        ]

pub unterminated-Past :
    (mem : ℕ → Bool) (n low : ℕ) (f : Fragment)
    → Past n low f.state
    → TurnPast n low (some (unterminated mem f))
unfolding unterminated
unterminated-Past mem n low f h =
    matched-Past n low (emit_invalid mem f.state f.from "unterminated string literal")
      (emit_invalid-Past mem n low f.state f.from "unterminated string literal" h)

pub escape_turn-Past :
    (mem : ℕ → Bool) (rule : StringRule) (n : ℕ) (f : Fragment)
    → len f.state.source ≡ n
    → TurnPast n f.state.pos (some (escape_turn mem rule f))
unfolding escape_turn
escape_turn-Past mem rule n f size =
    let behind = moved f.state 1 in
    let ended = record f { state = behind } in
    elim (at_eof behind || (not (string_rule_allows_newline rule) && is_line_end (peek behind)))
      as (λ b. TurnPast n f.state.pos (
        some (
          if b
          then unterminated mem ended
          else more (record f { state = scan_escape mem rule behind f.state.pos })))) [
            | true ↦ unterminated-Past mem n f.state.pos ended (omega arith, size)
            | false ↦
                scan_escape-Past mem rule n (suc f.state.pos) behind f.state.pos (omega arith, size)
          ]

pub close_string-Past :
    (mem : ℕ → Bool) (rule : StringRule) (n low : ℕ) (f : Fragment)
    → Past n low f.state
    → TurnPast n low (some (close_string mem rule f))
unfolding close_string
close_string-Past mem rule n low f h =
    let behind = moved f.state (length rule.close_text) in
    let tagged = f.had_interp && not (rule.fragment_kind == 0) in
    let kind = if tagged then rule.fragment_kind else string_rule_close_kind rule in
    matched-Past n low
      (emit_token mem behind kind (span_from_to f.from behind.pos) (if tagged then 3 else 0))
      (emit_token-Past mem n low behind kind (span_from_to f.from behind.pos)
        (if tagged then 3 else 0) (ground (arith, h)))

pub emit_fragment-Past :
    (mem : ℕ → Bool) (rule : StringRule) (n low start : ℕ) (f : Fragment)
    → Past n low f.state
    → After (Past n low) (emit_fragment mem rule start f)
unfolding emit_fragment
emit_fragment-Past mem rule n low start f h =
    let plain = rule.fragment_kind == 0 in
    let value : ℕ = if f.from == start then 1 else 2 in
    let kind = if plain then Kind.string else rule.fragment_kind in
    let span = span_from_to f.from f.state.pos in
    elim (ltb f.from f.state.pos)
      as (λ b. After (Past n low) (
        if b
        then emit_token mem f.state kind span (if plain then 0 else value)
        else some f.state)) [
          | true ↦ emit_token-Past mem n low f.state kind span (if plain then 0 else value) h
          | false ↦ h
        ]
