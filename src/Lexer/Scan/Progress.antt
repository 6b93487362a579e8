-- ===== src/Lexer/Scan/Progress.antt =====
-- The scanners of src/lexer.c move on, inside the source.
use kavak.Base.{
  ℕ, zero, suc, ◌+◌, ◌-◌, ◌≤◌, ◌<◌, ◌≡◌, inl, inr, refl, ap, Bool, true, ◌&&◌, ◌||◌, List, [], ◌∷◌,
  Option, none, some, ltb, ◌==◌, length, take, drop, length-drop, bytes_eq, arith, Bool-cases,
  Option-cases,
}
use kavak.Span.{span_from_to}
use kavak.Token.Kind
use kavak.Utf8.Decode.{decode_bounds}
use kavak.Source.{len}
use kavak.Lexer.{CommentRule, Word, Lexer, at_eof, peek, ahead, match_lit, emit_token, emit_invalid}
use kavak.Lexer.Scan.{
  moved, longest_match, skip_line, skip_block, keep_comment, end_block, scan_comment,
  try_scan_comment, match_longest_op, is_kernel_punct, try_scan_operator, is_ident_cont_cfg,
  is_ident_start_cfg, peek_cp, accepted_len, munch, keyword_of, emit_ident, try_scan_identifier,
}
use kavak.Lexer.Scan.Within.{
  Within, Advances, emit_token-Stands, emit_invalid-Stands, matched-Advances, match_lit-fits,
  Within-moved, skip_line-Within, skip_block-Within,
}

keep_comment-Advances :
    (mem : ℕ → Bool) (rule : CommentRule) (start : ℕ) (before lex : Lexer)
    → Within before lex
    → Advances before (keep_comment mem rule start lex)
unfolding keep_comment
keep_comment-Advances mem rule start before lex h =
    elim (Bool-cases (lex.config.keep_comments || (rule.is_doc && lex.config.keep_doc_comments))) [
      | inl kept ↦
          rw (kept, keep_comment)
            (matched-Advances before lex
              (emit_token mem lex Kind.comment (span_from_to start lex.pos) 0) h
              (emit_token-Stands mem lex Kind.comment (span_from_to start lex.pos) 0))
      | inr dropped ↦ rw (dropped, keep_comment) h
    ]

end_block-Advances :
    (mem : ℕ → Bool) (rule : CommentRule) (start : ℕ) (before : Lexer) (r : Lexer × ℕ)
    → Within before r.0
    → Advances before (end_block mem rule start r)
unfolding end_block
end_block-Advances mem rule start before r h = elim (Bool-cases (r.1 == 0)) [
  | inl closed ↦ rw (closed, end_block) (keep_comment-Advances mem rule start before r.0 h)
  | inr open_ ↦
      rw (open_, end_block)
        (matched-Advances before r.0 (emit_invalid mem r.0 start "unterminated block comment") h
          (emit_invalid-Stands mem r.0 start "unterminated block comment"))
]

scan_comment-Advances :
    (mem : ℕ → Bool) (rule : CommentRule) (start : ℕ) (before lex : Lexer)
    → Within before lex
    → Advances before (scan_comment mem rule start lex)
unfolding scan_comment
scan_comment-Advances mem rule start before lex h =
    let fuel = len lex.source - lex.pos in
    elim (Bool-cases (bytes_eq rule.close_text (b'\n' ∷ []))) [
      | inl line ↦
          rw (line, scan_comment)
            (keep_comment-Advances mem rule start before (skip_line fuel lex)
              (skip_line-Within before fuel lex h))
      | inr block ↦
          rw (block, scan_comment)
            (end_block-Advances mem rule start before (skip_block fuel rule lex 1)
              (skip_block-Within before fuel rule lex 1 h))
    ]

-- A text of the table that stands at the position and is not empty
abbrev pub Hit : {A : Type 0} → (A → List ℕ) → Lexer → Option A → Type 0
Hit text lex none = Unit
Hit text lex (some x) = (0 < length (text x)) × (match_lit lex (text x) ≡ true)

pub longest_match-Hit :
    {A : Type 0} (text : A → List ℕ) (lex : Lexer) (xs : List A) (best : Option A) (best_len : ℕ)
    → Hit text lex best
    → Hit text lex (longest_match text lex xs best best_len)
unfolding longest_match
longest_match-Hit text lex [] best best_len h = h
longest_match-Hit text lex (x ∷ xs) best best_len h =
    elim (Bool-cases (ltb best_len (length (text x)) && match_lit lex (text x))) [
      | inl hit ↦
          rw (hit, longest_match)
            (longest_match-Hit text lex xs (some x) (length (text x))
              (ground (arith, hit), ground (arith, hit)))
      | inr miss ↦ rw (miss, longest_match) (longest_match-Hit text lex xs best best_len h)
    ]

-- the step over such a text
Hit-Within :
    {A : Type 0} (text : A → List ℕ) (lex : Lexer) (x : A)
    → Hit text lex (some x)
    → Within lex (moved lex (length (text x)))
Hit-Within text lex x h = (ground (arith, h.0), match_lit-fits lex (text x) h.1, refl)

try_scan_comment-Advances : (mem : ℕ → Bool) (lex : Lexer) → Advances lex (try_scan_comment mem lex)
unfolding try_scan_comment
try_scan_comment-Advances mem lex =
    let text = λ (rule : CommentRule). rule.open_text in
    let found = longest_match text lex lex.config.comments none 0 in
    let hit : Hit text lex found = longest_match-Hit text lex lex.config.comments none 0 tt in
    elim (Option-cases found) [
      | inl none_ ↦ rw (none_, try_scan_comment) tt
      | inr (rule, some_) ↦
          rw (some_, try_scan_comment)
            (scan_comment-Advances mem rule lex.pos lex (moved lex (length rule.open_text))
              (Hit-Within text lex rule (rw some_ at hit)))
    ]

punct_inside : (lex : Lexer) → is_kernel_punct (peek lex) ≡ true → lex.pos + 1 ≤ len lex.source
punct_inside lex h = elim (Bool-cases (at_eof lex)) [
  | inl ends ↦ absurd (ground (arith, rw ends at h))
  | inr inside ↦ ground (arith, inside)
]

try_scan_operator-Advances :
    (mem : ℕ → Bool) (lex : Lexer) → Advances lex (try_scan_operator mem lex)
unfolding try_scan_operator match_longest_op
try_scan_operator-Advances mem lex =
    let text = λ (op : Word). op.text in
    let hit : Hit text lex (match_longest_op lex) =
      longest_match-Hit text lex lex.config.operators none 0 tt in
    elim (Option-cases (match_longest_op lex)) [
      | inr (op, some_) ↦
          let span = span_from_to lex.pos (lex.pos + length op.text) in
          rw (some_, try_scan_operator)
            (matched-Advances lex (moved lex (length op.text))
              (emit_token mem (moved lex (length op.text)) Kind.op span op.id)
              (Hit-Within text lex op (rw some_ at hit))
              (emit_token-Stands mem (moved lex (length op.text)) Kind.op span op.id))
      | inl none_ ↦ elim (Bool-cases (is_kernel_punct (peek lex))) [
        | inr other ↦ rw (none_, try_scan_operator, other) tt
        | inl punct ↦
            let inside : lex.pos + 1 ≤ len lex.source = punct_inside lex punct in
            let span = span_from_to lex.pos (lex.pos + 1) in
            rw (none_, try_scan_operator, punct)
              (matched-Advances lex (moved lex 1)
                (emit_token mem (moved lex 1) Kind.punct span (peek lex))
                (ground arith, inside, refl)
                (emit_token-Stands mem (moved lex 1) Kind.punct span (peek lex)))
      ]
    ]

accepted_len-inverts :
    (accepts : ℕ → Bool) (r : Option (ℕ × ℕ)) (n : ℕ)
    → accepted_len accepts r ≡ some n
    → (cp : ℕ) × (r ≡ some (cp, n))
accepted_len-inverts accepts none n h = absurd (ground (arith, h))
accepted_len-inverts accepts (some (cp, m)) n h = elim (Bool-cases (accepts cp)) [
  | inr refused ↦ absurd (ground (arith, rw refused at h))
  | inl accepted ↦
      let same : m ≡ n = ground (arith, rw accepted at h) in (cp, ap (λ k. some (cp, k)) same)
]

-- an accepted code point ends inside the source
pub accepted_fits :
    (accepts : ℕ → Bool) (lex : Lexer) (n : ℕ)
    → accepted_len accepts (peek_cp lex) ≡ some n
    → (0 < n) × (lex.pos + n ≤ len lex.source)
accepted_fits accepts lex n h =
    let (cp, found) = accepted_len-inverts accepts (peek_cp lex) n h in
    let (fits, some_, few) = decode_bounds (ahead lex) found in
    (some_, ground (arith, fits, some_, length-drop lex.pos lex.source.bytes))

munch-Within :
    (before : Lexer) (fuel : ℕ) (lex : Lexer) → Within before lex → Within before (munch fuel lex)
unfolding munch
munch-Within before zero lex h = h
munch-Within before (suc fuel) lex h =
    elim (Option-cases (accepted_len (is_ident_cont_cfg lex) (peek_cp lex))) [
      | inl ends ↦ rw (ends, munch) h
      | inr (n, goes_on) ↦
          rw (goes_on, munch)
            (munch-Within before fuel (moved lex n)
              (Within-moved before lex n h (accepted_fits (is_ident_cont_cfg lex) lex n goes_on).1))
    ]

emit_ident-Advances :
    (mem : ℕ → Bool) (before lex : Lexer)
    → Within before lex
    → Advances before (emit_ident mem before.pos lex)
unfolding emit_ident
emit_ident-Advances mem before lex h =
    let text = take (lex.pos - before.pos) (drop before.pos lex.source.bytes) in
    let word = keyword_of lex.config.soft_keywords lex.config.keywords text in
    matched-Advances before lex (emit_token mem lex word.0 (span_from_to before.pos lex.pos) word.1)
      h (emit_token-Stands mem lex word.0 (span_from_to before.pos lex.pos) word.1)

try_scan_identifier-Advances :
    (mem : ℕ → Bool) (lex : Lexer) → Advances lex (try_scan_identifier mem lex)
unfolding try_scan_identifier
try_scan_identifier-Advances mem lex =
    elim (Option-cases (accepted_len (is_ident_start_cfg lex) (peek_cp lex))) [
      | inl none_ ↦ rw (none_, try_scan_identifier) tt
      | inr (n, starts) ↦
          let fits = accepted_fits (is_ident_start_cfg lex) lex n starts in
          let step : Within lex (moved lex n) = (ground (arith, fits), fits.1, refl) in
          rw (starts, try_scan_identifier)
            (emit_ident-Advances mem lex (munch (len lex.source - lex.pos) (moved lex n))
              (munch-Within lex (len lex.source - lex.pos) (moved lex n) step))
    ]

-- A comment, operator, punctuation or identifier that a scanner claims takes at least one byte and ends
-- inside the source, also where it is malformed.
pub scanners_advance :
    (mem : ℕ → Bool) (lex : Lexer)
    → Advances lex (try_scan_comment mem lex)
      × Advances lex (try_scan_operator mem lex)
      × Advances lex (try_scan_identifier mem lex)
scanners_advance mem lex = (
  try_scan_comment-Advances mem lex,
  try_scan_operator-Advances mem lex,
  try_scan_identifier-Advances mem lex,
)
