-- ===== src/Lexer/Scan.antt =====
-- The scanners for comments, operators with punctuation, and identifiers of src/lexer.c.
pub mod Within
pub mod Progress
pub mod Ends
use kavak.Base.{
  ℕ, zero, suc, ◌+◌, ◌-◌, ◌*◌, Bool, true, false, not, ◌&&◌, ◌||◌, List, [], ◌∷◌, Option, none,
  some, ltb, leb, ◌==◌, if◌then◌else◌, length, take, drop, bytes_eq,
}
use kavak.Span.{Span, span_from_to}
use kavak.Token.Kind
use kavak.Utf8.{utf8_decode, ascii_is_ident_start, ascii_is_ident_cont}
use kavak.Source.{len}
use kavak.Lexer.{
  CommentRule, Word, Config, Lexer, at_eof, peek, starts_newline, ahead, match_lit, emit_token,
  emit_invalid,
}

-- `ScanResult`, with the state where a scanner has claimed the input
pub data ScanResult : Type 0 where
  no_match : ScanResult
  matched : Lexer → ScanResult
  oom : ScanResult

abbrev pub moved : Lexer → ℕ → Lexer
moved lex n = record lex { pos = lex.pos + n }

-- `emit_…(…) == 0 ? SCAN_MATCHED : SCAN_OOM`
abbrev pub matched_or_oom : Option Lexer → ScanResult
matched_or_oom none = oom
matched_or_oom (some lex) = matched lex

-- The loops over a table for the longest text that the source has at the position.
unfoldable pub longest_match :
    {A : Type 0} → (A → List ℕ) → Lexer → List A → Option A → ℕ → Option A
longest_match text lex [] best best_len = best
longest_match text lex (x ∷ xs) best best_len =
    let hit = ltb best_len (length (text x)) && match_lit lex (text x) in
    longest_match text lex xs (if hit then some x else best)
      (if hit then length (text x) else best_len)

-- `!at_eof(lex) && !starts_newline(lex)`, and the loop of a line comment with so many bytes left
unfoldable pub skip_line : ℕ → Lexer → Lexer
skip_line zero lex = lex
skip_line (suc fuel) lex = elim (not (at_eof lex) && not (starts_newline lex)) [
  | true ↦ skip_line fuel (moved lex 1)
  | false ↦ lex
]

-- One turn in a block comment: the bytes that it takes, and the depth behind them.
unfoldable pub block_turn : CommentRule → Lexer → ℕ → ℕ × ℕ
block_turn rule lex depth =
    if rule.nest && match_lit lex rule.open_text
    then (length rule.open_text, depth + 1)
    else if match_lit lex rule.close_text
    then (length rule.close_text, depth - 1)
    else (1, depth)

-- the loop over the turns, with so many bytes left: it ends at depth 0 or at the end of the source
unfoldable pub skip_block : ℕ → CommentRule → Lexer → ℕ → Lexer × ℕ
unfolding block_turn
skip_block zero rule lex depth = (lex, depth)
skip_block (suc fuel) rule lex depth = elim (at_eof lex) [
  | true ↦ (lex, depth)
  | false ↦
      let turn = block_turn rule lex depth in
      elim (turn.1 == 0) [
        | true ↦ (moved lex turn.0, 0)
        | false ↦ skip_block fuel rule (moved lex turn.0) turn.1
      ]
]

-- the end of a comment: a token where the configuration keeps it
unfoldable pub keep_comment : (ℕ → Bool) → CommentRule → ℕ → Lexer → ScanResult
keep_comment mem rule start lex =
    if lex.config.keep_comments || (rule.is_doc && lex.config.keep_doc_comments)
    then matched_or_oom (emit_token mem lex Kind.comment (span_from_to start lex.pos) 0)
    else matched lex

-- the end of a block comment, at a depth
unfoldable pub end_block : (ℕ → Bool) → CommentRule → ℕ → Lexer × ℕ → ScanResult
unfolding keep_comment
end_block mem rule start r =
    if r.1 == 0
    then keep_comment mem rule start r.0
    else matched_or_oom (emit_invalid mem r.0 start "unterminated block comment")

-- a comment whose opening is consumed
unfoldable pub scan_comment : (ℕ → Bool) → CommentRule → ℕ → Lexer → ScanResult
unfolding skip_line skip_block end_block
scan_comment mem rule start lex =
    if bytes_eq rule.close_text (b'\n' ∷ [])
    then keep_comment mem rule start (skip_line (len lex.source - lex.pos) lex)
    else end_block mem rule start (skip_block (len lex.source - lex.pos) rule lex 1)

-- `try_scan_comment`
unfoldable pub try_scan_comment : (ℕ → Bool) → Lexer → ScanResult
unfolding longest_match scan_comment
try_scan_comment mem lex =
    elim (longest_match (λ (rule : CommentRule). rule.open_text) lex lex.config.comments none 0) [
      | none ↦ no_match
      | some rule ↦ scan_comment mem rule lex.pos (moved lex (length rule.open_text))
    ]

-- `match_longest_op`
unfoldable pub match_longest_op : Lexer → Option Word
unfolding longest_match
match_longest_op lex = longest_match (λ (op : Word). op.text) lex lex.config.operators none 0

-- `is_kernel_punct`
abbrev pub is_kernel_punct : ℕ → Bool
is_kernel_punct c =
    c == b'('
    || (c == b')'
        || (c == b'['
            || (c == b']'
                || (c == b'{'
                    || (c == b'}' || (c == b',' || (c == b';' || (c == b':' || c == b'.'))))))))

-- `try_scan_operator`
unfoldable pub try_scan_operator : (ℕ → Bool) → Lexer → ScanResult
unfolding match_longest_op
try_scan_operator mem lex = elim (match_longest_op lex) [
  | some op ↦ matched_or_oom (
      emit_token mem (moved lex (length op.text)) Kind.op
        (span_from_to lex.pos (lex.pos + length op.text)) op.id)
  | none ↦
      if is_kernel_punct (peek lex)
      then matched_or_oom
          (emit_token mem (moved lex 1) Kind.punct (span_from_to lex.pos (lex.pos + 1)) (peek lex))
      else no_match
]

-- `is_ident_start_cfg` and `is_ident_cont_cfg`
abbrev pub is_ident_start_cfg : Lexer → ℕ → Bool
is_ident_start_cfg lex cp = elim lex.config.is_ident_start [
  | none ↦ ascii_is_ident_start cp
  | some is_start ↦ is_start cp
]

abbrev pub is_ident_cont_cfg : Lexer → ℕ → Bool
is_ident_cont_cfg lex cp = elim lex.config.is_ident_cont [
  | none ↦ ascii_is_ident_cont cp
  | some is_cont ↦ is_cont cp
]

-- `peek_cp`
abbrev pub peek_cp : Lexer → Option (ℕ × ℕ)
peek_cp lex = utf8_decode (ahead lex)

-- how long a decoded code point is that a predicate accepts
abbrev pub accepted_len : (ℕ → Bool) → Option (ℕ × ℕ) → Option ℕ
accepted_len accepts none = none
accepted_len accepts (some (cp, n)) = if accepts cp then some n else none

-- the loop of `try_scan_identifier`, with so many bytes left
unfoldable pub munch : ℕ → Lexer → Lexer
munch zero lex = lex
munch (suc fuel) lex = elim (accepted_len (is_ident_cont_cfg lex) (peek_cp lex)) [
  | none ↦ lex
  | some n ↦ munch fuel (moved lex n)
]

-- the kind of a keyword, and the loop over the keywords: the kind and the value of the token
unfoldable pub is_soft : List ℕ → ℕ → Bool
is_soft [] id = false
is_soft (soft ∷ softs) id = soft == id || is_soft softs id

unfoldable pub keyword_of : List ℕ → List Word → List ℕ → ℕ × ℕ
unfolding is_soft
keyword_of softs [] text = (Kind.ident, 0)
keyword_of softs (kw ∷ kws) text =
    let later = keyword_of softs kws text in
    if bytes_eq kw.text text
    then if is_soft softs kw.id then (Kind.ident, kw.id) else (Kind.keyword, kw.id)
    else later

-- the token of an identifier from a position on
unfoldable pub emit_ident : (ℕ → Bool) → ℕ → Lexer → ScanResult
unfolding keyword_of
emit_ident mem start lex =
    let text = take (lex.pos - start) (drop start lex.source.bytes) in
    let word = keyword_of lex.config.soft_keywords lex.config.keywords text in
    matched_or_oom (emit_token mem lex word.0 (span_from_to start lex.pos) word.1)

-- `try_scan_identifier`
unfoldable pub try_scan_identifier : (ℕ → Bool) → Lexer → ScanResult
unfolding munch emit_ident
try_scan_identifier mem lex = elim (accepted_len (is_ident_start_cfg lex) (peek_cp lex)) [
  | none ↦ no_match
  | some n ↦ emit_ident mem lex.pos (munch (len lex.source - lex.pos) (moved lex n))
]
