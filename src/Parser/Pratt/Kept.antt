-- ===== src/Parser/Pratt/Kept.antt =====
-- What the node helpers of src/parser.c leave of a parser: its tokens and its depth, at a position that
-- is not before.
use Prim.Native.String.{String}
use kavak.Base.{
  ℕ, suc, ◌-◌, ◌≤◌, ◌<◌, ◌≡◌, refl, ap, ◌∙◌, inl, inr, Bool, true, false, List, ◌==◌, Option, none,
  some, if◌then◌else◌, arith, Bool-cases, get_elem?, length,
}
use kavak.Span.{Span}
use kavak.Token.{Token}
use kavak.Token.Kind
use kavak.Parser.{
  Parser, peek, ends, at_end, step, advance, check_text, eat_text, expected, expect_text,
  parser_diag, span_of,
}
use kavak.Parser.Cursor.{IsParser, step-IsParser, step_moved, step_end, advance-Advanced}
use kavak.Parser.Nodes.{
  AstKind, Payload, Node, Parsing, Env, diag, alloc_node, make_node_at, make_token_node, error_at,
  make_node, make_error_node, ast_error,
}

-- A valid parser on these tokens, at this depth, not before the position `low`.
pub record At (tokens : List Token) (depth low : ℕ) (q : Parser) : Type 0 where
  pub valid : IsParser q
  pub same_tokens : q.tokens ≡ tokens
  pub same_depth : q.expr_depth ≡ depth
  pub low_le : low ≤ q.pos

pub At-self : (q : Parser) → IsParser q → At q.tokens q.expr_depth q.pos q
At-self q v = record { valid = v; same_tokens = refl; same_depth = refl; low_le = omega arith }

pub At-lower :
    {tokens : List Token} {depth low : ℕ} (lower : ℕ) (q : Parser)
    → lower ≤ low
    → At tokens depth low q
    → At tokens depth lower q
At-lower lower q le a = record {
  valid = a.valid;
  same_tokens = a.same_tokens;
  same_depth = a.same_depth;
  low_le = omega (arith, a.low_le);
}

-- from a state to a later one to the latest
pub At-trans :
    {tokens : List Token} {depth low : ℕ} (q r : Parser)
    → At tokens depth low q
    → At q.tokens q.expr_depth q.pos r
    → At tokens depth low r
At-trans q r a b = record {
  valid = b.valid;
  same_tokens = b.same_tokens ∙ a.same_tokens;
  same_depth = b.same_depth ∙ a.same_depth;
  low_le = omega (arith, a.low_le, b.low_le);
}

-- before EOF a step moves
pub step_on-At :
    (q : Parser) → IsParser q → at_end q ≡ false → At q.tokens q.expr_depth (suc q.pos) (step q)
step_on-At q v on =
    let moved = step_moved q v on in
    record {
      valid = step-IsParser q v;
      same_tokens = ap (λ (r : Parser). r.tokens) moved;
      same_depth = ap (λ (r : Parser). r.expr_depth) moved;
      low_le = omega (arith, ap (λ (r : Parser). r.pos) moved);
    }

pub step-At : (q : Parser) → IsParser q → At q.tokens q.expr_depth q.pos (step q)
step-At q v = elim (Bool-cases (at_end q)) [
  | inl stop ↦ rw (step_end q stop) (At-self q v)
  | inr on ↦ At-lower q.pos (step q) (omega arith) (step_on-At q v on)
]

-- A state with the same tokens, position and depth.
pub At-same :
    (q r : Parser)
    → r.tokens ≡ q.tokens
    → r.pos ≡ q.pos
    → r.expr_depth ≡ q.expr_depth
    → IsParser q
    → At q.tokens q.expr_depth q.pos r
At-same q r tokens pos depth v = record {
  valid = record {
    last = v.last;
    last_at = ap (λ ts. get_elem? ts (length ts - 1)) tokens ∙ v.last_at;
    last_eof = v.last_eof;
    count_le = omega (arith, v.count_le, ap (λ (ts : List Token). length ts) tokens);
    pos_lt = omega (arith, v.pos_lt, pos, ap (λ (ts : List Token). length ts) tokens);
  };
  same_tokens = tokens;
  same_depth = depth;
  low_le = omega (arith, pos);
}

diags_only :
    (mem : ℕ → Bool) (q : Parser) (span : Span) (message : Option String)
    → IsParser q
    → At q.tokens q.expr_depth q.pos (parser_diag mem q span message)
unfolding parser_diag
diags_only mem q span message v =
    At-same q (parser_diag mem q span message) (ground arith) (ground arith) (ground arith) v

-- a message changes the diagnostics only
pub diag-At :
    (env : Env) (s : Parsing) (span : Span) (message : String)
    → IsParser s.parser
    → At s.parser.tokens s.parser.expr_depth s.parser.pos (diag env s span message).parser
unfolding diag
diag-At env s span message v = diags_only env.mem s.parser span (some message) v

at_end-diag :
    (env : Env) (s : Parsing) (span : Span) (message : String)
    → at_end (diag env s span message).parser ≡ at_end s.parser
unfolding diag at_end peek parser_diag
at_end-diag env s span message = ground arith

-- `kavak_parser_eat_text` takes a token before EOF, or stays.
pub data Eats (q : Parser) (r : Option Token × Parser) : Type 0 where
  took : (t : Token) → r ≡ (some t, step q) → at_end q ≡ false → Eats q r
  stayed : r ≡ (none, q) → Eats q r

token_ahead : (o : Option Token) → ends o ≡ false → (t : Token) × (o ≡ some t)
token_ahead none h = absurd (ground (arith, h))
token_ahead (some t) h = (t, refl)

check_text_on :
    (q : Parser) (kind : ℕ) (text : List ℕ)
    → check_text q kind text ≡ true
    → (kind == Kind.eof) ≡ false
    → at_end q ≡ false
unfolding check_text at_end
check_text_on q kind text same other = ground arith

pub eat_text_taken :
    (q : Parser) (kind : ℕ) (text : List ℕ)
    → IsParser q
    → (kind == Kind.eof) ≡ false
    → check_text q kind text ≡ true
    → (t : Token) × (eat_text q kind text ≡ (some t, step q)) × (at_end q ≡ false)
unfolding eat_text advance at_end
eat_text_taken q kind text v other same =
    let on = check_text_on q kind text same other in
    let here = ap (λ b. if b then advance q else (none, q)) same in
    elim (advance-Advanced q v) [
      | inr (stop, _, _) ↦ absurd (ground (arith, stop, on))
      | inl (_, token, _, _) ↦
          let ahead = token_ahead (peek q) on in
          (ahead.0, here ∙ ap (λ (o : Option Token). (o, step q)) (token ∙ ahead.1), on)
    ]

pub eat_text-Eats :
    (q : Parser) (kind : ℕ) (text : List ℕ)
    → IsParser q
    → (kind == Kind.eof) ≡ false
    → Eats q (eat_text q kind text)
unfolding eat_text
eat_text-Eats q kind text v other = elim (Bool-cases (check_text q kind text)) [
  | inr differs ↦ stayed (ap (λ b. if b then advance q else (none, q)) differs)
  | inl same ↦ let taken = eat_text_taken q kind text v other same in took taken.0 taken.1 taken.2
]

pub eat_text-At :
    (q : Parser) (kind : ℕ) (text : List ℕ)
    → IsParser q
    → (kind == Kind.eof) ≡ false
    → At q.tokens q.expr_depth q.pos (eat_text q kind text).1
eat_text-At q kind text v other = elim (eat_text-Eats q kind text v other) [
  | took t same on ↦ rw same (step-At q v)
  | stayed same ↦ rw same (At-self q v)
]

-- with the message where nothing was taken
expected-At :
    (mem : ℕ → Bool) (message : Option String) (r : Option Token × Parser)
    → IsParser r.1
    → At r.1.tokens r.1.expr_depth r.1.pos (expected mem message r).1
unfolding expected
expected-At mem message (some t, q) v = At-self q v
expected-At mem message (none, q) v = diags_only mem q (span_of (peek q)) message v

pub expect_text-At :
    (mem : ℕ → Bool) (q : Parser) (kind : ℕ) (text : List ℕ) (message : Option String)
    → IsParser q
    → (kind == Kind.eof) ≡ false
    → At q.tokens q.expr_depth q.pos (expect_text mem q kind text message).1
unfolding expect_text
expect_text-At mem q kind text message v other =
    let first = eat_text-At q kind text v other in
    At-trans (eat_text q kind text).1 (expected mem message (eat_text q kind text)).1 first
      (expected-At mem message (eat_text q kind text) first.valid)

-- a node leaves the parser as it is
pub make_token_node_parser :
    (env : Env) (s : Parsing) (kind : AstKind) (i : ℕ) (payload : Payload)
    → (make_token_node env s kind i payload).1.parser ≡ s.parser
unfolding make_token_node alloc_node
make_token_node_parser env s kind i payload = ground arith

-- What a finished operation leaves of the parser `q` where it gives a node or NULL.
abbrev pub given : Option Node → Bool
given none = false
given (some n) = true

-- It keeps the tokens and the depth and does not go back; a node that was made before EOF has moved.
pub record Parsed (q : Parser) (n : Option Node) (s : Parsing) : Type 0 where
  pub kept : At q.tokens q.expr_depth q.pos s.parser
  pub moved : given n ≡ true → at_end q ≡ false → q.pos < s.parser.pos

-- `make_error_node` takes a token before EOF.
error_at-Parsed :
    (env : Env) (message : String) (n : Option Node) (s : Parsing)
    → IsParser s.parser
    → Parsed s.parser (error_at env message (n, s)).0 (error_at env message (n, s)).1
error_at-Parsed env message none s v = record {
  kept = At-self s.parser v;
  moved = λ g _. absurd (ground (arith, g));
}
error_at-Parsed env message (some n) s v =
    let told = diag env s (span_of (peek s.parser)) message in
    let first = diag-At env s (span_of (peek s.parser)) message v in
    record {
      kept = At-trans told.parser (step told.parser) first (step-At told.parser first.valid);
      moved = λ _ on. omega (
        arith,
        ap (λ (r : Parser). r.pos)
            (step_moved told.parser first.valid
              (at_end-diag env s (span_of (peek s.parser)) message ∙ on)),
        first.low_le,
      );
    }

pub make_error_node-Parsed :
    (env : Env) (message : String) (s : Parsing)
    → IsParser s.parser
    → Parsed s.parser (make_error_node env s message).0 (make_error_node env s message).1
unfolding make_error_node make_node_at alloc_node
make_error_node-Parsed env message s v =
    error_at-Parsed env message (make_node env s ast_error).0 (make_node env s ast_error).1 v
