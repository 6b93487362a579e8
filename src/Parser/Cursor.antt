-- ===== src/Parser/Cursor.antt =====
-- The cursor on a stream of tokens that ends in EOF.
use kavak.Base.{
  ℕ, ◌+◌, ◌-◌, ◌≤◌, ◌<◌, ◌≡◌, sym, ◌⊎◌, inl, inr, true, false, Option, none, some, ◌==◌,
  if◌then◌else◌, get_elem?, ap, ◌∙◌, add32, uint32_max, arith, Bool-cases,
}
use kavak.Token.{Token}
use kavak.Token.Kind
use kavak.Parser.{
  Parser, token_count, peek, previous, ends, at_end, step, advance, check, has_kind, eat,
}

-- A token list that ends in EOF and fits `uint32_t`, and a position in it.
pub record IsParser (p : Parser) : Type 0 where
  pub last : Token
  pub last_at : get_elem? p.tokens (token_count p - 1) ≡ some last
  pub last_eof : last.kind ≡ Kind.eof
  pub count_le : token_count p ≤ uint32_max
  pub pos_lt : p.pos < token_count p

-- Without the test for an empty list or a position at its end, `kavak_parser_peek` reads the token.
pub peek-get : (p : Parser) → p.pos < token_count p → peek p ≡ get_elem? p.tokens p.pos
unfolding peek
peek-get p h = ground arith

pub step_end : (p : Parser) → at_end p ≡ true → step p ≡ p
unfolding step
step_end p e = ap (λ b. if b then p else record p { pos = add32 p.pos 1 }) e

pub step_on : (p : Parser) → at_end p ≡ false → step p ≡ record p { pos = add32 p.pos 1 }
unfolding step
step_on p e = ap (λ b. if b then p else record p { pos = add32 p.pos 1 }) e

-- before EOF there is a next token
pub before_last : (p : Parser) → IsParser p → at_end p ≡ false → p.pos + 1 < token_count p
unfolding at_end
before_last p v e = elim (Bool-cases (p.pos == token_count p - 1)) [
  | inl same ↦
      let here : peek p ≡ some v.last =
        peek-get p v.pos_lt ∙ ap (get_elem? p.tokens) (ground (arith, same)) ∙ v.last_at in
      absurd (ground (arith, here, v.last_eof))
  | inr less ↦ ground (arith, v.pos_lt)
]

-- `parser_advance` keeps the position inside the tokens.
pub step-IsParser : (p : Parser) → IsParser p → IsParser (step p)
step-IsParser p v = elim (Bool-cases (at_end p)) [
  | inl stop ↦ rw (step_end p stop) v
  | inr on ↦
      let next = before_last p v on in
      rw (step_on p on) (record {
        last = v.last;
        last_at = v.last_at;
        last_eof = v.last_eof;
        count_le = v.count_le;
        pos_lt = omega (arith, v.count_le);
      })
]

-- What `parser_advance` promises, before EOF and at it.
abbrev pub Advanced : Parser → Option Token × Parser → Type 0
Advanced p r =
    ((at_end p ≡ false)
      × (r.0 ≡ peek p)
      × (r.1 ≡ record p { pos = p.pos + 1 })
      × (p.pos + 1 < token_count p))
    ⊎ ((at_end p ≡ true) × (r.0 ≡ previous p) × (r.1 ≡ p))

pub step_moved :
    (p : Parser) → IsParser p → at_end p ≡ false → step p ≡ record p { pos = p.pos + 1 }
step_moved p v on =
    step_on p on ∙ ap (λ n. record p { pos = n }) (ground (arith, v.pos_lt, v.count_le))

previous_moved :
    (p : Parser)
    → p.pos < token_count p
    → previous (record p { pos = p.pos + 1 }) ≡ get_elem? p.tokens p.pos
unfolding previous
previous_moved p h = ground arith

-- On a stream that ends in EOF, `parser_advance` before EOF returns the token at the cursor and moves past
-- it, inside the tokens; at EOF it stays and returns the token before, or NULL at the first token.
pub advance-Advanced : (p : Parser) → IsParser p → Advanced p (advance p)
unfolding advance
advance-Advanced p v = elim (Bool-cases (at_end p)) [
  | inl stop ↦ inr (stop, ap previous (step_end p stop), step_end p stop)
  | inr on ↦
      let moved = step_moved p v on in
      inl (
        on,
        ap previous moved ∙ previous_moved p v.pos_lt ∙ sym (peek-get p v.pos_lt),
        moved,
        before_last p v on,
      )
]

-- What `kavak_parser_eat` promises: another kind, a token before EOF, or EOF.
abbrev pub Eaten : Parser → ℕ → Option Token × Parser → Type 0
Eaten p kind r =
    ((check p kind ≡ false) × (r.0 ≡ none) × (r.1 ≡ p))
    ⊎ ((check p kind ≡ true)
        × ((kind == Kind.eof) ≡ false)
        × (r.0 ≡ peek p)
        × (r.1 ≡ record p { pos = p.pos + 1 }))
    ⊎ ((check p kind ≡ true) × (kind ≡ Kind.eof) × (r.0 ≡ previous p) × (r.1 ≡ p))

has_kind_end : (o : Option Token) (kind : ℕ) → has_kind o kind ≡ true → ends o ≡ (kind == Kind.eof)
has_kind_end none kind h = absurd (ground arith)
has_kind_end (some t) kind h = ap (λ k. k == Kind.eof) (ground (arith, h))

-- On a stream that ends in EOF, `kavak_parser_eat` returns NULL and stays on another kind; returns the
-- token and moves past it on a token of the kind; and where the kind is EOF, stays and returns the
-- token before EOF, which is NULL for an empty source.
pub eat-Eaten : (p : Parser) (kind : ℕ) → IsParser p → Eaten p kind (eat p kind)
unfolding eat check at_end
eat-Eaten p kind v = elim (Bool-cases (check p kind)) [
  | inr other ↦ inl (
    other,
    ap (λ b. (if b then advance p else (none, p)).0) other,
    ap (λ b. (if b then advance p else (none, p)).1) other,
  )
  | inl same ↦
      let first = ap (λ b. (if b then advance p else (none, p)).0) same in
      let second = ap (λ b. (if b then advance p else (none, p)).1) same in
      let ending : at_end p ≡ (kind == Kind.eof) = has_kind_end (peek p) kind same in
      inr (elim (advance-Advanced p v) [
        | inl (on, token, moved, _) ↦ inl (same, sym ending ∙ on, first ∙ token, second ∙ moved)
        | inr (stop, token, stay) ↦
            inr (same, ground (arith, sym ending ∙ stop), first ∙ token, second ∙ stay)
      ])
]
