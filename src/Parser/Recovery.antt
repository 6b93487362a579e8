-- ===== src/Parser/Recovery.antt =====
-- Error recovery: `kavak_parser_recover_to` and `kavak_parser_recover_to_targets` of src/parser.c. The
-- loop runs on fuel, one more than the tokens after the cursor; `none` is a loop that has not ended.
use kavak.Base.{
  ℕ, zero, suc, ◌+◌, ◌-◌, ◌<◌, ◌≡◌, sym, ap, ◌∙◌, inl, inr, ◌⊎◌, Bool, true, false, not, ◌&&◌, ◌||◌,
  List, [], ◌∷◌, ◌++◌, Option, none, some, ltb, ◌==◌, if◌then◌else◌, length, get_elem?, get_lt,
  drop, drop-get, uint32_max, arith, Bool-cases,
}
use kavak.Token.{Token}
use kavak.Token.Kind
use kavak.Parser.{Parser, token_count, peek, ends, at_end, step}
use kavak.Parser.Cursor.{IsParser, peek-get, step-IsParser, step_moved}

-- `KavakRecoveryTarget`
pub record RecoveryTarget : Type 0 where
  pub kind : ℕ
  pub v : ℕ
  pub match_v : Bool

-- the opening and the closing brackets of the tests
abbrev pub opens : Token → Bool
opens token = token.kind == Kind.punct && (token.v == b'(' || (token.v == b'[' || token.v == b'{'))

abbrev pub closes : Token → Bool
closes token = token.kind == Kind.punct && (token.v == b')' || (token.v == b']' || token.v == b'}'))

-- the loops over the targets
unfoldable pub kind_in : ℕ → List ℕ → Bool
kind_in kind [] = false
kind_in kind (k ∷ kinds) = kind == k || kind_in kind kinds

unfoldable pub target_in : Token → List RecoveryTarget → Bool
target_in token [] = false
target_in token (t ∷ targets) =
    let later = target_in token targets in
    if not (token.kind == t.kind)
    then later
    else if t.match_v && not (token.v == t.v)
    then later
    else true

-- `recovery_target_matches` and `recovery_targets_match`, on a token that is not NULL
unfoldable pub recovery_target_matches : List ℕ → Token → Bool
unfolding kind_in
recovery_target_matches kinds token = if opens token then false else kind_in token.kind kinds

unfoldable pub recovery_targets_match : List RecoveryTarget → Token → Bool
unfolding target_in
recovery_targets_match targets token = if opens token then false else target_in token targets

-- `recovery_update_depth`: the depth afterwards
unfoldable pub recovery_update_depth : Token → ℕ → ℕ
recovery_update_depth token depth =
    if opens token
    then if ltb depth uint32_max then depth + 1 else depth
    else if closes token
    then if not (depth == 0) && not (depth == uint32_max) then depth - 1 else depth
    else depth

-- the body of the loops from a parser that is not at its end, on the token at the cursor
abbrev pub or_depth : Option Token → ℕ → ℕ
or_depth none depth = depth
or_depth (some token) depth = recovery_update_depth token depth

abbrev pub stops_at : (Token → Bool) → Option Token → ℕ → Bool
stops_at matches none depth = false
stops_at matches (some token) depth = depth == 0 && matches token

-- the loop that both functions share, with the test for a target
unfoldable pub recover_loop : (Token → Bool) → ℕ → Parser → ℕ → Option Parser
recover_loop matches zero p depth = none
recover_loop matches (suc fuel) p depth = elim (at_end p) [
  | true ↦ some p
  | false ↦ elim (stops_at matches (peek p) depth) [
    | true ↦ some p
    | false ↦ recover_loop matches fuel (step p) (or_depth (peek p) depth)
  ]
]

-- `kavak_parser_recover_to`
unfoldable pub recover_to : Parser → List ℕ → Option Parser
recover_to p kinds = recover_loop (recovery_target_matches kinds) (token_count p - p.pos + 1) p 0

-- `kavak_parser_recover_to_targets`
unfoldable pub recover_to_targets : Parser → List RecoveryTarget → Option Parser
recover_to_targets p targets =
    recover_loop (recovery_targets_match targets) (token_count p - p.pos + 1) p 0

-- The bracket depth after some tokens.
abbrev pub depth_after : ℕ → List Token → ℕ
depth_after depth [] = depth
depth_after depth (t ∷ ts) = depth_after (recovery_update_depth t depth) ts

-- Tokens that a recovery passes over: none is EOF, and none is a target at depth 0.
abbrev pub Passed : (Token → Bool) → ℕ → List Token → Type 0
Passed matches depth [] = Unit
Passed matches depth (t ∷ ts) =
    ((t.kind == Kind.eof) ≡ false)
    × ((depth == 0 && matches t) ≡ false)
    × Passed matches (recovery_update_depth t depth) ts

-- Where a recovery from `p` ends: the loop has ended, all it changed is the position, the tokens
-- before that are passed over, and the token there is EOF or a target outside all brackets.
abbrev pub Recovered : (Token → Bool) → ℕ → Parser → Option Parser → Type 0
Recovered matches depth p none = ⊥
Recovered matches depth p (some p') =
    (skipped : List Token) × (stop : Token) × (rest : List Token) × (p'
      ≡ record p { pos = p.pos + length skipped })
    × (drop p.pos p.tokens ≡ skipped ++ stop ∷ rest)
    × Passed matches depth skipped
    × ((stop.kind ≡ Kind.eof) ⊎ ((depth_after depth skipped ≡ 0) × (matches stop ≡ true)))

at_end_kind : (p : Parser) (t : Token) → peek p ≡ some t → at_end p ≡ (t.kind == Kind.eof)
unfolding at_end
at_end_kind p t here = ap ends here

and_zero : (n : ℕ) (b : Bool) → (n == 0 && b) ≡ true → (n ≡ 0) × (b ≡ true)
and_zero n b h = ground arith

module _ (matches : Token → Bool) where
  -- a recovery that stops at the token at the cursor
  stop_here :
      (p : Parser) (depth : ℕ) (t : Token)
      → get_elem? p.tokens p.pos ≡ some t
      → (t.kind ≡ Kind.eof) ⊎ ((depth ≡ 0) × (matches t ≡ true))
      → Recovered matches depth p (some p)
  stop_here p depth t at_ why = (
    [],
    t,
    drop (p.pos + 1) p.tokens,
    ap (λ n. record p { pos = n }) (omega arith),
    drop-get p.tokens p.pos at_,
    tt,
    why,
  )

  -- a recovery that passes over the token at the cursor
  pass_over :
      (p : Parser) (depth : ℕ) (t : Token) (r : Option Parser)
      → get_elem? p.tokens p.pos ≡ some t
      → (t.kind == Kind.eof) ≡ false
      → (depth == 0 && matches t) ≡ false
      → Recovered matches (recovery_update_depth t depth) (record p { pos = p.pos + 1 }) r
      → Recovered matches depth p r
  pass_over p depth t none at_ on go h = h
  pass_over p depth t (some p') at_ on go (skipped, stop, rest, same, split, passed, why) = (
    t ∷ skipped,
    stop,
    rest,
    same ∙ ap (λ n. record p { pos = n }) (omega arith),
    drop-get p.tokens p.pos at_ ∙ ap (◌∷◌ t) split,
    (on, go, passed),
    why,
  )

  recover_loop-Recovered :
      (fuel : ℕ) (p : Parser) (depth : ℕ)
      → IsParser p
      → token_count p < fuel + p.pos
      → Recovered matches depth p (recover_loop matches fuel p depth)
  unfolding recover_loop
  recover_loop-Recovered zero p depth v enough = absurd (omega (arith, v.pos_lt))
  recover_loop-Recovered (suc fuel) p depth v enough =
      let (t, got) = get_lt p.tokens p.pos v.pos_lt in
      let here : peek p ≡ some t = peek-get p v.pos_lt ∙ got in
      let kind : at_end p ≡ (t.kind == Kind.eof) = at_end_kind p t here in
      let target : stops_at matches (peek p) depth ≡ (depth == 0 && matches t) =
        ap (λ o. stops_at matches o depth) here in
      elim (Bool-cases (at_end p)) [
        | inl stop ↦
            rw (stop, recover_loop)
              (stop_here p depth t got (inl (ground (arith, sym kind ∙ stop))))
        | inr on ↦ elim (Bool-cases (stops_at matches (peek p) depth)) [
          | inl hit ↦
              let both = sym target ∙ hit in
              rw (on, recover_loop, hit)
                (stop_here p depth t got (inr (and_zero depth (matches t) both)))
          | inr miss ↦
              let next : Parser = record p { pos = p.pos + 1 } in
              let depth' = recovery_update_depth t depth in
              let moved : step p ≡ next = step_moved p v on in
              rw (on, recover_loop, miss, moved, here)
                (pass_over p depth t (recover_loop matches fuel next depth') got (sym kind ∙ on)
                  (sym target ∙ miss)
                  (recover_loop-Recovered fuel next depth' (rw moved at (step-IsParser p v))
                    (omega (arith, enough))))
        ]
      ]

-- On a stream that ends in EOF, `kavak_parser_recover_to` returns, with only
-- the position moved, to the first token that is EOF or that is a target outside the brackets opened
-- since the start: all before it are neither.
pub recover_to-Recovered :
    (p : Parser) (kinds : List ℕ)
    → IsParser p
    → Recovered (recovery_target_matches kinds) 0 p (recover_to p kinds)
unfolding recover_to
recover_to-Recovered p kinds v =
    recover_loop-Recovered (recovery_target_matches kinds) (token_count p - p.pos + 1) p 0 v
      (omega (arith, v.pos_lt))

-- On a stream that ends in EOF, `kavak_parser_recover_to_targets` returns, with only the position
-- moved, to the first token that is EOF or that is a target outside the brackets opened since the
-- start: all before it are neither.
pub recover_to_targets-Recovered :
    (p : Parser) (targets : List RecoveryTarget)
    → IsParser p
    → Recovered (recovery_targets_match targets) 0 p (recover_to_targets p targets)
unfolding recover_to_targets
recover_to_targets-Recovered p targets v =
    recover_loop-Recovered (recovery_targets_match targets) (token_count p - p.pos + 1) p 0 v
      (omega (arith, v.pos_lt))
