-- ===== src/Token/Push.antt =====
-- What `kavak_token_vec_reserve` and `kavak_token_vec_push` promise.
use kavak.Base.{
  ℕ, zero, suc, ◌+◌, ◌*◌, ◌≤◌, ◌≡◌, ◌⊎◌, Bool, false, [], ◌∷◌, ◌++◌, Option, none, some, arith,
  length-append, uint32_max, add32, ap, sym, ◌∙◌, refl, List, inl, inr, Bool-cases, ◌==◌,
  if◌then◌else◌,
}
use kavak.Token.{Token, TokenVec, count, push_onto, reserve_cap, token_vec_reserve, token_vec_push}

-- The items fit into the capacity, which is a `uint32_t`.
pub record IsValid (t : TokenVec) : Type 0 where
  pub fits : count t ≤ t.cap
  pub cap_le : t.cap ≤ uint32_max

-- `c` doubled `fuel` times
abbrev doubled : ℕ → ℕ → ℕ
doubled zero c = c
doubled (suc fuel) c = doubled fuel (c * 2)

reserve_cap-bounds :
    (fuel c n : ℕ)
    → n ≤ doubled fuel c
    → n ≤ uint32_max
    → c ≤ uint32_max
    → (n ≤ reserve_cap fuel c n) × (c ≤ reserve_cap fuel c n) × (reserve_cap fuel c n ≤ uint32_max)
unfolding reserve_cap
reserve_cap-bounds zero c n h k l = (h, omega arith, l)
reserve_cap-bounds (suc fuel) c n h k l = ground (arith, reserve_cap-bounds fuel (c * 2) n h k)

-- The bytes that a call of `kavak_token_vec_reserve` asks of the allocator.
abbrev pub reserve_bytes : TokenVec → ℕ → ℕ
reserve_bytes t n = reserve_cap 32 (if t.cap == 0 then 16 else t.cap) n * 16

-- Capacity `n` is there, and the items are as before; or the allocation failed.
abbrev pub Reserved : (ℕ → Bool) → TokenVec → ℕ → Option TokenVec → Type 0
Reserved mem t n (some t') =
    (t'.items ≡ t.items) × (n ≤ t'.cap) × (t.cap ≤ t'.cap) × (t'.cap ≤ uint32_max)
Reserved mem t n none = mem (reserve_bytes t n) ≡ false

-- `kavak_token_vec_reserve` on a valid vector keeps the items, gives room for `n` of them, never
-- gives capacity up, and fails only where the allocation does.
pub token_vec_reserve-Reserved :
    (mem : ℕ → Bool) (t : TokenVec) (n : ℕ)
    → IsValid t
    → n ≤ uint32_max
    → Reserved mem t n (token_vec_reserve mem t n)
unfolding token_vec_reserve
token_vec_reserve-Reserved mem t n v h =
    let c = if t.cap == 0 then 16 else t.cap in
    let bounds = reserve_cap-bounds 32 c n (ground arith) h (ground arith) in ground (arith, bounds)

-- The token is the new last item; or the vector holds `UINT32_MAX` tokens or the allocation failed.
abbrev pub Pushed : (ℕ → Bool) → TokenVec → Token → Option TokenVec → Type 0
Pushed mem t token (some t') = (t'.items ≡ t.items ++ token ∷ []) × IsValid t'
Pushed mem t token none = (count t ≡ uint32_max) ⊎ (mem (reserve_bytes t (count t + 1)) ≡ false)

-- `kavak_token_vec_push` on a valid vector appends the token and leaves a valid vector, and fails
-- only at the largest count or where the allocation does.
pub token_vec_push-Pushed :
    (mem : ℕ → Bool) (t : TokenVec) (token : Token)
    → IsValid t
    → Pushed mem t token (token_vec_push mem t token)
unfolding token_vec_push
token_vec_push-Pushed mem t token v =
    ground
      (arith, token_vec_reserve-Reserved mem t (count t + 1) v, length-append t.items (token ∷ []))

reserve_items :
    (mem : ℕ → Bool) (t r : TokenVec) (n : ℕ)
    → token_vec_reserve mem t n ≡ some r
    → r.items ≡ t.items
unfolding token_vec_reserve
reserve_items mem t r n h = ground (arith, h)

onto_last :
    (token : Token) (items : List Token) (o : Option TokenVec) (t : TokenVec)
    → ((r : TokenVec) → o ≡ some r → r.items ≡ items)
    → push_onto token o ≡ some t
    → t.items ≡ items ++ token ∷ []
unfolding push_onto
onto_last token items none t same h = absurd (ground (arith, h))
onto_last token items (some r) t same h =
    ap (λ (o : Option TokenVec). elim o [ none ↦ items ++ token ∷ [] | some v ↦ v.items ]) (sym h)
    ∙ ap (λ l. l ++ token ∷ []) (same r refl)

-- the last item behind a push, whatever the vector
pub push_last :
    (mem : ℕ → Bool) (t t' : TokenVec) (token : Token)
    → token_vec_push mem t token ≡ some t'
    → t'.items ≡ t.items ++ token ∷ []
unfolding token_vec_push
push_last mem t t' token h = elim (Bool-cases (count t == t.cap)) [
  | inr room ↦
      onto_last token t.items (some t) t' (λ r e. ground (arith, e)) (ground (arith, h, room))
  | inl full ↦ elim (Bool-cases (count t == uint32_max)) [
    | inl limit ↦ absurd (ground (arith, h, full, limit))
    | inr below ↦
        onto_last token t.items (token_vec_reserve mem t (add32 (count t) 1)) t'
          (λ r e. reserve_items mem t r (add32 (count t) 1) e) (ground (arith, h, full, below))
  ]
]
