-- ===== src/Utf8/Decode.antt =====
-- The decoder accepts the encodings of the scalar values, and nothing else.
use kavak.Base.{
  ℕ, ◌≤◌, ◌<◌, ◌≡◌, List, [], ◌∷◌, ◌++◌, inl, inr, some, arith, length, drop, All, refl, ltb, leb,
  ◌&&◌, Bool-cases, ltb→lt,
}
use kavak.Utf8.{utf8_lead_len, utf8_decode}
use kavak.Utf8.Encode.{IsScalar, encode}

-- The decoder reads the encoding of every scalar value, whatever bytes follow it.
pub decode-encode :
    (cp : ℕ) (rest : List ℕ)
    → IsScalar cp
    → utf8_decode (encode cp ++ rest) ≡ some (cp, length (encode cp))
unfolding utf8_decode encode
decode-encode cp rest s = ground arith

-- What `decode_sound` says of one result.
abbrev pub Encodes : List ℕ → ℕ → ℕ → Type 0
Encodes bs cp n = IsScalar cp × (bs ≡ encode cp ++ drop n bs) × (n ≡ length (encode cp))

module _ (a b c d : ℕ) (bs : List ℕ) {cp n : ℕ} where
  sound_ascii :
      a < 0x80 → utf8_decode (a ∷ b ∷ c ∷ d ∷ bs) ≡ some (cp, n) → Encodes (a ∷ b ∷ c ∷ d ∷ bs) cp n
  unfolding utf8_decode encode
  sound_ascii h e = ground arith

  sound_two :
      0xC2 ≤ a
      → a ≤ 0xDF
      → b < 256
      → utf8_decode (a ∷ b ∷ c ∷ d ∷ bs) ≡ some (cp, n)
      → Encodes (a ∷ b ∷ c ∷ d ∷ bs) cp n
  unfolding utf8_decode encode
  sound_two h k hb e = ground arith

  sound_three :
      0xE0 ≤ a
      → a ≤ 0xEF
      → b < 256
      → c < 256
      → utf8_decode (a ∷ b ∷ c ∷ d ∷ bs) ≡ some (cp, n)
      → Encodes (a ∷ b ∷ c ∷ d ∷ bs) cp n
  unfolding utf8_decode encode
  sound_three h k hb hc e = ground arith

  sound_four :
      0xF0 ≤ a
      → a ≤ 0xF4
      → b < 256
      → c < 256
      → d < 256
      → utf8_decode (a ∷ b ∷ c ∷ d ∷ bs) ≡ some (cp, n)
      → Encodes (a ∷ b ∷ c ∷ d ∷ bs) cp n
  unfolding utf8_decode encode
  sound_four h k hb hc hd e = ground arith

  sound_invalid :
      utf8_lead_len a ≡ 0
      → utf8_decode (a ∷ b ∷ c ∷ d ∷ bs) ≡ some (cp, n)
      → Encodes (a ∷ b ∷ c ∷ d ∷ bs) cp n
  unfolding utf8_decode
  sound_invalid h e = ground arith

-- The lead bytes by the length that they announce.
data Lead (a : ℕ) : Type 0 where
  ascii : a < 0x80 → Lead a
  two : 0xC2 ≤ a → a ≤ 0xDF → Lead a
  three : 0xE0 ≤ a → a ≤ 0xEF → Lead a
  four : 0xF0 ≤ a → a ≤ 0xF4 → Lead a
  invalid : utf8_lead_len a ≡ 0 → Lead a

lead_of : (a : ℕ) → Lead a
unfolding utf8_lead_len
lead_of a = elim (Bool-cases (ltb a 0x80)) [
  | inl h ↦ ascii (ltb→lt _ _ h)
  | inr h ↦ elim (Bool-cases (leb 0xC2 a && leb a 0xDF)) [
    | inl k ↦ two (ground arith) (ground arith)
    | inr k ↦ elim (Bool-cases (leb 0xE0 a && leb a 0xEF)) [
      | inl l ↦ three (ground arith) (ground arith)
      | inr l ↦ elim (Bool-cases (leb 0xF0 a && leb a 0xF4)) [
        | inl m ↦ four (ground arith) (ground arith)
        | inr m ↦ invalid (rw (h, k, l, m) refl)
      ]
    ]
  ]
]

-- On bytes, what the decoder accepts begins with the encoding of the scalar value that it returns,
-- and the length that it returns is that encoding's.
pub decode_sound :
    (bs : List ℕ) {cp n : ℕ}
    → All (λ b. b < 256) bs
    → utf8_decode bs ≡ some (cp, n)
    → IsScalar cp × (bs ≡ encode cp ++ drop n bs) × (n ≡ length (encode cp))
unfolding utf8_decode encode
decode_sound [] v e = ground arith
decode_sound (a ∷ []) v e = ground arith
decode_sound (a ∷ b ∷ []) v e = ground arith
decode_sound (a ∷ b ∷ c ∷ []) v e = ground arith
decode_sound (a ∷ b ∷ c ∷ d ∷ bs) v e = elim (lead_of a) [
  | ascii h ↦ sound_ascii a b c d bs h e
  | two h k ↦ sound_two a b c d bs h k v.1.0 e
  | three h k ↦ sound_three a b c d bs h k v.1.0 v.1.1.0 e
  | four h k ↦ sound_four a b c d bs h k v.1.0 v.1.1.0 v.1.1.1.0 e
  | invalid h ↦ sound_invalid a b c d bs h e
]

-- A decoded sequence lies within the bytes, and has one to four of them.
pub decode_bounds :
    (bs : List ℕ) {cp n : ℕ} → utf8_decode bs ≡ some (cp, n) → (n ≤ length bs) × (0 < n) × (n ≤ 4)
unfolding utf8_decode
decode_bounds [] e = ground arith
decode_bounds (a ∷ bs) e = ground arith
