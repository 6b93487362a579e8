-- ===== src/Lexer/Escape/Text.antt =====
-- The texts of hexadecimal escapes, for src/lexer.c, and the values of their digits.
use kavak.Base.{ℕ, zero, suc, ◌+◌, ◌*◌, ◌≤◌, ◌<◌, ◌≡◌, ◌⊎◌, true, List, [], ◌∷◌, ◌++◌, some, arith}
use kavak.Lexer.Escape.{ascii_digit_value, is_unicode_scalar, shift_in}

-- A byte that is a hexadecimal digit of a value, in either case.
abbrev pub IsDigit : ℕ → ℕ → Type 0
IsDigit b d =
    ((b ≡ b'0' + d) × (d ≤ 9)) ⊎ ((10 ≤ d) × (d ≤ 15) × ((b + 10 ≡ b'a' + d) ⊎ (b + 10 ≡ b'A' + d)))

-- A text of `n` hexadecimal digits with its value.
pub data Hex : ℕ → List ℕ → ℕ → Type 0 where
  empty : Hex 0 [] 0
  digit :
      {n v b d : ℕ} {text : List ℕ}
      → Hex n text v
      → IsDigit b d
      → Hex (suc n) (text ++ b ∷ []) (v * 16 + d)

-- A Unicode scalar value.
abbrev pub IsScalar : ℕ → Type 0
IsScalar cp = (cp ≤ 0x10FFFF) × ((cp < 0xD800) ⊎ (0xDFFF < cp))

-- The texts of escapes behind the letter of their form: `\xHH`, `\uHHHH`, `\UHHHHHHHH` and `\u{H…}`.
pub data Escape : ℕ → List ℕ → ℕ → ℕ → Type 0 where
  raw : {text : List ℕ} {v : ℕ} → Hex 2 text v → Escape b'x' text v 2
  short : {text : List ℕ} {v : ℕ} → Hex 4 text v → IsScalar v → Escape b'u' text v 4
  long : {text : List ℕ} {v : ℕ} → Hex 8 text v → IsScalar v → Escape b'U' text v 8
  braced :
      {n v : ℕ} {text : List ℕ}
      → Hex n text v
      → 0 < n
      → n ≤ 6
      → IsScalar v
      → Escape b'u' (b'{' ∷ text ++ b'}' ∷ []) v (n + 2)

ascii_digit_value-IsDigit : (b d : ℕ) → ascii_digit_value b ≡ some d → IsDigit b d
unfolding ascii_digit_value
ascii_digit_value-IsDigit b d h = ground (arith, h)

pub is_unicode_scalar-IsScalar : (cp : ℕ) → is_unicode_scalar cp ≡ true → IsScalar cp
unfolding is_unicode_scalar
is_unicode_scalar-IsScalar cp h = ground (arith, h)

-- sixteen to the power
abbrev hex_cap : ℕ → ℕ
hex_cap zero = 1
hex_cap (suc n) = 16 * hex_cap n

Hex-hex_cap : {n v : ℕ} {text : List ℕ} → Hex n text v → v < hex_cap n
Hex-hex_cap empty = ground arith
Hex-hex_cap (digit {n} {v} {b} {d} h is_digit) =
    let small : d ≤ 15 = ground (arith, is_digit) in ground (arith, small, Hex-hex_cap h)

hex_cap_le : (n k : ℕ) → n ≤ k → hex_cap n ≤ hex_cap k
hex_cap_le zero zero h = ground arith
hex_cap_le zero (suc k) h = ground (arith, hex_cap_le zero k (ground arith))
hex_cap_le (suc n) zero h = absurd (ground (arith, h))
hex_cap_le (suc n) (suc k) h = ground (arith, hex_cap_le n k (ground (arith, h)))

-- up to seven digits leave room for one more
shift_in_exact :
    {n v : ℕ} {text : List ℕ} (d : ℕ) → Hex n text v → n ≤ 7 → shift_in v d ≡ v * 16 + d
shift_in_exact {n} {v} d h few = ground (arith, Hex-hex_cap h, hex_cap_le n 7 few)

-- one digit more
pub Hex-shift_in :
    {n v : ℕ} {text : List ℕ} (b d : ℕ)
    → Hex n text v
    → n ≤ 7
    → ascii_digit_value b ≡ some d
    → Hex (suc n) (text ++ b ∷ []) (shift_in v d)
Hex-shift_in b d h few got =
    rw (shift_in_exact d h few) (digit h (ascii_digit_value-IsDigit b d got))
