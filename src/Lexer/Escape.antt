-- ===== src/Lexer/Escape.antt =====
-- Hexadecimal escapes: `kavak_scan_hex_escape` of src/lexer.c. A range `[s, end)` is the list of its bytes.
pub mod Text
pub mod Sound
use kavak.Base.{
  ℕ, zero, suc, ◌+◌, ◌-◌, ◌*◌, ◌%◌, Bool, true, false, not, ◌&&◌, ◌||◌, List, [], ◌∷◌, Option, none,
  some, ltb, leb, ◌==◌, if◌then◌else◌, length,
}

-- `ascii_digit_value`; -1 is `none`
unfoldable pub ascii_digit_value : ℕ → Option ℕ
ascii_digit_value c =
    if leb b'0' c && leb c b'9'
    then some (c - b'0')
    else if leb b'a' c && leb c b'f'
    then some (10 + (c - b'a'))
    else if leb b'A' c && leb c b'F'
    then some (10 + (c - b'A'))
    else none

-- `is_unicode_scalar`
unfoldable pub is_unicode_scalar : ℕ → Bool
is_unicode_scalar cp = leb cp 0x10FFFF && not (leb 0xD800 cp && leb cp 0xDFFF)

-- `(cp << 4) | d`: a sum, since the shift leaves the low four bits clear
abbrev pub shift_in : ℕ → ℕ → ℕ
shift_in cp d = (cp * 16) % 4294967296 + d

-- the `switch` over the form
abbrev pub fixed_width : ℕ → Option ℕ
fixed_width form =
    if form == b'x'
    then some 2
    else if form == b'u'
    then some 4
    else if form == b'U'
    then some 8
    else none

-- the loop of the braced form, with the tests behind it: the code point, and the bytes from `{` on
unfoldable pub scan_braced : ℕ → ℕ → List ℕ → Option (ℕ × ℕ)
unfolding is_unicode_scalar
scan_braced cp digits [] = none
scan_braced cp digits (b ∷ s) =
    if b == b'}'
    then if digits == 0 || not (is_unicode_scalar cp) then none else some (cp, digits + 2)
    else elim (ascii_digit_value b) [
      | some d ↦ if digits == 6 then none else scan_braced (shift_in cp d) (digits + 1) s
      | none ↦ none
    ]

-- the loop of the fixed-width form, `n` digits left
unfoldable pub scan_fixed : ℕ → ℕ → List ℕ → Option ℕ
scan_fixed zero cp s = some cp
scan_fixed (suc n) cp [] = none
scan_fixed (suc n) cp (b ∷ s) = elim (ascii_digit_value b) [
  | some d ↦ scan_fixed n (shift_in cp d) s
  | none ↦ none
]

-- the tests behind that loop
unfoldable pub accept_fixed : ℕ → ℕ → Option ℕ → Option (ℕ × ℕ)
accept_fixed form width none = none
accept_fixed form width (some cp) =
    if not (form == b'x') && not (is_unicode_scalar cp) then none else some (cp, width)

-- the fixed-width form
unfoldable pub scan_width : ℕ → ℕ → List ℕ → Option (ℕ × ℕ)
unfolding accept_fixed
scan_width form width s =
    if ltb (length s) width then none else accept_fixed form width (scan_fixed width 0 s)

-- `kavak_scan_hex_escape`: the code point and the bytes behind the form, where 0 is `none`
unfoldable pub scan_hex_escape : List ℕ → ℕ → Option (ℕ × ℕ)
unfolding scan_width scan_braced
scan_hex_escape [] form = none
scan_hex_escape (b ∷ s) form = elim (fixed_width form) [
  | some width ↦
      if form == b'u' && b == b'{' then scan_braced 0 0 s else scan_width form width (b ∷ s)
  | none ↦ none
]
