-- ===== src/Utf8.antt =====
-- src/utf8.c: the UTF-8 decoder and the ASCII identifier predicates. A range `[p, end)` of the
-- source is the list of its bytes, each below 256.
pub mod Encode
pub mod Decode
mod Tests
use kavak.Base.{
  ℕ, zero, suc, ◌+◌, ◌-◌, ◌*◌, ◌/◌, ◌%◌, ◌^◌, Bool, not, ◌&&◌, ◌||◌, List, [], ◌∷◌, Option, none,
  some, ltb, leb, ◌==◌, if◌then◌else◌, length, uint32_max,
}

-- `utf8_lead_len`
unfoldable pub utf8_lead_len : ℕ → ℕ
utf8_lead_len lead =
    if ltb lead 0x80
    then 1
    else if leb 0xC2 lead && leb lead 0xDF
    then 2
    else if leb 0xE0 lead && leb lead 0xEF
    then 3
    else if leb 0xF0 lead && leb lead 0xF4
    then 4
    else 0

-- `lead & lead_mask[len]`: the masks keep the low 7, 5, 4 and 3 bits.
lead_payload : ℕ → ℕ → ℕ
lead_payload lead len =
    if len == 1
    then lead % 128
    else if len == 2
    then lead % 32
    else if len == 3
    then lead % 16
    else if len == 4
    then lead % 8
    else 0

-- `min_cp[len]`
min_cp : ℕ → ℕ
min_cp len = if len == 2 then 0x80 else if len == 3 then 0x800 else if len == 4 then 0x10000 else 0

-- The loop over the continuation bytes, `n` of them left. `(cp << 6) | (cont & 0x3F)` is a sum,
-- since the shift leaves the low six bits clear; it is taken modulo 2^32.
utf8_continue : ℕ → ℕ → List ℕ → Option ℕ
utf8_continue zero cp bytes = some cp
utf8_continue (suc n) cp [] = none
utf8_continue (suc n) cp (cont ∷ bytes) =
    let rest = utf8_continue n ((cp * 64 + cont % 64) % 4294967296) bytes in
    if not ((cont / 64) % 4 == 2) then none else rest

-- The tests behind the loop: overlong forms, values beyond Unicode, surrogates.
utf8_check : ℕ → ℕ → Option (ℕ × ℕ)
unfolding min_cp
utf8_check len cp =
    if ltb cp (min_cp len)
    then none
    else if ltb 0x10FFFF cp
    then none
    else if leb 0xD800 cp && leb cp 0xDFFF
    then none
    else some (cp, len)

utf8_finish : ℕ → Option ℕ → Option (ℕ × ℕ)
utf8_finish len none = none
utf8_finish len (some cp) = utf8_check len cp

-- `kavak_utf8_decode`: the code point with the bytes that it takes, or `none` for the result 0.
unfoldable pub utf8_decode : List ℕ → Option (ℕ × ℕ)
unfolding utf8_lead_len lead_payload utf8_continue utf8_check utf8_finish
utf8_decode [] = none
utf8_decode (lead ∷ bytes) =
    let len = utf8_lead_len lead in
    if len == 0 || ltb (length (lead ∷ bytes)) len
    then none
    else utf8_finish len (utf8_continue (len - 1) (lead_payload lead len) bytes)

-- `kavak_ascii_is_ident_start`
unfoldable pub ascii_is_ident_start : ℕ → Bool
ascii_is_ident_start cp = (leb b'A' cp && leb cp b'Z') || (leb b'a' cp && leb cp b'z') || cp == b'_'

-- `kavak_ascii_is_ident_cont`
unfoldable pub ascii_is_ident_cont : ℕ → Bool
unfolding ascii_is_ident_start
ascii_is_ident_cont cp = ascii_is_ident_start cp || (leb b'0' cp && leb cp b'9')
