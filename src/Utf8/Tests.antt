-- ===== src/Utf8/Tests.antt =====
-- Runs of the decoder.
use kavak.Base.{ℕ, ◌≡◌, refl, List, [], ◌∷◌, ◌++◌, inr, none, some, arith, length}
use kavak.Utf8.{utf8_decode}
use kavak.Utf8.Encode.{encode}
use kavak.Utf8.Decode.{Encodes, decode-encode, decode_sound}

-- the euro sign, and an `x` behind it
abbrev euro : List ℕ
euro = 0xE2 ∷ 0x82 ∷ 0xAC ∷ b'x' ∷ []

decode_euro : utf8_decode euro ≡ some (0x20AC, 3)
unfolding utf8_decode
decode_euro = refl

-- a surrogate, and an overlong slash
decode_surrogate : utf8_decode (0xED ∷ 0xA0 ∷ 0x80 ∷ []) ≡ none
unfolding utf8_decode
decode_surrogate = refl

decode_overlong : utf8_decode (0xE0 ∷ 0x80 ∷ 0xAF ∷ []) ≡ none
unfolding utf8_decode
decode_overlong = refl

decode-encode_example :
    utf8_decode (encode 0x1F600 ++ (b'x' ∷ [])) ≡ some (0x1F600, length (encode 0x1F600))
decode-encode_example = decode-encode 0x1F600 (b'x' ∷ []) (inr (omega arith, omega arith))

decode_sound_example : Encodes euro 0x20AC 3
unfolding utf8_decode
decode_sound_example = decode_sound euro (omega arith) refl
