-- ===== src/Lexer/Escape/Sound.antt =====
-- Hexadecimal escapes of src/lexer.c: what is accepted, and with which value.
use kavak.Base.{
  ℕ, zero, suc, ◌+◌, ◌≤◌, ◌<◌, ◌≡◌, inl, inr, refl, sym, ap, ◌∙◌, false, not, ◌&&◌, ◌||◌, List, [],
  ◌∷◌, ◌++◌, some, ltb, ◌==◌, length, length-append, append_assoc, append_nil, arith, Bool-cases,
  Option-cases,
}
use kavak.Lexer.Escape.{
  ascii_digit_value, is_unicode_scalar, shift_in, scan_braced, scan_fixed, accept_fixed, scan_width,
  scan_hex_escape,
}
use kavak.Lexer.Escape.Text.{
  Hex, empty, digit, IsScalar, Escape, raw, short, long, braced, is_unicode_scalar-IsScalar,
  Hex-shift_in,
}

-- What a loop has read behind the digits before it
abbrev Read : ℕ → List ℕ → List ℕ → ℕ → Type 0
Read w before s v =
    (more : List ℕ) × (rest : List ℕ) × (s ≡ more ++ rest) × Hex w (before ++ more) v

Read-more :
    (w : ℕ) (before : List ℕ) (b : ℕ) (s : List ℕ) (v : ℕ)
    → Read w (before ++ b ∷ []) s v
    → Read w before (b ∷ s) v
Read-more w before b s v (more, rest, split, h) =
    (b ∷ more, rest, ap (◌∷◌ b) split, rw (append_assoc before (b ∷ []) more) at h)

scan_fixed-Read :
    (i n w cp : ℕ) (before s : List ℕ) (v : ℕ)
    → Hex n before cp
    → i + n ≡ w
    → w ≤ 8
    → scan_fixed i cp s ≡ some v
    → Read w before s v
unfolding scan_fixed
scan_fixed-Read zero n w cp before s v h e few got =
    let same : cp ≡ v = ground (arith, got) in
    let whole : n ≡ w = ground (arith, e) in
    ([], s, refl, rw (append_nil before, ← whole, ← same) h)
scan_fixed-Read (suc i) n w cp before [] v h e few got = absurd (ground (arith, got))
scan_fixed-Read (suc i) n w cp before (b ∷ s) v h e few got =
    elim (Option-cases (ascii_digit_value b)) [
      | inl other ↦ absurd (ground (arith, rw (other, scan_fixed) at got))
      | inr (d, is_digit) ↦ Read-more w before b s v (
          scan_fixed-Read i (suc n) w (shift_in cp d) (before ++ b ∷ []) s v
            (Hex-shift_in b d h (ground (arith, e, few)) is_digit) (ground (arith, e)) few
            (rw (is_digit, scan_fixed) at got))
    ]

-- What the braced loop has read, with the closing brace
abbrev Closed : List ℕ → List ℕ → ℕ → ℕ → Type 0
Closed before s v w =
    (m : ℕ) × (more : List ℕ) × (rest : List ℕ) × (s ≡ more ++ b'}' ∷ rest)
    × Hex m (before ++ more) v
    × (0 < m)
    × (m ≤ 6)
    × IsScalar v
    × (m + 2 ≡ w)

Closed-more :
    (before : List ℕ) (b : ℕ) (s : List ℕ) (v w : ℕ)
    → Closed (before ++ b ∷ []) s v w
    → Closed before (b ∷ s) v w
Closed-more before b s v w (m, more, rest, split, h, some_, few, scalar, width) = (
  m,
  b ∷ more,
  rest,
  ap (◌∷◌ b) split,
  rw (append_assoc before (b ∷ []) more) at h,
  some_,
  few,
  scalar,
  width,
)

scan_braced-Closed :
    (n cp : ℕ) (before s : List ℕ) (v w : ℕ)
    → Hex n before cp
    → n ≤ 6
    → scan_braced cp n s ≡ some (v, w)
    → Closed before s v w
unfolding scan_braced
scan_braced-Closed n cp before [] v w h few got = absurd (ground (arith, got))
scan_braced-Closed n cp before (b ∷ s) v w h few got = elim (Bool-cases (b == b'}')) [
  | inl ends ↦ elim (Bool-cases (n == 0 || not (is_unicode_scalar cp))) [
    | inl bad ↦ absurd (ground (arith, rw (ends, scan_braced, bad) at got))
    | inr good ↦
        let got' = rw (ends, scan_braced, good) at got in
        let value : cp ≡ v = ground (arith, got') in
        let width : n + 2 ≡ w = ground (arith, got') in
        let brace : b ≡ b'}' = ground (arith, ends) in
        let scalar = is_unicode_scalar-IsScalar cp (ground (arith, good)) in
        (
          n,
          [],
          s,
          ap (λ b. b ∷ s) brace,
          rw (append_nil before, ← value) h,
          ground (arith, good),
          few,
          rw (← value) scalar,
          width,
        )
  ]
  | inr inside ↦ elim (Option-cases (ascii_digit_value b)) [
    | inl other ↦ absurd (ground (arith, rw (inside, scan_braced, other) at got))
    | inr (d, is_digit) ↦ elim (Bool-cases (n == 6)) [
      | inl full ↦ absurd (ground (arith, rw (inside, scan_braced, is_digit, full) at got))
      | inr room ↦
          let next : n + 1 ≡ suc n = ground arith in
          Closed-more before b s v w (
            scan_braced-Closed (n + 1) (shift_in cp d) (before ++ b ∷ []) s v w
              (rw next (Hex-shift_in b d h (ground (arith, few, room)) is_digit))
              (ground (arith, few, room)) (rw (inside, scan_braced, is_digit, room) at got))
    ]
  ]
]

-- An escape in front of a text, with its code point and the bytes that it takes.
abbrev pub Escapes : ℕ → List ℕ → ℕ → ℕ → Type 0
Escapes form s cp w =
    (text : List ℕ) × (rest : List ℕ) × (s ≡ text ++ rest)
    × (length text ≡ w)
    × Escape form text cp w

Hex-length : {n v : ℕ} {text : List ℕ} → Hex n text v → length text ≡ n
Hex-length empty = refl
Hex-length (digit {n} {v} {b} {d} {text} h is_digit) =
    ground (arith, length-append text (b ∷ []), Hex-length h)

scan_width-Read :
    (form width : ℕ) (s : List ℕ) (cp w : ℕ)
    → width ≤ 8
    → scan_width form width s ≡ some (cp, w)
    → (width ≡ w) × Read width [] s cp × ((form == b'x') ≡ false → IsScalar cp)
unfolding scan_width accept_fixed
scan_width-Read form width s cp w few got = elim (Bool-cases (ltb (length s) width)) [
  | inl short_ ↦ absurd (ground (arith, rw (short_, scan_width) at got))
  | inr enough ↦ elim (Option-cases (scan_fixed width 0 s)) [
    | inl none_ ↦ absurd (ground (arith, rw (enough, scan_width, none_) at got))
    | inr (v, read) ↦ elim (Bool-cases (not (form == b'x') && not (is_unicode_scalar v))) [
      | inl bad ↦ absurd (ground (arith, rw (enough, scan_width, read, accept_fixed, bad) at got))
      | inr good ↦
          let got' = rw (enough, scan_width, read, accept_fixed, good) at got in
          let value : v ≡ cp = ground (arith, got') in
          (
            ground (arith, got'),
            rw (← value) (scan_fixed-Read width 0 width 0 [] s v empty (ground arith) few read),
            λ other. rw (← value) (is_unicode_scalar-IsScalar v (ground (arith, good, other))),
          )
    ]
  ]
]

-- a read text of digits is an escape of its form
Read-Escapes :
    (form w : ℕ) (s : List ℕ) (cp : ℕ)
    → ((text : List ℕ) → Hex w text cp → Escape form text cp w)
    → Read w [] s cp
    → Escapes form s cp w
Read-Escapes form w s cp make (text, rest, split, h) =
    (text, rest, split, Hex-length h, make text h)

Closed-Escapes : (s : List ℕ) (cp w : ℕ) → Closed [] s cp w → Escapes b'u' (b'{' ∷ s) cp w
Closed-Escapes s cp w (m, text, rest, split, h, some_, few, scalar, width) = (
  b'{' ∷ text ++ b'}' ∷ [],
  rest,
  ap (◌∷◌ b'{') (split ∙ sym (append_assoc text (b'}' ∷ []) rest)),
  ground (arith, length-append text (b'}' ∷ []), Hex-length h, width),
  rw (← width) (braced h some_ few scalar),
)

raw_form :
    (b : ℕ) (s : List ℕ) (cp w : ℕ)
    → scan_hex_escape (b ∷ s) b'x' ≡ some (cp, w)
    → Escapes b'x' (b ∷ s) cp w
unfolding scan_hex_escape
raw_form b s cp w got =
    let (width, read, scalar) = scan_width-Read b'x' 2 (b ∷ s) cp w (ground arith) got in
    rw (← width) (Read-Escapes b'x' 2 (b ∷ s) cp (λ text h. raw h) read)

long_form :
    (b : ℕ) (s : List ℕ) (cp w : ℕ)
    → scan_hex_escape (b ∷ s) b'U' ≡ some (cp, w)
    → Escapes b'U' (b ∷ s) cp w
unfolding scan_hex_escape
long_form b s cp w got =
    let (width, read, scalar) = scan_width-Read b'U' 8 (b ∷ s) cp w (ground arith) got in
    rw (← width) (Read-Escapes b'U' 8 (b ∷ s) cp (λ text h. long h (scalar refl)) read)

short_form :
    (b : ℕ) (s : List ℕ) (cp w : ℕ)
    → scan_hex_escape (b ∷ s) b'u' ≡ some (cp, w)
    → Escapes b'u' (b ∷ s) cp w
unfolding scan_hex_escape
short_form b s cp w got = elim (Bool-cases (b == b'{')) [
  | inl opens ↦
      let brace : b ≡ b'{' = ground (arith, opens) in
      rw brace (
        Closed-Escapes s cp w (
          scan_braced-Closed 0 0 [] s cp w empty (ground arith)
            (rw (opens, scan_hex_escape) at got)))
  | inr other ↦
      let (width, read, scalar) =
        scan_width-Read b'u' 4 (b ∷ s) cp w (ground arith) (rw (other, scan_hex_escape) at got) in
      rw (← width) (Read-Escapes b'u' 4 (b ∷ s) cp (λ text h. short h (scalar refl)) read)
]

-- What `kavak_scan_hex_escape` accepts begins with an escape of the form: exactly 2, 4 or 8 hexadecimal
-- digits, or 1 to 6 in braces. It returns the value of the digits, which but for a raw byte is a Unicode
-- scalar value, and the number of bytes of that text.
pub scan_hex_escape-Escapes :
    (s : List ℕ) (form cp w : ℕ) → scan_hex_escape s form ≡ some (cp, w) → Escapes form s cp w
unfolding scan_hex_escape
scan_hex_escape-Escapes [] form cp w got = absurd (ground (arith, got))
scan_hex_escape-Escapes (b ∷ s) form cp w got = elim (Bool-cases (form == b'x')) [
  | inl is_x ↦
      let same : form ≡ b'x' = ground (arith, is_x) in rw same (raw_form b s cp w (rw same at got))
  | inr not_x ↦ elim (Bool-cases (form == b'u')) [
    | inl is_u ↦
        let same : form ≡ b'u' = ground (arith, is_u) in
        rw same (short_form b s cp w (rw same at got))
    | inr not_u ↦ elim (Bool-cases (form == b'U')) [
      | inl is_long ↦
          let same : form ≡ b'U' = ground (arith, is_long) in
          rw same (long_form b s cp w (rw same at got))
      | inr no_form ↦ absurd (ground (arith, rw (not_x, scan_hex_escape, not_u, no_form) at got))
    ]
  ]
]
