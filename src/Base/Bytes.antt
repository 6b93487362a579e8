-- ===== src/Base/Bytes.antt =====
-- Comparison of byte strings, as `memcmp` and `strcmp` do it.
use Prim.Native.Nat.{ℕ}
use mathlib.Core.Path.{◌≡◌, refl}
use mathlib.Core.Bool.{Bool, true, false, ◌&&◌}
use mathlib.Core.List.{List, [], ◌∷◌}
use mathlib.Core.Option.{Option, none, some}
use native.Mathlib.Omega.{arith}
use kavak.Base.Tests.{◌==◌}

-- `memcmp(a, b, n) == 0`, of lists that are cut at `n`
abbrev pub bytes_eq : List ℕ → List ℕ → Bool
bytes_eq [] [] = true
bytes_eq (x ∷ xs) (y ∷ ys) = (x == y) && bytes_eq xs ys
bytes_eq _ _ = false

pub bytes_eq_refl : (xs : List ℕ) → bytes_eq xs xs ≡ true
bytes_eq_refl [] = refl
bytes_eq_refl (x ∷ xs) = ground (arith, bytes_eq_refl xs)

pub bytes_eq_sound : (xs ys : List ℕ) → bytes_eq xs ys ≡ true → xs ≡ ys
bytes_eq_sound [] [] h = refl
bytes_eq_sound [] (y ∷ ys) h = absurd (ground (arith, h))
bytes_eq_sound (x ∷ xs) [] h = absurd (ground (arith, h))
bytes_eq_sound (x ∷ xs) (y ∷ ys) h =
    let same : x ≡ y = ground (arith, h) in
    let rest : bytes_eq xs ys ≡ true = ground (arith, h) in
    rw (same, bytes_eq_sound xs ys rest) refl

-- `str_eq`: strings behind pointers that may be NULL
abbrev pub str_eq : Option (List ℕ) → Option (List ℕ) → Bool
str_eq none none = true
str_eq (some a) (some b) = bytes_eq a b
str_eq _ _ = false

pub str_eq_sound : (a b : Option (List ℕ)) → str_eq a b ≡ true → a ≡ b
str_eq_sound none none h = refl
str_eq_sound none (some b) h = absurd (ground (arith, h))
str_eq_sound (some a) none h = absurd (ground (arith, h))
str_eq_sound (some a) (some b) h = rw (bytes_eq_sound a b h) refl

-- equality of pointers that may be NULL
abbrev pub ptr_eq : Option ℕ → Option ℕ → Bool
ptr_eq none none = true
ptr_eq (some a) (some b) = a == b
ptr_eq _ _ = false

pub ptr_eq_sound : (a b : Option ℕ) → ptr_eq a b ≡ true → a ≡ b
ptr_eq_sound none none h = refl
ptr_eq_sound none (some b) h = absurd (ground (arith, h))
ptr_eq_sound (some a) none h = absurd (ground (arith, h))
ptr_eq_sound (some a) (some b) h = ground (arith, h)

pub ptr_eq_refl : (a : Option ℕ) → ptr_eq a a ≡ true
ptr_eq_refl none = refl
ptr_eq_refl (some a) = ground arith

pub and_left : (a b : Bool) → (a && b) ≡ true → a ≡ true
and_left a b h = ground (arith, h)

pub and_right : (a b : Bool) → (a && b) ≡ true → b ≡ true
and_right a b h = ground (arith, h)
