-- ===== src/Base/Words.antt =====
-- Limits and bit tests of the machine words that the sources use: `uint32_t`, and the 64-bit
-- `size_t` and `uintptr_t` of an LP64 host.
use Prim.Native.Nat.{ℕ, ◌-◌, ◌+◌, ◌%◌, ◌/◌, ◌^◌}
use mathlib.Core.Bool.{Bool}
use kavak.Base.Tests.{◌==◌}

-- `UINT32_MAX`
abbrev pub uint32_max : ℕ
uint32_max = 4294967295

-- `SIZE_MAX`
abbrev pub size_max : ℕ
size_max = 18446744073709551615

-- addition, subtraction and multiplication of `uint32_t`
abbrev pub add32 : ℕ → ℕ → ℕ
add32 a b = (a + b) % 4294967296

abbrev pub sub32 : ℕ → ℕ → ℕ
sub32 a b = (a + 4294967296 - b) % 4294967296

-- `(flags & (1u << k)) != 0`
unfoldable pub has_bit : ℕ → ℕ → Bool
has_bit flags k = (flags / 2 ^ k) % 2 == 1
