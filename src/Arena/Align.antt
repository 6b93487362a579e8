-- ===== src/Arena/Align.antt =====
-- Rounding up to an alignment.
use native.Mathlib.Nat.{mod-lt, div-add-mod', mul-mod_left}
use kavak.Base.{ℕ, ◌+◌, ◌-◌, ◌/◌, ◌%◌, ◌≤◌, ◌<◌, ◌≡◌, some, arith, size_max}
use kavak.Arena.{align_forward}

-- The address that `align_forward` finds is the first multiple of the alignment at or above `base`,
-- and it is an address.
pub align_forward_bounds :
    (base align : ℕ) {r : ℕ}
    → base ≤ size_max
    → align_forward base align ≡ some r
    → (r % align ≡ 0) × (base ≤ r) × (r < base + align) × (r ≤ size_max)
unfolding align_forward
align_forward_bounds base align h e =
    let x = base + (align - 1) in
    ground (arith, mul-mod_left (x / align) align, div-add-mod' x align, mod-lt x {m = align})
