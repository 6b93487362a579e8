-- ===== src/Diag/Push.antt =====
-- What `kavak_diag_vec_push` promises.
use kavak.Base.{
  ℕ, zero, suc, ◌+◌, ◌*◌, ◌≤◌, ◌<◌, ◌≡◌, ◌⊎◌, Bool, false, ◌∷◌, [], ◌++◌, Option, none, some, arith,
  length-append, uint32_max, ◌==◌, if◌then◌else◌,
}
use kavak.Diag.{Diag, DiagVec, count, grow_cap, diag_vec_push}

-- The items fit into the capacity, which is a `uint32_t`.
pub record IsValid (d : DiagVec) : Type 0 where
  pub fits : count d ≤ d.cap
  pub cap_le : d.cap ≤ uint32_max

abbrev doubled : ℕ → ℕ → ℕ
doubled zero c = c
doubled (suc fuel) c = doubled fuel (c * 2)

-- A capacity that was found holds `n` items; none is found only from 2^31 on.
abbrev Grown : ℕ → ℕ → Option ℕ → Type 0
Grown c n (some c') = (n ≤ c') × (c ≤ c') × (c' ≤ uint32_max)
Grown c n none = 2147483648 < n

grow_cap-Grown :
    (fuel c n : ℕ) → n ≤ doubled fuel c → c ≤ uint32_max → Grown c n (grow_cap fuel c n)
unfolding grow_cap
grow_cap-Grown zero c n h l = (h, omega arith, l)
grow_cap-Grown (suc fuel) c n h l = ground (arith, grow_cap-Grown fuel (c * 2) n h)

-- The bytes that a push onto a full vector asks of the allocator.
abbrev pub push_bytes : DiagVec → ℕ
push_bytes d = elim (grow_cap 32 (if d.cap == 0 then 8 else d.cap) (count d + 1)) [
  | none ↦ 0
  | some c ↦ c * 24
]

-- The diagnostic is the new last item; or the vector holds 2^31 items or more, or the allocation
-- failed.
abbrev pub Pushed : (ℕ → Bool) → DiagVec → Diag → Option DiagVec → Type 0
Pushed mem d diag (some d') = (d'.items ≡ d.items ++ diag ∷ []) × IsValid d'
Pushed mem d diag none = (2147483648 ≤ count d) ⊎ (mem (push_bytes d) ≡ false)

-- `kavak_diag_vec_push` on a valid vector appends the diagnostic and leaves a valid vector. It fails
-- only at 2^31 diagnostics or more, or where the allocation does.
pub diag_vec_push-Pushed :
    (mem : ℕ → Bool) (d : DiagVec) (diag : Diag)
    → IsValid d
    → Pushed mem d diag (diag_vec_push mem d diag)
unfolding diag_vec_push
diag_vec_push-Pushed mem d diag v =
    let c = if d.cap == 0 then 8 else d.cap in
    ground (arith, grow_cap-Grown 32 c (count d + 1), length-append d.items (diag ∷ []))
