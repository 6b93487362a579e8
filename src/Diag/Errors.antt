-- ===== src/Diag/Errors.antt =====
-- The error accessors against the list of the errors.
use kavak.Base.{
  ℕ, zero, suc, ◌+◌, ◌≡◌, refl, List, [], ◌∷◌, arith, length, get_elem?, if◌then◌else◌,
}
use kavak.Diag.{
  Diag, DiagVec, is_error, error_count_from, diag_error_count, nth_error_from, nth_error,
}

-- The errors among the diagnostics, in order.
abbrev pub errors : List Diag → List Diag
errors [] = []
errors (d ∷ ds) = if is_error d.severity then d ∷ errors ds else errors ds

count_from-errors : (n : ℕ) (ds : List Diag) → error_count_from n ds ≡ n + length (errors ds)
unfolding error_count_from
count_from-errors n [] = omega arith
count_from-errors n (d ∷ ds) = ground (arith, count_from-errors n ds, count_from-errors (n + 1) ds)

-- `kavak_error_count` is the number of errors among the diagnostics.
pub error_count-errors : (d : DiagVec) → diag_error_count d ≡ length (errors d.items)
unfolding diag_error_count
error_count-errors d = omega (arith, count_from-errors 0 d.items)

nth_from-errors :
    (seen k i : ℕ) (ds : List Diag)
    → i ≡ seen + k
    → nth_error_from seen ds i ≡ get_elem? (errors ds) k
unfolding nth_error_from
nth_from-errors seen k i [] e = refl
nth_from-errors seen zero i (d ∷ ds) e =
    ground (arith, nth_from-errors seen 0 i ds e, nth_from-errors (seen + 1) 0 i ds)
nth_from-errors seen (suc k) i (d ∷ ds) e =
    ground (arith, nth_from-errors seen (suc k) i ds e, nth_from-errors (seen + 1) k i ds)

-- `nth_error` returns the `i`-th of the errors, and nothing from their number on.
pub nth_error-errors : (d : DiagVec) (i : ℕ) → nth_error d i ≡ get_elem? (errors d.items) i
unfolding nth_error
nth_error-errors d i = nth_from-errors 0 i i d.items (omega arith)
