-- ===== src/Diag/Tests.antt =====
-- Runs of the diagnostics vector.
use kavak.Base.{ℕ, ◌≡◌, refl, Bool, true, [], ◌∷◌, some, none}
use kavak.Span.{span_none, span_make}
use kavak.Diag.{
  Diag, DiagVec, error, warning, diag_vec_init, diag_vec_push, grow_cap, nth_error,
  diag_error_count,
}
use kavak.Diag.Errors.{nth_error-errors, error_count-errors}

abbrev plenty : ℕ → Bool
plenty n = true

abbrev bad : Diag
bad = record { severity = error; message = some "unknown character"; span = span_make 4 1 }

abbrev odd : Diag
odd = record { severity = warning; message = none; span = span_none }

abbrev both : DiagVec
both = record { items = odd ∷ bad ∷ []; cap = 8 }

second_is_first_error : nth_error both 0 ≡ some bad
unfolding nth_error
second_is_first_error = refl

first_push : diag_vec_push plenty diag_vec_init bad ≡ some (record { items = bad ∷ []; cap = 8 })
unfolding diag_vec_push grow_cap
first_push = refl

nth_error-errors_example : nth_error both 1 ≡ none
nth_error-errors_example = nth_error-errors both 1

error_count-errors_example : diag_error_count both ≡ 1
error_count-errors_example = error_count-errors both
