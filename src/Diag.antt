-- ===== src/Diag.antt =====
-- Diagnostics: include/kavak.h section 16, src/diag.c, and the error accessors of src/kavak.c.
-- A vector is the list of its first `count` items and its capacity; `mem n` says whether an
-- allocation of `n` bytes succeeds. Message texts are only stored, never read.
pub mod Push
pub mod Errors
mod Tests
use Prim.Native.String.{String}
use kavak.Base.{
  ℕ, zero, suc, ◌+◌, ◌-◌, ◌*◌, ◌/◌, Bool, true, false, List, [], ◌∷◌, ◌++◌, Option, none, some, ltb,
  ◌==◌, if◌then◌else◌, length, uint32_max, size_max, add32,
}
use kavak.Span.{Span}

-- `KavakSeverity`
pub data Severity : Type 0 where
  error warning note : Severity

-- `KavakDiag`
pub record Diag : Type 0 where
  pub severity : Severity
  pub message : Option String
  pub span : Span

-- `KavakDiagVec`
pub record DiagVec : Type 0 where
  pub items : List Diag
  pub cap : ℕ

-- the field `count`
abbrev pub count : DiagVec → ℕ
count d = length d.items

-- `kavak_diag_vec_init`
abbrev pub diag_vec_init : DiagVec
diag_vec_init = record { items = []; cap = 0 }

-- `kavak_diag_vec_free`: the vector afterwards
abbrev pub diag_vec_free : DiagVec → DiagVec
diag_vec_free d = diag_vec_init

-- `sizeof(KavakDiag)` on LP64: a 4-byte enumeration and padding, a pointer, and a span
abbrev diag_size : ℕ
diag_size = 24

-- The loop of `kavak_diag_vec_push`; `none` where a doubling would pass `UINT32_MAX`.
pub grow_cap : ℕ → ℕ → ℕ → Option ℕ
grow_cap zero new_cap n = some new_cap
grow_cap (suc fuel) new_cap n = elim (ltb new_cap n) [
  | false ↦ some new_cap
  | true ↦ elim (ltb (uint32_max / 2) new_cap) [
    | true ↦ none
    | false ↦ grow_cap fuel (new_cap * 2) n
  ]
]

grow_to : (ℕ → Bool) → DiagVec → Option ℕ → Option DiagVec
grow_to mem d none = none
grow_to mem d (some new_cap) =
    if ltb (size_max / diag_size) new_cap
    then none
    else if mem (new_cap * diag_size)
    then some (record d { cap = new_cap })
    else none

push_onto : Diag → Option DiagVec → Option DiagVec
push_onto diag none = none
push_onto diag (some d) = some (record d { items = d.items ++ diag ∷ [] })

-- `kavak_diag_vec_push`; `none` is the result -1, and leaves the vector as it is
unfoldable pub diag_vec_push : (ℕ → Bool) → DiagVec → Diag → Option DiagVec
unfolding push_onto grow_to
diag_vec_push mem d diag =
    if count d == d.cap
    then if count d == uint32_max
      then none
      else push_onto diag
          (grow_to mem d (grow_cap 32 (if d.cap == 0 then 8 else d.cap) (add32 (count d) 1)))
    else push_onto diag (some d)

-- A push whose result is ignored, as in `parser_diag` and its like.
unfoldable pub diag_vec_push_or_same : (ℕ → Bool) → DiagVec → Diag → DiagVec
diag_vec_push_or_same mem d diag = elim (diag_vec_push mem d diag) [ none ↦ d | some d' ↦ d' ]

-- `severity == KAVAK_SEV_ERROR`
abbrev pub is_error : Severity → Bool
is_error error = true
is_error warning = false
is_error note = false

-- `kavak_diag_error_count`, its loop from a count `n`
error_count_from : ℕ → List Diag → ℕ
error_count_from n [] = n
error_count_from n (d ∷ ds) = error_count_from (if is_error d.severity then n + 1 else n) ds

unfoldable pub diag_error_count : DiagVec → ℕ
unfolding error_count_from
diag_error_count d = error_count_from 0 d.items

-- The loop of `nth_error` of src/kavak.c, with `seen` errors behind it.
nth_error_from : ℕ → List Diag → ℕ → Option Diag
nth_error_from seen [] i = none
nth_error_from seen (d ∷ ds) i =
    let later = nth_error_from (if is_error d.severity then seen + 1 else seen) ds i in
    if is_error d.severity then if seen == i then some d else later else later

-- `nth_error`
unfoldable pub nth_error : DiagVec → ℕ → Option Diag
unfolding nth_error_from
nth_error d i = nth_error_from 0 d.items i
