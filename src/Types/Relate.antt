-- ===== src/Types/Relate.antt =====
-- Assignability of src/type.c. The hooks of the language are parameters, and `hook` is the nominal
-- relation that they give.
pub mod Rules
use kavak.Base.{
  ℕ, zero, suc, ◌≡◌, ◌≢◌, ◌↔◌, inl, inr, refl, ap, Bool, true, false, Option, none, some, ◌==◌,
  if◌then◌else◌, arith, Bool-cases, Option-cases,
}
use kavak.Types.{
  TypeInfo, plain, nullable, function, named, param, record_of, Store, kind_of, ty_equal_deep,
  recursion_limit, ty_never, ty_any, ty_nullable,
}
use kavak.Types.Supers.{Hook, subtype_hook}

-- `kavak_ty_is_nullable`
unfoldable pub ty_is_nullable : Store → Option ℕ → Bool
ty_is_nullable types none = false
ty_is_nullable types (some a) = kind_of (types a) == ty_nullable

-- the test for a nullable kind, with `payload.nullable.inner`
abbrev pub inner_of : TypeInfo → Option (Option ℕ)
inner_of (nullable inner) = some inner
inner_of (plain kind) = none
inner_of (function flags receiver params ret) = none
inner_of (named name args decl underlying) = none
inner_of (param name index decl) = none
inner_of (record_of positional fields) = none

-- `kavak_ty_unwrap_nullable`, with so many turns of the guard left
unfoldable pub unwrap_from : Store → ℕ → Option ℕ → Option ℕ
unwrap_from types zero a = a
unwrap_from types (suc turns) none = none
unwrap_from types (suc turns) (some a) = elim (inner_of (types a)) [
  | some inner ↦ unwrap_from types turns inner
  | none ↦ some a
]

unfoldable pub ty_unwrap_nullable : Store → Option ℕ → Option ℕ
unfolding unwrap_from
ty_unwrap_nullable types a = unwrap_from types recursion_limit a

-- `sub->kind == KAVAK_TY_NULLABLE ? sub->payload.nullable.inner : sub`
abbrev pub core_of : TypeInfo → ℕ → Option ℕ
core_of info a = elim (inner_of info) [ some inner ↦ inner | none ↦ some a ]

-- the tests of `ty_assignable_inner` on a super type that is not nullable
unfoldable pub assignable_core : Store → (ℕ → ℕ → Bool) → ℕ → ℕ → Bool
assignable_core types hook a b = elim (inner_of (types a)) [
  | some inner ↦ false
  | none ↦ if kind_of (types b) == ty_any then true else hook a b
]

-- `ty_assignable_inner` with so many levels below the recursion limit left
unfoldable pub assignable_inner : Store → (ℕ → ℕ → Bool) → ℕ → Option ℕ → Option ℕ → Bool
unfolding assignable_core
assignable_inner types hook levels none b = false
assignable_inner types hook levels (some a) none = false
assignable_inner types hook zero (some a) (some b) = false
assignable_inner types hook (suc levels) (some a) (some b) =
    let otherwise = assignable_core types hook a b in
    if ty_equal_deep types (some a) (some b)
    then true
    else if kind_of (types a) == ty_never
    then true
    else elim (inner_of (types b)) [
      | some inner ↦ assignable_inner types hook levels (core_of (types a) a) inner
      | none ↦ otherwise
    ]

-- `kavak_ty_assignable`
unfoldable pub ty_assignable :
    Store → (ℕ → Bool) → Option (ℕ → ℕ → Bool) → Option Hook → Option ℕ → Option ℕ → Bool
unfolding assignable_inner
ty_assignable types mem is_subtype supertypes a b =
    assignable_inner types (subtype_hook types mem is_subtype supertypes) recursion_limit a b
