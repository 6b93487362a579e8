-- ===== src/Types/Relate/Rules.antt =====
-- Assignability of src/type.c against its rules.
use kavak.Base.{
  ℕ, zero, suc, ◌≡◌, ◌≢◌, ◌↔◌, inl, inr, refl, ap, Bool, true, false, Option, none, some, ◌==◌,
  arith, Bool-cases, Option-cases,
}
use kavak.Types.{
  TypeInfo, plain, nullable, function, named, param, record_of, Store, kind_of, ty_equal_deep,
  ty_never, ty_any,
}
use kavak.Types.Supers.{Hook, subtype_hook, ty_conforms}
use kavak.Types.Relate.{inner_of, core_of, assignable_core, assignable_inner, ty_assignable}

-- A type that is not nullable.
abbrev pub NonNull : TypeInfo → Type 0
NonNull info = (inner : Option ℕ) → info ≢ nullable inner

-- The rules of assignability, with the number of nullable layers that a derivation strips.
pub data Assignable (types : Store) (declares : ℕ → ℕ → Type 0)
    : ℕ → Option ℕ → Option ℕ → Type 0 where
  same :
      {n a b : ℕ}
      → ty_equal_deep types (some a) (some b) ≡ true
      → Assignable types declares n (some a) (some b)
  bottom :
      {n a b : ℕ} → kind_of (types a) ≡ ty_never → Assignable types declares n (some a) (some b)
  wrap :
      {n a b : ℕ} {inner : Option ℕ}
      → NonNull (types a)
      → types b ≡ nullable inner
      → Assignable types declares n (some a) inner
      → Assignable types declares (suc n) (some a) (some b)
  wrap_both :
      {n a b : ℕ} {inner outer : Option ℕ}
      → types a ≡ nullable inner
      → types b ≡ nullable outer
      → Assignable types declares n inner outer
      → Assignable types declares (suc n) (some a) (some b)
  top :
      {n a b : ℕ}
      → NonNull (types a)
      → NonNull (types b)
      → kind_of (types b) ≡ ty_any
      → Assignable types declares n (some a) (some b)
  declared :
      {n a b : ℕ}
      → NonNull (types a)
      → NonNull (types b)
      → declares a b
      → Assignable types declares n (some a) (some b)

-- What a hook that answers says of two types.
abbrev Says : (ℕ → ℕ → Bool) → ℕ → ℕ → Type 0
Says hook a b = hook a b ≡ true

nullable_inner :
    (info : TypeInfo) (inner : Option ℕ) → inner_of info ≡ some inner → info ≡ nullable inner
nullable_inner (nullable inner') inner e =
    ap (λ (o : Option (Option ℕ)). elim o [ none ↦ nullable none | some i ↦ nullable i ]) e
nullable_inner (plain kind) inner e = absurd (ground (arith, e))
nullable_inner (function flags receiver params ret) inner e = absurd (ground (arith, e))
nullable_inner (named name args decl underlying) inner e = absurd (ground (arith, e))
nullable_inner (param name index decl) inner e = absurd (ground (arith, e))
nullable_inner (record_of positional fields) inner e = absurd (ground (arith, e))

inner_of-nullable :
    (info : TypeInfo) {inner : Option ℕ} → info ≡ nullable inner → inner_of info ≡ some inner
inner_of-nullable info e = ap inner_of e

inner_of-NonNull : (info : TypeInfo) → NonNull info → inner_of info ≡ none
inner_of-NonNull (nullable inner) bare = absurd (bare inner refl)
inner_of-NonNull (plain kind) bare = refl
inner_of-NonNull (function flags receiver params ret) bare = refl
inner_of-NonNull (named name args decl underlying) bare = refl
inner_of-NonNull (param name index decl) bare = refl
inner_of-NonNull (record_of positional fields) bare = refl

NonNull-none : (info : TypeInfo) → inner_of info ≡ none → NonNull info
NonNull-none info flat inner e = absurd (ground (arith, flat, inner_of-nullable info e))

module _ (types : Store) (hook : ℕ → ℕ → Bool) where
  assignable_core-Assignable :
      (n a b : ℕ)
      → inner_of (types b) ≡ none
      → assignable_core types hook a b ≡ true
      → Assignable types (Says hook) n (some a) (some b)
  unfolding assignable_core
  assignable_core-Assignable n a b flat e = elim (Option-cases (inner_of (types a))) [
    | inr (inner, got) ↦ absurd (ground (arith, rw (got, assignable_core) at e))
    | inl bare ↦ elim (Bool-cases (kind_of (types b) == ty_any)) [
      | inl any ↦
          top (NonNull-none (types a) bare) (NonNull-none (types b) flat) (ground (arith, any))
      | inr other ↦
          declared (NonNull-none (types a) bare) (NonNull-none (types b) flat)
            (rw (bare, assignable_core, other) at e)
    ]
  ]

  -- a stripped layer, over the core of the sub type
  wrap_inner :
      (n a b : ℕ) (inner : Option ℕ)
      → inner_of (types b) ≡ some inner
      → Assignable types (Says hook) n (core_of (types a) a) inner
      → Assignable types (Says hook) (suc n) (some a) (some b)
  wrap_inner n a b inner got below = elim (Option-cases (inner_of (types a))) [
    | inl bare ↦
        wrap (NonNull-none (types a) bare) (nullable_inner (types b) inner got)
          (rw (bare, core_of) at below)
    | inr (core, some_) ↦
        wrap_both (nullable_inner (types a) core some_) (nullable_inner (types b) inner got)
          (rw (some_, core_of) at below)
  ]

  -- one level, with what a stripped layer gives
  strip_level :
      (levels n a b : ℕ)
      → ((inner : Option ℕ)
          → inner_of (types b) ≡ some inner
          → assignable_inner types hook levels (core_of (types a) a) inner ≡ true
          → Assignable types (Says hook) n (some a) (some b))
      → assignable_inner types hook (suc levels) (some a) (some b) ≡ true
      → Assignable types (Says hook) n (some a) (some b)
  unfolding assignable_inner
  strip_level levels n a b stripped e = elim (Bool-cases (ty_equal_deep types (some a) (some b))) [
    | inl eq ↦ same eq
    | inr apart ↦ elim (Bool-cases (kind_of (types a) == ty_never)) [
      | inl never ↦ bottom (ground (arith, never))
      | inr value ↦
          let e' = rw (apart, assignable_inner, value) at e in
          elim (Option-cases (inner_of (types b))) [
            | inl flat ↦ assignable_core-Assignable n a b flat (rw flat at e')
            | inr (inner, got) ↦ stripped inner got (rw got at e')
          ]
    ]
  ]

  no_level : (a b : Option ℕ) → assignable_inner types hook zero a b ≡ false
  unfolding assignable_inner
  no_level none b = refl
  no_level (some a) none = refl
  no_level (some a) (some b) = refl

  assignable_inner-Assignable :
      (n : ℕ) (a b : Option ℕ)
      → assignable_inner types hook (suc n) a b ≡ true
      → Assignable types (Says hook) n a b
  unfolding assignable_inner
  assignable_inner-Assignable n none b e = absurd (ground (arith, e))
  assignable_inner-Assignable n (some a) none e = absurd (ground (arith, e))
  assignable_inner-Assignable zero (some a) (some b) e =
      strip_level zero zero a b
        (λ inner got e'. absurd (ground (arith, e', no_level (core_of (types a) a) inner))) e
  assignable_inner-Assignable (suc n) (some a) (some b) e =
      strip_level (suc n) (suc n) a b
        (λ inner got e'.
          wrap_inner n a b inner got (assignable_inner-Assignable n (core_of (types a) a) inner e'))
        e

  -- a level below an unequal pair whose sub type is not the bottom
  past_tests :
      (levels a b : ℕ)
      → (ty_equal_deep types (some a) (some b) ≡ false
          → (kind_of (types a) == ty_never) ≡ false
          → elim (inner_of (types b)) [
            | some inner ↦ assignable_inner types hook levels (core_of (types a) a) inner
            | none ↦ assignable_core types hook a b
          ]
            ≡ true)
      → assignable_inner types hook (suc levels) (some a) (some b) ≡ true
  unfolding assignable_inner
  past_tests levels a b rest = elim (Bool-cases (ty_equal_deep types (some a) (some b))) [
    | inl eq ↦ rw (eq, assignable_inner) refl
    | inr apart ↦ elim (Bool-cases (kind_of (types a) == ty_never)) [
      | inl never ↦ rw (apart, assignable_inner, never) refl
      | inr value ↦ rw (apart, assignable_inner, value) (rest apart value)
    ]
  ]

  Assignable-assignable_inner :
      {n : ℕ} {a b : Option ℕ}
      → Assignable types (Says hook) n a b
      → assignable_inner types hook (suc n) a b ≡ true
  unfolding assignable_core
  Assignable-assignable_inner (same {n} {a} {b} eq) =
      past_tests n a b (λ apart value. absurd (ground (arith, eq, apart)))
  Assignable-assignable_inner (bottom {n} {a} {b} never) =
      past_tests n a b (λ apart value. absurd (ground (arith, never, value)))
  Assignable-assignable_inner (wrap {n} {a} {b} {inner} bare got below) =
      let core = inner_of-NonNull (types a) bare in
      past_tests (suc n) a b (λ apart value.
        rw (inner_of-nullable (types b) got, core, core_of) (Assignable-assignable_inner below))
  Assignable-assignable_inner (wrap_both {n} {a} {b} {inner} {outer} core got below) =
      past_tests (suc n) a b (λ apart value.
        rw (inner_of-nullable (types b) got, inner_of-nullable (types a) core, core_of)
          (Assignable-assignable_inner below))
  Assignable-assignable_inner (top {n} {a} {b} bare flat any) = past_tests n a b (λ apart value.
      rw (inner_of-NonNull (types b) flat, assignable_core, inner_of-NonNull (types a) bare, any)
        refl)
  Assignable-assignable_inner (declared {n} {a} {b} bare flat yes_) =
      past_tests n a b (λ apart value.
        rw (inner_of-NonNull (types b) flat, assignable_core, inner_of-NonNull (types a) bare)
          (ground (arith, yes_)))

-- What the language declares of two types: by `is_subtype`, or where that is NULL, by the walk over its
-- `supertypes`.
abbrev pub Declares : Store → (ℕ → Bool) → Option (ℕ → ℕ → Bool) → Option Hook → ℕ → ℕ → Type 0
Declares types mem (some is_subtype) supertypes a b = is_subtype a b ≡ true
Declares types mem none (some supertypes) a b =
    ty_conforms types mem (some supertypes) (some a) (some b) ≡ true
Declares types mem none none a b = ⊥

subtype_hook-Declares :
    (types : Store) (mem : ℕ → Bool) (is_subtype : Option (ℕ → ℕ → Bool)) (supertypes : Option Hook)
    (a b : ℕ)
    → (subtype_hook types mem is_subtype supertypes a b ≡ true)
      ↔ Declares types mem is_subtype supertypes a b
unfolding subtype_hook
subtype_hook-Declares types mem (some is_subtype) supertypes a b = (λ e. e, λ e. e)
subtype_hook-Declares types mem none (some supertypes) a b = (λ e. e, λ e. e)
subtype_hook-Declares types mem none none a b = (λ e. absurd (ground (arith, e)), λ e. absurd e)

Assignable-map :
    (types : Store) (D E : ℕ → ℕ → Type 0) {n : ℕ} {a b : Option ℕ}
    → ((a b : ℕ) → D a b → E a b)
    → Assignable types D n a b
    → Assignable types E n a b
Assignable-map types D E f (same eq) = same eq
Assignable-map types D E f (bottom never) = bottom never
Assignable-map types D E f (wrap bare got below) = wrap bare got (Assignable-map types D E f below)
Assignable-map types D E f (wrap_both core got below) =
    wrap_both core got (Assignable-map types D E f below)
Assignable-map types D E f (top bare flat any) = top bare flat any
Assignable-map types D E f (declared {n} {a} {b} bare flat yes_) = declared bare flat (f a b yes_)

-- `kavak_ty_assignable` answers yes exactly of what its rules derive with fewer than 512 nullable
-- layers: deep equality; the bottom type; `T` or `T?` below `U?` where `T` is below `U`; the top type,
-- for what is not nullable; and for two types that are not nullable, what the language declares, by
-- `is_subtype`, or where that is NULL, by `kavak_ty_conforms` over `supertypes`.
pub ty_assignable-Assignable :
    (types : Store) (mem : ℕ → Bool) (is_subtype : Option (ℕ → ℕ → Bool)) (supertypes : Option Hook)
    (a b : Option ℕ)
    → (ty_assignable types mem is_subtype supertypes a b ≡ true)
      ↔ Assignable types (Declares types mem is_subtype supertypes) 511 a b
unfolding ty_assignable
ty_assignable-Assignable types mem is_subtype supertypes a b =
    let hook = subtype_hook types mem is_subtype supertypes in
    let declares = Declares types mem is_subtype supertypes in
    let same_relation = subtype_hook-Declares types mem is_subtype supertypes in
    (
      λ e.
          Assignable-map types (Says hook) declares (λ x y. (same_relation x y).0)
            (assignable_inner-Assignable types hook 511 a b e),
      λ h.
          Assignable-assignable_inner types hook
            (Assignable-map types declares (Says hook) (λ x y. (same_relation x y).1) h),
    )
