-- ===== src/Types/Equal.antt =====
-- Deep equality of src/type.c against equality of unfoldings.
use kavak.Base.{
  ℕ, zero, suc, ◌≡◌, inl, inr, refl, Bool, true, false, ◌&&◌, List, [], ◌∷◌, Option, none, some,
  ◌==◌, str_eq, str_eq_sound, ptr_eq, ptr_eq_sound, and_left, and_right, arith, Bool-cases,
}
use kavak.Types.{
  TypeInfo, Field, plain, nullable, function, named, param, record_of, Store, kind_of,
  is_builtin_kind, equal_pair_seen, all_equal, fields_equal, equal_tests, deep_switch,
  equal_deep_inner, ty_equal_deep, recursion_limit,
}
use kavak.Types.Related.{AllRelated, FieldsRelated, SameHead, Agree, SameHead-map}

Agree-weaken :
    (types : Store) (n : ℕ) (a b : Option ℕ) → Agree types (suc n) a b → Agree types n a b
Agree-weaken types zero a b h = tt
Agree-weaken types (suc n) none none h = tt
Agree-weaken types (suc n) none (some b) h = elim h [ ]
Agree-weaken types (suc n) (some a) none h = elim h [ ]
Agree-weaken types (suc n) (some a) (some b) (inl same) = inl same
Agree-weaken types (suc n) (some a) (some b) (inr head) =
    inr (SameHead-map (Agree-weaken types n) (types a) (types b) head)

==_sound : (i j : ℕ) → (i == j) ≡ true → i ≡ j
==_sound i j h = ground (arith, h)

-- a comparison that is right makes the `switch` right
module _ (compare : Option ℕ → Option ℕ → Bool) (R : Option ℕ → Option ℕ → Type 0)
    (right : (x y : Option ℕ) → compare x y ≡ true → R x y) where
  all_equal-AllRelated :
      (xs ys : List (Option ℕ)) → all_equal compare xs ys ≡ true → AllRelated R xs ys
  all_equal-AllRelated [] [] h = tt
  all_equal-AllRelated [] (y ∷ ys) h = absurd (ground (arith, h))
  all_equal-AllRelated (x ∷ xs) [] h = absurd (ground (arith, h))
  all_equal-AllRelated (x ∷ xs) (y ∷ ys) h = (
    right x y (and_left (compare x y) (all_equal compare xs ys) h),
    all_equal-AllRelated xs ys (and_right (compare x y) (all_equal compare xs ys) h),
  )

  fields_equal-FieldsRelated :
      (xs ys : List Field) → fields_equal compare xs ys ≡ true → FieldsRelated R xs ys
  fields_equal-FieldsRelated [] [] h = tt
  fields_equal-FieldsRelated [] (y ∷ ys) h = absurd (ground (arith, h))
  fields_equal-FieldsRelated (x ∷ xs) [] h = absurd (ground (arith, h))
  fields_equal-FieldsRelated (x ∷ xs) (y ∷ ys) h =
      let head =
        and_left (str_eq x.name y.name && compare x.type y.type) (fields_equal compare xs ys) h in
      let rest =
        and_right (str_eq x.name y.name && compare x.type y.type) (fields_equal compare xs ys) h in
      (
        str_eq_sound x.name y.name (and_left (str_eq x.name y.name) (compare x.type y.type) head),
        right x.type y.type (and_right (str_eq x.name y.name) (compare x.type y.type) head),
        fields_equal-FieldsRelated xs ys rest,
      )

  deep_switch-SameHead : (a b : TypeInfo) → deep_switch compare a b ≡ true → SameHead R a b
  unfolding deep_switch
  deep_switch-SameHead (plain k) b = λ h. absurd (ground (arith, h))
  deep_switch-SameHead (nullable x) b =
      elim b as (λ b. deep_switch compare (nullable x) b ≡ true → SameHead R (nullable x) b) [
        | nullable y ↦ right x y
        | _ ↦ λ h. absurd (ground (arith, h))
      ]
  deep_switch-SameHead (function flags receiver params ret) b =
      elim b
        as (λ b.
          deep_switch compare (function flags receiver params ret) b ≡ true
          → SameHead R (function flags receiver params ret) b) [
            | function flags' receiver' params' ret' ↦ λ h.
                let both = flags == flags' && (compare receiver receiver' && compare ret ret') in
                let head = and_left both (all_equal compare params params') h in
                let ends =
                  and_right (flags == flags') (compare receiver receiver' && compare ret ret')
                    head in
                (
                  ==_sound flags flags' (
                      and_left (flags == flags') (compare receiver receiver' && compare ret ret')
                        head),
                  right receiver receiver'
                      (and_left (compare receiver receiver') (compare ret ret') ends),
                  right ret ret' (and_right (compare receiver receiver') (compare ret ret') ends),
                  all_equal-AllRelated params params'
                      (and_right both (all_equal compare params params') h),
                )
            | _ ↦ λ h. absurd (ground (arith, h))
          ]
  deep_switch-SameHead (named name args decl underlying) b =
      elim b
        as (λ b.
          deep_switch compare (named name args decl underlying) b ≡ true
          → SameHead R (named name args decl underlying) b) [
            | named name' args' decl' underlying' ↦ λ h.
                let both = str_eq name name' && ptr_eq decl decl' in
                let head = and_left both (all_equal compare args args') h in
                (
                  str_eq_sound name name' (and_left (str_eq name name') (ptr_eq decl decl') head),
                  ptr_eq_sound decl decl' (and_right (str_eq name name') (ptr_eq decl decl') head),
                  all_equal-AllRelated args args' (and_right both (all_equal compare args args') h),
                )
            | _ ↦ λ h. absurd (ground (arith, h))
          ]
  deep_switch-SameHead (param name index decl) b =
      elim b
        as (λ b.
          deep_switch compare (param name index decl) b ≡ true
          → SameHead R (param name index decl) b) [
            | param name' index' decl' ↦ λ h.
                let both = index == index' && ptr_eq decl decl' in
                let head = and_left both (str_eq name name') h in
                (
                  ==_sound index index' (and_left (index == index') (ptr_eq decl decl') head),
                  ptr_eq_sound decl decl' (and_right (index == index') (ptr_eq decl decl') head),
                  str_eq_sound name name' (and_right both (str_eq name name') h),
                )
            | _ ↦ λ h. absurd (ground (arith, h))
          ]
  deep_switch-SameHead (record_of positional fields) b =
      elim b
        as (λ b.
          deep_switch compare (record_of positional fields) b ≡ true
          → SameHead R (record_of positional fields) b) [
            | record_of positional' fields' ↦ λ h.
                let first = all_equal compare positional positional' in
                let second = fields_equal compare fields fields' in
                (
                  all_equal-AllRelated positional positional' (and_left first second h),
                  fields_equal-FieldsRelated fields fields' (and_right first second h),
                )
            | _ ↦ λ h. absurd (ground (arith, h))
          ]

-- The pairs that are being compared agree.
abbrev pub PairsAgree : Store → ℕ → List (ℕ × ℕ) → Type 0
PairsAgree types n [] = Unit
PairsAgree types n ((a, b) ∷ pairs) = Agree types n (some a) (some b) × PairsAgree types n pairs

PairsAgree-weaken :
    (types : Store) (n : ℕ) (pairs : List (ℕ × ℕ))
    → PairsAgree types (suc n) pairs
    → PairsAgree types n pairs
PairsAgree-weaken types n [] h = tt
PairsAgree-weaken types n ((a, b) ∷ pairs) h =
    (Agree-weaken types n (some a) (some b) h.0, PairsAgree-weaken types n pairs h.1)

seen-Agree :
    (types : Store) (n : ℕ) (pairs : List (ℕ × ℕ)) (a b : ℕ)
    → PairsAgree types n pairs
    → equal_pair_seen pairs a b ≡ true
    → Agree types n (some a) (some b)
unfolding equal_pair_seen
seen-Agree types n [] a b h e = absurd (ground (arith, e))
seen-Agree types n ((x, y) ∷ pairs) a b h e = elim (Bool-cases (x == a && y == b)) [
  | inl hit ↦
      let left : x ≡ a = ==_sound x a (and_left (x == a) (y == b) hit) in
      let right : y ≡ b = ==_sound y b (and_right (x == a) (y == b) hit) in
      rw (← left, ← right) (h.0)
  | inr miss ↦ seen-Agree types n pairs a b h.1 (ground (arith, e, miss))
]

plain-SameHead :
    (R : Option ℕ → Option ℕ → Type 0) (a b : TypeInfo)
    → kind_of a ≡ kind_of b
    → is_builtin_kind (kind_of a) ≡ true
    → SameHead R a b
plain-SameHead R (plain k) b =
    elim b as (λ b. k ≡ kind_of b → is_builtin_kind k ≡ true → SameHead R (plain k) b) [
      | plain l ↦ λ same small. same
      | _ ↦ λ same small. absurd (ground (arith, same, small))
    ]
plain-SameHead R (nullable x) b = λ same small. absurd (ground (arith, small))
plain-SameHead R (function flags receiver params ret) b =
    λ same small. absurd (ground (arith, small))
plain-SameHead R (named name args decl underlying) b = λ same small. absurd (ground (arith, small))
plain-SameHead R (param name index decl) b = λ same small. absurd (ground (arith, small))
plain-SameHead R (record_of positional fields) b = λ same small. absurd (ground (arith, small))

-- the tests before the `switch`, with an answer that is right
equal_tests-Agree :
    (types : Store) (n : ℕ) (pairs : List (ℕ × ℕ)) (answer : TypeInfo → TypeInfo → Bool) (a b : ℕ)
    → PairsAgree types (suc n) pairs
    → (answer (types a) (types b) ≡ true → SameHead (Agree types n) (types a) (types b))
    → equal_tests types pairs answer (some a) (some b) ≡ true
    → Agree types (suc n) (some a) (some b)
unfolding equal_tests
equal_tests-Agree types n pairs answer a b h right e = elim (Bool-cases (a == b)) [
  | inl same ↦ inl (rw (==_sound a b same) refl)
  | inr apart ↦ elim (Bool-cases (kind_of (types a) == kind_of (types b))) [
    | inr other ↦ absurd (ground (arith, rw (apart, equal_tests, other) at e))
    | inl kinds ↦ elim (Bool-cases (is_builtin_kind (kind_of (types a)))) [
      | inl small ↦ inr (
          plain-SameHead (Agree types n) (types a) (types b)
            (==_sound (kind_of (types a)) (kind_of (types b)) kinds) small)
      | inr large ↦ elim (Bool-cases (equal_pair_seen pairs a b)) [
        | inl seen ↦ seen-Agree types (suc n) pairs a b h seen
        | inr fresh ↦ inr (right (rw (apart, equal_tests, kinds, large, fresh) at e))
      ]
    ]
  ]
]

equal_deep_inner-Agree :
    (types : Store) (n slots : ℕ) (pairs : List (ℕ × ℕ)) (a b : Option ℕ)
    → PairsAgree types n pairs
    → equal_deep_inner types slots pairs a b ≡ true
    → Agree types n a b
unfolding equal_deep_inner equal_tests
equal_deep_inner-Agree types zero slots pairs a b h e = tt
equal_deep_inner-Agree types (suc n) zero pairs none none h e = tt
equal_deep_inner-Agree types (suc n) (suc slots) pairs none none h e = tt
equal_deep_inner-Agree types (suc n) zero pairs none (some b) h e = absurd (ground (arith, e))
equal_deep_inner-Agree types (suc n) (suc slots) pairs none (some b) h e =
    absurd (ground (arith, e))
equal_deep_inner-Agree types (suc n) zero pairs (some a) none h e = absurd (ground (arith, e))
equal_deep_inner-Agree types (suc n) (suc slots) pairs (some a) none h e =
    absurd (ground (arith, e))
equal_deep_inner-Agree types (suc n) zero pairs (some a) (some b) h e =
    equal_tests-Agree types n pairs (λ x y. false) a b h (λ no_. absurd (ground (arith, no_))) e
equal_deep_inner-Agree types (suc n) (suc slots) pairs (some a) (some b) h e =
    let earlier = PairsAgree-weaken types n pairs h in
    let below = equal_deep_inner-Agree types n (suc slots) pairs (some a) (some b) earlier e in
    let compare = equal_deep_inner types slots ((a, b) ∷ pairs) in
    equal_tests-Agree types n pairs (deep_switch compare) a b h
      (deep_switch-SameHead compare (Agree types n)
        (λ x y. equal_deep_inner-Agree types n slots ((a, b) ∷ pairs) x y (below, earlier))
        (types a) (types b))
      e

-- Types that `kavak_ty_equal_deep` calls equal have the same unfolding, to every depth: also where they
-- contain themselves, and whatever the recursion limit has cut off.
pub ty_equal_deep-Agree :
    (types : Store) (a b : Option ℕ) → ty_equal_deep types a b ≡ true → (n : ℕ) → Agree types n a b
unfolding ty_equal_deep
ty_equal_deep-Agree types a b e n = equal_deep_inner-Agree types n recursion_limit [] a b tt e
