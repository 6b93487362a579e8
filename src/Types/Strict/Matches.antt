-- ===== src/Types/Strict/Matches.antt =====
-- What strict unification of src/type.c means: a pattern with replacements that matches a type.
use kavak.Base.{
  ℕ, zero, suc, ◌≡◌, ◌⊎◌, inl, inr, true, [], ◌∷◌, ◌++◌, Option, none, some, ◌==◌, arith,
  Bool-cases,
}
use kavak.Types.{
  TypeInfo, plain, nullable, function, named, param, record_of, Store, kind_of, ty_param,
  ty_equal_deep, equal_deep_inner, equal_tests,
}
use kavak.Types.Lenient.{Subst}
use kavak.Types.Related.{AllRelated, FieldsRelated, AllRelated-map, FieldsRelated-map}
use kavak.Types.Strict.{find_binding}

-- Receivers that are related, of which both or none are set
abbrev pub ReceiverRelated : (Option ℕ → Option ℕ → Type 0) → Option ℕ → Option ℕ → Type 0
ReceiverRelated R none none = Unit
ReceiverRelated R (some x) (some y) = R (some x) (some y)
ReceiverRelated R _ _ = ⊥

-- A type that is no parameter, and one with the same head whose components are related
abbrev pub HeadMatches : (Option ℕ → Option ℕ → Type 0) → TypeInfo → TypeInfo → Type 0
HeadMatches R (plain k) b = k ≡ kind_of b
HeadMatches R (nullable x) (nullable y) = R x y
HeadMatches R (function flags receiver params ret) (function flags' receiver' params' ret') =
    (flags ≡ flags')
    × ReceiverRelated R receiver receiver'
    × AllRelated R params params'
    × R ret ret'
HeadMatches R (named name args decl underlying) (named name' args' decl' underlying') =
    (name ≡ name') × AllRelated R args args'
HeadMatches R (record_of positional fields) (record_of positional' fields') =
    AllRelated R positional positional' × FieldsRelated R fields fields'
HeadMatches R _ _ = ⊥

-- The pattern, with the replacements of its parameters, and a type, down to `levels` below them: a
-- parameter stands for a type that `kavak_ty_equal_deep` calls equal to what is met.
abbrev pub Matches : Store → Subst → ℕ → Option ℕ → Option ℕ → Type 0
Matches types subst zero p c = ⊥
Matches types subst (suc levels) (some p) (some c) =
    ((kind_of (types p) ≡ ty_param)
      × (r : ℕ) × (find_binding subst p ≡ some r)
      × (ty_equal_deep types (some r) (some c) ≡ true))
    ⊎ HeadMatches (Matches types subst levels) (types p) (types c)
Matches types subst (suc levels) _ _ = ⊥

-- a later binding does not change what is found
find_binding-append :
    (subst more : Subst) (p r : ℕ)
    → find_binding subst p ≡ some r
    → find_binding (subst ++ more) p ≡ some r
unfolding find_binding
find_binding-append [] more p r h = absurd (ground (arith, h))
find_binding-append ((q, v) ∷ subst) more p r h = elim (Bool-cases (q == p)) [
  | inl hit ↦ rw (hit, find_binding) (rw (hit, find_binding) at h)
  | inr miss ↦
      rw (miss, find_binding) (find_binding-append subst more p r (rw (miss, find_binding) at h))
]

pub find_binding-last :
    (subst : Subst) (p c : ℕ)
    → find_binding subst p ≡ none
    → find_binding (subst ++ (p, c) ∷ []) p ≡ some c
unfolding find_binding
find_binding-last [] p c h = ground arith
find_binding-last ((q, v) ∷ subst) p c h = elim (Bool-cases (q == p)) [
  | inl hit ↦ absurd (ground (arith, rw (hit, find_binding) at h))
  | inr miss ↦ rw (miss, find_binding) (find_binding-last subst p c (rw (miss, find_binding) at h))
]

pub ReceiverRelated-map :
    {R S : Option ℕ → Option ℕ → Type 0}
    → ((x y : Option ℕ) → R x y → S x y)
    → (x y : Option ℕ) → ReceiverRelated R x y
    → ReceiverRelated S x y
ReceiverRelated-map f none none h = tt
ReceiverRelated-map f none (some y) h = elim h [ ]
ReceiverRelated-map f (some x) none h = elim h [ ]
ReceiverRelated-map f (some x) (some y) h = f (some x) (some y) h

HeadMatches-map :
    {R S : Option ℕ → Option ℕ → Type 0}
    → ((x y : Option ℕ) → R x y → S x y)
    → (a b : TypeInfo) → HeadMatches R a b
    → HeadMatches S a b
HeadMatches-map f (plain k) b = λ h. h
HeadMatches-map {R = R} {S = S} f (nullable x) b =
    elim b as (λ b. HeadMatches R (nullable x) b → HeadMatches S (nullable x) b) [
      | nullable y ↦ f x y
      | _ ↦ λ h. elim h [ ]
    ]
HeadMatches-map {R = R} {S = S} f (function flags receiver params ret) b =
    elim b
      as (λ b.
        HeadMatches R (function flags receiver params ret) b
        → HeadMatches S (function flags receiver params ret) b) [
          | function flags' receiver' params' ret' ↦ λ h. (
            h.0,
            ReceiverRelated-map f receiver receiver' h.1,
            AllRelated-map f params params' h.2,
            f ret ret' h.3,
          )
          | _ ↦ λ h. elim h [ ]
        ]
HeadMatches-map {R = R} {S = S} f (named name args decl underlying) b =
    elim b
      as (λ b.
        HeadMatches R (named name args decl underlying) b
        → HeadMatches S (named name args decl underlying) b) [
          | named name' args' decl' underlying' ↦ λ h. (h.0, AllRelated-map f args args' h.1)
          | _ ↦ λ h. elim h [ ]
        ]
HeadMatches-map f (param name index decl) b = λ h. elim h [ ]
HeadMatches-map {R = R} {S = S} f (record_of positional fields) b =
    elim b
      as (λ b.
        HeadMatches R (record_of positional fields) b
        → HeadMatches S (record_of positional fields) b) [
          | record_of positional' fields' ↦ λ h.
              (AllRelated-map f positional positional' h.0, FieldsRelated-map f fields fields' h.1)
          | _ ↦ λ h. elim h [ ]
        ]

-- further bindings keep a match
pub Matches-append :
    (types : Store) (subst more : Subst) (levels : ℕ) (p c : Option ℕ)
    → Matches types subst levels p c
    → Matches types (subst ++ more) levels p c
Matches-append types subst more zero p c h = h
Matches-append types subst more (suc levels) none c h = elim h [ ]
Matches-append types subst more (suc levels) (some p) none h = elim h [ ]
Matches-append types subst more (suc levels) (some p) (some c) (inl (kind, r, at_, same)) =
    inl (kind, r, find_binding-append subst more p r at_, same)
Matches-append types subst more (suc levels) (some p) (some c) (inr head) =
    inr (HeadMatches-map (Matches-append types subst more levels) (types p) (types c) head)

pub ty_equal_deep_refl : (types : Store) (c : ℕ) → ty_equal_deep types (some c) (some c) ≡ true
unfolding ty_equal_deep equal_deep_inner equal_tests
ty_equal_deep_refl types c = ground arith
