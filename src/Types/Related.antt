-- ===== src/Types/Related.antt =====
-- Types of src/type.c that look the same: arrays, heads, and unfoldings to a depth.
use kavak.Base.{ℕ, zero, suc, ◌≡◌, ◌⊎◌, List, [], ◌∷◌, Option, none, some}
use kavak.Types.{TypeInfo, Field, plain, nullable, function, named, param, record_of, Store}

-- Arrays that are related item by item
abbrev pub AllRelated : (Option ℕ → Option ℕ → Type 0) → List (Option ℕ) → List (Option ℕ) → Type 0
AllRelated R [] [] = Unit
AllRelated R (x ∷ xs) (y ∷ ys) = R x y × AllRelated R xs ys
AllRelated R _ _ = ⊥

abbrev pub FieldsRelated : (Option ℕ → Option ℕ → Type 0) → List Field → List Field → Type 0
FieldsRelated R [] [] = Unit
FieldsRelated R (x ∷ xs) (y ∷ ys) = (x.name ≡ y.name) × R x.type y.type × FieldsRelated R xs ys
FieldsRelated R _ _ = ⊥

-- Types with the same head, and components that are related
abbrev pub SameHead : (Option ℕ → Option ℕ → Type 0) → TypeInfo → TypeInfo → Type 0
SameHead R (plain k) (plain l) = k ≡ l
SameHead R (nullable x) (nullable y) = R x y
SameHead R (function flags receiver params ret) (function flags' receiver' params' ret') =
    (flags ≡ flags') × R receiver receiver' × R ret ret' × AllRelated R params params'
SameHead R (named name args decl underlying) (named name' args' decl' underlying') =
    (name ≡ name') × (decl ≡ decl') × AllRelated R args args'
SameHead R (param name index decl) (param name' index' decl') =
    (index ≡ index') × (decl ≡ decl') × (name ≡ name')
SameHead R (record_of positional fields) (record_of positional' fields') =
    AllRelated R positional positional' × FieldsRelated R fields fields'
SameHead R _ _ = ⊥

-- Two pointers whose types look the same down to depth `n`
abbrev pub Agree : Store → ℕ → Option ℕ → Option ℕ → Type 0
Agree types zero a b = Unit
Agree types (suc n) none none = Unit
Agree types (suc n) (some a) (some b) = (a ≡ b) ⊎ SameHead (Agree types n) (types a) (types b)
Agree types (suc n) _ _ = ⊥

module _ {R S : Option ℕ → Option ℕ → Type 0} (f : (x y : Option ℕ) → R x y → S x y) where
  pub AllRelated-map : (xs ys : List (Option ℕ)) → AllRelated R xs ys → AllRelated S xs ys
  AllRelated-map [] [] h = tt
  AllRelated-map [] (y ∷ ys) h = elim h [ ]
  AllRelated-map (x ∷ xs) [] h = elim h [ ]
  AllRelated-map (x ∷ xs) (y ∷ ys) h = (f x y h.0, AllRelated-map xs ys h.1)

  pub FieldsRelated-map : (xs ys : List Field) → FieldsRelated R xs ys → FieldsRelated S xs ys
  FieldsRelated-map [] [] h = tt
  FieldsRelated-map [] (y ∷ ys) h = elim h [ ]
  FieldsRelated-map (x ∷ xs) [] h = elim h [ ]
  FieldsRelated-map (x ∷ xs) (y ∷ ys) h = (h.0, f x.type y.type h.1, FieldsRelated-map xs ys h.2)

  pub SameHead-map : (a b : TypeInfo) → SameHead R a b → SameHead S a b
  SameHead-map (plain k) b = elim b as (λ b. SameHead R (plain k) b → SameHead S (plain k) b) [
    | plain l ↦ λ h. h
    | _ ↦ λ h. elim h [ ]
  ]
  SameHead-map (nullable x) b =
      elim b as (λ b. SameHead R (nullable x) b → SameHead S (nullable x) b) [
        | nullable y ↦ f x y
        | _ ↦ λ h. elim h [ ]
      ]
  SameHead-map (function flags receiver params ret) b =
      elim b
        as (λ b.
          SameHead R (function flags receiver params ret) b
          → SameHead S (function flags receiver params ret) b) [
            | function flags' receiver' params' ret' ↦ λ h.
                (h.0, f receiver receiver' h.1, f ret ret' h.2, AllRelated-map params params' h.3)
            | _ ↦ λ h. elim h [ ]
          ]
  SameHead-map (named name args decl underlying) b =
      elim b
        as (λ b.
          SameHead R (named name args decl underlying) b
          → SameHead S (named name args decl underlying) b) [
            | named name' args' decl' underlying' ↦ λ h. (h.0, h.1, AllRelated-map args args' h.2)
            | _ ↦ λ h. elim h [ ]
          ]
  SameHead-map (param name index decl) b =
      elim b as (λ b. SameHead R (param name index decl) b → SameHead S (param name index decl) b) [
        | param name' index' decl' ↦ λ h. h
        | _ ↦ λ h. elim h [ ]
      ]
  SameHead-map (record_of positional fields) b =
      elim b
        as (λ b.
          SameHead R (record_of positional fields) b → SameHead S (record_of positional fields) b) [
            | record_of positional' fields' ↦ λ h.
                (AllRelated-map positional positional' h.0, FieldsRelated-map fields fields' h.1)
            | _ ↦ λ h. elim h [ ]
          ]
