-- ===== src/Types.antt =====
-- The type toolkit: include/kavak.h section 10 and src/type.c. Types are pointers into a store, so that
-- a type may be shared or contain itself; a pointer is a number, and NULL is `none`. Strings are the
-- bytes before their terminator.
pub mod Related
pub mod Equal
pub mod Relate
pub mod Lenient
pub mod Unify
pub mod Supers
pub mod Conforms
pub mod Exhaustive
pub mod Strict
mod Tests
use kavak.Base.{
  ℕ, zero, suc, Bool, true, false, not, ◌&&◌, ◌||◌, List, [], ◌∷◌, Option, none, some, leb, ◌==◌,
  if◌then◌else◌, length, str_eq, ptr_eq,
}

-- `KavakRecordField`
pub record Field : Type 0 where
  pub name : Option (List ℕ)
  pub type : Option ℕ

-- `KavakTypeInfo`: its kind with the fields of the union that this kind has. A kind without fields
-- that the toolkit reads, built in or of a language, is `plain`, and stands for no other kind.
pub data TypeInfo : Type 0 where
  plain : ℕ → TypeInfo
  -- inner
  nullable : Option ℕ → TypeInfo
  -- flags, receiver, params, ret
  function : ℕ → Option ℕ → List (Option ℕ) → Option ℕ → TypeInfo
  -- name, args, decl, underlying
  named : Option (List ℕ) → List (Option ℕ) → Option ℕ → Option ℕ → TypeInfo
  -- name, index, decl
  param : Option (List ℕ) → ℕ → Option ℕ → TypeInfo
  -- positional, named
  record_of : List (Option ℕ) → List Field → TypeInfo

-- what the pointers lead to
abbrev pub Store : Type 0
Store = ℕ → TypeInfo

-- the kinds that the code names
abbrev pub ty_never : ℕ
ty_never = 2

abbrev pub ty_any : ℕ
ty_any = 3

abbrev pub ty_string : ℕ
ty_string = 16

abbrev pub ty_nullable : ℕ
ty_nullable = 32

abbrev pub ty_function : ℕ
ty_function = 33

abbrev pub ty_named : ℕ
ty_named = 34

abbrev pub ty_param : ℕ
ty_param = 35

abbrev pub ty_record : ℕ
ty_record = 36

-- `type->kind`
abbrev pub kind_of : TypeInfo → ℕ
kind_of (plain kind) = kind
kind_of (nullable inner) = ty_nullable
kind_of (function flags receiver params ret) = ty_function
kind_of (named name args decl underlying) = ty_named
kind_of (param name index decl) = ty_param
kind_of (record_of positional fields) = ty_record

-- `is_builtin_kind`
abbrev pub is_builtin_kind : ℕ → Bool
is_builtin_kind kind = leb kind ty_string

-- `KAVAK_RECURSION_LIMIT`
abbrev pub recursion_limit : ℕ
recursion_limit = 512

-- `TypePair`s, and `equal_pair_seen`
unfoldable pub equal_pair_seen : List (ℕ × ℕ) → ℕ → ℕ → Bool
equal_pair_seen [] a b = false
equal_pair_seen ((x, y) ∷ pairs) a b = (x == a && y == b) || equal_pair_seen pairs a b

-- `equal_pair_push`, where a slot is left; pointers that reach it are not NULL
abbrev pub push_pair : List (ℕ × ℕ) → Option ℕ → Option ℕ → List (ℕ × ℕ)
push_pair pairs (some a) (some b) = (a, b) ∷ pairs
push_pair pairs _ _ = pairs

-- The loops over two arrays of the same length, and over two arrays of fields.
abbrev pub all_equal : (Option ℕ → Option ℕ → Bool) → List (Option ℕ) → List (Option ℕ) → Bool
all_equal compare [] [] = true
all_equal compare (x ∷ xs) (y ∷ ys) = compare x y && all_equal compare xs ys
all_equal compare _ _ = false

abbrev pub fields_equal : (Option ℕ → Option ℕ → Bool) → List Field → List Field → Bool
fields_equal compare [] [] = true
fields_equal compare (x ∷ xs) (y ∷ ys) =
    (str_eq x.name y.name && compare x.type y.type) && fields_equal compare xs ys
fields_equal compare _ _ = false

abbrev pub names_equal : List Field → List Field → Bool
names_equal [] [] = true
names_equal (x ∷ xs) (y ∷ ys) = str_eq x.name y.name && names_equal xs ys
names_equal _ _ = false

-- `!!a == !!b`
abbrev pub same_presence : Option ℕ → Option ℕ → Bool
same_presence none none = true
same_presence (some a) (some b) = true
same_presence _ _ = false

-- the tests before the `switch` of both comparisons, with what the `switch` answers
unfoldable pub equal_tests :
    Store → List (ℕ × ℕ) → (TypeInfo → TypeInfo → Bool) → Option ℕ → Option ℕ → Bool
equal_tests types pairs answer none none = true
equal_tests types pairs answer none (some b) = false
equal_tests types pairs answer (some a) none = false
equal_tests types pairs answer (some a) (some b) =
    if a == b
    then true
    else if not (kind_of (types a) == kind_of (types b))
    then false
    else if is_builtin_kind (kind_of (types a))
    then true
    else if equal_pair_seen pairs a b
    then true
    else answer (types a) (types b)

-- the `switch` of `type_equal_deep_inner`, on types of one kind
unfoldable pub deep_switch : (Option ℕ → Option ℕ → Bool) → TypeInfo → TypeInfo → Bool
deep_switch compare (plain k) b = false
deep_switch compare (nullable x) b = elim b [ nullable y ↦ compare x y | _ ↦ false ]
deep_switch compare (function flags receiver params ret) b = elim b [
  | function flags' receiver' params' ret' ↦
      (flags == flags' && (compare receiver receiver' && compare ret ret'))
      && all_equal compare params params'
  | _ ↦ false
]
deep_switch compare (named name args decl underlying) b = elim b [
  | named name' args' decl' underlying' ↦
      (str_eq name name' && ptr_eq decl decl') && all_equal compare args args'
  | _ ↦ false
]
deep_switch compare (param name index decl) b = elim b [
  | param name' index' decl' ↦ (index == index' && ptr_eq decl decl') && str_eq name name'
  | _ ↦ false
]
deep_switch compare (record_of positional fields) b = elim b [
  | record_of positional' fields' ↦
      all_equal compare positional positional' && fields_equal compare fields fields'
  | _ ↦ false
]

-- `type_equal_deep_inner` with so many slots left in `ctx->pairs`: a pair that finds no slot is unequal.
-- The slots are the pairs that are being compared, since the count goes back behind the `switch`.
unfoldable pub equal_deep_inner : Store → ℕ → List (ℕ × ℕ) → Option ℕ → Option ℕ → Bool
equal_deep_inner types zero pairs a b = equal_tests types pairs (λ x y. false) a b
equal_deep_inner types (suc slots) pairs a b =
    equal_tests types pairs (deep_switch (equal_deep_inner types slots (push_pair pairs a b))) a b

-- `kavak_ty_equal_deep`
unfoldable pub ty_equal_deep : Store → Option ℕ → Option ℕ → Bool
unfolding equal_deep_inner
ty_equal_deep types a b = equal_deep_inner types recursion_limit [] a b

-- the `switch` of `type_equal_nominal_inner`, on types of one kind
unfoldable pub nominal_switch : (Option ℕ → Option ℕ → Bool) → TypeInfo → TypeInfo → Bool
nominal_switch compare (plain k) b = false
nominal_switch compare (nullable x) b = elim b [ nullable y ↦ compare x y | _ ↦ false ]
nominal_switch compare (function flags receiver params ret) b = elim b [
  | function flags' receiver' params' ret' ↦
      (flags == flags' && same_presence receiver receiver') && length params == length params'
  | _ ↦ false
]
nominal_switch compare (named name args decl underlying) b = elim b [
  | named name' args' decl' underlying' ↦ str_eq name name' && length args == length args'
  | _ ↦ false
]
nominal_switch compare (param name index decl) b = elim b [
  | param name' index' decl' ↦ index == index' && str_eq name name'
  | _ ↦ false
]
nominal_switch compare (record_of positional fields) b = elim b [
  | record_of positional' fields' ↦
      length positional == length positional' && names_equal fields fields'
  | _ ↦ false
]

-- `type_equal_nominal_inner`
unfoldable pub equal_nominal_inner : Store → ℕ → List (ℕ × ℕ) → Option ℕ → Option ℕ → Bool
equal_nominal_inner types zero pairs a b = equal_tests types pairs (λ x y. false) a b
equal_nominal_inner types (suc slots) pairs a b =
    equal_tests types pairs (nominal_switch (equal_nominal_inner types slots (push_pair pairs a b)))
      a b

-- `kavak_ty_equal_nominal`
unfoldable pub ty_equal_nominal : Store → Option ℕ → Option ℕ → Bool
unfolding equal_nominal_inner
ty_equal_nominal types a b = equal_nominal_inner types recursion_limit [] a b
