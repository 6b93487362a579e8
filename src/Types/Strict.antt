-- ===== src/Types/Strict.antt =====
-- Strict unification of src/type.c.
pub mod Matches
pub mod Parts
pub mod Sound
use kavak.Base.{
  ℕ, zero, suc, Bool, true, false, not, ◌&&◌, ◌||◌, List, [], ◌∷◌, ◌++◌, Option, none, some, leb,
  ◌==◌, if◌then◌else◌, length, str_eq,
}
use kavak.Types.{
  TypeInfo, Field, plain, nullable, function, named, param, record_of, Store, kind_of,
  recursion_limit, ty_param, ty_equal_deep, same_presence,
}
use kavak.Types.Lenient.{Subst}

-- `KavakUnifyResult`
pub data UnifyResult : Type 0 where
  ok mismatch conflict occurs cap_exceeded : UnifyResult

-- a part of the walk: its result, and the entries afterwards
abbrev pub Unifier : Type 0
Unifier = Subst → UnifyResult × Subst

-- the loops of `type_mentions_param`
abbrev pub any_mentions : (Option ℕ → Bool) → List (Option ℕ) → Bool
any_mentions go [] = false
any_mentions go (x ∷ xs) = go x || any_mentions go xs

abbrev pub field_mentions : (Option ℕ → Bool) → List Field → Bool
field_mentions go [] = false
field_mentions go (x ∷ xs) = go x.type || field_mentions go xs

-- the `switch` of `type_mentions_param`
unfoldable pub mentions_switch : (Option ℕ → Bool) → TypeInfo → Bool
mentions_switch go (plain k) = false
mentions_switch go (nullable x) = go x
mentions_switch go (function flags receiver params ret) =
    go receiver || (any_mentions go params || go ret)
mentions_switch go (named name args decl underlying) = any_mentions go args
mentions_switch go (param name index decl) = false
mentions_switch go (record_of positional fields) =
    any_mentions go positional || field_mentions go fields

-- `type_mentions_param` with so many levels below the recursion limit left
unfoldable pub type_mentions_param : Store → ℕ → ℕ → Option ℕ → Bool
unfolding mentions_switch
type_mentions_param types p levels none = false
type_mentions_param types p zero (some t) = false
type_mentions_param types p (suc levels) (some t) =
    if t == p then true else mentions_switch (type_mentions_param types p levels) (types t)

-- the loop over the bindings: the replacement of a parameter
unfoldable pub find_binding : Subst → ℕ → Option ℕ
find_binding [] p = none
find_binding ((q, r) ∷ subst) p = if q == p then some r else find_binding subst p

-- answers that change nothing, and two parts in order, up to the first result that is not OK
abbrev pub answer : UnifyResult → Unifier
answer result subst = (result, subst)

abbrev pub go_on : Unifier → UnifyResult × Subst → UnifyResult × Subst
go_on second (ok, subst) = second subst
go_on second (mismatch, subst) = (mismatch, subst)
go_on second (conflict, subst) = (conflict, subst)
go_on second (occurs, subst) = (occurs, subst)
go_on second (cap_exceeded, subst) = (cap_exceeded, subst)

unfoldable pub and_then : Unifier → Unifier → Unifier
and_then first second subst = go_on second (first subst)

-- the loops over two arrays of the same length
unfoldable pub unify_all :
    (Option ℕ → Option ℕ → Unifier) → List (Option ℕ) → List (Option ℕ) → Unifier
unify_all go [] [] = answer ok
unify_all go [] (y ∷ ys) = answer mismatch
unify_all go (x ∷ xs) [] = answer mismatch
unify_all go (x ∷ xs) (y ∷ ys) = and_then (go x y) (unify_all go xs ys)

unfoldable pub unify_fields : (Option ℕ → Option ℕ → Unifier) → List Field → List Field → Unifier
unify_fields go [] [] = answer ok
unify_fields go [] (y ∷ ys) = answer mismatch
unify_fields go (x ∷ xs) [] = answer mismatch
unify_fields go (x ∷ xs) (y ∷ ys) =
    if not (str_eq x.name y.name)
    then answer mismatch
    else and_then (go x.type y.type) (unify_fields go xs ys)

-- the receivers, of which both or none are set
unfoldable pub unify_receiver : (Option ℕ → Option ℕ → Unifier) → Option ℕ → Option ℕ → Unifier
unify_receiver go none y = answer ok
unify_receiver go (some x) y = go (some x) y

-- the `switch` of `ty_unify_strict_inner`, on types of one kind
unfoldable pub strict_switch : (Option ℕ → Option ℕ → Unifier) → TypeInfo → TypeInfo → Unifier
strict_switch go (plain k) b = answer ok
strict_switch go (nullable x) b = elim b [ nullable y ↦ go x y | _ ↦ answer mismatch ]
strict_switch go (function flags receiver params ret) b = elim b [
  | function flags' receiver' params' ret' ↦
      if not (flags == flags')
        || (not (same_presence receiver receiver') || not (length params == length params'))
      then answer mismatch
      else and_then (unify_receiver go receiver receiver')
          (and_then (unify_all go params params') (go ret ret'))
  | _ ↦ answer mismatch
]
strict_switch go (named name args decl underlying) b = elim b [
  | named name' args' decl' underlying' ↦
      if not (str_eq name name') || not (length args == length args')
      then answer mismatch
      else unify_all go args args'
  | _ ↦ answer mismatch
]
strict_switch go (param name index decl) b = answer ok
strict_switch go (record_of positional fields) b = elim b [
  | record_of positional' fields' ↦
      if not (length positional == length positional') || not (length fields == length fields')
      then answer mismatch
      else and_then (unify_all go positional positional') (unify_fields go fields fields')
  | _ ↦ answer mismatch
]

-- a parameter that has no replacement yet
unfoldable pub bind_param : Store → ℕ → ℕ → ℕ → Unifier
unfolding type_mentions_param
bind_param types cap_ p c subst =
    if type_mentions_param types p recursion_limit (some c)
    then (occurs, subst)
    else if leb cap_ (length subst)
    then (cap_exceeded, subst)
    else (ok, subst ++ (p, c) ∷ [])

-- a parameter
unfoldable pub strict_param : Store → ℕ → ℕ → ℕ → Unifier
unfolding bind_param
strict_param types cap_ p c subst = elim (find_binding subst p) [
  | some r ↦ if ty_equal_deep types (some r) (some c) then (ok, subst) else (conflict, subst)
  | none ↦ bind_param types cap_ p c subst
]

-- the tests of `ty_unify_strict_inner` on two types
unfoldable pub strict_types : Store → ℕ → (Option ℕ → Option ℕ → Unifier) → ℕ → ℕ → Unifier
strict_types types cap_ go p c =
    if kind_of (types p) == ty_param
    then strict_param types cap_ p c
    else if not (kind_of (types p) == kind_of (types c))
    then answer mismatch
    else strict_switch go (types p) (types c)

-- `ty_unify_strict_inner` with so many levels below the recursion limit left
unfoldable pub strict_inner : Store → ℕ → ℕ → Option ℕ → Option ℕ → Unifier
strict_inner types cap_ zero p c = answer cap_exceeded
strict_inner types cap_ (suc levels) none c = answer mismatch
strict_inner types cap_ (suc levels) (some p) none = answer mismatch
strict_inner types cap_ (suc levels) (some p) (some c) =
    strict_types types cap_ (strict_inner types cap_ levels) p c

-- `kavak_ty_unify_strict`
unfoldable pub ty_unify_strict : Store → ℕ → Option ℕ → Option ℕ → Unifier
unfolding strict_inner
ty_unify_strict types cap_ p c = strict_inner types cap_ recursion_limit p c
