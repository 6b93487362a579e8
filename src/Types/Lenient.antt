-- ===== src/Types/Lenient.antt =====
-- Lenient unification of src/type.c.
use kavak.Base.{
  ℕ, zero, suc, Bool, false, not, ◌||◌, List, [], ◌∷◌, ◌++◌, Option, none, some, leb, ◌==◌,
  if◌then◌else◌, length, add32,
}
use kavak.Types.{
  TypeInfo, Field, plain, nullable, function, named, param, record_of, Store, kind_of,
  recursion_limit, ty_param,
}

-- the first `subst_count` entries of `subst`, each a parameter with its replacement
abbrev pub Subst : Type 0
Subst = List (ℕ × ℕ)

-- what a part of the walk does: the bindings it adds, and the entries afterwards
abbrev pub Step : Type 0
Step = Subst → ℕ × Subst

-- `subst_already_bound`
unfoldable pub subst_already_bound : Subst → ℕ → Bool
subst_already_bound [] p = false
subst_already_bound ((q, r) ∷ subst) p = q == p || subst_already_bound subst p

-- a part of the walk that learns nothing, and `added +=` of two parts in order
abbrev pub learn_nothing : Step
learn_nothing subst = (0, subst)

unfoldable pub then_learn : Step → Step → Step
then_learn first second subst = let r = first subst in let q = second (r.1) in (add32 r.0 q.0, q.1)

-- the loops over the shorter of two arrays
unfoldable pub learn_all : (Option ℕ → Option ℕ → Step) → List (Option ℕ) → List (Option ℕ) → Step
learn_all go [] ys = learn_nothing
learn_all go (x ∷ xs) [] = learn_nothing
learn_all go (x ∷ xs) (y ∷ ys) = then_learn (go x y) (learn_all go xs ys)

unfoldable pub learn_fields : (Option ℕ → Option ℕ → Step) → List Field → List Field → Step
learn_fields go [] ys = learn_nothing
learn_fields go (x ∷ xs) [] = learn_nothing
learn_fields go (x ∷ xs) (y ∷ ys) = then_learn (go x.type y.type) (learn_fields go xs ys)

-- the receivers, where both are set
abbrev pub learn_receiver : (Option ℕ → Option ℕ → Step) → Option ℕ → Option ℕ → Step
learn_receiver go (some x) (some y) = go (some x) (some y)
learn_receiver go _ _ = learn_nothing

-- the `switch`, on types of one kind
unfoldable pub unify_switch : (Option ℕ → Option ℕ → Step) → TypeInfo → TypeInfo → Step
unify_switch go (plain k) b = learn_nothing
unify_switch go (nullable x) b = elim b [ nullable y ↦ go x y | _ ↦ learn_nothing ]
unify_switch go (function flags receiver params ret) b = elim b [
  | function flags' receiver' params' ret' ↦
      then_learn (learn_receiver go receiver receiver')
        (then_learn (learn_all go params params') (go ret ret'))
  | _ ↦ learn_nothing
]
unify_switch go (named name args decl underlying) b = elim b [
  | named name' args' decl' underlying' ↦ learn_all go args args'
  | _ ↦ learn_nothing
]
unify_switch go (param name index decl) b = learn_nothing
unify_switch go (record_of positional fields) b = elim b [
  | record_of positional' fields' ↦
      then_learn (learn_all go positional positional') (learn_fields go fields fields')
  | _ ↦ learn_nothing
]

-- a parameter binds to what it meets, unless it is bound or there is no room
unfoldable pub unify_param : ℕ → ℕ → ℕ → Step
unify_param cap_ p c subst =
    if subst_already_bound subst p
    then (0, subst)
    else if leb cap_ (length subst)
    then (0, subst)
    else (1, subst ++ (p, c) ∷ [])

-- the tests of `ty_unify_inner` on two types
unfoldable pub unify_types : Store → ℕ → (Option ℕ → Option ℕ → Step) → ℕ → ℕ → Step
unify_types types cap_ go p c =
    if kind_of (types p) == ty_param
    then unify_param cap_ p c
    else if not (kind_of (types p) == kind_of (types c))
    then learn_nothing
    else unify_switch go (types p) (types c)

-- `ty_unify_inner` with so many levels below the recursion limit left
unfoldable pub unify_inner : Store → ℕ → ℕ → Option ℕ → Option ℕ → Step
unify_inner types cap_ levels none c = learn_nothing
unify_inner types cap_ levels (some p) none = learn_nothing
unify_inner types cap_ zero (some p) (some c) = learn_nothing
unify_inner types cap_ (suc levels) (some p) (some c) =
    unify_types types cap_ (unify_inner types cap_ levels) p c

-- `kavak_ty_unify`
unfoldable pub ty_unify : Store → ℕ → Option ℕ → Option ℕ → Step
unfolding unify_inner
ty_unify types cap_ pattern_ concrete = unify_inner types cap_ recursion_limit pattern_ concrete
