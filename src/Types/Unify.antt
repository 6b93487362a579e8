-- ===== src/Types/Unify.antt =====
-- Lenient unification of src/type.c: what it binds.
use kavak.Base.{
  ℕ, zero, suc, ◌≤◌, ◌≡◌, inl, inr, refl, sym, ap, ◌∙◌, false, List, [], ◌∷◌, ◌++◌, Option, none,
  some, leb, ◌==◌, length, length-append, append_assoc, append_nil, All, All-append, uint32_max,
  arith, Bool-cases,
}
use kavak.Types.{
  TypeInfo, Field, plain, nullable, function, named, param, record_of, Store, kind_of,
  recursion_limit, ty_param,
}
use kavak.Types.Lenient.{
  Subst, Step, subst_already_bound, learn_nothing, then_learn, learn_all, learn_fields,
  learn_receiver, unify_switch, unify_param, unify_types, unify_inner, ty_unify,
}

-- No parameter is bound twice.
abbrev pub OneEach : Subst → Type 0
OneEach [] = Unit
OneEach ((p, r) ∷ subst) = (subst_already_bound subst p ≡ false) × OneEach subst

-- What a part of the walk promises: it keeps the entries in front and adds as many bindings of
-- parameters as it returns, within the room, and none of a parameter that is bound.
abbrev pub Learned : Store → ℕ → Subst → ℕ × Subst → Type 0
Learned types cap_ subst r =
    (more : Subst) × (r.1 ≡ subst ++ more)
    × (length more ≡ r.0)
    × (length r.1 ≤ cap_)
    × OneEach r.1
    × All (λ b. kind_of (types b.0) ≡ ty_param) more

module _ (types : Store) (cap_ : ℕ) (small : cap_ ≤ uint32_max) where
  abbrev IsStep : Step → Type 0
  IsStep f =
      (subst : Subst) → length subst ≤ cap_ → OneEach subst → Learned types cap_ subst (f subst)

  learn_nothing-IsStep : IsStep learn_nothing
  learn_nothing-IsStep subst room one = ([], sym (append_nil subst), refl, room, one, tt)

  then_learn-IsStep :
      (first second : Step) → IsStep first → IsStep second → IsStep (then_learn first second)
  unfolding then_learn
  then_learn-IsStep first second f s subst room one =
      let (a, at_, added, fits, each, kinds) = f subst room one in
      let (b, at', added', fits', each', kinds') = s (first subst).1 fits each in
      let whole = at' ∙ ap (λ l. l ++ b) at_ ∙ append_assoc subst a b in
      (
        a ++ b,
        whole,
        ground (
          arith,
          length-append a b,
          added,
          added',
          ap length whole ∙ length-append subst (a ++ b),
          fits',
          small,
        ),
        fits',
        each',
        All-append (λ b. kind_of (types b.0) ≡ ty_param) a b kinds kinds',
      )

  learn_all-IsStep :
      (go : Option ℕ → Option ℕ → Step)
      → ((x y : Option ℕ) → IsStep (go x y))
      → (xs ys : List (Option ℕ)) → IsStep (learn_all go xs ys)
  unfolding learn_all
  learn_all-IsStep go g [] ys = learn_nothing-IsStep
  learn_all-IsStep go g (x ∷ xs) [] = learn_nothing-IsStep
  learn_all-IsStep go g (x ∷ xs) (y ∷ ys) =
      then_learn-IsStep (go x y) (learn_all go xs ys) (g x y) (learn_all-IsStep go g xs ys)

  learn_fields-IsStep :
      (go : Option ℕ → Option ℕ → Step)
      → ((x y : Option ℕ) → IsStep (go x y))
      → (xs ys : List Field) → IsStep (learn_fields go xs ys)
  unfolding learn_fields
  learn_fields-IsStep go g [] ys = learn_nothing-IsStep
  learn_fields-IsStep go g (x ∷ xs) [] = learn_nothing-IsStep
  learn_fields-IsStep go g (x ∷ xs) (y ∷ ys) =
      then_learn-IsStep (go x.type y.type) (learn_fields go xs ys) (g x.type y.type)
        (learn_fields-IsStep go g xs ys)

  learn_receiver-IsStep :
      (go : Option ℕ → Option ℕ → Step)
      → ((x y : Option ℕ) → IsStep (go x y))
      → (x y : Option ℕ) → IsStep (learn_receiver go x y)
  learn_receiver-IsStep go g none none = learn_nothing-IsStep
  learn_receiver-IsStep go g none (some y) = learn_nothing-IsStep
  learn_receiver-IsStep go g (some x) none = learn_nothing-IsStep
  learn_receiver-IsStep go g (some x) (some y) = g (some x) (some y)

  unify_switch-IsStep :
      (go : Option ℕ → Option ℕ → Step)
      → ((x y : Option ℕ) → IsStep (go x y))
      → (a b : TypeInfo) → IsStep (unify_switch go a b)
  unfolding unify_switch
  unify_switch-IsStep go g (plain k) b = learn_nothing-IsStep
  unify_switch-IsStep go g (nullable x) b =
      elim b as (λ b. IsStep (unify_switch go (nullable x) b)) [
        | nullable y ↦ g x y
        | _ ↦ learn_nothing-IsStep
      ]
  unify_switch-IsStep go g (function flags receiver params ret) b =
      elim b as (λ b. IsStep (unify_switch go (function flags receiver params ret) b)) [
        | function flags' receiver' params' ret' ↦
            then_learn-IsStep (learn_receiver go receiver receiver')
              (then_learn (learn_all go params params') (go ret ret'))
              (learn_receiver-IsStep go g receiver receiver')
              (then_learn-IsStep (learn_all go params params') (go ret ret')
                (learn_all-IsStep go g params params') (g ret ret'))
        | _ ↦ learn_nothing-IsStep
      ]
  unify_switch-IsStep go g (named name args decl underlying) b =
      elim b as (λ b. IsStep (unify_switch go (named name args decl underlying) b)) [
        | named name' args' decl' underlying' ↦ learn_all-IsStep go g args args'
        | _ ↦ learn_nothing-IsStep
      ]
  unify_switch-IsStep go g (param name index decl) b = learn_nothing-IsStep
  unify_switch-IsStep go g (record_of positional fields) b =
      elim b as (λ b. IsStep (unify_switch go (record_of positional fields) b)) [
        | record_of positional' fields' ↦
            then_learn-IsStep (learn_all go positional positional') (learn_fields go fields fields')
              (learn_all-IsStep go g positional positional')
              (learn_fields-IsStep go g fields fields')
        | _ ↦ learn_nothing-IsStep
      ]

  bound-append :
      (subst : Subst) (p c q : ℕ)
      → subst_already_bound subst q ≡ false
      → (p == q) ≡ false
      → subst_already_bound (subst ++ (p, c) ∷ []) q ≡ false
  unfolding subst_already_bound
  bound-append [] p c q h k = ground (arith, k)
  bound-append ((r, v) ∷ subst) p c q h k =
      let rest : subst_already_bound subst q ≡ false = ground (arith, h) in
      ground (arith, h, bound-append subst p c q rest k)

  OneEach-append :
      (subst : Subst) (p c : ℕ)
      → OneEach subst
      → subst_already_bound subst p ≡ false
      → OneEach (subst ++ (p, c) ∷ [])
  unfolding subst_already_bound
  OneEach-append [] p c one fresh = (refl, tt)
  OneEach-append ((q, v) ∷ subst) p c one fresh =
      let apart : (p == q) ≡ false = ground (arith, fresh) in
      let rest : subst_already_bound subst p ≡ false = ground (arith, fresh) in
      (bound-append subst p c q one.0 apart, OneEach-append subst p c one.1 rest)

  unify_param-IsStep : (p c : ℕ) → kind_of (types p) ≡ ty_param → IsStep (unify_param cap_ p c)
  unfolding unify_param
  unify_param-IsStep p c kind subst room one = elim (Bool-cases (subst_already_bound subst p)) [
    | inl bound ↦ rw (bound, unify_param) (learn_nothing-IsStep subst room one)
    | inr fresh ↦ elim (Bool-cases (leb cap_ (length subst))) [
      | inl full ↦ rw (fresh, unify_param, full) (learn_nothing-IsStep subst room one)
      | inr free ↦
          rw (fresh, unify_param, free)
            (
              (p, c) ∷ [],
              refl,
              refl,
              ground (arith, length-append subst ((p, c) ∷ []), free),
              OneEach-append subst p c one fresh,
              (kind, tt),
            )
    ]
  ]

  unify_types-IsStep :
      (go : Option ℕ → Option ℕ → Step)
      → ((x y : Option ℕ) → IsStep (go x y))
      → (p c : ℕ) → IsStep (unify_types types cap_ go p c)
  unfolding unify_types
  unify_types-IsStep go g p c = elim (Bool-cases (kind_of (types p) == ty_param)) [
    | inl is_param ↦ rw is_param (unify_param-IsStep p c (ground (arith, is_param)))
    | inr other ↦ rw other (elim (Bool-cases (kind_of (types p) == kind_of (types c))) [
      | inl alike ↦ rw alike (unify_switch-IsStep go g (types p) (types c))
      | inr unlike ↦ rw unlike learn_nothing-IsStep
    ])
  ]

  unify_inner-IsStep : (levels : ℕ) (p c : Option ℕ) → IsStep (unify_inner types cap_ levels p c)
  unfolding unify_inner
  unify_inner-IsStep zero none c = learn_nothing-IsStep
  unify_inner-IsStep (suc levels) none c = learn_nothing-IsStep
  unify_inner-IsStep zero (some p) none = learn_nothing-IsStep
  unify_inner-IsStep (suc levels) (some p) none = learn_nothing-IsStep
  unify_inner-IsStep zero (some p) (some c) = learn_nothing-IsStep
  unify_inner-IsStep (suc levels) (some p) (some c) =
      unify_types-IsStep (unify_inner types cap_ levels) (unify_inner-IsStep levels) p c

-- `kavak_ty_unify` keeps the bindings that it is given, and adds behind them as many as it returns, all
-- of parameter types, never more than the room holds, and never two of one parameter.
pub ty_unify-Learned :
    (types : Store) (cap_ : ℕ) (p c : Option ℕ) (subst : Subst)
    → cap_ ≤ uint32_max
    → length subst ≤ cap_
    → OneEach subst
    → Learned types cap_ subst (ty_unify types cap_ p c subst)
unfolding ty_unify
ty_unify-Learned types cap_ p c subst small room one =
    unify_inner-IsStep types cap_ small recursion_limit p c subst room one
