-- ===== src/Types/Strict/Parts.antt =====
-- The parts of strict unification in src/type.c: what each establishes where it answers OK.
use kavak.Base.{
  ℕ, ◌≡◌, refl, sym, ap, ◌∙◌, Bool, true, false, not, ◌||◌, List, [], ◌∷◌, ◌++◌, Option, none, some,
  ◌==◌, if◌then◌else◌, length, append_assoc, append_nil, str_eq, str_eq_sound, arith,
}
use kavak.Types.{
  TypeInfo, Field, plain, nullable, function, named, param, record_of, kind_of, ty_param,
  same_presence,
}
use kavak.Types.Lenient.{Subst}
use kavak.Types.Related.{AllRelated, FieldsRelated, AllRelated-map}
use kavak.Types.Strict.{
  UnifyResult, ok, mismatch, conflict, occurs, cap_exceeded, Unifier, answer, go_on, and_then,
  unify_all, unify_fields, unify_receiver, strict_switch,
}
use kavak.Types.Strict.Matches.{ReceiverRelated, HeadMatches, ReceiverRelated-map}

-- a part that goes on has answered OK
go_on-ok :
    (second : Unifier) (r : UnifyResult × Subst)
    → (go_on second r).0 ≡ ok
    → (r.0 ≡ ok) × (go_on second r ≡ second r.1)
go_on-ok second (ok, subst) h = (refl, refl)
go_on-ok second (mismatch, subst) h = absurd (ground (arith, h))
go_on-ok second (conflict, subst) h = absurd (ground (arith, h))
go_on-ok second (occurs, subst) h = absurd (ground (arith, h))
go_on-ok second (cap_exceeded, subst) h = absurd (ground (arith, h))

-- What a part that answers OK establishes of the entries afterwards, which only grow
abbrev pub Establishes : (Subst → Type 0) → Subst → UnifyResult × Subst → Type 0
Establishes R subst r = r.0 ≡ ok → (more : Subst) × (r.1 ≡ subst ++ more) × R r.1

abbrev pub IsSound : (Subst → Type 0) → Unifier → Type 0
IsSound R f = (subst : Subst) → Establishes R subst (f subst)

pub Establishes-along :
    (R : Subst → Type 0) (subst : Subst) (r q : UnifyResult × Subst)
    → r ≡ q
    → Establishes R subst q
    → Establishes R subst r
Establishes-along R subst r q same h = rw same h

abbrev pub IsStable : (Subst → Type 0) → Type 0
IsStable R = (subst more : Subst) → R subst → R (subst ++ more)

answer-IsSound :
    (R : Subst → Type 0) (result : UnifyResult)
    → (result ≡ ok → (subst : Subst) → R subst)
    → IsSound R (answer result)
answer-IsSound R result r subst h = ([], sym (append_nil subst), r h subst)

pub IsSound-map :
    (R S : Subst → Type 0) (f : Unifier) → ((s : Subst) → R s → S s) → IsSound R f → IsSound S f
IsSound-map R S f m sound subst h =
    let found = sound subst h in (found.0, found.1, m (f subst).1 found.2)

-- a test that answers with a mismatch
pub guard-IsSound :
    (R : Subst → Type 0) (bad : Bool) (f : Unifier)
    → (bad ≡ false → IsSound R f)
    → IsSound R (if bad then answer mismatch else f)
guard-IsSound R true f g = λ subst h. absurd (ground (arith, h))
guard-IsSound R false f g = g refl

and_then-IsSound :
    (R S : Subst → Type 0) (first second : Unifier)
    → IsStable R
    → IsSound R first
    → IsSound S second
    → IsSound (λ s. R s × S s) (and_then first second)
unfolding and_then
and_then-IsSound R S first second stable f s subst h =
    let (good, same) = go_on-ok second (first subst) h in
    let (a, at_, r) = f subst good in
    let (b, at', q) = s (first subst).1 (ap (λ r. r.0) (sym same) ∙ h) in
    let after = ap (λ r. r.1) same in
    (
      a ++ b,
      after ∙ at' ∙ ap (λ l. l ++ b) at_ ∙ append_assoc subst a b,
      (rw (after, at') (stable (first subst).1 b r), rw after q),
    )

module _ (go : Option ℕ → Option ℕ → Unifier) (R : Subst → Option ℕ → Option ℕ → Type 0)
    (stable : (x y : Option ℕ) → IsStable (λ s. R s x y))
    (g : (x y : Option ℕ) → IsSound (λ s. R s x y) (go x y)) where
  AllRelated-IsStable : (xs ys : List (Option ℕ)) → IsStable (λ s. AllRelated (R s) xs ys)
  AllRelated-IsStable xs ys subst more = AllRelated-map (λ x y. stable x y subst more) xs ys

  unify_all-AllRelated :
      (xs ys : List (Option ℕ)) → IsSound (λ s. AllRelated (R s) xs ys) (unify_all go xs ys)
  unfolding unify_all
  unify_all-AllRelated [] [] = answer-IsSound (λ s. Unit) ok (λ e s. tt)
  unify_all-AllRelated [] (y ∷ ys) =
      answer-IsSound (λ s. ⊥) mismatch (λ e. absurd (ground (arith, e)))
  unify_all-AllRelated (x ∷ xs) [] =
      answer-IsSound (λ s. ⊥) mismatch (λ e. absurd (ground (arith, e)))
  unify_all-AllRelated (x ∷ xs) (y ∷ ys) =
      and_then-IsSound (λ s. R s x y) (λ s. AllRelated (R s) xs ys) (go x y) (unify_all go xs ys)
        (stable x y) (g x y) (unify_all-AllRelated xs ys)

  unify_fields-FieldsRelated :
      (xs ys : List Field) → IsSound (λ s. FieldsRelated (R s) xs ys) (unify_fields go xs ys)
  unfolding unify_fields
  unify_fields-FieldsRelated [] [] = answer-IsSound (λ s. Unit) ok (λ e s. tt)
  unify_fields-FieldsRelated [] (y ∷ ys) =
      answer-IsSound (λ s. ⊥) mismatch (λ e. absurd (ground (arith, e)))
  unify_fields-FieldsRelated (x ∷ xs) [] =
      answer-IsSound (λ s. ⊥) mismatch (λ e. absurd (ground (arith, e)))
  unify_fields-FieldsRelated (x ∷ xs) (y ∷ ys) =
      guard-IsSound (λ s. FieldsRelated (R s) (x ∷ xs) (y ∷ ys)) (not (str_eq x.name y.name))
        (and_then (go x.type y.type) (unify_fields go xs ys))
        (λ same.
          IsSound-map (λ s. R s x.type y.type × FieldsRelated (R s) xs ys)
            (λ s. FieldsRelated (R s) (x ∷ xs) (y ∷ ys))
            (and_then (go x.type y.type) (unify_fields go xs ys))
            (λ s both. (str_eq_sound x.name y.name (ground (arith, same)), both.0, both.1))
            (and_then-IsSound (λ s. R s x.type y.type) (λ s. FieldsRelated (R s) xs ys)
              (go x.type y.type) (unify_fields go xs ys) (stable x.type y.type) (g x.type y.type)
              (unify_fields-FieldsRelated xs ys)))

  unify_receiver-ReceiverRelated :
      (x y : Option ℕ)
      → same_presence x y ≡ true
      → IsSound (λ s. ReceiverRelated (R s) x y) (unify_receiver go x y)
  unfolding unify_receiver
  unify_receiver-ReceiverRelated none none h = answer-IsSound (λ s. Unit) ok (λ e s. tt)
  unify_receiver-ReceiverRelated none (some y) h = absurd (ground (arith, h))
  unify_receiver-ReceiverRelated (some x) none h = absurd (ground (arith, h))
  unify_receiver-ReceiverRelated (some x) (some y) h = g (some x) (some y)

  ReceiverRelated-IsStable : (x y : Option ℕ) → IsStable (λ s. ReceiverRelated (R s) x y)
  ReceiverRelated-IsStable x y subst more = ReceiverRelated-map (λ x y. stable x y subst more) x y

  function-HeadMatches :
      (flags flags' : ℕ) (receiver receiver' : Option ℕ) (params params' : List (Option ℕ))
      (ret ret' : Option ℕ)
      → IsSound
          (λ s.
            (flags ≡ flags')
            × ReceiverRelated (R s) receiver receiver'
            × AllRelated (R s) params params'
            × R s ret ret')
          (strict_switch go
            (function flags receiver params ret)
            (function flags' receiver' params' ret'))
  unfolding strict_switch
  function-HeadMatches flags flags' receiver receiver' params params' ret ret' =
      let rest = and_then (unify_all go params params') (go ret ret') in
      let whole = and_then (unify_receiver go receiver receiver') rest in
      let Rest = λ (s : Subst). AllRelated (R s) params params' × R s ret ret' in
      let Head = λ (s : Subst). ReceiverRelated (R s) receiver receiver' in
      guard-IsSound
        (λ s.
          (flags ≡ flags')
          × ReceiverRelated (R s) receiver receiver'
          × AllRelated (R s) params params'
          × R s ret ret')
        (not (flags == flags')
          || (not (same_presence receiver receiver') || not (length params == length params')))
        whole
        (λ good.
          IsSound-map (λ s. Head s × Rest s)
            (λ s.
              (flags ≡ flags')
              × ReceiverRelated (R s) receiver receiver'
              × AllRelated (R s) params params'
              × R s ret ret')
            whole (λ s all. (ground (arith, good), all.0, all.1.0, all.1.1))
            (and_then-IsSound Head Rest (unify_receiver go receiver receiver') rest
              (ReceiverRelated-IsStable receiver receiver')
              (unify_receiver-ReceiverRelated receiver receiver' (ground (arith, good)))
              (and_then-IsSound (λ s. AllRelated (R s) params params') (λ s. R s ret ret')
                (unify_all go params params') (go ret ret') (AllRelated-IsStable params params')
                (unify_all-AllRelated params params') (g ret ret'))))

  pub strict_switch-HeadMatches :
      (a b : TypeInfo)
      → kind_of a ≡ kind_of b
      → (kind_of a == ty_param) ≡ false
      → IsSound (λ s. HeadMatches (R s) a b) (strict_switch go a b)
  unfolding strict_switch
  strict_switch-HeadMatches (plain k) b =
      λ same other. answer-IsSound (λ s. k ≡ kind_of b) ok (λ e s. same)
  strict_switch-HeadMatches (nullable x) b = λ same other.
      elim b
        as (λ b.
          IsSound (λ s. HeadMatches (R s) (nullable x) b) (strict_switch go (nullable x) b)) [
            | nullable y ↦ g x y
            | _ ↦ λ subst h. absurd (ground (arith, h))
          ]
  strict_switch-HeadMatches (function flags receiver params ret) b = λ same other.
      elim b
        as (λ b.
          IsSound (λ s. HeadMatches (R s) (function flags receiver params ret) b)
            (strict_switch go (function flags receiver params ret) b)) [
              | function flags' receiver' params' ret' ↦
                  function-HeadMatches flags flags' receiver receiver' params params' ret ret'
              | _ ↦ λ subst h. absurd (ground (arith, h))
            ]
  strict_switch-HeadMatches (named name args decl underlying) b = λ same other.
      elim b
        as (λ b.
          IsSound (λ s. HeadMatches (R s) (named name args decl underlying) b)
            (strict_switch go (named name args decl underlying) b)) [
              | named name' args' decl' underlying' ↦
                  guard-IsSound (λ s. (name ≡ name') × AllRelated (R s) args args')
                    (not (str_eq name name') || not (length args == length args'))
                    (unify_all go args args')
                    (λ good.
                      IsSound-map (λ s. AllRelated (R s) args args')
                        (λ s. (name ≡ name') × AllRelated (R s) args args')
                        (unify_all go args args')
                        (λ s all. (str_eq_sound name name' (ground (arith, good)), all))
                        (unify_all-AllRelated args args'))
              | _ ↦ λ subst h. absurd (ground (arith, h))
            ]
  strict_switch-HeadMatches (param name index decl) b = λ same other. absurd (ground (arith, other))
  strict_switch-HeadMatches (record_of positional fields) b = λ same other.
      elim b
        as (λ b.
          IsSound (λ s. HeadMatches (R s) (record_of positional fields) b)
            (strict_switch go (record_of positional fields) b)) [
              | record_of positional' fields' ↦
                  guard-IsSound
                    (λ s.
                      AllRelated (R s) positional positional' × FieldsRelated (R s) fields fields')
                    (not (length positional == length positional')
                      || not (length fields == length fields'))
                    (and_then (unify_all go positional positional')
                      (unify_fields go fields fields'))
                    (λ good.
                      and_then-IsSound (λ s. AllRelated (R s) positional positional')
                        (λ s. FieldsRelated (R s) fields fields')
                        (unify_all go positional positional') (unify_fields go fields fields')
                        (AllRelated-IsStable positional positional')
                        (unify_all-AllRelated positional positional')
                        (unify_fields-FieldsRelated fields fields'))
              | _ ↦ λ subst h. absurd (ground (arith, h))
            ]
