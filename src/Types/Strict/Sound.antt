-- ===== src/Types/Strict/Sound.antt =====
-- Strict unification of src/type.c: the bindings that it answers OK with make the types match.
use kavak.Base.{
  ℕ, zero, suc, ◌≡◌, inl, inr, refl, sym, not, [], ◌∷◌, ◌++◌, Option, none, some, leb, ◌==◌,
  if◌then◌else◌, length, append_nil, arith, Bool-cases, Option-cases,
}
use kavak.Types.{Store, kind_of, recursion_limit, ty_param, ty_equal_deep}
use kavak.Types.Lenient.{Subst}
use kavak.Types.Strict.{
  ok, mismatch, conflict, occurs, cap_exceeded, Unifier, type_mentions_param, find_binding, answer,
  strict_switch, bind_param, strict_param, strict_types, strict_inner, ty_unify_strict,
}
use kavak.Types.Strict.Matches.{
  HeadMatches, Matches, find_binding-last, Matches-append, ty_equal_deep_refl,
}
use kavak.Types.Strict.Parts.{
  Establishes, IsSound, Establishes-along, IsStable, IsSound-map, guard-IsSound,
  strict_switch-HeadMatches,
}

module _ (types : Store) (cap_ : ℕ) where
  abbrev Match : ℕ → ℕ → ℕ → Subst → Type 0
  Match levels p c s = Matches types s (suc levels) (some p) (some c)

  bind_param-Matches :
      (levels p c : ℕ)
      → kind_of (types p) ≡ ty_param
      → (subst : Subst) → find_binding subst p ≡ none
      → Establishes (Match levels p c) subst (bind_param types cap_ p c subst)
  unfolding bind_param
  bind_param-Matches levels p c kind subst fresh =
      elim (Bool-cases (type_mentions_param types p recursion_limit (some c))) [
        | inl met ↦
            Establishes-along (Match levels p c) subst (bind_param types cap_ p c subst)
              (occurs, subst) (rw (met, bind_param) refl) (λ h. absurd (ground (arith, h)))
        | inr apart ↦ elim (Bool-cases (leb cap_ (length subst))) [
          | inl full ↦
              Establishes-along (Match levels p c) subst (bind_param types cap_ p c subst)
                (cap_exceeded, subst) (rw (apart, bind_param, full) refl)
                (λ h. absurd (ground (arith, h)))
          | inr free ↦
              Establishes-along (Match levels p c) subst (bind_param types cap_ p c subst)
                (ok, subst ++ (p, c) ∷ []) (rw (apart, bind_param, free) refl)
                (λ h. (
                  (p, c) ∷ [],
                  refl,
                  inl (kind, c, find_binding-last subst p c fresh, ty_equal_deep_refl types c),
                ))
        ]
      ]

  strict_param-Matches :
      (levels p c : ℕ)
      → kind_of (types p) ≡ ty_param
      → IsSound (Match levels p c) (strict_param types cap_ p c)
  unfolding strict_param
  strict_param-Matches levels p c kind subst = elim (Option-cases (find_binding subst p)) [
    | inl fresh ↦
        Establishes-along (Match levels p c) subst (strict_param types cap_ p c subst)
          (bind_param types cap_ p c subst) (rw (fresh, strict_param) refl)
          (bind_param-Matches levels p c kind subst fresh)
    | inr (r, found) ↦ elim (Bool-cases (ty_equal_deep types (some r) (some c))) [
      | inl same ↦
          Establishes-along (Match levels p c) subst (strict_param types cap_ p c subst) (ok, subst)
            (rw (found, strict_param, same) refl)
            (λ h. ([], sym (append_nil subst), inl (kind, r, found, same)))
      | inr differ ↦
          Establishes-along (Match levels p c) subst (strict_param types cap_ p c subst)
            (conflict, subst) (rw (found, strict_param, differ) refl)
            (λ h. absurd (ground (arith, h)))
    ]
  ]

  Matches-IsStable : (levels : ℕ) (x y : Option ℕ) → IsStable (λ s. Matches types s levels x y)
  Matches-IsStable levels x y subst more = Matches-append types subst more levels x y

  strict_types-Matches :
      (levels : ℕ) (go : Option ℕ → Option ℕ → Unifier)
      → ((x y : Option ℕ) → IsSound (λ s. Matches types s levels x y) (go x y))
      → (p c : ℕ)
      → IsSound
          (λ s. Matches types s (suc levels) (some p) (some c))
          (strict_types types cap_ go p c)
  unfolding strict_types
  strict_types-Matches levels go g p c = elim (Bool-cases (kind_of (types p) == ty_param)) [
    | inl is_param ↦ λ subst.
        Establishes-along (Match levels p c) subst (strict_types types cap_ go p c subst)
          (strict_param types cap_ p c subst) (rw is_param refl)
          (strict_param-Matches levels p c (ground (arith, is_param)) subst)
    | inr other ↦ λ subst.
        Establishes-along (Match levels p c) subst (strict_types types cap_ go p c subst)
          ((if not (kind_of (types p) == kind_of (types c))
              then answer mismatch
              else strict_switch go (types p) (types c))
            subst)
          (rw other refl)
          (guard-IsSound (λ s. Matches types s (suc levels) (some p) (some c))
            (not (kind_of (types p) == kind_of (types c))) (strict_switch go (types p) (types c))
            (λ same.
              IsSound-map (λ s. HeadMatches (Matches types s levels) (types p) (types c))
                (λ s. Matches types s (suc levels) (some p) (some c))
                (strict_switch go (types p) (types c)) (λ s head. inr head)
                (strict_switch-HeadMatches go (λ s. Matches types s levels)
                  (Matches-IsStable levels) g (types p) (types c) (ground (arith, same)) other))
            subst)
  ]

  strict_inner-Matches :
      (levels : ℕ) (p c : Option ℕ)
      → IsSound (λ s. Matches types s levels p c) (strict_inner types cap_ levels p c)
  unfolding strict_inner
  strict_inner-Matches zero p c = λ subst h. absurd (ground (arith, h))
  strict_inner-Matches (suc levels) none c = λ subst h. absurd (ground (arith, h))
  strict_inner-Matches (suc levels) (some p) none = λ subst h. absurd (ground (arith, h))
  strict_inner-Matches (suc levels) (some p) (some c) =
      strict_types-Matches levels (strict_inner types cap_ levels) (strict_inner-Matches levels) p c

-- When `kavak_ty_unify_strict` answers OK, it has kept the entries and added bindings behind them, and
-- with these the pattern matches the type: a parameter stands, wherever it occurs, for a type that
-- `kavak_ty_equal_deep` calls equal to what is met there, and the heads of all else agree.
pub ty_unify_strict-Matches :
    (types : Store) (cap_ : ℕ) (p c : Option ℕ) (subst : Subst)
    → (ty_unify_strict types cap_ p c subst).0 ≡ ok
    → (more : Subst) × ((ty_unify_strict types cap_ p c subst).1 ≡ subst ++ more)
      × Matches types (ty_unify_strict types cap_ p c subst).1 recursion_limit p c
unfolding ty_unify_strict
ty_unify_strict-Matches types cap_ p c subst =
    strict_inner-Matches types cap_ recursion_limit p c subst
