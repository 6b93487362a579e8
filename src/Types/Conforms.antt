-- ===== src/Types/Conforms.antt =====
-- Conformance of src/type.c against paths over direct supertypes.
use kavak.Base.{
  ℕ, zero, suc, ◌≡◌, inl, inr, refl, sym, ap, ◌∙◌, Bool, true, List, [], ◌∷◌, ◌++◌, Option, none,
  some, leb, if◌then◌else◌, length, arith, Bool-cases,
}
use kavak.Types.{Store, ty_equal_deep, recursion_limit}
use kavak.Types.Supers.{
  Hook, visited_seen, fetch_supers, any_from, conforms_node, conforms_dfs, ty_conforms,
}

-- A type that reaches the goal over direct supertypes.
pub data Reaches (types : Store) (supers : ℕ → List (Option ℕ)) (goal : Option ℕ)
    : Option ℕ → Type 0 where
  here : {s : ℕ} → ty_equal_deep types (some s) goal ≡ true → Reaches types supers goal (some s)
  up :
      {s : ℕ} {t : Option ℕ} (before after : List (Option ℕ))
      → supers s ≡ before ++ t ∷ after
      → Reaches types supers goal t
      → Reaches types supers goal (some s)

-- One of the list reaches the goal.
abbrev pub Some : (Option ℕ → Type 0) → List (Option ℕ) → Type 0
Some P xs =
    (before : List (Option ℕ)) × (x : Option ℕ) × (after : List (Option ℕ)) × (xs
      ≡ before ++ x ∷ after)
    × P x

any_from-Some :
    (P : Option ℕ → Type 0) (go : Option ℕ → List ℕ → Bool × List ℕ)
    → ((x : Option ℕ) (visited : List ℕ) → (go x visited).0 ≡ true → P x)
    → (xs : List (Option ℕ)) (visited : List ℕ) → (any_from go xs visited).0 ≡ true
    → Some P xs
unfolding any_from
any_from-Some P go right [] visited e = absurd (ground (arith, e))
any_from-Some P go right (x ∷ xs) visited e = elim (Bool-cases (go x visited).0) [
  | inl hit ↦ ([], x, xs, refl, right x visited hit)
  | inr miss ↦
      let (before, y, after, split, p) =
        any_from-Some P go right xs (go x visited).1 (rw (miss, any_from) at e) in
      (x ∷ before, y, after, ap (◌∷◌ x) split, p)
]

module _ (types : Store) (supers : ℕ → List (Option ℕ)) (goal : Option ℕ) where
  conforms_dfs-Reaches :
      (levels : ℕ) (s : Option ℕ) (visited : List ℕ)
      → (conforms_dfs types supers goal levels s visited).0 ≡ true
      → Reaches types supers goal s
  unfolding conforms_dfs conforms_node
  conforms_dfs-Reaches zero none visited e = absurd (ground (arith, e))
  conforms_dfs-Reaches (suc levels) none visited e = absurd (ground (arith, e))
  conforms_dfs-Reaches zero (some s) visited e = here e
  conforms_dfs-Reaches (suc levels) (some s) visited e =
      elim (Bool-cases (ty_equal_deep types (some s) goal)) [
        | inl eq ↦ here eq
        | inr apart ↦ elim (Bool-cases (visited_seen visited s)) [
          | inl seen ↦ absurd (ground (arith, rw (apart, conforms_dfs, conforms_node, seen) at e))
          | inr fresh ↦ elim (Bool-cases (leb recursion_limit (length visited))) [
            | inl full ↦
                absurd (ground (arith, rw (apart, conforms_dfs, conforms_node, fresh, full) at e))
            | inr room ↦
                let (before, t, after, split, reach) =
                  any_from-Some (Reaches types supers goal) (conforms_dfs types supers goal levels)
                    (conforms_dfs-Reaches levels) (supers s) (s ∷ visited)
                    (rw (apart, conforms_dfs, conforms_node, fresh, room) at e) in
                up before after split reach
          ]
        ]
      ]

-- Where `kavak_ty_conforms` answers yes, the type reaches the goal: over the direct supertypes that the
-- language gives there is a path to a type that is deeply equal to it.
pub ty_conforms-Reaches :
    (types : Store) (mem : ℕ → Bool) (supertypes : Hook) (s goal : Option ℕ)
    → ty_conforms types mem (some supertypes) s goal ≡ true
    → Reaches types (fetch_supers mem supertypes) goal s
unfolding ty_conforms
ty_conforms-Reaches types mem supertypes none goal e = absurd (ground (arith, e))
ty_conforms-Reaches types mem supertypes (some s) none e = absurd (ground (arith, e))
ty_conforms-Reaches types mem supertypes (some s) (some g) e =
    let walk =
      (conforms_dfs types (fetch_supers mem supertypes) (some g) recursion_limit (some s) []).0 in
    elim (Bool-cases (ty_equal_deep types (some s) (some g))) [
      | inl eq ↦ here eq
      | inr apart ↦
          conforms_dfs-Reaches types (fetch_supers mem supertypes) (some g) recursion_limit (some s)
            [] (sym (ap (λ b. if b then true else walk) apart) ∙ e)
    ]
