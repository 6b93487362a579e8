-- ===== src/Types/Exhaustive.antt =====
-- Exhaustiveness of src/type.c: what its answer says of the variants.
use kavak.Base.{
  ℕ, ◌≤◌, ◌<◌, ◌≡◌, ◌⊎◌, ◌≢◌, inl, inr, refl, ap, Bool, true, false, ◌||◌, List, [], ◌∷◌, ◌++◌,
  Option, none, some, ltb, ◌==◌, take, All, arith, Bool-cases,
}
use kavak.Types.{Store}
use kavak.Types.Supers.{Hook, ty_conforms, covered_by, all_covered, ty_exhaustive, variants_cap}
use kavak.Types.Conforms.{Some}

-- A variant that conforms to one of the covered types, and one that conforms to none.
abbrev pub Covered : (Option ℕ → Option ℕ → Bool) → List (Option ℕ) → Option ℕ → Type 0
Covered conforms covered v = Some (λ c. (c ≢ none) × (conforms v c ≡ true)) covered

abbrev pub Missed : (Option ℕ → Option ℕ → Bool) → List (Option ℕ) → Option ℕ → Type 0
Missed conforms covered v = All (λ c. (c ≡ none) ⊎ (conforms v c ≡ false)) covered

-- What an answer of `kavak_ty_exhaustive` says of the variants: all are covered, or the first that is
-- not is the missing one.
abbrev pub Verdict :
    (Option ℕ → Option ℕ → Bool) → List (Option ℕ) → List (Option ℕ) → Bool × Option ℕ → Type 0
Verdict conforms variants covered (true, missing) =
    (missing ≡ none) × All (Covered conforms covered) variants
Verdict conforms variants covered (false, missing) =
    (before : List (Option ℕ)) × (after : List (Option ℕ)) × (variants ≡ before ++ missing ∷ after)
    × All (Covered conforms covered) before
    × Missed conforms covered missing

module _ (conforms : Option ℕ → Option ℕ → Bool) where
  covered_by-Covered :
      (v : Option ℕ) (covered : List (Option ℕ))
      → covered_by conforms v covered ≡ true
      → Covered conforms covered v
  unfolding covered_by
  covered_by-Covered v [] e = absurd (ground (arith, e))
  covered_by-Covered v (none ∷ covered) e =
      let (before, c, after, split, p) = covered_by-Covered v covered e in
      (none ∷ before, c, after, ap (◌∷◌ none) split, p)
  covered_by-Covered v (some c ∷ covered) e = elim (Bool-cases (conforms v (some c))) [
    | inl hit ↦ ([], some c, covered, refl, ((λ null. absurd (ground (arith, null))), hit))
    | inr miss ↦
        let (before, d, after, split, p) =
          covered_by-Covered v covered (rw (miss, covered_by) at e) in
        (some c ∷ before, d, after, ap (◌∷◌ (some c)) split, p)
  ]

  covered_by-Missed :
      (v : Option ℕ) (covered : List (Option ℕ))
      → covered_by conforms v covered ≡ false
      → Missed conforms covered v
  unfolding covered_by
  covered_by-Missed v [] e = tt
  covered_by-Missed v (none ∷ covered) e = (inl refl, covered_by-Missed v covered e)
  covered_by-Missed v (some c ∷ covered) e = elim (Bool-cases (conforms v (some c))) [
    | inl hit ↦ absurd (ground (arith, e, hit))
    | inr miss ↦ (inr miss, covered_by-Missed v covered (rw (miss, covered_by) at e))
  ]

  Verdict-later :
      (v : Option ℕ) (variants covered : List (Option ℕ)) (r : Bool × Option ℕ)
      → Covered conforms covered v
      → Verdict conforms variants covered r
      → Verdict conforms (v ∷ variants) covered r
  Verdict-later v variants covered (true, missing) c (none_, all) = (none_, (c, all))
  Verdict-later v variants covered (false, missing) c (before, after, split, all, missed) =
      (v ∷ before, after, ap (◌∷◌ v) split, (c, all), missed)

  all_covered-Verdict :
      (variants covered : List (Option ℕ))
      → Verdict conforms variants covered (all_covered conforms variants covered)
  unfolding all_covered
  all_covered-Verdict [] covered = (refl, tt)
  all_covered-Verdict (v ∷ variants) covered = elim (Bool-cases (covered_by conforms v covered)) [
    | inl hit ↦
        rw (hit, all_covered)
          (Verdict-later v variants covered (all_covered conforms variants covered)
            (covered_by-Covered v covered hit) (all_covered-Verdict variants covered))
    | inr miss ↦ rw (miss, all_covered) ([], variants, refl, tt, covered_by-Missed v covered miss)
  ]

-- For a sealed type of 1 to 64 variants, `kavak_ty_exhaustive` answers yes only where every variant
-- conforms to a covered type, and otherwise sets `missing` to the first that conforms to none.
pub ty_exhaustive-Verdict :
    (types : Store) (mem : ℕ → Bool) (supertypes : Option Hook) (variants : Hook) (sealed : ℕ)
    (covered : List (Option ℕ))
    → 0 < (variants sealed variants_cap).0
    → (variants sealed variants_cap).0 ≤ variants_cap
    → let r = variants sealed variants_cap in
      Verdict
        (ty_conforms types mem supertypes)
        (take r.0 r.1)
        covered
        (ty_exhaustive types mem supertypes (some variants) (some sealed) covered)
unfolding ty_exhaustive
ty_exhaustive-Verdict types mem supertypes variants sealed covered some_ few =
    let r = variants sealed variants_cap in
    let known : (r.0 == 0 || ltb variants_cap r.0) ≡ false = ground (arith, some_, few) in
    rw (known, ty_exhaustive)
      (all_covered-Verdict (ty_conforms types mem supertypes) (take r.0 r.1) covered)
