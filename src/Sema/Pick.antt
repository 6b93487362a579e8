-- ===== src/Sema/Pick.antt =====
-- The choice of an overload.
use kavak.Base.{
  ℕ, ◌≡◌, refl, ap, ◌∙◌, inl, inr, Bool, true, false, ◌&&◌, ◌||◌, List, [], ◌∷◌, ◌++◌, Option, none,
  some, if◌then◌else◌, ℤ, pos, int_lt, nonneg, add32, Bool-cases, All-map, All-append, append_assoc,
  append_nil, int_lt_trans, int_le_lt_trans, int_lt-nonneg, int_lt_asym, All,
}
use kavak.Sema.{Symbol, Sema, name_len_or_strlen}
use kavak.Sema.Lookup.{in_reach, matches}
use kavak.Sema.Overload.{run_visitor, lookup_all, lookup_all-run_visitor}

-- `PickOverloadCtx`: the best candidate and its score
pub record Pick : Type 0 where
  pub best : Option Symbol
  pub best_score : ℤ

-- whether `best` is NULL
abbrev is_none : Option Symbol → Bool
is_none none = true
is_none (some s) = false

-- `pick_overload_visit`
unfoldable pub pick_overload_visit : (Symbol → ℤ) → Symbol → Pick → Bool × Pick
pick_overload_visit score symbol ctx = (
  false,
  if nonneg (score symbol) && (is_none ctx.best || int_lt ctx.best_score (score symbol))
      then record { best = some symbol; best_score = score symbol }
      else ctx,
)

-- `kavak_sema_pick_overload`, for a scorer that is not NULL
unfoldable pub pick_overload : Sema → Option (List ℕ) → ℕ → (Symbol → ℤ) → Option Symbol
pick_overload sema none name_len score = none
pick_overload sema (some name) name_len score =
    (lookup_all sema (some name) name_len (pick_overload_visit score)
      (record { best = none; best_score = pos 0 })).1.best

-- The best of the candidates: none, where every score is negative; or one that is not rejected, above
-- every candidate before it and not below any after it.
abbrev pub IsBest : (Symbol → ℤ) → List Symbol → Option Symbol → Type 0
IsBest score candidates none = All (λ s. nonneg (score s) ≡ false) candidates
IsBest score candidates (some best) =
    (newer : List Symbol) × (older : List Symbol) × (candidates ≡ newer ++ best ∷ older)
    × (nonneg (score best) ≡ true)
    × All (λ s. int_lt (score s) (score best) ≡ true) newer
    × All (λ s. int_lt (score best) (score s) ≡ false) older

-- What the walk keeps: the best of the candidates it has seen, with its score.
abbrev ScoreIs : (Symbol → ℤ) → Option Symbol → ℤ → Type 0
ScoreIs score none x = Unit
ScoreIs score (some s) x = x ≡ score s

abbrev Kept : (Symbol → ℤ) → List Symbol → Pick → Type 0
Kept score seen ctx = IsBest score seen ctx.best × ScoreIs score ctx.best ctx.best_score

-- `s` is above the best so far
abbrev Above : (Symbol → ℤ) → Option Symbol → Symbol → Type 0
Above score none s = Unit
Above score (some b) s = int_lt (score b) (score s) ≡ true

-- `s` does not count against the best so far
abbrev NotAbove : (Symbol → ℤ) → Option Symbol → Symbol → Type 0
NotAbove score none s = nonneg (score s) ≡ false
NotAbove score (some b) s = int_lt (score b) (score s) ≡ false

module _ (score : Symbol → ℤ) where
  -- a candidate above the best so far takes its place
  take_over :
      (seen : List Symbol) (best : Option Symbol) (s : Symbol)
      → IsBest score seen best
      → nonneg (score s) ≡ true
      → Above score best s
      → IsBest score (seen ++ s ∷ []) (some s)
  take_over seen none s h accepted above = (
    seen,
    [],
    refl,
    accepted,
    All-map (λ x. int_lt (score x) (score s) ≡ true)
        (λ x neg. int_lt-nonneg (score x) (score s) neg accepted) seen h,
    tt,
  )
  take_over seen (some b) s (newer, older, split, ok, below, not_above) accepted above =
      let Below : Symbol → Type 0 = λ x. int_lt (score x) (score s) ≡ true in
      (
        seen,
        [],
        refl,
        accepted,
        rw split (
            All-append Below newer (b ∷ older)
              (All-map Below (λ x lt. int_lt_trans (score x) (score b) (score s) lt above) newer
                below)
              (
                above,
                All-map Below (λ x le. int_le_lt_trans (score x) (score b) (score s) le above) older
                    not_above,
              )),
        tt,
      )

  -- a candidate that is rejected or not above the best changes nothing
  stay :
      (seen : List Symbol) (best : Option Symbol) (s : Symbol)
      → IsBest score seen best
      → NotAbove score best s
      → IsBest score (seen ++ s ∷ []) best
  stay seen none s h rejected =
      All-append (λ x. nonneg (score x) ≡ false) seen (s ∷ []) h (rejected, tt)
  stay seen (some b) s (newer, older, split, ok, below, behind) not_above = (
    newer,
    older ++ s ∷ [],
    ap (λ l. l ++ s ∷ []) split ∙ append_assoc newer (b ∷ older) (s ∷ []),
    ok,
    below,
    All-append (λ x. int_lt (score b) (score x) ≡ false) older (s ∷ []) behind (not_above, tt),
  )

  visit-Kept :
      (seen : List Symbol) (best : Option Symbol) (best_score : ℤ) (s : Symbol)
      → Kept score seen (record { best = best; best_score = best_score })
      → Kept score
          (seen ++ s ∷ [])
          (pick_overload_visit score s (record { best = best; best_score = best_score })).1
  unfolding pick_overload_visit
  visit-Kept seen none best_score s (h, same) = elim (Bool-cases (nonneg (score s))) [
    | inl ok ↦ rw ok (take_over seen none s h ok tt, refl)
    | inr bad ↦ rw bad (stay seen none s h bad, tt)
  ]
  visit-Kept seen (some b) best_score s (h, same) = elim (Bool-cases (nonneg (score s))) [
    | inl ok ↦ elim (Bool-cases (int_lt best_score (score s))) [
      | inl above ↦ rw (ok, above) (take_over seen (some b) s h ok (rw same at above), refl)
      | inr under ↦ rw (ok, under) (stay seen (some b) s h (rw same at under), same)
    ]
    | inr bad ↦ rw bad (
      stay seen (some b) s h
          (int_lt_asym (score s) (score b) (int_lt-nonneg (score s) (score b) bad h.3)),
      same,
    )
  ]

  run-Kept :
      (name : List ℕ) (len : ℕ) (seen rest : List Symbol) (visited : ℕ) (ctx : Pick)
      → Kept score seen ctx
      → Kept score
          (seen ++ rest)
          (run_visitor
            (pick_overload_visit score)
            name
            len
            rest
            (record { visited = visited; user = ctx; stopped = false })).user
  unfolding run_visitor pick_overload_visit
  run-Kept name len seen [] visited ctx h = rw (append_nil seen) h
  run-Kept name len seen (s ∷ rest) visited ctx h = rw (← append_assoc seen (s ∷ []) rest) (
      run-Kept name len (seen ++ s ∷ []) rest (add32 visited 1) (pick_overload_visit score s ctx).1
        (visit-Kept seen ctx.best ctx.best_score s h))

-- `kavak_sema_pick_overload` returns the symbol with the name whose score is not negative and above
-- that of every newer symbol with the name in lookup order and not below that of any older one, and
-- NULL where the scores of all are negative.
pub pick_overload-IsBest :
    (sema : Sema) (name : List ℕ) (name_len : ℕ) (score : Symbol → ℤ)
    → IsBest score
        (matches (in_reach sema.scopes) name (name_len_or_strlen (some name) name_len))
        (pick_overload sema (some name) name_len score)
unfolding pick_overload
pick_overload-IsBest sema name name_len score =
    let len = name_len_or_strlen (some name) name_len in
    let start : Pick = record { best = none; best_score = pos 0 } in
    rw (pick_overload, lookup_all-run_visitor sema name name_len (pick_overload_visit score) start)
      (run-Kept score name len [] (matches (in_reach sema.scopes) name len) 0 start (tt, tt)).0
