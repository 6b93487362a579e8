-- ===== src/Xid/Search.antt =====
-- The binary search finds a range exactly when the sorted table has one.
use kavak.Base.{
  ℕ, zero, suc, ◌+◌, ◌-◌, ◌/◌, ◌≤◌, ◌<◌, ◌≡◌, ◌↔◌, true, List, [], ◌∷◌, arith, length, inl, inr,
  ltb, lt→ltb, Bool-cases,
}
use native.Mathlib.Decide.{dec_lt}
use kavak.Xid.{range_at, in_ranges_loop, in_ranges}

-- From `b` on the ranges are non-empty, in order, and do not overlap.
abbrev pub IsSorted : ℕ → List (ℕ × ℕ) → Type 0
IsSorted b [] = Unit
IsSorted b ((lo, hi) ∷ r) = (b ≤ lo) × (lo ≤ hi) × IsSorted (suc hi) r

-- Some range of the table holds `cp`.
abbrev pub Covers : List (ℕ × ℕ) → ℕ → Type 0
Covers r cp = (i : ℕ) × (i < length r) × ((range_at r i).0 ≤ cp) × (cp ≤ (range_at r i).1)

sorted-from :
    (b : ℕ) (r : List (ℕ × ℕ)) (j : ℕ) → IsSorted b r → j < length r → b ≤ (range_at r j).0
sorted-from b [] j s h = absurd (omega arith)
sorted-from b ((lo, hi) ∷ r) zero s h = s.0
sorted-from b ((lo, hi) ∷ r) (suc j) s h = omega (arith, sorted-from (suc hi) r j s.2)

sorted-within :
    (b : ℕ) (r : List (ℕ × ℕ)) (j : ℕ)
    → IsSorted b r
    → j < length r
    → (range_at r j).0 ≤ (range_at r j).1
sorted-within b [] j s h = absurd (omega arith)
sorted-within b ((lo, hi) ∷ r) zero s h = s.1
sorted-within b ((lo, hi) ∷ r) (suc j) s h = sorted-within (suc hi) r j s.2 (omega arith)

-- With the ends of one range: neither end falls along the table.
sorted-le :
    (b : ℕ) (r : List (ℕ × ℕ)) (i j : ℕ)
    → IsSorted b r
    → i ≤ j
    → j < length r
    → ((range_at r i).0 ≤ (range_at r j).0) × ((range_at r i).1 ≤ (range_at r j).1)
sorted-le b [] i j s h k = absurd (omega arith)
sorted-le b ((lo, hi) ∷ r) zero zero s h k = omega arith
sorted-le b ((lo, hi) ∷ r) (suc i) zero s h k = absurd (omega arith)
sorted-le b ((lo, hi) ∷ r) zero (suc j) s h k =
    omega (arith, sorted-from (suc hi) r j s.2, sorted-within (suc hi) r j s.2)
sorted-le b ((lo, hi) ∷ r) (suc i) (suc j) s h k =
    sorted-le (suc hi) r i j s.2 (omega arith) (omega arith)

loop_sound :
    (fuel : ℕ) (r : List (ℕ × ℕ)) (cp lo hi : ℕ)
    → hi ≤ length r
    → in_ranges_loop fuel r cp lo hi ≡ true
    → Covers r cp
unfolding in_ranges_loop
loop_sound zero r cp lo hi h e = ground arith
loop_sound (suc fuel) r cp lo hi h e =
    let mid = lo + (hi - lo) / 2 in
    ground (arith, loop_sound fuel r cp lo mid, loop_sound fuel r cp (mid + 1) hi, here mid)
  where
    here : (m : ℕ) → m < length r → (range_at r m).0 ≤ cp → cp ≤ (range_at r m).1 → Covers r cp
    here m h a c = (m, h, a, c)

loop_complete :
    (fuel : ℕ) (r : List (ℕ × ℕ)) (cp lo hi i b : ℕ)
    → IsSorted b r
    → hi - lo < fuel
    → hi ≤ length r
    → lo ≤ i
    → i < hi
    → (range_at r i).0 ≤ cp
    → cp ≤ (range_at r i).1
    → in_ranges_loop fuel r cp lo hi ≡ true
unfolding in_ranges_loop
loop_complete zero r cp lo hi i b s f h li ih a c = absurd (omega arith)
loop_complete (suc fuel) r cp lo hi i b s f h li ih a c =
    let mid = lo + (hi - lo) / 2 in
    rw (lt→ltb lo hi (omega arith), in_ranges_loop)
      (elim (Bool-cases (ltb cp (range_at r mid).0)) [
        | inl left ↦
            rw (left, in_ranges_loop)
              (loop_complete fuel r cp lo mid i b s (omega arith) (omega arith) li
                (elim (dec_lt i mid) [
                  | yes p ↦ p
                  | no p ↦ absurd (ground (arith, sorted-le b r mid i s))
                ])
                a c)
        | inr here ↦
            rw (here, in_ranges_loop)
              (elim (Bool-cases (ltb (range_at r mid).1 cp)) [
                | inl right ↦
                    rw (right, in_ranges_loop)
                      (loop_complete fuel r cp (mid + 1) hi i b s (omega arith) h
                        (elim (dec_lt mid i) [
                          | yes p ↦ omega arith
                          | no p ↦ absurd (ground (arith, sorted-le b r i mid s))
                        ])
                        ih a c)
                | inr found ↦ rw (found, in_ranges_loop)
              ])
      ])

-- On a sorted table `in_ranges` answers true exactly for the values that some range holds; the
-- rounds given to the loop are enough.
pub in_ranges-Covers :
    (r : List (ℕ × ℕ)) (cp b : ℕ) → IsSorted b r → (in_ranges r cp ≡ true) ↔ Covers r cp
unfolding in_ranges
in_ranges-Covers r cp b s = (
  loop_sound (length r + 1) r cp 0 (length r) (omega arith),
  λ c.
      loop_complete (length r + 1) r cp 0 (length r) c.0 b s (omega arith) (omega arith)
        (omega arith) c.1 c.2 c.3,
)
