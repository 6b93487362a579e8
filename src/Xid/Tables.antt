-- ===== src/Xid/Tables.antt =====
-- The two tables as they stand: sorted, so that the search is right on them, and one within the
-- other.
use kavak.Base.{
  ℕ, suc, ◌≤◌, ◌≡◌, ◌↔◌, refl, Bool, true, false, ◌&&◌, List, [], ◌∷◌, arith, leb, ltb, Bool-cases,
  inl, inr, ◌⊎◌, zero,
}
use kavak.Utf8.{ascii_is_ident_cont}
use kavak.Xid.{xid_is_start, xid_is_continue, unicode_is_ident_start, unicode_is_ident_cont}
use kavak.Xid.Start.{xid_start_ranges}
use kavak.Xid.Continue.{xid_continue_ranges}
use kavak.Xid.Search.{IsSorted, Covers, in_ranges-Covers}

is_sorted : ℕ → List (ℕ × ℕ) → Bool
is_sorted b [] = true
is_sorted b ((lo, hi) ∷ r) = leb b lo && leb lo hi && is_sorted (suc hi) r

is_sorted-IsSorted : (b : ℕ) (r : List (ℕ × ℕ)) → is_sorted b r ≡ true → IsSorted b r
unfolding is_sorted
is_sorted-IsSorted b [] e = tt
is_sorted-IsSorted b ((lo, hi) ∷ r) e = ground (arith, is_sorted-IsSorted (suc hi) r)

start-IsSorted : IsSorted 0 xid_start_ranges
unfolding is_sorted xid_start_ranges
start-IsSorted = is_sorted-IsSorted 0 xid_start_ranges refl

continue-IsSorted : IsSorted 0 xid_continue_ranges
unfolding is_sorted xid_continue_ranges
continue-IsSorted = is_sorted-IsSorted 0 xid_continue_ranges refl

-- Each range of the first table lies within a range of the second: one walk along both.
is_within : List (ℕ × ℕ) → List (ℕ × ℕ) → Bool
is_within [] cs = true
is_within ((lo, hi) ∷ rs) [] = false
is_within ((lo, hi) ∷ rs) ((clo, chi) ∷ cs) = elim (leb clo lo && leb hi chi) [
  | true ↦ is_within rs ((clo, chi) ∷ cs)
  | false ↦ is_within ((lo, hi) ∷ rs) cs
]

Covers-cons : (lo hi : ℕ) (r : List (ℕ × ℕ)) {cp : ℕ} → Covers r cp → Covers ((lo, hi) ∷ r) cp
Covers-cons lo hi r (i, h, a, b) = (suc i, omega arith, a, b)

Covers-uncons :
    (lo hi : ℕ) (r : List (ℕ × ℕ)) {cp : ℕ}
    → Covers ((lo, hi) ∷ r) cp
    → ((lo ≤ cp) × (cp ≤ hi)) ⊎ Covers r cp
Covers-uncons lo hi r (zero, h, a, b) = inl (a, b)
Covers-uncons lo hi r (suc i, h, a, b) = inr (i, omega arith, a, b)

is_within-Covers :
    (rs cs : List (ℕ × ℕ)) {cp : ℕ} → is_within rs cs ≡ true → Covers rs cp → Covers cs cp
unfolding is_within
is_within-Covers [] cs e (i, h, a, b) = absurd (omega arith)
is_within-Covers ((lo, hi) ∷ rs) [] e c = ground arith
is_within-Covers ((lo, hi) ∷ rs) ((clo, chi) ∷ cs) e c =
    elim (Bool-cases (leb clo lo && leb hi chi)) [
      | inl t ↦ elim (Covers-uncons lo hi rs c) [
        | inl here ↦ (0, omega arith, ground arith, ground arith)
        | inr there ↦ is_within-Covers rs ((clo, chi) ∷ cs) (rw (t, is_within) at e) there
      ]
      | inr f ↦
          Covers-cons clo chi cs (is_within-Covers ((lo, hi) ∷ rs) cs (rw (f, is_within) at e) c)
    ]

-- `kavak_xid_is_start` holds exactly of the code points that some range of its table holds.
pub xid_is_start-Covers : (cp : ℕ) → (xid_is_start cp ≡ true) ↔ Covers xid_start_ranges cp
unfolding xid_is_start
xid_is_start-Covers cp = in_ranges-Covers xid_start_ranges cp 0 start-IsSorted

-- `kavak_xid_is_continue` holds exactly of the code points that some range of its table holds.
pub xid_is_continue-Covers : (cp : ℕ) → (xid_is_continue cp ≡ true) ↔ Covers xid_continue_ranges cp
unfolding xid_is_continue
xid_is_continue-Covers cp = in_ranges-Covers xid_continue_ranges cp 0 continue-IsSorted

start-within-continue : is_within xid_start_ranges xid_continue_ranges ≡ true
unfolding is_within xid_start_ranges xid_continue_ranges
start-within-continue = refl

-- Whatever may start an identifier may also continue one, for the Unicode predicates.
pub unicode_start_continues :
    (cp : ℕ) → unicode_is_ident_start cp ≡ true → unicode_is_ident_cont cp ≡ true
unfolding unicode_is_ident_start unicode_is_ident_cont ascii_is_ident_cont
unicode_start_continues cp e = elim (Bool-cases (ltb cp 0x80)) [
  | inl low ↦ rw low (rw (rw low at e))
  | inr high ↦ rw high (
      (xid_is_continue-Covers cp).1 (
        is_within-Covers xid_start_ranges xid_continue_ranges start-within-continue
          ((xid_is_start-Covers cp).0 (rw high at e))))
]
