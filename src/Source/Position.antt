-- ===== src/Source/Position.antt =====
-- Line and column of a position.
use kavak.Base.{
  ℕ, zero, suc, ◌+◌, ◌-◌, ◌/◌, ◌%◌, ◌≤◌, ◌<◌, ◌≡◌, ◌≢◌, ◌⊎◌, inl, inr, List, [], ◌∷◌, ◌++◌, Option,
  none, some, Bool, true, arith, length, length-append, ◌*◌, get_or, min, ltb, leb, ◌==◌, false,
  Bool-cases, uint32_max, if◌then◌else◌, refl, ap, sym, ◌∙◌,
}
use mathlib.Core.Path.{subst}
use native.Mathlib.Decide.{dec_lt}
use kavak.Source.{
  normalized_newline_flags, Source, len, newline_at, pos_loop, pos_in_table, source_pos, table_loop,
  ensure_line_offsets, ensure_cached, with_table, or_same,
}
use kavak.Source.Lines.{
  line_starts, starts, IsTable, IsCached, table_loop-line_starts, table_loop-total,
}

-- `r` is the last place of a table of `n` entries that is not above `q`, or that is followed by one
-- above it.
record IsLast (offsets : List ℕ) (n q r : ℕ) : Type 0 where
  inside : r < n
  reached : get_or offsets r 0 ≤ q
  last : (suc r ≡ n) ⊎ (q < get_or offsets (suc r) 0)

pos_loop-IsLast :
    (fuel : ℕ) (offsets : List ℕ) (n q lo hi : ℕ)
    → lo < hi
    → hi ≤ lo + suc fuel
    → hi ≤ n
    → get_or offsets lo 0 ≤ q
    → (hi ≡ n) ⊎ (q < get_or offsets hi 0)
    → IsLast offsets n q (pos_loop fuel offsets q lo hi)
unfolding pos_loop
pos_loop-IsLast zero offsets n q lo hi a b c d e =
    let s : hi ≡ suc lo = omega arith in
    record { inside = omega arith; reached = d; last = ground arith }
pos_loop-IsLast (suc fuel) offsets n q lo hi a b c d e =
    let mid = lo + (hi - lo) / 2 in
    elim (Bool-cases (ltb (lo + 1) hi)) [
      | inr small ↦
          rw (small, pos_loop)
            (let s : hi ≡ suc lo = ground arith in
              record { inside = omega arith; reached = d; last = ground arith })
      | inl wide ↦
          rw (wide, pos_loop)
            (elim (Bool-cases (leb (get_or offsets mid 0) q)) [
              | inl below ↦
                  rw (below, pos_loop)
                    (pos_loop-IsLast fuel offsets n q mid hi (ground arith) (ground arith) c
                      (ground arith) e)
              | inr above ↦
                  rw (above, pos_loop)
                    (pos_loop-IsLast fuel offsets n q lo mid (ground arith) (ground arith)
                      (ground arith) d (inr (ground arith)))
            ])
    ]

-- Each entry is above the one before it, and the first is above `b`.
abbrev Ascends : ℕ → List ℕ → Type 0
Ascends b [] = Unit
Ascends b (x ∷ xs) = (b < x) × Ascends x xs

line_starts-Ascends :
    (flags skip i b : ℕ) (bs : List ℕ) → b ≤ i + skip → Ascends b (line_starts flags skip i bs)
line_starts-Ascends flags skip i b [] h = tt
line_starts-Ascends flags (suc k) i b (c ∷ bs) h =
    line_starts-Ascends flags k (i + 1) b bs (omega arith)
line_starts-Ascends flags zero i b (c ∷ bs) h =
    elim (newline_at flags (c ∷ bs))
      as (λ n. Ascends b (elim n [
        | zero ↦ line_starts flags 0 (i + 1) bs
        | suc k ↦ (i + suc k) ∷ line_starts flags k (i + 1) bs
      ])) [
        | zero ↦ line_starts-Ascends flags 0 (i + 1) b bs (omega arith)
        | suc k ↦ (omega arith, line_starts-Ascends flags k (i + 1) (i + suc k) bs (omega arith))
      ]

-- How many entries are at most `q`.
abbrev pub count_le : ℕ → List ℕ → ℕ
count_le q [] = 0
count_le q (x ∷ xs) = (if leb x q then 1 else 0) + count_le q xs

count_le-above : (q b : ℕ) (xs : List ℕ) → q ≤ b → Ascends b xs → count_le q xs ≡ 0
count_le-above q b [] h a = refl
count_le-above q b (x ∷ xs) h a = ground (arith, count_le-above q x xs (omega arith) a.1)

get_or-Ascends :
    (x r : ℕ) (xs : List ℕ) → Ascends x xs → r < suc (length xs) → x ≤ get_or (x ∷ xs) r 0
get_or-Ascends x zero xs a h = omega arith
get_or-Ascends x (suc r) [] a h = absurd (omega arith)
get_or-Ascends x (suc r) (y ∷ xs) a h = omega (arith, get_or-Ascends y r xs a.1 (omega arith))

-- In an ascending table the last place that is not above `q` is the number of such places less one.
count_le-IsLast :
    (q x r : ℕ) (xs : List ℕ)
    → Ascends x xs
    → r < suc (length xs)
    → get_or (x ∷ xs) r 0 ≤ q
    → (suc r ≡ suc (length xs)) ⊎ (q < get_or (x ∷ xs) (suc r) 0)
    → count_le q (x ∷ xs) ≡ suc r
count_le-IsLast q x zero [] a h g l = ground arith
count_le-IsLast q x zero (y ∷ xs) a h g l = ground (arith, count_le-above q y xs (omega arith) a.1)
count_le-IsLast q x (suc r) [] a h g l = absurd (omega arith)
count_le-IsLast q x (suc r) (y ∷ xs) a h g l =
    ground (arith, count_le-IsLast q y r xs a.1, get_or-Ascends y r xs a.1)

get_or-append : (xs ys : List ℕ) (i d : ℕ) → i < length xs → get_or (xs ++ ys) i d ≡ get_or xs i d
get_or-append [] ys i d h = absurd (omega arith)
get_or-append (x ∷ xs) ys zero d h = refl
get_or-append (x ∷ xs) ys (suc i) d h = get_or-append xs ys i d (omega arith)

-- The line is the number of line starts at or before the position, and the column is the distance
-- from the last of them, counted from 1. A position behind the end counts as the end.
pub record IsPosition (s : Source) (byte_pos : ℕ) (p : ℕ × ℕ) : Type 0 where
  pub line : p.0 ≡ count_le (min byte_pos (len s)) (starts s)
  pub column : get_or (starts s) (p.0 - 1) 0 + p.1 ≡ min byte_pos (len s) + 1

line_starts-length :
    (flags skip i : ℕ) (bs : List ℕ) → length (line_starts flags skip i bs) ≤ length bs
line_starts-length flags skip i [] = omega arith
line_starts-length flags (suc k) i (c ∷ bs) = omega (arith, line_starts-length flags k (i + 1) bs)
line_starts-length flags zero i (c ∷ bs) =
    elim (newline_at flags (c ∷ bs))
      as (λ n.
        length (elim n [
          | zero ↦ line_starts flags 0 (i + 1) bs
          | suc k ↦ (i + suc k) ∷ line_starts flags k (i + 1) bs
        ])
        ≤ suc (length bs)) [
          | zero ↦ omega (arith, line_starts-length flags 0 (i + 1) bs)
          | suc k ↦ omega (arith, line_starts-length flags k (i + 1) bs)
        ]

-- The last line start that the search finds in the table, as a place among the line starts.
found-IsLast :
    (s : Source) (t : List ℕ) (n q r : ℕ)
    → t ≡ starts s ++ len s ∷ []
    → n ≡ length (starts s)
    → IsLast t n q r
    → IsLast (starts s) (length (starts s)) q r
found-IsLast s t n q r et en l =
    let at_ : (i : ℕ) → i < length (starts s) → get_or t i 0 ≡ get_or (starts s) i 0 =
      λ i h. ap (λ u. get_or u i 0) et ∙ get_or-append (starts s) (len s ∷ []) i 0 h in
    let in_ : r < length (starts s) = omega (arith, l.inside) in
    record {
      inside = in_;
      reached = omega (arith, at_ r in_, l.reached);
      last = elim (dec_lt (suc r) (length (starts s))) [
        | yes p ↦ omega (arith, at_ (suc r) p, l.last)
        | no p ↦ inl (omega arith)
      ];
    }

answer-IsPosition :
    (s : Source) (byte_pos q r first : ℕ)
    → len s < uint32_max
    → IsLast (starts s) (length (starts s)) q r
    → q ≡ min byte_pos (len s)
    → first ≡ get_or (starts s) r 0
    → IsPosition s byte_pos ((r + 1) % 4294967296, ((q - first) % 4294967296 + 1) % 4294967296)
answer-IsPosition s byte_pos q r first h l eq ef =
    let flags = normalized_newline_flags s.newline_flags in
    let rest = line_starts flags 0 0 s.bytes in
    let counted =
      count_le-IsLast q 0 r rest (line_starts-Ascends flags 0 0 0 s.bytes (omega arith)) l.inside
        l.reached l.last in
    let short = line_starts-length flags 0 0 s.bytes in
    let place : (r + 1) % 4294967296 ≡ suc r = omega (arith, l.inside) in
    let before : suc r - 1 ≡ r = omega arith in
    record {
      line = place ∙ sym counted ∙ ap (λ k. count_le k (starts s)) eq;
      column = rw (← eq, place, before, ← ef) (omega (arith, l.reached));
    }

pos_in_table-IsPosition :
    (s : Source) (byte_pos : ℕ) (t : List ℕ)
    → len s < uint32_max
    → IsCached s (some t)
    → IsPosition s byte_pos (pos_in_table s byte_pos (some t))
unfolding pos_in_table
pos_in_table-IsPosition s byte_pos t h (et, en) =
    let q = if ltb (len s) byte_pos then len s else byte_pos in
    let n = s.line_count in
    let r = pos_loop n t q 0 n in
    let some_line : (n == 0) ≡ false = ground arith in
    let search : IsLast t n q r =
      pos_loop-IsLast n t n q 0 n (omega arith) (omega arith) (omega arith) (rw et (omega arith))
        (inl refl) in
    let l = found-IsLast s t n q r et en search in
    rw some_line (
      answer-IsPosition s byte_pos q r (get_or t r 0) h l (ground arith)
        (ap (λ u. get_or u r 0) et ∙ get_or-append (starts s) (len s ∷ []) r 0 l.inside))

with_table-IsPosition :
    (s : Source) (byte_pos : ℕ) (o : Option (List ℕ))
    → len s < uint32_max
    → IsTable (starts s ++ len s ∷ []) o
    → o ≢ none
    → let s' = or_same s (with_table s o) in
      IsPosition s byte_pos (pos_in_table s' byte_pos s'.line_offsets)
unfolding with_table or_same
with_table-IsPosition s byte_pos none h e ne = absurd (ne refl)
with_table-IsPosition s byte_pos (some t) h e ne =
    let s' = record s { line_offsets = some t; line_count = length t - 1 } in
    let p =
      pos_in_table-IsPosition s' byte_pos t h
        (e, omega (arith, ap length e, length-append (starts s) (len s ∷ []))) in
    record { line = p.line; column = p.column }

ensure_cached-IsPosition :
    (mem : ℕ → Bool) (s : Source) (byte_pos : ℕ) (o : Option (List ℕ))
    → ((n : ℕ) → mem n ≡ true)
    → len s < uint32_max - 2
    → IsCached s o
    → s.line_offsets ≡ o
    → let s' = or_same s (ensure_cached mem s o) in
      IsPosition s byte_pos (pos_in_table s' byte_pos s'.line_offsets)
unfolding ensure_cached or_same
ensure_cached-IsPosition mem s byte_pos (some t) m h c e =
    subst (λ u. IsPosition s byte_pos (pos_in_table s byte_pos u)) (sym e)
      (pos_in_table-IsPosition s byte_pos t (omega arith) c)
ensure_cached-IsPosition mem s byte_pos none m h c e =
    let room = len s / 64 + 8 in
    rw (m (room * 4)) (
      with_table-IsPosition s byte_pos (table_loop mem s (len s + 1) 0 room (0 ∷ [])) (omega arith)
        (table_loop-line_starts mem s (omega arith) (len s + 1) 0 room (0 ∷ []) (omega arith))
        (table_loop-total mem s (len s + 1) 0 room (0 ∷ []) m h (omega arith) (omega arith)
          (omega arith)))

-- Where allocation succeeds and the source is shorter than the limits on lines and columns,
-- `kavak_source_pos` returns the number of line starts at or before the position, and the distance
-- from the last of them, counted from 1, with the table built or cached. A position behind the end
-- counts as the end.
pub source_pos-IsPosition :
    (mem : ℕ → Bool) (s : Source) (byte_pos : ℕ)
    → ((n : ℕ) → mem n ≡ true)
    → len s < uint32_max - 2
    → IsCached s s.line_offsets
    → IsPosition s byte_pos (source_pos mem s byte_pos).0
unfolding source_pos ensure_line_offsets
source_pos-IsPosition mem s byte_pos m h c =
    ensure_cached-IsPosition mem s byte_pos s.line_offsets m h c refl
