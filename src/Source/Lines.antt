-- ===== src/Source/Lines.antt =====
-- The line table against a reference: the offsets where lines start.
use kavak.Base.{
  ℕ, zero, suc, ◌+◌, ◌-◌, ◌*◌, ◌/◌, ◌≤◌, ◌<◌, ◌≡◌, ◌≢◌, ◌⊎◌, List, [], ◌∷◌, ◌++◌, Option, none,
  some, arith, length, inl, inr, Bool-cases, Option-cases, ltb→lt, ◌%◌, ltb, leb, drop, uint32_max,
  refl, true, Bool, length-append, if◌then◌else◌, ap, sym, ◌∙◌,
}
use mathlib.Core.List.{append_assoc}
use kavak.Source.{
  Source, len, newline_at, source_newline_len, normalized_newline_flags, table_room, table_loop,
  with_table, or_same, ensure_cached, ensured, ensure_line_offsets,
}
use kavak.Source.Newline.{newline_at-le, newline_len-le}

-- The starts of the lines behind offset `i`, for the bytes from there on: one byte at a time, past
-- the bytes of a newline sequence that are still to be skipped.
abbrev pub line_starts : ℕ → ℕ → ℕ → List ℕ → List ℕ
line_starts flags skip i [] = []
line_starts flags (suc k) i (c ∷ bs) = line_starts flags k (i + 1) bs
line_starts flags zero i (c ∷ bs) = elim (newline_at flags (c ∷ bs)) [
  | zero ↦ line_starts flags 0 (i + 1) bs
  | suc k ↦ (i + suc k) ∷ line_starts flags k (i + 1) bs
]

line_starts-skip :
    (flags k i : ℕ) (bs : List ℕ)
    → k ≤ length bs
    → line_starts flags k i bs ≡ line_starts flags 0 (i + k) (drop k bs)
line_starts-skip flags zero i bs h = ap (λ j. line_starts flags 0 j bs) (omega arith)
line_starts-skip flags (suc k) i [] h = absurd (omega arith)
line_starts-skip flags (suc k) i (c ∷ bs) h =
    line_starts-skip flags k (i + 1) bs (omega arith)
    ∙ ap (λ j. line_starts flags 0 j (drop k bs)) (omega arith)

drop-cons : (i : ℕ) (bs : List ℕ) {c : ℕ} {r : List ℕ} → drop i bs ≡ c ∷ r → drop (suc i) bs ≡ r
drop-cons zero [] e = ground arith
drop-cons zero (x ∷ bs) e = ground arith
drop-cons (suc i) [] e = ground arith
drop-cons (suc i) (x ∷ bs) e = drop-cons i bs e

drop-all : (i : ℕ) (bs : List ℕ) → length bs ≤ i → drop i bs ≡ []
drop-all zero [] h = refl
drop-all zero (x ∷ bs) h = absurd (omega arith)
drop-all (suc i) [] h = refl
drop-all (suc i) (x ∷ bs) h = drop-all i bs (omega arith)

pub ℕ-cases : (n : ℕ) → (n ≡ 0) ⊎ ((k : ℕ) × (n ≡ suc k))
ℕ-cases zero = inl refl
ℕ-cases (suc k) = inr (k, refl)

drop-nil : (i : ℕ) → drop {A = ℕ} i [] ≡ []
drop-nil zero = refl
drop-nil (suc i) = refl

drop-drop : (i k : ℕ) (bs : List ℕ) → drop k (drop i bs) ≡ drop (i + k) bs
drop-drop zero k bs = ap (λ j. drop j bs) (omega arith)
drop-drop (suc i) k [] = drop-nil k ∙ sym (drop-nil (suc i + k))
drop-drop (suc i) k (x ∷ bs) =
    drop-drop i k bs ∙ ap (λ j. drop j (x ∷ bs)) {x = suc (i + k)} (omega arith)

line_starts-no_newline :
    (flags i : ℕ) (bs : List ℕ)
    → newline_at flags bs ≡ 0
    → line_starts flags 0 i bs ≡ line_starts flags 0 (i + 1) (drop 1 bs)
line_starts-no_newline flags i [] e = refl
line_starts-no_newline flags i (c ∷ bs) e = rw (e, line_starts)

line_starts-newline :
    (flags i k : ℕ) (bs : List ℕ)
    → newline_at flags bs ≡ suc k
    → line_starts flags 0 i bs ≡ (i + suc k) ∷ line_starts flags 0 (i + suc k) (drop (suc k) bs)
line_starts-newline flags i k [] e = absurd (omega (arith, newline_at-le flags []))
line_starts-newline flags i k (c ∷ bs) e =
    rw (e, line_starts)
      (ap (◌∷◌ (i + suc k)) (
        line_starts-skip flags k (i + 1) bs (omega (arith, newline_at-le flags (c ∷ bs)))
        ∙ ap (λ j. line_starts flags 0 j (drop k bs)) (omega arith)))

-- The offsets where the lines of a source start: 0, and behind each newline sequence.
abbrev pub starts : Source → List ℕ
starts s = 0 ∷ line_starts (normalized_newline_flags s.newline_flags) 0 0 s.bytes

-- A source's cached table, where there is one, holds the line starts and the sentinel.
abbrev pub IsCached : Source → Option (List ℕ) → Type 0
IsCached s none = Unit
IsCached s (some t) = (t ≡ starts s ++ len s ∷ []) × (s.line_count ≡ length (starts s))

-- A table that was built is the expected one.
abbrev pub IsTable : List ℕ → Option (List ℕ) → Type 0
IsTable expected none = Unit
IsTable expected (some t) = t ≡ expected

module _ (mem : ℕ → Bool) (s : Source) (small : len s ≤ uint32_max) where
  abbrev flags : ℕ
  flags = normalized_newline_flags s.newline_flags

  newline_len-newline_at :
      (i : ℕ)
      → i < len s
      → source_newline_len s i s.newline_flags ≡ newline_at flags (drop i s.bytes)
  unfolding source_newline_len
  newline_len-newline_at i h = ground arith

  pub table_loop-line_starts :
      (fuel i room : ℕ) (table : List ℕ)
      → i ≤ len s
      → IsTable
          (table ++ (line_starts flags 0 i (drop i s.bytes) ++ len s ∷ []))
          (table_loop mem s fuel i room table)
  unfolding table_loop
  table_loop-line_starts zero i room table h = tt
  table_loop-line_starts (suc fuel) i room table h = elim (Bool-cases (ltb i (len s))) [
    | inr done ↦
        rw (done, table_loop)
          (rw (drop-all i s.bytes (ground arith))
            (ap (λ j. table ++ j ∷ []) {x = len s % 4294967296} (omega arith)))
    | inl more ↦
        rw (more, table_loop)
          (elim (ℕ-cases (source_newline_len s i s.newline_flags)) [
            | inl plain ↦
                let n = sym (newline_len-newline_at i (ltb→lt _ _ more)) ∙ plain in
                rw (plain, table_loop)
                  (rw (line_starts-no_newline flags i (drop i s.bytes) n, drop-drop i 1 s.bytes)
                    (table_loop-line_starts fuel (i + 1) room table (ground arith)))
            | inr (k, ends) ↦
                let n = sym (newline_len-newline_at i (ltb→lt _ _ more)) ∙ ends in
                let bound : i + suc k ≤ len s = newline_len-le s i s.newline_flags ends in
                rw (ends, table_loop)
                  (elim (Option-cases (table_room mem room (length table))) [
                    | inl full ↦ rw (full, table_loop) tt
                    | inr (cap', fits) ↦
                        rw (fits, table_loop)
                          (let e : (i + suc k) % 4294967296 ≡ i + suc k = omega arith in
                            rw
                              (
                                e,
                                line_starts-newline flags i k (drop i s.bytes) n,
                                drop-drop i (suc k) s.bytes,
                              )
                              (rw append_assoc at (
                                table_loop-line_starts fuel (i + suc k) cap'
                                  (table ++ (i + suc k) ∷ []) bound)))
                  ])
          ])
  ]

-- Where a table is not full, `table_room` gives it room for the next entry and for one behind it.
pub table_room-fits :
    (mem : ℕ → Bool) (room count : ℕ) {cap' : ℕ}
    → count < room
    → table_room mem room count ≡ some cap'
    → count + 1 < cap'
unfolding table_room
table_room-fits mem room count h e = ground arith

table_room-total :
    (mem : ℕ → Bool) (room count : ℕ)
    → ((n : ℕ) → mem n ≡ true)
    → count < uint32_max - 1
    → (cap' : ℕ) × (table_room mem room count ≡ some cap')
unfolding table_room
table_room-total mem room count m h =
    (if leb room (count + 1) then room * 2 else room, ground (arith, m (room * 2 * 4)))

-- Where every allocation succeeds and the source is shorter than the limit on lines, the loop ends
-- with a table.
pub table_loop-total :
    (mem : ℕ → Bool) (s : Source) (fuel i room : ℕ) (table : List ℕ)
    → ((n : ℕ) → mem n ≡ true)
    → len s < uint32_max - 2
    → i ≤ len s
    → len s < i + fuel
    → length table ≤ i + 1
    → table_loop mem s fuel i room table ≢ none
unfolding table_loop
table_loop-total mem s zero i room table m h l f t = absurd (omega arith)
table_loop-total mem s (suc fuel) i room table m h l f t = elim (Bool-cases (ltb i (len s))) [
  | inr done ↦ rw (done, table_loop) (λ e. cc)
  | inl more ↦
      rw (more, table_loop)
        (elim (ℕ-cases (source_newline_len s i s.newline_flags)) [
          | inl plain ↦
              rw (plain, table_loop)
                (table_loop-total mem s fuel (i + 1) room table m h (ground arith) (omega arith)
                  (omega arith))
          | inr (k, ends) ↦
              let bound = newline_len-le s i s.newline_flags ends in
              let (room', fits) = table_room-total mem room (length table) m (omega arith) in
              let next = ((i + suc k) % 4294967296) ∷ [] in
              rw (ends, table_loop)
                (rw (fits, table_loop)
                  (table_loop-total mem s fuel (i + suc k) room' (table ++ next) m h bound
                    (omega arith) (omega (arith, length-append table next))))
        ])
]

with_table-IsCached :
    (s : Source) (o : Option (List ℕ))
    → IsTable (starts s ++ len s ∷ []) o
    → IsCached s s.line_offsets
    → IsCached (or_same s (with_table s o)) (or_same s (with_table s o)).line_offsets
unfolding with_table or_same
with_table-IsCached s none e c = c
with_table-IsCached s (some t) e c =
    (e, omega (arith, ap length e, length-append (starts s) (len s ∷ [])))

ensure_cached-IsCached :
    (mem : ℕ → Bool) (s : Source) (o : Option (List ℕ))
    → len s ≤ uint32_max
    → IsCached s s.line_offsets
    → IsCached (or_same s (ensure_cached mem s o)) (or_same s (ensure_cached mem s o)).line_offsets
unfolding ensure_cached or_same
ensure_cached-IsCached mem s (some t) h c = c
ensure_cached-IsCached mem s none h c = elim (Bool-cases (mem ((len s / 64 + 8) * 4))) [
  | inl got ↦ rw got (
      with_table-IsCached s (table_loop mem s (len s + 1) 0 (len s / 64 + 8) (0 ∷ []))
        (table_loop-line_starts mem s h (len s + 1) 0 (len s / 64 + 8) (0 ∷ []) (omega arith)) c)
  | inr out ↦ rw out c
]

-- The table that `ensure_line_offsets` caches holds the line starts of the reference, in order, with
-- the length of the source behind them; and a table that was cached stays right.
pub ensured-IsCached :
    (mem : ℕ → Bool) (s : Source)
    → len s ≤ uint32_max
    → IsCached s s.line_offsets
    → IsCached (ensured mem s) (ensured mem s).line_offsets
unfolding ensured ensure_line_offsets
ensured-IsCached mem s h c = ensure_cached-IsCached mem s s.line_offsets h c
