-- ===== src/Source/Bounds.antt =====
-- The writes of `ensure_line_offsets` of src/source.c against the capacity of the table: the same run, in
-- which each write is checked.
use kavak.Base.{
  ℕ, zero, suc, ◌+◌, ◌*◌, ◌%◌, ◌<◌, ◌≡◌, inl, inr, refl, ap, ◌∙◌, Bool, true, false, List, [], ◌∷◌,
  ◌++◌, Option, none, some, ltb, if◌then◌else◌, length, length-append, arith, Bool-cases,
  Option-cases,
}
use kavak.Source.{
  Source, len, source_newline_len, table_room, table_loop, with_table, initial_room, ensure_cached,
  ensure_line_offsets,
}
use kavak.Source.Lines.{table_room-fits, ℕ-cases}

-- A run that has written outside the table, or one that has not, with its result.
pub data Checked (A : Type 0) : Type 0 where
  overrun : Checked A
  within : A → Checked A

-- `table[count++] = x` in a table of this capacity
abbrev pub write : ℕ → List ℕ → ℕ → (List ℕ → Checked (Option (List ℕ))) → Checked (Option (List ℕ))
write cap table x rest = if ltb (length table) cap then rest (table ++ x ∷ []) else overrun

-- the loop, with the sentinel behind it
unfoldable pub checked_loop : (ℕ → Bool) → Source → ℕ → ℕ → ℕ → List ℕ → Checked (Option (List ℕ))
checked_loop mem s zero i cap table = within none
checked_loop mem s (suc fuel) i cap table = elim (ltb i (len s)) [
  | false ↦ write cap table (len s % 4294967296) (λ t. within (some t))
  | true ↦ elim (source_newline_len s i s.newline_flags) [
    | zero ↦ checked_loop mem s fuel (i + 1) cap table
    | suc k ↦ elim (table_room mem cap (length table)) [
      | none ↦ within none
      | some cap' ↦
          write cap' table ((i + suc k) % 4294967296) (checked_loop mem s fuel (i + suc k) cap')
    ]
  ]
]

abbrev pub checked_with : Source → Checked (Option (List ℕ)) → Checked (Option Source)
checked_with s overrun = overrun
checked_with s (within o) = within (with_table s o)

-- the function, whose first write is the start of line 1
abbrev pub checked_ensure : (ℕ → Bool) → Source → Option (List ℕ) → Checked (Option Source)
checked_ensure mem s (some table) = within (some s)
checked_ensure mem s none =
    if mem (initial_room s * 4)
    then checked_with s
        (write (initial_room s) [] 0 (checked_loop mem s (len s + 1) 0 (initial_room s)))
    else within none

write-within :
    (cap : ℕ) (table : List ℕ) (x : ℕ) (rest : List ℕ → Checked (Option (List ℕ)))
    → length table < cap
    → write cap table x rest ≡ rest (table ++ x ∷ [])
write-within cap table x rest room =
    let small : ltb (length table) cap ≡ true = ground (arith, room) in
    ap (λ b. if b then rest (table ++ x ∷ []) else overrun) small

checked_loop-table_loop :
    (mem : ℕ → Bool) (s : Source) (fuel i cap : ℕ) (table : List ℕ)
    → length table < cap
    → checked_loop mem s fuel i cap table ≡ within (table_loop mem s fuel i cap table)
unfolding checked_loop table_loop
checked_loop-table_loop mem s zero i cap table room = refl
checked_loop-table_loop mem s (suc fuel) i cap table room = elim (Bool-cases (ltb i (len s))) [
  | inr done ↦
      rw (done, checked_loop, table_loop)
        (write-within cap table (len s % 4294967296) (λ t. within (some t)) room)
  | inl more ↦
      rw (more, checked_loop, table_loop)
        (elim (ℕ-cases (source_newline_len s i s.newline_flags)) [
          | inl plain ↦
              rw (plain, checked_loop, table_loop)
                (checked_loop-table_loop mem s fuel (i + 1) cap table room)
          | inr (k, ends) ↦
              rw (ends, checked_loop, table_loop)
                (elim (Option-cases (table_room mem cap (length table))) [
                  | inl full ↦ rw (full, checked_loop, table_loop) refl
                  | inr (cap', got) ↦
                      let fits = table_room-fits mem cap (length table) room got in
                      let x = (i + suc k) % 4294967296 in
                      rw (got, checked_loop, table_loop)
                        (write-within cap' table x (checked_loop mem s fuel (i + suc k) cap')
                            (omega (arith, fits))
                          ∙ checked_loop-table_loop mem s fuel (i + suc k) cap' (table ++ x ∷ [])
                              (omega (arith, fits, length-append table (x ∷ []))))
                ])
        ])
]

checked_ensure-ensure_cached :
    (mem : ℕ → Bool) (s : Source) (o : Option (List ℕ))
    → checked_ensure mem s o ≡ within (ensure_cached mem s o)
unfolding ensure_cached
checked_ensure-ensure_cached mem s (some table) = refl
checked_ensure-ensure_cached mem s none =
    let room = initial_room s in
    let first =
      write-within room [] 0 (checked_loop mem s (len s + 1) 0 room) (omega arith)
      ∙ checked_loop-table_loop mem s (len s + 1) 0 room (0 ∷ []) (omega arith) in
    elim (Bool-cases (mem (room * 4))) [
      | inl got ↦ rw got (ap (checked_with s) first)
      | inr out ↦ rw out refl
    ]

-- Each write of `ensure_line_offsets` stays inside the table as it is allocated then: the first entry, each
-- entry behind a newline, and the sentinel. That is, its run on any source and allocator, with each write
-- checked against the capacity, meets no write outside, and gives the same.
pub checked_ensure-ensure_line_offsets :
    (mem : ℕ → Bool) (s : Source)
    → checked_ensure mem s s.line_offsets ≡ within (ensure_line_offsets mem s)
unfolding ensure_line_offsets
checked_ensure-ensure_line_offsets mem s = checked_ensure-ensure_cached mem s s.line_offsets
