-- ===== src/Arena/Alloc.antt =====
-- What an allocation from the arena promises.
use kavak.Base.{
  ℕ, ◌+◌, ◌-◌, ◌%◌, ◌≤◌, ◌≡◌, ◌⊎◌, inl, inr, List, [], ◌∷◌, Option, none, some, arith, size_max,
  All, refl, ap, ◌∙◌, ltb, if◌then◌else◌, ◌==◌, Option-cases, Bool-cases,
}
use kavak.Arena.{
  Chunk, Arena, header_size, chunk_new, add_size, align_forward, place, alloc_fresh, used_needed,
  alloc_in, alloc_chunks, arena_alloc_aligned, default_align,
}
use kavak.Arena.Align.{align_forward_bounds}

-- A chunk has handed out no more than it holds, and ends inside the address space.
pub record IsChunk (c : Chunk) : Type 0 where
  pub used_le : c.used ≤ c.cap
  pub end_le : c.address + c.cap ≤ size_max

-- What the C library promises of the blocks that it returns: they end inside the address space.
abbrev pub CallocFits : (ℕ → Option ℕ) → Type 0
CallocFits calloc = (n p : ℕ) → calloc n ≡ some p → p + n ≤ size_max

-- The block `[p, p + size)` lies at the end of the handed-out part of the new tail, aligned, inside
-- that chunk and above all that the chunk had handed out before; the other chunks are as they were. A tail
-- that is new stands behind its header in a block of the C library.
pub record Allocated (calloc : ℕ → Option ℕ) (a : Arena) (size align p : ℕ) (a' : Arena)
    : Type 0 where
  pub tail : Chunk
  pub rest : List Chunk
  pub shape : a'.chunks ≡ tail ∷ rest
  pub valid : IsChunk tail
  pub aligned : p % align ≡ 0
  pub ends : p + size ≡ tail.address + tail.used
  pub total : a.total_used + size ≤ a'.total_used
  pub above :
      ((c : Chunk) × (a.chunks ≡ c ∷ rest)
        × (tail.address ≡ c.address)
        × (tail.cap ≡ c.cap)
        × (c.address + c.used ≤ p))
      ⊎ ((rest ≡ a.chunks)
          × (tail.address ≤ p)
          × ((q : ℕ) × (calloc (header_size + tail.cap) ≡ some q)
              × (tail.address ≡ q + header_size)))

-- the result of `place`
record Placed (a : Arena) (c : Chunk) (older : List Chunk) (pad size p : ℕ) (a' : Arena)
    : Type 0 where
  where_ : p ≡ c.address + c.used + pad
  chunks : a'.chunks ≡ (record c { used = c.used + (pad + size) }) ∷ older
  total : a'.total_used ≡ a.total_used + (pad + size)
  room : pad + size ≤ c.cap

place-Placed :
    (a : Arena) (c : Chunk) (older : List Chunk) (pad size : ℕ) {p : ℕ} {a' : Arena}
    → place a c older pad size ≡ (some p, a')
    → Placed a c older pad size p a'
unfolding place add_size
place-Placed a c older pad size e = ground arith

chunk_new_lem :
    (calloc : ℕ → Option ℕ) (n : ℕ) {c : Chunk}
    → CallocFits calloc
    → chunk_new calloc n ≡ some c
    → IsChunk c × (c.used ≡ 0) × (c.cap ≡ n)
unfolding chunk_new
chunk_new_lem calloc n f e = elim (Option-cases (calloc (header_size + n))) [
  | inl out ↦ ground arith
  | inr (p, got) ↦ ground (arith, f (header_size + n) p got)
]

chunk_new_block :
    (calloc : ℕ → Option ℕ) (n : ℕ) {c : Chunk}
    → chunk_new calloc n ≡ some c
    → (q : ℕ) × (calloc (header_size + c.cap) ≡ some q) × (c.address ≡ q + header_size)
unfolding chunk_new
chunk_new_block calloc n {c} e = elim (Option-cases (calloc (header_size + n))) [
  | inl out ↦ absurd (ground arith)
  | inr (q, got) ↦
      let same : c.cap ≡ n = ground arith in
      (q, ap (λ m. calloc (header_size + m)) same ∙ got, ground arith)
]

-- A fresh chunk that served an allocation, with the steps that led there.
record FromFresh (calloc : ℕ → Option ℕ) (a : Arena) (chunks : List Chunk) (size align p : ℕ)
    (a' : Arena) : Type 0 where
  fresh : Chunk
  aligned : ℕ
  cap_asked : ℕ
  made : chunk_new calloc cap_asked ≡ some fresh
  rounded : align_forward fresh.address align ≡ some aligned
  placed :
      place (record a { chunks = fresh ∷ chunks }) fresh chunks (aligned - fresh.address) size
      ≡ (some p, a')

alloc_fresh-FromFresh :
    (calloc : ℕ → Option ℕ) (a : Arena) (chunks : List Chunk) (size align : ℕ) {p : ℕ} {a' : Arena}
    → alloc_fresh calloc a chunks size align ≡ (some p, a')
    → FromFresh calloc a chunks size align p a'
unfolding alloc_fresh
alloc_fresh-FromFresh calloc a chunks size align e =
    elim (Option-cases (add_size size (align - 1))) [
      | inl none_ ↦ absurd (ground arith)
      | inr (need, sum) ↦
          let n = if ltb need a.chunk_size then a.chunk_size else need in
          elim (Option-cases (chunk_new calloc n)) [
            | inl out ↦ absurd (ground arith)
            | inr (fresh, made) ↦ elim (Option-cases (align_forward fresh.address align)) [
              | inl off ↦ absurd (ground arith)
              | inr (aligned, rounded) ↦ record {
                fresh = fresh;
                aligned = aligned;
                cap_asked = n;
                made = made;
                rounded = rounded;
                placed =
                    rw (rounded, alloc_fresh) at
                      (rw (made, alloc_fresh) at (rw (sum, alloc_fresh) at e));
              }
            ]
          ]
    ]

FromFresh-Allocated :
    {calloc : ℕ → Option ℕ} {a : Arena} {size align p : ℕ} {a' : Arena}
    → CallocFits calloc
    → FromFresh calloc a a.chunks size align p a'
    → Allocated calloc a size align p a'
FromFresh-Allocated {calloc} {a} {size} {align} {p} {a'} f r =
    let made = chunk_new_lem calloc r.cap_asked f r.made in
    let up = align_forward_bounds r.fresh.address align (omega (arith, made.0.end_le)) r.rounded in
    let put =
      place-Placed (record a { chunks = r.fresh ∷ a.chunks }) r.fresh a.chunks
        (r.aligned - r.fresh.address) size r.placed in
    let at_ : p ≡ r.aligned = omega (arith, put.where_, made.1, up) in
    record {
      tail = record (r.fresh) { used = r.fresh.used + (r.aligned - r.fresh.address + size) };
      rest = a.chunks;
      shape = put.chunks;
      valid = record { used_le = omega (arith, put.room, made.1); end_le = made.0.end_le };
      aligned = rw at_ (up.0);
      ends = omega (arith, made.1, up);
      total = omega (arith, put.total);
      above = inr (refl, omega (arith, up), chunk_new_block calloc r.cap_asked r.made);
    }

module _ {calloc : ℕ → Option ℕ} (a : Arena) (c : Chunk) (older : List Chunk) (size align : ℕ)
    {p : ℕ} {a' : Arena} (fits : CallocFits calloc) (valid : IsChunk c)
    (head : a.chunks ≡ c ∷ older) where
  -- the block stands in the tail that the arena has
  in_tail :
      (aligned needed : ℕ)
      → align_forward (c.address + c.used) align ≡ some aligned
      → used_needed c (aligned - (c.address + c.used)) size ≡ some needed
      → needed ≤ c.cap
      → place a c older (aligned - (c.address + c.used)) size ≡ (some p, a')
      → Allocated calloc a size align p a'
  unfolding used_needed
  in_tail aligned needed rounded sum room e =
      let base = c.address + c.used in
      let up =
        align_forward_bounds base align (omega (arith, valid.used_le, valid.end_le)) rounded in
      let put = place-Placed a c older (aligned - base) size e in
      let at_ : p ≡ aligned = omega (arith, put.where_, up) in
      let below : c.used + (aligned - base + size) ≤ c.cap = ground arith in
      record {
        tail = record c { used = c.used + (aligned - base + size) };
        rest = older;
        shape = put.chunks;
        valid = record { used_le = below; end_le = valid.end_le };
        aligned = rw at_ (up.0);
        ends = omega (arith, up);
        total = omega (arith, put.total);
        above = inl (c, head, refl, refl, omega (arith, up));
      }

  alloc_in-Allocated :
      alloc_in calloc a c older size align ≡ (some p, a') → Allocated calloc a size align p a'
  unfolding alloc_in
  alloc_in-Allocated e = elim (Option-cases (align_forward (c.address + c.used) align)) [
    | inl off ↦ absurd (ground arith)
    | inr (aligned, rounded) ↦
        let pad = aligned - (c.address + c.used) in
        elim (Option-cases (used_needed c pad size)) [
          | inl over ↦ absurd (ground arith)
          | inr (needed, sum) ↦
              let e' = rw (sum, alloc_in) at (rw (rounded, alloc_in) at e) in
              elim (Bool-cases (ltb c.cap needed)) [
                | inl full ↦ FromFresh-Allocated fits (
                    alloc_fresh-FromFresh calloc a a.chunks size align
                      (rw (← head) at (rw full at e')))
                | inr room ↦ in_tail aligned needed rounded sum (ground arith) (rw room at e')
              ]
        ]
  ]

alloc_chunks-Allocated :
    {calloc : ℕ → Option ℕ} (a : Arena) (chunks : List Chunk) (size align : ℕ) {p : ℕ} {a' : Arena}
    → CallocFits calloc
    → a.chunks ≡ chunks
    → All IsChunk chunks
    → alloc_chunks calloc a chunks size align ≡ (some p, a')
    → Allocated calloc a size align p a'
unfolding alloc_chunks
alloc_chunks-Allocated a [] size align f h v e = absurd (ground arith)
alloc_chunks-Allocated a (c ∷ older) size align f h v e =
    alloc_in-Allocated a c older size align f v.0 h e

-- A block that `kavak_arena_alloc_aligned` returns is aligned as asked, with 0 for the default of 8, and
-- stands above the used part of the tail and inside it, or in a fresh chunk with the old ones behind it.
pub arena_alloc_aligned-Allocated :
    (calloc : ℕ → Option ℕ) (a : Arena) (size align : ℕ) {p : ℕ} {a' : Arena}
    → CallocFits calloc
    → All IsChunk a.chunks
    → arena_alloc_aligned calloc a size align ≡ (some p, a')
    → Allocated calloc a size (if align == 0 then default_align else align) p a'
unfolding arena_alloc_aligned
arena_alloc_aligned-Allocated calloc a size align f v e =
    alloc_chunks-Allocated a a.chunks size (if align == 0 then default_align else align) f refl v e

-- An arena that has handed nothing more out than `a`: it is `a`, or `a` with an unused chunk in front.
abbrev pub Unused : (ℕ → Option ℕ) → Arena → Arena → Type 0
Unused calloc a a' =
    (a' ≡ a)
    ⊎ ((n : ℕ) × (c : Chunk) × (chunk_new calloc n ≡ some c)
        × (a' ≡ record a { chunks = c ∷ a.chunks }))

place_failed :
    (a : Arena) (c : Chunk) (older : List Chunk) (pad size : ℕ) {a' : Arena}
    → place a c older pad size ≡ (none, a')
    → a' ≡ a
unfolding place add_size
place_failed a c older pad size e = ground arith

alloc_fresh_failed :
    (calloc : ℕ → Option ℕ) (a : Arena) (size align : ℕ) {a' : Arena}
    → alloc_fresh calloc a a.chunks size align ≡ (none, a')
    → Unused calloc a a'
unfolding alloc_fresh
alloc_fresh_failed calloc a size align e = elim (Option-cases (add_size size (align - 1))) [
  | inl none_ ↦ inl (ground arith)
  | inr (need, sum) ↦
      let n = if ltb need a.chunk_size then a.chunk_size else need in
      let e1 = rw (sum, alloc_fresh) at e in
      elim (Option-cases (chunk_new calloc n)) [
        | inl out ↦ inl (ground arith)
        | inr (fresh, made) ↦
            let e2 = rw (made, alloc_fresh) at e1 in
            elim (Option-cases (align_forward fresh.address align)) [
              | inl off ↦ inr (n, fresh, made, ground arith)
              | inr (aligned, rounded) ↦ inr (
                n,
                fresh,
                made,
                place_failed (record a { chunks = fresh ∷ a.chunks }) fresh a.chunks
                    (aligned - fresh.address) size (rw (rounded, alloc_fresh) at e2),
              )
            ]
      ]
]

alloc_in_failed :
    (calloc : ℕ → Option ℕ) (a : Arena) (c : Chunk) (older : List Chunk) (size align : ℕ)
    {a' : Arena}
    → a.chunks ≡ c ∷ older
    → alloc_in calloc a c older size align ≡ (none, a')
    → Unused calloc a a'
unfolding alloc_in
alloc_in_failed calloc a c older size align head e =
    elim (Option-cases (align_forward (c.address + c.used) align)) [
      | inl off ↦ inl (ground arith)
      | inr (aligned, rounded) ↦
          let pad = aligned - (c.address + c.used) in
          elim (Option-cases (used_needed c pad size)) [
            | inl over ↦ inl (ground arith)
            | inr (needed, sum) ↦
                let e' = rw (sum, alloc_in) at (rw (rounded, alloc_in) at e) in
                elim (Bool-cases (ltb c.cap needed)) [
                  | inl full ↦
                      alloc_fresh_failed calloc a size align (rw (← head) at (rw full at e'))
                  | inr room ↦ inl (place_failed a c older pad size (rw room at e'))
                ]
          ]
    ]

alloc_chunks_failed :
    (calloc : ℕ → Option ℕ) (a : Arena) (chunks : List Chunk) (size align : ℕ) {a' : Arena}
    → a.chunks ≡ chunks
    → alloc_chunks calloc a chunks size align ≡ (none, a')
    → Unused calloc a a'
unfolding alloc_chunks
alloc_chunks_failed calloc a [] size align h e = inl (ground arith)
alloc_chunks_failed calloc a (c ∷ older) size align h e =
    alloc_in_failed calloc a c older size align h e

-- A call of `kavak_arena_alloc_aligned` that returns NULL has handed nothing out: the arena is as
-- before, or it has one more chunk in front, as `chunk_new` made it.
pub arena_alloc_aligned_failed :
    (calloc : ℕ → Option ℕ) (a : Arena) (size align : ℕ) {a' : Arena}
    → arena_alloc_aligned calloc a size align ≡ (none, a')
    → Unused calloc a a'
unfolding arena_alloc_aligned
arena_alloc_aligned_failed calloc a size align e =
    alloc_chunks_failed calloc a a.chunks size (if align == 0 then default_align else align) refl e

Allocated-IsChunk :
    {calloc : ℕ → Option ℕ} {a : Arena} {size align p : ℕ} {a' : Arena}
    → All IsChunk a.chunks
    → Allocated calloc a size align p a'
    → All IsChunk a'.chunks
Allocated-IsChunk v r =
    rw (r.shape)
      (r.valid, elim (r.above) [ inl (c, h, _, _, _) ↦ (rw h at v).1 | inr (h, _, _) ↦ rw h v ])

Unused-IsChunk :
    {calloc : ℕ → Option ℕ} {a a' : Arena}
    → CallocFits calloc
    → All IsChunk a.chunks
    → Unused calloc a a'
    → All IsChunk a'.chunks
Unused-IsChunk f v (inl same) = rw same v
Unused-IsChunk {calloc} f v (inr (n, c, made, more)) =
    rw more ((chunk_new_lem calloc n f made).0, v)

-- Every chunk of the arena stays well formed through a call of `kavak_arena_alloc_aligned`, whatever
-- the call returns.
pub arena_alloc_aligned-IsChunk :
    (calloc : ℕ → Option ℕ) (a : Arena) (size align : ℕ)
    → CallocFits calloc
    → All IsChunk a.chunks
    → All IsChunk (arena_alloc_aligned calloc a size align).1.chunks
arena_alloc_aligned-IsChunk calloc a size align f v =
    elim (Option-cases (arena_alloc_aligned calloc a size align).0) [
      | inl off ↦ Unused-IsChunk f v (
          arena_alloc_aligned_failed calloc a size align
            (ap (λ r. (r, (arena_alloc_aligned calloc a size align).1)) off))
      | inr (p, got) ↦ Allocated-IsChunk v (
          arena_alloc_aligned-Allocated calloc a size align f v
            (ap (λ r. (r, (arena_alloc_aligned calloc a size align).1)) got))
    ]
