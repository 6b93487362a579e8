-- ===== src/Arena/Apart.antt =====
-- The blocks that an arena hands out are disjoint, as the blocks of the C library are.
use kavak.Base.{
  ℕ, ◌+◌, ◌≤◌, ◌≡◌, ◌⊎◌, inl, inr, List, [], ◌∷◌, Option, some, arith, All, ◌==◌, if◌then◌else◌,
}
use kavak.Arena.{Chunk, Arena, header_size, default_align, arena_alloc_aligned}
use kavak.Arena.Alloc.{IsChunk, CallocFits, Allocated, arena_alloc_aligned-Allocated}

-- The allocations of two chunks, `header_size` bytes in front of `data` and `cap` behind it, are disjoint.
abbrev pub Apart : Chunk → Chunk → Type 0
Apart c d =
    (c.address + c.cap + header_size ≤ d.address) ⊎ (d.address + d.cap + header_size ≤ c.address)

-- The allocations of the chunks are pairwise disjoint.
abbrev pub Pairwise : List Chunk → Type 0
Pairwise [] = Unit
Pairwise (c ∷ chunks) = All (Apart c) chunks × Pairwise chunks

-- What the C library promises of a block `[q, q + n)` that it returns while the chunks are allocated: it is
-- disjoint from the allocation of each.
abbrev pub CallocApart : (ℕ → Option ℕ) → List Chunk → Type 0
CallocApart calloc chunks =
    (n q : ℕ)
    → calloc n ≡ some q
    → All (λ (c : Chunk). (q + n + header_size ≤ c.address) ⊎ (c.address + c.cap ≤ q)) chunks

-- The block `[p, p + size)` is disjoint from the bytes that a chunk has handed out.
abbrev pub OutOf : ℕ → ℕ → Chunk → Type 0
OutOf p size c = (p + size ≤ c.address) ⊎ (c.address + c.used ≤ p)

-- A block that is aligned and stands in the tail of the arena afterwards, disjoint from all that the arena
-- had handed out; and the chunks of the arena afterwards are disjoint again.
pub record IsFresh (calloc : ℕ → Option ℕ) (a : Arena) (size align p : ℕ) (a' : Arena)
    : Type 0 where
  pub allocated : Allocated calloc a size align p a'
  pub out_of_all : All (OutOf p size) a.chunks
  pub pairwise : Pairwise a'.chunks

module _ (tail : Chunk) where
  -- a block inside a chunk is out of the others
  Apart-OutOf :
      (p size : ℕ) (chunks : List Chunk)
      → tail.address ≤ p
      → p + size ≤ tail.address + tail.cap
      → All (Apart tail) chunks
      → All IsChunk chunks
      → All (OutOf p size) chunks
  Apart-OutOf p size [] from_ to_ apart valid = tt
  Apart-OutOf p size (c ∷ chunks) from_ to_ (here, apart) (chunk, valid) =
      let out : OutOf p size c = elim here [
        | inl below ↦ inl (omega (arith, below, to_))
        | inr above ↦ inr (omega (arith, above, from_, chunk.used_le))
      ] in
      (out, Apart-OutOf p size chunks from_ to_ apart valid)

  -- a chunk that has handed out more is as far from the others
  Apart-grown :
      (c : Chunk) (chunks : List Chunk)
      → tail.address ≡ c.address
      → tail.cap ≡ c.cap
      → All (Apart c) chunks
      → All (Apart tail) chunks
  Apart-grown c [] at_ cap apart = tt
  Apart-grown c (d ∷ chunks) at_ cap (here, apart) =
      let kept : Apart tail d = elim here [
        | inl below ↦ inl (omega (arith, below, at_, cap))
        | inr above ↦ inr (omega (arith, above, at_, cap))
      ] in
      (kept, Apart-grown c chunks at_ cap apart)

  -- a chunk in a new block
  Apart-new :
      (q : ℕ) (chunks : List Chunk)
      → tail.address ≡ q + header_size
      → All
          (λ (c : Chunk).
            (q + (header_size + tail.cap) + header_size ≤ c.address) ⊎ (c.address + c.cap ≤ q))
          chunks
      → All (Apart tail) chunks
  Apart-new q [] at_ apart = tt
  Apart-new q (d ∷ chunks) at_ (here, apart) =
      let new : Apart tail d = elim here [
        | inl below ↦ inl (omega (arith, below, at_))
        | inr above ↦ inr (omega (arith, above, at_))
      ] in
      (new, Apart-new q chunks at_ apart)

Allocated-IsFresh :
    (calloc : ℕ → Option ℕ) (a : Arena) (size align p : ℕ) (a' : Arena)
    → All IsChunk a.chunks
    → Pairwise a.chunks
    → CallocApart calloc a.chunks
    → Allocated calloc a size align p a'
    → IsFresh calloc a size align p a'
Allocated-IsFresh calloc a size align p a' valid apart library r =
    let to_ : p + size ≤ r.tail.address + r.tail.cap = omega (arith, r.ends, r.valid.used_le) in
    elim r.above [
      | inl (c, old, at_, same_cap, above) ↦
          let chunks = rw old at valid in
          let (beside, among) = rw old at apart in
          let others = Apart-grown r.tail c r.rest at_ same_cap beside in
          record {
            allocated = r;
            out_of_all = rw old (
              inr above,
              Apart-OutOf r.tail p size r.rest (omega (arith, above, at_)) to_ others chunks.1,
            );
            pairwise = rw r.shape (others, among);
          }
      | inr (kept, from_, (q, got, at_)) ↦
          let others = Apart-new r.tail q a.chunks at_ (library (header_size + r.tail.cap) q got) in
          record {
            allocated = r;
            out_of_all = Apart-OutOf r.tail p size a.chunks from_ to_ others valid;
            pairwise = rw (r.shape, kept) (others, apart);
          }
    ]

-- In an arena whose chunks are well formed and disjoint, and with a C library whose blocks end inside the
-- address space and are disjoint from those of the arena, a block that `kavak_arena_alloc_aligned` returns
-- is aligned as asked, with 0 for the default of 8, lies inside one chunk, and is disjoint from all bytes that
-- any chunk of the arena had handed out; and the chunks are disjoint afterwards.
pub arena_alloc_aligned-IsFresh :
    (calloc : ℕ → Option ℕ) (a : Arena) (size align : ℕ) {p : ℕ} {a' : Arena}
    → CallocFits calloc
    → CallocApart calloc a.chunks
    → All IsChunk a.chunks
    → Pairwise a.chunks
    → arena_alloc_aligned calloc a size align ≡ (some p, a')
    → IsFresh calloc a size (if align == 0 then default_align else align) p a'
arena_alloc_aligned-IsFresh calloc a size align {p} {a'} f library valid apart e =
    Allocated-IsFresh calloc a size (if align == 0 then default_align else align) p a' valid apart
      library (arena_alloc_aligned-Allocated calloc a size align f valid e)
