-- ===== src/Arena.antt =====
-- The bump allocator: include/kavak.h section 18 and src/arena.c. A chunk is known by the address of
-- its `data`, what it has handed out and what it holds; the chunks of an arena stand newest first, so
-- that `tail` is the first and `head` the last of the list. `calloc n` is the address that the C
-- library returns for `n` bytes, or `none`.
pub mod Align
pub mod Alloc
pub mod Apart
mod Tests
use Prim.Native.Nat.{bit_and}
use kavak.Base.{
  ℕ, ◌+◌, ◌-◌, ◌*◌, ◌/◌, Bool, not, ◌||◌, List, [], ◌∷◌, Option, none, some, ltb, ◌==◌,
  if◌then◌else◌, size_max,
}

-- `KavakArenaChunk`, without its link
pub record Chunk : Type 0 where
  pub address : ℕ
  pub used : ℕ
  pub cap : ℕ

-- `KavakArena`
pub record Arena : Type 0 where
  pub chunks : List Chunk
  pub chunk_size : ℕ
  pub total_used : ℕ

-- `KAVAK_ARENA_DEFAULT_CHUNK`
abbrev pub default_chunk : ℕ
default_chunk = 4096

-- `KAVAK_ARENA_DEFAULT_ALIGN`
abbrev pub default_align : ℕ
default_align = 8

-- `sizeof(KavakArenaChunk)` on LP64: a pointer and two sizes
abbrev pub header_size : ℕ
header_size = 24

-- `chunk_new`
unfoldable pub chunk_new : (ℕ → Option ℕ) → ℕ → Option Chunk
chunk_new calloc n =
    if ltb (size_max - header_size) n then none else elim (calloc (header_size + n)) [
      | none ↦ none
      | some p ↦ some (record { address = p + header_size; used = 0; cap = n })
    ]

-- `add_overflows_size`: the sum, or `none` on overflow
unfoldable pub add_size : ℕ → ℕ → Option ℕ
add_size a b = if ltb (size_max - b) a then none else some (a + b)

-- `align_forward`; `none` is the result -1. Past the first test `align` is a power of two, and
-- `x & ~(align - 1)` is the multiple of `align` at or below `x`.
unfoldable pub align_forward : ℕ → ℕ → Option ℕ
align_forward base align =
    if align == 0 || not (bit_and align (align - 1) == 0)
    then none
    else if ltb (size_max - base) (align - 1)
    then none
    else some ((base + (align - 1)) / align * align)

-- `kavak_arena_init`
unfoldable pub arena_init : (ℕ → Option ℕ) → ℕ → Arena
arena_init calloc chunk_size =
    let size = if chunk_size == 0 then default_chunk else chunk_size in
    record {
      chunks = elim (chunk_new calloc size) [ none ↦ [] | some c ↦ c ∷ [] ];
      chunk_size = size;
      total_used = 0;
    }

-- The end of `kavak_arena_alloc_aligned`, in chunk `c` with the padding found.
unfoldable pub place : Arena → Chunk → List Chunk → ℕ → ℕ → Option ℕ × Arena
place a c older pad size = elim (add_size pad size) [
  | none ↦ (none, a)
  | some delta ↦ if ltb c.cap delta then (none, a) else elim (add_size a.total_used delta) [
    | none ↦ (none, a)
    | some total ↦ (
      some (c.address + c.used + pad),
      record a { chunks = (record c { used = c.used + delta }) ∷ older; total_used = total },
    )
  ]
]

-- The branch of `kavak_arena_alloc_aligned` that opens a chunk in front of `chunks`.
unfoldable pub alloc_fresh : (ℕ → Option ℕ) → Arena → List Chunk → ℕ → ℕ → Option ℕ × Arena
alloc_fresh calloc a chunks size align = elim (add_size size (align - 1)) [
  | none ↦ (none, a)
  | some need ↦ elim (chunk_new calloc (if ltb need a.chunk_size then a.chunk_size else need)) [
    | none ↦ (none, a)
    | some fresh ↦
        let a' = record a { chunks = fresh ∷ chunks } in
        elim (align_forward fresh.address align) [
          | none ↦ (none, a')
          | some aligned ↦ place a' fresh chunks (aligned - fresh.address) size
        ]
  ]
]

-- `used_needed`, with both overflow tests
unfoldable pub used_needed : Chunk → ℕ → ℕ → Option ℕ
unfolding add_size
used_needed c pad size = elim (add_size c.used pad) [
  | none ↦ none
  | some with_pad ↦ add_size with_pad size
]

-- The body of `kavak_arena_alloc_aligned` on an arena whose tail is `c`.
unfoldable pub alloc_in : (ℕ → Option ℕ) → Arena → Chunk → List Chunk → ℕ → ℕ → Option ℕ × Arena
alloc_in calloc a c older size align = elim (align_forward (c.address + c.used) align) [
  | none ↦ (none, a)
  | some aligned ↦
      let pad = aligned - (c.address + c.used) in
      elim (used_needed c pad size) [
        | none ↦ (none, a)
        | some needed ↦
            if ltb c.cap needed
            then alloc_fresh calloc a (c ∷ older) size align
            else place a c older pad size
      ]
]

unfoldable pub alloc_chunks : (ℕ → Option ℕ) → Arena → List Chunk → ℕ → ℕ → Option ℕ × Arena
alloc_chunks calloc a [] size align = (none, a)
alloc_chunks calloc a (c ∷ older) size align = alloc_in calloc a c older size align

-- `kavak_arena_alloc_aligned`: the address, or `none` for NULL, and the arena afterwards
unfoldable pub arena_alloc_aligned : (ℕ → Option ℕ) → Arena → ℕ → ℕ → Option ℕ × Arena
unfolding alloc_chunks
arena_alloc_aligned calloc a size align =
    alloc_chunks calloc a a.chunks size (if align == 0 then default_align else align)

-- `kavak_arena_alloc`
unfoldable pub arena_alloc : (ℕ → Option ℕ) → Arena → ℕ → Option ℕ × Arena
unfolding arena_alloc_aligned
arena_alloc calloc a size = arena_alloc_aligned calloc a size default_align

-- `kavak_arena_free`: the arena afterwards
abbrev pub arena_free : Arena → Arena
arena_free a = record { chunks = []; chunk_size = 0; total_used = 0 }
