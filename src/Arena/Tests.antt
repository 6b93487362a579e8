-- ===== src/Arena/Tests.antt =====
-- Runs of the allocator, on a C library that returns page 2 for what fits two pages.
use kavak.Base.{ℕ, ◌≡◌, refl, inr, [], ◌∷◌, Option, some, none, arith, ltb, if◌then◌else◌}
use kavak.Arena.{
  Chunk, Arena, align_forward, add_size, used_needed, place, alloc_in, alloc_chunks,
  arena_alloc_aligned, alloc_fresh, chunk_new,
}
use kavak.Arena.Alloc.{CallocFits, IsChunk}
use kavak.Arena.Apart.{CallocApart, IsFresh, arena_alloc_aligned-IsFresh}

abbrev pages : ℕ → Option ℕ
pages n = if ltb 8192 n then none else some 8192

pages-CallocFits : CallocFits pages
pages-CallocFits n p e = ground arith

abbrev small : Chunk
small = record { address = 4120; used = 5; cap = 64 }

abbrev one : Arena
one = record { chunks = small ∷ []; chunk_size = 64; total_used = 5 }

small-IsChunk : IsChunk small
small-IsChunk = record { used_le = omega arith; end_le = omega arith }

abbrev after : Arena
after = record { chunks = (record small { used = 24 }) ∷ []; chunk_size = 64; total_used = 24 }

sixteen_bytes : arena_alloc_aligned pages one 16 8 ≡ (some 4128, after)
unfolding arena_alloc_aligned alloc_chunks alloc_in align_forward add_size used_needed place
sixteen_bytes = refl

odd_alignment : arena_alloc_aligned pages one 16 3 ≡ (none, one)
unfolding arena_alloc_aligned alloc_chunks alloc_in align_forward
odd_alignment = refl

pages-CallocApart : CallocApart pages one.chunks
pages-CallocApart n q e = (inr (ground (arith, e)), tt)

-- a block that the tail has no room for
abbrev in_new : Arena
in_new = record {
  chunks = (record { address = 8216; used = 128; cap = 135 }) ∷ small ∷ [];
  chunk_size = 64;
  total_used = 133;
}

large_block : arena_alloc_aligned pages one 128 8 ≡ (some 8216, in_new)
unfolding arena_alloc_aligned alloc_chunks alloc_in alloc_fresh chunk_new align_forward add_size
    used_needed place
large_block = refl

arena_alloc_aligned-IsFresh_example : IsFresh pages one 128 8 8216 in_new
arena_alloc_aligned-IsFresh_example =
    arena_alloc_aligned-IsFresh pages one 128 8 pages-CallocFits pages-CallocApart
      (small-IsChunk, tt) (tt, tt) large_block
