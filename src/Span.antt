-- ===== src/Span.antt =====
-- Half-open byte ranges: the inline helpers of include/kavak.h, section 17, and src/span.c.
pub mod Laws
mod Tests
use kavak.Base.{ℕ, Bool, ◌&&◌, ◌-◌, ltb, leb, ◌==◌, if◌then◌else◌, uint32_max, add32, sub32}

-- `KavakSpan`
pub record Span : Type 0 where
  pub start : ℕ
  pub len : ℕ

-- `KAVAK_SPAN_NONE`
abbrev pub span_none : Span
span_none = record { start = 0; len = 0 }

-- `kavak_span_make`
abbrev pub span_make : ℕ → ℕ → Span
span_make s n = record { start = s; len = n }

-- `kavak_span_from_to`
unfoldable pub span_from_to : ℕ → ℕ → Span
span_from_to s end_excl = record { start = s; len = if ltb s end_excl then sub32 end_excl s else 0 }

-- `kavak_span_end`, which saturates
unfoldable pub span_end : Span → ℕ
span_end s = if ltb (uint32_max - s.start) s.len then uint32_max else add32 s.start s.len

-- `kavak_span_is_empty`
unfoldable pub span_is_empty : Span → Bool
span_is_empty s = s.len == 0

-- `kavak_span_contains`
unfoldable pub span_contains : Span → ℕ → Bool
unfolding span_end
span_contains s pos = leb s.start pos && ltb pos (span_end s)

-- `kavak_span_union`
unfoldable pub span_union : Span → Span → Span
unfolding span_is_empty span_end
span_union a b =
    if span_is_empty a
    then b
    else if span_is_empty b
    then a
    else let start = if ltb a.start b.start then a.start else b.start in
      let end_a = span_end a in
      let end_b = span_end b in
      let end = if ltb end_b end_a then end_a else end_b in
      record { start = start; len = sub32 end start }
