-- ===== src/Span/Laws.antt =====
-- What `kavak_span_union` and its helpers promise on 32-bit spans.
use kavak.Base.{ℕ, true, ◌||◌, ◌≤◌, ◌≡◌, ◌≢◌, uint32_max, arith}
use kavak.Span.{Span, span_end, span_contains, span_union}

-- Both fields are `uint32_t`.
pub record IsWord (s : Span) : Type 0 where
  pub start_le : s.start ≤ uint32_max
  pub len_le : s.len ≤ uint32_max

pub span_union-IsWord : (a b : Span) → IsWord a → IsWord b → IsWord (span_union a b)
unfolding span_union
span_union-IsWord a b va vb = ground arith

-- A position in either span is in the union.
pub span_contains-union :
    (a b : Span) (p : ℕ)
    → IsWord a
    → IsWord b
    → (span_contains a p || span_contains b p) ≡ true
    → span_contains (span_union a b) p ≡ true
unfolding span_contains span_union
span_contains-union a b p va vb h = ground arith

-- The union of two non-empty spans starts and ends where one of them does: it is the smallest
-- range over both.
pub span_union-tight :
    (a b c : Span)
    → IsWord a
    → IsWord b
    → IsWord c
    → a.len ≢ 0
    → b.len ≢ 0
    → c.start ≤ a.start
    → c.start ≤ b.start
    → span_end a ≤ span_end c
    → span_end b ≤ span_end c
    → (c.start ≤ (span_union a b).start) × (span_end (span_union a b) ≤ span_end c)
unfolding span_union
span_union-tight a b c va vb vc na nb = ground arith
