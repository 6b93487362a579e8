-- ===== src/Span/Tests.antt =====
-- Runs of the span helpers on concrete ranges.
use kavak.Base.{true, ◌≡◌, refl}
use kavak.Span.{Span, span_make, span_end, span_contains, span_union}

abbrev left : Span
left = span_make 3 4

abbrev right : Span
right = span_make 10 2

union_runs : span_union left right ≡ span_make 3 9
unfolding span_union
union_runs = refl

span_contains_run : span_contains (span_union left right) 11 ≡ true
unfolding span_contains span_union span_end
span_contains_run = refl
