-- ===== src/Source.antt =====
-- Sources and their line table: include/kavak.h section 1 and src/source.c. A source holds the list
-- of its bytes, whose length is the field `len`; NULL bytes are the empty list. `mem n` says whether
-- an allocation of `n` bytes succeeds.
pub mod Newline
pub mod Lines
pub mod Bounds
pub mod Position
mod Tests
use Prim.Native.String.{String}
use kavak.Base.{
  ℕ, zero, suc, ◌+◌, ◌-◌, ◌*◌, ◌/◌, ◌%◌, Bool, true, false, ◌&&◌, ◌||◌, List, [], ◌∷◌, ◌++◌, Option,
  none, some, ltb, leb, ◌==◌, if◌then◌else◌, length, get_or, drop, take, uint32_max, size_max,
  has_bit,
}
use kavak.Span.{Span}
use kavak.Utf8.{utf8_decode}

-- `KavakSource`
pub record Source : Type 0 where
  pub bytes : List ℕ
  pub filename : Option String
  pub newline_flags : ℕ
  pub line_offsets : Option (List ℕ)
  pub line_count : ℕ

-- `source->len`
abbrev pub len : Source → ℕ
len s = length s.bytes

-- the bit numbers of `KAVAK_NEWLINE_LF`, `_CRLF`, `_CR` and `_UNICODE`
abbrev pub lf_bit : ℕ
lf_bit = 0

abbrev pub crlf_bit : ℕ
crlf_bit = 1

abbrev pub cr_bit : ℕ
cr_bit = 2

abbrev pub unicode_bit : ℕ
unicode_bit = 3

-- `KAVAK_NEWLINE_DEFAULT`
abbrev pub newline_default : ℕ
newline_default = 7

-- `normalized_newline_flags`
abbrev pub normalized_newline_flags : ℕ → ℕ
normalized_newline_flags flags = if flags == 0 then newline_default else flags

-- whether the next byte is `\n`
unfoldable pub lf_follows : List ℕ → Bool
lf_follows [] = false
lf_follows (c ∷ rest) = c == b'\n'

-- the last test of `kavak_source_newline_len`, on what was decoded
unfoldable pub unicode_newline : Option (ℕ × ℕ) → ℕ
unicode_newline none = 0
unicode_newline (some (cp, n)) = if cp == 0x85 || cp == 0x2028 || cp == 0x2029 then n else 0

-- `kavak_source_newline_len` on the bytes from a position to the end, flags normalized
unfoldable pub newline_at : ℕ → List ℕ → ℕ
newline_at flags [] = 0
newline_at flags (c ∷ rest) =
    if c == b'\r'
    then if has_bit flags crlf_bit && lf_follows rest
      then 2
      else if has_bit flags cr_bit
      then 1
      else 0
    else if c == b'\n'
    then if has_bit flags lf_bit then 1 else 0
    else if has_bit flags unicode_bit
    then unicode_newline (utf8_decode (c ∷ rest))
    else 0

-- `kavak_source_newline_len`
unfoldable pub source_newline_len : Source → ℕ → ℕ → ℕ
source_newline_len s byte_pos flags =
    if leb (len s) byte_pos
    then 0
    else newline_at (normalized_newline_flags flags) (drop byte_pos s.bytes)

-- Room for one more entry and the sentinel behind it: the capacity afterwards.
unfoldable pub table_room : (ℕ → Bool) → ℕ → ℕ → Option ℕ
table_room mem cap count =
    if leb (uint32_max - 1) count
    then none
    else if leb cap (count + 1)
    then if ltb (size_max / 4 / 2) cap
      then none
      else if mem (cap * 2 * 4)
      then some (cap * 2)
      else none
    else some cap

-- The loop of `ensure_line_offsets`, with the sentinel at its end. A round moves `i` on, so `len`
-- rounds and one for the exit are enough.
pub table_loop : (ℕ → Bool) → Source → ℕ → ℕ → ℕ → List ℕ → Option (List ℕ)
table_loop mem s zero i cap table = none
table_loop mem s (suc fuel) i cap table = elim (ltb i (len s)) [
  | false ↦ some (table ++ (len s % 4294967296) ∷ [])
  | true ↦ elim (source_newline_len s i s.newline_flags) [
    | zero ↦ table_loop mem s fuel (i + 1) cap table
    | suc k ↦ elim (table_room mem cap (length table)) [
      | none ↦ none
      | some cap' ↦
          table_loop mem s fuel (i + suc k) cap' (table ++ ((i + suc k) % 4294967296) ∷ [])
    ]
  ]
]

unfoldable pub with_table : Source → Option (List ℕ) → Option Source
with_table s none = none
with_table s (some table) =
    some (record s { line_offsets = some table; line_count = length table - 1 })

-- the capacity that the table begins with
abbrev pub initial_room : Source → ℕ
initial_room s = len s / 64 + 8

-- `ensure_line_offsets` on what is cached
unfoldable pub ensure_cached : (ℕ → Bool) → Source → Option (List ℕ) → Option Source
ensure_cached mem s (some table) = some s
ensure_cached mem s none =
    let room = initial_room s in
    if mem (room * 4) then with_table s (table_loop mem s (len s + 1) 0 room (0 ∷ [])) else none

-- `ensure_line_offsets`; `none` is the result -1, and leaves the source as it is
unfoldable pub ensure_line_offsets : (ℕ → Bool) → Source → Option Source
unfolding ensure_cached with_table table_loop
ensure_line_offsets mem s = ensure_cached mem s s.line_offsets

-- `kavak_source_init_with_newlines`; `none` is the result -1
unfoldable pub source_init_with_newlines : List ℕ → Option String → ℕ → Option Source
source_init_with_newlines bytes filename flags =
    if ltb uint32_max (length bytes)
    then none
    else some (record {
      bytes = bytes;
      filename = filename;
      newline_flags = normalized_newline_flags flags;
      line_offsets = none;
      line_count = 0;
    })

-- `kavak_source_init`
abbrev pub source_init : List ℕ → Option String → Option Source
source_init bytes filename = source_init_with_newlines bytes filename 0

-- `kavak_source_free`: the source afterwards
abbrev pub source_free : Source → Source
source_free s = record {
  bytes = [];
  filename = none;
  newline_flags = 0;
  line_offsets = none;
  line_count = 0;
}

-- `kavak_source_slice`: the bytes of the slice, or `none` for NULL
unfoldable pub source_slice : Source → Span → Option (List ℕ)
source_slice s span =
    if leb (len s) span.start
    then none
    else let avail = len s - span.start in
      some (take (if ltb span.len avail then span.len else avail) (drop span.start s.bytes))

-- The binary search of `kavak_source_pos`. A round makes `hi - lo` smaller.
pub pos_loop : ℕ → List ℕ → ℕ → ℕ → ℕ → ℕ
pos_loop zero offsets query lo hi = lo
pos_loop (suc fuel) offsets query lo hi =
    let mid = lo + (hi - lo) / 2 in
    elim (ltb (lo + 1) hi) [
      | false ↦ lo
      | true ↦ elim (leb (get_or offsets mid 0) query) [
        | true ↦ pos_loop fuel offsets query mid hi
        | false ↦ pos_loop fuel offsets query lo mid
      ]
    ]

-- line and column from the table
pos_in_table : Source → ℕ → Option (List ℕ) → ℕ × ℕ
unfolding pos_loop
pos_in_table s byte_pos none = (1, 1)
pos_in_table s byte_pos (some offsets) =
    if s.line_count == 0
    then (1, 1)
    else let query = if ltb (len s) byte_pos then len s else byte_pos in
      let lo = pos_loop s.line_count offsets query 0 s.line_count in
      ((lo + 1) % 4294967296, ((query - get_or offsets lo 0) % 4294967296 + 1) % 4294967296)

-- `source`, after the call of `ensure_line_offsets`
unfoldable pub or_same : Source → Option Source → Source
or_same s none = s
or_same s (some s') = s'

unfoldable pub ensured : (ℕ → Bool) → Source → Source
unfolding or_same
ensured mem s = or_same s (ensure_line_offsets mem s)

-- `kavak_source_pos`: line and column, counted from 1, and the source with its table cached
unfoldable pub source_pos : (ℕ → Bool) → Source → ℕ → (ℕ × ℕ) × Source
unfolding ensured pos_in_table
source_pos mem s byte_pos = let s' = ensured mem s in (pos_in_table s' byte_pos s'.line_offsets, s')
