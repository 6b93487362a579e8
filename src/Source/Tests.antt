-- ===== src/Source/Tests.antt =====
-- Runs of the line table.
use kavak.Base.{ℕ, ◌≡◌, refl, Bool, true, [], ◌∷◌, none, arith, has_bit}
use kavak.Source.{
  Source, source_pos, ensure_line_offsets, table_room, source_newline_len, newline_at, lf_follows,
  ensured,
}
use kavak.Source.Lines.{IsCached, ensured-IsCached}
use kavak.Source.Bounds.{checked_ensure, within, checked_ensure-ensure_line_offsets}
use kavak.Source.Position.{IsPosition, source_pos-IsPosition}

abbrev plenty : ℕ → Bool
plenty n = true

-- three lines, the first of them ended by CR LF
abbrev text : Source
text = record {
  bytes = b'a' ∷ b'\r' ∷ b'\n' ∷ b'b' ∷ b'\n' ∷ b'c' ∷ [];
  filename = none;
  newline_flags = 7;
  line_offsets = none;
  line_count = 0;
}

pos_runs : (source_pos plenty text 4).0 ≡ (2, 2)
unfolding source_pos ensured ensure_line_offsets table_room source_newline_len newline_at lf_follows
    has_bit
pos_runs = refl

ensured-IsCached_example : IsCached (ensured plenty text) (ensured plenty text).line_offsets
ensured-IsCached_example = ensured-IsCached plenty text (omega arith) tt

checked_ensure-ensure_line_offsets_example :
    checked_ensure plenty text none ≡ within (ensure_line_offsets plenty text)
checked_ensure-ensure_line_offsets_example = checked_ensure-ensure_line_offsets plenty text

source_pos-IsPosition_example : IsPosition text 4 (source_pos plenty text 4).0
source_pos-IsPosition_example = source_pos-IsPosition plenty text 4 (λ n. refl) (omega arith) tt
