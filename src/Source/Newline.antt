-- ===== src/Source/Newline.antt =====
-- Bounds on newline sequences.
use kavak.Base.{
  ℕ, suc, ◌+◌, drop, length-drop, ◌≤◌, ◌≡◌, List, [], ◌∷◌, arith, length, refl, true, ◌<◌, Option,
  none, some,
}
use kavak.Source.{
  Source, normalized_newline_flags, len, lf_follows, unicode_newline, newline_at,
  source_newline_len,
}
use kavak.Utf8.{utf8_decode}
use kavak.Utf8.Decode.{decode_bounds}

unicode_newline-le :
    (bs : List ℕ) (o : Option (ℕ × ℕ))
    → utf8_decode bs ≡ o
    → (unicode_newline o ≤ length bs) × (unicode_newline o ≤ 4)
unfolding unicode_newline
unicode_newline-le bs none e = omega arith
unicode_newline-le bs (some (cp, n)) e = ground (arith, decode_bounds bs e)

lf_follows-pos : (bs : List ℕ) → lf_follows bs ≡ true → 0 < length bs
unfolding lf_follows
lf_follows-pos [] e = ground arith
lf_follows-pos (c ∷ bs) e = omega arith

-- A newline sequence lies within the bytes and has at most four of them.
pub newline_at-le :
    (flags : ℕ) (bs : List ℕ) → (newline_at flags bs ≤ length bs) × (newline_at flags bs ≤ 4)
unfolding newline_at
newline_at-le flags [] = ground arith
newline_at-le flags (c ∷ bs) =
    ground (arith, lf_follows-pos bs, unicode_newline-le (c ∷ bs) (utf8_decode (c ∷ bs)) refl)

-- A newline found in a source ends within the source.
pub newline_len-le :
    (s : Source) (i flags : ℕ) {k : ℕ} → source_newline_len s i flags ≡ suc k → i + suc k ≤ len s
unfolding source_newline_len
newline_len-le s i flags e =
    ground (
      arith,
      newline_at-le (normalized_newline_flags flags) (drop i s.bytes),
      length-drop i s.bytes,
    )
