-- ===== src/Xid/Tests.antt =====
-- Runs of the table search.
use kavak.Base.{ℕ, ◌≡◌, ◌↔◌, refl, true, false, List, [], ◌∷◌, arith}
use kavak.Xid.{in_ranges, xid_is_start, unicode_is_ident_start, unicode_is_ident_cont}
use kavak.Xid.Start.{xid_start_ranges}
use kavak.Xid.Search.{Covers, in_ranges-Covers}
use kavak.Xid.Tables.{xid_is_start-Covers, unicode_start_continues}

abbrev small_table : List (ℕ × ℕ)
small_table = (2, 4) ∷ (7, 7) ∷ (10, 20) ∷ []

-- a Greek letter starts an identifier, the multiplication sign does not
greek : xid_is_start 0x3B1 ≡ true
unfolding xid_is_start
greek = refl

times : xid_is_start 0xD7 ≡ false
unfolding xid_is_start
times = refl

in_ranges-Covers_example : (in_ranges small_table 7 ≡ true) ↔ Covers small_table 7
in_ranges-Covers_example = in_ranges-Covers small_table 7 0 (omega arith)

xid_is_start-Covers_example : (xid_is_start 0x3B1 ≡ true) ↔ Covers xid_start_ranges 0x3B1
xid_is_start-Covers_example = xid_is_start-Covers 0x3B1

unicode_start_continues_example : unicode_is_ident_cont 0x3B1 ≡ true
unfolding unicode_is_ident_start xid_is_start
unicode_start_continues_example = unicode_start_continues 0x3B1 refl
