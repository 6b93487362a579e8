-- ===== src/Xid.antt =====
-- src/unicode_xid.c: the search in the XID tables, and the identifier predicates of src/utf8.c
-- that stand on it. `Start` and `Continue` hold the tables.
pub mod Start
pub mod Continue
pub mod Search
pub mod Tables
mod Tests
use kavak.Base.{
  ℕ, zero, suc, ◌+◌, ◌-◌, ◌/◌, Bool, true, false, List, ltb, if◌then◌else◌, length, get_or,
}
use kavak.Utf8.{ascii_is_ident_start, ascii_is_ident_cont}
use Start.{xid_start_ranges}
use Continue.{xid_continue_ranges}

-- `r[i]`
abbrev pub range_at : List (ℕ × ℕ) → ℕ → ℕ × ℕ
range_at r i = get_or r i (0, 0)

-- The loop of `in_ranges` over `[lo, hi)`. A round makes `hi - lo` smaller, so that many rounds
-- are enough.
pub in_ranges_loop : ℕ → List (ℕ × ℕ) → ℕ → ℕ → ℕ → Bool
in_ranges_loop zero r cp lo hi = false
in_ranges_loop (suc fuel) r cp lo hi =
    let mid = lo + (hi - lo) / 2 in
    elim (ltb lo hi) [
      | false ↦ false
      | true ↦ elim (ltb cp (range_at r mid).0) [
        | true ↦ in_ranges_loop fuel r cp lo mid
        | false ↦ elim (ltb (range_at r mid).1 cp) [
          | true ↦ in_ranges_loop fuel r cp (mid + 1) hi
          | false ↦ true
        ]
      ]
    ]

-- `in_ranges`
unfoldable pub in_ranges : List (ℕ × ℕ) → ℕ → Bool
unfolding in_ranges_loop
in_ranges r cp = in_ranges_loop (length r + 1) r cp 0 (length r)

-- `kavak_xid_is_start`
unfoldable pub xid_is_start : ℕ → Bool
unfolding in_ranges xid_start_ranges
xid_is_start cp = in_ranges xid_start_ranges cp

-- `kavak_xid_is_continue`
unfoldable pub xid_is_continue : ℕ → Bool
unfolding in_ranges xid_continue_ranges
xid_is_continue cp = in_ranges xid_continue_ranges cp

-- `kavak_unicode_is_ident_start`
unfoldable pub unicode_is_ident_start : ℕ → Bool
unicode_is_ident_start cp = if ltb cp 0x80 then ascii_is_ident_start cp else xid_is_start cp

-- `kavak_unicode_is_ident_cont`
unfoldable pub unicode_is_ident_cont : ℕ → Bool
unicode_is_ident_cont cp = if ltb cp 0x80 then ascii_is_ident_cont cp else xid_is_continue cp
