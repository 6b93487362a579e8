-- ===== src/Intern.antt =====
-- The string intern pool: include/kavak.h section 18b and src/intern.c. A bucket holds nothing or the
-- address of a copy with its bytes; `cap` is the number of buckets. `mem n` says whether an allocation
-- of `n` bytes for the table succeeds, and `calloc` allocates the chunks of the arena. The probes run
-- on one turn for each bucket.
pub mod Found
mod Tests
use Prim.Native.Nat.{bit_and, bit_xor}
use kavak.Base.{
  bytes_eq, ℕ, zero, suc, ◌+◌, ◌-◌, ◌*◌, ◌/◌, ◌%◌, Bool, true, false, ◌&&◌, ◌||◌, not, List, [],
  ◌∷◌, Option, none, some, ltb, ◌==◌, if◌then◌else◌, length, get_elem?, uint32_max, add32,
}
use kavak.Arena.{Arena, arena_init, arena_alloc}

-- an entry of `keys` with that of `lens`
pub record Key : Type 0 where
  pub address : ℕ
  pub bytes : List ℕ

-- `KavakInternPool`
pub record InternPool : Type 0 where
  pub buckets : List (Option Key)
  pub count : ℕ
  pub strings : Arena

-- the field `cap`
abbrev pub table_cap : List (Option Key) → ℕ
table_cap buckets = length buckets

-- `fnv1a`, its loop from the hash so far
abbrev pub fnv1a_from : ℕ → List ℕ → ℕ
fnv1a_from h [] = h
fnv1a_from h (b ∷ bytes) = fnv1a_from ((bit_xor h b * 1099511628211) % 18446744073709551616) bytes

abbrev pub fnv1a : List ℕ → ℕ
fnv1a bytes = fnv1a_from 1469598103934665603 bytes

-- `keys[i] = key`
abbrev pub set_at : List (Option Key) → ℕ → Key → List (Option Key)
set_at [] i key = []
set_at (b ∷ buckets) zero key = some key ∷ buckets
set_at (b ∷ buckets) (suc i) key = b ∷ set_at buckets i key

-- empty buckets, as `calloc` makes them
abbrev pub empty_buckets : ℕ → List (Option Key)
empty_buckets zero = []
empty_buckets (suc n) = none ∷ empty_buckets n

-- `(i + 1u) & (cap - 1u)`
abbrev pub next_bucket : ℕ → ℕ → ℕ
next_bucket cap i = bit_and (add32 i 1) (cap - 1)

-- the probe of `intern_put`: the table afterwards
unfoldable pub put_probe : ℕ → List (Option Key) → Key → ℕ → List (Option Key)
put_probe zero buckets key i = buckets
put_probe (suc fuel) buckets key i = elim (get_elem? buckets i) [
  | none ↦ buckets
  | some bucket ↦ elim bucket [
    | none ↦ set_at buckets i key
    | some taken ↦ put_probe fuel buckets key (next_bucket (table_cap buckets) i)
  ]
]

-- `intern_put`
unfoldable pub intern_put : List (Option Key) → Key → ℕ → List (Option Key)
unfolding put_probe
intern_put buckets key hash =
    put_probe (table_cap buckets) buckets key (bit_and hash (table_cap buckets - 1) % 4294967296)

-- the loop of `intern_grow`
unfoldable pub rehash : List (Option Key) → List (Option Key) → List (Option Key)
rehash [] table = table
rehash (none ∷ buckets) table = rehash buckets table
rehash (some key ∷ buckets) table = rehash buckets (intern_put table key (fnv1a key.bytes))

-- `intern_grow`; `none` is the result -1
unfoldable pub intern_grow : (ℕ → Bool) → InternPool → Option InternPool
unfolding rehash
intern_grow mem pool =
    let cap = table_cap pool.buckets in
    if ltb (uint32_max / 2) cap
    then none
    else if not (mem (cap * 2 * 8)) || not (mem (cap * 2 * 4))
    then none
    else some (record pool { buckets = rehash pool.buckets (empty_buckets (cap * 2)) })

-- what the probe of `kavak_intern` ends with: the copy found, or the empty bucket for a new one
pub data Probe : Type 0 where
  found : Key → Probe
  vacant : ℕ → Probe

-- the probe of `kavak_intern`
unfoldable pub find_probe : ℕ → List (Option Key) → List ℕ → ℕ → Option Probe
find_probe zero buckets bytes i = none
find_probe (suc fuel) buckets bytes i = elim (get_elem? buckets i) [
  | none ↦ none
  | some bucket ↦ elim bucket [
    | none ↦ some (vacant i)
    | some key ↦ elim (length key.bytes == length bytes && bytes_eq key.bytes bytes) [
      | true ↦ some (found key)
      | false ↦ find_probe fuel buckets bytes (next_bucket (table_cap buckets) i)
    ]
  ]
]

-- the end of `kavak_intern`, on what the probe found: the address, or `none` for NULL, and the pool
unfoldable pub store_new :
    (ℕ → Option ℕ) → InternPool → List ℕ → Option Probe → Option ℕ × InternPool
store_new calloc pool bytes none = (none, pool)
store_new calloc pool bytes (some (found key)) = (some key.address, pool)
store_new calloc pool bytes (some (vacant i)) =
    let r = arena_alloc calloc pool.strings (length bytes + 1) in
    elim (r.0) [
      | none ↦ (none, record pool { strings = r.1 })
      | some copy ↦ (
        some copy,
        record pool {
          buckets = set_at pool.buckets i (record { address = copy; bytes = bytes });
          count = add32 pool.count 1;
          strings = r.1;
        },
      )
    ]

-- `kavak_intern` behind the growth
unfoldable pub intern_in : (ℕ → Option ℕ) → InternPool → List ℕ → Option ℕ × InternPool
unfolding store_new find_probe
intern_in calloc pool bytes =
    let cap = table_cap pool.buckets in
    store_new calloc pool bytes
      (find_probe cap pool.buckets bytes (bit_and (fnv1a bytes) (cap - 1) % 4294967296))

-- `s ? s : ""`
abbrev pub or_empty_text : Option (List ℕ) → List ℕ
or_empty_text none = []
or_empty_text (some s) = s

-- `kavak_intern`
unfoldable pub intern :
    (ℕ → Bool) → (ℕ → Option ℕ) → InternPool → Option (List ℕ) → Option ℕ × InternPool
unfolding intern_in
intern mem calloc pool s =
    let bytes = or_empty_text s in
    if ltb uint32_max (length bytes)
    then (none, pool)
    else if ltb (table_cap pool.buckets * 3) (add32 pool.count 1 * 4)
    then elim (intern_grow mem pool) [
      | none ↦ (none, pool)
      | some grown ↦ intern_in calloc grown bytes
    ]
    else intern_in calloc pool bytes

-- whether the arena has a tail
abbrev pub no_chunks : Arena → Bool
no_chunks a = elim (a.chunks) [ [] ↦ true | c ∷ older ↦ false ]

-- `KAVAK_INTERN_INITIAL_CAP`
abbrev pub initial_cap : ℕ
initial_cap = 16

-- `kavak_intern_pool_new`; `none` is NULL. The pool has 56 bytes on LP64.
unfoldable pub intern_pool_new : (ℕ → Bool) → (ℕ → Option ℕ) → Option InternPool
intern_pool_new mem calloc =
    let strings = arena_init calloc 0 in
    if not (mem 56)
    then none
    else if not (mem (initial_cap * 8)) || (not (mem (initial_cap * 4)) || no_chunks strings)
    then none
    else some (record { buckets = empty_buckets initial_cap; count = 0; strings = strings })
