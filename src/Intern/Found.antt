-- ===== src/Intern/Found.antt =====
-- What `kavak_intern` returns.
use Prim.Native.Nat.{bit_and}
use kavak.Base.{
  bytes_eq, bytes_eq_sound, and_right, ℕ, zero, suc, ◌+◌, ◌*◌, ◌%◌, ◌-◌, ◌≡◌, refl, ap, ◌∙◌, inl,
  inr, Bool, ◌&&◌, List, [], ◌∷◌, Option, none, some, ltb, ◌==◌, length, get_elem?, uint32_max,
  add32, arith, Bool-cases, Option-cases,
}
use kavak.Arena.{arena_alloc}
use kavak.Intern.{
  Key, InternPool, table_cap, fnv1a, set_at, next_bucket, intern_grow, Probe, found, vacant,
  find_probe, store_new, intern_in, intern, or_empty_text,
}

-- The table holds the bytes at that address.
abbrev pub Holds : List (Option Key) → ℕ → List ℕ → Type 0
Holds buckets p bytes =
    (i : ℕ) × (key : Key) × (get_elem? buckets i ≡ some (some key))
    × (key.address ≡ p)
    × (key.bytes ≡ bytes)

-- What a probe promises.
abbrev pub Probed : List (Option Key) → List ℕ → Option Probe → Type 0
Probed buckets bytes none = Unit
Probed buckets bytes (some (found key)) = Holds buckets key.address bytes
Probed buckets bytes (some (vacant i)) = get_elem? buckets i ≡ some none

find_probe-Probed :
    (fuel : ℕ) (buckets : List (Option Key)) (bytes : List ℕ) (i : ℕ)
    → Probed buckets bytes (find_probe fuel buckets bytes i)
unfolding find_probe
find_probe-Probed zero buckets bytes i = tt
find_probe-Probed (suc fuel) buckets bytes i = elim (Option-cases (get_elem? buckets i)) [
  | inl out ↦ rw (out, find_probe) tt
  | inr (bucket, at_) ↦ elim (Option-cases bucket) [
    | inl empty ↦ let here = at_ ∙ ap some empty in rw (here, find_probe) here
    | inr (key, taken) ↦
        let here = at_ ∙ ap some taken in
        elim (Bool-cases (length key.bytes == length bytes && bytes_eq key.bytes bytes)) [
          | inl hit ↦
              rw (here, find_probe, hit)
                (
                  i,
                  key,
                  here,
                  refl,
                  bytes_eq_sound key.bytes bytes
                      (and_right (length key.bytes == length bytes) (bytes_eq key.bytes bytes) hit),
                )
          | inr miss ↦
              rw (here, find_probe, miss)
                (find_probe-Probed fuel buckets bytes (next_bucket (table_cap buckets) i))
        ]
  ]
]

set_at-get :
    (buckets : List (Option Key)) (i : ℕ) (key : Key)
    → get_elem? buckets i ≡ some none
    → get_elem? (set_at buckets i key) i ≡ some (some key)
set_at-get [] i key h = absurd (ground (arith, h))
set_at-get (b ∷ buckets) zero key h = refl
set_at-get (b ∷ buckets) (suc i) key h = set_at-get buckets i key h

-- What a call promises of its result and of the pool afterwards.
abbrev pub IsHeld : List ℕ → List (Option Key) → Option ℕ → Type 0
IsHeld bytes buckets none = Unit
IsHeld bytes buckets (some p) = Holds buckets p bytes

store_new-IsHeld :
    (calloc : ℕ → Option ℕ) (pool : InternPool) (bytes : List ℕ) (probe : Option Probe)
    → Probed pool.buckets bytes probe
    → let r = store_new calloc pool bytes probe in IsHeld bytes r.1.buckets r.0
unfolding store_new
store_new-IsHeld calloc pool bytes none h = tt
store_new-IsHeld calloc pool bytes (some (found key)) h = h
store_new-IsHeld calloc pool bytes (some (vacant i)) h =
    elim (Option-cases (arena_alloc calloc pool.strings (length bytes + 1)).0) [
      | inl out ↦ rw (out, store_new) tt
      | inr (copy, got) ↦
          let key : Key = record { address = copy; bytes = bytes } in
          rw (got, store_new) (i, key, set_at-get pool.buckets i key h, refl, refl)
    ]

intern_in-IsHeld :
    (calloc : ℕ → Option ℕ) (pool : InternPool) (bytes : List ℕ)
    → let r = intern_in calloc pool bytes in IsHeld bytes r.1.buckets r.0
unfolding intern_in
intern_in-IsHeld calloc pool bytes =
    let cap_ = table_cap pool.buckets in
    let start = bit_and (fnv1a bytes) (cap_ - 1) % 4294967296 in
    store_new-IsHeld calloc pool bytes (find_probe cap_ pool.buckets bytes start)
      (find_probe-Probed cap_ pool.buckets bytes start)

-- An address that `kavak_intern` returns is in the table with exactly the bytes that were asked for, found
-- there or just copied, whether or not the table has grown; NULL for the text is the empty text.
pub intern-IsHeld :
    (mem : ℕ → Bool) (calloc : ℕ → Option ℕ) (pool : InternPool) (s : Option (List ℕ))
    → let r = intern mem calloc pool s in IsHeld (or_empty_text s) r.1.buckets r.0
unfolding intern
intern-IsHeld mem calloc pool s =
    let bytes = or_empty_text s in
    elim (Bool-cases (ltb uint32_max (length bytes))) [
      | inl long ↦ rw (long, intern) tt
      | inr fits ↦ elim (Bool-cases (ltb (table_cap pool.buckets * 3) (add32 pool.count 1 * 4))) [
        | inl full ↦ elim (Option-cases (intern_grow mem pool)) [
          | inl out ↦ rw (fits, intern, full, out) tt
          | inr (grown, got) ↦ rw (fits, intern, full, got) (intern_in-IsHeld calloc grown bytes)
        ]
        | inr room ↦ rw (fits, intern, room) (intern_in-IsHeld calloc pool bytes)
      ]
    ]
