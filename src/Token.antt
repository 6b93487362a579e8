-- ===== src/Token.antt =====
-- Tokens and the growable token vector: include/kavak.h section 6 and src/token.c. A vector is the
-- list of its first `count` items and its capacity; `mem n` says whether an allocation of `n` bytes
-- succeeds, and `none` is the result -1, on which the vector stays as it is.
pub mod Kind
pub mod Push
mod Tests
use kavak.Base.{
  ℕ, zero, suc, ◌+◌, ◌*◌, ◌/◌, Bool, true, false, List, [], ◌∷◌, ◌++◌, Option, none, some, ltb, leb,
  ◌==◌, if◌then◌else◌, length, uint32_max, size_max, add32,
}
use kavak.Span.{Span}

-- `KavakToken`
pub record Token : Type 0 where
  pub kind : ℕ
  pub span : Span
  pub v : ℕ

-- `KavakTokenVec`
pub record TokenVec : Type 0 where
  pub items : List Token
  pub cap : ℕ

-- the field `count`
abbrev pub count : TokenVec → ℕ
count t = length t.items

-- `kavak_token_vec_init`
abbrev pub token_vec_init : TokenVec
token_vec_init = record { items = []; cap = 0 }

-- `kavak_token_vec_free`: the vector afterwards
abbrev pub token_vec_free : TokenVec → TokenVec
token_vec_free t = token_vec_init

-- `sizeof(KavakToken)`
abbrev token_size : ℕ
token_size = 16

-- The loop of `kavak_token_vec_reserve`. The capacity doubles at most 32 times from 1.
pub reserve_cap : ℕ → ℕ → ℕ → ℕ
reserve_cap zero new_cap n = new_cap
reserve_cap (suc fuel) new_cap n = elim (ltb new_cap n) [
  | false ↦ new_cap
  | true ↦ elim (ltb (uint32_max / 2) new_cap) [
    | true ↦ n
    | false ↦ reserve_cap fuel (new_cap * 2) n
  ]
]

-- `kavak_token_vec_reserve`
unfoldable pub token_vec_reserve : (ℕ → Bool) → TokenVec → ℕ → Option TokenVec
token_vec_reserve mem t n =
    if leb n t.cap
    then some t
    else let new_cap = reserve_cap 32 (if t.cap == 0 then 16 else t.cap) n in
      if ltb (size_max / token_size) new_cap
      then none
      else if mem (new_cap * token_size)
      then some (record t { cap = new_cap })
      else none

push_onto : Token → Option TokenVec → Option TokenVec
push_onto token none = none
push_onto token (some t) = some (record t { items = t.items ++ token ∷ [] })

-- `kavak_token_vec_push`
unfoldable pub token_vec_push : (ℕ → Bool) → TokenVec → Token → Option TokenVec
unfolding push_onto
token_vec_push mem t token =
    if count t == t.cap
    then if count t == uint32_max
      then none
      else push_onto token (token_vec_reserve mem t (add32 (count t) 1))
    else push_onto token (some t)
