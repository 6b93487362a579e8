-- ===== src/Intern/Tests.antt =====
-- Runs of the intern pool.
use kavak.Base.{ℕ, Bool, true, [], ◌∷◌, Option, some, none, ltb, if◌then◌else◌}
use kavak.Arena.{arena_init}
use kavak.Intern.{InternPool, empty_buckets, intern}
use kavak.Intern.Found.{IsHeld, intern-IsHeld}

abbrev plenty : ℕ → Bool
plenty n = true

abbrev pages : ℕ → Option ℕ
pages n = if ltb 8192 n then none else some 4096

abbrev fresh_pool : InternPool
fresh_pool = record { buckets = empty_buckets 16; count = 0; strings = arena_init pages 0 }

intern-IsHeld_example :
    IsHeld
      (108 ∷ 101 ∷ 116 ∷ [])
      (intern plenty pages fresh_pool (some (108 ∷ 101 ∷ 116 ∷ []))).1.buckets
      (intern plenty pages fresh_pool (some (108 ∷ 101 ∷ 116 ∷ []))).0
intern-IsHeld_example = intern-IsHeld plenty pages fresh_pool (some (108 ∷ 101 ∷ 116 ∷ []))
