-- ===== src/Token/Tests.antt =====
-- Runs of the token vector.
use kavak.Base.{ℕ, ◌≡◌, refl, Bool, true, false, [], ◌∷◌, some, none, arith}
use kavak.Span.{span_make}
use kavak.Token.{Token, token_vec_init, token_vec_reserve, token_vec_push, reserve_cap}
use kavak.Token.Kind
use kavak.Token.Push.{Pushed, token_vec_push-Pushed}

abbrev plenty : ℕ → Bool
plenty n = true

abbrev name : Token
name = record { kind = Kind.ident; span = span_make 0 3; v = 0 }

first_push :
    token_vec_push plenty token_vec_init name ≡ some (record { items = name ∷ []; cap = 16 })
unfolding token_vec_push token_vec_reserve reserve_cap
first_push = refl

reserve_refused : token_vec_reserve (λ n. false) token_vec_init 1 ≡ none
unfolding token_vec_reserve reserve_cap
reserve_refused = refl

token_vec_push-Pushed_example :
    Pushed plenty token_vec_init name (token_vec_push plenty token_vec_init name)
token_vec_push-Pushed_example = token_vec_push-Pushed plenty token_vec_init name (omega arith)
