-- ===== src/Parser/Brackets.antt =====
-- The bracket depth of error recovery in src/parser.c, over brackets that are paired up.
use kavak.Base.{
  ℕ, suc, ◌+◌, ◌<◌, ◌≡◌, refl, ap, ◌∙◌, true, false, List, [], ◌∷◌, ◌++◌, uint32_max, arith,
}
use kavak.Token.{Token}
use kavak.Parser.Recovery.{opens, closes, recovery_update_depth, depth_after}

-- Tokens whose brackets are paired up, nested at most `n` deep.
pub data Balanced : ℕ → List Token → Type 0 where
  done : {n : ℕ} → Balanced n []
  plain :
      {n : ℕ} (t : Token) {ts : List Token}
      → opens t ≡ false
      → closes t ≡ false
      → Balanced n ts
      → Balanced n (t ∷ ts)
  group :
      {n : ℕ} (first last : Token) {inner ts : List Token}
      → opens first ≡ true
      → Balanced n inner
      → closes last ≡ true
      → Balanced (suc n) ts
      → Balanced (suc n) (first ∷ inner ++ last ∷ ts)

depth_after-append :
    (depth : ℕ) (xs ys : List Token)
    → depth_after depth (xs ++ ys) ≡ depth_after (depth_after depth xs) ys
depth_after-append depth [] ys = refl
depth_after-append depth (x ∷ xs) ys = depth_after-append (recovery_update_depth x depth) xs ys

update_plain :
    (t : Token) (depth : ℕ)
    → opens t ≡ false
    → closes t ≡ false
    → recovery_update_depth t depth ≡ depth
unfolding recovery_update_depth
update_plain t depth o c = rw (o, c) refl

update_open :
    (t : Token) (depth : ℕ)
    → opens t ≡ true
    → depth < uint32_max
    → recovery_update_depth t depth ≡ depth + 1
unfolding recovery_update_depth
update_open t depth o h = rw o (ground (arith, h))

close_opens : (t : Token) → closes t ≡ true → opens t ≡ false
close_opens t c = ground (arith, c)

update_close :
    (t : Token) (depth : ℕ)
    → closes t ≡ true
    → depth + 1 < uint32_max
    → recovery_update_depth t (depth + 1) ≡ depth
unfolding recovery_update_depth
update_close t depth c h = rw (close_opens t c, c) (ground (arith, h))

-- Over brackets that are paired up, and nested less deep than the counter goes, the depth of a recovery
-- is after them what it was before: a recovery leaves every group that it enters.
pub depth_after-Balanced :
    {n : ℕ} {ts : List Token} (depth : ℕ)
    → Balanced n ts
    → depth + n < uint32_max
    → depth_after depth ts ≡ depth
depth_after-Balanced depth done h = refl
depth_after-Balanced depth (plain t o c b) h =
    rw (update_plain t depth o c) (depth_after-Balanced depth b h)
depth_after-Balanced depth (group {n} first last {inner} {ts} o b c more) h =
    let up = update_open first depth o (omega (arith, h)) in
    let inside = depth_after-Balanced (depth + 1) b (omega (arith, h)) in
    let down = update_close last depth c (omega (arith, h)) in
    ap (λ d. depth_after d (inner ++ last ∷ ts)) up
    ∙ depth_after-append (depth + 1) inner (last ∷ ts)
    ∙ ap (λ d. depth_after d (last ∷ ts)) inside
    ∙ ap (λ d. depth_after d ts) down
    ∙ depth_after-Balanced depth more h
