-- ===== src/Sema/Overload.antt =====
-- `kavak_sema_lookup_all` and the overload choice on top of it. A visitor is a function on its `user`
-- state that says whether to stop; a score is given with the argument types it looks at.
use kavak.Base.{
  ℕ, ◌≡◌, refl, sym, ap, ◌∙◌, inl, inr, Bool, true, false, List, [], ◌∷◌, ◌++◌, Option, none, some,
  if◌then◌else◌, add32, Bool-cases, suc, ◌+◌, ◌%◌, ◌<◌, arith,
}
use kavak.Sema.{Symbol, Scope, Sema, name_eq, name_len_or_strlen, lookup}
use kavak.Sema.Lookup.{in_reach, matches, first, lookup-first}

-- What a walk has done: `visited`, the visitor's state, and whether the visitor stopped it.
pub record Walk {ℓ} (S : Type ℓ) : Type ℓ where
  pub visited : ℕ
  pub user : S
  pub stopped : Bool

module _ {ℓ} {S : Type ℓ} (visit : Symbol → S → Bool × S) (name : List ℕ) (len : ℕ) where
  -- the counted call of the visitor
  abbrev visit_hit : Symbol → Walk S → Walk S
  visit_hit symbol w = record {
    visited = add32 w.visited 1;
    user = (visit symbol w.user).1;
    stopped = (visit symbol w.user).0;
  }

  -- one symbol of the inner loop of `kavak_sema_lookup_all`
  unfoldable pub visit_one : Symbol → Walk S → Walk S
  visit_one symbol w = if name_eq symbol name len then visit_hit symbol w else w

  -- the inner loop
  unfoldable pub visit_scope : List Symbol → Walk S → Walk S
  visit_scope [] w = w
  visit_scope (symbol ∷ symbols) w =
      if w.stopped then w else visit_scope symbols (visit_one symbol w)

  -- the outer loop
  unfoldable pub visit_chain : List Scope → Walk S → Walk S
  visit_chain [] w = w
  visit_chain (scope ∷ outer) w =
      if w.stopped then w else visit_chain outer (visit_scope scope.symbols w)

  -- A walk over a list of symbols that all have the name.
  unfoldable pub run_visitor : List Symbol → Walk S → Walk S
  run_visitor [] w = w
  run_visitor (symbol ∷ symbols) w =
      if w.stopped then w else run_visitor symbols (visit_hit symbol w)

  stopped_scope :
      (symbols : List Symbol) (w : Walk S) → w.stopped ≡ true → visit_scope symbols w ≡ w
  unfolding visit_scope
  stopped_scope [] w e = refl
  stopped_scope (s ∷ ss) w e = ap (λ b. if b then w else visit_scope ss (visit_one s w)) e

  stopped_run : (symbols : List Symbol) (w : Walk S) → w.stopped ≡ true → run_visitor symbols w ≡ w
  unfolding run_visitor visit_one
  stopped_run [] w e = refl
  stopped_run (s ∷ ss) w e = ap (λ b. if b then w else run_visitor ss (visit_hit s w)) e

  visit_scope-append :
      (xs ys : List Symbol) (w : Walk S)
      → visit_scope (xs ++ ys) w ≡ visit_scope ys (visit_scope xs w)
  unfolding visit_scope
  visit_scope-append [] ys w = refl
  visit_scope-append (x ∷ xs) ys w = elim (Bool-cases (w.stopped)) [
    | inl stop ↦
        stopped_scope (x ∷ (xs ++ ys)) w stop
        ∙ sym (stopped_scope ys w stop)
        ∙ ap (visit_scope ys) (sym (stopped_scope (x ∷ xs) w stop))
    | inr on ↦
        ap (λ b. if b then w else visit_scope (xs ++ ys) (visit_one x w)) on
        ∙ visit_scope-append xs ys (visit_one x w)
        ∙ ap (λ b. visit_scope ys (if b then w else visit_scope xs (visit_one x w))) (sym on)
  ]

  visit_chain-in_reach :
      (scopes : List Scope) (w : Walk S) → visit_chain scopes w ≡ visit_scope (in_reach scopes) w
  unfolding visit_chain in_reach visit_scope
  visit_chain-in_reach [] w = refl
  visit_chain-in_reach (scope ∷ outer) w = elim (Bool-cases (w.stopped)) [
    | inl stop ↦
        ap (λ b. if b then w else visit_chain outer (visit_scope scope.symbols w)) stop
        ∙ sym (stopped_scope (scope.symbols ++ in_reach outer) w stop)
    | inr on ↦
        ap (λ b. if b then w else visit_chain outer (visit_scope scope.symbols w)) on
        ∙ visit_chain-in_reach outer (visit_scope scope.symbols w)
        ∙ sym (visit_scope-append scope.symbols (in_reach outer) w)
  ]

  visit_scope-matches :
      (symbols : List Symbol) (w : Walk S)
      → visit_scope symbols w ≡ run_visitor (matches symbols name len) w
  unfolding visit_scope visit_one matches run_visitor
  visit_scope-matches [] w = refl
  visit_scope-matches (s ∷ ss) w = elim (Bool-cases (name_eq s name len)) [
    | inl hit ↦ rw hit (elim (Bool-cases (w.stopped)) [
      | inl stop ↦
          ap (λ b. if b then w else visit_scope ss (visit_hit s w)) stop
          ∙ sym (ap (λ b. if b then w else run_visitor (matches ss name len) (visit_hit s w)) stop)
      | inr on ↦
          ap (λ b. if b then w else visit_scope ss (visit_hit s w)) on
          ∙ visit_scope-matches ss (visit_hit s w)
          ∙ sym (ap (λ b. if b then w else run_visitor (matches ss name len) (visit_hit s w)) on)
    ])
    | inr miss ↦ rw miss (elim (Bool-cases (w.stopped)) [
      | inl stop ↦
          ap (λ b. if b then w else visit_scope ss w) stop
          ∙ sym (stopped_run (matches ss name len) w stop)
      | inr on ↦ ap (λ b. if b then w else visit_scope ss w) on ∙ visit_scope-matches ss w
    ])
  ]

-- `kavak_sema_lookup_all`: the result, and the visitor's state afterwards
unfoldable pub lookup_all {ℓ} :
    {S : Type ℓ} → Sema → Option (List ℕ) → ℕ → (Symbol → S → Bool × S) → S → ℕ × S
unfolding visit_chain
lookup_all sema none name_len visit user = (0, user)
lookup_all sema (some name) name_len visit user =
    let w =
      visit_chain visit name (name_len_or_strlen (some name) name_len) sema.scopes
        (record { visited = 0; user = user; stopped = false }) in
    (w.visited, w.user)

-- The walk is a run of the visitor over the symbols with the name, in lookup order.
pub lookup_all-run_visitor {ℓ} :
    {S : Type ℓ} (sema : Sema) (name : List ℕ) (name_len : ℕ) (visit : Symbol → S → Bool × S)
    (user : S)
    → let len = name_len_or_strlen (some name) name_len in
      let w =
        run_visitor visit name len
          (matches (in_reach sema.scopes) name len)
          (record { visited = 0; user = user; stopped = false }) in
      lookup_all sema (some name) name_len visit user ≡ (w.visited, w.user)
unfolding lookup_all
lookup_all-run_visitor {S = S} sema name name_len visit user =
    let len = name_len_or_strlen (some name) name_len in
    let start : Walk S = record { visited = 0; user = user; stopped = false } in
    ap (λ w. (w.visited, w.user))
      (visit_chain-in_reach visit name len sema.scopes start
        ∙ visit_scope-matches visit name len (in_reach sema.scopes) start)

-- The visits of a list: of each symbol in order, with the state that the visit before it left, up to one
-- that stops them. The number counts the visits; the last index is the state behind them.
pub data Visits {ℓ} {S : Type ℓ} (visit : Symbol → S → Bool × S)
    : List Symbol → S → ℕ → S → Type ℓ where
  nothing_left : {user : S} → Visits visit [] user 0 user
  stops :
      {symbol : Symbol} {symbols : List Symbol} {user user' : S}
      → visit symbol user ≡ (true, user')
      → Visits visit (symbol ∷ symbols) user 1 user'
  goes_on :
      {symbol : Symbol} {symbols : List Symbol} {user user' last : S} {n : ℕ}
      → visit symbol user ≡ (false, user')
      → Visits visit symbols user' n last
      → Visits visit (symbol ∷ symbols) user (suc n) last

-- A walk that has ended from `visited` visits on.
abbrev Visited {ℓ} : {S : Type ℓ} → (Symbol → S → Bool × S) → List Symbol → S → ℕ → Walk S → Type ℓ
Visited visit symbols user visited w =
    (n : ℕ) × Visits visit symbols user n w.user × (w.visited ≡ (visited + n) % 4294967296)

module _ {ℓ} {S : Type ℓ} (visit : Symbol → S → Bool × S) (name : List ℕ) (len : ℕ) where
  run_visitor-Visited :
      (symbols : List Symbol) (visited : ℕ) (user : S)
      → visited < 4294967296
      → Visited visit symbols user visited (
          run_visitor visit name len symbols
            (record { visited = visited; user = user; stopped = false }))
  unfolding run_visitor
  run_visitor-Visited [] visited user small = (0, nothing_left, omega (arith, small))
  run_visitor-Visited (s ∷ ss) visited user small =
      let hit =
        visit_hit visit name len s (record { visited = visited; user = user; stopped = false }) in
      elim (Bool-cases (visit s user).0) [
        | inl stop ↦
            rw (stopped_run visit name len ss hit stop)
              (1, stops (ap (λ b. (b, (visit s user).1)) stop), refl)
        | inr on ↦
            let (n, visits, count) =
              run_visitor-Visited ss (add32 visited 1) (visit s user).1 (omega arith) in
            rw on (suc n, goes_on (ap (λ b. (b, (visit s user).1)) on) visits, omega (arith, count))
      ]

-- What `kavak_sema_lookup` finds, and the visits of `kavak_sema_lookup_all` with their count.
abbrev pub LookedUp {ℓ} :
    {S : Type ℓ} → (Symbol → S → Bool × S) → List Symbol → S → Option Symbol → ℕ × S → Type ℓ
LookedUp visit symbols user found r =
    (found ≡ first symbols) × ((n : ℕ) × Visits visit symbols user n r.1 × (r.0 ≡ n % 4294967296))

-- `kavak_sema_lookup_all` runs the visitor on the symbols in reach that have the name, the innermost scope
-- and in it the newest first, each on the state that the one before left, up to the first where the
-- visitor asks to stop, and returns how many it ran on, modulo 2^32. The first of them is the symbol that
-- `kavak_sema_lookup` returns, which is NULL where there is none.
pub lookup_all-Visits {ℓ} :
    {S : Type ℓ} (sema : Sema) (name : List ℕ) (name_len : ℕ) (visit : Symbol → S → Bool × S)
    (user : S)
    → LookedUp visit
        (matches (in_reach sema.scopes) name (name_len_or_strlen (some name) name_len))
        user
        (lookup sema (some name) name_len)
        (lookup_all sema (some name) name_len visit user)
lookup_all-Visits {S = S} sema name name_len visit user =
    let len = name_len_or_strlen (some name) name_len in
    let symbols = matches (in_reach sema.scopes) name len in
    let (n, visits, count) = run_visitor-Visited visit name len symbols 0 user (omega arith) in
    (
      lookup-first sema name name_len,
      rw (lookup_all-run_visitor sema name name_len visit user) (n, visits, omega (arith, count)),
    )
