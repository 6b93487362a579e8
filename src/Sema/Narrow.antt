-- ===== src/Sema/Narrow.antt =====
-- Narrowing: bindings of narrowed symbols, in a scope of their own or in the current one. The body
-- of `kavak_sema_with_narrowings` and the language's hook are parameters.
use Prim.Native.Nat.{bit_or}
use kavak.Base.{
  ℕ, zero, suc, ◌*◌, ◌/◌, ◌≡◌, refl, ◌∙◌, inl, inr, Bool, true, false, not, ◌||◌, List, [], ◌∷◌,
  Option, none, some, if◌then◌else◌, ◌==◌, ltb, take, size_max, ℤ, pos, negsuc, arith, Bool-cases,
  Option-cases,
}
use kavak.Diag.{DiagVec}
use kavak.Sema.Lookup.{lookup-bind, name_eq_self}
use kavak.Sema.{
  name_eq, grow_symbols, Symbol, Scope, Sema, sym_value, flag_narrowed, symbol_size,
  name_len_or_strlen, bind_in, bind, lookup, push_scope, pop_scope, tail_scopes,
}

-- The empty symbol that `kavak_sema_bind_narrowing` starts from, `(KavakSymbol){0}`
abbrev pub empty_symbol : Symbol
empty_symbol = record {
  name = none;
  name_len = 0;
  kind = 0;
  flags = 0;
  decl = none;
  type = none;
  user = none;
}

-- The marks of a narrowed symbol: its flag, and a kind where it has none.
unfoldable pub narrowed : Symbol → Symbol
narrowed symbol = record symbol {
  flags = bit_or symbol.flags flag_narrowed;
  kind = if symbol.kind == 0 then sym_value else symbol.kind;
}

-- `base ? *base : (KavakSymbol){0}`
abbrev pub or_empty : Option Symbol → Symbol
or_empty none = empty_symbol
or_empty (some symbol) = symbol

-- `kavak_sema_bind_narrowing`, for a type that is not NULL; `none` is the result -1
unfoldable pub bind_narrowing : (ℕ → Bool) → Sema → Option (List ℕ) → ℕ → Option ℕ → Option Sema
bind_narrowing mem sema name name_len none = none
bind_narrowing mem sema name name_len (some type) =
    bind mem sema (record (narrowed (or_empty (lookup sema name name_len))) {
      name = name;
      name_len = name_len_or_strlen name name_len;
      type = some type;
    })

-- whether a pointer is NULL
abbrev pub is_null {ℓ} : {A : Type ℓ} → Option A → Bool
is_null none = true
is_null (some x) = false

-- `kavak_sema_apply_narrowings`: the result, and the state afterwards
unfoldable pub apply_narrowings : (ℕ → Bool) → Sema → List Symbol → ℤ × Sema
apply_narrowings mem sema [] = (pos 0, sema)
apply_narrowings mem sema (symbol ∷ symbols) =
    if is_null symbol.name || is_null symbol.type
    then (negsuc 0, sema)
    else elim (bind mem sema (narrowed symbol)) [
      | none ↦ (negsuc 0, sema)
      | some sema' ↦ apply_narrowings mem sema' symbols
    ]

-- the body, after the narrowings have given `rc`
unfoldable pub run_body : (Sema → ℤ × Sema) → ℤ × Sema → ℤ × Sema
run_body body (pos zero, sema) = body sema
run_body body (pos (suc n), sema) = (pos (suc n), sema)
run_body body (negsuc n, sema) = (negsuc n, sema)

-- `kavak_sema_with_narrowings`
unfoldable pub with_narrowings : (ℕ → Bool) → Sema → List Symbol → (Sema → ℤ × Sema) → ℤ × Sema
unfolding run_body apply_narrowings
with_narrowings mem sema symbols body = elim (push_scope mem sema) [
  | none ↦ (negsuc 0, sema)
  | some inner ↦ let r = run_body body (apply_narrowings mem inner symbols) in (r.0, pop_scope r.1)
]

-- `branch_narrowings` with the language's hook `narrow_for_branch` at a condition and a branch: for
-- a room of so many items it gives the count that it reports and the items as it leaves them. `none`
-- is the result -1.
unfoldable pub branch_narrowings : (ℕ → Bool) → Option (ℕ → ℕ × List Symbol) → Option (List Symbol)
branch_narrowings mem none = some []
branch_narrowings mem (some hook) =
    let count = (hook 0).0 in
    if count == 0
    then some []
    else if ltb (size_max / symbol_size) count
    then none
    else if not (mem (count * symbol_size))
    then none
    else let filled = (hook count).0 in
      if filled == 0
      then some []
      else some (take (if ltb filled count then filled else count) (hook count).1)

-- `kavak_sema_with_branch_narrowing`
unfoldable pub with_branch_narrowing :
    (ℕ → Bool) → Sema → Option (ℕ → ℕ × List Symbol) → (Sema → ℤ × Sema) → ℤ × Sema
with_branch_narrowing mem sema hook body = elim (branch_narrowings mem hook) [
  | none ↦ (negsuc 0, sema)
  | some items ↦ with_narrowings mem sema items body
]

-- `kavak_sema_apply_early_exit_narrowing`; `never` says that the terminator has a type, whose kind is
-- `KAVAK_TY_NEVER`
unfoldable pub apply_early_exit_narrowing :
    (ℕ → Bool) → Sema → Option (ℕ → ℕ × List Symbol) → Bool → ℤ × Sema
unfolding apply_narrowings
apply_early_exit_narrowing mem sema hook never =
    if not never then (pos 0, sema) else elim (branch_narrowings mem hook) [
      | none ↦ (negsuc 0, sema)
      | some items ↦ apply_narrowings mem sema items
    ]

-- A body that leaves the scopes outside the innermost one as they were.
abbrev pub LeavesOuter : (Sema → ℤ × Sema) → Type 0
LeavesOuter body = (sema : Sema) → tail_scopes (body sema).1.scopes ≡ tail_scopes sema.scopes

-- A state whose scopes outside the innermost one are those of `scopes`.
abbrev pub OuterIs : List Scope → Option Sema → Type 0
OuterIs scopes none = Unit
OuterIs scopes (some sema) = tail_scopes sema.scopes ≡ tail_scopes scopes

bind_outer :
    (mem : ℕ → Bool) (diags : Option DiagVec) (depth : ℕ) (scopes : List Scope) (symbol : Symbol)
    (name : Option (List ℕ))
    → symbol.name ≡ name
    → OuterIs scopes
        (bind mem (record { scopes = scopes; diags = diags; resolve_depth = depth }) symbol)
unfolding bind bind_in
bind_outer mem diags depth scopes symbol none e = rw (e, bind) tt
bind_outer mem diags depth [] symbol (some text) e = rw (e, bind, bind_in) tt
bind_outer mem diags depth (scope ∷ outer) symbol (some text) e =
    elim (Option-cases (grow_symbols mem scope)) [
      | inl out ↦ rw (e, bind, bind_in, out) tt
      | inr (new_cap, got) ↦ rw (e, bind, bind_in, got) refl
    ]

apply_narrowings_outer :
    (mem : ℕ → Bool) (sema : Sema) (symbols : List Symbol)
    → tail_scopes (apply_narrowings mem sema symbols).1.scopes ≡ tail_scopes sema.scopes
unfolding apply_narrowings
apply_narrowings_outer mem sema [] = refl
apply_narrowings_outer mem sema (symbol ∷ symbols) =
    let kept =
      bind_outer mem sema.diags sema.resolve_depth sema.scopes (narrowed symbol)
        (narrowed symbol).name refl in
    elim (Bool-cases (is_null symbol.name || is_null symbol.type)) [
      | inl missing ↦ rw missing refl
      | inr whole ↦ rw whole (elim (Option-cases (bind mem sema (narrowed symbol))) [
        | inl out ↦ rw out refl
        | inr (sema', got) ↦ rw got (apply_narrowings_outer mem sema' symbols ∙ (rw got at kept))
      ])
    ]

run_body_outer :
    (body : Sema → ℤ × Sema) (r : ℤ × Sema)
    → LeavesOuter body
    → tail_scopes (run_body body r).1.scopes ≡ tail_scopes r.1.scopes
unfolding run_body
run_body_outer body (pos zero, sema) h = h sema
run_body_outer body (pos (suc n), sema) h = refl
run_body_outer body (negsuc n, sema) h = refl

-- `kavak_sema_with_narrowings` leaves the chain of scopes as it found it, whatever the narrowings, the
-- allocations and the body's result, for a body that leaves the scopes outside the innermost one as
-- they were.
pub with_narrowings_restores :
    (mem : ℕ → Bool) (sema : Sema) (symbols : List Symbol) (body : Sema → ℤ × Sema)
    → LeavesOuter body
    → (with_narrowings mem sema symbols body).1.scopes ≡ sema.scopes
unfolding with_narrowings push_scope
with_narrowings_restores mem sema symbols body h = elim (Bool-cases (mem 32)) [
  | inl got ↦
      let inner : Sema = record sema {
        scopes = (record { symbols = []; cap = 0; flags = 0 }) ∷ sema.scopes;
      } in
      rw (got, with_narrowings, push_scope)
        (run_body_outer body (apply_narrowings mem inner symbols) h
          ∙ apply_narrowings_outer mem inner symbols)
  | inr out ↦ rw (out, with_narrowings, push_scope) refl
]

name_len_idem :
    (name : List ℕ) (n : ℕ)
    → name_len_or_strlen (some name) (name_len_or_strlen (some name) n)
      ≡ name_len_or_strlen (some name) n
unfolding name_len_or_strlen
name_len_idem name n = ground arith

-- After `kavak_sema_bind_narrowing`, a lookup of the name finds the symbol that it found before, or an
-- empty one, with the new type, the narrowed flag and a kind, until the scope is popped.
pub lookup-bind_narrowing :
    (mem : ℕ → Bool) (sema : Sema) (name : List ℕ) (name_len type : ℕ) {sema' : Sema}
    → bind_narrowing mem sema (some name) name_len (some type) ≡ some sema'
    → lookup sema' (some name) name_len
      ≡ some (record (narrowed (or_empty (lookup sema (some name) name_len))) {
        name = some name;
        name_len = name_len_or_strlen (some name) name_len;
        type = some type;
      })
unfolding bind_narrowing
lookup-bind_narrowing mem sema name name_len type {sema'} e =
    let len = name_len_or_strlen (some name) name_len in
    let symbol : Symbol = record (narrowed (or_empty (lookup sema (some name) name_len))) {
      name = some name;
      name_len = len;
      type = some type;
    } in
    let found = lookup-bind mem sema symbol name refl e name name_len in
    let own = name_eq_self symbol name refl in
    let own' : name_eq symbol name len ≡ true = rw (name_len_idem name name_len) at own in
    rw own' at (rw (name_len_idem name name_len) at found)
