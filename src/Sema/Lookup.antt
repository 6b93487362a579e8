-- ===== src/Sema/Lookup.antt =====
-- Lookup against the list of all symbols in reach.
use kavak.Base.{
  bytes_eq_refl, ℕ, ◌≡◌, inl, inr, refl, sym, ap, ◌∙◌, Bool, true, List, [], ◌∷◌, ◌++◌, Option,
  none, some, arith, Option-cases, Bool-cases, if◌then◌else◌, take,
}
use kavak.Diag.{DiagVec}
use kavak.Sema.{
  bind_in, grow_symbols, Symbol, Scope, Sema, bind, name_len_or_strlen, name_eq, lookup_scope,
  lookup_chain, lookup,
}

-- All the symbols of a chain of scopes, the innermost scope and in it the newest first.
unfoldable pub in_reach : List Scope → List Symbol
in_reach [] = []
in_reach (scope ∷ outer) = scope.symbols ++ in_reach outer

-- Those of them with the name.
unfoldable pub matches : List Symbol → List ℕ → ℕ → List Symbol
matches [] name len = []
matches (s ∷ ss) name len =
    if name_eq s name len then s ∷ matches ss name len else matches ss name len

abbrev pub first : List Symbol → Option Symbol
first [] = none
first (s ∷ ss) = some s

lookup_scope-append :
    (xs ys : List Symbol) (name : List ℕ) (len : ℕ)
    → lookup_scope (xs ++ ys) name len
      ≡ elim (lookup_scope xs name len) [ none ↦ lookup_scope ys name len | some s ↦ some s ]
unfolding lookup_scope
lookup_scope-append [] ys name len = refl
lookup_scope-append (x ∷ xs) ys name len = elim (Bool-cases (name_eq x name len)) [
  | inl hit ↦ rw hit refl
  | inr miss ↦ rw miss (lookup_scope-append xs ys name len)
]

lookup_chain-in_reach :
    (scopes : List Scope) (name : List ℕ) (len : ℕ)
    → lookup_chain scopes name len ≡ lookup_scope (in_reach scopes) name len
unfolding lookup_chain in_reach lookup_scope
lookup_chain-in_reach [] name len = refl
lookup_chain-in_reach (scope ∷ outer) name len =
    let rest = lookup_chain-in_reach outer name len in
    let split = lookup_scope-append scope.symbols (in_reach outer) name len in
    elim (Option-cases (lookup_scope scope.symbols name len)) [
      | inl out ↦ rw (out, lookup_chain) (rest ∙ sym (rw out at split))
      | inr (s, got) ↦ rw (got, lookup_chain) (sym (rw got at split))
    ]

lookup_scope-matches :
    (symbols : List Symbol) (name : List ℕ) (len : ℕ)
    → lookup_scope symbols name len ≡ first (matches symbols name len)
unfolding lookup_scope matches
lookup_scope-matches [] name len = refl
lookup_scope-matches (s ∷ ss) name len = elim (Bool-cases (name_eq s name len)) [
  | inl hit ↦ rw hit refl
  | inr miss ↦ rw miss (lookup_scope-matches ss name len)
]

-- `kavak_sema_lookup` returns the first symbol with the name among all those in reach, the innermost
-- scope and in it the newest first, and NULL where there is none.
pub lookup-first :
    (sema : Sema) (name : List ℕ) (name_len : ℕ)
    → lookup sema (some name) name_len
      ≡ first (matches (in_reach sema.scopes) name (name_len_or_strlen (some name) name_len))
unfolding lookup
lookup-first sema name name_len =
    let len = name_len_or_strlen (some name) name_len in
    lookup_chain-in_reach sema.scopes name len
    ∙ lookup_scope-matches (in_reach sema.scopes) name len

-- A symbol that holds its length answers to its own name.
pub name_eq_self :
    (symbol : Symbol) (text : List ℕ)
    → symbol.name ≡ some text
    → name_eq
        (record symbol { name_len = name_len_or_strlen (some text) symbol.name_len })
        text
        (name_len_or_strlen (some text) symbol.name_len)
      ≡ true
unfolding name_eq name_len_or_strlen
name_eq_self symbol text named =
    let len = name_len_or_strlen (some text) symbol.name_len in
    rw named (ground (arith, bytes_eq_refl (take len text)))

reach_of : Option Sema → List Symbol
reach_of none = []
reach_of (some sema) = in_reach sema.scopes

-- A binding puts its symbol in front of those in reach.
in_reach-bind :
    (mem : ℕ → Bool) (diags : Option DiagVec) (depth : ℕ) (scopes : List Scope) (symbol : Symbol)
    (text : List ℕ) {sema' : Sema}
    → symbol.name ≡ some text
    → bind mem (record { scopes = scopes; diags = diags; resolve_depth = depth }) symbol
      ≡ some sema'
    → in_reach sema'.scopes
      ≡ (record symbol { name_len = name_len_or_strlen (some text) symbol.name_len })
        ∷ in_reach scopes
unfolding bind bind_in in_reach reach_of
in_reach-bind mem diags depth [] symbol text named e =
    absurd (ground (arith, (rw (named, bind, bind_in) at e)))
in_reach-bind mem diags depth (scope ∷ outer) symbol text named e =
    elim (Option-cases (grow_symbols mem scope)) [
      | inl out ↦ absurd (ground (arith, (rw (named, bind, bind_in, out) at e)))
      | inr (new_cap, got) ↦ sym (ap reach_of (rw (named, bind, bind_in, got) at e))
    ]

-- After `kavak_sema_bind`, a lookup of any name finds the new symbol where that has the name, in front
-- of all others, and what it found before otherwise.
pub lookup-bind :
    (mem : ℕ → Bool) (sema : Sema) (symbol : Symbol) (text : List ℕ) {sema' : Sema}
    → symbol.name ≡ some text
    → bind mem sema symbol ≡ some sema'
    → (name : List ℕ) (name_len : ℕ)
    → let bound : Symbol = record symbol {
      name_len = name_len_or_strlen (some text) symbol.name_len;
    } in
      lookup sema' (some name) name_len ≡ (
        if name_eq bound name (name_len_or_strlen (some name) name_len)
        then some bound
        else lookup sema (some name) name_len)
unfolding lookup lookup_scope
lookup-bind mem sema symbol text {sema'} named e name name_len =
    let bound : Symbol = record symbol {
      name_len = name_len_or_strlen (some text) symbol.name_len;
    } in
    let len = name_len_or_strlen (some name) name_len in
    lookup_chain-in_reach sema'.scopes name len
    ∙ ap (λ l. lookup_scope l name len)
        (in_reach-bind mem sema.diags sema.resolve_depth sema.scopes symbol text named e)
    ∙ ap (λ r. if name_eq bound name len then some bound else r)
        (sym (lookup_chain-in_reach sema.scopes name len))
