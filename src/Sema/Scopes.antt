-- ===== src/Sema/Scopes.antt =====
-- The scope chain: what a binding changes.
use kavak.Base.{
  ℕ, ◌*◌, if◌then◌else◌, ◌≤◌, ◌<◌, ◌≡◌, ◌⊎◌, inl, inr, refl, Bool, false, List, [], ◌∷◌, Option,
  none, some, length, uint32_max, arith, Option-cases, Bool-cases, ◌==◌, All,
}
use kavak.Diag.{DiagVec}
use kavak.Sema.{Symbol, Scope, Sema, symbol_size, grow_symbols, bind_in, bind, name_len_or_strlen}

-- The array of a scope holds its symbols, and its capacity fits `uint32_t`.
pub record IsScope (scope : Scope) : Type 0 where
  pub count_le : length scope.symbols ≤ scope.cap
  pub cap_le : scope.cap ≤ uint32_max

-- What the growth of a scope's array promises: room for one more, or a reason to fail, with the
-- request for twice the symbols, or for the first 8, that did not succeed.
abbrev pub Grown : (ℕ → Bool) → Scope → Option ℕ → Type 0
Grown mem scope none =
    (length scope.symbols ≡ scope.cap)
    × ((uint32_max < 2 * scope.cap)
        ⊎ (mem ((if scope.cap == 0 then 8 else 2 * scope.cap) * symbol_size) ≡ false))
Grown mem scope (some new_cap) =
    (length scope.symbols < new_cap) × (scope.cap ≤ new_cap) × (new_cap ≤ uint32_max)

-- What a binding promises: the innermost scope has the symbol, with its length, in front, and stays
-- valid; it fails only for a symbol without a name, without a scope, or where the array cannot grow.
abbrev pub Bound : (ℕ → Bool) → Sema → Symbol → Option Sema → Type 0
Bound mem sema symbol none =
    (symbol.name ≡ none)
    ⊎ ((sema.scopes ≡ [])
        ⊎ ((scope : Scope) × (outer : List Scope) × (sema.scopes ≡ scope ∷ outer)
            × Grown mem scope none))
Bound mem sema symbol (some sema') =
    (text : List ℕ) × (scope : Scope) × (outer : List Scope) × (new_cap : ℕ) × (symbol.name
      ≡ some text)
    × (sema.scopes ≡ scope ∷ outer)
    × (sema' ≡ record sema {
      scopes =
          (record scope {
            symbols =
                (record symbol { name_len = name_len_or_strlen (some text) symbol.name_len })
                ∷ scope.symbols;
            cap = new_cap;
          })
          ∷ outer;
    })
    × Grown mem scope (some new_cap)

grow_symbols-Grown :
    (mem : ℕ → Bool) (scope : Scope) → IsScope scope → Grown mem scope (grow_symbols mem scope)
unfolding grow_symbols
grow_symbols-Grown mem scope v =
    let new_cap = if scope.cap == 0 then 8 else scope.cap * 2 in
    elim (Bool-cases (length scope.symbols == scope.cap)) [
      | inl full ↦ elim (Bool-cases (mem (new_cap * symbol_size))) [
        | inl got ↦ ground arith
        | inr out ↦
            let failed : grow_symbols mem scope ≡ none = ground arith in
            rw failed (ground arith, ground (arith, out))
      ]
      | inr room ↦ ground arith
    ]

bind_in_lem :
    (mem : ℕ → Bool) (diags : Option DiagVec) (resolve_depth : ℕ) (symbol : Symbol)
    (scopes : List Scope)
    → All IsScope scopes
    → let sema : Sema = record { scopes = scopes; diags = diags; resolve_depth = resolve_depth } in
      Bound mem sema symbol (bind mem sema symbol)
unfolding bind bind_in
bind_in_lem mem diags resolve_depth symbol [] v = elim (Option-cases symbol.name) [
  | inl unnamed ↦ rw (unnamed, bind) (inl refl)
  | inr (text, named) ↦ rw (named, bind, bind_in) (inr (inl refl))
]
bind_in_lem mem diags resolve_depth symbol (scope ∷ outer) v = elim (Option-cases symbol.name) [
  | inl unnamed ↦ rw (unnamed, bind) (inl refl)
  | inr (text, named) ↦
      let grown = grow_symbols-Grown mem scope v.0 in
      elim (Option-cases (grow_symbols mem scope)) [
        | inl out ↦ rw (named, bind, bind_in, out) (inr (inr (scope, outer, refl, rw out at grown)))
        | inr (new_cap, got) ↦
            rw (named, bind, bind_in, got)
              (text, scope, outer, new_cap, refl, refl, rw named refl, rw got at grown)
      ]
]

-- `kavak_sema_bind` on valid scopes puts a symbol with a name in front of the innermost scope, with the
-- length of its name filled in, within the capacity of the array. It fails only for a symbol without a
-- name, without a scope, or where the array is full and has from 2^31 entries on, or the request for
-- twice as many, or for 8 of them at first, does not succeed.
pub bind-Bound :
    (mem : ℕ → Bool) (sema : Sema) (symbol : Symbol)
    → All IsScope sema.scopes
    → Bound mem sema symbol (bind mem sema symbol)
bind-Bound mem sema symbol v = bind_in_lem mem sema.diags sema.resolve_depth symbol sema.scopes v
