-- ===== src/Sema.antt =====
-- The sema toolkit: include/kavak.h section 11 and src/sema.c. A scope chain is the list of its
-- scopes, the innermost first, and a scope the list of its symbols, the newest first. A name is the
-- bytes that its pointer leads to; pointers to nodes and types are numbers. `mem n` says whether an
-- allocation of `n` bytes succeeds.
pub mod Scopes
pub mod Lookup
pub mod Overload
pub mod Pick
pub mod Narrow
pub mod Resolve
pub mod Depth
mod Tests
use Prim.Native.String.{String}
use kavak.Base.{
  bytes_eq, ℕ, zero, suc, ◌+◌, ◌*◌, ◌/◌, ◌%◌, Bool, true, false, not, ◌||◌, ◌&&◌, List, [], ◌∷◌,
  Option, none, some, ltb, leb, ◌==◌, if◌then◌else◌, length, take, min, uint32_max, size_max, add32,
}
use kavak.Diag.{DiagVec, diag_vec_push_or_same, error}
use kavak.Span.{Span}

-- `KavakSymbol`
pub record Symbol : Type 0 where
  pub name : Option (List ℕ)
  pub name_len : ℕ
  pub kind : ℕ
  pub flags : ℕ
  pub decl : Option ℕ
  pub type : Option ℕ
  pub user : Option ℕ

-- `KavakScope`, without its link
pub record Scope : Type 0 where
  pub symbols : List Symbol
  pub cap : ℕ
  pub flags : ℕ

-- The part of `KavakSema` that the toolkit changes
pub record Sema : Type 0 where
  pub scopes : List Scope
  pub diags : Option DiagVec
  pub resolve_depth : ℕ

-- `KAVAK_SYM_VALUE` and `KAVAK_SYM_FLAG_NARROWED`
abbrev pub sym_value : ℕ
sym_value = 1

abbrev pub flag_narrowed : ℕ
flag_narrowed = 1

-- `sizeof(KavakSymbol)` and `sizeof(KavakScope)` on LP64
abbrev pub symbol_size : ℕ
symbol_size = 48

abbrev pub scope_size : ℕ
scope_size = 32

-- `strlen`
abbrev pub strlen : List ℕ → ℕ
strlen [] = 0
strlen (zero ∷ bytes) = 0
strlen (suc b ∷ bytes) = suc (strlen bytes)

-- `name_len_or_strlen`
unfoldable pub name_len_or_strlen : Option (List ℕ) → ℕ → ℕ
name_len_or_strlen none name_len = 0
name_len_or_strlen (some text) name_len =
    if name_len == 0 then strlen text % 4294967296 else name_len

-- `name_eq`
unfoldable pub name_eq : Symbol → List ℕ → ℕ → Bool
unfolding name_len_or_strlen
name_eq symbol name name_len = elim (symbol.name) [
  | none ↦ false
  | some text ↦
      if not (name_len_or_strlen (some text) symbol.name_len == name_len)
      then false
      else bytes_eq (take name_len text) (take name_len name)
]

-- `kavak_sema_push_scope`; `none` is the result -1
unfoldable pub push_scope : (ℕ → Bool) → Sema → Option Sema
push_scope mem sema =
    if mem scope_size
    then some (record sema { scopes = (record { symbols = []; cap = 0; flags = 0 }) ∷ sema.scopes })
    else none

-- `kavak_sema_pop_scope`
abbrev pub tail_scopes : List Scope → List Scope
tail_scopes [] = []
tail_scopes (scope ∷ outer) = outer

abbrev pub pop_scope : Sema → Sema
pop_scope sema = record sema { scopes = tail_scopes sema.scopes }

-- The growth of the symbol array in `kavak_sema_bind`: the capacity afterwards.
unfoldable pub grow_symbols : (ℕ → Bool) → Scope → Option ℕ
grow_symbols mem scope =
    if not (length scope.symbols == scope.cap)
    then some scope.cap
    else if length scope.symbols == uint32_max
    then none
    else if ltb (uint32_max / 2) scope.cap
    then none
    else let new_cap = if scope.cap == 0 then 8 else scope.cap * 2 in
      if ltb (size_max / symbol_size) new_cap
      then none
      else if mem (new_cap * symbol_size)
      then some new_cap
      else none

-- `kavak_sema_bind` once the name has its length, on a chain of scopes
unfoldable pub bind_in : (ℕ → Bool) → List Scope → Symbol → Option (List Scope)
unfolding grow_symbols
bind_in mem [] symbol = none
bind_in mem (scope ∷ outer) symbol = elim (grow_symbols mem scope) [
  | none ↦ none
  | some new_cap ↦ some ((record scope { symbols = symbol ∷ scope.symbols; cap = new_cap }) ∷ outer)
]

-- `kavak_sema_bind`; `none` is the result -1
unfoldable pub bind : (ℕ → Bool) → Sema → Symbol → Option Sema
unfolding bind_in name_len_or_strlen
bind mem sema symbol = elim (symbol.name) [
  | none ↦ none
  | some text ↦
      elim (bind_in mem sema.scopes
        (record symbol { name_len = name_len_or_strlen (some text) symbol.name_len })) [
          | none ↦ none
          | some scopes ↦ some (record sema { scopes = scopes })
        ]
]

-- the inner loop of `kavak_sema_lookup`
unfoldable pub lookup_scope : List Symbol → List ℕ → ℕ → Option Symbol
lookup_scope [] name len = none
lookup_scope (symbol ∷ symbols) name len =
    if name_eq symbol name len then some symbol else lookup_scope symbols name len

-- the outer loop of `kavak_sema_lookup`
unfoldable pub lookup_chain : List Scope → List ℕ → ℕ → Option Symbol
lookup_chain [] name len = none
lookup_chain (scope ∷ outer) name len = elim (lookup_scope scope.symbols name len) [
  | none ↦ lookup_chain outer name len
  | some symbol ↦ some symbol
]

-- `kavak_sema_lookup`
unfoldable pub lookup : Sema → Option (List ℕ) → ℕ → Option Symbol
lookup sema none name_len = none
lookup sema (some name) name_len =
    lookup_chain sema.scopes name (name_len_or_strlen (some name) name_len)

-- `kavak_sema_diag`
unfoldable pub sema_diag : (ℕ → Bool) → Sema → Span → Option String → Sema
sema_diag mem sema span message = elim (sema.diags) [
  | none ↦ sema
  | some d ↦ record sema {
    diags =
        some (
          diag_vec_push_or_same mem d
            (record { severity = error; message = message; span = span }));
  }
]
