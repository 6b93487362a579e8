-- ===== src/Sema/Tests.antt =====
-- Runs of the sema toolkit.
use kavak.Base.{
  ℕ, ◌≡◌, refl, Bool, true, List, [], ◌∷◌, none, some, arith, ℤ, pos, negsuc, if◌then◌else◌, ◌==◌,
}
use kavak.Sema.{
  Symbol, Scope, Sema, bind, bind_in, grow_symbols, lookup, lookup_chain, lookup_scope, name_eq,
  name_len_or_strlen,
}
use kavak.Span.{span_make}
use kavak.Sema.Resolve.{
  Label, Tree, node, nil, cons, Input, Hooks, walk_declare, walk_resolve, run_hook, run_post,
  resolve_ident, resolve_token, token_text_ptr, flagged,
}
use kavak.Sema.Depth.{walks_keep_depth}
use kavak.Sema.Scopes.{IsScope, Bound, bind-Bound}
use kavak.Sema.Lookup.{in_reach, matches, lookup-bind}
use kavak.Sema.Overload.{lookup_all, LookedUp, lookup_all-Visits}
use kavak.Sema.Pick.{pick_overload, IsBest, pick_overload-IsBest}
use kavak.Sema.Narrow.{
  narrowed, bind_narrowing, with_narrowings, LeavesOuter, with_narrowings_restores,
}

abbrev plenty : ℕ → Bool
plenty n = true

abbrev x_name : List ℕ
x_name = 120 ∷ 0 ∷ []

abbrev y_name : List ℕ
y_name = 121 ∷ 32 ∷ 61 ∷ []

abbrev x_symbol : Symbol
x_symbol = record {
  name = some x_name;
  name_len = 1;
  kind = 1;
  flags = 0;
  decl = none;
  type = some 10;
  user = none;
}

abbrev x_shadow : Symbol
x_shadow = record x_symbol { type = some 20 }

abbrev inner_scope : Scope
inner_scope = record { symbols = x_shadow ∷ []; cap = 8; flags = 0 }

abbrev outer_scope : Scope
outer_scope = record { symbols = x_symbol ∷ []; cap = 8; flags = 0 }

abbrev two_scopes : Sema
two_scopes = record { scopes = inner_scope ∷ outer_scope ∷ []; diags = none; resolve_depth = 0 }

x_found : lookup two_scopes (some x_name) 0 ≡ some x_shadow
unfolding lookup lookup_chain lookup_scope name_eq name_len_or_strlen
x_found = refl

y_missing : lookup two_scopes (some y_name) 1 ≡ none
unfolding lookup lookup_chain lookup_scope name_eq name_len_or_strlen
y_missing = refl

scope-IsScope : (scope : Scope) → scope.cap ≡ 8 → scope.symbols ≡ x_shadow ∷ [] → IsScope scope
scope-IsScope scope c s = record { count_le = rw (c, s) (omega arith); cap_le = rw c (omega arith) }

outer-IsScope : IsScope outer_scope
outer-IsScope = record { count_le = omega arith; cap_le = omega arith }

abbrev y_symbol : Symbol
y_symbol = record x_symbol { name = some y_name; name_len = 1 }

abbrev with_y : Sema
with_y = record two_scopes {
  scopes = (record inner_scope { symbols = y_symbol ∷ x_shadow ∷ [] }) ∷ outer_scope ∷ [];
}

y_bound : bind plenty two_scopes y_symbol ≡ some with_y
unfolding bind bind_in grow_symbols name_len_or_strlen
y_bound = refl

bind-Bound_example : Bound plenty two_scopes y_symbol (bind plenty two_scopes y_symbol)
bind-Bound_example =
    bind-Bound plenty two_scopes y_symbol (scope-IsScope inner_scope refl refl, (outer-IsScope, tt))

lookup-bind_example : lookup with_y (some x_name) 1 ≡ (
    if name_eq
      (record y_symbol { name_len = name_len_or_strlen (some y_name) 1 })
      x_name
      (name_len_or_strlen (some x_name) 1)
    then some (record y_symbol { name_len = name_len_or_strlen (some y_name) 1 })
    else lookup two_scopes (some x_name) 1)
lookup-bind_example = lookup-bind plenty two_scopes y_symbol y_name refl y_bound x_name 1

-- a visitor that counts, and stops at the second call
abbrev twice : Symbol → ℕ → Bool × ℕ
twice symbol n = (n == 1, n)

lookup_all-Visits_example :
    LookedUp twice
      (matches (in_reach two_scopes.scopes) x_name (name_len_or_strlen (some x_name) 1))
      7
      (lookup two_scopes (some x_name) 1)
      (lookup_all two_scopes (some x_name) 1 twice 7)
lookup_all-Visits_example = lookup_all-Visits two_scopes x_name 1 twice 7

-- a score by the type of the candidate
abbrev by_type : Symbol → ℤ
by_type symbol = elim (symbol.type) [ none ↦ negsuc 0 | some t ↦ pos t ]

pick_overload-IsBest_example :
    IsBest by_type
      (matches (in_reach two_scopes.scopes) x_name (name_len_or_strlen (some x_name) 1))
      (pick_overload two_scopes (some x_name) 1 by_type)
pick_overload-IsBest_example = pick_overload-IsBest two_scopes x_name 1 by_type

-- a body that fails
abbrev refuse : Sema → ℤ × Sema
refuse sema = (negsuc 0, sema)

refuse-LeavesOuter : LeavesOuter refuse
refuse-LeavesOuter sema = refl

with_narrowings_restores_example :
    (with_narrowings plenty two_scopes (x_shadow ∷ []) refuse).1.scopes
    ≡ inner_scope ∷ outer_scope ∷ []
with_narrowings_restores_example =
    with_narrowings_restores plenty two_scopes (x_shadow ∷ []) refuse refuse-LeavesOuter

abbrev narrow_x : Symbol
narrow_x = record x_symbol { flags = 1; type = some 30 }

abbrev with_x : Sema
with_x = record two_scopes {
  scopes = (record inner_scope { symbols = narrow_x ∷ x_shadow ∷ [] }) ∷ outer_scope ∷ [];
}

x_narrowed : bind_narrowing plenty two_scopes (some x_name) 1 (some 30) ≡ some with_x
unfolding bind_narrowing lookup lookup_chain lookup_scope name_eq narrowed bind bind_in grow_symbols
    name_len_or_strlen
x_narrowed = refl

-- the tree of an unknown name `x` above one of `y`, in `x y`
abbrev leaf : ℕ → Label
leaf i = record { kind = 3; modifiers = 0; span = span_make 0 1; type = none; token_index = i }

abbrev two_names : Tree
two_names = node (leaf 0) (cons (node (leaf 1) nil) nil)

abbrev words : Input
words = record {
  source = some (record {
    bytes = 120 ∷ 32 ∷ 121 ∷ [];
    filename = none;
    newline_flags = 7;
    line_offsets = none;
    line_count = 0;
  });
  tokens =
      (record { kind = 2; span = span_make 0 1; v = 0 })
      ∷ (record { kind = 2; span = span_make 2 1; v = 0 })
      ∷ [];
}

abbrev no_hooks : Hooks
no_hooks = record { declare_node = none; resolve_node = none; resolve_node_post = none }

x_resolved :
    (walk_resolve plenty words no_hooks two_scopes two_names).1
    ≡ node
        (record (leaf 0) { type = some 20 })
        (cons (node (record (leaf 1) { modifiers = 2147483648 }) nil) nil)
unfolding walk_resolve run_hook run_post resolve_ident resolve_token token_text_ptr flagged lookup
    lookup_chain lookup_scope name_eq name_len_or_strlen
x_resolved = refl

walks_keep_depth_example :
    ((walk_declare plenty words no_hooks two_scopes two_names).0.resolve_depth ≡ 0)
    × ((walk_resolve plenty words no_hooks two_scopes two_names).0.resolve_depth ≡ 0)
walks_keep_depth_example =
    walks_keep_depth plenty words no_hooks (record { declare = tt; resolve = tt; post = tt })
      two_scopes two_names
