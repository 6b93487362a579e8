-- ===== src/Sema/Depth.antt =====
-- The depth counter of the walks of src/sema.c.
use Prim.Native.String.{String}
use kavak.Base.{
  ℕ, ◌≡◌, refl, ◌∙◌, inl, inr, Bool, false, Option, none, some, leb, ◌==◌, get_elem?, add32, sub32,
  arith, Bool-cases, Option-cases,
}
use kavak.Span.{Span}
use kavak.Token.{Token}
use kavak.Sema.{Sema, lookup, sema_diag}
use kavak.Sema.Resolve.{
  Label, Tree, Forest, node, nil, cons, Input, Hooks, ast_ident, max_resolve_depth, token_text_ptr,
  resolve_token, resolve_ident, run_hook, run_post, enter, too_deep, walk_declare, declare_all,
  walk_resolve, resolve_all,
}

-- Hooks that leave the depth counter alone; the fields of a language that are not set do.
abbrev pub KeepsDepth {ℓ} :
    {A : Type ℓ} → Option (Sema → Label → Forest → A × Sema × Label) → Type 0
KeepsDepth none = Unit
KeepsDepth (some hook) =
    (sema : Sema) (label : Label) (children : Forest)
    → (hook sema label children).1.resolve_depth ≡ sema.resolve_depth

pub record KeepDepth (hooks : Hooks) : Type 0 where
  pub declare : KeepsDepth hooks.declare_node
  pub resolve : KeepsDepth hooks.resolve_node
  pub post : KeepsDepth hooks.resolve_node_post

sema_diag_depth :
    (mem : ℕ → Bool) (sema : Sema) (span : Span) (message : Option String)
    → (sema_diag mem sema span message).resolve_depth ≡ sema.resolve_depth
unfolding sema_diag
sema_diag_depth mem sema span message = elim (Option-cases (sema.diags)) [
  | inl off ↦ rw (off, sema_diag) refl
  | inr (d, on) ↦ rw (on, sema_diag) refl
]

run_hook_depth :
    (hook : Option (Sema → Label → Forest → Bool × Sema × Label)) (sema : Sema) (label : Label)
    (children : Forest)
    → KeepsDepth hook
    → (run_hook hook sema label children).0.resolve_depth ≡ sema.resolve_depth
unfolding run_hook
run_hook_depth none sema label children k = refl
run_hook_depth (some hook) sema label children k = k sema label children

run_post_depth :
    (hook : Option (Sema → Label → Forest → Option ℕ × Sema × Label)) (sema : Sema) (label : Label)
    (children : Forest)
    → KeepsDepth hook
    → (run_post hook sema label children).0.resolve_depth ≡ sema.resolve_depth
unfolding run_post
run_post_depth none sema label children k = refl
run_post_depth (some hook) sema label children k =
    elim (Option-cases (hook sema label children).0) [
      | inl off ↦ rw (off, run_post) (k sema label children)
      | inr (t, on) ↦ rw (on, run_post) (k sema label children)
    ]

resolve_token_depth :
    (mem : ℕ → Bool) (input : Input) (sema : Sema) (label : Label) (token : Option Token)
    → (resolve_token mem input sema label token).0.resolve_depth ≡ sema.resolve_depth
unfolding resolve_token
resolve_token_depth mem input sema label none = refl
resolve_token_depth mem input sema label (some token) =
    let text = token_text_ptr input token in
    elim (Option-cases (lookup sema text.0 text.1)) [
      | inl out ↦
          rw (out, resolve_token) (sema_diag_depth mem sema token.span (some "undefined symbol"))
      | inr (symbol, got) ↦ rw (got, resolve_token) refl
    ]

resolve_ident_depth :
    (mem : ℕ → Bool) (input : Input) (sema : Sema) (label : Label)
    → (resolve_ident mem input sema label).0.resolve_depth ≡ sema.resolve_depth
unfolding resolve_ident
resolve_ident_depth mem input sema label = elim (Bool-cases (label.kind == ast_ident)) [
  | inl is_ident ↦
      rw is_ident
        (resolve_token_depth mem input sema label (get_elem? input.tokens label.token_index))
  | inr other ↦ rw other refl
]

-- one up and one down, below the limit
leave-enter :
    (before after : ℕ)
    → leb max_resolve_depth before ≡ false
    → after ≡ add32 before 1
    → sub32 after 1 ≡ before
leave-enter before after low same = ground (arith, low, same)

module _ (mem : ℕ → Bool) (input : Input) (hooks : Hooks) (keep : KeepDepth hooks) where
  too_deep_depth :
      (sema : Sema) (label : Label) (children : Forest)
      → (too_deep mem input hooks sema label children).0.resolve_depth ≡ sema.resolve_depth
  unfolding too_deep
  too_deep_depth sema label children =
      sema_diag_depth mem sema label.span (some "AST nesting too deep")

  mutual
    unfolding walk_declare

    walk_declare_depth :
        (sema : Sema) (tree : Tree)
        → (walk_declare mem input hooks sema tree).0.resolve_depth ≡ sema.resolve_depth
    walk_declare_depth sema (node label children) =
        elim (Bool-cases (leb max_resolve_depth sema.resolve_depth)) [
          | inl deep ↦ rw (deep, walk_declare) (too_deep_depth sema label children)
          | inr low ↦
              let h = run_hook hooks.declare_node (enter sema) label children in
              rw (low, walk_declare)
                (leave-enter sema.resolve_depth
                  (declare_all mem input hooks h.0 children).0.resolve_depth low
                  (declare_all_depth h.0 children
                    ∙ run_hook_depth hooks.declare_node (enter sema) label children keep.declare))
        ]

    declare_all_depth :
        (sema : Sema) (trees : Forest)
        → (declare_all mem input hooks sema trees).0.resolve_depth ≡ sema.resolve_depth
    declare_all_depth sema nil = refl
    declare_all_depth sema (cons t ts) =
        declare_all_depth (walk_declare mem input hooks sema t).0 ts ∙ walk_declare_depth sema t

  mutual
    unfolding walk_resolve

    walk_resolve_depth :
        (sema : Sema) (tree : Tree)
        → (walk_resolve mem input hooks sema tree).0.resolve_depth ≡ sema.resolve_depth
    walk_resolve_depth sema (node label children) =
        elim (Bool-cases (leb max_resolve_depth sema.resolve_depth)) [
          | inl deep ↦ rw (deep, walk_resolve) (too_deep_depth sema label children)
          | inr low ↦
              let h = run_hook hooks.resolve_node (enter sema) label children in
              let i = resolve_ident mem input h.0 h.1 in
              let c = resolve_all mem input hooks i.0 children in
              rw (low, walk_resolve)
                (leave-enter sema.resolve_depth
                  (run_post hooks.resolve_node_post c.0 i.1 c.1).0.resolve_depth low
                  (run_post_depth hooks.resolve_node_post c.0 i.1 c.1 keep.post
                    ∙ resolve_all_depth i.0 children
                    ∙ resolve_ident_depth mem input h.0 h.1
                    ∙ run_hook_depth hooks.resolve_node (enter sema) label children keep.resolve))
        ]

    resolve_all_depth :
        (sema : Sema) (trees : Forest)
        → (resolve_all mem input hooks sema trees).0.resolve_depth ≡ sema.resolve_depth
    resolve_all_depth sema nil = refl
    resolve_all_depth sema (cons t ts) =
        resolve_all_depth (walk_resolve mem input hooks sema t).0 ts ∙ walk_resolve_depth sema t

  -- Both walks leave the depth counter as they found it, on every path: over the limit, where they stop,
  -- and below it, where each node counts up once and down once; for hooks that leave it alone.
  pub walks_keep_depth :
      (sema : Sema) (tree : Tree)
      → ((walk_declare mem input hooks sema tree).0.resolve_depth ≡ sema.resolve_depth)
        × ((walk_resolve mem input hooks sema tree).0.resolve_depth ≡ sema.resolve_depth)
  walks_keep_depth sema tree = (walk_declare_depth sema tree, walk_resolve_depth sema tree)
