-- ===== src/Sema/Resolve.antt =====
-- Name resolution over a tree: `resolve_ident`, `walk_declare`, `walk_resolve` and
-- `kavak_sema_resolve_names` of src/sema.c. The hooks of the language are parameters that see the
-- state, a node and its children, and change the state and the node's own fields, not the tree.
use Prim.Native.Nat.{bit_or}
use kavak.Base.{
  ℕ, ◌+◌, Bool, not, List, Option, none, some, ltb, leb, ◌==◌, if◌then◌else◌, get_elem?, drop,
  add32, sub32,
}
use kavak.Span.{Span}
use kavak.Token.{Token}
use kavak.Source.{Source, len}
use kavak.Sema.{Sema, lookup, sema_diag}

-- The fields of a node that the walks read and change
pub record Label : Type 0 where
  pub kind : ℕ
  pub modifiers : ℕ
  pub span : Span
  pub type : Option ℕ
  pub token_index : ℕ

-- A node with its children, and the children of a node
mutual
  pub data Tree : Type 0 where
    node : Label → Forest → Tree

  pub data Forest : Type 0 where
    nil : Forest
    cons : Tree → Forest → Forest

-- The source and the tokens of `KavakSema`
pub record Input : Type 0 where
  pub source : Option Source
  pub tokens : List Token

-- The hooks `declare_node`, `resolve_node` and `resolve_node_post` of the language; the first two say
-- whether they failed, and the last gives the type that it synthesized.
pub record Hooks : Type 0 where
  pub declare_node : Option (Sema → Label → Forest → Bool × Sema × Label)
  pub resolve_node : Option (Sema → Label → Forest → Bool × Sema × Label)
  pub resolve_node_post : Option (Sema → Label → Forest → Option ℕ × Sema × Label)

-- `KAVAK_AST_IDENT`, `KAVAK_AST_FLAG_ERROR` and `KAVAK_SEMA_MAX_RESOLVE_DEPTH`
abbrev pub ast_ident : ℕ
ast_ident = 3

abbrev pub flag_error : ℕ
flag_error = 2147483648

abbrev pub max_resolve_depth : ℕ
max_resolve_depth = 1024

-- `node->modifiers |= KAVAK_AST_FLAG_ERROR`
unfoldable pub flagged : Label → Label
flagged label = record label { modifiers = bit_or label.modifiers flag_error }

-- `token_text_ptr`: the bytes from the start of the token on, and its length
unfoldable pub token_text_ptr : Input → Token → Option (List ℕ) × ℕ
token_text_ptr input token = elim (input.source) [
  | none ↦ (none, 0)
  | some source ↦
      if ltb (len source) (token.span.start + token.span.len)
      then (none, 0)
      else (some (drop token.span.start source.bytes), token.span.len)
]

-- the end of `resolve_ident`, on the token of the node
unfoldable pub resolve_token : (ℕ → Bool) → Input → Sema → Label → Option Token → Sema × Label
resolve_token mem input sema label none = (sema, label)
resolve_token mem input sema label (some token) =
    let text = token_text_ptr input token in
    elim (lookup sema text.0 text.1) [
      | some symbol ↦ (sema, record label { type = symbol.type })
      | none ↦ (sema_diag mem sema token.span (some "undefined symbol"), flagged label)
    ]

-- `resolve_ident`
unfoldable pub resolve_ident : (ℕ → Bool) → Input → Sema → Label → Sema × Label
resolve_ident mem input sema label =
    if not (label.kind == ast_ident)
    then (sema, label)
    else resolve_token mem input sema label (get_elem? input.tokens label.token_index)

-- a call of a hook that may fail, and flags the node where it does
unfoldable pub run_hook :
    Option (Sema → Label → Forest → Bool × Sema × Label) → Sema → Label → Forest → Sema × Label
run_hook none sema label children = (sema, label)
run_hook (some hook) sema label children =
    let r = hook sema label children in (r.1, if r.0 then flagged r.2 else r.2)

-- a call of the hook that synthesizes a type
unfoldable pub run_post :
    Option (Sema → Label → Forest → Option ℕ × Sema × Label) → Sema → Label → Forest → Sema × Label
run_post none sema label children = (sema, label)
run_post (some hook) sema label children =
    let r = hook sema label children in
    elim (r.0) [ none ↦ (r.1, r.2) | some t ↦ (r.1, record (r.2) { type = some t }) ]

-- `sema->resolve_depth++` and `--`
abbrev pub enter : Sema → Sema
enter sema = record sema { resolve_depth = add32 sema.resolve_depth 1 }

abbrev pub leave : Sema → Sema
leave sema = record sema { resolve_depth = sub32 sema.resolve_depth 1 }

module _ (mem : ℕ → Bool) (input : Input) (hooks : Hooks) where
  -- the answer of both walks at the depth limit
  unfoldable pub too_deep : Sema → Label → Forest → Sema × Tree
  too_deep sema label children =
      (sema_diag mem sema label.span (some "AST nesting too deep"), node (flagged label) children)

  -- `walk_declare`
  unfoldable mutual
    pub walk_declare : Sema → Tree → Sema × Tree
    walk_declare sema (node label children) =
        let h = run_hook hooks.declare_node (enter sema) label children in
        let c = declare_all (h.0) children in
        if leb max_resolve_depth sema.resolve_depth
        then too_deep sema label children
        else (leave c.0, node h.1 c.1)

    pub declare_all : Sema → Forest → Sema × Forest
    declare_all sema nil = (sema, nil)
    declare_all sema (cons t ts) =
        let a = walk_declare sema t in let b = declare_all (a.0) ts in (b.0, cons a.1 b.1)

  -- `walk_resolve`
  unfoldable mutual
    pub walk_resolve : Sema → Tree → Sema × Tree
    walk_resolve sema (node label children) =
        let h = run_hook hooks.resolve_node (enter sema) label children in
        let i = resolve_ident mem input h.0 h.1 in
        let c = resolve_all (i.0) children in
        let p = run_post hooks.resolve_node_post c.0 i.1 c.1 in
        if leb max_resolve_depth sema.resolve_depth
        then too_deep sema label children
        else (leave p.0, node p.1 c.1)

    pub resolve_all : Sema → Forest → Sema × Forest
    resolve_all sema nil = (sema, nil)
    resolve_all sema (cons t ts) =
        let a = walk_resolve sema t in let b = resolve_all (a.0) ts in (b.0, cons a.1 b.1)

  -- whether a hook is set
  unfoldable pub declare_pass :
      Option (Sema → Label → Forest → Bool × Sema × Label) → Sema → Tree → Sema × Tree
  unfolding walk_declare
  declare_pass none sema root = (sema, root)
  declare_pass (some hook) sema root = walk_declare (record sema { resolve_depth = 0 }) root

  -- `kavak_sema_resolve_names`, at the tree that it chooses
  unfoldable pub resolve_names : Sema → Tree → Sema × Tree
  unfolding declare_pass walk_resolve
  resolve_names sema root =
      let d = declare_pass hooks.declare_node sema root in
      let r = walk_resolve (record (d.0) { resolve_depth = 0 }) d.1 in
      (record (r.0) { resolve_depth = 0 }, r.1)
