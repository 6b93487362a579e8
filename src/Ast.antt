-- ===== src/Ast.antt =====
-- Syntax trees: include/kavak.h section 9 and src/ast.c. Nodes are numbers, and the store holds the
-- three links of each, so that a node may be linked from several places. The walk to the tail runs on
-- fuel; `none` is a walk that has not ended.
pub mod Children
mod Tests
use kavak.Base.{ℕ, zero, suc, Option, none, some, ◌==◌, if◌then◌else◌}

-- The links of every `KavakASTNode`
pub record Nodes : Type 0 where
  pub first_child : ℕ → Option ℕ
  pub last_child : ℕ → Option ℕ
  pub next_sibling : ℕ → Option ℕ

-- an assignment to the field of a node
abbrev pub assign : (ℕ → Option ℕ) → ℕ → Option ℕ → ℕ → Option ℕ
assign field node value i = if i == node then value else field i

-- `while (tail->next_sibling) tail = tail->next_sibling`
unfoldable pub tail_from : ℕ → (ℕ → Option ℕ) → ℕ → Option ℕ
tail_from zero next tail = none
tail_from (suc fuel) next tail = elim (next tail) [
  | none ↦ some tail
  | some sibling ↦ tail_from fuel next sibling
]

-- the last two assignments, behind the child `tail`
abbrev pub link_behind : Nodes → ℕ → ℕ → ℕ → Nodes
link_behind nodes parent tail child = record nodes {
  next_sibling = assign nodes.next_sibling tail (some child);
  last_child = assign nodes.last_child parent (some child);
}

-- the body behind the first assignment, by the two links of the parent
unfoldable pub append_by : ℕ → Nodes → ℕ → ℕ → Option ℕ → Option ℕ → Option Nodes
append_by fuel nodes parent child none last = some (record nodes {
  first_child = assign nodes.first_child parent (some child);
  last_child = assign nodes.last_child parent (some child);
})
append_by fuel nodes parent child (some first) (some last) =
    some (link_behind nodes parent last child)
append_by fuel nodes parent child (some first) none =
    elim (tail_from fuel nodes.next_sibling first) [
      | none ↦ none
      | some tail ↦ some (link_behind nodes parent tail child)
    ]

-- `kavak_ast_append_child`, for nodes that are not NULL
unfoldable pub append_child : ℕ → Nodes → ℕ → ℕ → Option Nodes
unfolding append_by
append_child fuel nodes parent child =
    append_by fuel (record nodes { next_sibling = assign nodes.next_sibling child none }) parent
      child (nodes.first_child parent) (nodes.last_child parent)
