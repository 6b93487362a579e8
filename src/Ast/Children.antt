-- ===== src/Ast/Children.antt =====
-- What `kavak_ast_append_child` does to the list of children.
use kavak.Base.{
  ℕ, zero, suc, ◌<◌, ◌≤◌, ◌≡◌, refl, sym, ap, ◌∙◌, ◌⊎◌, inl, inr, false, List, [], ◌∷◌, ◌++◌,
  Option, none, some, ◌==◌, length, All, arith,
}
use kavak.Ast.{Nodes, assign, tail_from, link_behind, append_by, append_child}

-- The siblings from a link on are these.
abbrev pub Chain : (ℕ → Option ℕ) → Option ℕ → List ℕ → Type 0
Chain next link [] = link ≡ none
Chain next link (c ∷ cs) = (link ≡ some c) × Chain next (next c) cs

-- The last of the children `c ∷ cs`.
abbrev pub last_of : ℕ → List ℕ → ℕ
last_of c [] = c
last_of c (d ∷ cs) = last_of d cs

-- `last_child` is the last child, or cleared.
abbrev pub LastIs : Option ℕ → List ℕ → Type 0
LastIs link [] = Unit
LastIs link (c ∷ cs) = (link ≡ some (last_of c cs)) ⊎ (link ≡ none)

abbrev pub Distinct : List ℕ → Type 0
Distinct [] = Unit
Distinct (c ∷ cs) = All (λ d. (c == d) ≡ false) cs × Distinct cs

-- The children of a node.
pub record IsParent (nodes : Nodes) (parent : ℕ) (cs : List ℕ) : Type 0 where
  pub chain : Chain nodes.next_sibling (nodes.first_child parent) cs
  pub last : LastIs (nodes.last_child parent) cs

-- What an append promises: it ends, and the child is behind the others.
abbrev pub Appended : ℕ → List ℕ → ℕ → Option Nodes → Type 0
Appended parent cs child none = ⊥
Appended parent cs child (some nodes) =
    IsParent nodes parent (cs ++ child ∷ []) × (nodes.last_child parent ≡ some child)

assign_same :
    (field : ℕ → Option ℕ) (node : ℕ) (value : Option ℕ) → assign field node value node ≡ value
assign_same field node value = ground arith

assign_other :
    (field : ℕ → Option ℕ) (node i : ℕ) (value : Option ℕ)
    → (i == node) ≡ false
    → assign field node value i ≡ field i
assign_other field node i value h = rw h refl

==_comm : (i j : ℕ) → (i == j) ≡ (j == i)
==_comm i j = ground arith

last_of-All : (P : ℕ → Type 0) (c : ℕ) (cs : List ℕ) → P c → All P cs → P (last_of c cs)
last_of-All P c [] h k = h
last_of-All P c (d ∷ cs) h k = last_of-All P d cs k.0 k.1

-- an assignment to a node outside the chain
Chain-assign :
    (next : ℕ → Option ℕ) (link : Option ℕ) (cs : List ℕ) (node : ℕ) (value : Option ℕ)
    → All (λ c. (node == c) ≡ false) cs
    → Chain next link cs
    → Chain (assign next node value) link cs
Chain-assign next link [] node value other h = h
Chain-assign next link (c ∷ cs) node value other h = (
  h.0,
  Chain-assign next (assign next node value c) cs node value other.1
      (rw (assign_other next node c value (==_comm c node ∙ other.0)) (h.1)),
)

-- the assignment behind the last of the chain
Chain-link :
    (next : ℕ → Option ℕ) (link : Option ℕ) (c : ℕ) (cs : List ℕ) (child : ℕ)
    → Chain next link (c ∷ cs)
    → Distinct (c ∷ cs)
    → All (λ d. (child == d) ≡ false) (c ∷ cs)
    → next child ≡ none
    → Chain (assign next (last_of c cs) (some child)) link ((c ∷ cs) ++ child ∷ [])
Chain-link next link c [] child h distinct fresh end_ =
    (h.0, (assign_same next c (some child), assign_other next c child (some child) fresh.0 ∙ end_))
Chain-link next link c (d ∷ cs) child h distinct fresh end_ =
    let apart : (c == last_of d cs) ≡ false =
      last_of-All (λ x. (c == x) ≡ false) d cs distinct.0.0 distinct.0.1 in
    (
      h.0,
      rw (assign_other next (last_of d cs) c (some child) apart)
          (Chain-link next (next c) d cs child h.1 distinct.1 fresh.1 end_),
    )

tail_from-last_of :
    (fuel : ℕ) (next : ℕ → Option ℕ) (c : ℕ) (cs : List ℕ)
    → Chain next (next c) cs
    → length cs < fuel
    → tail_from fuel next c ≡ some (last_of c cs)
unfolding tail_from
tail_from-last_of zero next c cs h enough = absurd (omega (arith, enough))
tail_from-last_of (suc fuel) next c [] h enough = rw (h, tail_from) refl
tail_from-last_of (suc fuel) next c (d ∷ cs) h enough =
    rw (h.0, tail_from) (tail_from-last_of fuel next d cs h.1 (omega (arith, enough)))

last_of-append : (c : ℕ) (cs : List ℕ) (child : ℕ) → last_of c (cs ++ child ∷ []) ≡ child
last_of-append c [] child = refl
last_of-append c (d ∷ cs) child = last_of-append d cs child

module _ (fuel : ℕ) (nodes : Nodes) (parent child : ℕ) where
  -- the store with the child's link cleared
  cleared : Nodes
  cleared = record nodes { next_sibling = assign nodes.next_sibling child none }

  linked :
      (c : ℕ) (cs : List ℕ)
      → IsParent nodes parent (c ∷ cs)
      → Distinct (c ∷ cs)
      → All (λ d. (child == d) ≡ false) (c ∷ cs)
      → Appended parent (c ∷ cs) child (some (link_behind cleared parent (last_of c cs) child))
  unfolding cleared
  linked c cs v distinct fresh =
      let next = assign nodes.next_sibling child none in
      (
        record {
          chain =
              Chain-link next (nodes.first_child parent) c cs child
                (Chain-assign nodes.next_sibling (nodes.first_child parent) (c ∷ cs) child none
                  fresh v.chain)
                distinct fresh (assign_same nodes.next_sibling child none);
          last = inl (
              assign_same nodes.last_child parent (some child)
              ∙ ap some (sym (last_of-append c cs child)));
        },
        assign_same nodes.last_child parent (some child),
      )

  append_by-Appended :
      (cs : List ℕ) (first last : Option ℕ)
      → first ≡ nodes.first_child parent
      → last ≡ nodes.last_child parent
      → IsParent nodes parent cs
      → Distinct cs
      → All (λ d. (child == d) ≡ false) cs
      → length cs ≤ fuel
      → Appended parent cs child (append_by fuel cleared parent child first last)
  unfolding append_by cleared
  append_by-Appended [] none last ef el v distinct fresh enough = (
    record {
      chain = (
        assign_same nodes.first_child parent (some child),
        assign_same nodes.next_sibling child none,
      );
      last = inl (assign_same nodes.last_child parent (some child));
    },
    assign_same nodes.last_child parent (some child),
  )
  append_by-Appended [] (some f) last ef el v distinct fresh enough =
      absurd (ground (arith, ef, v.chain))
  append_by-Appended (c ∷ cs) none last ef el v distinct fresh enough =
      absurd (ground (arith, ef, v.chain))
  append_by-Appended (c ∷ cs) (some f) (some l) ef el v distinct fresh enough = elim (v.last) [
    | inl at_ ↦
        let same : l ≡ last_of c cs = ground (arith, el ∙ at_) in
        rw same (linked c cs v distinct fresh)
    | inr lost ↦ absurd (ground (arith, el, lost))
  ]
  append_by-Appended (c ∷ cs) (some f) none ef el v distinct fresh enough =
      let head : f ≡ c = ground (arith, ef ∙ v.chain.0) in
      let cleared_chain =
        Chain-assign nodes.next_sibling (nodes.first_child parent) (c ∷ cs) child none fresh
          v.chain in
      let found =
        tail_from-last_of fuel (assign nodes.next_sibling child none) c cs cleared_chain.1
          (omega (arith, enough)) in
      rw (head, append_by, found) (linked c cs v distinct fresh)

-- `kavak_ast_append_child` puts a child that is not among the parent's children behind them, keeps them
-- in order, and makes it the last one, also where `last_child` has been cleared; the walk to the
-- tail that this needs ends within as many steps as there are children.
pub append_child-Appended :
    (fuel : ℕ) (nodes : Nodes) (parent child : ℕ) (cs : List ℕ)
    → IsParent nodes parent cs
    → Distinct cs
    → All (λ d. (child == d) ≡ false) cs
    → length cs ≤ fuel
    → Appended parent cs child (append_child fuel nodes parent child)
unfolding append_child cleared
append_child-Appended fuel nodes parent child cs v distinct fresh enough =
    append_by-Appended fuel nodes parent child cs (nodes.first_child parent)
      (nodes.last_child parent) refl refl v distinct fresh enough
