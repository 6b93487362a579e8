-- ===== src/Ast/Tests.antt =====
-- Runs of the child lists.
use kavak.Base.{refl, inr, [], ◌∷◌, some, none, arith, ◌==◌, if◌then◌else◌}
use kavak.Ast.{Nodes, append_child}
use kavak.Ast.Children.{IsParent, Appended, append_child-Appended}

-- node 1 has the children 2 and 3, and has lost its last child
abbrev family : Nodes
family = record {
  first_child = λ i. if i == 1 then some 2 else none;
  last_child = λ i. none;
  next_sibling = λ i. if i == 2 then some 3 else none;
}

family-IsParent : IsParent family 1 (2 ∷ 3 ∷ [])
family-IsParent = record { chain = (refl, (refl, refl)); last = inr refl }

append_child-Appended_example : Appended 1 (2 ∷ 3 ∷ []) 4 (append_child 2 family 1 4)
append_child-Appended_example =
    append_child-Appended 2 family 1 4 (2 ∷ 3 ∷ []) family-IsParent ((refl, tt), (tt, tt))
      (refl, (refl, tt)) (omega arith)
