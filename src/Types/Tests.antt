-- ===== src/Types/Tests.antt =====
-- A small store of types, and runs on it: a pair of types that contain themselves, a nullable, a generic
-- type with its instance, and a sealed hierarchy.
use kavak.Base.{
  ℕ, zero, suc, ◌≡◌, ◌↔◌, refl, Bool, true, false, List, [], ◌∷◌, ◌++◌, Option, none, some, ◌==◌,
  if◌then◌else◌, arith,
}
use kavak.Types.{
  TypeInfo, plain, nullable, function, named, param, Store, equal_pair_seen, equal_tests,
  deep_switch, equal_deep_inner, ty_equal_deep, nominal_switch, equal_nominal_inner,
  ty_equal_nominal, recursion_limit,
}
use kavak.Types.Equal.{ty_equal_deep-Agree}
use kavak.Types.Related.{Agree}
use kavak.Types.Relate.{assignable_core, assignable_inner, ty_assignable}
use kavak.Types.Relate.Rules.{Assignable, Declares, ty_assignable-Assignable}
use kavak.Types.Lenient.{
  Subst, subst_already_bound, then_learn, learn_all, unify_switch, unify_param, unify_types,
  unify_inner, ty_unify,
}
use kavak.Types.Unify.{Learned, ty_unify-Learned}
use kavak.Types.Supers.{
  Hook, visited_seen, fetch_supers, any_from, conforms_node, conforms_dfs, ty_conforms, covered_by,
  all_covered, ty_exhaustive, first_from, member_node, find_member_dfs, ty_find_member,
}
use kavak.Types.Conforms.{Reaches, ty_conforms-Reaches}
use kavak.Types.Exhaustive.{Verdict, ty_exhaustive-Verdict}
use kavak.Types.Strict.{
  ok, conflict, occurs, mentions_switch, type_mentions_param, find_binding, and_then, unify_all,
  unify_receiver, strict_switch, bind_param, strict_param, strict_types, strict_inner,
  ty_unify_strict,
}
use kavak.Types.Strict.Matches.{Matches}
use kavak.Types.Strict.Sound.{ty_unify_strict-Matches}

abbrev type_at : List TypeInfo → ℕ → TypeInfo
type_at [] n = plain 0
type_at (t ∷ types) zero = t
type_at (t ∷ types) (suc n) = type_at types n

abbrev box_name : Option (List ℕ)
box_name = some (66 ∷ 111 ∷ 120 ∷ [])

abbrev rec_name : Option (List ℕ)
rec_name = some (82 ∷ [])

abbrev t_name : Option (List ℕ)
t_name = some (84 ∷ [])

-- 0 Int, 1 String, 2 Never, 3 Any, 4 Int?, 5 T, 6 Box<T>, 7 Box<Int>, 8 and 9 types R<R<…>> that contain
-- themselves, 10 (T, T) -> T?, 11 (Int, Int) -> Int?, 12 (Int, String) -> Int?, 13 Box<Box<T>>
abbrev store : Store
store = type_at (
    plain 8
    ∷ plain 16
    ∷ plain 2
    ∷ plain 3
    ∷ nullable (some 0)
    ∷ param t_name 0 none
    ∷ named box_name (some 5 ∷ []) none none
    ∷ named box_name (some 0 ∷ []) none none
    ∷ named rec_name (some 8 ∷ []) none none
    ∷ named rec_name (some 9 ∷ []) none none
    ∷ function 0 none (some 5 ∷ some 5 ∷ []) (some 5)
    ∷ function 0 none (some 0 ∷ some 0 ∷ []) (some 0)
    ∷ function 0 none (some 0 ∷ some 1 ∷ []) (some 0)
    ∷ named box_name (some 6 ∷ []) none none
    ∷ [])

-- deep equality
cyclic_equal : ty_equal_deep store (some 8) (some 9) ≡ true
unfolding ty_equal_deep equal_deep_inner equal_tests deep_switch equal_pair_seen
cyclic_equal = refl

box_unequal : ty_equal_deep store (some 6) (some 7) ≡ false
unfolding ty_equal_deep equal_deep_inner equal_tests deep_switch equal_pair_seen
box_unequal = refl

box_nominal : ty_equal_nominal store (some 6) (some 7) ≡ true
unfolding ty_equal_nominal equal_nominal_inner equal_tests nominal_switch equal_pair_seen
box_nominal = refl

ty_equal_deep-Agree_example : Agree store 3 (some 8) (some 9)
ty_equal_deep-Agree_example = ty_equal_deep-Agree store (some 8) (some 9) cyclic_equal 3

-- assignability
abbrev memory : ℕ → Bool
memory n = true

int_to_nullable : ty_assignable store memory none none (some 0) (some 4) ≡ true
unfolding ty_assignable assignable_inner ty_equal_deep equal_deep_inner equal_tests deep_switch
    equal_pair_seen
int_to_nullable = refl

nullable_to_int : ty_assignable store memory none none (some 4) (some 0) ≡ false
unfolding ty_assignable assignable_inner assignable_core ty_equal_deep equal_deep_inner equal_tests
    deep_switch equal_pair_seen
nullable_to_int = refl

ty_assignable-Assignable_example :
    (ty_assignable store memory none none (some 0) (some 4) ≡ true)
    ↔ Assignable store (Declares store memory none none) 511 (some 0) (some 4)
ty_assignable-Assignable_example = ty_assignable-Assignable store memory none none (some 0) (some 4)

-- unification
lenient_run : ty_unify store 4 (some 10) (some 12) [] ≡ (1, (5, 0) ∷ [])
unfolding ty_unify unify_inner unify_types unify_switch unify_param learn_all then_learn
    subst_already_bound
lenient_run = refl

ty_unify-Learned_example : Learned store 4 [] (ty_unify store 4 (some 10) (some 12) [])
ty_unify-Learned_example =
    ty_unify-Learned store 4 (some 10) (some 12) [] (ground arith) (ground arith) tt

strict_conflict : (ty_unify_strict store 4 (some 10) (some 12) []).0 ≡ conflict
unfolding ty_unify_strict strict_inner strict_types strict_switch strict_param bind_param unify_all
    unify_receiver and_then find_binding type_mentions_param mentions_switch ty_equal_deep
    equal_deep_inner equal_tests deep_switch equal_pair_seen
strict_conflict = refl

strict_occurs : (ty_unify_strict store 4 (some 6) (some 13) []).0 ≡ occurs
unfolding ty_unify_strict strict_inner strict_types strict_switch strict_param bind_param unify_all
    unify_receiver and_then find_binding type_mentions_param mentions_switch ty_equal_deep
    equal_deep_inner equal_tests deep_switch equal_pair_seen
strict_occurs = refl

strict_ok : (ty_unify_strict store 4 (some 10) (some 11) []).0 ≡ ok
unfolding ty_unify_strict strict_inner strict_types strict_switch strict_param bind_param unify_all
    unify_receiver and_then find_binding type_mentions_param mentions_switch ty_equal_deep
    equal_deep_inner equal_tests deep_switch equal_pair_seen
strict_ok = refl

ty_unify_strict-Matches_example :
    (more : Subst) × ((ty_unify_strict store 4 (some 10) (some 11) []).1 ≡ [] ++ more)
    × Matches store
        (ty_unify_strict store 4 (some 10) (some 11) []).1
        recursion_limit
        (some 10)
        (some 11)
ty_unify_strict-Matches_example = ty_unify_strict-Matches store 4 (some 10) (some 11) [] strict_ok

-- a hierarchy in which 0 is below 1 and 7, and 7 is below 8
abbrev direct : ℕ → ℕ → ℕ × List (Option ℕ)
direct node room =
    if node == 0 then (2, some 1 ∷ some 7 ∷ []) else if node == 7 then (1, some 8 ∷ []) else (0, [])

conforms_run : ty_conforms store memory (some direct) (some 0) (some 9) ≡ true
unfolding ty_conforms conforms_dfs conforms_node any_from visited_seen fetch_supers ty_equal_deep
    equal_deep_inner equal_tests deep_switch equal_pair_seen
conforms_run = refl

ty_conforms-Reaches_example : Reaches store (fetch_supers memory direct) (some 9) (some 0)
ty_conforms-Reaches_example = ty_conforms-Reaches store memory direct (some 0) (some 9) conforms_run

member_run :
    ty_find_member memory (some direct) (λ node. if node == 8 then some 4 else none) (some 0)
    ≡ some 4
unfolding ty_find_member find_member_dfs member_node first_from visited_seen fetch_supers
member_run = refl

-- a sealed type with the variants 1 and 7
abbrev variants : Hook
variants sealed room = (2, some 1 ∷ some 7 ∷ [])

missing_run :
    ty_exhaustive store memory none (some variants) (some 3) (none ∷ some 1 ∷ []) ≡ (false, some 7)
unfolding ty_exhaustive all_covered covered_by ty_conforms ty_equal_deep equal_deep_inner
    equal_tests deep_switch equal_pair_seen
missing_run = refl

ty_exhaustive-Verdict_example :
    Verdict
      (ty_conforms store memory (some direct))
      (some 1 ∷ some 7 ∷ [])
      (none ∷ some 1 ∷ [])
      (ty_exhaustive store memory (some direct) (some variants) (some 3) (none ∷ some 1 ∷ []))
ty_exhaustive-Verdict_example =
    ty_exhaustive-Verdict store memory (some direct) variants 3 (none ∷ some 1 ∷ []) (ground arith)
      (ground arith)
