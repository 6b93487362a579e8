-- ===== src/Types/Supers.antt =====
-- The walks over a type hierarchy of src/type.c: conformance, members and exhaustiveness. The hooks of
-- the language are parameters: `supertypes node room` is the count that it reports and the entries that
-- it leaves in the room, and `mem n` says whether an allocation of `n` bytes succeeds.
use kavak.Base.{
  ℕ, zero, suc, ◌*◌, Bool, true, false, not, ◌||◌, List, [], ◌∷◌, Option, none, some, leb, ltb,
  ◌==◌, if◌then◌else◌, length, take,
}
use kavak.Types.{Store, ty_equal_deep, recursion_limit}

-- `KAVAK_TY_SUPERS_CAP` and `KAVAK_TY_VARIANTS_CAP`
abbrev pub supers_cap : ℕ
supers_cap = 16

abbrev pub variants_cap : ℕ
variants_cap = 64

-- a hook that fills an array with types: of a type and the room, the count that it reports and the
-- entries that it leaves
abbrev pub Hook : Type 0
Hook = ℕ → ℕ → ℕ × List (Option ℕ)

-- `visited_seen`
unfoldable pub visited_seen : List ℕ → ℕ → Bool
visited_seen [] node = false
visited_seen (v ∷ visited) node = v == node || visited_seen visited node

-- `fetch_supers`: the entries that the caller looks at
unfoldable pub fetch_supers : (ℕ → Bool) → Hook → ℕ → List (Option ℕ)
fetch_supers mem supertypes node =
    let first = supertypes node supers_cap in
    if leb first.0 supers_cap
    then take first.0 first.1
    else if not (mem (first.0 * 8))
    then take supers_cap first.1
    else let second = supertypes node first.0 in
      take (if ltb second.0 first.0 then second.0 else first.0) second.1

-- the loop over the supertypes, which shares `visited`
unfoldable pub any_from :
    (Option ℕ → List ℕ → Bool × List ℕ) → List (Option ℕ) → List ℕ → Bool × List ℕ
any_from go [] visited = (false, visited)
any_from go (s ∷ supers) visited =
    let r = go s visited in
    let later = any_from go supers (r.1) in if r.0 then (true, r.1) else later

-- the rest of `conforms_dfs`, on a node that is not the goal, with the walk of the next level
unfoldable pub conforms_node :
    (ℕ → List (Option ℕ)) → (Option ℕ → List ℕ → Bool × List ℕ) → ℕ → List ℕ → Bool × List ℕ
unfolding any_from
conforms_node supers go node visited =
    if visited_seen visited node
    then (false, visited)
    else if leb recursion_limit (length visited)
    then (false, visited)
    else any_from go (supers node) (node ∷ visited)

-- `conforms_dfs` with so many levels below the recursion limit left; `visited` holds the newest first
unfoldable pub conforms_dfs :
    Store → (ℕ → List (Option ℕ)) → Option ℕ → ℕ → Option ℕ → List ℕ → Bool × List ℕ
unfolding conforms_node
conforms_dfs types supers goal levels none visited = (false, visited)
conforms_dfs types supers goal zero (some s) visited = (ty_equal_deep types (some s) goal, visited)
conforms_dfs types supers goal (suc levels) (some s) visited =
    let later = conforms_node supers (conforms_dfs types supers goal levels) s visited in
    if ty_equal_deep types (some s) goal then (true, visited) else later

-- `kavak_ty_conforms`; `none` is a language without the hook, which compares only
unfoldable pub ty_conforms : Store → (ℕ → Bool) → Option Hook → Option ℕ → Option ℕ → Bool
unfolding conforms_dfs
ty_conforms types mem hook none goal = false
ty_conforms types mem hook (some s) none = false
ty_conforms types mem none (some s) (some g) = ty_equal_deep types (some s) (some g)
ty_conforms types mem (some supertypes) (some s) (some g) =
    let walk =
      (conforms_dfs types (fetch_supers mem supertypes) (some g) recursion_limit (some s) []).0 in
    if ty_equal_deep types (some s) (some g) then true else walk

-- the nominal relation of the language: `is_subtype`, or the walk over `supertypes`, or none
unfoldable pub subtype_hook :
    Store → (ℕ → Bool) → Option (ℕ → ℕ → Bool) → Option Hook → ℕ → ℕ → Bool
subtype_hook types mem (some is_subtype) supertypes a b = is_subtype a b
subtype_hook types mem none (some supertypes) a b =
    ty_conforms types mem (some supertypes) (some a) (some b)
subtype_hook types mem none none a b = false

-- the inner loop of `kavak_ty_exhaustive`
unfoldable pub covered_by : (Option ℕ → Option ℕ → Bool) → Option ℕ → List (Option ℕ) → Bool
covered_by conforms variant [] = false
covered_by conforms variant (none ∷ covered) = covered_by conforms variant covered
covered_by conforms variant (some c ∷ covered) =
    conforms variant (some c) || covered_by conforms variant covered

-- the outer loop: the answer, and what `missing` is set to
unfoldable pub all_covered :
    (Option ℕ → Option ℕ → Bool) → List (Option ℕ) → List (Option ℕ) → Bool × Option ℕ
all_covered conforms [] covered = (true, none)
all_covered conforms (v ∷ variants) covered =
    let later = all_covered conforms variants covered in
    if covered_by conforms v covered then later else (false, v)

-- `kavak_ty_exhaustive`; `variants room` is the count that the hook reports and the entries it leaves
unfoldable pub ty_exhaustive :
    Store → (ℕ → Bool) → Option Hook → Option Hook → Option ℕ → List (Option ℕ) → Bool × Option ℕ
ty_exhaustive types mem supertypes hook none covered = (false, none)
ty_exhaustive types mem supertypes none (some sealed) covered = (false, none)
ty_exhaustive types mem supertypes (some variants) (some sealed) covered =
    let r = variants sealed variants_cap in
    if r.0 == 0 || ltb variants_cap r.0
    then (false, none)
    else all_covered (ty_conforms types mem supertypes) (take r.0 r.1) covered

-- `find_member_dfs`: the loop over the supertypes, and the node
unfoldable pub first_from :
    (Option ℕ → List ℕ → Option ℕ × List ℕ) → List (Option ℕ) → List ℕ → Option ℕ × List ℕ
first_from go [] visited = (none, visited)
first_from go (s ∷ supers) visited =
    let r = go s visited in
    let later = first_from go supers (r.1) in
    elim (r.0) [ none ↦ later | some member ↦ (some member, r.1) ]

unfoldable pub member_node :
    (ℕ → List (Option ℕ))
    → (ℕ → Option ℕ)
    → (Option ℕ → List ℕ → Option ℕ × List ℕ)
    → ℕ
    → List ℕ
    → Option ℕ × List ℕ
unfolding first_from
member_node supers own go node visited =
    if visited_seen visited node
    then (none, visited)
    else if leb recursion_limit (length visited)
    then (none, visited)
    else elim (own node) [
      | none ↦ first_from go (supers node) (node ∷ visited)
      | some member ↦ (some member, node ∷ visited)
    ]

-- `find_member_dfs`; `own` is the answer of `find_own_member` for the name, and a language without
-- `supertypes` has none
unfoldable pub find_member_dfs :
    (ℕ → List (Option ℕ)) → (ℕ → Option ℕ) → ℕ → Option ℕ → List ℕ → Option ℕ × List ℕ
unfolding member_node
find_member_dfs supers own levels none visited = (none, visited)
find_member_dfs supers own zero (some s) visited = (none, visited)
find_member_dfs supers own (suc levels) (some s) visited =
    member_node supers own (find_member_dfs supers own levels) s visited

-- `kavak_ty_find_member`
unfoldable pub ty_find_member : (ℕ → Bool) → Option Hook → (ℕ → Option ℕ) → Option ℕ → Option ℕ
unfolding find_member_dfs fetch_supers
ty_find_member mem none own s = (find_member_dfs (λ node. []) own recursion_limit s []).0
ty_find_member mem (some supertypes) own s =
    (find_member_dfs (fetch_supers mem supertypes) own recursion_limit s []).0
