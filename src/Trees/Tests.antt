-- ===== src/Trees/Tests.antt =====
-- The theorems at small trees, and runs of the traversals.
use flock_os.Trees.Ancestors.{ancestors_of_outcome, IsChain}
use flock_os.Trees.Descendants.{descendants_of_outcome, Below}
use flock_os.Trees.Cycles.{MetTwice}
use flock_os.Trees.{
  cycle, ParentMap, ChildMap, parent, children, ancestors_of, root_of, is_ancestor_of, depth_of,
  descendants_of, leaves_under,
}
use flock_os.Base.{
  string_eq, ◌≡◌, ◌↔◌, ◌⊎◌, refl, String, true, List, [], ◌∷◌, none, some, ok, err, contains,
  IsDistinct,
}

-- cell in zone in root
abbrev up : ParentMap String
up = ("cell", some "zone") ∷ ("zone", some "root") ∷ ("root", none) ∷ []

abbrev down : ChildMap String
down = ("root", "zone" ∷ "east" ∷ []) ∷ ("zone", "cell" ∷ []) ∷ ("cell", []) ∷ []

abbrev looped : ParentMap String
looped = ("a", some "b") ∷ ("b", some "a") ∷ []

ancestors_of-cell : ancestors_of "cell" up ≡ ok ("zone" ∷ "root" ∷ [])
unfolding ancestors_of parent
ancestors_of-cell = refl

ancestors_of-looped : ancestors_of "a" looped ≡ err (cycle "a")
unfolding ancestors_of parent
ancestors_of-looped = refl

descendants_of-root : descendants_of "root" down ≡ ok ("zone" ∷ "east" ∷ "cell" ∷ [])
unfolding descendants_of children
descendants_of-root = refl

leaves_under-root : leaves_under "root" down ≡ ok ("east" ∷ "cell" ∷ [])
unfolding leaves_under descendants_of children
leaves_under-root = refl

depth_of-cell : depth_of "cell" up ≡ ok 2
unfolding depth_of ancestors_of parent
depth_of-cell = refl

root_of-cell : root_of "cell" up ≡ ok "root"
unfolding root_of ancestors_of parent
root_of-cell = refl

ancestors_of_outcome_example :
    ((chain : List String) × (ancestors_of "a" looped ≡ ok chain)
      × IsChain looped "a" chain
      × IsDistinct ("a" ∷ chain))
    ⊎ ((c : String) × (ancestors_of "a" looped ≡ err (cycle c))
        × ((chain : List String) → ¬ IsChain looped "a" chain))
ancestors_of_outcome_example = ancestors_of_outcome looped "a"

root_above_zone : is_ancestor_of "root" "zone" up ≡ ok true
unfolding is_ancestor_of ancestors_of parent
root_above_zone = refl

zone_above_cell : is_ancestor_of "zone" "cell" up ≡ ok true
unfolding is_ancestor_of ancestors_of parent
zone_above_cell = refl

descendants_of_outcome_example :
    ((out : List String) × (descendants_of "root" down ≡ ok out)
      × IsDistinct ("root" ∷ out)
      × ((a : String) → (contains out a ≡ true) ↔ Below down "root" a))
    ⊎ ((c : String) × (descendants_of "root" down ≡ err (cycle c)) × MetTwice down "root" c)
descendants_of_outcome_example = descendants_of_outcome down "root"
