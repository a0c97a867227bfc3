-- ===== src/Trees.antt =====
-- flock_os/flock_os/trees.py: the structural rules and the traversals of the two trees.
-- A node id is any type of keys; an adjacency view is a dictionary.
mod Fuel
pub mod Ancestors
pub mod Order
mod Levels
pub mod Cycles
pub mod Descendants
mod Tests
use flock_os.Base.{
  ℕ, zero, suc, ◌==◌, Eq, Bool, true, not, List, [], ◌∷◌, ◌++◌, Option, none, some, Result, ok, err,
  ◌>>=◌, ◌>>◌, contains, length, filter, if◌then◌else◌,
}
use flock_os.Base.Dict.{lookup, or_default}

-- `FlockTreeError`, by the message; `out_of_fuel` is no outcome of the program: see
-- Trees/Ancestors and Trees/Descendants.
pub data TreeError {ℓ} (K : Type ℓ) : Type ℓ where
  cycle : K → TreeError K
  branch_required : TreeError K
  branch_differs : TreeError K
  out_of_fuel : TreeError K

abbrev pub ParentMap {ℓ} : Type ℓ → Type ℓ
ParentMap K = List (K × Option K)

abbrev pub ChildMap {ℓ} : Type ℓ → Type ℓ
ChildMap K = List (K × List K)

-- What one level of `descendants_of` yields: `seen`, and the additions to `out` and to
-- `next_frontier`.
pub record Level {ℓ} (K : Type ℓ) : Type ℓ where
  pub seen : List K
  pub out : List K
  pub next : List K

module _ {ℓ} {K : Type ℓ} ⦃e : Eq K⦄ where
  -- The second argument says whether `child_branch` is a non-empty text.
  unfoldable pub validate_group_branch_binding :
      Option K → Bool → K → Result (TreeError K) (Unit {0})
  validate_group_branch_binding parent_branch given child_branch =
      if not given then err branch_required else elim parent_branch [
        | none ↦ ok tt
        | some p ↦ if not (p == child_branch) then err branch_differs else ok tt
      ]

  -- `parent_of.get(node)`
  unfoldable pub parent : ParentMap K → K → Option K
  parent parent_of node = or_default none (lookup node parent_of)

  -- `children_of.get(node, ())`
  unfoldable pub children : ChildMap K → K → List K
  children children_of node = or_default [] (lookup node children_of)

  -- The `while` loop of `ancestors_of`; the result is what the loop appends to `chain`.
  unfoldable pub climb : ℕ → ParentMap K → List K → Option K → Result (TreeError K) (List K)
  climb fuel parent_of seen none = ok []
  climb zero parent_of seen (some current) = err out_of_fuel
  climb (suc fuel) parent_of seen (some current) =
      let rest = climb fuel parent_of (current ∷ seen) (parent parent_of current) in
      if contains seen current then err (cycle current) else do chain ← rest; ok (current ∷ chain)

  unfoldable pub ancestors_of : K → ParentMap K → Result (TreeError K) (List K)
  unfolding climb
  ancestors_of node parent_of =
      climb (suc (length parent_of)) parent_of (node ∷ []) (parent parent_of node)

  unfoldable pub path_to_root : K → ParentMap K → Result (TreeError K) (List K)
  path_to_root node parent_of = do chain ← ancestors_of node parent_of; ok (node ∷ chain)

  abbrev pub last_or : K → List K → K
  last_or d [] = d
  last_or d (x ∷ xs) = last_or x xs

  unfoldable pub root_of : K → ParentMap K → Result (TreeError K) K
  root_of node parent_of = do chain ← ancestors_of node parent_of; ok (last_or node chain)

  unfoldable pub is_ancestor_of : K → K → ParentMap K → Result (TreeError K) Bool
  is_ancestor_of candidate node parent_of = do
    chain ← ancestors_of node parent_of
    ok (contains chain candidate)

  unfoldable pub is_descendant_of : K → K → ParentMap K → Result (TreeError K) Bool
  unfolding is_ancestor_of
  is_descendant_of candidate node parent_of = is_ancestor_of node candidate parent_of

  unfoldable pub depth_of : K → ParentMap K → Result (TreeError K) ℕ
  depth_of node parent_of = do chain ← ancestors_of node parent_of; ok (length chain)

  -- The `for` loop over one frontier.
  unfoldable pub visit_level : ChildMap K → List K → List K → Result (TreeError K) (Level K)
  visit_level children_of seen [] = ok (record { seen = seen; out = []; next = [] })
  visit_level children_of seen (child ∷ frontier) =
      let rest = visit_level children_of (child ∷ seen) frontier in
      if contains seen child then err (cycle child) else do
        level ← rest
        ok (record level {
          out = child ∷ level.out;
          next = children children_of child ++ level.next;
        })

  -- The `while` loop of `descendants_of`; the result is what the loop appends to `out`.
  unfoldable pub visit_levels : ℕ → ChildMap K → List K → List K → Result (TreeError K) (List K)
  visit_levels fuel children_of seen [] = ok []
  visit_levels zero children_of seen (child ∷ frontier) = err out_of_fuel
  visit_levels (suc fuel) children_of seen (child ∷ frontier) = do
    level ← visit_level children_of seen (child ∷ frontier)
    below ← visit_levels fuel children_of level.seen level.next
    ok (level.out ++ below)

  unfoldable pub descendants_of : K → ChildMap K → Result (TreeError K) (List K)
  unfolding visit_levels visit_level
  descendants_of node children_of =
      visit_levels (suc (suc (length children_of))) children_of (node ∷ [])
        (children children_of node)

  unfoldable pub subtree_of : K → ChildMap K → Result (TreeError K) (List K)
  subtree_of node children_of = do below ← descendants_of node children_of; ok (node ∷ below)

  abbrev pub is_nil : List K → Bool
  is_nil [] = true
  is_nil (x ∷ xs) = not true

  unfoldable pub leaves_under : K → ChildMap K → Result (TreeError K) (List K)
  unfolding subtree_of
  leaves_under node children_of = do
    subtree ← subtree_of node children_of
    ok (filter (λ n. is_nil (children children_of n)) subtree)
