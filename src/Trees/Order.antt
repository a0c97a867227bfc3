-- ===== src/Trees/Order.antt =====
-- What the derived traversals mean: ancestry, depth and root.
use flock_os.Trees.Ancestors.{
  ancestors_of_iff, IsChain, IsWalk-unique, IsChain-avoids, IsWalk-above,
}
use flock_os.Trees.{ParentMap, parent, ancestors_of, root_of, is_ancestor_of, depth_of, last_or}
use flock_os.Base.{
  ℕ, suc, ◌≡◌, ◌≢◌, Eq, Bool, true, List, [], ◌∷◌, none, some, arith, contains, length, ok, ap, ◌∙◌,
  sym, subst, >>=-eq-ok,
}

module _ {ℓ} {K : Type ℓ} ⦃e : Eq K⦄ (parent_of : ParentMap K) where
  depth_of-IsChain :
      (node : K) (chain : List K)
      → IsChain parent_of node chain
      → depth_of node parent_of ≡ ok (length chain)
  unfolding depth_of
  depth_of-IsChain node chain w = rw ((ancestors_of_iff parent_of node chain).1 w)

  IsChain-depth_of :
      (node : K) (n : ℕ)
      → depth_of node parent_of ≡ ok n
      → (chain : List K) × IsChain parent_of node chain × (n ≡ length chain)
  unfolding depth_of
  IsChain-depth_of node n h =
      let (chain, found, same) = >>=-eq-ok (ancestors_of node parent_of) _ h in
      (chain, (ancestors_of_iff parent_of node chain).0 found, ground arith)

  -- The depth of a node with a parent is one more than that of its parent.
  pub depth_of-parent :
      (node p : K) (n : ℕ)
      → parent parent_of node ≡ some p
      → depth_of node parent_of ≡ ok n
      → (m : ℕ) × (depth_of p parent_of ≡ ok m) × (n ≡ suc m)
  depth_of-parent node p n up h =
      let (chain, w, size) = IsChain-depth_of node n h in go chain w size
    where
      go :
          (chain : List K)
          → IsChain parent_of node chain
          → n ≡ length chain
          → (m : ℕ) × (depth_of p parent_of ≡ ok m) × (n ≡ suc m)
      go [] w size = cc
      go (y ∷ chain) w size =
          let same : y ≡ p = ground arith in
          (
            length chain,
            depth_of-IsChain p chain (subst (λ x. IsChain parent_of x chain) same w.1),
            size,
          )

  root_of-IsChain :
      (node : K) (chain : List K)
      → IsChain parent_of node chain
      → root_of node parent_of ≡ ok (last_or node chain)
  unfolding root_of
  root_of-IsChain node chain w = rw ((ancestors_of_iff parent_of node chain).1 w)

  IsChain-root_of :
      (node r : K)
      → root_of node parent_of ≡ ok r
      → (chain : List K) × IsChain parent_of node chain × (r ≡ last_or node chain)
  unfolding root_of
  IsChain-root_of node r h =
      let (chain, found, same) = >>=-eq-ok (ancestors_of node parent_of) _ h in
      (chain, (ancestors_of_iff parent_of node chain).0 found, ground arith)

  last_or-IsWalk :
      (x : K) (chain : List K)
      → IsChain parent_of x chain
      → parent parent_of (last_or x chain) ≡ none
  last_or-IsWalk x [] w = w
  last_or-IsWalk x (y ∷ chain) w = last_or-IsWalk y chain w.1

  -- The root of a node has no parent, and is the root of the node's parent.
  pub root_of-parent :
      (node p r : K)
      → parent parent_of node ≡ some p
      → root_of node parent_of ≡ ok r
      → (parent parent_of r ≡ none) × (root_of p parent_of ≡ ok r)
  root_of-parent node p r up h = let (chain, w, last) = IsChain-root_of node r h in go chain w last
    where
      go :
          (chain : List K)
          → IsChain parent_of node chain
          → r ≡ last_or node chain
          → (parent parent_of r ≡ none) × (root_of p parent_of ≡ ok r)
      go [] w last = cc
      go (y ∷ chain) w last =
          let same : y ≡ p = ground arith in
          (
            subst (λ x. parent parent_of x ≡ none) (sym last) (last_or-IsWalk y chain w.1),
            subst (λ x. root_of x parent_of ≡ ok r) same
                (root_of-IsChain y chain w.1 ∙ ap ok (sym last)),
          )

  is_ancestor_of-IsChain :
      (candidate node : K) (chain : List K)
      → IsChain parent_of node chain
      → is_ancestor_of candidate node parent_of ≡ ok (contains chain candidate)
  unfolding is_ancestor_of
  is_ancestor_of-IsChain candidate node chain w = rw ((ancestors_of_iff parent_of node chain).1 w)

  IsChain-is_ancestor_of :
      (candidate node : K) (b : Bool)
      → is_ancestor_of candidate node parent_of ≡ ok b
      → (chain : List K) × IsChain parent_of node chain × (b ≡ contains chain candidate)
  unfolding is_ancestor_of
  IsChain-is_ancestor_of candidate node b h =
      let (chain, found, same) = >>=-eq-ok (ancestors_of node parent_of) _ h in
      (chain, (ancestors_of_iff parent_of node chain).0 found, ground arith)

  ancestor_of_self : (a : K) → is_ancestor_of a a parent_of ≢ ok true
  ancestor_of_self a h =
      let (chain, w, inside) = IsChain-is_ancestor_of a a true h in
      cc (IsChain-avoids parent_of a chain w, inside)

  ancestor_of_ancestor :
      (a b c : K)
      → is_ancestor_of a b parent_of ≡ ok true
      → is_ancestor_of b c parent_of ≡ ok true
      → is_ancestor_of a c parent_of ≡ ok true
  ancestor_of_ancestor a b c h k =
      let (lower, w, inside) = IsChain-is_ancestor_of b c true k in
      let (upper, v, above) = IsChain-is_ancestor_of a b true h in
      let (rest, up, shorter, part) =
        IsWalk-above parent_of (parent parent_of c) lower b w (sym inside) in
      let same = IsWalk-unique parent_of (parent parent_of b) upper rest v up in
      is_ancestor_of-IsChain a c lower w
      ∙ ap ok (part a (ap (λ l. contains l a) (sym same) ∙ sym above))

  -- Ancestry is a strict order: the ancestors of an ancestor are ancestors, and none of them is the
  -- node itself.
  pub is_ancestor_of_strict :
      (a b c : K)
      → is_ancestor_of a b parent_of ≡ ok true
      → is_ancestor_of b c parent_of ≡ ok true
      → (is_ancestor_of a c parent_of ≡ ok true) × (a ≢ c)
  is_ancestor_of_strict a b c h k = (
    ancestor_of_ancestor a b c h k,
    λ same. ancestor_of_self a (
        subst (λ x. is_ancestor_of a x parent_of ≡ ok true) (sym same)
          (ancestor_of_ancestor a b c h k)),
  )
