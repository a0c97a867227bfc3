-- ===== src/Trees/Descendants.antt =====
-- The breadth-first walk down the children, and the nodes that can be reached.
use flock_os.Trees.Fuel.{unseen-le-length}
use flock_os.Trees.Levels.{children_of_all, IsFresh, Passed, visit_level-Passed}
use flock_os.Trees.{cycle, ChildMap, children, Level, visit_level, visit_levels, descendants_of}
use flock_os.Base.{
  ℕ, zero, suc, ◌≡◌, ◌==◌, ◌↔◌, Eq, Bool-cases, inl, inr, true, false, List, [], ◌∷◌, ◌++◌, arith,
  contains, length, ok, err, Result-cases, contains-append, >>=-eq-ok, IsDistinct, subst, ap, refl,
  sym, ◌⊎◌, ◌∙◌, ◌||◌,
}
use flock_os.Trees.Cycles.{MetTwice, visit_levels_errors}

module _ {ℓ} {K : Type ℓ} ⦃e : Eq K⦄ (children_of : ChildMap K) where
  -- `Below a b`: `b` is a child of `a`, or below one.
  pub data Below : K → K → Type ℓ where
    child : {a b : K} → contains (children children_of a) b ≡ true → Below a b
    deeper : {a b c : K} → contains (children children_of a) b ≡ true → Below b c → Below a c

  -- A node at or below the frontier.
  abbrev Reached : List K → K → Type ℓ
  Reached frontier a = (c : K) × (contains frontier c ≡ true) × ((c ≡ a) ⊎ Below c a)

  parent_in :
      (frontier : List K) (b : K)
      → contains (children_of_all children_of frontier) b ≡ true
      → (a : K) × (contains frontier a ≡ true) × (contains (children children_of a) b ≡ true)
  parent_in [] b h = cc
  parent_in (c ∷ frontier) b h = elim (Bool-cases (contains (children children_of c) b)) [
    | inl mine ↦ (c, ground (arith, e.test_iff c c), mine)
    | inr other ↦
        let rest = parent_in frontier b (
          ground (
            arith,
            contains-append (children children_of c) (children_of_all children_of frontier) b,
          )) in
        (rest.0, ground (arith, rest.1), rest.2)
  ]

  child_in :
      (frontier : List K) (a b : K)
      → contains frontier a ≡ true
      → contains (children children_of a) b ≡ true
      → contains (children_of_all children_of frontier) b ≡ true
  child_in [] a b h k = cc
  child_in (c ∷ frontier) a b h k = ground (
    arith,
    contains-append (children children_of c) (children_of_all children_of frontier) b,
    e.test_iff c a,
    child_in frontier a b,
  )

  IsFresh-ext :
      (s t ys : List K) → ((a : K) → contains s a ≡ contains t a) → IsFresh s ys → IsFresh t ys
  IsFresh-ext s t [] same f = tt
  IsFresh-ext s t (y ∷ ys) same f =
      (sym (same y) ∙ f.0, IsFresh-ext (y ∷ s) (y ∷ t) ys (λ a. ap (λ b. y == a || b) (same a)) f.1)

  IsFresh-append :
      (s t xs ys : List K)
      → ((a : K) → contains t a ≡ (contains s a || contains xs a))
      → IsFresh s xs
      → IsFresh t ys
      → IsFresh s (xs ++ ys)
  IsFresh-append s t [] ys same f g = IsFresh-ext t s ys (λ a. ground (arith, same a)) g
  IsFresh-append s t (x ∷ xs) ys same f g =
      (f.0, IsFresh-append (x ∷ s) t xs ys (λ a. ground (arith, same a)) f.1 g)

  -- What a successful walk has listed.
  record Listed (seen frontier out : List K) : Type ℓ where
    fresh : IsFresh seen out
    starts : (a : K) → contains frontier a ≡ true → contains out a ≡ true
    closed :
        (a b : K)
        → contains out a ≡ true
        → contains (children children_of a) b ≡ true
        → contains out b ≡ true
    reached : (a : K) → contains out a ≡ true → Reached frontier a

  Listed-level :
      (seen frontier below : List K) (level : Level K)
      → Passed children_of seen frontier level
      → Listed level.seen level.next below
      → Listed seen frontier (frontier ++ below)
  Listed-level seen frontier below level p l = record {
    fresh = IsFresh-append seen level.seen frontier below p.seen_after p.fresh l.fresh;
    starts = λ a h. ground (arith, contains-append frontier below a);
    closed = λ a b h k. elim (Bool-cases (contains frontier a)) [
      | inl here ↦
          let next : contains level.next b ≡ true =
            ap (λ xs. contains xs b) p.next ∙ child_in frontier a b here k in
          ground (arith, contains-append frontier below b, l.starts b next)
      | inr gone ↦
          let down : contains below a ≡ true = ground (arith, contains-append frontier below a) in
          ground (arith, contains-append frontier below b, l.closed a b down k)
    ];
    reached = λ a h. elim (Bool-cases (contains frontier a)) [
      | inl here ↦ (a, here, inl refl)
      | inr gone ↦
          let (c, start, way) = l.reached a (ground (arith, contains-append frontier below a)) in
          let (d, top, kid) =
            parent_in frontier c (sym (ap (λ xs. contains xs c) p.next) ∙ start) in
          (
            d,
            top,
            inr (elim way [
              | inl same ↦ child (subst (λ x. contains (children children_of d) x ≡ true) same kid)
              | inr lower ↦ deeper kid lower
            ]),
          )
    ];
  }

  visit_levels-Listed :
      (fuel : ℕ) (seen frontier out : List K)
      → visit_levels fuel children_of seen frontier ≡ ok out
      → Listed seen frontier out
  unfolding visit_levels
  visit_levels-Listed fuel seen [] [] h = record {
    fresh = tt;
    starts = λ a k. k;
    closed = λ a b k. cc;
    reached = λ a k. cc;
  }
  visit_levels-Listed fuel seen [] (a ∷ out) h = cc
  visit_levels-Listed zero seen (c ∷ frontier) out h = cc
  visit_levels-Listed (suc fuel) seen (c ∷ frontier) out h =
      let (level, passed, rest) = >>=-eq-ok (visit_level children_of seen (c ∷ frontier)) _ h in
      let (below, walked, same) =
        >>=-eq-ok (visit_levels fuel children_of level.seen level.next) _ rest in
      let p = visit_level-Passed children_of seen (c ∷ frontier) level passed in
      let whole : (c ∷ frontier) ++ below ≡ out = ground (arith, p.out) in
      subst (Listed seen (c ∷ frontier)) whole (
        Listed-level seen (c ∷ frontier) below level p
          (visit_levels-Listed fuel level.seen level.next below walked))

  IsFresh-avoids :
      (seen out : List K) (a : K)
      → IsFresh seen out
      → contains seen a ≡ true
      → contains out a ≡ false
  IsFresh-avoids seen [] a f h = refl
  IsFresh-avoids seen (y ∷ out) a f h =
      ground (arith, e.test_iff y a, f.0, IsFresh-avoids (y ∷ seen) out a f.1)

  IsFresh-IsDistinct : (seen out : List K) → IsFresh seen out → IsDistinct out
  IsFresh-IsDistinct seen [] f = tt
  IsFresh-IsDistinct seen (y ∷ out) f = (
    IsFresh-avoids (y ∷ seen) out y f.1 (ground (arith, e.test_iff y y)),
    IsFresh-IsDistinct (y ∷ seen) out f.1,
  )

  Below-in :
      {a b : K} {seen frontier out : List K}
      → Below a b
      → Listed seen frontier out
      → ((c : K) → contains (children children_of a) c ≡ true → contains out c ≡ true)
      → contains out b ≡ true
  Below-in (child k) l start = start _ k
  Below-in (deeper {b = y} k w) l start = Below-in w l (λ c kc. l.closed y c (start y k) kc)

  Below-start : (node : K) {a : K} → Reached (children children_of node) a → Below node a
  Below-start node (c, k, inl same) =
      child (subst (λ x. contains (children children_of node) x ≡ true) same k)
  Below-start node (c, k, inr lower) = deeper k lower

  -- `descendants_of` either returns a list, in which each node that is below `node` stands exactly
  -- once, no other node stands, and `node` does not stand; or it reports a node that the levels of
  -- the walk, from `node` on, list a second time.
  pub descendants_of_outcome :
      (node : K)
      → ((out : List K) × (descendants_of node children_of ≡ ok out)
          × IsDistinct (node ∷ out)
          × ((a : K) → (contains out a ≡ true) ↔ Below node a))
        ⊎ ((c : K) × (descendants_of node children_of ≡ err (cycle c))
            × MetTwice children_of node c)
  unfolding descendants_of
  descendants_of_outcome node = elim (Result-cases (descendants_of node children_of)) [
    | inl (out, returned) ↦
        let l =
          visit_levels-Listed (suc (suc (length children_of))) (node ∷ [])
            (children children_of node) out returned in
        inl (
          out,
          returned,
          (
            IsFresh-avoids (node ∷ []) out node l.fresh (ground (arith, e.test_iff node node)),
            IsFresh-IsDistinct (node ∷ []) out l.fresh,
          ),
          λ a. (λ h. Below-start node (l.reached a h), λ w. Below-in w l l.starts),
        )
    | inr (x, raised) ↦
        let (c, same, depth, front, back, split, twice) =
          visit_levels_errors children_of (suc (suc (length children_of))) (node ∷ [])
            (children children_of node) (omega (arith, unseen-le-length (node ∷ []) children_of)) x
            raised in
        inr (
          c,
          raised ∙ ap err same,
          record {
            depth = depth;
            front = node ∷ front;
            back = back;
            listed = ap (λ (l : List K). node ∷ l) split;
            again = ground (arith, twice);
          },
        )
  ]
