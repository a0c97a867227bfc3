-- ===== src/Trees/Levels.antt =====
-- One pass of the breadth-first walk over a frontier, and what it leaves behind.
use flock_os.Trees.Fuel.{unseen, unseen-cons_le, unseen-cons_lt}
use flock_os.Trees.{TreeError, cycle, ChildMap, children, Level, visit_level}
use flock_os.Base.{
  ◌≤◌, ◌<◌, ◌≡◌, Eq, Bool-cases, inl, inr, true, false, refl, List, [], ◌∷◌, ◌++◌, some, arith,
  contains, ok, err, Result-cases, List-cases, ap, ◌∙◌, ◌||◌,
}
use flock_os.Base.Dict.{lookup}

module _ {ℓ} {K : Type ℓ} ⦃e : Eq K⦄ where
  -- No node of the list is seen, or stands in it twice.
  abbrev pub IsFresh : List K → List K → Type 0
  IsFresh seen [] = Unit
  IsFresh seen (c ∷ frontier) = (contains seen c ≡ false) × IsFresh (c ∷ seen) frontier

module _ {ℓ} {K : Type ℓ} ⦃e : Eq K⦄ (children_of : ChildMap K) where
  children-cons :
      (c x : K) (xs : List K)
      → children children_of c ≡ x ∷ xs
      → (v : List K) × (lookup c children_of ≡ some v)
  unfolding children
  children-cons c x xs h = ground arith

  -- The children of all the nodes of a frontier.
  abbrev pub children_of_all : List K → List K
  children_of_all [] = []
  children_of_all (c ∷ frontier) = children children_of c ++ children_of_all frontier

  visit_level-cons :
      (seen frontier : List K) (c : K) (level : Level K)
      → visit_level children_of seen (c ∷ frontier) ≡ ok level
      → (rest : Level K) × (contains seen c ≡ false)
        × (visit_level children_of (c ∷ seen) frontier ≡ ok rest)
        × (level.seen ≡ rest.seen)
        × (level.out ≡ c ∷ rest.out)
        × (level.next ≡ children children_of c ++ rest.next)
  unfolding visit_level
  visit_level-cons seen frontier c level h =
      elim (Result-cases (visit_level children_of (c ∷ seen) frontier)) [
        | inl (rest, found) ↦ (rest, ground arith, found, ground arith, ground arith, ground arith)
        | inr (x, raised) ↦ ground arith
      ]

  -- What a successful pass over a frontier leaves.
  pub record Passed (seen frontier : List K) (level : Level K) : Type ℓ where
    pub fresh : IsFresh seen frontier
    pub out : level.out ≡ frontier
    pub next : level.next ≡ children_of_all frontier
    pub seen_after : (a : K) → contains level.seen a ≡ (contains seen a || contains frontier a)
    pub keeps_measure : unseen level.seen children_of ≤ unseen seen children_of
    pub lowers_measure :
        (x : K) (xs : List K)
        → level.next ≡ x ∷ xs
        → unseen level.seen children_of < unseen seen children_of

  pub visit_level-Passed :
      (seen frontier : List K) (level : Level K)
      → visit_level children_of seen frontier ≡ ok level
      → Passed seen frontier level
  unfolding visit_level
  visit_level-Passed seen [] level h = record {
    fresh = tt;
    out = ground arith;
    next = ground arith;
    seen_after = λ a. ground arith;
    keeps_measure = ground arith;
    lowers_measure = λ x xs more. ground arith;
  }
  visit_level-Passed seen (c ∷ frontier) level h =
      let (rest, new, passed, same_seen, same_out, same_next) =
        visit_level-cons seen frontier c level h in
      let ih = visit_level-Passed (c ∷ seen) frontier rest passed in
      record {
        fresh = (new, ih.fresh);
        out = same_out ∙ ap (λ l. c ∷ l) ih.out;
        next = same_next ∙ ap (λ l. children children_of c ++ l) ih.next;
        seen_after = λ a. ground (arith, ih.seen_after a, ap (λ l. contains l a) same_seen);
        keeps_measure = omega (
          arith,
          ih.keeps_measure,
          unseen-cons_le c seen children_of,
          ap (λ l. unseen l children_of) same_seen,
        );
        lowers_measure = λ x xs more. elim (List-cases (children children_of c)) [
          | inl none_here ↦ omega (
            arith,
            ih.lowers_measure x xs (cc (none_here, more, same_next)),
            unseen-cons_le c seen children_of,
            ap (λ l. unseen l children_of) same_seen,
          )
          | inr (y, ys, some_here) ↦
              let (v, found) = children-cons c y ys some_here in
              omega (
                arith,
                ih.keeps_measure,
                unseen-cons_lt c seen children_of {v = v} new found,
                ap (λ l. unseen l children_of) same_seen,
              )
        ];
      }

  -- A pass that raises has met a node that is seen, or that stands earlier in the frontier.
  pub visit_level_errors :
      (seen frontier : List K) (x : TreeError K)
      → visit_level children_of seen frontier ≡ err x
      → (c : K) × (x ≡ cycle c)
        × (front : List K) × (back : List K) × (frontier ≡ front ++ (c ∷ back))
        × ((contains seen c || contains front c) ≡ true)
  unfolding visit_level
  visit_level_errors seen [] x h = cc
  visit_level_errors seen (d ∷ frontier) x h = elim (Bool-cases (contains seen d)) [
    | inl again ↦ (d, ground arith, [], frontier, refl, ground arith)
    | inr new ↦
        let (c, same, front, back, split, twice) =
          visit_level_errors (d ∷ seen) frontier x (ground arith) in
        (c, same, d ∷ front, back, ap (λ (l : List K). d ∷ l) split, ground arith)
  ]
