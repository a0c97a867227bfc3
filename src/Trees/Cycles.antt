-- ===== src/Trees/Cycles.antt =====
-- The levels of the breadth-first walk, and the node that it reports where it raises.
use flock_os.Trees.Fuel.{unseen}
use flock_os.Trees.Levels.{children_of_all, visit_level-Passed, visit_level_errors}
use flock_os.Trees.{TreeError, cycle, ChildMap, children, visit_level, visit_levels}
use flock_os.Base.{
  ℕ, zero, suc, ◌<◌, ◌≡◌, Eq, inl, inr, true, List, [], ◌∷◌, ◌++◌, arith, contains, ok, err,
  List-cases, contains-append, append_assoc, >>=-eq-err, ap, refl, sym, ◌∙◌, ◌||◌,
}

module _ {ℓ} {K : Type ℓ} ⦃e : Eq K⦄ (children_of : ChildMap K) where
  -- The first levels of the walk, one after the other: the children of the nodes of a level, in
  -- order, make the next.
  abbrev pub levels : ℕ → List K → List K
  levels zero frontier = []
  levels (suc n) frontier = frontier ++ levels n (children_of_all children_of frontier)

  -- The levels that start at `node` list `c` a second time.
  pub record MetTwice (node c : K) : Type ℓ where
    pub depth : ℕ
    pub front : List K
    pub back : List K
    pub listed : node ∷ levels depth (children children_of node) ≡ front ++ (c ∷ back)
    pub again : contains front c ≡ true

  visit_levels-nil : (fuel : ℕ) (seen : List K) → visit_levels fuel children_of seen [] ≡ ok []
  unfolding visit_levels
  visit_levels-nil zero seen = refl
  visit_levels-nil (suc fuel) seen = refl

  -- With fuel above the measure, an error is a node that was met twice.
  pub visit_levels_errors :
      (fuel : ℕ) (seen frontier : List K)
      → unseen seen children_of < fuel
      → (x : TreeError K) → visit_levels fuel children_of seen frontier ≡ err x
      → (c : K) × (x ≡ cycle c)
        × (depth : ℕ) × (front : List K) × (back : List K) × (levels depth frontier
            ≡ front ++ (c ∷ back))
        × ((contains seen c || contains front c) ≡ true)
  unfolding visit_levels
  visit_levels_errors fuel seen [] h x r = cc
  visit_levels_errors zero seen (c ∷ frontier) h x r = absurd (omega arith)
  visit_levels_errors (suc fuel) seen (c ∷ frontier) h x r =
      elim (>>=-eq-err (visit_level children_of seen (c ∷ frontier)) _ r) [
        | inl here ↦
            let (d, same, front, back, split, twice) =
              visit_level_errors children_of seen (c ∷ frontier) x here in
            (
              d,
              same,
              1,
              front,
              back ++ [],
              ap (λ (l : List K). l ++ []) split ∙ append_assoc front (d ∷ back) [],
              twice,
            )
        | inr (level, passed, later) ↦
            elim (>>=-eq-err (visit_levels fuel children_of level.seen level.next) _ later) [
              | inr (below, walked, done) ↦ cc
              | inl deep ↦ elim (List-cases level.next) [
                | inl stop ↦ cc (
                  deep,
                  ap (visit_levels fuel children_of level.seen) stop,
                  visit_levels-nil fuel level.seen,
                )
                | inr (y, ys, more) ↦
                    let p = visit_level-Passed children_of seen (c ∷ frontier) level passed in
                    let (d, same, depth, front, back, split, twice) =
                      visit_levels_errors fuel level.seen level.next
                        (omega (arith, p.lowers_measure y ys more)) x deep in
                    (
                      d,
                      same,
                      suc depth,
                      (c ∷ frontier) ++ front,
                      back,
                      ap (λ (l : List K). (c ∷ frontier) ++ l)
                            (ap (levels depth) (sym p.next) ∙ split)
                          ∙ sym (append_assoc (c ∷ frontier) front (d ∷ back)),
                      ground (arith, p.seen_after d, contains-append (c ∷ frontier) front d, twice),
                    )
              ]
            ]
      ]
