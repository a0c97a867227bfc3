-- ===== src/Trees/Ancestors.antt =====
-- The walk up the parents: its end, its result and its error.
use flock_os.Trees.Fuel.{unseen, unseen-le-length, unseen-cons_lt}
use flock_os.Trees.{TreeError, cycle, out_of_fuel, ParentMap, parent, climb, ancestors_of}
use flock_os.Base.{
  ℕ, zero, suc, ◌<◌, ◌≡◌, ◌≢◌, ◌==◌, ◌↔◌, Eq, Bool-cases, Option-cases, inl, inr, true, false, List,
  [], ◌∷◌, Option, none, some, arith, contains, length, ok, err, Result-cases, IsDistinct, ◌⊎◌, ◌∙◌,
  eq_of_beq, subst, ap, refl,
}
use flock_os.Base.Dict.{lookup}

module _ {ℓ} {K : Type ℓ} ⦃e : Eq K⦄ (parent_of : ParentMap K) where
  parent-some :
      (c : K) {p : K} → parent parent_of c ≡ some p → (v : Option K) × (lookup c parent_of ≡ some v)
  unfolding parent
  parent-some c h = ground arith

  -- Fuel above the measure is never used up.
  climb-total :
      (fuel : ℕ) (seen : List K) (current : Option K)
      → unseen seen parent_of < fuel
      → climb fuel parent_of seen current ≢ err out_of_fuel
  unfolding climb
  climb-total fuel seen none h = λ p. cc
  climb-total zero seen (some c) h = absurd (omega arith)
  climb-total (suc fuel) seen (some c) h = elim (Bool-cases (contains seen c)) [
    | inl s ↦ ground arith
    | inr fresh ↦ elim (Option-cases (parent parent_of c)) [
      | inl root ↦ ground arith
      | inr (p, up) ↦
          let (v, found) = parent-some c up in
          ground (
            arith,
            unseen-cons_lt c seen parent_of {v = v} fresh found,
            climb-total fuel (c ∷ seen) (some p),
          )
    ]
  ]

  -- The walk up the parents always ends: the fuel that the model gives it is never used up.
  pub ancestors_of-total : (node : K) → ancestors_of node parent_of ≢ err out_of_fuel
  unfolding ancestors_of
  ancestors_of-total node =
      climb-total (suc (length parent_of)) (node ∷ []) (parent parent_of node)
        (omega (arith, unseen-le-length (node ∷ []) parent_of))

  -- `chain` lists the nodes from `current` up to a root, each the parent of the one before.
  abbrev pub IsWalk : Option K → List K → Type ℓ
  IsWalk current [] = current ≡ none
  IsWalk current (y ∷ chain) = (current ≡ some y) × IsWalk (parent parent_of y) chain

  -- `chain` lists the ancestors of a node, its parent first and a root last.
  abbrev pub IsChain : K → List K → Type ℓ
  IsChain node chain = IsWalk (parent parent_of node) chain

  climb-IsWalk :
      (fuel : ℕ) (seen : List K) (current : Option K) (chain : List K)
      → climb fuel parent_of seen current ≡ ok chain
      → IsWalk current chain
  unfolding climb
  climb-IsWalk fuel seen none [] h = refl
  climb-IsWalk fuel seen none (y ∷ chain) h = cc
  climb-IsWalk zero seen (some c) chain h = cc
  climb-IsWalk (suc fuel) seen (some c) [] h = ground arith
  climb-IsWalk (suc fuel) seen (some c) (y ∷ chain) h =
      ground (arith, climb-IsWalk fuel (c ∷ seen) (parent parent_of c) chain)

  pub IsWalk-unique :
      (current : Option K) (xs ys : List K) → IsWalk current xs → IsWalk current ys → xs ≡ ys
  IsWalk-unique current [] [] p q = refl
  IsWalk-unique current [] (y ∷ ys) p q = cc
  IsWalk-unique current (x ∷ xs) [] p q = cc
  IsWalk-unique current (x ∷ xs) (y ∷ ys) p q =
      ground (arith, IsWalk-unique (parent parent_of x) xs ys)

  -- Above a node that a walk passes, a shorter walk goes on.
  pub IsWalk-above :
      (current : Option K) (chain : List K) (a : K)
      → IsWalk current chain
      → contains chain a ≡ true
      → (rest : List K) × IsWalk (parent parent_of a) rest
        × (length rest < length chain)
        × ((z : K) → contains rest z ≡ true → contains chain z ≡ true)
  IsWalk-above current (y ∷ chain) a w h = elim (Bool-cases (y == a)) [
    | inl here ↦ (
      chain,
      subst (λ b. IsWalk (parent parent_of b) chain) (eq_of_beq here) w.1,
      omega arith,
      λ z m. ground arith,
    )
    | inr there ↦
        let (rest, up, shorter, part) =
          IsWalk-above (parent parent_of y) chain a w.1 (ground arith) in
        (rest, up, omega arith, λ z m. ground (arith, part z m))
  ]
  IsWalk-above current [] a w h = cc

  pub IsChain-avoids : (x : K) (chain : List K) → IsChain x chain → contains chain x ≡ false
  IsChain-avoids x chain w = elim (Bool-cases (contains chain x)) [
    | inl again ↦
        let (rest, up, shorter, part) = IsWalk-above (parent parent_of x) chain x w again in
        absurd
          (omega (arith, ap (length {A = K}) (IsWalk-unique (parent parent_of x) rest chain up w)))
    | inr new ↦ new
  ]

  IsWalk-IsDistinct :
      (current : Option K) (chain : List K) → IsWalk current chain → IsDistinct chain
  IsWalk-IsDistinct current [] w = tt
  IsWalk-IsDistinct current (y ∷ chain) w =
      (IsChain-avoids y chain w.1, IsWalk-IsDistinct (parent parent_of y) chain w.1)

  -- `chain` has nothing that was seen.
  abbrev Avoids : List K → List K → Type 0
  Avoids seen [] = Unit
  Avoids seen (y ∷ chain) = (contains seen y ≡ false) × Avoids seen chain

  Avoids-cons :
      (c : K) (seen chain : List K)
      → contains chain c ≡ false
      → Avoids seen chain
      → Avoids (c ∷ seen) chain
  Avoids-cons c seen [] h a = tt
  Avoids-cons c seen (y ∷ chain) h a =
      (ground (arith, e.test_iff c y, e.test_iff y c), Avoids-cons c seen chain (ground arith) a.1)

  Avoids-nil : (chain : List K) → Avoids [] chain
  Avoids-nil [] = tt
  Avoids-nil (y ∷ chain) = (refl, Avoids-nil chain)

  climb_complete :
      (fuel : ℕ) (seen : List K) (current : Option K) (chain : List K)
      → unseen seen parent_of < fuel
      → IsWalk current chain
      → Avoids seen chain
      → climb fuel parent_of seen current ≡ ok chain
  unfolding climb
  climb_complete zero seen current chain h w a = absurd (omega arith)
  climb_complete (suc fuel) seen current [] h w a = rw (w, climb)
  climb_complete (suc fuel) seen current (y ∷ []) h w a = ground arith
  climb_complete (suc fuel) seen current (y ∷ z ∷ chain) h w a =
      let (v, found) = parent-some y w.1.0 in
      ground (
        arith,
        unseen-cons_lt y seen parent_of {v = v} a.0 found,
        climb_complete fuel (y ∷ seen) (parent parent_of y) (z ∷ chain)
            (omega (arith, unseen-cons_lt y seen parent_of {v = v} a.0 found)) w.1
            (Avoids-cons y seen (z ∷ chain) (IsChain-avoids y (z ∷ chain) w.1) a.1),
      )

  climb_errors :
      (fuel : ℕ) (seen : List K) (current : Option K) (x : TreeError K)
      → climb fuel parent_of seen current ≡ err x
      → (x ≡ out_of_fuel) ⊎ ((c : K) × (x ≡ cycle c))
  unfolding climb
  climb_errors fuel seen none x h = cc
  climb_errors zero seen (some c) x h = ground arith
  climb_errors (suc fuel) seen (some c) x h = elim (Bool-cases (contains seen c)) [
    | inl s ↦ inr (c, ground arith)
    | inr fresh ↦ climb_errors fuel (c ∷ seen) (parent parent_of c) x (ground arith)
  ]

  -- `ancestors_of` returns a list exactly when that list is the chain of ancestors of the node.
  pub ancestors_of_iff :
      (node : K) (chain : List K) → (ancestors_of node parent_of ≡ ok chain) ↔ IsChain node chain
  unfolding ancestors_of
  ancestors_of_iff node chain = (
    climb-IsWalk (suc (length parent_of)) (node ∷ []) (parent parent_of node) chain,
    λ w.
        climb_complete (suc (length parent_of)) (node ∷ []) (parent parent_of node) chain
          (omega (arith, unseen-le-length (node ∷ []) parent_of)) w
          (Avoids-cons node [] chain (IsChain-avoids node chain w) (Avoids-nil chain)),
  )

  ancestors_of_errors :
      (node : K) (x : TreeError K)
      → ancestors_of node parent_of ≡ err x
      → (x ≡ out_of_fuel) ⊎ ((c : K) × (x ≡ cycle c))
  unfolding ancestors_of
  ancestors_of_errors node x h =
      climb_errors (suc (length parent_of)) (node ∷ []) (parent parent_of node) x h

  raised_cycle :
      (node : K) (x : TreeError K) → ancestors_of node parent_of ≡ err x → (c : K) × (x ≡ cycle c)
  raised_cycle node x h = elim (ancestors_of_errors node x h) [
    | inl fuel ↦ absurd (ancestors_of-total node (h ∙ ap err fuel))
    | inr c ↦ c
  ]

  -- `ancestors_of` either returns the chain of ancestors, in which no node stands twice and the
  -- node itself does not stand, or reports a cycle, and then the node has no chain to a root.
  pub ancestors_of_outcome :
      (node : K)
      → ((chain : List K) × (ancestors_of node parent_of ≡ ok chain)
          × IsChain node chain
          × IsDistinct (node ∷ chain))
        ⊎ ((c : K) × (ancestors_of node parent_of ≡ err (cycle c))
            × ((chain : List K) → ¬ IsChain node chain))
  ancestors_of_outcome node = elim (Result-cases (ancestors_of node parent_of)) [
    | inl (chain, returned) ↦
        let w = (ancestors_of_iff node chain).0 returned in
        inl (
          chain,
          returned,
          w,
          (IsChain-avoids node chain w, IsWalk-IsDistinct (parent parent_of node) chain w),
        )
    | inr (x, raised) ↦
        let c = raised_cycle node x raised in
        inr (
          c.0,
          raised ∙ ap err c.1,
          λ chain w. absurd (cc (raised, (ancestors_of_iff node chain).1 w)),
        )
  ]
