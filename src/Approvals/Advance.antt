-- ===== src/Approvals/Advance.antt =====
-- Which step awaits a decision.
use flock_os.Approvals.{
  StepSpec, is_pending, first_pending_from, first_pending_step, is_chain_complete,
  current_step_index,
}
use flock_os.Base.{
  ℕ, zero, suc, ◌+◌, ◌≡◌, ◌⊎◌, refl, ap, ◌∙◌, string_eq, Bool-cases, true, false, not, inl, inr,
  List, [], ◌∷◌, Option, none, some, is_some, any, drop, take, get_elem?, arith,
}

-- The outcome of a search from a position: where the first pending step is, or that none is.
First : ℕ → List StepSpec → Option ℕ → Type 0
First i steps none = any is_pending steps ≡ false
First i steps (some k) =
    (n : ℕ) × (step : StepSpec) × (k ≡ i + n)
    × (get_elem? steps n ≡ some step)
    × (is_pending step ≡ true)
    × (any is_pending (take n steps) ≡ false)

first_pending_from-First :
    (i : ℕ) (steps : List StepSpec) → First i steps (first_pending_from i steps)
unfolding first_pending_from First
first_pending_from-First i [] = refl
first_pending_from-First i (step ∷ steps) = elim (Bool-cases (is_pending step)) [
  | inl pending ↦ rw pending (0, step, omega arith, refl, pending, refl)
  | inr decided ↦
      rw decided
        (later (first_pending_from (suc i) steps) decided (first_pending_from-First (suc i) steps))
]
  where
    later :
        (r : Option ℕ) → is_pending step ≡ false → First (suc i) steps r → First i (step ∷ steps) r
    later none decided h = ground (arith, decided, h)
    later (some k) decided (n, found, at, there, pending, before) =
        (suc n, found, omega (arith, at), there, pending, ground (arith, decided, before))

-- From a stored position on, the step to act on is the first pending one: no step between the
-- position and it is pending. There is none exactly when no step from the position on is pending.
pub current_step_index_lem :
    (steps : List StepSpec) (stored : ℕ)
    → ((current_step_index steps stored ≡ none) × (any is_pending (drop stored steps) ≡ false))
      ⊎ ((n : ℕ) × (step : StepSpec) × (current_step_index steps stored ≡ some (stored + n))
          × (get_elem? (drop stored steps) n ≡ some step)
          × (is_pending step ≡ true)
          × (any is_pending (take n (drop stored steps)) ≡ false))
unfolding current_step_index First
current_step_index_lem steps stored =
    outcome (first_pending_from stored (drop stored steps)) refl
      (first_pending_from-First stored (drop stored steps))
  where
    outcome :
        (r : Option ℕ)
        → first_pending_from stored (drop stored steps) ≡ r
        → First stored (drop stored steps) r
        → ((first_pending_from stored (drop stored steps) ≡ none)
            × (any is_pending (drop stored steps) ≡ false))
          ⊎ ((n : ℕ) × (step : StepSpec) × (first_pending_from stored (drop stored steps)
                ≡ some (stored + n))
              × (get_elem? (drop stored steps) n ≡ some step)
              × (is_pending step ≡ true)
              × (any is_pending (take n (drop stored steps)) ≡ false))
    outcome none same h = inl (same, h)
    outcome (some k) same (n, step, at, there, pending, before) =
        inr (n, step, same ∙ ap (λ (x : ℕ). some x) at, there, pending, before)

-- The chain is complete exactly when none of its steps is pending, and then no step is current.
pub is_chain_complete_lem :
    (steps : List StepSpec)
    → (is_chain_complete steps ≡ not (any is_pending steps))
      × (first_pending_step steps ≡ current_step_index steps 0)
unfolding is_chain_complete first_pending_step current_step_index First
is_chain_complete_lem steps =
    (found (first_pending_from 0 steps) (first_pending_from-First 0 steps), refl)
  where
    pending_there :
        (xs : List StepSpec) (n : ℕ) (step : StepSpec)
        → get_elem? xs n ≡ some step
        → is_pending step ≡ true
        → any is_pending xs ≡ true
    pending_there [] n step h k = cc
    pending_there (x ∷ xs) zero step h k = ground (arith, h, k)
    pending_there (x ∷ xs) (suc n) step h k = ground (arith, pending_there xs n step h k)

    found : (r : Option ℕ) → First 0 steps r → not (is_some r) ≡ not (any is_pending steps)
    found none h = ground (arith, h)
    found (some k) (n, step, at, there, pending, before) =
        ground (arith, pending_there steps n step there pending)
