-- ===== src/Recovery/Plan.antt =====
-- What the plan of a recovery needs, and how its attempts run out.
use flock_os.Recovery.{RunVerdict, delay_before, plan_recovery}
use flock_os.Base.{
  ℕ, zero, suc, ◌+◌, ◌-◌, ◌<◌, ◌≡◌, ◌⊎◌, refl, min, string_eq, ◌==◌, Bool, Bool-cases, true, false,
  not, ◌||◌, inl, inr, List, [], ◌∷◌, none, some, length, get_elem?, leb, arith,
}

-- The actions for a verdict that calls for one.
abbrev pub is_severe : RunVerdict → Bool
is_severe v = not (v.verdict == "healthy" || v.verdict == "suspicious")

-- An agent is released and restarted exactly for a severe verdict short of an abort, with attempts
-- left and before the age of escalation; then the attempts before, this one and those that remain
-- make up the budget.
pub plan_recovery-restart :
    (v : RunVerdict) (prior max : ℕ) (backoff : List ℕ) (escalate : ℕ)
    → (((plan_recovery v prior max backoff escalate).action ≡ "release_restart")
        × (is_severe v ≡ true)
        × ((v.verdict == "abort") ≡ false)
        × (v.age < escalate)
        × (prior + 1 + (plan_recovery v prior max backoff escalate).attempts_remaining ≡ max)
        × ((plan_recovery v prior max backoff escalate).next_backoff_seconds
            ≡ some (delay_before prior backoff)))
      ⊎ (((plan_recovery v prior max backoff escalate).next_backoff_seconds ≡ none)
          × (((is_severe v ≡ false)
                × ((plan_recovery v prior max backoff escalate).action ≡ "noop"))
              ⊎ ((is_severe v ≡ true)
                  × (((v.verdict == "abort") || (leb max prior || leb escalate v.age)) ≡ true)
                  × ((plan_recovery v prior max backoff escalate).action ≡ "escalate_board")
                  × ((plan_recovery v prior max backoff escalate).attempts_remaining ≡ 0))))
unfolding plan_recovery
plan_recovery-restart v prior max backoff escalate =
    elim (Bool-cases (v.verdict == "healthy" || v.verdict == "suspicious")) [
      | inl mild ↦ rw mild (inr (refl, inl (refl, refl)))
      | inr severe ↦
          elim (Bool-cases (v.verdict == "abort" || (leb max prior || leb escalate v.age))) [
            | inl over ↦ rw severe (rw over (inr (refl, inr (refl, refl, refl, refl))))
            | inr due ↦
                rw severe
                  (rw due (inl (refl, refl, ground arith, ground arith, ground arith, refl)))
          ]
    ]

get_elem?-lt {ℓ} :
    {A : Type ℓ} (xs : List A) (i : ℕ) → i < length xs → (a : A) × (get_elem? xs i ≡ some a)
get_elem?-lt [] i h = let p : ⊥ = omega (arith, h) in absurd p
get_elem?-lt (x ∷ xs) zero h = (x, refl)
get_elem?-lt (x ∷ xs) (suc i) h = get_elem?-lt xs i (omega (arith, h))

-- The delay before an attempt is 0 for the first one and otherwise stands in the schedule, the last
-- entry serving for all later attempts.
pub delay_before_lem :
    (n : ℕ) (backoff : List ℕ)
    → (delay_before zero backoff ≡ 0)
      × ((backoff ≡ [])
          ⊎ (get_elem? backoff (min n (length backoff - 1)) ≡ some (delay_before (suc n) backoff)))
unfolding delay_before
delay_before_lem n [] = (refl, inl refl)
delay_before_lem n (x ∷ xs) =
    let last = length (x ∷ xs) - 1 in
    let (delay, there) = get_elem?-lt (x ∷ xs) (min n last) (omega arith) in
    (refl, inr (rw there refl))
