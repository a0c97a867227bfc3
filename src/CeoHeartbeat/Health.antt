-- ===== src/CeoHeartbeat/Health.antt =====
-- The overall severity and the current operation of a snapshot.
use flock_os.CeoHeartbeat.{
  HeartbeatRun, CeoAgentState, SilentRunAlert, Budgets, active_in_flight_runs, detect_silent_runs,
  liveness_severity, max_severity, severity_to_exit_code, latest, latest_of, evaluate_health,
}
use flock_os.CeoHeartbeat.Silence.{IsRun}
use flock_os.Base.{
  ℕ, ◌≤◌, max, ◌≡◌, refl, sym, ap, ◌∙◌, subst, String, string_eq, ◌==◌, eq_iff_lem, Bool,
  List-cases, true, false, inl, inr, List, [], ◌∷◌, ◌++◌, map, contains, some, none, ltb,
  if◌then◌else◌, arith,
}

-- The worst exit code of a list of severities.
abbrev pub worst_code : List String → ℕ
worst_code [] = 0
worst_code (level ∷ levels) = max (severity_to_exit_code level) (worst_code levels)

worst_code-contains :
    (levels : List String)
    → worst_code levels
      ≡ (if contains levels "critical" then 2 else if contains levels "warning" then 1 else 0)
unfolding severity_to_exit_code
worst_code-contains [] = refl
worst_code-contains (level ∷ levels) = ground (
  arith,
  worst_code-contains levels,
  eq_iff_lem level "critical",
  eq_iff_lem level "warning",
  apart,
)
  where
    apart : (◌==◌ {A = String} "critical" "warning") ≡ false
    apart = refl

max_severity-worst :
    (levels : List String) → severity_to_exit_code (max_severity levels) ≡ worst_code levels
unfolding severity_to_exit_code max_severity
max_severity-worst levels =
    codes (contains levels "critical") (contains levels "warning")
    ∙ sym (worst_code-contains levels)
  where
    codes :
        (c w : Bool)
        → severity_to_exit_code (if c then "critical" else if w then "warning" else "ok")
          ≡ (if c then 2 else if w then 1 else 0)
    codes true w = refl
    codes false true = refl
    codes false false = refl

worst_code-append :
    (xs : List String) (y : String)
    → worst_code (xs ++ y ∷ []) ≡ max (worst_code xs) (severity_to_exit_code y)
worst_code-append [] y = omega arith
worst_code-append (x ∷ xs) y = omega (arith, worst_code-append xs y)

latest-IsRun :
    (best : HeartbeatRun) (runs : List HeartbeatRun) → IsRun (latest best runs) (best ∷ runs)
unfolding latest
latest-IsRun best [] = inl refl
latest-IsRun best (run ∷ runs) =
    step (ltb best.triggered_at run.triggered_at) (latest-IsRun run runs) (latest-IsRun best runs)
  where
    step :
        (b : Bool)
        → IsRun (latest run runs) (run ∷ runs)
        → IsRun (latest best runs) (best ∷ runs)
        → IsRun (latest (if b then run else best) runs) (best ∷ run ∷ runs)
    step true there _ = inr there
    step false _ (inl same) = inl same
    step false _ (inr below) = inr (inr below)

latest-start :
    (best : HeartbeatRun) (runs : List HeartbeatRun)
    → best.triggered_at ≤ (latest best runs).triggered_at
unfolding latest
latest-start best [] = omega arith
latest-start best (run ∷ runs) =
    step (ltb best.triggered_at run.triggered_at) refl (latest-start run runs)
      (latest-start best runs)
  where
    step :
        (b : Bool)
        → ltb best.triggered_at run.triggered_at ≡ b
        → run.triggered_at ≤ (latest run runs).triggered_at
        → best.triggered_at ≤ (latest best runs).triggered_at
        → best.triggered_at ≤ (latest (if b then run else best) runs).triggered_at
    step true newer above _ = ground (arith, newer, above)
    step false _ _ above = above

latest_upper :
    (best : HeartbeatRun) (runs : List HeartbeatRun) (r : HeartbeatRun)
    → IsRun r (best ∷ runs)
    → r.triggered_at ≤ (latest best runs).triggered_at
unfolding latest
latest_upper best runs r (inl e) =
    subst (λ x. x.triggered_at ≤ (latest best runs).triggered_at) (sym e) (latest-start best runs)
latest_upper best [] r (inr h) = absurd h
latest_upper best (run ∷ runs) r (inr h) =
    step (ltb best.triggered_at run.triggered_at) refl h (latest_upper run runs r h)
      (λ m. latest_upper best runs r (inr m))
  where
    step :
        (b : Bool)
        → ltb best.triggered_at run.triggered_at ≡ b
        → IsRun r (run ∷ runs)
        → r.triggered_at ≤ (latest run runs).triggered_at
        → (IsRun r runs → r.triggered_at ≤ (latest best runs).triggered_at)
        → r.triggered_at ≤ (latest (if b then run else best) runs).triggered_at
    step true newer _ above _ = above
    step false older (inl e) _ _ =
        subst (λ x. x.triggered_at ≤ (latest best runs).triggered_at) (sym e)
          (ground (arith, older, latest-start best runs))
    step false older (inr m) _ rest = rest m

module _ (budgets : Budgets) (now : ℕ) (agent : CeoAgentState) (runs : List HeartbeatRun) where
  -- The exit code of a snapshot is the worst among those of its alerts and that of the liveness of
  -- the agent.
  pub evaluate_health-worst :
      severity_to_exit_code (evaluate_health budgets now agent runs).severity
      ≡ max
          (worst_code (
            map
              (λ (a : SilentRunAlert). a.severity)
              (evaluate_health budgets now agent runs).silent_run_alerts))
          (severity_to_exit_code (liveness_severity budgets now agent))
  unfolding evaluate_health
  evaluate_health-worst =
      let levels = map (λ (a : SilentRunAlert). a.severity) (detect_silent_runs budgets now runs) in
      max_severity-worst (levels ++ liveness_severity budgets now agent ∷ [])
      ∙ worst_code-append levels (liveness_severity budgets now agent)

  -- Where some run is in flight, the current operation of a snapshot is the latest of the runs in
  -- flight.
  pub evaluate_health-latest :
      (r : HeartbeatRun)
      → IsRun r (active_in_flight_runs runs)
      → (current : HeartbeatRun) × ((evaluate_health budgets now agent runs).current_operation
          ≡ some current)
        × IsRun current (active_in_flight_runs runs)
        × (r.triggered_at ≤ current.triggered_at)
  unfolding evaluate_health
  evaluate_health-latest r h = elim (List-cases (active_in_flight_runs runs)) [
    | inl empty ↦ absurd (subst (λ l. IsRun r l) empty h)
    | inr (first, rest, there) ↦ (
      latest first rest,
      ap (λ l. elim (latest_of l) [ none ↦ latest_of runs | some run ↦ some run ]) there,
      subst (λ l. IsRun (latest first rest) l) (sym there) (latest-IsRun first rest),
      latest_upper first rest r (subst (λ l. IsRun r l) there h),
    )
  ]
