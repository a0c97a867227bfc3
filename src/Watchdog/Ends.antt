-- ===== src/Watchdog/Ends.antt =====
-- How a fire ends.
use flock_os.Watchdog.Procedure.{recover_by, carry_out, respond, fire_on, run_watchdog}
use flock_os.Watchdog.Steps.{
  post, plan_for, attempt_once, restart_loop, conclude, release_restart_loop, classify_probe,
}
use flock_os.Watchdog.{
  WatchdogConfig, Ports, World, Fire, Fault, recovery_action_error, out_of_fuel, log,
  WatchdogOutcome, LoopEnd, recovered_end, exhausted_end, forbidden_end, Round, ends, goes_on,
  follow, recovered_on, outcome, planned_line, unknown_agent, no_safe_recovery_owner, unsafe_owner,
  planned, watch,
}
use flock_os.Watchdog.Fire.{restarts-lt}
use flock_os.Recovery.{RunVerdict, RecoveryPlan, get_agent}
use flock_os.Base.Stateful.{return}
use flock_os.Base.{
  ℕ, zero, suc, ◌-◌, ◌<◌, ◌≡◌, refl, String, string_eq, nat_eq, ◌==◌, Bool, Bool-cases, true, false,
  is_some, ◌⊎◌, inl, inr, Option, none, some, Result, ok, err, arith,
}
use flock_os.Watchdog.Rounds.{
  PortFails, Ends, bind-Ends, post-Ends, call_board-Ends, attempt_once-Ends,
}

module _ (config : WatchdogConfig) (ports : Ports) where
  follow-Ends :
      (again : RunVerdict → Fire LoopEnd) (round : Round) (v : World)
      → ((verdict : RunVerdict) (u : World) → Ends ports (λ e. Unit {0}) (again verdict u).0)
      → Ends ports (λ e. Unit {0}) (follow again round v).0
  follow-Ends again (ends end) v h = tt
  follow-Ends again (goes_on verdict) v h = h verdict v

  -- The fuel of the loop is enough: more than the attempts that are left.
  restart_loop-Ends :
      (fuel : ℕ) (owner : String) (linked : Option String) (current : RunVerdict) (attempts : ℕ)
      (w : World)
      → config.max_attempts - attempts < fuel
      → Ends ports
          (λ e. Unit {0})
          (restart_loop config ports fuel owner linked current attempts w).0
  unfolding restart_loop
  restart_loop-Ends zero owner linked current attempts w h = absurd (omega (arith, h))
  restart_loop-Ends (suc fuel) owner linked current attempts w h =
      elim (Bool-cases ((plan_for config ports current attempts).action == "release_restart")) [
        | inl goes ↦
            let left : config.max_attempts - suc attempts < fuel =
              omega (arith, h, restarts-lt config ports current attempts goes) in
            let again = λ (verdict : RunVerdict).
              restart_loop config ports fuel owner linked verdict (suc attempts) in
            let ih = λ (verdict : RunVerdict) (v : World).
              restart_loop-Ends fuel owner linked verdict (suc attempts) v left in
            rw goes (
              bind-Ends ports (λ r. Unit {0}) (λ e. Unit {0})
                (attempt_once config ports owner linked current (suc attempts)
                  (plan_for config ports current attempts).next_backoff_seconds)
                (follow again) w
                (attempt_once-Ends config ports owner linked current (suc attempts)
                  (plan_for config ports current attempts).next_backoff_seconds w)
                (λ round v t. follow-Ends again round v ih))
        | inr stays ↦ rw stays tt
      ]

  conclude-Ends :
      (verdict : RunVerdict) (end : LoopEnd) (w : World)
      → Ends ports (λ o. Unit {0}) (conclude config ports verdict end w).0
  unfolding conclude
  conclude-Ends verdict (recovered_end attempts) w =
      bind-Ends ports (λ u. Unit {0}) (λ o. Unit {0}) (post config ports (recovered_on attempts)) _
        w (post-Ends config ports (recovered_on attempts) w) (λ u x t. tt)
  conclude-Ends verdict (exhausted_end attempts) w =
      call_board-Ends config ports verdict attempts _ w
  conclude-Ends verdict (forbidden_end attempts) w =
      call_board-Ends config ports verdict attempts _ w

  recover_by-Ends :
      (v : RunVerdict) (prior : ℕ) (owner : Option String) (w : World)
      → Ends ports (λ o. Unit {0}) (recover_by config ports v prior owner w).0
  unfolding recover_by release_restart_loop
  recover_by-Ends v prior none w =
      call_board-Ends config ports v 0 no_safe_recovery_owner (log unsafe_owner w).1
  recover_by-Ends v prior (some owner) w = elim (Bool-cases (owner == config.watched_agent_id)) [
    | inl itself ↦
        rw itself (call_board-Ends config ports v 0 no_safe_recovery_owner (log unsafe_owner w).1)
    | inr another ↦ rw another (
        bind-Ends ports (λ e. Unit {0}) (λ o. Unit {0})
          (restart_loop config ports (suc (config.max_attempts - prior)) owner v.linked_issue_id v
            prior)
          (conclude config ports v) w
          (restart_loop-Ends (suc (config.max_attempts - prior)) owner v.linked_issue_id v prior w
            (omega arith))
          (λ end u t. conclude-Ends v end u))
  ]

  returns :
      {A : Type 0} (P : A → Type 0) (r : Result Fault A)
      → Ends ports P r
      → ((a : A) × (r ≡ ok a) × P a) ⊎ ((r ≡ err recovery_action_error) × PortFails ports)
  returns P (ok a) h = inl (a, refl, h)
  returns P (err recovery_action_error) h = inr (refl, h)
  returns P (err out_of_fuel) h = absurd h

  pub carry_out-Ends :
      (v : RunVerdict) (prior : ℕ) (plan : RecoveryPlan) (w : World)
      → Ends ports (λ o. Unit {0}) (carry_out config ports v prior plan w).0
  carry_out-Ends v prior plan w = elim (Bool-cases (plan.action == "noop")) [
    | inl noop ↦ elim (Bool-cases (v.verdict == "suspicious")) [
      | inl watched ↦
          unfold carry_out in
          rw (noop, watched)
            (bind-Ends ports (λ u. Unit {0}) (λ o. Unit {0}) (post config ports watch)
              (λ u. return (outcome "noop" (some v) 0 false watch)) w
              (post-Ends config ports watch w) (λ u x t. tt))
      | inr fine ↦ unfold carry_out in rw (noop, fine) tt
    ]
    | inr busy ↦
        unfold carry_out in
        elim (Bool-cases (plan.action == "escalate_board")) [
          | inl board ↦ rw (busy, board) (call_board-Ends config ports v 0 planned w)
          | inr restart ↦ rw (busy, restart) (recover_by-Ends v prior v.recovery_owner_id w)
        ]
  ]

  respond-Ends :
      (prior : ℕ) (dry_run : Bool) (verdict : Option RunVerdict) (w : World)
      → Ends ports (λ o. Unit {0}) (respond config ports prior dry_run verdict w).0
  unfolding respond
  respond-Ends prior true verdict w = tt
  respond-Ends prior false none w = tt
  respond-Ends prior false (some v) w =
      carry_out-Ends v prior (plan_for config ports v prior) (log planned_line w).1

  -- A fire ends: it returns an outcome, or it passes the error of a port that has failed on; its loop
  -- never uses its fuel up.
  pub run_watchdog-ends :
      (prior : ℕ) (dry_run : Bool) (w : World)
      → ((o : WatchdogOutcome) × ((run_watchdog config ports prior dry_run w).0 ≡ ok o))
        ⊎ (((run_watchdog config ports prior dry_run w).0 ≡ err recovery_action_error)
            × PortFails ports)
  unfolding run_watchdog fire_on
  run_watchdog-ends prior dry_run w =
      elim (Bool-cases (is_some (get_agent (ports.probe w.acts).chain config.watched_agent_id))) [
        | inr unknown ↦ rw unknown (inl (outcome "noop" none 0 false unknown_agent, refl))
        | inl known ↦
            let verdict = classify_probe config ports (ports.probe w.acts) (ports.clock w.acts) in
            let ended =
              returns (λ o. Unit {0}) (respond config ports prior dry_run verdict w).0
                (respond-Ends prior dry_run verdict w) in
            rw known (elim ended [ inl (o, r, t) ↦ inl (o, r) | inr failing ↦ inr failing ])
      ]
