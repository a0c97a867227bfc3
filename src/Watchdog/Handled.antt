-- ===== src/Watchdog/Handled.antt =====
-- What becomes of a run that is judged stuck, by the trace of acts that a fire leaves.
use flock_os.Watchdog.Procedure.{recover_by, carry_out, respond, fire_on, run_watchdog}
use flock_os.Watchdog.Steps.{
  post, plan_for, restart_loop, conclude, release_restart_loop, classify_probe,
}
use flock_os.Watchdog.{
  WatchdogConfig, Ports, World, Act, Fault, recovery_action_error, out_of_fuel, log,
  WatchdogOutcome, LoopEnd, recovered_end, exhausted_end, forbidden_end, ends, recovered_on,
  planned_line, no_safe_recovery_owner, unsafe_owner, planned,
}
use flock_os.Watchdog.Rounds.{PortFails, Ends}
use flock_os.Watchdog.Ends.{carry_out-Ends}
use flock_os.Recovery.Plan.{is_severe, plan_recovery-restart}
use flock_os.Recovery.{RunVerdict, RecoveryPlan, plan_recovery, get_agent}
use flock_os.Base.{
  ℕ, suc, ◌-◌, ◌≡◌, refl, ap, ◌∙◌, String, string_eq, nat_eq, ◌==◌, Bool-cases, true, false,
  is_some, ◌⊎◌, inl, inr, List, Option, none, some, Result, ok, err, arith,
}
use flock_os.Watchdog.Board.{
  OnOk, bind-OnOk, IsAdded, IsAdded-same, IsRecovered-IsAdded, IsHandled, by_recovery, post-IsAdded,
  call_board-IsHandled,
}
use flock_os.Watchdog.Recovered.{IsOn, restart_loop-IsRecovered}

module _ (config : WatchdogConfig) (ports : Ports) where
  not_noop :
      (v : RunVerdict) (prior : ℕ)
      → is_severe v ≡ true
      → ((plan_for config ports v prior).action == "noop") ≡ false
  not_noop v prior severe =
      elim (plan_recovery-restart v prior config.max_attempts config.backoff_seconds
        config.thresholds.escalate) [
          | inl goes ↦ other "release_restart" goes.0 refl
          | inr (none_left, inl (mild, noop)) ↦ absurd (ground (arith, severe, mild))
          | inr (none_left, inr (worse, over, board, left)) ↦ other "escalate_board" board refl
        ]
    where
      other :
          (action : String)
          → (plan_recovery v prior config.max_attempts config.backoff_seconds
              config.thresholds.escalate).action
            ≡ action
          → (action == "noop") ≡ false
          → ((plan_for config ports v prior).action == "noop") ≡ false
      other action is apart = unfold plan_for in ap (λ x. x == "noop") is ∙ apart

module _ (config : WatchdogConfig) (ports : Ports) (start : List Act) where
  conclude-IsHandled :
      (verdict : RunVerdict) (end : LoopEnd) (w : World)
      → IsOn config ports start (ends end) w
      → OnOk
          (λ o v. IsHandled config ports start verdict o v.acts)
          (conclude config ports verdict end w)
  unfolding conclude
  conclude-IsHandled verdict (recovered_end attempts) w seen =
      bind-OnOk (λ u v. IsAdded w.acts v.acts)
        (λ o v. IsHandled config ports start verdict o v.acts)
        (post config ports (recovered_on attempts)) _ w
        (post-IsAdded config ports (recovered_on attempts) w)
        (λ u v added.
          by_recovery refl refl (IsRecovered-IsAdded config ports start w.acts v.acts added seen.1))
  conclude-IsHandled verdict (exhausted_end attempts) w seen =
      call_board-IsHandled config ports start verdict attempts _ w seen.0
  conclude-IsHandled verdict (forbidden_end attempts) w seen =
      call_board-IsHandled config ports start verdict attempts _ w seen.0

  recover_by-IsHandled :
      (v : RunVerdict) (prior : ℕ) (owner : Option String) (w : World)
      → IsAdded start w.acts
      → OnOk
          (λ o x. IsHandled config ports start v o x.acts)
          (recover_by config ports v prior owner w)
  unfolding recover_by release_restart_loop
  recover_by-IsHandled v prior none w inside =
      call_board-IsHandled config ports start v 0 no_safe_recovery_owner (log unsafe_owner w).1
        inside
  recover_by-IsHandled v prior (some owner) w inside =
      elim (Bool-cases (owner == config.watched_agent_id)) [
        | inl itself ↦ rw itself (
            call_board-IsHandled config ports start v 0 no_safe_recovery_owner
              (log unsafe_owner w).1 inside)
        | inr another ↦ rw another (
            bind-OnOk (λ end x. IsOn config ports start (ends end) x)
              (λ o x. IsHandled config ports start v o x.acts)
              (restart_loop config ports (suc (config.max_attempts - prior)) owner v.linked_issue_id
                v prior)
              (conclude config ports v) w
              (restart_loop-IsRecovered config ports start (suc (config.max_attempts - prior)) owner
                v.linked_issue_id v prior w inside)
              (λ end x seen. conclude-IsHandled v end x seen))
      ]

  carry_out-IsHandled :
      (v : RunVerdict) (prior : ℕ) (plan : RecoveryPlan) (w : World)
      → (plan.action == "noop") ≡ false
      → IsAdded start w.acts
      → OnOk
          (λ o x. IsHandled config ports start v o x.acts)
          (carry_out config ports v prior plan w)
  unfolding carry_out
  carry_out-IsHandled v prior plan w busy inside =
      elim (Bool-cases (plan.action == "escalate_board")) [
        | inl board ↦
            rw (busy, board) (call_board-IsHandled config ports start v 0 planned w inside)
        | inr restart ↦
            rw (busy, restart) (recover_by-IsHandled v prior v.recovery_owner_id w inside)
      ]

module _ (config : WatchdogConfig) (ports : Ports) where
  returned :
      {A : Type 0} (P : A → World → Type 0) (r : Result Fault A × World)
      → Ends ports (λ a. Unit {0}) r.0
      → OnOk P r
      → ((a : A) × (v : World) × (r ≡ (ok a, v)) × P a v)
        ⊎ ((r.0 ≡ err recovery_action_error) × PortFails ports)
  returned P (ok a, v) e h = inl (a, v, refl, h)
  returned P (err recovery_action_error, v) e h = inr (refl, e)
  returned P (err out_of_fuel, v) e h = absurd e

  -- A known agent whose run is judged stuck or worse is not left alone: the fire ends with the run
  -- recovered, where a probe after a restart of the agent in the fire has shown it cleared, or with the
  -- board called, where the fire has opened the approval or else the port that opens it has raised;
  -- only where a release or a restart fails the fire passes that error on.
  pub run_watchdog-IsHandled :
      (prior : ℕ) (w : World) (verdict : RunVerdict)
      → is_some (get_agent (ports.probe w.acts).chain config.watched_agent_id) ≡ true
      → classify_probe config ports (ports.probe w.acts) (ports.clock w.acts) ≡ some verdict
      → is_severe verdict ≡ true
      → ((o : WatchdogOutcome) × (v : World) × (run_watchdog config ports prior false w ≡ (ok o, v))
          × IsHandled config ports w.acts verdict o v.acts)
        ⊎ (((run_watchdog config ports prior false w).0 ≡ err recovery_action_error)
            × PortFails ports)
  unfolding run_watchdog fire_on respond
  run_watchdog-IsHandled prior w verdict known judged severe =
      let plan = plan_for config ports verdict prior in
      rw (known, judged)
        (returned (λ o v. IsHandled config ports w.acts verdict o v.acts)
          (carry_out config ports verdict prior plan (log planned_line w).1)
          (carry_out-Ends config ports verdict prior plan (log planned_line w).1)
          (carry_out-IsHandled config ports w.acts verdict prior plan (log planned_line w).1
            (not_noop config ports verdict prior severe) (IsAdded-same w.acts)))
