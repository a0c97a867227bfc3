-- ===== src/Watchdog/Procedure.antt =====
-- A fire as a whole, `run_watchdog` of tools/ops/agent_liveness/watchdog.py, by its branches.
use flock_os.Watchdog.Steps.{classify_probe, post, call_board, plan_for, release_restart_loop}
use flock_os.Watchdog.{
  WatchdogConfig, LivenessProbe, Ports, WatchdogOutcome, Fire, log, outcome, planned,
  no_safe_recovery_owner, unknown_agent, healthy_no_run, healthy, watch, nothing, unknown_watched,
  no_base_run, planned_line, unsafe_owner, dry_run_line,
}
use flock_os.Recovery.{RunVerdict, RecoveryPlan, get_agent}
use flock_os.Base.Stateful.{return, ◌>>◌}
use flock_os.Base.{
  ℕ, String, string_eq, option_eq, nat_eq, ◌==◌, Bool, true, false, Option, none, some, is_some,
  if◌then◌else◌,
}

module _ (config : WatchdogConfig) (ports : Ports) where
  -- The restarts for the owner of the recovery, unless there is none or it is the watched agent.
  unfoldable pub recover_by : RunVerdict → ℕ → Option String → Fire WatchdogOutcome
  unfolding call_board release_restart_loop
  recover_by verdict prior_attempts none =
      log unsafe_owner >> call_board config ports verdict 0 no_safe_recovery_owner
  recover_by verdict prior_attempts (some owner) =
      if owner == config.watched_agent_id
      then (log unsafe_owner >> call_board config ports verdict 0 no_safe_recovery_owner)
      else release_restart_loop config ports owner verdict prior_attempts

  -- The fire after the plan.
  unfoldable pub carry_out : RunVerdict → ℕ → RecoveryPlan → Fire WatchdogOutcome
  unfolding call_board recover_by post
  carry_out verdict prior_attempts plan =
      if plan.action == "noop"
      then if verdict.verdict == "suspicious"
        then (post config ports watch >> return (outcome "noop" (some verdict) 0 false watch))
        else return (outcome "noop" (some verdict) 0 false healthy)
      else if plan.action == "escalate_board"
      then call_board config ports verdict 0 planned
      else recover_by verdict prior_attempts verdict.recovery_owner_id

  -- The fire on the verdict on its first probe.
  unfoldable pub respond : ℕ → Bool → Option RunVerdict → Fire WatchdogOutcome
  unfolding carry_out plan_for
  respond prior_attempts true verdict =
      log dry_run_line >> return (outcome "dry_run" verdict 0 false nothing)
  respond prior_attempts false none =
      log no_base_run >> return (outcome "noop" none 0 false healthy_no_run)
  respond prior_attempts false (some verdict) =
      log planned_line
      >> carry_out verdict prior_attempts (plan_for config ports verdict prior_attempts)

  unfoldable pub fire_on : ℕ → Bool → LivenessProbe → ℕ → Fire WatchdogOutcome
  unfolding classify_probe respond
  fire_on prior_attempts dry_run probe now =
      if is_some (get_agent probe.chain config.watched_agent_id)
      then respond prior_attempts dry_run (classify_probe config ports probe now)
      else (log unknown_watched >> return (outcome "noop" none 0 false unknown_agent))

  unfoldable pub run_watchdog : ℕ → Bool → Fire WatchdogOutcome
  unfolding fire_on
  run_watchdog prior_attempts dry_run w =
      fire_on prior_attempts dry_run (ports.probe w.acts) (ports.clock w.acts) w
