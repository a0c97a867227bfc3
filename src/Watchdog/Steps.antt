-- ===== src/Watchdog/Steps.antt =====
-- The steps of a fire in tools/ops/agent_liveness/watchdog.py, up to the loop of releases and restarts.
use flock_os.Watchdog.{
  WatchdogConfig, LivenessProbe, EscalationReason, Comment, Ports, WatchdogOutcome, Fire, log, act,
  LoopEnd, Round, texts_of, outcome, back_off, follow, settle, release_on, release_forbidden,
  exhausted, recovered_on, escalating, invoked, slept, opened, commented, stopped, comment_skipped,
  comment_failed, approval_opened, approval_failed, no_linked_issue, invoked_line,
  recovery_action_error, out_of_fuel, recovered_end, exhausted_end, forbidden_end, ends, goes_on,
}
use flock_os.CeoHeartbeat.{is_superseded_by_newer_base_run}
use flock_os.Recovery.{RunVerdict, RecoveryPlan, classify_run, plan_recovery}
use flock_os.Base.Stateful.{return, raise, ◌>>=◌, ◌>>◌}
use flock_os.Base.{
  ℕ, zero, suc, ◌-◌, String, string_eq, option_eq, nat_eq, ◌==◌, Bool, true, false, ◌||◌, [], ◌∷◌,
  Option, none, some, if◌then◌else◌,
}

module _ (config : WatchdogConfig) (ports : Ports) where
  -- `_classify_probe`
  unfoldable pub classify_probe : LivenessProbe → ℕ → Option RunVerdict
  unfolding classify_run is_superseded_by_newer_base_run
  classify_probe probe now = elim probe.run [
    | none ↦ none
    | some run ↦ some (
        classify_run run now config.watched_agent_id probe.chain config.thresholds
          (record {
            linked_issue_is_terminal = probe.linked_issue_is_terminal;
            superseded_by_newer_base_run = is_superseded_by_newer_base_run run probe.all_runs;
            successful_run_missing_disposition = probe.successful_run_missing_disposition;
          })
          config.ceo_fallback_owner_id)
  ]

  -- `_post`: a failure is logged only.
  unfoldable pub post : Comment → Fire (Unit {0})
  post body w = elim config.watchdog_issue_id [
    | none ↦ log comment_skipped w
    | some issue ↦ if ports.posts w.acts then act (commented issue body) w else log comment_failed w
  ]

  -- `_escalate`, by the answer to the call; it yields the id of the approval, if there is one.
  unfoldable pub escalate_on :
      RunVerdict → EscalationReason → Option (Option String) → Fire (Option String)
  escalate_on verdict reason none = log approval_failed >> return none
  escalate_on verdict reason (some approval) =
      act (opened (texts_of (config.watchdog_issue_id ∷ verdict.linked_issue_id ∷ [])) reason)
      >> log approval_opened
      >> return approval

  unfoldable pub escalate : RunVerdict → EscalationReason → Fire (Option String)
  unfolding escalate_on
  escalate verdict reason w = escalate_on verdict reason (ports.approves w.acts) w

  -- The board is called, commented, and reported.
  unfoldable pub call_board : RunVerdict → ℕ → EscalationReason → Fire WatchdogOutcome
  unfolding post escalate
  call_board verdict attempts reason = do
    approval ← escalate verdict reason
    post (escalating attempts approval)
    return (outcome "escalate_board" (some verdict) attempts false (escalating attempts approval))

  unfoldable pub plan_for : RunVerdict → ℕ → RecoveryPlan
  unfolding plan_recovery
  plan_for verdict attempts =
      plan_recovery verdict attempts config.max_attempts config.backoff_seconds
        config.thresholds.escalate

  -- The release of the linked issue; whether the loop goes on.
  unfoldable pub release_linked : Option String → String → Fire Bool
  unfolding release_on
  release_linked none owner w = (log no_linked_issue >> return true) w
  release_linked (some issue) owner w = release_on issue owner (ports.release w.acts issue owner) w

  unfoldable pub invoke : Fire (Unit {0})
  invoke w =
      if ports.invokes w.acts
      then (act (invoked config.watched_agent_id) >> log invoked_line) w
      else raise recovery_action_error w

  -- The end of a round: the probe after the restart.
  unfoldable pub redetect : RunVerdict → ℕ → LivenessProbe → ℕ → Fire Round
  unfolding classify_probe is_superseded_by_newer_base_run settle
  redetect current attempt probe now = elim probe.run [
    | none ↦ settle attempt true current
    | some run ↦
        if probe.linked_issue_is_terminal
        then settle attempt true current
        else elim (classify_probe probe now) [
          | none ↦ return (goes_on current)
          | some verdict ↦
              settle attempt
                (verdict.verdict == "healthy" || is_superseded_by_newer_base_run run probe.all_runs)
                verdict
        ]
  ]

  -- The probe after the wait.
  unfoldable pub look_again : RunVerdict → ℕ → Fire Round
  unfolding redetect
  look_again current attempt w =
      redetect current attempt (ports.probe w.acts) (ports.clock w.acts) w

  -- The rest of a round, by whether the release was allowed.
  unfoldable pub proceed : RunVerdict → ℕ → Bool → Fire Round
  unfolding invoke look_again
  proceed current attempt true =
      invoke >> act (slept config.admit_wait_seconds) >> look_again current attempt
  proceed current attempt false = return (ends (forbidden_end attempt))

  unfoldable pub attempt_once : String → Option String → RunVerdict → ℕ → Option ℕ → Fire Round
  unfolding back_off release_linked proceed
  attempt_once owner linked current attempt backoff =
      back_off backoff attempt >> (release_linked linked owner >>= proceed current attempt)

  -- The `while` loop of `_release_restart_loop`.
  unfoldable pub restart_loop : ℕ → String → Option String → RunVerdict → ℕ → Fire LoopEnd
  unfolding attempt_once plan_for
  restart_loop zero owner linked current attempts = raise out_of_fuel
  restart_loop (suc fuel) owner linked current attempts =
      let plan = plan_for current attempts in
      let again = λ (verdict : RunVerdict). restart_loop fuel owner linked verdict (suc attempts) in
      if plan.action == "release_restart"
      then (attempt_once owner linked current (suc attempts) plan.next_backoff_seconds
          >>= follow again)
      else (log stopped >> return (exhausted_end attempts))

  unfoldable pub conclude : RunVerdict → LoopEnd → Fire WatchdogOutcome
  unfolding call_board post
  conclude verdict (recovered_end attempts) = do
    post (recovered_on attempts)
    return (outcome "recovered" (some verdict) attempts true (recovered_on attempts))
  conclude verdict (exhausted_end attempts) =
      call_board verdict attempts (exhausted attempts config.max_attempts)
  conclude verdict (forbidden_end attempts) = call_board verdict attempts release_forbidden

  unfoldable pub release_restart_loop : String → RunVerdict → ℕ → Fire WatchdogOutcome
  unfolding restart_loop conclude
  release_restart_loop owner verdict prior_attempts = do
    end ←
        restart_loop (suc (config.max_attempts - prior_attempts)) owner verdict.linked_issue_id
          verdict prior_attempts
    conclude verdict end
