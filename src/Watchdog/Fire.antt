-- ===== src/Watchdog/Fire.antt =====
-- A fire of the watchdog: the releases and the restarts in it.
use flock_os.Watchdog.Procedure.{recover_by, fire_on, carry_out, respond, run_watchdog}
use flock_os.Watchdog.Steps.{
  post, plan_for, attempt_once, restart_loop, conclude, release_restart_loop, classify_probe,
}
use flock_os.Watchdog.{
  WatchdogConfig, Ports, World, Fire, Act, log, LoopEnd, recovered_end, exhausted_end,
  forbidden_end, Round, ends, goes_on, follow, recovered_on, watch, planned, planned_line,
  no_safe_recovery_owner, unsafe_owner, outcome, AuditLine,
}
use flock_os.Watchdog.Keeps.{
  IsSafe, Kept, KeptHere, Kept-same, Kept-le, bind-Kept, post-Kept, call_board-Kept,
  attempt_once-Kept, invocations,
}
use flock_os.Recovery.Plan.{plan_recovery-restart}
use flock_os.Recovery.{RunVerdict, RecoveryPlan, plan_recovery, get_agent}
use flock_os.Base.Stateful.{return}
use flock_os.Base.{
  ℕ, zero, suc, ◌+◌, ◌-◌, ◌≤◌, ◌<◌, ◌≡◌, refl, sym, ap, ◌∙◌, String, string_eq, ◌==◌, Bool,
  Bool-cases, true, false, is_some, inl, inr, List, [], Option, none, some, All, arith,
}

abbrev pub linked_issue : Option RunVerdict → Option String
linked_issue none = none
linked_issue (some v) = v.linked_issue_id

module _ (config : WatchdogConfig) (ports : Ports) where
  pub restarts-lt :
      (v : RunVerdict) (attempts : ℕ)
      → ((plan_for config ports v attempts).action == "release_restart") ≡ true
      → attempts < config.max_attempts
  restarts-lt v attempts h =
      elim (plan_recovery-restart v attempts config.max_attempts config.backoff_seconds
        config.thresholds.escalate) [
          | inl goes ↦ omega (arith, goes.4)
          | inr (none_left, inl (mild, noop)) ↦ refuted "noop" noop refl
          | inr (none_left, inr (severe, over, board, left)) ↦ refuted "escalate_board" board refl
        ]
    where
      refuted :
          (action : String)
          → (plan_recovery v attempts config.max_attempts config.backoff_seconds
              config.thresholds.escalate).action
            ≡ action
          → (action == "release_restart") ≡ false
          → attempts < config.max_attempts
      refuted action is apart =
          let e : false ≡ true =
            sym apart ∙ ap (λ x. x == "release_restart") (sym is) ∙ (unfold plan_for in h) in
          absurd (ground (arith, e))

  follow-Kept :
      (linked : Option String) (n : ℕ) (again : RunVerdict → Fire LoopEnd) (round : Round)
      (v : World)
      → ((verdict : RunVerdict) (u : World) → KeptHere config ports linked n u (again verdict u).1)
      → KeptHere config ports linked n v (follow again round v).1
  follow-Kept linked n again (ends end) v h =
      Kept-le _ _ 0 n v.acts v.acts (omega arith) (Kept-same _ _ v.acts)
  follow-Kept linked n again (goes_on verdict) v h = h verdict v

  restart_loop-Kept :
      (fuel : ℕ) (owner : String) (linked : Option String) (current : RunVerdict) (attempts : ℕ)
      (w : World)
      → (owner == config.watched_agent_id) ≡ false
      → KeptHere config ports linked
          (config.max_attempts - attempts)
          w
          (restart_loop config ports fuel owner linked current attempts w).1
  unfolding restart_loop
  restart_loop-Kept zero owner linked current attempts w h =
      Kept-le _ _ 0 _ w.acts w.acts (omega arith) (Kept-same _ _ w.acts)
  restart_loop-Kept (suc fuel) owner linked current attempts w h =
      elim (Bool-cases ((plan_for config ports current attempts).action == "release_restart")) [
        | inl goes ↦
            let tried =
              attempt_once-Kept config ports linked owner current (suc attempts)
                (plan_for config ports current attempts).next_backoff_seconds w h in
            let again = λ (verdict : RunVerdict).
              restart_loop config ports fuel owner linked verdict (suc attempts) in
            let ih = λ (verdict : RunVerdict) (v : World).
              restart_loop-Kept fuel owner linked verdict (suc attempts) v h in
            rw goes (
              Kept-le _ _ (1 + (config.max_attempts - suc attempts)) _ w.acts _
                (omega (arith, restarts-lt current attempts goes))
                (bind-Kept _ _ 1 (config.max_attempts - suc attempts)
                  (attempt_once config ports owner linked current (suc attempts)
                    (plan_for config ports current attempts).next_backoff_seconds)
                  (follow again) w tried
                  (λ round v.
                    follow-Kept linked (config.max_attempts - suc attempts) again round v ih)))
        | inr stays ↦ rw stays (Kept-le _ _ 0 _ w.acts w.acts (omega arith) (Kept-same _ _ w.acts))
      ]

  conclude-Kept :
      (linked : Option String) (verdict : RunVerdict) (end : LoopEnd) (w : World)
      → KeptHere config ports linked 0 w (conclude config ports verdict end w).1
  unfolding conclude
  conclude-Kept linked verdict (recovered_end attempts) w =
      bind-Kept _ _ 0 0 (post config ports (recovered_on attempts)) _ w
        (post-Kept config ports linked (recovered_on attempts) w) (λ u x. Kept-same _ _ x.acts)
  conclude-Kept linked verdict (exhausted_end attempts) w =
      call_board-Kept config ports linked verdict attempts _ w
  conclude-Kept linked verdict (forbidden_end attempts) w =
      call_board-Kept config ports linked verdict attempts _ w

  recover_by-Kept :
      (v : RunVerdict) (prior : ℕ) (owner : Option String) (w : World)
      → KeptHere config ports v.linked_issue_id
          (config.max_attempts - prior)
          w
          (recover_by config ports v prior owner w).1
  unfolding recover_by release_restart_loop
  recover_by-Kept v prior none w = Kept-le _ _ 0 _ w.acts _ (omega arith) (
      call_board-Kept config ports v.linked_issue_id v 0 no_safe_recovery_owner
        (log unsafe_owner w).1)
  recover_by-Kept v prior (some owner) w = elim (Bool-cases (owner == config.watched_agent_id)) [
    | inl itself ↦ rw itself (
        Kept-le _ _ 0 _ w.acts _ (omega arith) (
          call_board-Kept config ports v.linked_issue_id v 0 no_safe_recovery_owner
            (log unsafe_owner w).1))
    | inr another ↦ rw another (
        Kept-le _ _ (config.max_attempts - prior + 0) _ w.acts _ (omega arith) (
          bind-Kept _ _ (config.max_attempts - prior) 0
            (restart_loop config ports (suc (config.max_attempts - prior)) owner v.linked_issue_id v
              prior)
            (conclude config ports v) w
            (restart_loop-Kept (suc (config.max_attempts - prior)) owner v.linked_issue_id v prior w
              another)
            (λ end u. conclude-Kept v.linked_issue_id v end u)))
  ]

  carry_out-Kept :
      (v : RunVerdict) (prior : ℕ) (plan : RecoveryPlan) (w : World)
      → KeptHere config ports v.linked_issue_id
          (config.max_attempts - prior)
          w
          (carry_out config ports v prior plan w).1
  unfolding carry_out
  carry_out-Kept v prior plan w =
      let more =
        λ (after : List Act) (k : Kept config.watched_agent_id v.linked_issue_id 0 w.acts after).
          Kept-le config.watched_agent_id v.linked_issue_id 0 (config.max_attempts - prior) w.acts
            after (omega arith) k in
      elim (Bool-cases (plan.action == "noop")) [
        | inl noop ↦ elim (Bool-cases (v.verdict == "suspicious")) [
          | inl watched ↦
              rw (noop, watched)
                (more _ (
                  bind-Kept _ _ 0 0 (post config ports watch)
                    (λ u. return (outcome "noop" (some v) 0 false watch)) w
                    (post-Kept config ports _ watch w) (λ u x. Kept-same _ _ x.acts)))
          | inr fine ↦ rw (noop, fine) (more _ (Kept-same _ _ w.acts))
        ]
        | inr busy ↦ elim (Bool-cases (plan.action == "escalate_board")) [
          | inl board ↦ rw (busy, board) (more _ (call_board-Kept config ports _ v 0 planned w))
          | inr restart ↦ rw (busy, restart) (recover_by-Kept v prior v.recovery_owner_id w)
        ]
      ]

  respond-IsSafe :
      (prior : ℕ) (dry_run : Bool) (verdict : Option RunVerdict) (audit : List AuditLine)
      → All
          (IsSafe config.watched_agent_id (linked_issue verdict))
          (respond config ports prior dry_run verdict (record { acts = []; audit = audit })).1.acts
        × (invocations
              (respond config ports prior dry_run verdict
                (record { acts = []; audit = audit })).1.acts
            ≤ config.max_attempts - prior)
  unfolding respond
  respond-IsSafe prior true verdict audit = (tt, omega arith)
  respond-IsSafe prior false none audit = (tt, omega arith)
  respond-IsSafe prior false (some v) audit =
      let w : World = record { acts = []; audit = audit } in
      let kept = carry_out-Kept v prior (plan_for config ports v prior) (log planned_line w).1 in
      (kept.safe tt, omega (arith, kept.few))

  -- In a fire each release is of the issue that is linked to the run first judged, to an owner that is
  -- not the watched agent, and the restarts are at most the attempts that are left.
  pub run_watchdog-IsSafe :
      (prior : ℕ) (dry_run : Bool)
      → All
          (IsSafe config.watched_agent_id
            (linked_issue (classify_probe config ports (ports.probe []) (ports.clock []))))
          (run_watchdog config ports prior dry_run (record { acts = []; audit = [] })).1.acts
        × (invocations
              (run_watchdog config ports prior dry_run (record { acts = []; audit = [] })).1.acts
            ≤ config.max_attempts - prior)
  unfolding run_watchdog fire_on
  run_watchdog-IsSafe prior dry_run =
      elim (Bool-cases (is_some (get_agent (ports.probe []).chain config.watched_agent_id))) [
        | inl known ↦ rw known (
            respond-IsSafe prior dry_run
              (classify_probe config ports (ports.probe []) (ports.clock [])) [])
        | inr unknown ↦ rw unknown (tt, omega arith)
      ]
