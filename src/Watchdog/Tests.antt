-- ===== src/Watchdog/Tests.antt =====
-- A stuck agent, and the theorems at it.
use flock_os.Watchdog.Procedure.{run_watchdog}
use flock_os.Watchdog.Steps.{classify_probe}
use flock_os.Watchdog.{
  WatchdogConfig, Ports, World, LivenessProbe, Act, released, invoked, slept, commented,
  recovered_on, WatchdogOutcome, done, recovery_action_error,
}
use flock_os.Watchdog.Keeps.{IsSafe, invocations}
use flock_os.Watchdog.Fire.{linked_issue, run_watchdog-IsSafe}
use flock_os.Watchdog.Rounds.{PortFails}
use flock_os.Watchdog.Ends.{run_watchdog-ends}
use flock_os.Watchdog.Board.{IsHandled}
use flock_os.Watchdog.Handled.{run_watchdog-IsHandled}
use flock_os.Recovery.{RunVerdict, past_stuck, from_agents}
use flock_os.CeoHeartbeat.{HeartbeatRun}
use flock_os.Base.{
  ◌-◌, ◌≤◌, ◌≡◌, ◌⊎◌, refl, string_eq, true, false, List, [], ◌∷◌, Option, none, some, ok, err, All,
}

abbrev config : WatchdogConfig
config = record {
  watched_agent_id = "arch";
  ceo_fallback_owner_id = none;
  watchdog_issue_id = some "w";
  thresholds = record { suspicious = 15; stuck = 20; escalate = 30; abort = 45 };
  max_attempts = 3;
  backoff_seconds = 30 ∷ 60 ∷ 120 ∷ [];
  admit_wait_seconds = 45;
}

abbrev probe_of : Option HeartbeatRun → LivenessProbe
probe_of run = record {
  run = run;
  all_runs = [];
  chain = from_agents (
      record { id = "ceo"; name = "CEO"; reports_to = none }
      ∷ record { id = "arch"; name = "Architect"; reports_to = some "ceo" }
      ∷ []);
  linked_issue_is_terminal = false;
  successful_run_missing_disposition = false;
}

abbrev run : HeartbeatRun
run = record {
  id = "r1";
  status = "running";
  triggered_at = 100;
  completed_at = none;
  linked_issue_id = some "issue";
  coalesced_into_run_id = none;
}

-- The run is cleared once anything has been done.
abbrev probe_after : List Act → LivenessProbe
probe_after [] = probe_of (some run)
probe_after (a ∷ acts) = probe_of none

abbrev ports : Ports
ports = record {
  probe = probe_after;
  clock = λ acts. 125;
  release = λ acts issue owner. done;
  invokes = λ acts. true;
  approves = λ acts. some none;
  posts = λ acts. true;
}

abbrev start : World
start = record { acts = []; audit = [] }

abbrev verdict : RunVerdict
verdict = record {
  verdict = "stuck";
  age = 25;
  stuck_agent_id = "arch";
  recovery_owner_id = some "ceo";
  linked_issue_id = some "issue";
  reason = past_stuck;
}

recovers :
    (run_watchdog config ports 0 false start).1.acts
    ≡ released "issue" "ceo" ∷ invoked "arch" ∷ slept 45 ∷ commented "w" (recovered_on 1) ∷ []
unfolding run_watchdog from_agents
recovers = refl

run_watchdog-IsSafe_example :
    All
      (IsSafe config.watched_agent_id
        (linked_issue (classify_probe config ports (ports.probe []) (ports.clock []))))
      (run_watchdog config ports 0 false (record { acts = []; audit = [] })).1.acts
    × (invocations (run_watchdog config ports 0 false (record { acts = []; audit = [] })).1.acts
        ≤ config.max_attempts - 0)
run_watchdog-IsSafe_example = run_watchdog-IsSafe config ports 0 false

run_watchdog-ends_example :
    ((o : WatchdogOutcome) × ((run_watchdog config ports 0 true start).0 ≡ ok o))
    ⊎ (((run_watchdog config ports 0 true start).0 ≡ err recovery_action_error) × PortFails ports)
run_watchdog-ends_example = run_watchdog-ends config ports 0 true start

run_watchdog-IsHandled_example :
    ((o : WatchdogOutcome) × (v : World) × (run_watchdog config ports 0 false start ≡ (ok o, v))
      × IsHandled config ports start.acts verdict o v.acts)
    ⊎ (((run_watchdog config ports 0 false start).0 ≡ err recovery_action_error) × PortFails ports)
unfolding classify_probe from_agents
run_watchdog-IsHandled_example = run_watchdog-IsHandled config ports 0 start verdict refl refl refl
