-- ===== src/CeoHeartbeat/Tests.antt =====
-- A window of runs, and the theorems at it.
use flock_os.CeoHeartbeat.{
  HeartbeatRun, CeoAgentState, SilentRunAlert, Budgets, detect_silent_runs, severity_to_exit_code,
  evaluate_health, durations_of, compute_completion_stats,
}
use flock_os.CeoHeartbeat.Oldest.{IsAlert, IsOldestFirst}
use flock_os.CeoHeartbeat.Silence.{IsSilent, detect_silent_runs_lem}
use flock_os.CeoHeartbeat.Durations.{IsSummary, compute_completion_stats-IsSummary}
use flock_os.Base.{◌≡◌, ◌↔◌, refl, ℕ, List, [], ◌∷◌, Option, none, some, arith}

abbrev run_of : ℕ → Option ℕ → HeartbeatRun
run_of triggered_at completed_at = record {
  id = "r";
  status = "running";
  triggered_at = triggered_at;
  completed_at = completed_at;
  linked_issue_id = none;
  coalesced_into_run_id = none;
}

abbrev runs : List HeartbeatRun
runs = run_of 10 none ∷ run_of 40 none ∷ run_of 5 (some 9) ∷ run_of 20 (some 22) ∷ []

abbrev budgets : Budgets
budgets = record { warning = 20; critical = 45 }

abbrev agent : CeoAgentState
agent = record { last_heartbeat_at = some 70; org_chain_health_status = none }

abbrev alert : SilentRunAlert
alert = record { run = run_of 10 none; age = 60; severity = "critical" }

alerts :
    detect_silent_runs budgets 70 (run_of 40 none ∷ run_of 10 none ∷ [])
    ≡ alert ∷ record { run = run_of 40 none; age = 30; severity = "warning" } ∷ []
unfolding detect_silent_runs
alerts = refl

median : (compute_completion_stats runs).p50 ≡ some 2
unfolding compute_completion_stats
median = refl

exit_code : severity_to_exit_code (evaluate_health budgets 70 agent runs).severity ≡ 2
unfolding severity_to_exit_code evaluate_health
exit_code = refl

detect_silent_runs_lem_example :
    IsOldestFirst (detect_silent_runs budgets 70 runs)
    × ((a : SilentRunAlert)
        → IsAlert a (detect_silent_runs budgets 70 runs) ↔ IsSilent budgets 70 runs a)
detect_silent_runs_lem_example = detect_silent_runs_lem budgets 70 runs

compute_completion_stats-IsSummary_example : IsSummary runs (compute_completion_stats runs)
unfolding durations_of
compute_completion_stats-IsSummary_example = compute_completion_stats-IsSummary runs (omega arith)
