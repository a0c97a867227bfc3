-- ===== src/Recovery/Tests.antt =====
-- A small chain of command, and the theorems at it.
use flock_os.Recovery.{
  AgentNode, Thresholds, HeartbeatRun, RunVerdict, Evidence, past_stuck, from_agents, get_agent,
  resolve_recovery_owner, classify_run,
}
use flock_os.Recovery.Owner.{resolve_recovery_owner-other}
use flock_os.CeoHeartbeat.{HeartbeatRun}
use flock_os.Base.{◌≡◌, ◌≢◌, ◌⊎◌, refl, String, string_eq, false, List, [], ◌∷◌, none, some}

abbrev agents : List AgentNode
agents =
    record { id = "ceo"; name = "CEO"; reports_to = none }
    ∷ record { id = "arch"; name = "Architect"; reports_to = some "ceo" }
    ∷ []

abbrev minutes : Thresholds
minutes = record { suspicious = 15; stuck = 20; escalate = 30; abort = 45 }

abbrev run : HeartbeatRun
run = record {
  id = "r1";
  status = "running";
  triggered_at = 100;
  completed_at = none;
  linked_issue_id = none;
  coalesced_into_run_id = none;
}

abbrev nothing_known : Evidence
nothing_known = record {
  linked_issue_is_terminal = false;
  superseded_by_newer_base_run = false;
  successful_run_missing_disposition = false;
}

abbrev stuck_verdict : RunVerdict
stuck_verdict = record {
  verdict = "stuck";
  age = 25;
  stuck_agent_id = "arch";
  recovery_owner_id = some "ceo";
  linked_issue_id = none;
  reason = past_stuck;
}

classified :
    classify_run run 125 "arch" (from_agents agents) minutes nothing_known (some "arch")
    ≡ stuck_verdict
unfolding classify_run from_agents
classified = refl

owned : resolve_recovery_owner "arch" (from_agents agents) none ≡ some "ceo"
unfolding resolve_recovery_owner from_agents
owned = refl

resolve_recovery_owner-other_example :
    (◌≢◌ {A = String} "ceo" "arch")
    ⊎ ((node : AgentNode) × (get_agent (from_agents agents) "arch" ≡ some node)
        × (node.reports_to ≡ some "arch"))
resolve_recovery_owner-other_example = resolve_recovery_owner-other agents "arch" "ceo" none owned
