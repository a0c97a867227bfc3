-- ===== src/Recovery.antt =====
-- tools/ops/agent_liveness/recovery.py: who recovers a stuck agent, and when. Ages and thresholds
-- are in one unit, fine enough for the clock; the reasons stand for the texts.
pub mod Owner
pub mod Verdict
pub mod Plan
mod Tests
use flock_os.Base.Dict.{lookup, insert, or_default}
use flock_os.CeoHeartbeat.{HeartbeatRun}
use flock_os.Base.{
  ℕ, zero, suc, ◌+◌, ◌-◌, min, String, string_eq, ◌==◌, Bool, true, false, not, ◌&&◌, ◌||◌, List,
  [], ◌∷◌, Option, none, some, contains, length, get_elem?, leb, if◌then◌else◌,
}

pub record AgentNode : Type 0 where
  pub id : String
  pub name : String
  pub reports_to : Option String

-- The dictionary of `ChainOfCommand`.
abbrev pub ChainOfCommand : Type 0
ChainOfCommand = List (String × AgentNode)

-- `{a.id: a for a in agents}`, on top of the entries so far.
unfoldable pub add_agents : ChainOfCommand → List AgentNode → ChainOfCommand
add_agents chain [] = chain
add_agents chain (agent ∷ agents) = add_agents (insert agent.id agent chain) agents

unfoldable pub from_agents : List AgentNode → ChainOfCommand
unfolding add_agents
from_agents agents = add_agents [] agents

unfoldable pub get_agent : ChainOfCommand → String → Option AgentNode
get_agent chain agent_id = lookup agent_id chain

unfoldable pub manager_of : ChainOfCommand → String → Option AgentNode
unfolding get_agent
manager_of chain agent_id = elim (get_agent chain agent_id) [
  | none ↦ none
  | some node ↦ elim node.reports_to [ none ↦ none | some manager ↦ get_agent chain manager ]
]

unfoldable pub resolve_recovery_owner : String → ChainOfCommand → Option String → Option String
unfolding get_agent manager_of
resolve_recovery_owner stuck_agent_id chain fallback = elim (get_agent chain stuck_agent_id) [
  | none ↦ none
  | some node ↦ elim (manager_of chain stuck_agent_id) [
    | some manager ↦ some manager.id
    | none ↦ elim fallback [
      | none ↦ none
      | some peer ↦ if not (peer == stuck_agent_id) then some peer else none
    ]
  ]
]

pub record Thresholds : Type 0 where
  pub suspicious : ℕ
  pub stuck : ℕ
  pub escalate : ℕ
  pub abort : ℕ

pub data Reason : Type 0 where
  age_unknown issue_terminal superseded missing_disposition : Reason
  past_abort past_stuck in_suspicious_window within_bounds : Reason

pub record RunVerdict : Type 0 where
  pub verdict : String
  pub age : ℕ
  pub stuck_agent_id : String
  pub recovery_owner_id : Option String
  pub linked_issue_id : Option String
  pub reason : Reason

-- What the caller found out about the run.
pub record Evidence : Type 0 where
  pub linked_issue_is_terminal : Bool
  pub superseded_by_newer_base_run : Bool
  pub successful_run_missing_disposition : Bool

-- `max(0.0, now - triggered)`: subtraction on ℕ stops at 0.
abbrev pub age_of : Option ℕ → ℕ → Option ℕ
age_of none now = none
age_of (some triggered_at) now = some (now - triggered_at)

unfoldable pub judge : Thresholds → Evidence → Option ℕ → String × ℕ × Reason
judge thresholds evidence none = ("healthy", 0, age_unknown)
judge thresholds evidence (some age) =
    if evidence.linked_issue_is_terminal
    then ("healthy", age, issue_terminal)
    else if evidence.superseded_by_newer_base_run
    then ("healthy", age, superseded)
    else if evidence.successful_run_missing_disposition
    then ("healthy", age, missing_disposition)
    else if leb thresholds.abort age
    then ("abort", age, past_abort)
    else if leb thresholds.stuck age
    then ("stuck", age, past_stuck)
    else if leb thresholds.suspicious age
    then ("suspicious", age, in_suspicious_window)
    else ("healthy", age, within_bounds)

unfoldable pub classify_run :
    HeartbeatRun → ℕ → String → ChainOfCommand → Thresholds → Evidence → Option String → RunVerdict
unfolding resolve_recovery_owner judge
classify_run run now stuck_agent_id chain thresholds evidence fallback =
    let (verdict, age, reason) = judge thresholds evidence (age_of (some run.triggered_at) now) in
    record {
      verdict = verdict;
      age = age;
      stuck_agent_id = stuck_agent_id;
      recovery_owner_id = resolve_recovery_owner stuck_agent_id chain fallback;
      linked_issue_id = run.linked_issue_id;
      reason = reason;
    }

-- The text of the reason is left out.
pub record RecoveryPlan : Type 0 where
  pub action : String
  pub attempts_remaining : ℕ
  pub next_backoff_seconds : Option ℕ
  pub recovery_owner_id : Option String

-- `backoff_seconds[min(prior_attempts - 1, len(backoff_seconds) - 1)]`, or 0 from an empty schedule
-- or for the first attempt.
unfoldable pub delay_before : ℕ → List ℕ → ℕ
delay_before zero backoff = 0
delay_before (suc n) backoff = or_default 0 (get_elem? backoff (min n (length backoff - 1)))

unfoldable pub plan_recovery : RunVerdict → ℕ → ℕ → List ℕ → ℕ → RecoveryPlan
unfolding delay_before
plan_recovery verdict prior_attempts max_attempts backoff escalate =
    if verdict.verdict == "healthy" || verdict.verdict == "suspicious"
    then (record {
      action = "noop";
      attempts_remaining = max_attempts - prior_attempts;
      next_backoff_seconds = none;
      recovery_owner_id = verdict.recovery_owner_id;
    })
    else if verdict.verdict == "abort"
        || (leb max_attempts prior_attempts || leb escalate verdict.age)
    then (record {
      action = "escalate_board";
      attempts_remaining = 0;
      next_backoff_seconds = none;
      recovery_owner_id = verdict.recovery_owner_id;
    })
    else record {
      action = "release_restart";
      attempts_remaining = max_attempts - prior_attempts - 1;
      next_backoff_seconds = some (delay_before prior_attempts backoff);
      recovery_owner_id = verdict.recovery_owner_id;
    }
