-- ===== src/Watchdog.antt =====
-- tools/ops/agent_liveness/watchdog.py: one fire of the watchdog, which reads a liveness probe,
-- plans, releases and restarts under backoff, and escalates. The acts on the outside are a trace, and
-- the ports answer by the trace so far; constructors stand for the texts of comments and log lines.
pub mod Steps
pub mod Procedure
pub mod Keeps
pub mod Fire
pub mod Rounds
pub mod Ends
pub mod Board
pub mod Cleared
pub mod Recovered
pub mod Handled
mod Tests
use flock_os.CeoHeartbeat.{HeartbeatRun, is_superseded_by_newer_base_run}
use flock_os.Recovery.{
  ChainOfCommand, Thresholds, Evidence, RunVerdict, RecoveryPlan, get_agent, classify_run,
  plan_recovery,
}
use flock_os.Base.Stateful.{Method, return, raise, ◌>>=◌, ◌>>◌}
use flock_os.Base.{
  ℕ, zero, suc, ◌+◌, ◌-◌, String, string_eq, option_eq, nat_eq, ◌==◌, Bool, true, false, not, ◌&&◌,
  ◌||◌, List, [], ◌∷◌, ◌++◌, Option, none, some, Result, ok, err, truthy, or_text, is_some, filter,
  if◌then◌else◌,
}

pub record WatchdogConfig : Type 0 where
  pub watched_agent_id : String
  pub ceo_fallback_owner_id : Option String
  pub watchdog_issue_id : Option String
  pub thresholds : Thresholds
  pub max_attempts : ℕ
  pub backoff_seconds : List ℕ
  pub admit_wait_seconds : ℕ

pub record LivenessProbe : Type 0 where
  pub run : Option HeartbeatRun
  pub all_runs : List HeartbeatRun
  pub chain : ChainOfCommand
  pub linked_issue_is_terminal : Bool
  pub successful_run_missing_disposition : Bool

-- Why the board is called.
pub data EscalationReason : Type 0 where
  planned no_safe_recovery_owner release_forbidden : EscalationReason
  exhausted : (attempts max_attempts : ℕ) → EscalationReason

pub data Comment : Type 0 where
  unknown_agent healthy_no_run healthy watch nothing : Comment
  recovered_on : (attempts : ℕ) → Comment
  escalating : (attempts : ℕ) (approval : Option String) → Comment

-- What the fire does outside: the calls that the ports accepted, and the waits.
pub data Act : Type 0 where
  released : (issue owner : String) → Act
  invoked : (agent : String) → Act
  slept : (seconds : ℕ) → Act
  opened : (issues : List String) → EscalationReason → Act
  commented : (issue : String) → Comment → Act

pub data AuditLine : Type 0 where
  unknown_watched no_base_run planned_line unsafe_owner stopped comment_skipped comment_failed :
      AuditLine
  approval_opened approval_failed no_linked_issue forbidden_line dry_run_line : AuditLine
  backing_off recovered_line not_recovered : (attempt : ℕ) → AuditLine
  released_line : (issue : String) → AuditLine
  invoked_line : AuditLine

pub record World : Type 0 where
  pub acts : List Act
  pub audit : List AuditLine

-- What `release_issue` answers: done, `ReleaseForbidden`, or another `RecoveryActionError`.
pub data Answer : Type 0 where
  done forbidden failed : Answer

-- The reader, the clock and the recovery actions, by what has been done so far. Where `approves`
-- yields none, the call raises; where it yields an approval, that may lack an id.
pub record Ports : Type 0 where
  pub probe : List Act → LivenessProbe
  pub clock : List Act → ℕ
  pub release : List Act → (issue owner : String) → Answer
  pub invokes : List Act → Bool
  pub approves : List Act → Option (Option String)
  pub posts : List Act → Bool

-- An uncaught `RecoveryActionError`; `out_of_fuel` is no outcome of the program: see Watchdog/Ends.
pub data Fault : Type 0 where
  recovery_action_error out_of_fuel : Fault

pub record WatchdogOutcome : Type 0 where
  pub action : String
  pub verdict : Option RunVerdict
  pub attempts_made : ℕ
  pub recovered : Bool
  pub comment_body : Comment

abbrev pub Fire : Type 0 → Type 0
Fire A = Method World Fault A

abbrev pub log : AuditLine → Fire (Unit {0})
log line w = (ok tt, record w { audit = w.audit ++ line ∷ [] })

abbrev pub act : Act → Fire (Unit {0})
act a w = (ok tt, record w { acts = w.acts ++ a ∷ [] })

-- How the loop ends, with the attempts made.
pub data LoopEnd : Type 0 where
  recovered_end exhausted_end forbidden_end : (attempts : ℕ) → LoopEnd

-- One round: the loop ends, or goes on with a verdict.
pub data Round : Type 0 where
  ends : LoopEnd → Round
  goes_on : RunVerdict → Round

abbrev pub texts_of : List (Option String) → List String
texts_of [] = []
texts_of (o ∷ os) = if truthy o then or_text o "" ∷ texts_of os else texts_of os

abbrev pub outcome : String → Option RunVerdict → ℕ → Bool → Comment → WatchdogOutcome
outcome action verdict attempts recovered body = record {
  action = action;
  verdict = verdict;
  attempts_made = attempts;
  recovered = recovered;
  comment_body = body;
}

-- `if plan.next_backoff_seconds: ... sleep(...)`
unfoldable pub back_off : Option ℕ → ℕ → Fire (Unit {0})
back_off none attempt = return tt
back_off (some seconds) attempt =
    if seconds == 0 then return tt else (log (backing_off attempt) >> act (slept seconds))

-- After a round the loop ends, or is entered again.
abbrev pub follow : (RunVerdict → Fire LoopEnd) → Round → Fire LoopEnd
follow again (ends end) = return end
follow again (goes_on verdict) = again verdict

-- Whether the attempt has recovered the run.
unfoldable pub settle : ℕ → Bool → RunVerdict → Fire Round
settle attempt true verdict = log (recovered_line attempt) >> return (ends (recovered_end attempt))
settle attempt false verdict = log (not_recovered attempt) >> return (goes_on verdict)

-- A release, by its answer.
unfoldable pub release_on : (issue owner : String) → Answer → Fire Bool
release_on issue owner done = act (released issue owner) >> log (released_line issue) >> return true
release_on issue owner forbidden = log forbidden_line >> return false
release_on issue owner failed = raise recovery_action_error
