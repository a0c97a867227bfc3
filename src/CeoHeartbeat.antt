-- ===== src/CeoHeartbeat.antt =====
-- tools/ops/ceo_heartbeat/monitor.py: which heartbeat runs are silent, how long runs take, and how
-- healthy the watched agent is. Times and thresholds are in one unit, fine enough for the clock.
pub mod Oldest
pub mod Silence
pub mod Health
mod Sorting
pub mod Durations
mod Tests
use flock_os.Base.{
  ℕ, zero, suc, ◌+◌, ◌-◌, ◌*◌, ◌/◌, min, max, String, string_eq, option_eq, nat_eq, ◌==◌, Bool,
  true, false, not, ◌&&◌, ◌||◌, List, [], ◌∷◌, ◌++◌, Option, none, some, any, contains, filter, map,
  length, get_elem?, leb, ltb, truthy, is_some, if◌then◌else◌,
}

abbrev pub active_run_statuses : List String
active_run_statuses = "issue_created" ∷ "running" ∷ "active" ∷ "pending" ∷ "queued" ∷ []

-- The fields that detection reads; the title and the like are left out.
pub record HeartbeatRun : Type 0 where
  pub id : String
  pub status : String
  pub triggered_at : ℕ
  pub completed_at : Option ℕ
  pub linked_issue_id : Option String
  pub coalesced_into_run_id : Option String

pub record CeoAgentState : Type 0 where
  pub last_heartbeat_at : Option ℕ
  pub org_chain_health_status : Option String

pub record SilentRunAlert : Type 0 where
  pub run : HeartbeatRun
  pub age : ℕ
  pub severity : String

-- `other` is a base run that is strictly newer than `run`.
abbrev pub is_newer_base_run : HeartbeatRun → HeartbeatRun → Bool
is_newer_base_run run other =
    not (other.id == run.id)
    && (not (truthy other.coalesced_into_run_id) && ltb run.triggered_at other.triggered_at)

unfoldable pub is_superseded_by_newer_base_run : HeartbeatRun → List HeartbeatRun → Bool
is_superseded_by_newer_base_run run runs = any (is_newer_base_run run) runs

-- `_active_in_flight_runs` keeps these.
abbrev pub is_in_flight : HeartbeatRun → Bool
is_in_flight run =
    contains active_run_statuses run.status
    && (not (is_some run.completed_at) && not (truthy run.coalesced_into_run_id))

unfoldable pub active_in_flight_runs : List HeartbeatRun → List HeartbeatRun
active_in_flight_runs runs = filter is_in_flight runs

-- The two budgets of silence.
pub record Budgets : Type 0 where
  pub warning : ℕ
  pub critical : ℕ

-- `max(0.0, now - triggered)`: subtraction on ℕ stops at 0.
abbrev pub age_at : ℕ → HeartbeatRun → ℕ
age_at now run = now - run.triggered_at

-- The body of the loop of `detect_silent_runs`: the alert for a run, if any.
unfoldable pub alert_for : Budgets → ℕ → List HeartbeatRun → HeartbeatRun → List SilentRunAlert
unfolding is_superseded_by_newer_base_run
alert_for budgets now runs run =
    if not (is_in_flight run)
    then []
    else if is_superseded_by_newer_base_run run runs
    then []
    else if leb budgets.critical (age_at now run)
    then (record { run = run; age = age_at now run; severity = "critical" }) ∷ []
    else if leb budgets.warning (age_at now run)
    then (record { run = run; age = age_at now run; severity = "warning" }) ∷ []
    else []

unfoldable pub alerts_for :
    Budgets → ℕ → List HeartbeatRun → List HeartbeatRun → List SilentRunAlert
unfolding alert_for
alerts_for budgets now runs [] = []
alerts_for budgets now runs (run ∷ rest) =
    alert_for budgets now runs run ++ alerts_for budgets now runs rest

-- `sort(key=age, reverse=True)` is stable: an alert goes before the first one that is younger.
unfoldable pub insert_by_age : SilentRunAlert → List SilentRunAlert → List SilentRunAlert
insert_by_age alert [] = alert ∷ []
insert_by_age alert (a ∷ alerts) =
    if leb a.age alert.age then alert ∷ a ∷ alerts else a ∷ insert_by_age alert alerts

unfoldable pub sort_by_age : List SilentRunAlert → List SilentRunAlert
unfolding insert_by_age
sort_by_age [] = []
sort_by_age (a ∷ alerts) = insert_by_age a (sort_by_age alerts)

unfoldable pub detect_silent_runs : Budgets → ℕ → List HeartbeatRun → List SilentRunAlert
unfolding alerts_for sort_by_age
detect_silent_runs budgets now runs = sort_by_age (alerts_for budgets now runs runs)

-- The duration of a run that counts: completed, not coalesced, and not before its start.
abbrev pub duration_of : HeartbeatRun → Option ℕ
duration_of run = elim run.completed_at [
  | none ↦ none
  | some completed ↦
      if run.status == "coalesced"
      then none
      else if ltb completed run.triggered_at
      then none
      else some (completed - run.triggered_at)
]

unfoldable pub durations_of : List HeartbeatRun → List ℕ
durations_of [] = []
durations_of (run ∷ runs) = elim (duration_of run) [
  | none ↦ durations_of runs
  | some duration ↦ duration ∷ durations_of runs
]

abbrev pub is_failure : HeartbeatRun → Bool
is_failure run = is_some (duration_of run) && run.status == "failed"

unfoldable pub insert_duration : ℕ → List ℕ → List ℕ
insert_duration d [] = d ∷ []
insert_duration d (x ∷ xs) = if leb d x then d ∷ x ∷ xs else x ∷ insert_duration d xs

unfoldable pub sort_durations : List ℕ → List ℕ
unfolding insert_duration
sort_durations [] = []
sort_durations (d ∷ ds) = insert_duration d (sort_durations ds)

abbrev pub sum : List ℕ → ℕ
sum [] = 0
sum (d ∷ ds) = d + sum ds

-- The nearest rank of a percentage: `max(1, min(count, ceil(q * count)))`.
unfoldable pub rank_of : ℕ → ℕ → ℕ
rank_of percent count = max 1 (min count ((percent * count + 99) / 100))

-- The mean is `total / count`.
pub record CompletionStats : Type 0 where
  pub count : ℕ
  pub failure_count : ℕ
  pub p50 : Option ℕ
  pub p95 : Option ℕ
  pub max_duration : Option ℕ
  pub total : ℕ
  pub durations : List ℕ

-- An index out of range, at which the program would raise, yields `none` here.
unfoldable pub compute_completion_stats : List HeartbeatRun → CompletionStats
unfolding durations_of sort_durations rank_of
compute_completion_stats runs =
    let durations = sort_durations (durations_of runs) in
    let count = length durations in
    record {
      count = count;
      failure_count = length (filter is_failure runs);
      p50 = if count == 0 then none else get_elem? durations (rank_of 50 count - 1);
      p95 = if count == 0 then none else get_elem? durations (rank_of 95 count - 1);
      max_duration = if count == 0 then none else get_elem? durations (count - 1);
      total = sum durations;
      durations = durations;
    }

unfoldable pub liveness_severity : Budgets → ℕ → CeoAgentState → String
liveness_severity budgets now agent =
    if agent.org_chain_health_status == some "unhealthy"
    then "critical"
    else elim agent.last_heartbeat_at [
      | none ↦ "ok"
      | some last ↦
          if leb budgets.critical (now - last)
          then "critical"
          else if leb budgets.warning (now - last)
          then "warning"
          else "ok"
    ]

unfoldable pub max_severity : List String → String
max_severity levels =
    if contains levels "critical"
    then "critical"
    else if contains levels "warning"
    then "warning"
    else "ok"

unfoldable pub severity_to_exit_code : String → ℕ
severity_to_exit_code severity =
    if severity == "critical" then 2 else if severity == "warning" then 1 else 0

-- `max(runs, key=triggered_at)`: the first of the latest.
unfoldable pub latest : HeartbeatRun → List HeartbeatRun → HeartbeatRun
latest best [] = best
latest best (run ∷ runs) =
    latest (if ltb best.triggered_at run.triggered_at then run else best) runs

abbrev pub latest_of : List HeartbeatRun → Option HeartbeatRun
latest_of [] = none
latest_of (run ∷ runs) = some (latest run runs)

pub record CeoHealthSnapshot : Type 0 where
  pub taken_at : ℕ
  pub severity : String
  pub agent : CeoAgentState
  pub active_runs : List HeartbeatRun
  pub silent_run_alerts : List SilentRunAlert
  pub completion_stats : CompletionStats
  pub current_operation : Option HeartbeatRun
  pub runs_inspected : ℕ

unfoldable pub evaluate_health : Budgets → ℕ → CeoAgentState → List HeartbeatRun → CeoHealthSnapshot
unfolding detect_silent_runs compute_completion_stats active_in_flight_runs liveness_severity
    max_severity latest
evaluate_health budgets now agent runs =
    let silent = detect_silent_runs budgets now runs in
    let active = active_in_flight_runs runs in
    let levels = map (λ (a : SilentRunAlert). a.severity) silent in
    record {
      taken_at = now;
      severity = max_severity (levels ++ liveness_severity budgets now agent ∷ []);
      agent = agent;
      active_runs = active;
      silent_run_alerts = silent;
      completion_stats = compute_completion_stats runs;
      current_operation = elim (latest_of active) [ none ↦ latest_of runs | some run ↦ some run ];
      runs_inspected = length runs;
    }
