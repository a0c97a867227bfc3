-- ===== src/Recovery/Verdict.antt =====
-- The verdict on a run: what a severe one needs, and the age of the run.
use flock_os.Recovery.{
  Thresholds, Evidence, HeartbeatRun, ChainOfCommand, Reason, judge, classify_run,
}
use flock_os.CeoHeartbeat.{HeartbeatRun}
use flock_os.Base.{
  ℕ, ◌-◌, ◌≤◌, ◌≡◌, refl, String, string_eq, ◌==◌, Bool, true, false, not, ◌||◌, ◌&&◌, Option, some,
  leb, if◌then◌else◌, arith,
}

-- Whether something speaks for the run.
abbrev pub is_excused : Evidence → Bool
is_excused e =
    e.linked_issue_is_terminal
    || (e.superseded_by_newer_base_run || e.successful_run_missing_disposition)

abbrev pub severity : String → ℕ
severity verdict =
    if verdict == "abort"
    then 3
    else if verdict == "stuck"
    then 2
    else if verdict == "suspicious"
    then 1
    else 0

abbrev severity_of : String × ℕ × Reason → ℕ
severity_of judgement = severity judgement.0

bands :
    (x y z a b c : Bool) (age : ℕ)
    → severity_of (
        if x
        then ("healthy", age, Reason.issue_terminal)
        else if y
        then ("healthy", age, Reason.superseded)
        else if z
        then ("healthy", age, Reason.missing_disposition)
        else if a
        then ("abort", age, Reason.past_abort)
        else if b
        then ("stuck", age, Reason.past_stuck)
        else if c
        then ("suspicious", age, Reason.in_suspicious_window)
        else ("healthy", age, Reason.within_bounds))
      ≡ (if x || (y || z) then 0 else if a then 3 else if b then 2 else if c then 1 else 0)
bands true y z a b c age = refl
bands false true z a b c age = refl
bands false false true a b c age = refl
bands false false false true b c age = refl
bands false false false false true c age = refl
bands false false false false false true age = refl
bands false false false false false false age = refl

judged :
    (t : Thresholds) (e : Evidence) (age : ℕ)
    → severity (judge t e (some age)).0 ≡ (
        if is_excused e
        then 0
        else if leb t.abort age
        then 3
        else if leb t.stuck age
        then 2
        else if leb t.suspicious age
        then 1
        else 0)
unfolding judge
judged t e age =
    bands e.linked_issue_is_terminal e.superseded_by_newer_base_run
      e.successful_run_missing_disposition (leb t.abort age) (leb t.stuck age)
      (leb t.suspicious age) age

module _ (run : HeartbeatRun) (stuck_agent_id : String) (chain : ChainOfCommand) (t : Thresholds)
    (e : Evidence) (fallback : Option String) where
  -- A run is judged stuck or worse exactly when nothing speaks for it and its age has reached the
  -- threshold of the stuck or the aborted runs.
  pub classify_run-severe :
      (now : ℕ)
      → leb 2 (severity (classify_run run now stuck_agent_id chain t e fallback).verdict) ≡ (
          not (is_excused e)
          && (leb t.stuck (now - run.triggered_at) || leb t.abort (now - run.triggered_at)))
  unfolding classify_run
  classify_run-severe now = ground (arith, judged t e (now - run.triggered_at))

  -- As time passes, the verdict on a run does not become milder, where the thresholds are in order.
  pub classify_run-grows :
      (now later : ℕ)
      → now ≤ later
      → t.suspicious ≤ t.stuck
      → t.stuck ≤ t.abort
      → severity (classify_run run now stuck_agent_id chain t e fallback).verdict
        ≤ severity (classify_run run later stuck_agent_id chain t e fallback).verdict
  unfolding classify_run
  classify_run-grows now later passed low high =
      ground (arith, judged t e (now - run.triggered_at), judged t e (later - run.triggered_at))
