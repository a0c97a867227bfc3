-- ===== src/Engagement/Session.antt =====
-- Sessions, their lifecycle and their window. A time is a number of microseconds since the epoch;
-- `config` and `geofence` are JSON text, which nothing here reads.
pub mod Window
pub mod Transitions
use flock_os.Engagement.Kinds.{EngagementError, illegal_transition}
use flock_os.Base.Dict.{lookup, or_default}
use flock_os.Base.{
  ℕ, ◌+◌, ◌*◌, String, string_eq, ◌==◌, Bool, true, false, not, ◌&&◌, ◌||◌, List, [], ◌∷◌, Option,
  none, some, Result, ok, err, contains, truthy, if◌then◌else◌, ltb, leb,
}

abbrev pub second : ℕ
second = 1000000

pub record Session : Type 0 where
  pub session_id : String
  pub gathering : String
  pub branch : String
  pub organization : String
  pub group : Option String
  pub kind : String
  pub status : String
  pub open_at : Option ℕ
  pub close_at : Option ℕ
  pub facilitator : Option String
  pub config : String
  pub geofence : Option String

-- `session.scope`
pub record Scope : Type 0 where
  pub branch : String
  pub organization : String
  pub group : Option String

unfoldable pub scope : Session → Scope
scope s = record {
  branch = s.branch;
  organization = s.organization;
  group = if truthy s.group then s.group else none;
}

abbrev pub live_states : List String
live_states = "open" ∷ "closing" ∷ []

abbrev pub valid_transitions : List (String × List String)
valid_transitions =
    ("draft", "scheduled" ∷ "open" ∷ [])
    ∷ ("scheduled", "draft" ∷ "open" ∷ [])
    ∷ ("open", "closing" ∷ [])
    ∷ ("closing", "closed" ∷ [])
    ∷ ("closed", "archived" ∷ [])
    ∷ ("archived", [])
    ∷ []

-- The statuses that a transition may reach; none from a missing, empty or unknown status.
unfoldable pub allowed_from : Option String → List String
allowed_from none = []
allowed_from (some from) = if from == "" then [] else or_default [] (lookup from valid_transitions)

unfoldable pub validate_state_transition :
    Option String → String → Result EngagementError (Unit {0})
unfolding allowed_from
validate_state_transition from_status to_status =
    if contains (allowed_from from_status) to_status
    then ok tt
    else err (illegal_transition from_status to_status)

abbrev before_open : Session → ℕ → Bool
before_open s submitted_at = elim s.open_at [
  | none ↦ false
  | some open_at ↦ ltb submitted_at open_at
]

abbrev after_grace : Session → ℕ → ℕ → Bool
after_grace s submitted_at grace_seconds = elim s.close_at [
  | none ↦ false
  | some close_at ↦ ltb (close_at + grace_seconds * second) submitted_at
]

-- The pair of `in_window` and the reason.
unfoldable pub validate_session_window : Session → ℕ → ℕ → Bool × Option String
validate_session_window s submitted_at grace_seconds =
    if before_open s submitted_at
    then (false, some "before_open")
    else if after_grace s submitted_at grace_seconds
    then (false, some "after_grace")
    else (true, none)

-- A reaction time is a number of thousandths of a millisecond; 0 stands for all that are not
-- positive, which the code treats alike.
unfoldable pub detect_suspect_pattern : Option ℕ → ℕ → Bool
detect_suspect_pattern reaction_ms same_ip_attendee_count =
    if elim reaction_ms [ none ↦ false | some r ↦ ltb 0 r && ltb r (100 * 1000) ]
    then true
    else leb 8 same_ip_attendee_count

-- `status_flags`; the empty dictionary is all false.
pub record StatusFlags : Type 0 where
  pub out_of_scope : Bool
  pub out_of_scope_reason : Option String
  pub suspect_pattern : Bool
  pub offline_replay : Bool
  pub facilitator_override : Bool

unfoldable pub status_flags_for : Bool → Bool → Bool → Bool → Option String → StatusFlags
status_flags_for in_window suspect offline_replay facilitator_override reason = record {
  out_of_scope = not in_window;
  out_of_scope_reason = reason;
  suspect_pattern = suspect;
  offline_replay = offline_replay;
  facilitator_override = facilitator_override;
}
