-- ===== src/LeaderReporting.antt =====
-- flock_os/leader_reporting.py: a leader reports the attendance of a held gathering. The service over
-- its in-memory gateway, which writes the rows through the bulk service.
pub mod Submission
pub mod Chunks
pub mod Counting
pub mod Ending
pub mod Report
mod Tests
use flock_os.Gatherings.{GatheringError, is_terminal_status, validate_status_transition}
use flock_os.Reporting.{AttendanceItem, submit}
use flock_os.Reporting
use flock_os.Base.Dict.{lookup, insert}
use flock_os.Base.{
  ℕ, zero, suc, ◌+◌, String, string_eq, option_eq, ◌==◌, Bool, true, false, not, ◌&&◌, List, [],
  ◌∷◌, ◌++◌, map, Option, none, some, Result, ok, err, guard, ◌>>=◌, ◌>>◌, contains, count, filter,
  length, take, drop, or_text, if◌then◌else◌,
}

-- `LeaderReportingError`, by the message, and the error of the gathering's lifecycle.
pub data ReportError : Type 0 where
  gathering_required branch_required group_required reported_by_required batch_id_required :
      ReportError
  no_gathering is_terminal not_reportable : String → ReportError
  unknown_member unknown_member_status : String → ReportError
  lifecycle : GatheringError → ReportError

abbrev pub visitor_statuses : List String
visitor_statuses = "Pre-Member" ∷ "Visitor" ∷ []

abbrev pub valid_member_statuses : List String
valid_member_statuses = "Member" ∷ "Pre-Member" ∷ "Visitor" ∷ []

abbrev pub bulk_batch_size : ℕ
bulk_batch_size = 500

pub record AttendeeReport : Type 0 where
  pub member : String
  pub present : Bool
  pub first_time : Bool
  pub client_req_id : Option String

pub record ReportSubmission : Type 0 where
  pub gathering : String
  pub branch : String
  pub group : String
  pub reported_by : String
  pub attendees : List AttendeeReport
  pub client_batch_id : String

-- The three roll-up counters.
pub record RollUp : Type 0 where
  pub member_count : ℕ
  pub visitor_count : ℕ
  pub first_time_count : ℕ

pub record ReportOutcome : Type 0 where
  pub gathering : String
  pub status : String
  pub accepted : Bool
  pub inserted : ℕ
  pub deduplicated : ℕ
  pub roll_up : RollUp
  pub batch_ids : List String

-- `flock.attendance.reported`
pub record ReportedEvent : Type 0 where
  pub gathering : String
  pub branch : String
  pub group : String
  pub reported_by : String
  pub roll_up : RollUp
  pub total_count : ℕ
  pub inserted : ℕ
  pub deduplicated : ℕ
  pub client_batch_id : String

pub record Advanced : Type 0 where
  pub gathering : String
  pub to_status : String
  pub reported_by : String
  pub roll_up : RollUp

-- `InMemoryLeaderReportingGateway`
pub record Desk : Type 0 where
  pub gathering_status : List (String × String)
  pub member_status : List (String × String)
  pub bulk : Reporting.Gateway
  pub published_events : List ReportedEvent
  pub advanced : List Advanced

unfoldable pub validate_submission_shape : ReportSubmission → Result ReportError (Unit {0})
validate_submission_shape submission = do
  guard (not (submission.gathering == "")) gathering_required
  guard (not (submission.branch == "")) branch_required
  guard (not (submission.group == "")) group_required
  guard (not (submission.reported_by == "")) reported_by_required
  guard (not (submission.client_batch_id == "")) batch_id_required

-- By the status of the gathering, if it exists.
unfoldable pub validate_gathering : String → Option String → Result ReportError (Unit {0})
unfolding is_terminal_status
validate_gathering gathering none = err (no_gathering gathering)
validate_gathering gathering (some current) = do
  guard (not (is_terminal_status current)) (is_terminal gathering)
  guard (current == "Held") (not_reportable gathering)

unfoldable pub to_attendance_item : ReportSubmission → AttendeeReport → AttendanceItem
to_attendance_item submission attendee = record {
  event = submission.gathering;
  attendee_ref = attendee.member;
  branch = submission.branch;
  status = "Present";
  source = "leader";
  client_req_id = some (or_text attendee.client_req_id attendee.member);
  gathering = none;
  member = none;
  engagement_session = none;
  attendee_key = none;
}

-- One attendee on top of the counters and the items.
pub record Classified : Type 0 where
  pub roll_up : RollUp
  pub items : List AttendanceItem

abbrev pub bump : Bool → ℕ → ℕ
bump true n = suc n
bump false n = n

unfoldable pub classify_one : ReportSubmission → AttendeeReport → String → Classified → Classified
unfolding to_attendance_item
classify_one submission attendee status so_far =
    let counters = so_far.roll_up in
    let visiting = contains visitor_statuses status in
    record {
      roll_up = record {
        member_count = bump (attendee.present && not visiting) counters.member_count;
        visitor_count = bump (attendee.present && visiting) counters.visitor_count;
        first_time_count = bump attendee.first_time counters.first_time_count;
      };
      items =
          if attendee.present
          then so_far.items ++ to_attendance_item submission attendee ∷ []
          else so_far.items;
    }

abbrev pub status_of : List (String × String) → String → Result ReportError String
status_of member_status member = elim (lookup member member_status) [
  | none ↦ err (unknown_member member)
  | some status ↦
      if contains valid_member_statuses status
      then ok status
      else err (unknown_member_status member)
]

-- The loop over the attendees.
unfoldable pub classify :
    List (String × String)
    → ReportSubmission
    → List AttendeeReport
    → Classified
    → Result ReportError Classified
unfolding classify_one
classify member_status submission [] so_far = ok so_far
classify member_status submission (attendee ∷ attendees) so_far = do
  status ← status_of member_status attendee.member
  classify member_status submission attendees (classify_one submission attendee status so_far)
