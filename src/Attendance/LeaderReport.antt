-- ===== src/Attendance/LeaderReport.antt =====
-- The transport of a leader's report in flock_os/attendance.py: the request is parsed and handed on.
use flock_os.Attendance.{
  TransportError, resolve_caller_branch_scope, get_or, member_required, gathering_required,
  batch_id_required, no_document, wrong_branch, not_reportable_yet, report_rejected,
}
use flock_os.LeaderReporting.{ReportError, AttendeeReport, ReportSubmission, ReportOutcome}
use flock_os.Base.{
  ℕ, ◌+◌, String, string_eq, ◌==◌, Bool, true, false, not, List, [], ◌∷◌, Option, none, some,
  Result, ok, err, guard, ◌>>=◌, ◌>>◌, truthy, or_text, if◌then◌else◌,
}

-- One attendee of a leader's request; a key that is missing is none.
pub record RawAttendee : Type 0 where
  pub member : Option String
  pub present : Option Bool
  pub first_time : Option Bool
  pub client_req_id : Option String

-- `_attendee_from_payload`
unfoldable pub attendee_from_payload : RawAttendee → ℕ → Result TransportError AttendeeReport
attendee_from_payload raw index = do
  guard (truthy raw.member) (member_required index)
  ok (record {
    member = or_text raw.member "";
    present = get_or raw.present true;
    first_time = get_or raw.first_time false;
    client_req_id = if truthy raw.client_req_id then raw.client_req_id else none;
  })

unfoldable pub attendees_from_payload :
    ℕ → List RawAttendee → Result TransportError (List AttendeeReport)
unfolding attendee_from_payload
attendees_from_payload index [] = ok []
attendees_from_payload index (raw ∷ raws) = do
  attendee ← attendee_from_payload raw index
  attendees ← attendees_from_payload (index + 1) raws
  ok (attendee ∷ attendees)

-- The fields of a gathering's document that the transport reads.
pub record GatheringDoc : Type 0 where
  pub branch : String
  pub status : String
  pub group : String

-- `_resolve_reporter_member`, by the member that the user is linked to.
abbrev pub resolve_reporter_member : Option String → String → String
resolve_reporter_member linked user = or_text linked user

-- The checks of `report_attendance`, up to the service; `frappe.get_doc` raises on a missing document.
unfoldable pub submission_for :
    String
    → List RawAttendee
    → String
    → List (Option String)
    → Option GatheringDoc
    → String
    → Result TransportError ReportSubmission
unfolding resolve_caller_branch_scope attendees_from_payload
submission_for gathering raws client_batch_id perms found reporter = do
  guard (not (gathering == "")) gathering_required
  guard (not (client_batch_id == "")) batch_id_required
  scope ← resolve_caller_branch_scope perms
  doc ← get_doc found
  guard (doc.branch == scope) wrong_branch
  guard (doc.status == "Held") (not_reportable_yet doc.status)
  attendees ← attendees_from_payload 0 raws
  ok (record {
    gathering = gathering;
    branch = scope;
    group = doc.group;
    reported_by = reporter;
    attendees = attendees;
    client_batch_id = client_batch_id;
  })
  where
    get_doc : Option GatheringDoc → Result TransportError GatheringDoc
    get_doc none = err no_document
    get_doc (some doc) = ok doc

-- The service of the leader's reports is a parameter: it works on the tables.
unfoldable pub report_attendance {ℓ} :
    {S : Type ℓ}
    → (ReportSubmission → S → Result ReportError ReportOutcome × S)
    → Result TransportError ReportSubmission
    → S
    → Result TransportError ReportOutcome × S
report_attendance service (err e) s = (err e, s)
report_attendance service (ok submission) s =
    let (answer, s') = service submission s in (rejected answer, s')
  where
    rejected : Result ReportError ReportOutcome → Result TransportError ReportOutcome
    rejected (ok outcome) = ok outcome
    rejected (err e) = err (report_rejected e)
