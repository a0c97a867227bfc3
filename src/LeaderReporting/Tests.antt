-- ===== src/LeaderReporting/Tests.antt =====
-- A held gathering, a report of a member and a visitor, and the theorems at it.
use flock_os.LeaderReporting.Submission.{submit_report}
use flock_os.LeaderReporting.{
  ReportError, AttendeeReport, ReportSubmission, ReportOutcome, Desk, group_required,
}
use flock_os.LeaderReporting.Ending.{IsReported}
use flock_os.LeaderReporting.Report.{
  submit_report-refused, submit_report-IsReported, submit_report-once, submit_all,
}
use flock_os.Gatherings.{is_valid_transition}
use flock_os.Reporting.{new_gateway, submit}
use flock_os.Base.{ℕ, ◌≡◌, refl, String, string_eq, true, false, List, [], ◌∷◌, none, ok, err}

-- The number is not printed here.
abbrev first_part : String → ℕ → String
first_part batch_id n = batch_id

abbrev desk : Desk
desk = record {
  gathering_status = ("g1", "Held") ∷ ("g2", "Scheduled") ∷ [];
  member_status = ("ann", "Member") ∷ ("bob", "Visitor") ∷ ("cid", "Member") ∷ [];
  bulk = new_gateway;
  published_events = [];
  advanced = [];
}

abbrev attends : String → AttendeeReport
attends who = record { member = who; present = true; first_time = false; client_req_id = none }

abbrev report : ReportSubmission
report = record {
  gathering = "g1";
  branch = "north";
  group = "youth";
  reported_by = "lea";
  attendees =
      attends "ann"
      ∷ record (attends "bob") { first_time = true }
      ∷ record (attends "cid") { present = false }
      ∷ [];
  client_batch_id = "r1";
}

abbrev receipt : ReportOutcome
receipt = record {
  gathering = "g1";
  status = "Reported";
  accepted = true;
  inserted = 2;
  deduplicated = 0;
  roll_up = record { member_count = 1; visitor_count = 1; first_time_count = 1 };
  batch_ids = "r1" ∷ [];
}

accepted : (submit_report first_part report desk).0 ≡ ok receipt
unfolding submit_report is_valid_transition submit
accepted = refl

without_group :
    (submit_report first_part (record report { group = "" }) desk).0 ≡ err group_required
unfolding submit_report
without_group = refl

submit_report-refused_example :
    (submit_report first_part (record report { group = "" }) desk).1 ≡ desk
submit_report-refused_example =
    submit_report-refused first_part (record report { group = "" }) desk group_required
      without_group

submit_report-IsReported_example :
    IsReported report desk (submit_report first_part report desk).1 receipt
submit_report-IsReported_example = submit_report-IsReported first_part report desk receipt accepted

-- The report of the held gathering, twice more.
abbrev between : List ReportSubmission
between = report ∷ (record report { client_batch_id = "r3" }) ∷ []

submit_report-once_example :
    (e : ReportError) × (submit_report first_part
        (record report { client_batch_id = "r2" })
        (submit_all first_part between (submit_report first_part report desk).1)
      ≡ (err e, submit_all first_part between (submit_report first_part report desk).1))
submit_report-once_example =
    submit_report-once first_part report between (record report { client_batch_id = "r2" }) desk
      receipt accepted refl
