-- ===== src/LeaderReporting/Submission.antt =====
-- `submit_report` of flock_os/leader_reporting.py: the checks, the chunks, and the end of a report.
use flock_os.LeaderReporting.{
  ReportError, bulk_batch_size, ReportSubmission, RollUp, ReportOutcome, Desk,
  validate_submission_shape, validate_gathering, Classified, classify, lifecycle,
}
use flock_os.Gatherings.{GatheringError, validate_status_transition}
use flock_os.Reporting.{AttendanceItem, submit}
use flock_os.Reporting
use flock_os.Base.Dict.{lookup, insert}
use flock_os.Base.{
  ℕ, zero, suc, ◌+◌, String, string_eq, option_eq, true, List, [], ◌∷◌, ◌++◌, Result, ok, err, ◌>>◌,
  length, take, drop,
}

-- What the chunks have come to.
pub record Recorded : Type 0 where
  pub inserted : ℕ
  pub deduplicated : ℕ
  pub batch_ids : List String
  pub bulk : Reporting.Gateway

-- `advance_gathering`, the event and the receipt, after the rows are written.
unfoldable pub conclude : ReportSubmission → RollUp → Recorded → Desk → ReportOutcome × Desk
conclude submission roll_up recorded desk = (
  record {
    gathering = submission.gathering;
    status = "Reported";
    accepted = true;
    inserted = recorded.inserted;
    deduplicated = recorded.deduplicated;
    roll_up = roll_up;
    batch_ids = recorded.batch_ids;
  },
  record desk {
    gathering_status = insert submission.gathering "Reported" desk.gathering_status;
    bulk = recorded.bulk;
    published_events =
        desk.published_events
        ++ (record {
          gathering = submission.gathering;
          branch = submission.branch;
          group = submission.group;
          reported_by = submission.reported_by;
          roll_up = roll_up;
          total_count = roll_up.member_count + roll_up.visitor_count;
          inserted = recorded.inserted;
          deduplicated = recorded.deduplicated;
          client_batch_id = submission.client_batch_id;
        })
          ∷ [];
    advanced =
        desk.advanced
        ++ (record {
          gathering = submission.gathering;
          to_status = "Reported";
          reported_by = submission.reported_by;
          roll_up = roll_up;
        })
          ∷ [];
  },
)

abbrev pub no_roll_up : Classified
no_roll_up = record {
  roll_up = record { member_count = 0; visitor_count = 0; first_time_count = 0 };
  items = [];
}

-- The checks and the classification, which change nothing.
unfoldable pub prepare : ReportSubmission → Desk → Result ReportError Classified
unfolding validate_submission_shape validate_gathering classify
prepare submission desk = do
  validate_submission_shape submission
  validate_gathering submission.gathering (lookup submission.gathering desk.gathering_status)
  classify desk.member_status submission submission.attendees no_roll_up

-- The end of a report, by whether the lifecycle allows the step.
unfoldable pub finish :
    ReportSubmission
    → RollUp
    → Recorded
    → Result GatheringError (Unit {0})
    → Desk
    → Result ReportError ReportOutcome × Desk
unfolding conclude
finish submission roll_up recorded (err e) desk =
    (err (lifecycle e), record desk { bulk = recorded.bulk })
finish submission roll_up recorded (ok u) desk =
    let (outcome, desk') = conclude submission roll_up recorded desk in (ok outcome, desk')

-- The printing of a batch id with its number is a parameter.
module _ (numbered : String → ℕ → String) where
  -- The chunks from a position on; the fuel is the number of items left.
  unfoldable pub record_chunks :
      ℕ → ℕ → ReportSubmission → List AttendanceItem → Recorded → Recorded
  record_chunks fuel index submission [] so_far = so_far
  record_chunks zero index submission (item ∷ items) so_far = so_far
  record_chunks (suc fuel) index submission (item ∷ items) so_far =
      let batch_id = numbered submission.client_batch_id index in
      let (outcome, bulk) =
        submit (take bulk_batch_size (item ∷ items)) submission.branch batch_id so_far.bulk in
      record_chunks fuel (suc index) submission (drop bulk_batch_size (item ∷ items)) (record {
        inserted = so_far.inserted + outcome.inserted;
        deduplicated = so_far.deduplicated + outcome.deduplicated;
        batch_ids = so_far.batch_ids ++ batch_id ∷ [];
        bulk = bulk;
      })

  unfoldable pub record_in_chunks :
      ReportSubmission → List AttendanceItem → Reporting.Gateway → Recorded
  unfolding record_chunks
  record_in_chunks submission items bulk =
      record_chunks (length items) 0 submission items
        (record { inserted = 0; deduplicated = 0; batch_ids = []; bulk = bulk })

  -- The rows are written before the lifecycle is checked again.
  unfoldable pub write :
      ReportSubmission
      → Result ReportError Classified
      → Desk
      → Result ReportError ReportOutcome × Desk
  unfolding record_in_chunks validate_status_transition finish
  write submission (err e) desk = (err e, desk)
  write submission (ok classified) desk =
      finish submission classified.roll_up (record_in_chunks submission classified.items desk.bulk)
        (validate_status_transition (lookup submission.gathering desk.gathering_status) "Reported")
        desk

  unfoldable pub submit_report : ReportSubmission → Desk → Result ReportError ReportOutcome × Desk
  unfolding prepare write
  submit_report submission desk = write submission (prepare submission desk) desk
