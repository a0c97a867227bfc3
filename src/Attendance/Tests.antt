-- ===== src/Attendance/Tests.antt =====
-- A request of two rows, a database that fails once, and the theorems at them.
use flock_os.Attendance.{
  RawItem, Payload, Backend, Queued, Fault, retryable, max_retry, payload_of, bulk_submit,
}
use flock_os.Attendance.Request.{IsQueued, bulk_submit-IsQueued}
use flock_os.Attendance.Settles.{work, IsSettled, process_bulk_batch-IsSettled}
use flock_os.Reporting.{AttendanceItem, BulkBatchOutcome, submit, new_gateway}
use flock_os.Reporting
use flock_os.Base.{
  ℕ, zero, suc, ◌≡◌, refl, String, string_eq, true, List, [], ◌∷◌, none, some, Result, ok, err,
}

abbrev backend : {S : Type 0} → S → Backend S
backend store = record { store = store; queue = []; error_log = []; failures = []; acks = [] }

abbrev raw : String → RawItem
raw who = record {
  attendee_ref = some who;
  client_req_id = some who;
  member = none;
  status = none;
  source = none;
}

abbrev raws : List RawItem
raws = raw "ann" ∷ raw "bob" ∷ []

abbrev receipt : Queued
receipt = record { accepted = true; queued = 2; batch_id = "b1" }

accepted :
    (bulk_submit "g1" raws "b1" (some "north" ∷ none ∷ []) (backend new_gateway)).0 ≡ ok receipt
unfolding bulk_submit
accepted = refl

bulk_submit-IsQueued_example :
    IsQueued "g1" raws "b1"
      (some "north" ∷ none ∷ [])
      (backend new_gateway)
      (bulk_submit "g1" raws "b1" (some "north" ∷ none ∷ []) (backend new_gateway)).1
      receipt
bulk_submit-IsQueued_example =
    bulk_submit-IsQueued "g1" raws "b1" (some "north" ∷ none ∷ []) (backend new_gateway) receipt
      accepted

-- The service in memory, behind a database that deadlocks a number of times first.
abbrev flaky :
    List AttendanceItem
    → String
    → String
    → ℕ × Reporting.Gateway
    → Result Fault BulkBatchOutcome × (ℕ × Reporting.Gateway)
flaky items scope batch_id (suc n, g) = (err retryable, (n, g))
flaky items scope batch_id (zero, g) =
    let (outcome, g') = submit items scope batch_id g in (ok outcome, (zero, g'))

abbrev job : Payload
job = payload_of "b1" "north" []

abbrev waiting : Backend (ℕ × Reporting.Gateway)
waiting = record (backend (3, new_gateway)) { queue = (job, none) ∷ [] }

process_bulk_batch-IsSettled_example :
    IsSettled flaky 0 job waiting (work flaky 0 (suc max_retry) waiting)
process_bulk_batch-IsSettled_example =
    process_bulk_batch-IsSettled flaky 0 job waiting none refl refl refl
