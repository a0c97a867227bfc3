-- ===== src/Attendance.antt =====
-- flock_os/attendance.py: the transport of attendance. A batch is accepted, put on a queue, and written by
-- a background job that retries and in the end gives up; a leader's report is parsed and handed on.
pub mod Job
pub mod LeaderReport
pub mod Request
pub mod Settles
mod Tests
use flock_os.LeaderReporting.{ReportError, AttendeeReport, ReportSubmission, ReportOutcome}
use flock_os.Reporting.{
  AttendanceItem, BulkBatchOutcome, enforce_batch_size, with_exponential_backoff,
}
use flock_os.Base.Dict.{lookup}
use flock_os.Base.{
  ℕ, zero, suc, ◌+◌, ◌-◌, String, string_eq, ◌==◌, Bool, true, false, not, List, [], ◌∷◌, ◌++◌, map,
  Option, none, some, Result, ok, err, guard, ◌>>=◌, ◌>>◌, add, length, ltb, truthy, or_text,
  if◌then◌else◌,
}

-- `BULK_BATCH_SIZE`, `BULK_ATTENDANCE_MAX_RETRY`, `BULK_ATTENDANCE_IN_PLACE_ATTEMPTS`
abbrev pub bulk_batch_size : ℕ
bulk_batch_size = 500

abbrev pub max_retry : ℕ
max_retry = 5

abbrev pub in_place_attempts : ℕ
in_place_attempts = 10

abbrev pub default_attendance_status : String
default_attendance_status = "Present"

abbrev pub default_attendance_source : String
default_attendance_source = "bulk"

-- `frappe.throw`, by its message.
pub data TransportError : Type 0 where
  event_required batch_id_required gathering_required : TransportError
  attendee_ref_required client_req_id_required member_required : ℕ → TransportError
  ambiguous_branch_scope batch_too_large no_document wrong_branch : TransportError
  not_reportable_yet : String → TransportError
  report_rejected : ReportError → TransportError

-- One row of a request; a key that is missing is none.
pub record RawItem : Type 0 where
  pub attendee_ref : Option String
  pub client_req_id : Option String
  pub member : Option String
  pub status : Option String
  pub source : Option String

-- One row of a queued batch.
pub record QueuedItem : Type 0 where
  pub event : String
  pub attendee_ref : String
  pub branch : String
  pub status : Option String
  pub source : Option String
  pub client_req_id : Option String
  pub gathering : Option String
  pub member : Option String

-- `payload` of the job, with the keys `_attempt` and `_deadlettered` that it may have.
pub record Payload : Type 0 where
  pub batch_id : String
  pub scope_branch : String
  pub items : List QueuedItem
  pub attempt : Option ℕ
  pub deadlettered : Bool

-- `dict.get(key, default)`
abbrev pub get_or {ℓ} : {A : Type ℓ} → Option A → A → A
get_or none d = d
get_or (some a) d = a

-- The set of the branches that the caller's permissions name; a permission may name none.
unfoldable pub branches_of : List String → List (Option String) → List String
branches_of found [] = found
branches_of found (perm ∷ perms) =
    branches_of (if truthy perm then add found (or_text perm "") else found) perms

-- `_resolve_caller_branch_scope`
unfoldable pub resolve_caller_branch_scope : List (Option String) → Result TransportError String
unfolding branches_of
resolve_caller_branch_scope perms = elim (branches_of [] perms) [
  | [] ↦ err ambiguous_branch_scope
  | branch ∷ [] ↦ ok branch
  | branch ∷ other ∷ more ↦ err ambiguous_branch_scope
]

-- `_item_from_payload`
unfoldable pub item_from_payload :
    String → String → RawItem → ℕ → Result TransportError AttendanceItem
item_from_payload event branch raw index = do
  guard (truthy raw.attendee_ref) (attendee_ref_required index)
  guard (truthy raw.client_req_id) (client_req_id_required index)
  ok (record {
    event = event;
    attendee_ref = or_text raw.attendee_ref "";
    branch = branch;
    status = get_or raw.status default_attendance_status;
    source = get_or raw.source default_attendance_source;
    client_req_id = some (or_text raw.client_req_id "");
    gathering = some event;
    member = if truthy raw.member then raw.member else none;
    engagement_session = none;
    attendee_key = none;
  })

unfoldable pub items_from_payload :
    String → String → ℕ → List RawItem → Result TransportError (List AttendanceItem)
unfolding item_from_payload
items_from_payload event branch index [] = ok []
items_from_payload event branch index (raw ∷ raws) = do
  item ← item_from_payload event branch raw index
  items ← items_from_payload event branch (index + 1) raws
  ok (item ∷ items)

-- The row that `bulk_submit` puts on the queue for an item.
unfoldable pub queued_item : AttendanceItem → QueuedItem
queued_item item = record {
  event = item.event;
  attendee_ref = item.attendee_ref;
  branch = item.branch;
  status = some item.status;
  source = some item.source;
  client_req_id = item.client_req_id;
  gathering = item.gathering;
  member = item.member;
}

-- The item that the job makes of a row of the queue.
unfoldable pub item_of_queued : QueuedItem → AttendanceItem
item_of_queued raw = record {
  event = raw.event;
  attendee_ref = raw.attendee_ref;
  branch = raw.branch;
  status = get_or raw.status default_attendance_status;
  source = get_or raw.source default_attendance_source;
  client_req_id = raw.client_req_id;
  gathering = raw.gathering;
  member = raw.member;
  engagement_session = none;
  attendee_key = none;
}

pub record Ack : Type 0 where
  pub batch_id : String
  pub accepted : Bool
  pub inserted : ℕ
  pub deduplicated : ℕ
  pub rejected : ℕ

-- `flock.attendance.import_failed`
pub record ImportFailed : Type 0 where
  pub batch_id : String
  pub attempts : ℕ

-- The titles of the Error Log.
pub data LogEntry : Type 0 where
  persistence_failed persistence_failed_after_retries : String → LogEntry
  max_retry_exceeded stale_deadletter_drained : String → LogEntry

-- Where the jobs wait and what they leave: the tables of the database, the queue of jobs with the time
-- each may run at, the Error Log and the published events.
pub record Backend {ℓ} (S : Type ℓ) : Type ℓ where
  pub store : S
  pub queue : List (Payload × Option ℕ)
  pub error_log : List LogEntry
  pub failures : List ImportFailed
  pub acks : List Ack

pub record Queued : Type 0 where
  pub accepted : Bool
  pub queued : ℕ
  pub batch_id : String

-- The answers of the service over the database when it raises: a transient concurrency error, or another.
pub data Fault : Type 0 where
  retryable other : Fault

-- `BatchSizeExceeded`, as the transport reports it.
abbrev pub too_large : Result (Unit {0}) (Unit {0}) → Result TransportError (Unit {0})
too_large (ok u) = ok tt
too_large (err u) = err batch_too_large

-- The checks of `bulk_submit`, up to the queue: the scope and the items.
unfoldable pub accepted_items :
    String
    → List RawItem
    → String
    → List (Option String)
    → Result TransportError (String × List AttendanceItem)
unfolding resolve_caller_branch_scope items_from_payload enforce_batch_size
accepted_items event raws batch_id perms = do
  guard (not (event == "")) event_required
  guard (not (batch_id == "")) batch_id_required
  scope ← resolve_caller_branch_scope perms
  items ← items_from_payload event scope 0 raws
  too_large (enforce_batch_size items bulk_batch_size)
  ok (scope, items)

abbrev pub payload_of : String → String → List AttendanceItem → Payload
payload_of batch_id scope items = record {
  batch_id = batch_id;
  scope_branch = scope;
  items = map queued_item items;
  attempt = none;
  deadlettered = false;
}

module _ {ℓ} {S : Type ℓ} where
  abbrev pub enqueue : Payload → Option ℕ → Backend S → Backend S
  enqueue payload at b = record b { queue = b.queue ++ (payload, at) ∷ [] }

  abbrev pub log_error : LogEntry → Backend S → Backend S
  log_error entry b = record b { error_log = b.error_log ++ entry ∷ [] }

  -- The rest of `bulk_submit`, after the checks.
  unfoldable pub queue_batch :
      String
      → Result TransportError (String × List AttendanceItem)
      → Backend S
      → Result TransportError Queued × Backend S
  queue_batch batch_id (err e) b = (err e, b)
  queue_batch batch_id (ok (scope, items)) b = (
    ok (record { accepted = true; queued = length items; batch_id = batch_id }),
    enqueue (payload_of batch_id scope items) none b,
  )

  unfoldable pub bulk_submit :
      String
      → List RawItem
      → String
      → List (Option String)
      → Backend S
      → Result TransportError Queued × Backend S
  unfolding accepted_items queue_batch
  bulk_submit event raws batch_id perms b =
      queue_batch batch_id (accepted_items event raws batch_id perms) b
