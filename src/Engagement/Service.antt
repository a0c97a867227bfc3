-- ===== src/Engagement/Service.antt =====
-- The engagement service. Its object is the gateway, the attendance store behind the bulk service,
-- and the events that it emitted. Each call of `time.time()` is an argument.
pub mod Lifecycle
pub mod Steps
pub mod Accepted
pub mod Participate
pub mod Credit
pub mod Recording
pub mod Reach
pub mod Finalize
pub mod Close
pub mod Attendance
use flock_os.Engagement.Kinds.{
  EngagementError, unknown_session, not_live, bulk_failed, validate_kind, engagement_type_for,
  normalize_score,
}
use flock_os.Engagement.Session.{
  Session, Scope, scope, StatusFlags, live_states, validate_state_transition,
  validate_session_window, detect_suspect_pattern, status_flags_for,
}
use flock_os.Engagement.Ticket.{Crypto, Ticket, issue_session_ticket, verify_ticket}
use flock_os.Engagement.Gateway.{
  Gateway, Participation, get_session, upsert_session, set_session_status, record_participation,
  participations, throttle_allows, same_ip_attendee_count, schedule_finalize_close,
}
use flock_os.Base.Stateful.{Method, return, raise, lift, gets, update, ◌>>=◌, ◌>>◌}
use Prim.Native.String.{◌++◌ as ◌<>◌}
use flock_os.Base.Int.{ℤ}
use flock_os.Reporting
use flock_os.Reporting.{AttendanceItem, BulkBatchOutcome}
use flock_os.Base.Dict.{lookup, insert, or_default}
use flock_os.Base.{
  ℕ, ◌+◌, String, string_eq, ◌==◌, Bool, true, false, not, ◌&&◌, ◌||◌, List, [], ◌∷◌, ◌++◌, map,
  Option, none, some, Result, ok, err, contains, is_some, length, truthy, or_text, if◌then◌else◌,
}

pub data Event : Type 0 where
  opened : (session gathering kind : String) → Scope → Event
  closed : (session gathering : String) → (count : ℕ) → Scope → Event

-- `submit` of the bulk service: the receipt, or `none` where it raises.
abbrev pub BulkSubmit : Type 0
BulkSubmit =
    List AttendanceItem
    → String
    → String
    → Reporting.Gateway
    → Option BulkBatchOutcome × Reporting.Gateway

-- The service over the in-memory attendance gateway, which does not raise.
abbrev pub in_memory_bulk : BulkSubmit
in_memory_bulk items branch batch_id store =
    let (outcome, store') = Reporting.submit items branch batch_id store in (some outcome, store')

-- The fields that the constructor of the service sets.
pub record Config : Type 0 where
  pub crypto : Crypto
  pub bulk : BulkSubmit
  pub grace_seconds : ℕ
  pub throttle_per_second : ℕ

pub record State : Type 0 where
  pub gateway : Gateway
  pub store : Reporting.Gateway
  pub emitted : List Event

pub record Request : Type 0 where
  pub session_id : String
  pub ticket : Ticket
  pub attendee_key : String
  pub member_id : Option String
  pub attendee_display_name : String
  pub device_fingerprint : String
  pub nonce : String
  pub role : Option String
  pub score : Option ℤ
  pub reaction_ms : Option ℕ
  pub submitted_at : Option ℕ
  pub client_submitted_at : Option ℕ
  pub ip_address : Option String
  pub geo_region : Option String
  pub offline_replay : Bool
  pub feedback : String

-- `none` for `status_flags` is the empty dictionary.
pub record Receipt : Type 0 where
  pub accepted : Bool
  pub attendee_key : String
  pub reason : Option String
  pub submitted_at : Option ℕ
  pub status_flags : Option StatusFlags

pub record CloseOutcome : Type 0 where
  pub session_id : String
  pub gathering : String
  pub attendee_count : ℕ
  pub inserted : ℕ
  pub deduplicated : ℕ
  pub finalized : Bool

abbrev pub M : Type 0 → Type 0
M A = Method State EngagementError A

-- A method of the gateway that may raise.
abbrev pub on_gateway {ℓ} :
    {A : Type ℓ} → Method Gateway EngagementError A → Method State EngagementError A
on_gateway m s = let (r, g) = m s.gateway in (r, record s { gateway = g })

abbrev pub change_gateway : (Gateway → Gateway) → M (Unit {0})
change_gateway f s = (ok tt, record s { gateway = f s.gateway })

abbrev pub emit : Event → M (Unit {0})
emit event s = (ok tt, record s { emitted = s.emitted ++ event ∷ [] })

abbrev pub found : String → Option Session → Result EngagementError Session
found session_id none = err (unknown_session session_id)
found session_id (some session) = ok session

unfoldable pub require_session : String → M Session
unfolding get_session
require_session session_id s = (found session_id (get_session s.gateway session_id), s)

unfoldable pub create_session : Session → M Session
unfolding validate_kind upsert_session
create_session session = do
  lift (validate_kind session.kind)
  change_gateway (upsert_session session)
  return session

unfoldable pub open_session : String → ℕ → M Session
unfolding require_session validate_state_transition set_session_status
open_session session_id now = do
  session ← require_session session_id
  lift (validate_state_transition (some session.status) "open")
  on_gateway (set_session_status session_id "open" now)
  opened_session ← require_session session_id
  emit (
      opened opened_session.session_id opened_session.gathering opened_session.kind
        (scope opened_session))
  return opened_session

-- The first in-window row of each attendee, in order; `by_attendee.setdefault(key, p)`.
unfoldable pub first_in_window :
    List (String × Participation) → List Participation → List (String × Participation)
first_in_window by_attendee [] = by_attendee
first_in_window by_attendee (p ∷ rest) =
    first_in_window
      (if p.status_flags.out_of_scope || is_some (lookup p.attendee_key by_attendee)
        then by_attendee
        else by_attendee ++ (p.attendee_key, p) ∷ [])
      rest

unfoldable pub in_window_attendees : Gateway → Session → List (String × Participation)
unfolding first_in_window participations
in_window_attendees g session = first_in_window [] (participations g session.session_id)

unfoldable pub preview_outcome : Gateway → Session → CloseOutcome
unfolding in_window_attendees
preview_outcome g session = record {
  session_id = session.session_id;
  gathering = session.gathering;
  attendee_count = length (in_window_attendees g session);
  inserted = 0;
  deduplicated = 0;
  finalized = session.status == "closed";
}

unfoldable pub participation_to_attendance_item : Participation → AttendanceItem
participation_to_attendance_item p = record {
  event = p.gathering;
  attendee_ref = or_text p.member_id p.attendee_key;
  branch = p.branch;
  status = "Present";
  source = "engagement";
  client_req_id = some p.attendee_key;
  gathering = some p.gathering;
  member = p.member_id;
  engagement_session = some p.session_id;
  attendee_key = some p.attendee_key;
}

module _ (config : Config) where
  unfoldable pub close_session : String → ℕ → M CloseOutcome
  unfolding require_session validate_state_transition set_session_status schedule_finalize_close
      preview_outcome
  close_session session_id now = do
    session ← require_session session_id
    lift (validate_state_transition (some session.status) "closing")
    on_gateway (set_session_status session_id "closing" now)
    closing ← require_session session_id
    change_gateway (schedule_finalize_close session_id config.grace_seconds)
    gets (λ s. preview_outcome s.gateway closing)

  abbrev pub run_bulk : List AttendanceItem → String → String → M BulkBatchOutcome
  run_bulk items branch batch_id s =
      let (r, store) = config.bulk items branch batch_id s.store in
      (elim r [ none ↦ err bulk_failed | some outcome ↦ ok outcome ], record s { store = store })

  abbrev pub projected : Gateway → Session → List AttendanceItem
  projected g session =
      map (λ entry. participation_to_attendance_item entry.1) (in_window_attendees g session)

  unfoldable pub project_and_record_attendance : Session → M CloseOutcome
  unfolding in_window_attendees participation_to_attendance_item
  project_and_record_attendance session = do
    items ← gets (λ s. projected s.gateway session)
    outcome ← run_bulk items session.branch ("engagement:" <> session.session_id)
    return (record {
      session_id = session.session_id;
      gathering = session.gathering;
      attendee_count = length items;
      inserted = outcome.inserted;
      deduplicated = outcome.deduplicated;
      finalized = true;
    })

  -- `finalize_close` of a session that is not closed yet.
  unfoldable pub finalize_open : String → Session → ℕ → M CloseOutcome
  unfolding require_session validate_state_transition set_session_status
      project_and_record_attendance
  finalize_open session_id session now = do
    lift (validate_state_transition (some session.status) "closed")
    on_gateway (set_session_status session_id "closed" now)
    closed_session ← require_session session_id
    outcome ← project_and_record_attendance closed_session
    emit (
        closed closed_session.session_id closed_session.gathering outcome.attendee_count
          (scope closed_session))
    return outcome

  unfoldable pub finalize_close : String → ℕ → M CloseOutcome
  unfolding require_session preview_outcome finalize_open
  finalize_close session_id now = do
    session ← require_session session_id
    if session.status == "closed"
        then gets (λ s. preview_outcome s.gateway session)
        else finalize_open session_id session now

  unfoldable pub join : String → Option String → String → ℕ → M Ticket
  unfolding require_session issue_session_ticket
  join session_id member_id device_fingerprint now = do
    session ← require_session session_id
    if contains live_states session.status
        then (do
          secret ← gets (λ s. s.gateway.secret)
          lift (
              issue_session_ticket config.crypto session member_id device_fingerprint secret now
                3600))
        else raise (not_live session.status)

  abbrev pub refused : Request → String → Receipt
  refused request reason = record {
    accepted = false;
    attendee_key = request.attendee_key;
    reason = some reason;
    submitted_at = none;
    status_flags = none;
  }

  -- `float(request.submitted_at if request.submitted_at is not None else time.time())`
  abbrev pub submission_time : Request → ℕ → ℕ
  submission_time request now = or_default now request.submitted_at

  abbrev pub flags_of : Request → Session → ℕ → Gateway → StatusFlags
  flags_of request session submitted_at g =
      let (in_window, reason) = validate_session_window session submitted_at config.grace_seconds in
      let same_ip =
        if truthy request.ip_address
        then same_ip_attendee_count g session.session_id (or_text request.ip_address "")
        else 0 in
      status_flags_for in_window (detect_suspect_pattern request.reaction_ms same_ip)
        request.offline_replay false reason

  abbrev pub participation_of : Request → Session → ℕ → StatusFlags → String → Participation
  participation_of request session submitted_at flags engagement_type = record {
    session_id = session.session_id;
    attendee_key = request.attendee_key;
    member_id = request.member_id;
    attendee_display_name = request.attendee_display_name;
    device_fingerprint = request.device_fingerprint;
    role = or_text request.role "member";
    engagement_type = engagement_type;
    engagement_kind = session.kind;
    score = normalize_score session.kind request.score;
    submitted_at = submitted_at;
    client_submitted_at = request.client_submitted_at;
    branch = session.branch;
    organization = session.organization;
    group = session.group;
    geo_region = request.geo_region;
    nonce = request.nonce;
    ip_address = request.ip_address;
    gathering = session.gathering;
    status_flags = flags;
    feedback = request.feedback;
  }

  abbrev pub recorded_receipt : Request → ℕ → StatusFlags → Bool → Receipt
  recorded_receipt request submitted_at flags recorded = record {
    accepted = recorded;
    attendee_key = request.attendee_key;
    reason = if recorded then none else some "duplicate_nonce";
    submitted_at = some submitted_at;
    status_flags = some flags;
  }

  -- `participate` from the flags on: the row is built and recorded.
  unfoldable pub record_interaction : Request → Session → ℕ → M Receipt
  unfolding validate_session_window same_ip_attendee_count detect_suspect_pattern status_flags_for
      engagement_type_for normalize_score record_participation
  record_interaction request session submitted_at = do
    flags ← gets (λ s. flags_of request session submitted_at s.gateway)
    engagement_type ← lift (engagement_type_for session.kind)
    let participation = participation_of request session submitted_at flags engagement_type
    recorded ← on_gateway (update (record_participation participation))
    return (recorded_receipt request submitted_at flags recorded)

  -- `participate` from the throttle on.
  unfoldable pub throttled_interaction : Request → Session → ℕ → M Receipt
  unfolding throttle_allows record_interaction
  throttled_interaction request session submitted_at = do
    allowed ← on_gateway (
        update (
          throttle_allows (request.attendee_key <> ":" <> request.device_fingerprint) submitted_at
            config.throttle_per_second))
    if allowed
        then record_interaction request session submitted_at
        else return (refused request "throttled")

  -- The two arguments after the request are the time at which the ticket is checked, and the time
  -- that stands in for a missing `submitted_at`.
  unfoldable pub participate : Request → ℕ → ℕ → M Receipt
  unfolding require_session verify_ticket throttled_interaction
  participate request checked_at now = do
    session ← require_session request.session_id
    if not (contains live_states session.status)
        then return (refused request "session_not_live")
        else (do
          secret ← gets (λ s. s.gateway.secret)
          verified ← lift (verify_ticket config.crypto request.ticket secret checked_at)
          if not verified
              then return (refused request "invalid_ticket")
              else if not (request.ticket.attendee_key == request.attendee_key)
              then return (refused request "attendee_key_mismatch")
              else throttled_interaction request session (submission_time request now))

  -- Each request with its two clock readings; an exception ends the batch.
  unfoldable pub bulk_participate : List (Request × ℕ × ℕ) → M (List Receipt)
  unfolding participate
  bulk_participate [] = return []
  bulk_participate ((request, checked_at, now) ∷ rest) = do
    receipt ← participate request checked_at now
    receipts ← bulk_participate rest
    return (receipt ∷ receipts)
