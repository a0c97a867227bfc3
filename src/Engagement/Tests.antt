-- ===== src/Engagement/Tests.antt =====
-- A poll session run through the service, and the theorems at its states.
use flock_os.Engagement.Kinds.{bulk_failed}
use flock_os.Engagement.Session.{Session, second, live_states, status_flags_for}
use flock_os.Engagement.Session.Transitions.{Later, archive, closed_never_live}
use flock_os.Engagement.Ticket.{
  Crypto, Ticket, attendee_key, sign_ticket, verify_ticket, issue_session_ticket,
}
use flock_os.Engagement.Ticket.Validity.{issue-verify}
use flock_os.Engagement.Gateway.{
  Participation, new_gateway, nonce_key, get_session, attendees, participations, throttle_allows,
  recent,
}
use flock_os.Engagement.Gateway.Throttle.{
  IsThrottled, bucket, new_gateway-IsThrottled, throttle_allows_lem,
}
use flock_os.Engagement.Service.{
  Config, State, Request, Receipt, CloseOutcome, in_memory_bulk, create_session, open_session,
  close_session, finalize_close, join, participate, submission_time, preview_outcome,
  in_window_attendees, projected,
}
use flock_os.Engagement.Service.Accepted.{Credited}
use flock_os.Engagement.Service.Steps.{Admitted}
use flock_os.Engagement.Service.Participate.{
  participate-accepted, participate-seen_nonce, participate-ticket, CreditsNobody,
}
use flock_os.Engagement.Service.Reach.{
  Step, IsReachable, initial, IsReachable-attendees, IsReachable-nonces,
}
use flock_os.Engagement.Service.Finalize.{closed_state, closed_session}
use flock_os.Engagement.Service.Close.{HasFinalized, finalize_close_outcome, finalize_close-retry}
use flock_os.Engagement.Service.Attendance.{finalize_close-in_memory}
use flock_os.Reporting
use flock_os.Reporting.{BulkBatchOutcome}
use flock_os.Reporting.Batch.{fresh_items}
use Prim.Native.String.{◌++◌ as ◌<>◌}
use flock_os.Base.{
  ◌+◌, ◌*◌, ◌≡◌, refl, String, string_eq, nat_eq, triple_eq, ◌==◌, true, false, [], ◌∷◌, ◌++◌, map,
  none, some, ok, err, IsDistinct, All, contains, count, length, ltb, leb, if◌then◌else◌,
}

abbrev stub_crypto : Crypto
stub_crypto = record {
  sha256 = λ text. "digest of " <> text;
  hmac_sha256 = λ secret text. secret <> " signs " <> text;
  six_decimals = λ t. if t == 0 then "0.000000" else "later";
}

abbrev service : Config
service = record {
  crypto = stub_crypto;
  bulk = in_memory_bulk;
  grace_seconds = 30;
  throttle_per_second = 2;
}

abbrev poll : Session
poll = record {
  session_id = "s1";
  gathering = "g1";
  branch = "north";
  organization = "org";
  group = none;
  kind = "poll";
  status = "draft";
  open_at = none;
  close_at = none;
  facilitator = none;
  config = "{}";
  geofence = none;
}

abbrev s0 : State
s0 = initial "k" Reporting.new_gateway

abbrev s1 : State
s1 = (create_session poll s0).1

abbrev s2 : State
s2 = (open_session "s1" 0 s1).1

abbrev ticket : Ticket
ticket = record {
  session_id = "s1";
  attendee_key = "digest of s1|phone";
  member_id = none;
  device_fingerprint = "phone";
  issued_at = 0;
  expires_at = 3600 * second;
  signature = "k signs s1|digest of s1|phone|0.000000|later";
}

abbrev answer : Request
answer = record {
  session_id = "s1";
  ticket = ticket;
  attendee_key = "digest of s1|phone";
  member_id = none;
  attendee_display_name = "Ann";
  device_fingerprint = "phone";
  nonce = "n1";
  role = none;
  score = none;
  reaction_ms = none;
  submitted_at = none;
  client_submitted_at = none;
  ip_address = none;
  geo_region = none;
  offline_replay = false;
  feedback = "{}";
}

abbrev s3 : State
s3 = (participate service answer 5 5 s2).1

abbrev s4 : State
s4 = (close_session service "s1" 9 s3).1

abbrev opened_poll : Session
opened_poll = record poll { status = "open"; open_at = some 0 }

abbrev closing_poll : Session
closing_poll = record poll { status = "closing"; open_at = some 0; close_at = some 9 }

joined : (join service "s1" none "phone" 0 s2).0 ≡ ok ticket
unfolding join open_session create_session attendee_key
joined = refl

abbrev receipt : Receipt
receipt = record {
  accepted = true;
  attendee_key = "digest of s1|phone";
  reason = none;
  submitted_at = some 5;
  status_flags = some (status_flags_for true false false false none);
}

answered : participate service answer 5 5 s2 ≡ (ok receipt, s3)
unfolding participate open_session create_session status_flags_for
answered = refl

closing_there : get_session s4.gateway "s1" ≡ some closing_poll
unfolding get_session close_session participate open_session create_session
closing_there = refl

reached : IsReachable service s3
reached =
    IsReachable.next s2 s3
      (IsReachable.next s1 s2
        (IsReachable.next s0 s1 (IsReachable.start "k" Reporting.new_gateway)
          (Step.created s0 poll))
        (Step.opened s1 "s1" 0))
      (Step.participated s2 answer 5 5)

abbrev failing : Config
failing = record service { bulk = λ items branch batch_id store. (none, store) }

abbrev forwarded : Ticket
forwarded = record ticket {
  session_id = "s2";
  signature = "k signs s2|digest of s1|phone|0.000000|later";
}

own_branch :
    All (λ (p : Participation). ◌≡◌ {A = String} p.branch "north") (participations s4.gateway "s1")
unfolding participations close_session participate open_session create_session
own_branch = (refl, tt)

issue-verify_example :
    (ticket.session_id ≡ opened_poll.session_id)
    × (attendee_key stub_crypto opened_poll.session_id none "phone" ≡ ok ticket.attendee_key)
    × (ticket.expires_at ≡ 0 + 3600 * second)
    × (verify_ticket stub_crypto ticket "k" 7 ≡ ok (ltb 7 (0 + 3600 * second)))
unfolding issue_session_ticket attendee_key sign_ticket
issue-verify_example = issue-verify stub_crypto opened_poll none "phone" "k" 0 3600 7 ticket refl

archived_not_live : contains live_states "archived" ≡ false
archived_not_live =
    closed_never_live "archived"
      (Later.next "closed" "closed" "archived" (Later.same "closed") archive)

throttle_allows_lem_example :
    ((throttle_allows "Ann:phone" 5 2 (new_gateway "k")).0
      ≡ ltb (count (λ ts. leb 5 (ts + second)) (bucket "Ann:phone" (new_gateway "k"))) 2)
    × (bucket "Bob:phone" (throttle_allows "Ann:phone" 5 2 (new_gateway "k")).1 ≡ (
        if (◌==◌ {A = String} "Ann:phone" "Bob:phone")
        then recent 5 (bucket "Ann:phone" (new_gateway "k"))
          ++ (if (throttle_allows "Ann:phone" 5 2 (new_gateway "k")).0 then 5 ∷ [] else [])
        else bucket "Bob:phone" (new_gateway "k")))
    × IsThrottled 2 (throttle_allows "Ann:phone" 5 2 (new_gateway "k")).1
throttle_allows_lem_example =
    throttle_allows_lem "Ann:phone" "Bob:phone" 5 2 (new_gateway "k")
      (new_gateway-IsThrottled 2 "k")

participate-accepted_example :
    (session : Session) × Admitted service answer 5 s2 session
    × Credited service answer session (submission_time service answer 5) s2 receipt s3
participate-accepted_example = participate-accepted service answer 5 5 s2 receipt s3 answered refl

participate-seen_nonce_example : CreditsNobody s3 (participate service answer 6 6 s3)
unfolding get_session participate open_session create_session
participate-seen_nonce_example = participate-seen_nonce service answer 6 6 s3 opened_poll refl refl

participate-ticket_example :
    participate service (record answer { ticket = forwarded }) 5 5 s2
    ≡ participate service answer 5 5 s2
unfolding verify_ticket open_session create_session
participate-ticket_example = participate-ticket service answer forwarded 5 5 s2 refl refl refl

IsReachable-attendees_example :
    (map (λ entry. entry.0) (in_window_attendees s3.gateway opened_poll)
      ≡ attendees s3.gateway opened_poll.session_id)
    × IsDistinct (attendees s3.gateway opened_poll.session_id)
    × ((preview_outcome s3.gateway opened_poll).attendee_count
        ≡ length (attendees s3.gateway opened_poll.session_id))
IsReachable-attendees_example = IsReachable-attendees service s3 opened_poll reached

IsReachable-nonces_example : IsDistinct (map nonce_key (participations s3.gateway "s1"))
IsReachable-nonces_example = IsReachable-nonces service s3 "s1" reached

finalize_close_outcome_example : HasFinalized service "s1" 40 s4 (finalize_close service "s1" 40 s4)
finalize_close_outcome_example = finalize_close_outcome service "s1" 40 s4

finalize_close-retry_example :
    (finalize_close failing "s1" 40 s4
      ≡ (err bulk_failed, closed_state failing "s1" 40 s4 closing_poll))
    × (finalize_close failing "s1" 41 (closed_state failing "s1" 40 s4 closing_poll) ≡ (
      ok (preview_outcome s4.gateway (closed_session failing "s1" 40 s4 closing_poll)),
      closed_state failing "s1" 40 s4 closing_poll,
    ))
    × ((closed_state failing "s1" 40 s4 closing_poll).emitted ≡ s4.emitted)
finalize_close-retry_example =
    finalize_close-retry failing "s1" 40 41 s4 closing_poll closing_there refl refl

finalize_close-in_memory_example :
    (outcome : CloseOutcome) × (s' : State) × (finalize_close service "s1" 40 s4 ≡ (ok outcome, s'))
    × (outcome.attendee_count ≡ length (in_window_attendees s4.gateway closing_poll))
    × (outcome.inserted + outcome.deduplicated ≡ outcome.attendee_count)
    × (s'.store.inserted_items
        ≡ s4.store.inserted_items
          ++ fresh_items s4.store (projected service s4.gateway closing_poll))
finalize_close-in_memory_example =
    finalize_close-in_memory service "s1" 40 s4 closing_poll refl closing_there refl own_branch
