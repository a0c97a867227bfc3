-- ===== src/Engagement/Gateway.antt =====
-- The in-memory gateway: sessions, the participation log and its indexes, the throttle.
pub mod Throttle
use flock_os.Engagement.Kinds.{EngagementError, unknown_session}
use flock_os.Engagement.Session.{Session, StatusFlags, second}
use flock_os.Base.Dict.{lookup, insert, or_default}
use flock_os.Base.{
  ℕ, ◌+◌, String, string_eq, pair_eq, triple_eq, ◌==◌, Bool, true, false, not, ◌&&◌, ◌||◌, List, [],
  ◌∷◌, ◌++◌, Option, none, some, Result, ok, err, contains, add, length, filter, truthy, or_text,
  if◌then◌else◌, leb,
}

-- `feedback` is JSON text, which nothing here reads.
pub record Participation : Type 0 where
  pub session_id : String
  pub attendee_key : String
  pub member_id : Option String
  pub attendee_display_name : String
  pub device_fingerprint : String
  pub role : String
  pub engagement_type : String
  pub engagement_kind : String
  pub score : Option ℕ
  pub submitted_at : ℕ
  pub client_submitted_at : Option ℕ
  pub branch : String
  pub organization : String
  pub group : Option String
  pub geo_region : Option String
  pub nonce : String
  pub ip_address : Option String
  pub gathering : String
  pub status_flags : StatusFlags
  pub feedback : String

-- A set, and the ordered dictionary of attendees, is the list of its members.
pub record Gateway : Type 0 where
  pub secret : String
  pub sessions : List (String × Session)
  pub log : List (String × List Participation)
  pub nonce_seen : List (String × String × String)
  pub credited : List (String × List String)
  pub throttle : List (String × List ℕ)
  pub ip_attendees : List ((String × String) × List String)
  pub pending_finalizes : List (String × ℕ)

abbrev pub new_gateway : String → Gateway
new_gateway secret = record {
  secret = secret;
  sessions = [];
  log = [];
  nonce_seen = [];
  credited = [];
  throttle = [];
  ip_attendees = [];
  pending_finalizes = [];
}

unfoldable pub get_session : Gateway → String → Option Session
get_session g session_id = lookup session_id g.sessions

unfoldable pub upsert_session : Session → Gateway → Gateway
upsert_session session g = record g { sessions = insert session.session_id session g.sessions }

-- A stamp that is set once.
abbrev stamp : Bool → Option ℕ → ℕ → Option ℕ
stamp test none now = if test then some now else none
stamp test (some t) now = some t

unfoldable pub restamp : Session → String → ℕ → Session
restamp session status now = record session {
  status = status;
  open_at = stamp (status == "open") session.open_at now;
  close_at = stamp (status == "closing" || status == "closed") session.close_at now;
}

unfoldable pub set_session_status :
    String → String → ℕ → Gateway → Result EngagementError (Unit {0}) × Gateway
unfolding get_session restamp
set_session_status session_id status now g = elim (get_session g session_id) [
  | none ↦ (err (unknown_session session_id), g)
  | some session ↦
      (ok tt, record g { sessions = insert session_id (restamp session status now) g.sessions })
]

abbrev pub nonce_key : Participation → String × String × String
nonce_key p = (p.session_id, p.attendee_key, p.nonce)

-- The attendee is credited unless the row is out of scope.
unfoldable pub credit : Participation → List (String × List String) → List (String × List String)
credit p credited =
    if p.status_flags.out_of_scope
    then credited
    else insert p.session_id (add (or_default [] (lookup p.session_id credited)) p.attendee_key)
        credited

unfoldable pub note_ip :
    Participation → List ((String × String) × List String) → List ((String × String) × List String)
note_ip p ips =
    if truthy p.ip_address
    then (let key : String × String = (p.session_id, or_text p.ip_address "") in
        insert key (add (or_default [] (lookup key ips)) p.attendee_key) ips)
    else ips

unfoldable pub record_participation : Participation → Gateway → Bool × Gateway
unfolding credit note_ip
record_participation p g = if contains g.nonce_seen (nonce_key p) then (false, g) else (
  true,
  record g {
    nonce_seen = g.nonce_seen ++ nonce_key p ∷ [];
    log = insert p.session_id (or_default [] (lookup p.session_id g.log) ++ p ∷ []) g.log;
    credited = credit p g.credited;
    ip_attendees = note_ip p g.ip_attendees;
  },
)

unfoldable pub has_attendee : Gateway → String → String → Bool
has_attendee g session_id attendee_key =
    contains (or_default [] (lookup session_id g.credited)) attendee_key

unfoldable pub attendees : Gateway → String → List String
attendees g session_id = or_default [] (lookup session_id g.credited)

unfoldable pub participations : Gateway → String → List Participation
participations g session_id = or_default [] (lookup session_id g.log)

-- The stamps of a bucket that are at most a second old; `ts >= now - 1.0`.
abbrev pub recent : ℕ → List ℕ → List ℕ
recent now bucket = filter (λ ts. leb now (ts + second)) bucket

unfoldable pub throttle_allows : String → ℕ → ℕ → Gateway → Bool × Gateway
throttle_allows key now max_per_second g =
    let bucket = recent now (or_default [] (lookup key g.throttle)) in
    if leb max_per_second (length bucket)
    then (false, record g { throttle = insert key bucket g.throttle })
    else (true, record g { throttle = insert key (bucket ++ now ∷ []) g.throttle })

unfoldable pub same_ip_attendee_count : Gateway → String → String → ℕ
same_ip_attendee_count g session_id ip_address =
    length (or_default [] (lookup (session_id, ip_address) g.ip_attendees))

unfoldable pub schedule_finalize_close : String → ℕ → Gateway → Gateway
schedule_finalize_close session_id grace_seconds g = record g {
  pending_finalizes = g.pending_finalizes ++ (session_id, grace_seconds) ∷ [];
}
