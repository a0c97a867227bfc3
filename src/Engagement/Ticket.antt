-- ===== src/Engagement/Ticket.antt =====
-- Attendee keys and signed session tickets. SHA-256, HMAC-SHA-256 and the printing of a time are
-- parameters.
pub mod Validity
use flock_os.Engagement.Kinds.{
  EngagementError, not_live, session_id_required, identity_required, secret_required,
}
use flock_os.Engagement.Session.{Session, second, live_states}
use Prim.Native.String.{◌++◌ as ◌<>◌}
use flock_os.Base.{
  ℕ, ◌+◌, ◌*◌, String, string_eq, ◌==◌, Bool, true, false, not, ◌&&◌, ◌||◌, Option, none, some,
  Result, ok, err, ◌>>=◌, ◌>>◌, guard, contains, or_text, if◌then◌else◌, leb,
}

-- What the module takes from Python's `hashlib`, `hmac` and number formatting.
pub record Crypto : Type 0 where
  -- The hexadecimal digest of a text.
  pub sha256 : String → String
  -- The hexadecimal digest of a text under a secret.
  pub hmac_sha256 : String → String → String
  -- `f"{t:.6f}"`
  pub six_decimals : ℕ → String

pub record Ticket : Type 0 where
  pub session_id : String
  pub attendee_key : String
  pub member_id : Option String
  pub device_fingerprint : String
  pub issued_at : ℕ
  pub expires_at : ℕ
  pub signature : String

module _ (crypto : Crypto) where
  unfoldable pub attendee_key : String → Option String → String → Result EngagementError String
  attendee_key session_id member_id device_fingerprint = do
    guard (not (session_id == "")) session_id_required
    let identity = or_text member_id device_fingerprint
    guard (not (identity == "")) identity_required
    ok (crypto.sha256 (session_id <> "|" <> identity))

  abbrev pub canonical_ticket_payload : String → String → ℕ → ℕ → String
  canonical_ticket_payload session_id key issued_at expires_at =
      session_id
      <> "|"
      <> key
      <> "|"
      <> crypto.six_decimals issued_at
      <> "|"
      <> crypto.six_decimals expires_at

  unfoldable pub sign_ticket : String → String → ℕ → ℕ → String → Result EngagementError String
  sign_ticket session_id key issued_at expires_at secret = do
    guard (not (secret == "")) secret_required
    ok (crypto.hmac_sha256 secret (canonical_ticket_payload session_id key issued_at expires_at))

  abbrev pub is_expired : Ticket → ℕ → Bool
  is_expired ticket now = leb ticket.expires_at now

  unfoldable pub verify_ticket : Ticket → String → ℕ → Result EngagementError Bool
  unfolding sign_ticket
  verify_ticket ticket secret now = do
    expected ←
        sign_ticket ticket.session_id ticket.attendee_key ticket.issued_at ticket.expires_at secret
    ok (expected == ticket.signature && not (is_expired ticket now))

  unfoldable pub issue_session_ticket :
      Session → Option String → String → String → ℕ → ℕ → Result EngagementError Ticket
  unfolding attendee_key sign_ticket
  issue_session_ticket session member_id device_fingerprint secret now ttl_seconds = do
    guard (contains live_states session.status) (not_live session.status)
    let expires = now + ttl_seconds * second
    key ← attendee_key session.session_id member_id device_fingerprint
    signature ← sign_ticket session.session_id key now expires secret
    ok (record {
      session_id = session.session_id;
      attendee_key = key;
      member_id = member_id;
      device_fingerprint = device_fingerprint;
      issued_at = now;
      expires_at = expires;
      signature = signature;
    })
