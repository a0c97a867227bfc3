-- ===== src/Engagement/Ticket/Validity.antt =====
-- A ticket that was issued, verified at some time.
use flock_os.Engagement.Session.{Session, second, live_states}
use flock_os.Engagement.Ticket.{
  Crypto, Ticket, attendee_key, canonical_ticket_payload, sign_ticket, verify_ticket,
  issue_session_ticket,
}
use flock_os.Base.{
  ℕ, ◌+◌, ◌*◌, ◌≡◌, ◌≢◌, ◌↔◌, refl, String, string_eq, true, false, Option, ok, >>=-eq-ok, subst,
  guard, contains, leb, ltb, arith, beq_self, eq_iff_lem,
}

module _ (crypto : Crypto) where
  abbrev ticket_of : Session → Option String → String → ℕ → ℕ → String → String → Ticket
  ticket_of session member_id device now expires key signature = record {
    session_id = session.session_id;
    attendee_key = key;
    member_id = member_id;
    device_fingerprint = device;
    issued_at = now;
    expires_at = expires;
    signature = signature;
  }

  -- The parts of a ticket that was issued.
  issued :
      (session : Session) (member_id : Option String) (device secret : String) (now ttl_seconds : ℕ)
      (ticket : Ticket)
      → issue_session_ticket crypto session member_id device secret now ttl_seconds ≡ ok ticket
      → (key signature : String) × (attendee_key crypto session.session_id member_id device
          ≡ ok key)
        × (sign_ticket crypto session.session_id key now (now + ttl_seconds * second) secret
            ≡ ok signature)
        × (ticket_of session member_id device now (now + ttl_seconds * second) key signature
            ≡ ticket)
  unfolding issue_session_ticket
  issued session member_id device secret now ttl_seconds ticket h =
      let (u, live, rest) = >>=-eq-ok (guard (contains live_states session.status) _) _ h in
      let (key, keyed, signing) =
        >>=-eq-ok (attendee_key crypto session.session_id member_id device) _ rest in
      let (signature, signed, same) =
        >>=-eq-ok
          (sign_ticket crypto session.session_id key now (now + ttl_seconds * second) secret) _
          signing in
      (key, signature, keyed, signed, ground arith)

  -- A ticket issued at `now` names its session and the attendee's key, expires `ttl_seconds` later,
  -- and at any time verifies under the same secret exactly when it has not expired.
  pub issue-verify :
      (session : Session) (member_id : Option String) (device secret : String)
      (now ttl_seconds at : ℕ) (ticket : Ticket)
      → issue_session_ticket crypto session member_id device secret now ttl_seconds ≡ ok ticket
      → (ticket.session_id ≡ session.session_id)
        × (attendee_key crypto session.session_id member_id device ≡ ok ticket.attendee_key)
        × (ticket.expires_at ≡ now + ttl_seconds * second)
        × (verify_ticket crypto ticket secret at ≡ ok (ltb at (now + ttl_seconds * second)))
  issue-verify session member_id device secret now ttl_seconds at ticket h =
      let (key, signature, keyed, signed, same) =
        issued session member_id device secret now ttl_seconds ticket h in
      subst
        (λ (t : Ticket).
          (t.session_id ≡ session.session_id)
          × (attendee_key crypto session.session_id member_id device ≡ ok t.attendee_key)
          × (t.expires_at ≡ now + ttl_seconds * second)
          × (verify_ticket crypto t secret at ≡ ok (ltb at (now + ttl_seconds * second))))
        same
        (refl, keyed, refl, unfold verify_ticket in rw signed (ground (arith, beq_self signature)))

  -- A ticket verifies exactly when its signature is that of its own fields under the secret and it
  -- has not expired.
  pub verify_ticket_iff :
      (ticket : Ticket) (secret : String) (at : ℕ)
      → secret ≢ ""
      → (verify_ticket crypto ticket secret at ≡ ok true) ↔ (
          (ticket.signature
            ≡ crypto.hmac_sha256 secret (
                canonical_ticket_payload crypto ticket.session_id ticket.attendee_key
                  ticket.issued_at ticket.expires_at))
          × (leb ticket.expires_at at ≡ false))
  unfolding verify_ticket
  verify_ticket_iff ticket secret at h = ground (
    arith,
    eq_iff_lem secret "",
    eq_iff_lem
        (crypto.hmac_sha256 secret (
          canonical_ticket_payload crypto ticket.session_id ticket.attendee_key ticket.issued_at
            ticket.expires_at))
        ticket.signature,
  )
