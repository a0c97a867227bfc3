-- ===== src/Engagement/Service/Steps.antt =====
-- The steps of `participate` one by one, each on every branch.
use flock_os.Engagement.Kinds.{EngagementError, engagement_type_for}
use flock_os.Engagement.Session.{Session, StatusFlags, live_states}
use flock_os.Engagement.Ticket.{verify_ticket}
use flock_os.Engagement.Gateway.{
  Gateway, Participation, nonce_key, get_session, record_participation, participations,
  throttle_allows,
}
use flock_os.Engagement.Service.{
  Config, State, Request, Receipt, participate, throttled_interaction, record_interaction,
  participation_of, flags_of, submission_time, recorded_receipt, refused,
}
use Prim.Native.String.{◌++◌ as ◌<>◌}
use flock_os.Base.Dict.{lookup, or_default, lookup-insert}
use flock_os.Base.{
  ℕ, ◌≡◌, String, string_eq, triple_eq, ◌==◌, Bool, Bool-cases, Option-cases, Result-cases, true,
  false, ◌⊎◌, inl, inr, [], ◌∷◌, ◌++◌, some, Result, ok, err, arith, contains, eq_iff_lem, beq_self,
  eq_of_beq,
}

-- What a request that has passed every check before the throttle has shown.
pub record Admitted (config : Config) (request : Request) (checked_at : ℕ) (s : State)
    (session : Session) : Type 0 where
  pub there : get_session s.gateway request.session_id ≡ some session
  pub live : contains live_states session.status ≡ true
  pub verified : verify_ticket config.crypto request.ticket s.gateway.secret checked_at ≡ ok true
  pub own_key : request.ticket.attendee_key ≡ request.attendee_key

-- Whether a call returned a receipt that says so.
abbrev pub is_accepted : Result EngagementError Receipt → Bool
is_accepted (ok receipt) = receipt.accepted
is_accepted (err x) = false

module _ (config : Config) (request : Request) (checked_at now : ℕ) (s : State) where
  pub participate-Admitted :
      (session : Session)
      → Admitted config request checked_at s session
      → participate config request checked_at now s
        ≡ throttled_interaction config request session (submission_time config request now) s
  unfolding participate
  participate-Admitted session a = ground (
    arith,
    a.there,
    a.live,
    a.verified,
    a.own_key,
    eq_iff_lem request.ticket.attendee_key request.attendee_key,
  )

  -- A request that is not admitted changes nothing, and is refused or raises.
  pub participate-refused :
      ((session : Session) × Admitted config request checked_at s session)
      ⊎ (((participate config request checked_at now s).1 ≡ s)
          × (is_accepted (participate config request checked_at now s).0 ≡ false))
  unfolding participate
  participate-refused = elim (Option-cases (get_session s.gateway request.session_id)) [
    | inl missing ↦ inr (ground arith, ground arith)
    | inr (session, there) ↦ elim (Bool-cases (contains live_states session.status)) [
      | inr dead ↦ inr (ground arith, ground arith)
      | inl live ↦
          elim (Result-cases
            (verify_ticket config.crypto request.ticket s.gateway.secret checked_at)) [
              | inr (x, raised) ↦ inr (ground arith, ground arith)
              | inl (false, forged) ↦ inr (ground arith, ground arith)
              | inl (true, verified) ↦
                  elim (Bool-cases (request.ticket.attendee_key == request.attendee_key)) [
                    | inr other ↦ inr (ground arith, ground arith)
                    | inl own ↦ inl (
                      session,
                      record {
                        there = there;
                        live = live;
                        verified = verified;
                        own_key = eq_of_beq own;
                      },
                    )
                  ]
            ]
    ]
  ]

abbrev pub throttle_key : Request → String
throttle_key request = request.attendee_key <> ":" <> request.device_fingerprint

module _ (config : Config) (request : Request) (session : Session) (submitted_at : ℕ)
    (s : State) where
  abbrev pub flags : StatusFlags
  flags = flags_of config request session submitted_at s.gateway

  abbrev pub row : String → Participation
  row engagement_type = participation_of config request session submitted_at flags engagement_type

  abbrev pub key : String × String × String
  key = (session.session_id, request.attendee_key, request.nonce)

  pub record_raises :
      (x : EngagementError)
      → engagement_type_for session.kind ≡ err x
      → record_interaction config request session submitted_at s ≡ (err x, s)
  unfolding record_interaction
  record_raises x h = ground arith

  pub record_duplicate :
      (engagement_type : String)
      → engagement_type_for session.kind ≡ ok engagement_type
      → contains s.gateway.nonce_seen key ≡ true
      → record_interaction config request session submitted_at s
        ≡ (ok (recorded_receipt config request submitted_at flags false), s)
  unfolding record_interaction
  record_duplicate engagement_type h seen = ground arith

  pub record_fresh :
      (engagement_type : String)
      → engagement_type_for session.kind ≡ ok engagement_type
      → contains s.gateway.nonce_seen key ≡ false
      → record_interaction config request session submitted_at s ≡ (
        ok (recorded_receipt config request submitted_at flags true),
        record s { gateway = (record_participation (row engagement_type) s.gateway).1 },
      )
  unfolding record_interaction
  record_fresh engagement_type h fresh = ground arith

-- A recorded row stands at the end of the log of its session.
pub log-record_participation :
    (p : Participation) (g : Gateway)
    → contains g.nonce_seen (nonce_key p) ≡ false
    → participations (record_participation p g).1 p.session_id
      ≡ participations g p.session_id ++ p ∷ []
unfolding record_participation participations
log-record_participation p g fresh = ground (
  arith,
  lookup-insert p.session_id p.session_id (or_default [] (lookup p.session_id g.log) ++ p ∷ [])
      g.log,
  beq_self p.session_id,
)

-- The state after the throttle has looked at a request.
abbrev pub after_throttle : Config → Request → ℕ → State → State
after_throttle config request submitted_at s = record s {
  gateway =
      (throttle_allows (throttle_key request) submitted_at config.throttle_per_second s.gateway).1;
}

pub throttle_keeps :
    (key : String) (now max : ℕ) (g : Gateway)
    → ((throttle_allows key now max g).1.nonce_seen ≡ g.nonce_seen)
      × ((throttle_allows key now max g).1.log ≡ g.log)
      × ((throttle_allows key now max g).1.credited ≡ g.credited)
      × ((throttle_allows key now max g).1.sessions ≡ g.sessions)
      × ((throttle_allows key now max g).1.ip_attendees ≡ g.ip_attendees)
unfolding throttle_allows
throttle_keeps key now max g = ground arith

module _ (config : Config) (request : Request) (session : Session) (submitted_at : ℕ)
    (s : State) where
  pub throttled_denied :
      (throttle_allows (throttle_key request) submitted_at config.throttle_per_second s.gateway).0
        ≡ false
      → throttled_interaction config request session submitted_at s
        ≡ (ok (refused config request "throttled"), after_throttle config request submitted_at s)
  unfolding throttled_interaction
  throttled_denied h = rw h

  pub throttled_allowed :
      (throttle_allows (throttle_key request) submitted_at config.throttle_per_second s.gateway).0
        ≡ true
      → throttled_interaction config request session submitted_at s
        ≡ record_interaction config request session submitted_at
            (after_throttle config request submitted_at s)
  unfolding throttled_interaction
  throttled_allowed h = rw h
