-- ===== src/Engagement/Service/Participate.antt =====
-- What `participate` asks before it credits an interaction, and what it leaves.
use flock_os.Engagement.Kinds.{EngagementError, engagement_type_for}
use flock_os.Engagement.Session.{Session, live_states}
use flock_os.Engagement.Ticket.{Ticket, verify_ticket}
use flock_os.Engagement.Gateway.{get_session, throttle_allows}
use flock_os.Engagement.Service.{
  Config, State, Request, Receipt, participate, throttled_interaction, submission_time,
}
use flock_os.Engagement.Service.Accepted.{Credited, throttled_accepted}
use flock_os.Engagement.Service.Steps.{
  Admitted, is_accepted, after_throttle, throttle_key, participate-Admitted, participate-refused,
  record_raises, record_duplicate, throttle_keeps, throttled_denied, throttled_allowed,
}
use flock_os.Base.{
  ℕ, ◌≡◌, refl, sym, ap, ◌∙◌, subst, string_eq, triple_eq, ◌==◌, Bool-cases, Option-cases,
  Result-cases, true, false, inl, inr, some, Result, ok, arith, contains,
}

-- What a call leaves alone when it credits nobody.
pub record CreditsNobody (s : State) (call : Result EngagementError Receipt × State) : Type 0 where
  pub not_accepted : is_accepted call.0 ≡ false
  pub log : call.1.gateway.log ≡ s.gateway.log
  pub credited : call.1.gateway.credited ≡ s.gateway.credited
  pub nonces : call.1.gateway.nonce_seen ≡ s.gateway.nonce_seen
  pub store : call.1.store ≡ s.store
  pub events : call.1.emitted ≡ s.emitted

module _ (config : Config) (request : Request) (checked_at now : ℕ) (s : State) where
  -- An interaction that is accepted belongs to a live session, carried a verified ticket with its
  -- own attendee key, passed the throttle and had a new nonce; its row stands at the end of the log
  -- of the session, is in scope exactly when the submission time is in the window, and no event is
  -- emitted.
  pub participate-accepted :
      (receipt : Receipt) (s' : State)
      → participate config request checked_at now s ≡ (ok receipt, s')
      → receipt.accepted ≡ true
      → (session : Session) × Admitted config request checked_at s session
        × Credited config request session (submission_time config request now) s receipt s'
  participate-accepted receipt s' h a = elim (participate-refused config request checked_at now s) [
    | inr (same, refused_call) ↦ let p : ⊥ = ground (arith, h, a, refused_call) in absurd p
    | inl (session, admitted) ↦ (
      session,
      admitted,
      throttled_accepted config request session (submission_time config request now) s receipt s'
          (sym (participate-Admitted config request checked_at now s session admitted) ∙ h) a,
    )
  ]

  throttled_again :
      (session : Session)
      → contains s.gateway.nonce_seen (session.session_id, request.attendee_key, request.nonce)
        ≡ true
      → CreditsNobody s
          (throttled_interaction config request session (submission_time config request now) s)
  throttled_again session seen =
      let t = submission_time config request now in
      let kept = throttle_keeps (throttle_key request) t config.throttle_per_second s.gateway in
      elim (Bool-cases
        (throttle_allows (throttle_key request) t config.throttle_per_second s.gateway).0) [
          | inr denied ↦ rw (throttled_denied config request session t s denied) (record {
            not_accepted = refl;
            log = kept.1;
            credited = kept.2;
            nonces = kept.0;
            store = refl;
            events = refl;
          })
          | inl allowed ↦
              rw (throttled_allowed config request session t s allowed)
                (elim (Result-cases (engagement_type_for session.kind)) [
                  | inr (x, raised) ↦
                      rw
                        (record_raises config request session t (after_throttle config request t s)
                          x raised)
                        (record {
                          not_accepted = refl;
                          log = kept.1;
                          credited = kept.2;
                          nonces = kept.0;
                          store = refl;
                          events = refl;
                        })
                  | inl (engagement_type, typed) ↦
                      rw
                        (record_duplicate config request session t
                          (after_throttle config request t s) engagement_type typed
                          (ap
                              (λ l.
                                contains l
                                  (session.session_id, request.attendee_key, request.nonce))
                              kept.0
                            ∙ seen))
                        (record {
                          not_accepted = refl;
                          log = kept.1;
                          credited = kept.2;
                          nonces = kept.0;
                          store = refl;
                          events = refl;
                        })
                ])
        ]

  -- A nonce that the session has seen from the attendee credits nobody: whatever else the request
  -- says, it is not accepted, and the log, the attendees, the nonces, the attendance rows and the
  -- events stay as they are.
  pub participate-seen_nonce :
      (session : Session)
      → get_session s.gateway request.session_id ≡ some session
      → contains s.gateway.nonce_seen (session.session_id, request.attendee_key, request.nonce)
        ≡ true
      → CreditsNobody s (participate config request checked_at now s)
  participate-seen_nonce session there seen =
      elim (participate-refused config request checked_at now s) [
        | inr (same, refused_call) ↦ record {
          not_accepted = refused_call;
          log = ap (λ (t : State). t.gateway.log) same;
          credited = ap (λ (t : State). t.gateway.credited) same;
          nonces = ap (λ (t : State). t.gateway.nonce_seen) same;
          store = ap (λ (t : State). t.store) same;
          events = ap (λ (t : State). t.emitted) same;
        }
        | inl (found_session, admitted) ↦
            let same : found_session ≡ session = ground (arith, admitted.there) in
            rw (participate-Admitted config request checked_at now s found_session admitted) (
              throttled_again found_session (
                subst
                  (λ (x : Session).
                    contains s.gateway.nonce_seen
                      (x.session_id, request.attendee_key, request.nonce)
                    ≡ true)
                  (sym same) seen))
      ]

throttled-ticket :
    (config : Config) (request : Request) (other : Ticket) (session : Session) (t : ℕ) (s : State)
    → throttled_interaction config (record request { ticket = other }) session t s
      ≡ throttled_interaction config request session t s
unfolding throttled_interaction
throttled-ticket config request other session t s = refl

-- The ticket of a request has a part in `participate` only by its verification and its attendee
-- key: a verified ticket of another session with the same key has the same effect.
pub participate-ticket :
    (config : Config) (request : Request) (other : Ticket) (checked_at now : ℕ) (s : State)
    → verify_ticket config.crypto request.ticket s.gateway.secret checked_at ≡ ok true
    → verify_ticket config.crypto other s.gateway.secret checked_at ≡ ok true
    → other.attendee_key ≡ request.ticket.attendee_key
    → participate config (record request { ticket = other }) checked_at now s
      ≡ participate config request checked_at now s
unfolding participate
participate-ticket config request other checked_at now s mine theirs same =
    elim (Option-cases (get_session s.gateway request.session_id)) [
      | inl missing ↦ ground arith
      | inr (session, there) ↦ elim (Bool-cases (contains live_states session.status)) [
        | inr dead ↦ ground arith
        | inl live ↦ elim (Bool-cases (request.ticket.attendee_key == request.attendee_key)) [
          | inr foreign ↦ ground arith
          | inl own ↦ ground (
            arith,
            throttled-ticket config request other session (submission_time config request now) s,
          )
        ]
      ]
    ]
