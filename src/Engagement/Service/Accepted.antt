-- ===== src/Engagement/Service/Accepted.antt =====
-- What an accepted interaction has shown, and what it leaves.
use flock_os.Engagement.Service.Steps.{
  after_throttle, flags, log-record_participation, record_duplicate, record_fresh, record_raises,
  row, throttle_keeps, throttle_key, throttled_allowed, throttled_denied,
}
use flock_os.Engagement.Kinds.{engagement_type_for}
use flock_os.Engagement.Session.{Session, validate_session_window, status_flags_for}
use flock_os.Engagement.Gateway.{
  Participation, nonce_key, record_participation, participations, throttle_allows,
}
use flock_os.Engagement.Service.{
  Config, State, Request, Receipt, throttled_interaction, record_interaction, recorded_receipt,
}
use flock_os.Base.Dict.{lookup, or_default}
use flock_os.Base.{
  ℕ, ◌≡◌, refl, sym, ap, ◌∙◌, String, string_eq, triple_eq, Bool-cases, Result-cases, true, false,
  not, inl, inr, [], ◌∷◌, ◌++◌, some, ok, arith, contains,
}

-- What an accepted interaction has shown and left, for a session, the state before and the state
-- after.
pub record Credited (config : Config) (request : Request) (session : Session) (submitted_at : ℕ)
    (s : State) (receipt : Receipt) (s' : State) : Type 0 where
  pub allowed :
      (throttle_allows (throttle_key request) submitted_at config.throttle_per_second s.gateway).0
      ≡ true
  pub fresh :
      contains s.gateway.nonce_seen (session.session_id, request.attendee_key, request.nonce)
      ≡ false
  pub row : Participation
  pub row_key : nonce_key row ≡ (session.session_id, request.attendee_key, request.nonce)
  pub row_scope : row.branch ≡ session.branch
  pub row_window :
      row.status_flags.out_of_scope
      ≡ not (validate_session_window session submitted_at config.grace_seconds).0
  pub receipt_flags : receipt.status_flags ≡ some row.status_flags
  pub logged :
      participations s'.gateway session.session_id
      ≡ participations s.gateway session.session_id ++ row ∷ []
  pub nothing_emitted : s'.emitted ≡ s.emitted

module _ (config : Config) (request : Request) (session : Session) (submitted_at : ℕ)
    (s : State) where
  abbrev pub mid : State
  mid = after_throttle config request submitted_at s

  record_accepted :
      (receipt : Receipt) (s' : State)
      → (throttle_allows (throttle_key request) submitted_at config.throttle_per_second s.gateway).0
        ≡ true
      → record_interaction config request session submitted_at mid ≡ (ok receipt, s')
      → receipt.accepted ≡ true
      → Credited config request session submitted_at s receipt s'
  unfolding participations
  record_accepted receipt s' allowed h yes_accepted =
      elim (Result-cases (engagement_type_for session.kind)) [
        | inr (x, raised) ↦
            let p : ⊥ =
              ground (arith, record_raises config request session submitted_at mid x raised) in
            absurd p
        | inl (engagement_type, typed) ↦
            elim (Bool-cases (
              contains mid.gateway.nonce_seen
                (session.session_id, request.attendee_key, request.nonce))) [
                  | inl seen ↦
                      let p : ⊥ = ground (
                        arith,
                        record_duplicate config request session submitted_at mid engagement_type
                            typed seen,
                      ) in
                      absurd p
                  | inr fresh ↦ credited engagement_type typed fresh
                ]
      ]
    where
      credited :
          (engagement_type : String)
          → engagement_type_for session.kind ≡ ok engagement_type
          → contains mid.gateway.nonce_seen
              (session.session_id, request.attendee_key, request.nonce)
            ≡ false
          → Credited config request session submitted_at s receipt s'
      credited engagement_type typed fresh =
          let eq =
            record_fresh config request session submitted_at mid engagement_type typed fresh in
          let p = row config request session submitted_at mid engagement_type in
          let same_state : record mid { gateway = (record_participation p mid.gateway).1 } ≡ s' =
            ground (arith, eq) in
          let same_receipt : recorded_receipt config request submitted_at
                (flags config request session submitted_at mid) true
              ≡ receipt =
            ground (arith, eq) in
          let kept =
            throttle_keeps (throttle_key request) submitted_at config.throttle_per_second
              s.gateway in
          record {
            allowed = allowed;
            fresh =
                ap (λ l. contains l (session.session_id, request.attendee_key, request.nonce))
                  (sym kept.0)
                ∙ fresh;
            row = p;
            row_key = refl;
            row_scope = refl;
            row_window = unfold status_flags_for in refl;
            receipt_flags = ap (λ (r : Receipt). r.status_flags) (sym same_receipt);
            logged =
                ap (λ (t : State). participations t.gateway session.session_id) (sym same_state)
                ∙ log-record_participation p mid.gateway fresh
                ∙ ap (λ l. or_default [] (lookup session.session_id l) ++ p ∷ []) kept.1;
            nothing_emitted = ap (λ (t : State). t.emitted) (sym same_state);
          }

  -- Refused or raised by the throttle or later, an interaction leaves the log as it was.
  pub throttled_accepted :
      (receipt : Receipt) (s' : State)
      → throttled_interaction config request session submitted_at s ≡ (ok receipt, s')
      → receipt.accepted ≡ true
      → Credited config request session submitted_at s receipt s'
  throttled_accepted receipt s' h a =
      elim (Bool-cases
        (throttle_allows (throttle_key request) submitted_at config.throttle_per_second
          s.gateway).0) [
            | inr denied ↦
                let p : ⊥ =
                  ground (arith, throttled_denied config request session submitted_at s denied) in
                absurd p
            | inl allowed ↦
                record_accepted receipt s' allowed
                  (sym (throttled_allowed config request session submitted_at s allowed) ∙ h) a
          ]
