-- ===== src/Engagement/Service/Reach.antt =====
-- The states that the methods of the service reach, and what holds in all of them.
use flock_os.Engagement.Kinds.{engagement_type_for}
use flock_os.Engagement.Session.{Session}
use flock_os.Engagement.Gateway.{new_gateway, nonce_key, attendees, participations, throttle_allows}
use flock_os.Engagement.Service.{
  Config, State, Request, create_session, open_session, close_session, finalize_close, join,
  participate, record_interaction, in_window_attendees, preview_outcome, submission_time,
  first_in_window,
}
use flock_os.Engagement.Service.Steps.{
  row, after_throttle, throttle_key, participate-Admitted, participate-refused, record_raises,
  record_duplicate, record_fresh, throttle_keeps, throttled_denied, throttled_allowed,
}
use flock_os.Engagement.Service.Credit.{
  IsSound, IsSound-same, new_gateway-IsSound, credited_by-IsDistinct, map-first_in_window,
}
use flock_os.Engagement.Service.Recording.{record_participation-IsSound}
use flock_os.Reporting
use flock_os.Base.{
  ℕ, ◌≡◌, sym, ap, ◌∙◌, subst, String, string_eq, triple_eq, Bool-cases, Result-cases, inl, inr, [],
  map, Option, contains, IsDistinct, length, length-map, arith,
}

-- One call of a method of the service; an exception ends a step too.
pub data Step (config : Config) : State → State → Type 0 where
  created : (s : State) (session : Session) → Step config s (create_session session s).1
  opened :
      (s : State) (session_id : String) (now : ℕ) → Step config s (open_session session_id now s).1
  closed :
      (s : State) (session_id : String) (now : ℕ)
      → Step config s (close_session config session_id now s).1
  finalized :
      (s : State) (session_id : String) (now : ℕ)
      → Step config s (finalize_close config session_id now s).1
  joined :
      (s : State) (session_id : String) (member_id : Option String) (device : String) (now : ℕ)
      → Step config s (join config session_id member_id device now s).1
  participated :
      (s : State) (request : Request) (checked_at now : ℕ)
      → Step config s (participate config request checked_at now s).1

-- The service with a new gateway, over any attendance store.
abbrev pub initial : String → Reporting.Gateway → State
initial secret store = record { gateway = new_gateway secret; store = store; emitted = [] }

pub data IsReachable (config : Config) : State → Type 0 where
  start : (secret : String) (store : Reporting.Gateway) → IsReachable config (initial secret store)
  next : (s s' : State) → IsReachable config s → Step config s s' → IsReachable config s'

-- What the methods other than `participate` leave alone.
record Keeps (s s' : State) : Type 0 where
  log : s'.gateway.log ≡ s.gateway.log
  credited : s'.gateway.credited ≡ s.gateway.credited
  nonces : s'.gateway.nonce_seen ≡ s.gateway.nonce_seen

Keeps-IsSound : (s s' : State) → Keeps s s' → IsSound s.gateway → IsSound s'.gateway
Keeps-IsSound s s' k sound = IsSound-same s.gateway s'.gateway k.log k.credited k.nonces sound

create_session-Keeps : (session : Session) (s : State) → Keeps s (create_session session s).1
unfolding create_session
create_session-Keeps session s = record {
  log = ground arith;
  credited = ground arith;
  nonces = ground arith;
}

open_session-Keeps :
    (session_id : String) (now : ℕ) (s : State) → Keeps s (open_session session_id now s).1
unfolding open_session
open_session-Keeps session_id now s = record {
  log = ground arith;
  credited = ground arith;
  nonces = ground arith;
}

module _ (config : Config) where
  close_session-Keeps :
      (session_id : String) (now : ℕ) (s : State)
      → Keeps s (close_session config session_id now s).1
  unfolding close_session
  close_session-Keeps session_id now s = record {
    log = ground arith;
    credited = ground arith;
    nonces = ground arith;
  }

  join-Keeps :
      (session_id : String) (member_id : Option String) (device : String) (now : ℕ) (s : State)
      → Keeps s (join config session_id member_id device now s).1
  unfolding join
  join-Keeps session_id member_id device now s = record {
    log = ground arith;
    credited = ground arith;
    nonces = ground arith;
  }

  finalize_close-Keeps :
      (session_id : String) (now : ℕ) (s : State)
      → Keeps s (finalize_close config session_id now s).1
  unfolding finalize_close
  finalize_close-Keeps session_id now s = record {
    log = ground arith;
    credited = ground arith;
    nonces = ground arith;
  }

  after_throttle-IsSound :
      (request : Request) (t : ℕ) (s : State)
      → IsSound s.gateway
      → IsSound (after_throttle config request t s).gateway
  after_throttle-IsSound request t s sound =
      let kept = throttle_keeps (throttle_key request) t config.throttle_per_second s.gateway in
      IsSound-same s.gateway (after_throttle config request t s).gateway kept.1 kept.2 kept.0 sound

  record_interaction-IsSound :
      (request : Request) (session : Session) (t : ℕ) (s : State)
      → IsSound s.gateway
      → IsSound (record_interaction config request session t s).1.gateway
  record_interaction-IsSound request session t s sound =
      elim (Result-cases (engagement_type_for session.kind)) [
        | inr (x, raised) ↦ rw (record_raises config request session t s x raised) sound
        | inl (kind, typed) ↦
            elim (Bool-cases (
              contains s.gateway.nonce_seen
                (session.session_id, request.attendee_key, request.nonce))) [
                  | inl seen ↦
                      rw (record_duplicate config request session t s kind typed seen) sound
                  | inr fresh ↦ rw (record_fresh config request session t s kind typed fresh) (
                      record_participation-IsSound (row config request session t s kind) s.gateway
                        sound)
                ]
      ]

  participate-IsSound :
      (request : Request) (checked_at now : ℕ) (s : State)
      → IsSound s.gateway
      → IsSound (participate config request checked_at now s).1.gateway
  participate-IsSound request checked_at now s sound =
      let t = submission_time config request now in
      elim (participate-refused config request checked_at now s) [
        | inr (same, refused) ↦ rw same sound
        | inl (session, admitted) ↦
            rw (participate-Admitted config request checked_at now s session admitted)
              (elim (Bool-cases
                (throttle_allows (throttle_key request) t config.throttle_per_second s.gateway).0) [
                  | inr denied ↦
                      rw (throttled_denied config request session t s denied)
                        (after_throttle-IsSound request t s sound)
                  | inl allowed ↦ rw (throttled_allowed config request session t s allowed) (
                      record_interaction-IsSound request session t
                        (after_throttle config request t s)
                        (after_throttle-IsSound request t s sound))
                ])
      ]

  -- Each method keeps the attendees of the sessions in step with the logs.
  pub Step-IsSound : (s s' : State) → Step config s s' → IsSound s.gateway → IsSound s'.gateway
  Step-IsSound s s' (created _ session) sound =
      Keeps-IsSound s s' (create_session-Keeps session s) sound
  Step-IsSound s s' (opened _ session_id now) sound =
      Keeps-IsSound s s' (open_session-Keeps session_id now s) sound
  Step-IsSound s s' (closed _ session_id now) sound =
      Keeps-IsSound s s' (close_session-Keeps session_id now s) sound
  Step-IsSound s s' (finalized _ session_id now) sound =
      Keeps-IsSound s s' (finalize_close-Keeps session_id now s) sound
  Step-IsSound s s' (joined _ session_id member_id device now) sound =
      Keeps-IsSound s s' (join-Keeps session_id member_id device now s) sound
  Step-IsSound s s' (participated _ request checked_at now) sound =
      participate-IsSound request checked_at now s sound

  IsReachable-IsSound : (s : State) → IsReachable config s → IsSound s.gateway
  IsReachable-IsSound s (start secret store) = new_gateway-IsSound secret
  IsReachable-IsSound s (next s0 _ r step) = Step-IsSound s0 s step (IsReachable-IsSound s0 r)

  -- In every state that the service reaches, the attendees that the closing of a session projects
  -- are exactly those credited while it ran, in the same order; none is counted twice, and the
  -- previewed headcount is their number.
  pub IsReachable-attendees :
      (s : State) (session : Session)
      → IsReachable config s
      → (map (λ entry. entry.0) (in_window_attendees s.gateway session)
          ≡ attendees s.gateway session.session_id)
        × IsDistinct (attendees s.gateway session.session_id)
        × ((preview_outcome s.gateway session).attendee_count
            ≡ length (attendees s.gateway session.session_id))
  IsReachable-attendees s session r =
      let rows = participations s.gateway session.session_id in
      let credited = (IsReachable-IsSound s r).credited session.session_id in
      let same = map-first_in_window rows ∙ sym credited in
      unfold in_window_attendees preview_outcome in
      (
        same,
        subst (λ l. IsDistinct l) (sym credited) (credited_by-IsDistinct [] rows tt),
        sym (length-map (λ entry. entry.0) (first_in_window [] rows))
            ∙ ap (length {A = String}) same,
      )

  -- In every state that the service reaches, no two rows of the log of a session have the same
  -- session, attendee and nonce.
  pub IsReachable-nonces :
      (s : State) (session_id : String)
      → IsReachable config s
      → IsDistinct (map nonce_key (participations s.gateway session_id))
  IsReachable-nonces s session_id r = (IsReachable-IsSound s r).distinct session_id
