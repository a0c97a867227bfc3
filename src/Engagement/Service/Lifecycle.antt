-- ===== src/Engagement/Service/Lifecycle.antt =====
-- What the lifecycle methods do to the sessions, on every branch.
use flock_os.Engagement.Kinds.{unknown_session, illegal_transition}
use flock_os.Engagement.Session.{Session, scope, allowed_from}
use flock_os.Engagement.Gateway.{Gateway, get_session, restamp, schedule_finalize_close}
use flock_os.Engagement.Service.{
  Config, State, opened, open_session, close_session, preview_outcome,
}
use flock_os.Base.Dict.{insert, lookup-insert}
use flock_os.Base.{
  ℕ, ◌≡◌, String, string_eq, ◌==◌, Bool-cases, Option-cases, true, false, ◌⊎◌, inl, inr, [], ◌∷◌,
  ◌++◌, none, some, ok, err, arith, contains, beq_self, if◌then◌else◌,
}

-- The gateway after a status change.
abbrev pub moved : String → Session → String → ℕ → Gateway → Gateway
moved session_id session status now g = record g {
  sessions = insert session_id (restamp session status now) g.sessions;
}

pub get_session-moved :
    (session_id : String) (session : Session) (status : String) (now : ℕ) (g : Gateway) (j : String)
    → get_session (moved session_id session status now g) j
      ≡ (if session_id == j then some (restamp session status now) else get_session g j)
unfolding get_session
get_session-moved session_id session status now g j =
    lookup-insert session_id j (restamp session status now) g.sessions

-- `open_session` of a session whose status allows it.
open_session_allowed :
    (session_id : String) (now : ℕ) (s : State) (session : Session)
    → get_session s.gateway session_id ≡ some session
    → contains (allowed_from (some session.status)) "open" ≡ true
    → open_session session_id now s ≡ (
      ok (restamp session "open" now),
      record s {
        gateway = moved session_id session "open" now s.gateway;
        emitted =
            s.emitted
            ++ opened session.session_id session.gathering session.kind
                (scope (restamp session "open" now))
              ∷ [];
      },
    )
unfolding open_session
open_session_allowed session_id now s session there allowed = ground (
  arith,
  there,
  allowed,
  lookup-insert session_id session_id (restamp session "open" now) s.gateway.sessions,
  beq_self session_id,
)

-- `open_session` moves a draft or scheduled session to `open`, stamps it and emits one event; on a
-- missing session, or one in another status, it raises and changes nothing.
pub open_session_outcome :
    (session_id : String) (now : ℕ) (s : State)
    → ((get_session s.gateway session_id ≡ none)
        × (open_session session_id now s ≡ (err (unknown_session session_id), s)))
      ⊎ (((session : Session) × (get_session s.gateway session_id ≡ some session)
            × (contains (allowed_from (some session.status)) "open" ≡ false)
            × (open_session session_id now s
                ≡ (err (illegal_transition (some session.status) "open"), s)))
          ⊎ ((session : Session) × (get_session s.gateway session_id ≡ some session)
              × (contains (allowed_from (some session.status)) "open" ≡ true)
              × (open_session session_id now s ≡ (
                ok (restamp session "open" now),
                record s {
                  gateway = moved session_id session "open" now s.gateway;
                  emitted =
                      s.emitted
                      ++ opened session.session_id session.gathering session.kind
                          (scope (restamp session "open" now))
                        ∷ [];
                },
              ))))
unfolding open_session
open_session_outcome session_id now s = elim (Option-cases (get_session s.gateway session_id)) [
  | inl missing ↦ inl (missing, ground arith)
  | inr (session, there) ↦
      elim (Bool-cases (contains (allowed_from (some session.status)) "open")) [
        | inl allowed ↦ inr (
            inr (
              session,
              there,
              allowed,
              open_session_allowed session_id now s session there allowed,
            ))
        | inr illegal ↦ inr (inl (session, there, illegal, ground arith))
      ]
]

module _ (config : Config) where
  -- The state after an allowed `close_session`.
  abbrev pub closing_state : String → Session → ℕ → State → State
  closing_state session_id session now s = record s {
    gateway =
        schedule_finalize_close session_id config.grace_seconds
          (moved session_id session "closing" now s.gateway);
  }

  close_session_allowed :
      (session_id : String) (now : ℕ) (s : State) (session : Session)
      → get_session s.gateway session_id ≡ some session
      → contains (allowed_from (some session.status)) "closing" ≡ true
      → close_session config session_id now s ≡ (
        ok (preview_outcome s.gateway (restamp session "closing" now)),
        closing_state session_id session now s,
      )
  unfolding close_session
  close_session_allowed session_id now s session there allowed = ground (
    arith,
    there,
    allowed,
    lookup-insert session_id session_id (restamp session "closing" now) s.gateway.sessions,
    beq_self session_id,
  )

  -- `close_session` moves an open session to `closing`, stamps it, schedules one finalize and
  -- returns a preview; on a missing session, or one that is not open, it raises and changes nothing.
  pub close_session_outcome :
      (session_id : String) (now : ℕ) (s : State)
      → ((get_session s.gateway session_id ≡ none)
          × (close_session config session_id now s ≡ (err (unknown_session session_id), s)))
        ⊎ (((session : Session) × (get_session s.gateway session_id ≡ some session)
              × (contains (allowed_from (some session.status)) "closing" ≡ false)
              × (close_session config session_id now s
                  ≡ (err (illegal_transition (some session.status) "closing"), s)))
            ⊎ ((session : Session) × (get_session s.gateway session_id ≡ some session)
                × (contains (allowed_from (some session.status)) "closing" ≡ true)
                × (close_session config session_id now s ≡ (
                  ok (preview_outcome s.gateway (restamp session "closing" now)),
                  closing_state session_id session now s,
                ))))
  unfolding close_session
  close_session_outcome session_id now s = elim (Option-cases (get_session s.gateway session_id)) [
    | inl missing ↦ inl (missing, ground arith)
    | inr (session, there) ↦
        elim (Bool-cases (contains (allowed_from (some session.status)) "closing")) [
          | inl allowed ↦ inr (
              inr (
                session,
                there,
                allowed,
                close_session_allowed session_id now s session there allowed,
              ))
          | inr illegal ↦ inr (inl (session, there, illegal, ground arith))
        ]
  ]
