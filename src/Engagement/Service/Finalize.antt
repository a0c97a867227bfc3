-- ===== src/Engagement/Service/Finalize.antt =====
-- `finalize_close` by its branches, and the gateway after a close.
use flock_os.Engagement.Kinds.{illegal_transition, bulk_failed}
use flock_os.Engagement.Session.{Session, scope, allowed_from}
use flock_os.Engagement.Gateway.{Gateway, get_session, restamp}
use flock_os.Engagement.Service.{
  Config, State, CloseOutcome, closed, finalize_close, preview_outcome, projected,
}
use flock_os.Engagement.Service.Lifecycle.{moved, get_session-moved}
use flock_os.Reporting
use flock_os.Reporting.{AttendanceItem, BulkBatchOutcome, out_of_scope_count, submit}
use Prim.Native.String.{◌++◌ as ◌<>◌}
use flock_os.Base.Dict.{lookup-insert, or_default}
use flock_os.Base.{
  ap, ◌∙◌, ℕ, ◌≡◌, refl, String, string_eq, ◌==◌, true, false, List, [], ◌∷◌, ◌++◌, Option, none,
  some, ok, err, arith, contains, length, eq_iff_lem, beq_self,
}

module _ (config : Config) (session_id : String) (now : ℕ) (s : State) (session : Session) where
  abbrev pub closed_session : Session
  closed_session = restamp session "closed" now

  -- What the bulk service is handed.
  abbrev pub batch : List AttendanceItem
  batch = projected config (moved session_id session "closed" now s.gateway) closed_session

  abbrev pub bulk_run : Option BulkBatchOutcome × Reporting.Gateway
  bulk_run = config.bulk batch session.branch ("engagement:" <> session.session_id) s.store

  -- The state in which the bulk service leaves the call.
  abbrev pub closed_state : State
  closed_state = record s {
    gateway = moved session_id session "closed" now s.gateway;
    store = bulk_run.1;
  }

  abbrev pub finalized_outcome : BulkBatchOutcome → CloseOutcome
  finalized_outcome outcome = record {
    session_id = session.session_id;
    gathering = session.gathering;
    attendee_count = length batch;
    inserted = outcome.inserted;
    deduplicated = outcome.deduplicated;
    finalized = true;
  }

  pub finalize_already :
      get_session s.gateway session_id ≡ some session
      → session.status ≡ "closed"
      → finalize_close config session_id now s ≡ (ok (preview_outcome s.gateway session), s)
  unfolding finalize_close
  finalize_already there done = ground (arith, there, done, eq_iff_lem session.status "closed")

  pub finalize_illegal :
      get_session s.gateway session_id ≡ some session
      → (session.status == "closed") ≡ false
      → contains (allowed_from (some session.status)) "closed" ≡ false
      → finalize_close config session_id now s
        ≡ (err (illegal_transition (some session.status) "closed"), s)
  unfolding finalize_close
  finalize_illegal there ajar illegal = ground (arith, there, ajar, illegal)

  pub finalize_failed :
      get_session s.gateway session_id ≡ some session
      → (session.status == "closed") ≡ false
      → contains (allowed_from (some session.status)) "closed" ≡ true
      → bulk_run.0 ≡ none
      → finalize_close config session_id now s ≡ (err bulk_failed, closed_state)
  unfolding finalize_close
  finalize_failed there ajar allowed failed = ground (
    arith,
    there,
    ajar,
    allowed,
    failed,
    lookup-insert session_id session_id closed_session s.gateway.sessions,
    beq_self session_id,
  )

  pub finalize_done :
      (outcome : BulkBatchOutcome)
      → get_session s.gateway session_id ≡ some session
      → (session.status == "closed") ≡ false
      → contains (allowed_from (some session.status)) "closed" ≡ true
      → bulk_run.0 ≡ some outcome
      → finalize_close config session_id now s ≡ (
        ok (finalized_outcome outcome),
        record closed_state {
          emitted =
              s.emitted
              ++ closed session.session_id session.gathering (length batch) (scope closed_session)
                ∷ [];
        },
      )
  unfolding finalize_close
  finalize_done outcome there ajar allowed ran = ground (
    arith,
    there,
    ajar,
    allowed,
    ran,
    lookup-insert session_id session_id closed_session s.gateway.sessions,
    beq_self session_id,
  )

pub closing_is_open :
    (session : Session)
    → session.status ≡ "closing"
    → ((session.status == "closed") ≡ false)
      × (contains (allowed_from (some session.status)) "closed" ≡ true)
unfolding allowed_from
closing_is_open session closing = rw closing (refl, refl)

pub get_session_self :
    (session_id : String) (session : Session) (status : String) (now : ℕ) (g : Gateway)
    → get_session (moved session_id session status now g) session_id
      ≡ some (restamp session status now)
get_session_self session_id session status now g =
    ground
      (arith, get_session-moved session_id session status now g session_id, beq_self session_id)

-- From one gateway to the next a session is closed: its status is `closed`, and its closing time is
-- now if it had none; its other fields, the other sessions and the rest stay.
pub record IsClosed (session_id : String) (session : Session) (now : ℕ) (before after : Gateway)
    : Type 0 where
  pub is_closed :
      get_session after session_id
      ≡ some
          (record session { status = "closed"; close_at = some (or_default now session.close_at) })
  pub other_sessions :
      (other : String)
      → (session_id == other) ≡ false
      → get_session after other ≡ get_session before other
  pub same_rest : after ≡ record before { sessions = after.sessions }

restamp-closed :
    (session : Session) (now : ℕ) (open_at close_at : Option ℕ)
    → restamp (record session { open_at = open_at; close_at = close_at }) "closed" now
      ≡ record session {
        status = "closed";
        open_at = open_at;
        close_at = some (or_default now close_at);
      }
unfolding restamp
restamp-closed session now none none = refl
restamp-closed session now none (some c) = refl
restamp-closed session now (some o) none = refl
restamp-closed session now (some o) (some c) = refl

pub moved-IsClosed :
    (session_id : String) (session : Session) (now : ℕ) (g : Gateway)
    → IsClosed session_id session now g (moved session_id session "closed" now g)
moved-IsClosed session_id session now g = record {
  is_closed =
      get_session_self session_id session "closed" now g
      ∙ ap (λ (x : Session). some x) (restamp-closed session now session.open_at session.close_at);
  other_sessions =
      λ other apart. rw (get_session-moved session_id session "closed" now g other) (rw apart refl);
  same_rest = refl;
}
