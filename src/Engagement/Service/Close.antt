-- ===== src/Engagement/Service/Close.antt =====
-- What `finalize_close` does to the session, the attendance store and the events.
use flock_os.Engagement.Kinds.{EngagementError, unknown_session, illegal_transition, bulk_failed}
use flock_os.Engagement.Session.{Session, scope, allowed_from}
use flock_os.Engagement.Gateway.{get_session, restamp, participations}
use flock_os.Engagement.Service.{
  Config, State, CloseOutcome, closed, finalize_close, preview_outcome, projected,
  in_window_attendees, first_in_window,
}
use flock_os.Reporting
use flock_os.Reporting.{AttendanceItem, BulkBatchOutcome, out_of_scope_count, submit}
use Prim.Native.String.{◌++◌ as ◌<>◌}
use flock_os.Base.{
  Result, sym, ap, subst, ◌∙◌, length-map, ℕ, ◌≡◌, refl, String, string_eq, ◌==◌, Bool-cases,
  Option-cases, true, false, inl, inr, [], ◌∷◌, ◌++◌, Option, none, some, ok, err, arith, contains,
  length, eq_iff_lem, eq_of_beq,
}
use flock_os.Engagement.Service.Finalize.{
  closed_session, batch, bulk_run, closed_state, finalize_already, finalize_illegal,
  finalize_failed, finalize_done, IsClosed, moved-IsClosed, closing_is_open, get_session_self,
}

module _ (config : Config) (session_id : String) (now : ℕ) (s : State) where
  -- What the bulk service answers to the rows that the session projects to.
  abbrev pub bulk_answer : Session → Option BulkBatchOutcome × Reporting.Gateway
  bulk_answer session =
      config.bulk (projected config s.gateway session) session.branch
        ("engagement:" <> session.session_id) s.store

  -- What a `finalize_close` has come to. It raises and changes nothing where the session is missing
  -- or neither closing nor closed; it returns a preview and changes nothing where it is closed. A
  -- closing session is closed and its rows are handed to the bulk service; if that raises the call
  -- does and tells no event, and else it returns the counts, and one event tells the headcount.
  pub data HasFinalized : Result EngagementError CloseOutcome × State → Type 0 where
    missing :
        get_session s.gateway session_id ≡ none → HasFinalized (err (unknown_session session_id), s)
    already :
        (session : Session)
        → get_session s.gateway session_id ≡ some session
        → session.status ≡ "closed"
        → HasFinalized (ok (preview_outcome s.gateway session), s)
    illegal :
        (session : Session)
        → get_session s.gateway session_id ≡ some session
        → (session.status == "closing") ≡ false
        → (session.status == "closed") ≡ false
        → HasFinalized (err (illegal_transition (some session.status) "closed"), s)
    unrecorded :
        (session : Session) (after : State)
        → get_session s.gateway session_id ≡ some session
        → session.status ≡ "closing"
        → IsClosed session_id session now s.gateway after.gateway
        → bulk_answer session ≡ (none, after.store)
        → after.emitted ≡ s.emitted
        → HasFinalized (err bulk_failed, after)
    recorded :
        (session : Session) (outcome : BulkBatchOutcome) (after : State)
        → get_session s.gateway session_id ≡ some session
        → session.status ≡ "closing"
        → IsClosed session_id session now s.gateway after.gateway
        → bulk_answer session ≡ (some outcome, after.store)
        → after.emitted
          ≡ s.emitted
            ++ closed session.session_id session.gathering
                (length (in_window_attendees s.gateway session))
                (scope session)
              ∷ []
        → HasFinalized (
          ok (record {
            session_id = session.session_id;
            gathering = session.gathering;
            attendee_count = length (in_window_attendees s.gateway session);
            inserted = outcome.inserted;
            deduplicated = outcome.deduplicated;
            finalized = true;
          }),
          after,
        )

  bulk_run-bulk_answer :
      (session : Session) → bulk_run config session_id now s session ≡ bulk_answer session
  unfolding in_window_attendees participations restamp
  bulk_run-bulk_answer session = refl

  length-batch :
      (session : Session)
      → length (batch config session_id now s session)
        ≡ length (in_window_attendees s.gateway session)
  unfolding in_window_attendees participations restamp
  length-batch session =
      length-map _ (first_in_window [] (participations s.gateway session.session_id))

  closing_only :
      (session : Session)
      → (session.status == "closing") ≡ false
      → contains (allowed_from (some session.status)) "closed" ≡ false
  unfolding allowed_from
  closing_only session h =
      ground (arith, h, eq_iff_lem session.status "closing", eq_iff_lem "closing" session.status)

  finalize_missing :
      get_session s.gateway session_id ≡ none
      → finalize_close config session_id now s ≡ (err (unknown_session session_id), s)
  unfolding finalize_close
  finalize_missing h = ground (arith, h)

  told :
      (session : Session)
      → s.emitted
          ++ closed session.session_id session.gathering
              (length (in_window_attendees s.gateway session))
              (scope (closed_session config session_id now s session))
            ∷ []
        ≡ s.emitted
          ++ closed session.session_id session.gathering
              (length (in_window_attendees s.gateway session))
              (scope session)
            ∷ []
  unfolding scope restamp
  told session = refl

  finalize_closing :
      (session : Session)
      → get_session s.gateway session_id ≡ some session
      → session.status ≡ "closing"
      → HasFinalized (finalize_close config session_id now s)
  finalize_closing session there closing =
      let (ajar, allowed) = closing_is_open session closing in
      let run = bulk_run config session_id now s session in
      let same = sym (bulk_run-bulk_answer session) in
      let now_closed = moved-IsClosed session_id session now s.gateway in
      elim (Option-cases run.0) [
        | inl raised ↦
            subst HasFinalized
              (sym (finalize_failed config session_id now s session there ajar allowed raised))
              (unrecorded session _ there closing now_closed (same ∙ ap (λ o. (o, run.1)) raised)
                refl)
        | inr (outcome, ran) ↦
            subst HasFinalized
              (sym (finalize_done config session_id now s session outcome there ajar allowed ran))
              (rw (length-batch session) (
                recorded session outcome _ there closing now_closed
                  (same ∙ ap (λ o. (o, run.1)) ran) (told session)))
      ]

  -- `finalize_close` on every branch: it raises and changes nothing where the session is missing or
  -- neither closing nor closed; it returns a preview and changes nothing where the session is closed;
  -- a closing session is closed, and no other, and the bulk service is run on its projection, and one
  -- event with the headcount follows exactly when the bulk service returns.
  pub finalize_close_outcome : HasFinalized (finalize_close config session_id now s)
  finalize_close_outcome = elim (Option-cases (get_session s.gateway session_id)) [
    | inl none_there ↦ subst HasFinalized (sym (finalize_missing none_there)) (missing none_there)
    | inr (session, there) ↦ elim (Bool-cases (session.status == "closed")) [
      | inl done ↦
          subst HasFinalized
            (sym (finalize_already config session_id now s session there (eq_of_beq done)))
            (already session there (eq_of_beq done))
      | inr ajar ↦ elim (Bool-cases (session.status == "closing")) [
        | inl closing ↦ finalize_closing session there (eq_of_beq closing)
        | inr other ↦
            subst HasFinalized
              (sym (
                finalize_illegal config session_id now s session there ajar
                  (closing_only session other)))
              (illegal session there other ajar)
      ]
    ]
  ]

-- An allowed `finalize_close` whose bulk service raises leaves the session closed: the next
-- `finalize_close` returns a preview that says `finalized` and changes nothing, so the attendance
-- of the session is not recorded and no event is emitted.
pub finalize_close-retry :
    (config : Config) (session_id : String) (now later : ℕ) (s : State) (session : Session)
    → get_session s.gateway session_id ≡ some session
    → session.status ≡ "closing"
    → (bulk_run config session_id now s session).0 ≡ none
    → (finalize_close config session_id now s
        ≡ (err bulk_failed, closed_state config session_id now s session))
      × (finalize_close config session_id later (closed_state config session_id now s session) ≡ (
        ok (preview_outcome s.gateway (closed_session config session_id now s session)),
        closed_state config session_id now s session,
      ))
      × ((closed_state config session_id now s session).emitted ≡ s.emitted)
finalize_close-retry config session_id now later s session there closing failed = (
  finalize_failed config session_id now s session there (closing_is_open session closing).0
      (closing_is_open session closing).1 failed,
  unfold preview_outcome in_window_attendees participations restamp in
      finalize_already config session_id later (closed_state config session_id now s session)
        (closed_session config session_id now s session)
        (get_session_self session_id session "closed" now s.gateway) refl,
  refl,
)
