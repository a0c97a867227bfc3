-- ===== src/LeaderReporting/Ending.antt =====
-- How a report ends: with its preparation refused, or with its rows recorded.
use flock_os.LeaderReporting.Submission.{
  no_roll_up, prepare, record_in_chunks, conclude, finish, write, submit_report,
}
use flock_os.LeaderReporting.{
  ReportError, ReportSubmission, Classified, ReportOutcome, Desk, is_terminal,
  validate_submission_shape, validate_gathering,
}
use flock_os.LeaderReporting.Chunks.{record_in_chunks-IsRecorded}
use flock_os.Gatherings.{is_terminal_status, validate_status_transition}
use flock_os.Reporting.Counters.{IsConsistent}
use flock_os.Base.Dict.{lookup, lookup-insert}
use flock_os.Base.{
  ℕ, ◌+◌, ◌≡◌, ◌⊎◌, refl, ap, ◌∙◌, String, string_eq, ◌==◌, beq_self, eq_of_beq, Result-cases,
  false, not, inl, inr, [], ◌∷◌, ◌++◌, Option, none, some, ok, err, guard, guard-eq-ok, >>=-eq-ok,
  count, arith,
}
use flock_os.LeaderReporting.Counting.{IsClassified, classify-IsClassified}

module _ (submission : ReportSubmission) where
  -- The gathering of a prepared report is held.
  held : (o : Option String) → validate_gathering submission.gathering o ≡ ok tt → o ≡ some "Held"
  unfolding validate_gathering is_terminal_status
  held none h = absurd (ground (arith, h))
  held (some current) h =
      let (u, open_still, rest) =
        >>=-eq-ok (guard (not (is_terminal_status current)) (is_terminal submission.gathering)) _
          h in
      ap (λ (x : String). some x) (eq_of_beq {a = current} (guard-eq-ok (current == "Held") _ rest))

  prepared :
      (desk : Desk) (classified : Classified)
      → prepare submission desk ≡ ok classified
      → (lookup submission.gathering desk.gathering_status ≡ some "Held")
        × IsClassified submission submission.attendees no_roll_up classified
  unfolding prepare
  prepared desk classified h =
      let (u, shaped, h1) = >>=-eq-ok (validate_submission_shape submission) _ h in
      let (v, valid, h2) =
        >>=-eq-ok
          (validate_gathering submission.gathering
            (lookup submission.gathering desk.gathering_status))
          _ h1 in
      (
        held (lookup submission.gathering desk.gathering_status) valid,
        classify-IsClassified submission desk.member_status submission.attendees no_roll_up
            classified h2,
      )

-- From one desk to the next by a report: the held gathering is reported, the other gatherings stay,
-- each present attendee is counted once, as a member or as a visitor, and once in the rows, as new or
-- as a duplicate; one event tells the counts, and the summary counters stay right.
pub record IsReported (submission : ReportSubmission) (before after : Desk)
    (outcome : ReportOutcome) : Type 0 where
  pub was_held : lookup submission.gathering before.gathering_status ≡ some "Held"
  pub is_reported : lookup submission.gathering after.gathering_status ≡ some "Reported"
  pub others :
      (other : String)
      → (submission.gathering == other) ≡ false
      → lookup other after.gathering_status ≡ lookup other before.gathering_status
  pub same_members : after.member_status ≡ before.member_status
  pub heads :
      outcome.roll_up.member_count + outcome.roll_up.visitor_count
      ≡ count (λ a. a.present) submission.attendees
  pub first_timers :
      outcome.roll_up.first_time_count ≡ count (λ a. a.first_time) submission.attendees
  pub rows : outcome.inserted + outcome.deduplicated ≡ count (λ a. a.present) submission.attendees
  pub told :
      after.published_events
      ≡ before.published_events
        ++ (record {
          gathering = submission.gathering;
          branch = submission.branch;
          group = submission.group;
          reported_by = submission.reported_by;
          roll_up = outcome.roll_up;
          total_count = outcome.roll_up.member_count + outcome.roll_up.visitor_count;
          inserted = outcome.inserted;
          deduplicated = outcome.deduplicated;
          client_batch_id = submission.client_batch_id;
        })
          ∷ []
  pub consistent : IsConsistent before.bulk → IsConsistent after.bulk

module _ (numbered : String → ℕ → String) (submission : ReportSubmission) where
  held_may_go :
      (o : Option String) → o ≡ some "Held" → validate_status_transition o "Reported" ≡ ok tt
  held_may_go o h = unfold validate_status_transition in rw h refl

  write_ok :
      (classified : Classified) (desk : Desk)
      → lookup submission.gathering desk.gathering_status ≡ some "Held"
      → write numbered submission (ok classified) desk ≡ (
          let recorded = record_in_chunks numbered submission classified.items desk.bulk in
          let (outcome, desk') = conclude submission classified.roll_up recorded desk in
          (ok outcome, desk'))
  unfolding write finish
  write_ok classified desk h =
      rw (held_may_go (lookup submission.gathering desk.gathering_status) h) refl

  -- What the end of a report leaves, when the rows are recorded as they should be.
  conclude-IsReported :
      (classified : Classified) (desk : Desk)
      → lookup submission.gathering desk.gathering_status ≡ some "Held"
      → IsClassified submission submission.attendees no_roll_up classified
      → (let recorded = record_in_chunks numbered submission classified.items desk.bulk in
          let (outcome, desk') = conclude submission classified.roll_up recorded desk in
          IsReported submission desk desk' outcome)
  unfolding conclude
  conclude-IsReported classified desk was_held c =
      let recorded =
        record_in_chunks-IsRecorded numbered submission classified.items desk.bulk
          (c.of_branch tt) in
      record {
        was_held = was_held;
        is_reported =
            rw
              (
                lookup-insert submission.gathering submission.gathering "Reported"
                    desk.gathering_status,
                beq_self {A = String} submission.gathering,
              )
              refl;
        others = λ other distinct.
            rw (lookup-insert submission.gathering other "Reported" desk.gathering_status, distinct)
              refl;
        same_members = refl;
        heads = omega (arith, c.counted);
        first_timers = omega (arith, c.first_times);
        rows = omega (arith, recorded.counted, c.items_counted);
        told = refl;
        consistent = recorded.consistent;
      }

  -- A report ends with its preparation refused, or with the end of a report.
  pub ways :
      (desk : Desk)
      → ((e : ReportError) × (submit_report numbered submission desk ≡ (err e, desk)))
        ⊎ ((outcome : ReportOutcome) × (after : Desk) × (submit_report numbered submission desk
              ≡ (ok outcome, after))
            × IsReported submission desk after outcome)
  unfolding submit_report write
  ways desk = elim (Result-cases (prepare submission desk)) [
    | inl (classified, done) ↦
        let (was_held, c) = prepared submission desk classified done in
        inr (
          _,
          _,
          ap (λ r. write numbered submission r desk) done ∙ write_ok classified desk was_held,
          conclude-IsReported classified desk was_held c,
        )
    | inr (raised, done) ↦ inl (raised, ap (λ r. write numbered submission r desk) done)
  ]
