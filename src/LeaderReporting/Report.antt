-- ===== src/LeaderReporting/Report.antt =====
-- A report as a whole, refused or accepted.
use flock_os.LeaderReporting.Submission.{submit_report}
use flock_os.LeaderReporting.{ReportError, ReportSubmission, ReportOutcome, Desk}
use flock_os.Base.Dict.{lookup}
use flock_os.Base.{
  ℕ, ◌≡◌, sym, ap, ◌∙◌, subst, String, string_eq, ◌==◌, eq_of_beq, Bool, Bool-cases, List, false,
  inl, inr, [], ◌∷◌, Option, none, some, ok, err, ok_injective,
}
use flock_os.LeaderReporting.Ending.{IsReported, ways}

module _ (numbered : String → ℕ → String) (submission : ReportSubmission) where
  -- A report that is refused, for whatever reason, leaves the desk as it was: no row is written, no
  -- gathering moves and no event is published.
  pub submit_report-refused :
      (desk : Desk) (e : ReportError)
      → (submit_report numbered submission desk).0 ≡ err e
      → (submit_report numbered submission desk).1 ≡ desk
  submit_report-refused desk e h = elim (ways numbered submission desk) [
    | inl (raised, how) ↦ ap (λ r. r.1) how
    | inr (outcome, after, how, good) ↦ absurd (cc (sym h ∙ ap (λ r. r.0) how))
  ]

  -- An accepted report moves its held gathering, and no other, to `Reported`; each present attendee is
  -- counted once, as a member or as a visitor, and once as a new row or a duplicate; the first-timers
  -- are counted, one event tells the counts, and the summary counters stay right.
  pub submit_report-IsReported :
      (desk : Desk) (outcome : ReportOutcome)
      → (submit_report numbered submission desk).0 ≡ ok outcome
      → IsReported submission desk (submit_report numbered submission desk).1 outcome
  submit_report-IsReported desk outcome h = elim (ways numbered submission desk) [
    | inl (raised, how) ↦ absurd (cc (sym h ∙ ap (λ r. r.0) how))
    | inr (outcome', after, how, good) ↦
        let same : outcome' ≡ outcome = ok_injective (sym (ap (λ r. r.0) how) ∙ h) in
        subst (λ o. IsReported submission desk (submit_report numbered submission desk).1 o) same
          (subst (λ d. IsReported submission desk d outcome') (sym (ap (λ r. r.1) how)) good)
  ]

-- Whether a status is that of a held gathering.
is_held : Option String → Bool
is_held none = false
is_held (some status) = status == "Held"

module _ (numbered : String → ℕ → String) where
  -- The desk after reports that are submitted one after the other, accepted or not.
  abbrev pub submit_all : List ReportSubmission → Desk → Desk
  submit_all [] desk = desk
  submit_all (submission ∷ submissions) desk =
      submit_all submissions (submit_report numbered submission desk).1

  -- A reported gathering takes no report.
  reported_refuses :
      (submission : ReportSubmission) (desk : Desk)
      → lookup submission.gathering desk.gathering_status ≡ some "Reported"
      → (e : ReportError) × (submit_report numbered submission desk ≡ (err e, desk))
  unfolding is_held
  reported_refuses submission desk h = elim (ways numbered submission desk) [
    | inl refused ↦ refused
    | inr (outcome, after, how, good) ↦ absurd (cc (sym (ap is_held h) ∙ ap is_held good.was_held))
  ]

  submit_report-reported :
      (submission : ReportSubmission) (gathering : String) (desk : Desk)
      → lookup gathering desk.gathering_status ≡ some "Reported"
      → lookup gathering (submit_report numbered submission desk).1.gathering_status
        ≡ some "Reported"
  submit_report-reported submission gathering desk h = elim (ways numbered submission desk) [
    | inl (e, how) ↦ ap (λ r. lookup gathering r.1.gathering_status) how ∙ h
    | inr (outcome, after, how, good) ↦
        ap (λ r. lookup gathering r.1.gathering_status) how
        ∙ elim (Bool-cases (submission.gathering == gathering)) [
          | inl same ↦
              ap (λ g. lookup g after.gathering_status)
                (sym (eq_of_beq {a = submission.gathering} same))
              ∙ good.is_reported
          | inr apart ↦ good.others gathering apart ∙ h
        ]
  ]

  submit_all-reported :
      (submissions : List ReportSubmission) (gathering : String) (desk : Desk)
      → lookup gathering desk.gathering_status ≡ some "Reported"
      → lookup gathering (submit_all submissions desk).gathering_status ≡ some "Reported"
  submit_all-reported [] gathering desk h = h
  submit_all-reported (submission ∷ submissions) gathering desk h =
      submit_all-reported submissions gathering (submit_report numbered submission desk).1
        (submit_report-reported submission gathering desk h)

  -- A gathering is reported once, as long as the desk changes by reports only: after an accepted
  -- report and any further reports, accepted or refused, a report for the same gathering is refused,
  -- and changes nothing.
  pub submit_report-once :
      (first : ReportSubmission) (between : List ReportSubmission) (last : ReportSubmission)
      (desk : Desk) (outcome : ReportOutcome)
      → (submit_report numbered first desk).0 ≡ ok outcome
      → last.gathering ≡ first.gathering
      → (e : ReportError) × (submit_report numbered last
            (submit_all between (submit_report numbered first desk).1)
          ≡ (err e, submit_all between (submit_report numbered first desk).1))
  submit_report-once first between last desk outcome h same =
      let after = (submit_report numbered first desk).1 in
      let good = submit_report-IsReported numbered first desk outcome h in
      reported_refuses last (submit_all between after) (
        ap (λ g. lookup g (submit_all between after).gathering_status) same
        ∙ submit_all-reported between first.gathering after good.is_reported)
