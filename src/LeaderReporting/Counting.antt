-- ===== src/LeaderReporting/Counting.antt =====
-- The counters and the items that the attendees of a report give.
use flock_os.LeaderReporting.{
  ReportSubmission, AttendeeReport, Classified, to_attendance_item, classify_one, classify,
  status_of, bump, visitor_statuses,
}
use flock_os.LeaderReporting.Chunks.{IsOf}
use flock_os.Base.{
  ℕ, ◌+◌, ◌≡◌, subst, String, string_eq, beq_self, Bool, Bool-cases, true, false, not, ◌&&◌, inl,
  inr, List, [], ◌∷◌, ok, >>=-eq-ok, ok_injective, All, All-append, contains, count, length,
  length-append, if◌then◌else◌, arith,
}

-- What a classification has added: every present attendee is counted once, as a member or as a visitor,
-- and has an item of the branch.
pub record IsClassified (submission : ReportSubmission) (attendees : List AttendeeReport)
    (before after : Classified) : Type 0 where
  pub counted :
      after.roll_up.member_count + after.roll_up.visitor_count
      ≡ before.roll_up.member_count
        + before.roll_up.visitor_count
        + count (λ a. a.present) attendees
  pub first_times :
      after.roll_up.first_time_count
      ≡ before.roll_up.first_time_count + count (λ a. a.first_time) attendees
  pub items_counted : length after.items ≡ length before.items + count (λ a. a.present) attendees
  pub of_branch :
      All (IsOf submission.branch) before.items → All (IsOf submission.branch) after.items

module _ (submission : ReportSubmission) where
  classify_one-IsClassified :
      (attendee : AttendeeReport) (status : String) (before : Classified)
      → IsClassified submission
          (attendee ∷ [])
          before
          (classify_one submission attendee status before)
  unfolding classify_one
  classify_one-IsClassified attendee status before = elim (Bool-cases attendee.present) [
    | inl here ↦ record {
      counted =
          split attendee.present (contains visitor_statuses status) before.roll_up.member_count
            before.roll_up.visitor_count;
      first_times = firsts attendee.first_time before.roll_up.first_time_count;
      items_counted = rw here (length-append before.items _);
      of_branch = λ h. rw here (
          All-append (IsOf submission.branch) before.items _ h
            (unfold to_attendance_item in (beq_self {A = String} submission.branch, tt)));
    }
    | inr away ↦ record {
      counted =
          split attendee.present (contains visitor_statuses status) before.roll_up.member_count
            before.roll_up.visitor_count;
      first_times = firsts attendee.first_time before.roll_up.first_time_count;
      items_counted = rw away (omega arith);
      of_branch = λ h. rw away h;
    }
  ]
    where
      split :
          (p v : Bool) (m n : ℕ)
          → bump (p && not v) m + bump (p && v) n ≡ m + n + ((if p then 1 else 0) + 0)
      split true true m n = omega arith
      split true false m n = omega arith
      split false true m n = omega arith
      split false false m n = omega arith

      firsts : (f : Bool) (n : ℕ) → bump f n ≡ n + ((if f then 1 else 0) + 0)
      firsts true n = omega arith
      firsts false n = omega arith

  pub classify-IsClassified :
      (members : List (String × String)) (attendees : List AttendeeReport)
      (before after : Classified)
      → classify members submission attendees before ≡ ok after
      → IsClassified submission attendees before after
  unfolding classify
  classify-IsClassified members [] before after h =
      subst (λ (c : Classified). IsClassified submission [] before c) (ok_injective h)
        (record {
          counted = omega arith;
          first_times = omega arith;
          items_counted = omega arith;
          of_branch = λ k. k;
        })
  classify-IsClassified members (attendee ∷ attendees) before after h =
      let (status, known, rest) = >>=-eq-ok (status_of members attendee.member) _ h in
      let middle = classify_one submission attendee status before in
      let one = classify_one-IsClassified attendee status before in
      let more = classify-IsClassified members attendees middle after rest in
      record {
        counted = omega (arith, one.counted, more.counted);
        first_times = omega (arith, one.first_times, more.first_times);
        items_counted = omega (arith, one.items_counted, more.items_counted);
        of_branch = λ k. more.of_branch (one.of_branch k);
      }
