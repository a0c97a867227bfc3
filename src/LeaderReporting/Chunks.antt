-- ===== src/LeaderReporting/Chunks.antt =====
-- What the chunks of a report come to in the bulk service.
use flock_os.LeaderReporting.Submission.{Recorded, record_chunks, record_in_chunks}
use flock_os.LeaderReporting.{ReportSubmission, bulk_batch_size}
use flock_os.Reporting.{AttendanceItem, submit, out_of_scope_count}
use flock_os.Reporting
use flock_os.Reporting.Batch.{submit-accepted}
use flock_os.Reporting.Counters.{IsConsistent, submit-IsConsistent}
use flock_os.Base.{
  ℕ, zero, suc, ◌+◌, ◌≤◌, ◌≡◌, refl, sym, ap, ◌∙◌, String, string_eq, ◌==◌, true, List, [], ◌∷◌,
  All, length, take, drop, length-append, length-drop, take-append-drop, arith,
}

-- An item carries the branch.
abbrev pub IsOf : String → AttendanceItem → Type 0
IsOf branch item = (item.branch == branch) ≡ true

out_of_scope-none :
    (branch : String) (items : List AttendanceItem)
    → All (IsOf branch) items
    → out_of_scope_count branch items ≡ 0
out_of_scope-none branch [] h = refl
out_of_scope-none branch (item ∷ items) h = ground (arith, h.0, out_of_scope-none branch items h.1)

All-take :
    (branch : String) (n : ℕ) (items : List AttendanceItem)
    → All (IsOf branch) items
    → All (IsOf branch) (take n items)
All-take branch zero items h = tt
All-take branch (suc n) [] h = tt
All-take branch (suc n) (item ∷ items) h = (h.0, All-take branch n items h.1)

All-drop :
    (branch : String) (n : ℕ) (items : List AttendanceItem)
    → All (IsOf branch) items
    → All (IsOf branch) (drop n items)
All-drop branch zero items h = h
All-drop branch (suc n) [] h = tt
All-drop branch (suc n) (item ∷ items) h = All-drop branch n items h.1

length-take-drop :
    (n : ℕ) (items : List AttendanceItem)
    → length (take n items) + length (drop n items) ≡ length items
length-take-drop n items =
    sym (length-append (take n items) (drop n items)) ∙ ap length (take-append-drop n items)

module _ (numbered : String → ℕ → String) (submission : ReportSubmission) where
  -- The outcome of the chunks: each item is counted once, and the counters stay right.
  pub record IsRecorded (start : Recorded) (items : List AttendanceItem) (end : Recorded)
      : Type 0 where
    pub counted :
        end.inserted + end.deduplicated ≡ start.inserted + start.deduplicated + length items
    pub consistent : IsConsistent start.bulk → IsConsistent end.bulk

  record_chunks-IsRecorded :
      (fuel index : ℕ) (items : List AttendanceItem) (start : Recorded)
      → length items ≤ fuel
      → All (IsOf submission.branch) items
      → IsRecorded start items (record_chunks numbered fuel index submission items start)
  unfolding record_chunks
  record_chunks-IsRecorded zero index [] start h k = record {
    counted = omega arith;
    consistent = λ c. c;
  }
  record_chunks-IsRecorded (suc fuel) index [] start h k = record {
    counted = omega arith;
    consistent = λ c. c;
  }
  record_chunks-IsRecorded zero index (item ∷ items) start h k = absurd (omega (arith, h))
  record_chunks-IsRecorded (suc fuel) index (item ∷ items) start h k =
      let chunk = take bulk_batch_size (item ∷ items) in
      let batch_id = numbered submission.client_batch_id index in
      let (accepted, number, sum, rows) =
        submit-accepted chunk submission.branch batch_id start.bulk (
          out_of_scope-none submission.branch chunk
            (All-take submission.branch bulk_batch_size (item ∷ items) k)) in
      let shorter : length (drop bulk_batch_size (item ∷ items)) ≤ fuel =
        omega (arith, h, length-drop 499 items) in
      let rest =
        record_chunks-IsRecorded fuel (suc index) (drop bulk_batch_size (item ∷ items)) _ shorter
          (All-drop submission.branch bulk_batch_size (item ∷ items) k) in
      record {
        counted = omega (arith, rest.counted, sum, length-take-drop bulk_batch_size (item ∷ items));
        consistent = λ c.
            rest.consistent (submit-IsConsistent chunk submission.branch batch_id start.bulk c);
      }

  pub record_in_chunks-IsRecorded :
      (items : List AttendanceItem) (bulk : Reporting.Gateway)
      → All (IsOf submission.branch) items
      → IsRecorded
          (record { inserted = 0; deduplicated = 0; batch_ids = []; bulk = bulk })
          items
          (record_in_chunks numbered submission items bulk)
  unfolding record_in_chunks
  record_in_chunks-IsRecorded items bulk h =
      record_chunks-IsRecorded (length items) 0 items _ (omega arith) h
