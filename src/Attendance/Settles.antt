-- ===== src/Attendance/Settles.antt =====
-- How a queued batch is settled by the runs of its job.
use flock_os.Attendance.Job.{
  acknowledge, deadletter_or_retry, after_answer, submit_with_in_place_retry, settle,
  process_bulk_batch,
}
use flock_os.Attendance.{
  Payload, Backend, LogEntry, Fault, max_retry, in_place_attempts, get_or, item_of_queued,
  log_error, enqueue, persistence_failed, persistence_failed_after_retries, max_retry_exceeded,
  stale_deadletter_drained, retryable, other,
}
use flock_os.Reporting.{AttendanceItem, BulkBatchOutcome, with_exponential_backoff}
use flock_os.Base.{
  ℕ, zero, suc, ◌+◌, ◌-◌, ◌≡◌, refl, sym, ap, ◌∙◌, subst, String, Bool, Result-cases, true, false,
  inl, inr, List, [], ◌∷◌, ◌++◌, map, Option, none, some, Result, ok, err, length, ltb,
  if◌then◌else◌, arith,
}

module _ {ℓ} {S : Type ℓ}
    (persist : List AttendanceItem → String → String → S → Result Fault BulkBatchOutcome × S)
    (now : ℕ) where
  -- The tables are those that a write of the batch left, with its outcome.
  pub record IsWritten (payload : Payload) (outcome : BulkBatchOutcome) (after : S) : Type ℓ where
    pub tables : S
    pub wrote :
        persist (map item_of_queued payload.items) payload.scope_branch payload.batch_id tables
        ≡ (ok outcome, after)

  -- A worker that takes a job from the front of the queue.
  unfoldable pub run_next : List (Payload × Option ℕ) → Backend S → Backend S
  run_next [] b = b
  run_next (job ∷ rest) b = process_bulk_batch persist now job.0 (record b { queue = rest })

  unfoldable pub work : ℕ → Backend S → Backend S
  unfolding run_next
  work zero b = b
  work (suc n) b = work n (run_next b.queue b)

  -- An idle worker.
  idle : (n : ℕ) (b : Backend S) → b.queue ≡ [] → work n b ≡ b
  unfolding work run_next
  idle zero b h = refl
  idle (suc n) b h = ap (λ q. work n (run_next q b)) h ∙ idle n b h

  -- What one run of a job does: the batch is written, or it is put off.
  data Run (payload : Payload) (before after : Backend S) : Type ℓ where
    written :
        (outcome : BulkBatchOutcome) (tables : S)
        → IsWritten payload outcome tables
        → after ≡ acknowledge payload outcome (record before { store = tables })
        → Run payload before after
    put_off :
        (entry : LogEntry) (tables : S)
        → after
          ≡ deadletter_or_retry now payload (log_error entry (record before { store = tables }))
        → Run payload before after

  -- The attempts in place, from any tables on.
  attempted :
      (left : ℕ) (payload : Payload) (b : Backend S) (tables : S)
      → Run payload b (
          settle persist now payload
            (submit_with_in_place_retry persist now left payload (record b { store = tables })))
  unfolding submit_with_in_place_retry settle after_answer
  attempted zero payload b tables =
      put_off (persistence_failed_after_retries payload.batch_id) tables refl
  attempted (suc left) payload b tables =
      let answer =
        persist (map item_of_queued payload.items) payload.scope_branch payload.batch_id tables in
      let b' : Backend S = record b { store = answer.1 } in
      let again = submit_with_in_place_retry persist now left payload b' in
      let step : (r : Result Fault BulkBatchOutcome)
          → answer.0 ≡ r
          → settle persist now payload (after_answer persist now payload answer.0 again b')
            ≡ settle persist now payload (after_answer persist now payload r again b') =
        λ r e.
          ap (λ x. settle persist now payload (after_answer persist now payload x again b')) e in
      elim (Result-cases answer.0) [
        | inl (outcome, done) ↦
            written outcome answer.1
              (record { tables = tables; wrote = ap (λ r. (r, answer.1)) done })
              (step (ok outcome) done)
        | inr (retryable, done) ↦
            subst (λ c. Run payload b c) (sym (step (err retryable) done))
              (attempted left payload b answer.1)
        | inr (other, done) ↦
            put_off (persistence_failed payload.batch_id) answer.1 (step (err other) done)
      ]

  ran :
      (payload : Payload) (b : Backend S)
      → payload.deadlettered ≡ false
      → Run payload b (process_bulk_batch persist now payload b)
  unfolding process_bulk_batch
  ran payload b live =
      subst
        (λ (stale : Bool). Run payload b (
          if stale
          then log_error (stale_deadletter_drained payload.batch_id) b
          else settle persist now payload
              (submit_with_in_place_retry persist now in_place_attempts payload b)))
        (sym live) (attempted in_place_attempts payload b b.store)

  -- A batch is settled by one acknowledgement of a write of its rows, or by one event that gives up after
  -- all retries, and not by both.
  pub data IsSettled (payload : Payload) (before after : Backend S) : Type ℓ where
    acknowledged :
        (outcome : BulkBatchOutcome)
        → IsWritten payload outcome after.store
        → after.queue ≡ []
        → after.failures ≡ before.failures
        → after.acks
          ≡ before.acks
            ++ (record {
              batch_id = payload.batch_id;
              accepted = outcome.accepted;
              inserted = outcome.inserted;
              deduplicated = outcome.deduplicated;
              rejected = length outcome.rejected;
            })
              ∷ []
        → IsSettled payload before after
    given_up :
        after.queue ≡ []
        → after.acks ≡ before.acks
        → after.failures
          ≡ before.failures ++ (record { batch_id = payload.batch_id; attempts = max_retry }) ∷ []
        → IsSettled payload before after

  -- A write settles the batch when nothing else waits.
  IsSettled-by_write :
      (payload : Payload) (b after : Backend S) (outcome : BulkBatchOutcome) (tables : S)
      → IsWritten payload outcome tables
      → after ≡ acknowledge payload outcome (record b { queue = []; store = tables })
      → IsSettled payload b after
  IsSettled-by_write payload b after outcome tables w same =
      subst (λ c. IsSettled payload b c) (sym same) (acknowledged outcome w refl refl refl)

  -- The last retry settles the batch in any case.
  IsSettled-at_last :
      (payload : Payload) (b after : Backend S)
      → get_or payload.attempt 0 ≡ max_retry
      → Run payload (record b { queue = [] }) after
      → IsSettled payload b after
  unfolding deadletter_or_retry
  IsSettled-at_last payload b after last (written outcome tables w same) =
      IsSettled-by_write payload b after outcome tables w same
  IsSettled-at_last payload b after last (put_off entry tables same) =
      let over : ltb max_retry (get_or payload.attempt 0 + 1) ≡ true = ground (arith, last) in
      let tries : (get_or payload.attempt 0 + 1) - 1 ≡ max_retry = omega (arith, last) in
      let target : Backend S =
        log_error (max_retry_exceeded payload.batch_id)
          (record (log_error entry (record b { queue = []; store = tables })) {
            failures =
                b.failures
                ++ (record {
                  batch_id = payload.batch_id;
                  attempts = (get_or payload.attempt 0 + 1) - 1;
                })
                  ∷ [];
          }) in
      let reached : after ≡ target = same ∙ rw over refl in
      subst (λ c. IsSettled payload b c) (sym reached) (given_up refl refl (rw tries refl))

  -- The payload that waits for its next run.
  again : Payload → Payload
  again payload = record payload { attempt = some (get_or payload.attempt 0 + 1) }

  -- Settling the next run of a batch settles the batch.
  IsSettled-later :
      (payload : Payload) (b c after : Backend S)
      → c.acks ≡ b.acks
      → c.failures ≡ b.failures
      → IsSettled (again payload) c after
      → IsSettled payload b after
  unfolding again
  IsSettled-later payload b c after acks failures (acknowledged outcome w empty kept grown) =
      acknowledged outcome (record { tables = w.tables; wrote = w.wrote }) empty (kept ∙ failures)
        (rw grown (rw acks refl))
  IsSettled-later payload b c after acks failures (given_up empty kept grown) =
      given_up empty (kept ∙ acks) (rw grown (rw failures refl))

  -- After a run of the job that was alone in the queue, with the retries that are left.
  settles :
      (left : ℕ) (payload : Payload) (b after : Backend S)
      → payload.deadlettered ≡ false
      → get_or payload.attempt 0 + left ≡ max_retry
      → Run payload (record b { queue = [] }) after
      → IsSettled payload b (work left after)
  unfolding work run_next deadletter_or_retry again
  settles zero payload b after live tries run =
      IsSettled-at_last payload b after (omega (arith, tries)) run
  settles (suc left) payload b after live tries (written outcome tables w same) =
      subst (λ c. IsSettled payload b c) (sym (idle (suc left) after (ap (λ c. c.queue) same)))
        (IsSettled-by_write payload b after outcome tables w same)
  settles (suc left) payload b after live tries (put_off entry tables same) =
      let early : ltb max_retry (get_or payload.attempt 0 + 1) ≡ false = ground (arith, tries) in
      let next : Backend S =
        enqueue (again payload)
          (some (now + with_exponential_backoff ((get_or payload.attempt 0 + 1) - 1) 1 300))
          (log_error entry (record b { queue = []; store = tables })) in
      let reached : after ≡ next = same ∙ rw early refl in
      let run = ran (again payload) (record next { queue = [] }) live in
      subst (λ c. IsSettled payload b (work (suc left) c)) (sym reached)
        (IsSettled-later payload b next _ refl refl
          (settles left (again payload) next _ live (omega (arith, tries)) run))

  -- A fresh job that is alone in the queue is settled when the worker has run it at most once and five
  -- times more, whatever the database answers: either it is acknowledged with the outcome of a write of
  -- its rows, or one event tells that it was given up after five retries, and the queue is empty.
  pub process_bulk_batch-IsSettled :
      (payload : Payload) (b : Backend S) (at : Option ℕ)
      → payload.deadlettered ≡ false
      → payload.attempt ≡ none
      → b.queue ≡ (payload, at) ∷ []
      → IsSettled payload b (work (suc max_retry) b)
  unfolding work run_next
  process_bulk_batch-IsSettled payload b at live fresh alone =
      let tries : get_or payload.attempt 0 + max_retry ≡ max_retry = rw fresh refl in
      let taken : run_next b.queue b
          ≡ process_bulk_batch persist now payload (record b { queue = [] }) =
        ap (λ q. run_next q b) alone in
      subst (λ c. IsSettled payload b (work max_retry c)) (sym taken)
        (settles max_retry payload b _ live tries (ran payload (record b { queue = [] }) live))
