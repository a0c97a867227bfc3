-- ===== src/Attendance/Job.antt =====
-- The background job of flock_os/attendance.py, which writes a batch, retries, and in the end gives up.
use flock_os.Attendance.{
  Payload, Backend, Fault, retryable, other, max_retry, in_place_attempts, get_or, item_of_queued,
  enqueue, log_error, persistence_failed, persistence_failed_after_retries, max_retry_exceeded,
  stale_deadletter_drained,
}
use flock_os.Reporting.{AttendanceItem, BulkBatchOutcome, with_exponential_backoff}
use flock_os.Base.{
  ℕ, zero, suc, ◌+◌, ◌-◌, String, List, [], ◌∷◌, ◌++◌, map, Option, none, some, Result, ok, err,
  length, ltb, if◌then◌else◌,
}

module _ {ℓ} {S : Type ℓ} where
  -- `_deadletter_or_retry`, at a time of the clock in seconds.
  unfoldable pub deadletter_or_retry : ℕ → Payload → Backend S → Backend S
  unfolding with_exponential_backoff
  deadletter_or_retry now payload b =
      let attempt = get_or payload.attempt 0 + 1 in
      if ltb max_retry attempt
      then log_error (max_retry_exceeded payload.batch_id) (record b {
        failures =
            b.failures ++ (record { batch_id = payload.batch_id; attempts = attempt - 1 }) ∷ [];
      })
      else enqueue (record payload { attempt = some attempt })
          (some (now + with_exponential_backoff (attempt - 1) 1 300)) b

  -- `_ack`: the event of the batch for the reporter.
  abbrev pub acknowledge : Payload → BulkBatchOutcome → Backend S → Backend S
  acknowledge payload outcome b = record b {
    acks =
        b.acks
        ++ (record {
          batch_id = payload.batch_id;
          accepted = outcome.accepted;
          inserted = outcome.inserted;
          deduplicated = outcome.deduplicated;
          rejected = length outcome.rejected;
        })
          ∷ [];
  }

  -- The service over the database is a parameter, since the database answers it: the outcome or an
  -- exception, and what the tables are then. So is the clock.
  module _ (persist : List AttendanceItem → String → String → S → Result Fault BulkBatchOutcome × S)
      (now : ℕ) where
    -- One attempt, by the answer: the outcome, the attempts that are left, or the end of them.
    unfoldable pub after_answer :
        Payload
        → Result Fault BulkBatchOutcome
        → Option BulkBatchOutcome × Backend S
        → Backend S
        → Option BulkBatchOutcome × Backend S
    unfolding deadletter_or_retry
    after_answer payload (ok outcome) again b = (some outcome, b)
    after_answer payload (err retryable) again b = again
    after_answer payload (err other) again b =
        (none, deadletter_or_retry now payload (log_error (persistence_failed payload.batch_id) b))

    -- `_submit_with_in_place_retry`, with the number of attempts left.
    unfoldable pub submit_with_in_place_retry :
        ℕ → Payload → Backend S → Option BulkBatchOutcome × Backend S
    unfolding deadletter_or_retry item_of_queued after_answer
    submit_with_in_place_retry zero payload b = (
      none,
      deadletter_or_retry now payload
          (log_error (persistence_failed_after_retries payload.batch_id) b),
    )
    submit_with_in_place_retry (suc left) payload b =
        let (answer, tables) =
          persist (map item_of_queued payload.items) payload.scope_branch payload.batch_id
            b.store in
        let b' = record b { store = tables } in
        after_answer payload answer (submit_with_in_place_retry left payload b') b'

    -- The acknowledgement, if the batch is written.
    unfoldable pub settle : Payload → Option BulkBatchOutcome × Backend S → Backend S
    settle payload (none, b) = b
    settle payload (some outcome, b) = acknowledge payload outcome b

    unfoldable pub process_bulk_batch : Payload → Backend S → Backend S
    unfolding submit_with_in_place_retry settle
    process_bulk_batch payload b =
        if payload.deadlettered
        then log_error (stale_deadletter_drained payload.batch_id) b
        else settle payload (submit_with_in_place_retry in_place_attempts payload b)
