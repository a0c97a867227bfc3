-- ===== src/Engagement/Service/Attendance.antt =====
-- The attendance that `finalize_close` records over the in-memory store.
use flock_os.Engagement.Service.Finalize.{
  closing_is_open, finalize_done, finalized_outcome, bulk_run,
}
use flock_os.Engagement.Session.{Session}
use flock_os.Engagement.Gateway.{Participation, get_session, restamp, participations}
use flock_os.Engagement.Service.{
  Config, State, CloseOutcome, in_memory_bulk, BulkSubmit, finalize_close, projected,
  in_window_attendees, first_in_window, participation_to_attendance_item,
}
use flock_os.Reporting
use flock_os.Reporting.{AttendanceItem, BulkBatchOutcome, out_of_scope_count, submit}
use flock_os.Reporting.Batch.{fresh_items, submit-accepted}
use Prim.Native.String.{◌++◌ as ◌<>◌}
use flock_os.Base.Dict.{lookup}
use flock_os.Base.{
  ℕ, ◌+◌, ◌≡◌, refl, ap, ◌∙◌, String, string_eq, Bool-cases, ◌||◌, inl, inr, List, [], ◌∷◌, ◌++◌,
  map, Option, some, is_some, ok, All, All-append, arith, length, length-map, eq_iff_lem,
}

IsOfBranch : String → List (String × Participation) → Type 0
IsOfBranch branch entries = All (λ entry. entry.1.branch ≡ branch) entries

first_in_window-IsOfBranch :
    (branch : String) (entries : List (String × Participation)) (ps : List Participation)
    → IsOfBranch branch entries
    → All (λ p. p.branch ≡ branch) ps
    → IsOfBranch branch (first_in_window entries ps)
unfolding first_in_window
first_in_window-IsOfBranch branch entries [] h own = h
first_in_window-IsOfBranch branch entries (p ∷ ps) h own =
    elim (Bool-cases (p.status_flags.out_of_scope || is_some (lookup p.attendee_key entries))) [
      | inl skipped ↦ rw skipped (first_in_window-IsOfBranch branch entries ps h own.1)
      | inr first ↦ rw first (
          first_in_window-IsOfBranch branch (entries ++ (p.attendee_key, p) ∷ []) ps
            (unfold IsOfBranch in
              All-append (λ (entry : String × Participation). entry.1.branch ≡ branch) entries
                ((p.attendee_key, p) ∷ []) h (own.0, tt))
            own.1)
    ]

out_of_scope_count-IsOfBranch :
    (branch : String) (entries : List (String × Participation))
    → IsOfBranch branch entries
    → out_of_scope_count branch (map (λ entry. participation_to_attendance_item entry.1) entries)
      ≡ 0
unfolding IsOfBranch participation_to_attendance_item
out_of_scope_count-IsOfBranch branch [] h = refl
out_of_scope_count-IsOfBranch branch ((k, p) ∷ entries) h =
    ground
      (arith, eq_iff_lem p.branch branch, h.0, out_of_scope_count-IsOfBranch branch entries h.1)

-- A closing session whose rows carry its branch, finalized over the in-memory attendance store:
-- the call returns, the headcount is the number of attendees in the window, each is counted as
-- inserted or as a duplicate, and the store grows by exactly the projected rows that it did not
-- have.
pub finalize_close-in_memory :
    (config : Config) (session_id : String) (now : ℕ) (s : State) (session : Session)
    → config.bulk ≡ in_memory_bulk
    → get_session s.gateway session_id ≡ some session
    → session.status ≡ "closing"
    → All (λ p. p.branch ≡ session.branch) (participations s.gateway session.session_id)
    → (outcome : CloseOutcome) × (s' : State) × (finalize_close config session_id now s
        ≡ (ok outcome, s'))
      × (outcome.attendee_count ≡ length (in_window_attendees s.gateway session))
      × (outcome.inserted + outcome.deduplicated ≡ outcome.attendee_count)
      × (s'.store.inserted_items
          ≡ s.store.inserted_items ++ fresh_items s.store (projected config s.gateway session))
finalize_close-in_memory config session_id now s session in_memory there closing own =
    let (ajar, allowed) = closing_is_open session closing in
    let items = projected config s.gateway session in
    let run = submit items session.branch ("engagement:" <> session.session_id) s.store in
    let inside : out_of_scope_count session.branch items ≡ 0 =
      unfold in_window_attendees in
      out_of_scope_count-IsOfBranch session.branch
        (first_in_window [] (participations s.gateway session.session_id))
        (first_in_window-IsOfBranch session.branch [] (participations s.gateway session.session_id)
          (unfold IsOfBranch in tt) own) in
    let (accepted, number, sum, rows) =
      submit-accepted items session.branch ("engagement:" <> session.session_id) s.store inside in
    let ran : bulk_run config session_id now s session ≡ (some run.0, run.1) =
      unfold in_window_attendees participations restamp in
      ap (λ (f : BulkSubmit). f items session.branch ("engagement:" <> session.session_id) s.store)
        in_memory in
    (
      finalized_outcome config session_id now s session run.0,
      _,
      finalize_done config session_id now s session run.0 there ajar allowed (ap (λ r. r.0) ran),
      unfold in_window_attendees participations restamp in
          length-map _ (first_in_window [] (participations s.gateway session.session_id)),
      unfold in_window_attendees participations restamp in sum,
      ap (λ (r : Option BulkBatchOutcome × Reporting.Gateway). r.1.inserted_items) ran ∙ rows,
    )
