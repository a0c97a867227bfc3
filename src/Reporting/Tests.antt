-- ===== src/Reporting/Tests.antt =====
-- Small batches submitted to a new gateway, and the theorems at them.
use flock_os.Reporting.{
  AttendanceItem, batch_rejected, new_gateway, submit, aggregate, out_of_scope_count,
}
use flock_os.Reporting.Counters.{IsConsistent, submit-IsConsistent, new_gateway-IsConsistent}
use flock_os.Reporting.Replay.{submit_again}
use flock_os.Reporting.Batch.{fresh_items, submit-out_of_scope, submit-accepted}
use flock_os.Base.{
  ◌+◌, ◌≡◌, ◌≢◌, refl, String, string_eq, pair_eq, triple_eq, true, false, List, [], ◌∷◌, ◌++◌, map,
  none, some, length, arith,
}

abbrev row_of : String → String → AttendanceItem
row_of attendee branch = record {
  event = "e1";
  attendee_ref = attendee;
  branch = branch;
  status = "Present";
  source = "engagement";
  client_req_id = none;
  gathering = none;
  member = none;
  engagement_session = none;
  attendee_key = none;
}

abbrev inside : List AttendanceItem
inside = row_of "ann" "north" ∷ row_of "bob" "north" ∷ []

abbrev mixed : List AttendanceItem
mixed = row_of "ann" "north" ∷ row_of "bob" "south" ∷ []

-- Two requests of one attendee.
abbrev again : AttendanceItem
again = record (row_of "ann" "north") { client_req_id = some "second" }

counted : aggregate (submit inside "north" "b1" new_gateway).1 "north" (some "e1") ≡ 2
unfolding submit aggregate
counted = refl

one_outside : out_of_scope_count "north" mixed ≢ 0
one_outside h = let p : ⊥ = ground (arith, h) in absurd p

submit-IsConsistent_example : IsConsistent (submit inside "north" "b1" new_gateway).1
submit-IsConsistent_example =
    submit-IsConsistent inside "north" "b1" new_gateway new_gateway-IsConsistent

submit_again_example :
    ((submit inside "north" "b2" (submit inside "north" "b1" new_gateway).1).0.inserted ≡ 0)
    × ((submit inside "north" "b2" (submit inside "north" "b1" new_gateway).1).0.deduplicated
        ≡ length inside)
    × ((submit inside "north" "b2" (submit inside "north" "b1" new_gateway).1).0.events ≡ [])
    × ((submit inside "north" "b2" (submit inside "north" "b1" new_gateway).1).1
        ≡ (submit inside "north" "b1" new_gateway).1)
submit_again_example = submit_again inside "north" "b1" "b2" new_gateway refl

submit-out_of_scope_example :
    ((submit mixed "north" "b1" new_gateway).0.accepted ≡ false)
    × ((submit mixed "north" "b1" new_gateway).0.inserted ≡ 0)
    × (map (λ r. r.attendee_ref) (submit mixed "north" "b1" new_gateway).0.rejected
        ≡ map (λ item. item.attendee_ref) mixed)
    × ((submit mixed "north" "b1" new_gateway).1 ≡ record new_gateway {
      published_events =
          new_gateway.published_events
          ++ batch_rejected "north" "b1" (length mixed) (out_of_scope_count "north" mixed) ∷ [];
    })
submit-out_of_scope_example = submit-out_of_scope mixed "north" "b1" new_gateway one_outside

submit-accepted_example :
    ((submit inside "north" "b1" new_gateway).0.accepted ≡ true)
    × ((submit inside "north" "b1" new_gateway).0.inserted
        ≡ length (fresh_items new_gateway inside))
    × ((submit inside "north" "b1" new_gateway).0.inserted
          + (submit inside "north" "b1" new_gateway).0.deduplicated
        ≡ length inside)
    × ((submit inside "north" "b1" new_gateway).1.inserted_items
        ≡ new_gateway.inserted_items ++ fresh_items new_gateway inside)
submit-accepted_example = submit-accepted inside "north" "b1" new_gateway refl
