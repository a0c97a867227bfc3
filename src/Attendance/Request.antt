-- ===== src/Attendance/Request.antt =====
-- A request and the batch that it puts on the queue.
use flock_os.Attendance.{
  RawItem, Backend, Queued, bulk_batch_size, item_from_payload, items_from_payload, queued_item,
  item_of_queued, resolve_caller_branch_scope, accepted_items, payload_of, too_large,
  attendee_ref_required, client_req_id_required, event_required, batch_id_required, queue_batch,
  bulk_submit,
}
use flock_os.Reporting.{AttendanceItem, enforce_batch_size}
use flock_os.Base.{
  ℕ, suc, ◌+◌, ◌≤◌, ◌≡◌, refl, sym, ap, ◌∙◌, subst, String, string_eq, ◌==◌, Result-cases, true,
  not, inl, inr, List, [], ◌∷◌, ◌++◌, map, Option, none, some, ok, guard, >>=-eq-ok, ok_injective,
  All, length, truthy, arith,
}

-- A row of a request: it belongs to the event as its gathering and to the branch, and survives the queue.
record IsRow (event branch : String) (item : AttendanceItem) : Type 0 where
  of_event : item.event ≡ event
  of_gathering : item.gathering ≡ some event
  of_branch : item.branch ≡ branch
  survives : item_of_queued (queued_item item) ≡ item

item_from_payload-IsRow :
    (event branch : String) (raw : RawItem) (index : ℕ) (item : AttendanceItem)
    → item_from_payload event branch raw index ≡ ok item
    → IsRow event branch item
unfolding item_from_payload item_of_queued queued_item
item_from_payload-IsRow event branch raw index item h =
    let (u, named, h1) =
      >>=-eq-ok (guard (truthy raw.attendee_ref) (attendee_ref_required index)) _ h in
    let (v, requested, made) =
      >>=-eq-ok (guard (truthy raw.client_req_id) (client_req_id_required index)) _ h1 in
    subst (λ (i : AttendanceItem). IsRow event branch i) (ok_injective made)
      (record { of_event = refl; of_gathering = refl; of_branch = refl; survives = refl })

-- The items of a request, row by row.
pub record IsItems (event branch : String) (raws : List RawItem) (items : List AttendanceItem)
    : Type 0 where
  pub as_many : length items ≡ length raws
  pub in_branch : All (λ item. item.branch ≡ branch) items
  pub at_event : All (λ item. item.event ≡ event) items
  pub at_gathering : All (λ item. item.gathering ≡ some event) items
  pub survive : map item_of_queued (map queued_item items) ≡ items

items_from_payload-IsItems :
    (event branch : String) (index : ℕ) (raws : List RawItem) (items : List AttendanceItem)
    → items_from_payload event branch index raws ≡ ok items
    → IsItems event branch raws items
unfolding items_from_payload
items_from_payload-IsItems event branch index [] items h =
    subst (λ (l : List AttendanceItem). IsItems event branch [] l) (ok_injective h)
      (record { as_many = refl; in_branch = tt; at_event = tt; at_gathering = tt; survive = refl })
items_from_payload-IsItems event branch index (raw ∷ raws) items h =
    let (item, first, h1) = >>=-eq-ok (item_from_payload event branch raw index) _ h in
    let (more, rest, made) = >>=-eq-ok (items_from_payload event branch (index + 1) raws) _ h1 in
    let row = item_from_payload-IsRow event branch raw index item first in
    let rows = items_from_payload-IsItems event branch (index + 1) raws more rest in
    subst (λ (l : List AttendanceItem). IsItems event branch (raw ∷ raws) l) (ok_injective made)
      (record {
        as_many = ap suc rows.as_many;
        in_branch = (row.of_branch, rows.in_branch);
        at_event = (row.of_event, rows.at_event);
        at_gathering = (row.of_gathering, rows.at_gathering);
        survive =
            ap (λ i. i ∷ map item_of_queued (map queued_item more)) row.survives
            ∙ ap (λ l. item ∷ l) rows.survive;
      })

-- An accepted request: one more job in the queue, of the branch of the caller, whose rows are at most the
-- allowed number and become again, in the job, the items of the request.
pub record IsQueued {ℓ} {S : Type ℓ} (event : String) (raws : List RawItem) (batch_id : String)
    (perms : List (Option String)) (before after : Backend S) (receipt : Queued) : Type ℓ where
  pub scope : String
  pub items : List AttendanceItem
  pub of_caller : resolve_caller_branch_scope perms ≡ ok scope
  pub of_request : IsItems event scope raws items
  pub within : length raws ≤ bulk_batch_size
  pub counted : receipt.queued ≡ length raws
  pub waits :
      after ≡ record before { queue = before.queue ++ (payload_of batch_id scope items, none) ∷ [] }

small_enough :
    (items : List AttendanceItem) {u : Unit {0}}
    → too_large (enforce_batch_size items bulk_batch_size) ≡ ok u
    → length items ≤ bulk_batch_size
unfolding enforce_batch_size
small_enough items h = ground (arith, h)

module _ {ℓ} {S : Type ℓ} (event : String) (raws : List RawItem) (batch_id : String)
    (perms : List (Option String)) where
  accepted :
      (before : Backend S) (scope : String) (items : List AttendanceItem)
      → accepted_items event raws batch_id perms ≡ ok (scope, items)
      → IsQueued event raws batch_id perms before
          (record before { queue = before.queue ++ (payload_of batch_id scope items, none) ∷ [] })
          (record { accepted = true; queued = length items; batch_id = batch_id })
  unfolding accepted_items
  accepted before scope items h =
      let (u, with_event, h1) = >>=-eq-ok (guard (not (event == "")) event_required) _ h in
      let (v, with_id, h2) = >>=-eq-ok (guard (not (batch_id == "")) batch_id_required) _ h1 in
      let (branch, resolved, h3) = >>=-eq-ok (resolve_caller_branch_scope perms) _ h2 in
      let (found, parsed, h4) = >>=-eq-ok (items_from_payload event branch 0 raws) _ h3 in
      let (w, small, made) =
        >>=-eq-ok (too_large (enforce_batch_size found bulk_batch_size)) _ h4 in
      let rows = items_from_payload-IsItems event branch 0 raws found parsed in
      let same = ok_injective made in
      subst
        (λ (p : String × List AttendanceItem).
          IsQueued event raws batch_id perms before
            (record before { queue = before.queue ++ (payload_of batch_id p.0 p.1, none) ∷ [] })
            (record { accepted = true; queued = length p.1; batch_id = batch_id }))
        same
        (record {
          scope = branch;
          items = found;
          of_caller = resolved;
          of_request = rows;
          within = omega (arith, rows.as_many, small_enough found small);
          counted = rows.as_many;
          waits = refl;
        })

  -- An accepted request puts one job on the queue: it carries the branch of the caller and at most 500
  -- items, one for each row of the request, all of the branch and with the event as their gathering,
  -- and the rows of the job become these items again.
  pub bulk_submit-IsQueued :
      (before : Backend S) (receipt : Queued)
      → (bulk_submit event raws batch_id perms before).0 ≡ ok receipt
      → IsQueued event raws batch_id perms before
          (bulk_submit event raws batch_id perms before).1
          receipt
  unfolding bulk_submit queue_batch
  bulk_submit-IsQueued before receipt h =
      elim (Result-cases (accepted_items event raws batch_id perms)) [
        | inl (both, done) ↦
            let whole = accepted before both.0 both.1 done in
            let ran = ap (λ r. queue_batch batch_id r before) done in
            subst
              (λ r.
                IsQueued event raws batch_id perms before
                  (queue_batch batch_id (accepted_items event raws batch_id perms) before).1 r)
              (ok_injective (sym (ap (λ r. r.0) ran) ∙ h))
              (subst
                (λ b.
                  IsQueued event raws batch_id perms before b
                    (record { accepted = true; queued = length both.1; batch_id = batch_id }))
                (sym (ap (λ r. r.1) ran)) whole)
        | inr (e, done) ↦ absurd (cc (sym h ∙ ap (λ r. (queue_batch batch_id r before).0) done))
      ]
