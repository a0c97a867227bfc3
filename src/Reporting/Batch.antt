-- ===== src/Reporting/Batch.antt =====
-- One submission: the rows it adds, and how it counts them.
use flock_os.Reporting.Counters.{rows-bulk_insert, rows-increment_all, rows-seed}
use flock_os.Reporting.Unseen.{select_new_lem, is_unseen-seed}
use flock_os.Reporting.{
  AttendanceItem, RejectedItem, Gateway, batch_rejected, idempotency_key, seed_aggregate,
  bulk_insert, is_unseen, by_event, events_of, record_new, emit, emit_all, reject, reject_from,
  accept, submit, out_of_scope_count,
}
use flock_os.Base.{
  ℕ, ◌+◌, ◌≡◌, ◌≢◌, refl, ap, ◌∙◌, String, string_eq, true, false, List, [], ◌∷◌, ◌++◌, map, arith,
  filter, length, length-filter-le, nat_beq,
}

-- The items of a batch that the gateway has not stored.
abbrev pub fresh_items : Gateway → List AttendanceItem → List AttendanceItem
fresh_items g items = filter (λ item. is_unseen g (idempotency_key item)) items

-- A batch with an item of another branch is rejected whole: each of its items is listed, one event
-- is published, and no row, key or counter changes.
pub submit-out_of_scope :
    (items : List AttendanceItem) (scope batch_id : String) (g : Gateway)
    → out_of_scope_count scope items ≢ 0
    → ((submit items scope batch_id g).0.accepted ≡ false)
      × ((submit items scope batch_id g).0.inserted ≡ 0)
      × (map (λ r. r.attendee_ref) (submit items scope batch_id g).0.rejected
          ≡ map (λ item. item.attendee_ref) items)
      × ((submit items scope batch_id g).1 ≡ record g {
        published_events =
            g.published_events
            ++ batch_rejected scope batch_id (length items) (out_of_scope_count scope items) ∷ [];
      })
unfolding submit reject emit
submit-out_of_scope items scope batch_id g h =
    let outside : nat_beq (out_of_scope_count scope items) 0 ≡ false = ground arith in
    rw outside (refl, refl, listed 0 items, refl)
  where
    listed :
        (index : ℕ) (l : List AttendanceItem)
        → map (λ (r : RejectedItem). r.attendee_ref) (reject_from index l)
          ≡ map (λ (item : AttendanceItem). item.attendee_ref) l
    listed index [] = refl
    listed index (item ∷ l) = ap (λ t. item.attendee_ref ∷ t) (listed (index + 1) l)

length-accept :
    (items : List AttendanceItem) (scope batch_id : String) (g : Gateway)
    → ((accept items scope batch_id g).0.inserted ≡ length (fresh_items g items))
      × ((accept items scope batch_id g).0.inserted + (accept items scope batch_id g).0.deduplicated
          ≡ length items)
      × ((accept items scope batch_id g).1.inserted_items ≡ g.inserted_items ++ fresh_items g items)
length-accept items scope batch_id g =
    unfold accept emit_all record_new in
    rw (select_new_lem g items) (
      refl,
      omega (arith, length-filter-le (λ item. is_unseen g (idempotency_key item)) items),
      rows-increment_all scope (by_event (fresh_items g items))
            (bulk_insert g (fresh_items g items))
          ∙ rows-bulk_insert g (fresh_items g items),
    )

fresh_items-seed :
    (scope : String) (events : List String) (g : Gateway) (items : List AttendanceItem)
    → fresh_items (seed_aggregate scope events g) items ≡ fresh_items g items
fresh_items-seed scope events g [] = refl
fresh_items-seed scope events g (item ∷ items) =
    rw (is_unseen-seed scope events g (idempotency_key item))
      (rw (fresh_items-seed scope events g items))

-- A batch in scope is accepted: the rows that it adds are, in the order of the batch, its items
-- that the gateway has not stored, and every item is counted either as inserted or as a duplicate.
pub submit-accepted :
    (items : List AttendanceItem) (scope batch_id : String) (g : Gateway)
    → out_of_scope_count scope items ≡ 0
    → ((submit items scope batch_id g).0.accepted ≡ true)
      × ((submit items scope batch_id g).0.inserted ≡ length (fresh_items g items))
      × ((submit items scope batch_id g).0.inserted + (submit items scope batch_id g).0.deduplicated
          ≡ length items)
      × ((submit items scope batch_id g).1.inserted_items ≡ g.inserted_items ++ fresh_items g items)
submit-accepted items scope batch_id g h =
    let start = seed_aggregate scope (events_of items) g in
    let (number, sum, rows) = length-accept items scope batch_id start in
    let same = fresh_items-seed scope (events_of items) g items in
    unfold submit in
    rw h (
      unfold accept in refl,
      number ∙ ap (length {A = AttendanceItem}) same,
      sum,
      rows
          ∙ ap (λ l. l ++ fresh_items start items) (rows-seed scope (events_of items) g)
          ∙ ap (λ l. g.inserted_items ++ l) same,
    )
