-- ===== src/Reporting/Replay.antt =====
-- A batch that is submitted again.
use flock_os.Reporting.Unseen.{select_new_lem, accepted_is_old}
use flock_os.Reporting.{
  AttendanceItem, Gateway, DomainEvent, idempotency_key, seed_one, seed_aggregate,
  increment_aggregate, increment_all, insert_one, bulk_insert, is_unseen, select_new, by_event,
  events_of, record_new, recorded_events, count_into, emit_all, accept, submit, out_of_scope_count,
}
use flock_os.Base.Dict.{lookup, or_default, lookup-insert}
use flock_os.Base.{
  is_some, append-nil, ℕ, ◌+◌, ◌≡◌, refl, ap, ◌∙◌, String, string_eq, pair_eq, triple_eq,
  pair_beq_iff, Bool, true, false, List, [], ◌∷◌, arith, All, All-mono, filter-none, length,
}

abbrev has_counter : String → Gateway → String → Bool
has_counter b g e = is_some (lookup (b, e) g.counters)

has_counter-seed_one :
    (b e x : String) (g : Gateway)
    → (has_counter b (seed_one b e g) e ≡ true)
      × (has_counter b g x ≡ true → has_counter b (seed_one b e g) x ≡ true)
unfolding seed_one
has_counter-seed_one b e x g = ground (
  arith,
  lookup-insert (b, e) (b, x) 0 g.counters,
  lookup-insert (b, e) (b, e) 0 g.counters,
  pair_beq_iff (b, e) (b, e),
)

has_counter-seed :
    (b : String) (events : List String) (g : Gateway) (x : String)
    → has_counter b g x ≡ true
    → has_counter b (seed_aggregate b events g) x ≡ true
unfolding seed_aggregate
has_counter-seed b [] g x h = h
has_counter-seed b (e ∷ events) g x h =
    has_counter-seed b events (seed_one b e g) x ((has_counter-seed_one b e x g).1 h)

seeded :
    (b : String) (events : List String) (g : Gateway)
    → All (λ e. has_counter b (seed_aggregate b events g) e ≡ true) events
unfolding seed_aggregate
seeded b [] g = tt
seeded b (e ∷ events) g = (
  has_counter-seed b events (seed_one b e g) e (has_counter-seed_one b e e g).0,
  seeded b events (seed_one b e g),
)

seed_again :
    (b : String) (events : List String) (g : Gateway)
    → All (λ e. has_counter b g e ≡ true) events
    → seed_aggregate b events g ≡ g
unfolding seed_aggregate
seed_again b [] g h = refl
seed_again b (e ∷ events) g h =
    let same : seed_one b e g ≡ g = unfold seed_one in rw h.0 in rw same (seed_again b events g h.1)

has_counter-increment_all :
    (b : String) (l : List (String × ℕ)) (g : Gateway) (x : String)
    → has_counter b g x ≡ true
    → has_counter b (increment_all b l g) x ≡ true
unfolding increment_all increment_aggregate
has_counter-increment_all b [] g x h = h
has_counter-increment_all b ((e, n) ∷ l) g x h =
    has_counter-increment_all b l (increment_aggregate b e n g) x (
      ground (
        arith,
        lookup-insert (b, e) (b, x) (or_default 0 (lookup (b, e) g.counters) + n) g.counters,
      ))

has_counter-bulk_insert :
    (b : String) (items : List AttendanceItem) (g : Gateway) (x : String)
    → has_counter b (bulk_insert g items) x ≡ has_counter b g x
unfolding bulk_insert insert_one
has_counter-bulk_insert b [] g x = refl
has_counter-bulk_insert b (item ∷ items) g x = has_counter-bulk_insert b items (insert_one g item) x

-- A batch without a new item is accepted and leaves the gateway as it is.
accept_nothing :
    (items : List AttendanceItem) (scope batch_id : String) (g : Gateway)
    → All (λ item. is_unseen g (idempotency_key item) ≡ false) items
    → ((accept items scope batch_id g).0.inserted ≡ 0)
      × ((accept items scope batch_id g).0.deduplicated ≡ length items)
      × ((accept items scope batch_id g).0.events ≡ [])
      × ((accept items scope batch_id g).1 ≡ g)
accept_nothing items scope batch_id g old =
    let nothing : select_new g items ≡ [] =
      select_new_lem g items ∙ filter-none (λ item. is_unseen g (idempotency_key item)) items old in
    unfold accept record_new emit_all recorded_events count_into bulk_insert increment_all in
    rw nothing (
      refl,
      omega arith,
      refl,
      ap (λ (l : List DomainEvent). record g { published_events = l })
          (append-nil g.published_events),
    )

accept-has_counter :
    (items : List AttendanceItem) (scope batch_id : String) (g : Gateway) (e : String)
    → has_counter scope g e ≡ true
    → has_counter scope (accept items scope batch_id g).1 e ≡ true
unfolding accept emit_all record_new
accept-has_counter items scope batch_id g e h =
    has_counter-increment_all scope (by_event (select_new g items))
      (bulk_insert g (select_new g items)) e
      (has_counter-bulk_insert scope (select_new g items) g e ∙ h)

submit-in_scope :
    (items : List AttendanceItem) (scope batch_id : String) (g : Gateway)
    → out_of_scope_count scope items ≡ 0
    → submit items scope batch_id g
      ≡ accept items scope batch_id (seed_aggregate scope (events_of items) g)
unfolding submit
submit-in_scope items scope batch_id g h = rw h

-- A batch in scope that is submitted again, under whatever batch id, is accepted; it inserts
-- nothing, counts every item as a duplicate, announces nothing, and leaves the gateway exactly as
-- the first submission left it.
pub submit_again :
    (items : List AttendanceItem) (scope first_id again_id : String) (g : Gateway)
    → out_of_scope_count scope items ≡ 0
    → ((submit items scope again_id (submit items scope first_id g).1).0.inserted ≡ 0)
      × ((submit items scope again_id (submit items scope first_id g).1).0.deduplicated
          ≡ length items)
      × ((submit items scope again_id (submit items scope first_id g).1).0.events ≡ [])
      × ((submit items scope again_id (submit items scope first_id g).1).1
          ≡ (submit items scope first_id g).1)
submit_again items scope first_id again_id g h = rw (submit-in_scope items scope first_id g h) (
    rw (submit-in_scope items scope again_id left h) (
      rw (seed_again scope (events_of items) left counted) (
        accept_nothing items scope again_id left
          (accepted_is_old items scope first_id (seed_aggregate scope (events_of items) g)))))
  where
    left : Gateway
    left = (accept items scope first_id (seed_aggregate scope (events_of items) g)).1

    counted : All (λ e. has_counter scope left e ≡ true) (events_of items)
    counted =
        All-mono (events_of items)
          (λ e q.
            accept-has_counter items scope first_id (seed_aggregate scope (events_of items) g) e q)
          (seeded scope (events_of items) g)
