-- ===== src/Reporting.antt =====
-- flock_os/reporting.py: the bulk attendance service over the in-memory gateway. The transaction
-- boundary of that gateway does nothing and has no counterpart here.
pub mod Counters
pub mod Unseen
pub mod Replay
pub mod Batch
mod Tests
use flock_os.Base.{
  ℕ, ◌+◌, ◌-◌, ◌*◌, ◌^◌, min, String, string_eq, pair_eq, triple_eq, ◌==◌, Bool, true, false, not,
  ◌&&◌, ◌||◌, List, [], ◌∷◌, ◌++◌, map, Option, none, some, Result, ok, err, contains, add, length,
  count, filter, if◌then◌else◌, ltb, nat_beq, is_some, or_text,
}
use flock_os.Base.Dict.{lookup, insert, or_default}

pub record AttendanceItem : Type 0 where
  pub event : String
  pub attendee_ref : String
  pub branch : String
  pub status : String
  pub source : String
  pub client_req_id : Option String
  pub gathering : Option String
  pub member : Option String
  pub engagement_session : Option String
  pub attendee_key : Option String

abbrev pub idempotency_key : AttendanceItem → String × String × String
idempotency_key item = (item.event, item.attendee_ref, or_text item.client_req_id item.attendee_ref)

abbrev pub unique_key : AttendanceItem → String × String
unique_key item = (item.event, item.attendee_ref)

-- The events that the service emits, with their payloads.
pub data DomainEvent : Type 0 where
  batch_rejected : (scope batch_id : String) → (rejected out_of_scope : ℕ) → DomainEvent
  bulk_recorded : (gathering : String) → ℕ → (batch_id branch : String) → DomainEvent

pub record RejectedItem : Type 0 where
  pub index : ℕ
  pub attendee_ref : String

pub record BulkBatchOutcome : Type 0 where
  pub batch_id : String
  pub scope : String
  pub accepted : Bool
  pub inserted : ℕ
  pub deduplicated : ℕ
  pub rejected : List RejectedItem
  pub events : List DomainEvent

-- `InMemoryBulkAttendanceGateway`; a set is the list of its members.
pub record Gateway : Type 0 where
  pub seen : List (String × String × String)
  pub unique : List (String × String)
  pub counters : List ((String × String) × ℕ)
  pub published_events : List DomainEvent
  pub inserted_items : List AttendanceItem

abbrev pub new_gateway : Gateway
new_gateway = record {
  seen = [];
  unique = [];
  counters = [];
  published_events = [];
  inserted_items = [];
}

-- The test that `filter_unseen` makes of one key.
unfoldable pub is_unseen : Gateway → String × String × String → Bool
is_unseen g key = not (contains g.seen key) && not (contains g.unique (key.0, key.1))

-- Nothing is stored between two keys, so the set is a filter of the keys.
unfoldable pub filter_unseen :
    Gateway → List (String × String × String) → List (String × String × String)
unfolding is_unseen
filter_unseen g keys = filter (is_unseen g) keys

unfoldable pub insert_one : Gateway → AttendanceItem → Gateway
insert_one g item = record g {
  seen = add g.seen (idempotency_key item);
  unique = add g.unique (unique_key item);
  inserted_items = g.inserted_items ++ item ∷ [];
}

unfoldable pub bulk_insert : Gateway → List AttendanceItem → Gateway
unfolding insert_one
bulk_insert g [] = g
bulk_insert g (item ∷ items) = bulk_insert (insert_one g item) items

-- `self._counters.setdefault(key, 0)`
unfoldable pub seed_one : String → String → Gateway → Gateway
seed_one branch event g =
    if is_some (lookup (branch, event) g.counters)
    then g
    else record g { counters = insert (branch, event) 0 g.counters }

unfoldable pub seed_aggregate : String → List String → Gateway → Gateway
unfolding seed_one
seed_aggregate branch [] g = g
seed_aggregate branch (event ∷ events) g = seed_aggregate branch events (seed_one branch event g)

unfoldable pub increment_aggregate : String → String → ℕ → Gateway → Gateway
increment_aggregate branch event delta g = record g {
  counters =
      insert (branch, event) (or_default 0 (lookup (branch, event) g.counters) + delta) g.counters;
}

unfoldable pub sum_for : String → List ((String × String) × ℕ) → ℕ
sum_for branch [] = 0
sum_for branch ((key, n) ∷ rest) = (if key.0 == branch then n else 0) + sum_for branch rest

unfoldable pub aggregate : Gateway → String → Option String → ℕ
unfolding sum_for
aggregate g branch none = sum_for branch g.counters
aggregate g branch (some event) = or_default 0 (lookup (branch, event) g.counters)

unfoldable pub emit : DomainEvent → Gateway → Gateway
emit event g = record g { published_events = g.published_events ++ event ∷ [] }

unfoldable pub emit_all : List DomainEvent → Gateway → Gateway
emit_all events g = record g { published_events = g.published_events ++ events }

-- `Counter(...)`: how often each text stands in the list, in order of first occurrence.
unfoldable pub count_into : List (String × ℕ) → List String → List (String × ℕ)
count_into acc [] = acc
count_into acc (x ∷ xs) = count_into (insert x (or_default 0 (lookup x acc) + 1) acc) xs

-- The loop over `by_event.items()`: the increments, and the events.
unfoldable pub increment_all : String → List (String × ℕ) → Gateway → Gateway
unfolding increment_aggregate
increment_all branch [] g = g
increment_all branch ((event, n) ∷ rest) g =
    increment_all branch rest (increment_aggregate branch event n g)

unfoldable pub recorded_events : String → String → List (String × ℕ) → List DomainEvent
recorded_events branch batch_id by_event =
    map (λ entry. bulk_recorded entry.0 entry.1 batch_id branch) by_event

unfoldable pub reject_from : ℕ → List AttendanceItem → List RejectedItem
reject_from index [] = []
reject_from index (item ∷ items) =
    record { index = index; attendee_ref = item.attendee_ref } ∷ reject_from (index + 1) items

abbrev pub out_of_scope_count : String → List AttendanceItem → ℕ
out_of_scope_count scope items = count (λ item. not (item.branch == scope)) items

-- The items whose key is in the set that `filter_unseen` returned.
unfoldable pub select_new : Gateway → List AttendanceItem → List AttendanceItem
unfolding filter_unseen
select_new g items =
    let unseen_keys = filter_unseen g (map idempotency_key items) in
    filter (λ item. contains unseen_keys (idempotency_key item)) items

abbrev pub events_of : List AttendanceItem → List String
events_of items = map (λ item. item.event) items

abbrev pub by_event : List AttendanceItem → List (String × ℕ)
by_event new_items = count_into [] (events_of new_items)

-- The write of an accepted batch, the two steps before `emit`.
unfoldable pub record_new : String → List AttendanceItem → Gateway → Gateway
unfolding bulk_insert increment_all count_into
record_new scope new_items g = increment_all scope (by_event new_items) (bulk_insert g new_items)

-- The branch of `submit` for a batch with an item out of scope.
unfoldable pub reject : List AttendanceItem → String → String → Gateway → BulkBatchOutcome × Gateway
unfolding emit reject_from
reject items scope batch_id g =
    let event = batch_rejected scope batch_id (length items) (out_of_scope_count scope items) in
    (
      record {
        batch_id = batch_id;
        scope = scope;
        accepted = false;
        inserted = 0;
        deduplicated = 0;
        rejected = reject_from 0 items;
        events = event ∷ [];
      },
      emit event g,
    )

-- The rest of `submit`, after the seeding of the summary rows.
unfoldable pub accept : List AttendanceItem → String → String → Gateway → BulkBatchOutcome × Gateway
unfolding emit_all select_new record_new recorded_events
accept items scope batch_id seeded =
    let new_items = select_new seeded items in
    let events = recorded_events scope batch_id (by_event new_items) in
    (
      record {
        batch_id = batch_id;
        scope = scope;
        accepted = true;
        inserted = length new_items;
        deduplicated = length items - length new_items;
        rejected = [];
        events = events;
      },
      emit_all events (record_new scope new_items seeded),
    )

unfoldable pub submit : List AttendanceItem → String → String → Gateway → BulkBatchOutcome × Gateway
unfolding reject accept seed_aggregate
submit items scope batch_id g =
    if not (nat_beq (out_of_scope_count scope items) 0)
    then reject items scope batch_id g
    else accept items scope batch_id (seed_aggregate scope (events_of items) g)

-- `BatchSizeExceeded` is the error.
unfoldable pub enforce_batch_size : List AttendanceItem → ℕ → Result (Unit {0}) (Unit {0})
enforce_batch_size items limit = if ltb limit (length items) then err tt else ok tt

-- In units of any fraction of a second.
unfoldable pub with_exponential_backoff : ℕ → ℕ → ℕ → ℕ
with_exponential_backoff attempt base cap = min cap (base * 2 ^ attempt)
