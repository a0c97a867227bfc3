-- ===== src/Reporting/Unseen.antt =====
-- The keys of a gateway, and the items that are new to it.
use flock_os.Reporting.{
  AttendanceItem, Gateway, idempotency_key, unique_key, seed_one, seed_aggregate,
  increment_aggregate, increment_all, insert_one, bulk_insert, is_unseen, select_new, by_event,
  record_new, emit_all, accept,
}
use flock_os.Base.{
  ℕ, ◌≡◌, refl, ap, ◌∙◌, String, string_eq, pair_eq, triple_eq, triple_beq_iff, ◌==◌, Eq,
  contains-append, Bool, Bool-cases, true, false, ◌&&◌, ◌||◌, inl, inr, List, [], ◌∷◌, map, arith,
  filter, contains, add, All, All-mono, filter-ext,
}

-- Membership in a filtered list of keys.
contains-filter {ℓ} :
    {A : Type ℓ} ⦃e : Eq A⦄ (p : A → Bool) (xs : List A) (a : A)
    → contains (filter p xs) a ≡ (contains xs a && p a)
contains-filter p [] a = refl
contains-filter ⦃e⦄ p (x ∷ xs) a = ground (arith, e.test_iff x a, contains-filter p xs a)

contains-add {ℓ} :
    {A : Type ℓ} ⦃e : Eq A⦄ (xs : List A) (a b : A)
    → contains (add xs a) b ≡ (contains xs b || a == b)
contains-add ⦃e⦄ xs a b = ground (arith, e.test_iff a b, contains-append xs (a ∷ []) b)

keys_hold :
    (items : List AttendanceItem)
    → All (λ item. contains (map idempotency_key items) (idempotency_key item) ≡ true) items
keys_hold [] = tt
keys_hold (item ∷ items) = (
  ground (arith, triple_beq_iff (idempotency_key item) (idempotency_key item)),
  All-mono items (λ x h. ground arith) (keys_hold items),
)

-- The selection of the new items keeps those that `filter_unseen` keeps, each as often as it is in
-- the batch.
pub select_new_lem :
    (g : Gateway) (items : List AttendanceItem)
    → select_new g items ≡ filter (λ item. is_unseen g (idempotency_key item)) items
unfolding select_new
select_new_lem g items =
    filter-ext _ (λ item. is_unseen g (idempotency_key item)) items
      (All-mono items
        (λ item h.
          ground (
            arith,
            contains-filter (is_unseen g) (map idempotency_key items) (idempotency_key item),
          ))
        (keys_hold items))

-- Once stored, a key stays stored.
is_unseen-insert_one :
    (g : Gateway) (item : AttendanceItem) (k : String × String × String)
    → is_unseen g k ≡ false
    → is_unseen (insert_one g item) k ≡ false
unfolding is_unseen insert_one
is_unseen-insert_one g item k h = ground (
  arith,
  contains-add g.seen (idempotency_key item) k,
  contains-add g.unique (unique_key item) (k.0, k.1),
)

is_unseen-bulk_insert :
    (items : List AttendanceItem) (g : Gateway) (k : String × String × String)
    → is_unseen g k ≡ false
    → is_unseen (bulk_insert g items) k ≡ false
unfolding bulk_insert
is_unseen-bulk_insert [] g k h = h
is_unseen-bulk_insert (item ∷ items) g k h =
    is_unseen-bulk_insert items (insert_one g item) k (is_unseen-insert_one g item k h)

is_unseen-insert_self :
    (g : Gateway) (item : AttendanceItem)
    → is_unseen (insert_one g item) (idempotency_key item) ≡ false
unfolding is_unseen insert_one
is_unseen-insert_self g item = ground (
  arith,
  contains-add g.seen (idempotency_key item) (idempotency_key item),
  triple_beq_iff (idempotency_key item) (idempotency_key item),
)

-- After the insertion of the new items of a batch, no item of the batch is new.
none_new :
    (g : Gateway) (items : List AttendanceItem) (h : Gateway)
    → ((k : String × String × String) → is_unseen g k ≡ false → is_unseen h k ≡ false)
    → All
        (λ item.
          is_unseen
            (bulk_insert h (filter (λ x. is_unseen g (idempotency_key x)) items))
            (idempotency_key item)
          ≡ false)
        items
unfolding bulk_insert
none_new g [] h grows = tt
none_new g (item ∷ items) h grows = elim (Bool-cases (is_unseen g (idempotency_key item))) [
  | inl new ↦ (
    rw new (
        is_unseen-bulk_insert (kept items) (insert_one h item) (idempotency_key item)
          (is_unseen-insert_self h item)),
    All-mono items (λ x q. rw new q)
        (none_new g items (insert_one h item)
          (λ k old. is_unseen-insert_one h item k (grows k old))),
  )
  | inr old ↦ (
    rw old (
        is_unseen-bulk_insert (kept items) h (idempotency_key item)
          (grows (idempotency_key item) old)),
    All-mono items (λ x q. rw old q) (none_new g items h grows),
  )
]
  where
    kept : List AttendanceItem → List AttendanceItem
    kept xs = filter (λ x. is_unseen g (idempotency_key x)) xs

-- The seeding and the counters have no part in what is seen.
is_unseen-increment_all :
    (b : String) (l : List (String × ℕ)) (g : Gateway) (k : String × String × String)
    → is_unseen (increment_all b l g) k ≡ is_unseen g k
unfolding increment_all increment_aggregate is_unseen
is_unseen-increment_all b [] g k = refl
is_unseen-increment_all b ((e, n) ∷ l) g k =
    is_unseen-increment_all b l (increment_aggregate b e n g) k

is_unseen-seed_one :
    (b e : String) (g : Gateway) (k : String × String × String)
    → is_unseen (seed_one b e g) k ≡ is_unseen g k
unfolding seed_one is_unseen
is_unseen-seed_one b e g k = ground arith

pub is_unseen-seed :
    (b : String) (events : List String) (g : Gateway) (k : String × String × String)
    → is_unseen (seed_aggregate b events g) k ≡ is_unseen g k
unfolding seed_aggregate
is_unseen-seed b [] g k = refl
is_unseen-seed b (e ∷ events) g k =
    is_unseen-seed b events (seed_one b e g) k ∙ is_unseen-seed_one b e g k

-- No item of an accepted batch is new to the gateway that the batch leaves.
pub accepted_is_old :
    (items : List AttendanceItem) (scope batch_id : String) (g : Gateway)
    → All (λ item. is_unseen (accept items scope batch_id g).1 (idempotency_key item) ≡ false) items
unfolding accept emit_all record_new
accepted_is_old items scope batch_id g =
    All-mono items
      (λ item q.
        is_unseen-increment_all scope (by_event (select_new g items))
          (bulk_insert g (select_new g items)) (idempotency_key item)
        ∙ ap (λ l. is_unseen (bulk_insert g l) (idempotency_key item)) (select_new_lem g items)
        ∙ q)
      (none_new g items g (λ k old. old))
