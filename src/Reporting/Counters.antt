-- ===== src/Reporting/Counters.antt =====
-- The summary counters and the rows that they count.
use flock_os.Reporting.{
  AttendanceItem, Gateway, new_gateway, seed_one, seed_aggregate, increment_aggregate,
  increment_all, count_into, insert_one, bulk_insert, select_new, by_event, events_of, record_new,
  emit, emit_all, reject, accept, submit, aggregate, out_of_scope_count,
}
use flock_os.Base.{
  ℕ, ◌+◌, ◌≡◌, refl, ap, sym, ◌∙◌, String, string_eq, pair_eq, ◌==◌, eq_iff_lem, pair_beq_iff,
  append-nil, append_assoc, Bool, Bool-cases, not, ◌&&◌, inl, inr, List, [], ◌∷◌, ◌++◌, some, arith,
  count, filter, ◌≤◌, count-append, if◌then◌else◌, nat_beq,
}
use flock_os.Base.Dict.{lookup, insert, or_default, lookup-insert}

-- The stored counter of a branch and event.
abbrev counter : String → String → Gateway → ℕ
counter b e g = or_default 0 (lookup (b, e) g.counters)

abbrev is_row : String → String → AttendanceItem → Bool
is_row b e item = item.branch == b && item.event == e

-- The sum of the entries of one text.
total : String → List (String × ℕ) → ℕ
total x [] = 0
total x ((y, n) ∷ rest) = (if y == x then n else 0) + total x rest

counter-increment :
    (b e : String) (n : ℕ) (g : Gateway) (b' e' : String)
    → counter b' e' (increment_aggregate b e n g)
      ≡ counter b' e' g + (if b == b' && e == e' then n else 0)
unfolding increment_aggregate
counter-increment b e n g b' e' =
    rw (lookup-insert (b, e) (b', e') _ g.counters)
      (ground (arith, eq_iff_lem b b', eq_iff_lem e e'))

counter-increment_all :
    (b : String) (l : List (String × ℕ)) (g : Gateway) (b' e' : String)
    → counter b' e' (increment_all b l g) ≡ counter b' e' g + (if b == b' then total e' l else 0)
unfolding increment_all total
counter-increment_all b [] g b' e' = ground arith
counter-increment_all b ((e, n) ∷ l) g b' e' = ground (
  arith,
  counter-increment_all b l (increment_aggregate b e n g) b' e',
  counter-increment b e n g b' e',
)

total-insert :
    (x : String) (acc : List (String × ℕ)) (y : String)
    → total y (insert x (or_default 0 (lookup x acc) + 1) acc)
      ≡ total y acc + (if x == y then 1 else 0)
unfolding total
total-insert x [] y = ground arith
total-insert x ((z, n) ∷ acc) y =
    ground (arith, total-insert x acc y, eq_iff_lem z x, eq_iff_lem x y, eq_iff_lem z y)

total-count_into :
    (acc : List (String × ℕ)) (xs : List String) (y : String)
    → total y (count_into acc xs) ≡ total y acc + count (λ x. x == y) xs
unfolding count_into
total-count_into acc [] y = omega arith
total-count_into acc (x ∷ xs) y = omega (
  arith,
  total-count_into (insert x (or_default 0 (lookup x acc) + 1) acc) xs y,
  total-insert x acc y,
)

counter-seed_one :
    (b e : String) (g : Gateway) (b' e' : String) → counter b' e' (seed_one b e g) ≡ counter b' e' g
unfolding seed_one
counter-seed_one b e g b' e' =
    ground (arith, lookup-insert (b, e) (b', e') 0 g.counters, pair_beq_iff (b, e) (b', e'))

counter-seed :
    (b : String) (events : List String) (g : Gateway) (b' e' : String)
    → counter b' e' (seed_aggregate b events g) ≡ counter b' e' g
unfolding seed_aggregate
counter-seed b [] g b' e' = refl
counter-seed b (e ∷ events) g b' e' =
    counter-seed b events (seed_one b e g) b' e' ∙ counter-seed_one b e g b' e'

pub rows-seed :
    (b : String) (events : List String) (g : Gateway)
    → (seed_aggregate b events g).inserted_items ≡ g.inserted_items
unfolding seed_aggregate
rows-seed b [] g = refl
rows-seed b (e ∷ events) g = rows-seed b events (seed_one b e g) ∙ (unfold seed_one in ground arith)

pub rows-bulk_insert :
    (g : Gateway) (items : List AttendanceItem)
    → (bulk_insert g items).inserted_items ≡ g.inserted_items ++ items
unfolding bulk_insert insert_one
rows-bulk_insert g [] = sym (append-nil g.inserted_items)
rows-bulk_insert g (item ∷ items) =
    rows-bulk_insert (insert_one g item) items ∙ append_assoc g.inserted_items (item ∷ []) items

counter-bulk_insert :
    (g : Gateway) (items : List AttendanceItem) (b e : String)
    → counter b e (bulk_insert g items) ≡ counter b e g
unfolding bulk_insert insert_one
counter-bulk_insert g [] b e = refl
counter-bulk_insert g (item ∷ items) b e = counter-bulk_insert (insert_one g item) items b e

pub rows-increment_all :
    (b : String) (l : List (String × ℕ)) (g : Gateway)
    → (increment_all b l g).inserted_items ≡ g.inserted_items
unfolding increment_all increment_aggregate
rows-increment_all b [] g = refl
rows-increment_all b ((e, n) ∷ l) g = rows-increment_all b l (increment_aggregate b e n g)

-- The items of a batch in scope, counted by branch and event.
count_in_scope :
    (scope b e : String) (items : List AttendanceItem)
    → out_of_scope_count scope items ≡ 0
    → count (is_row b e) items ≡ (if scope == b then count (λ x. x == e) (events_of items) else 0)
count_in_scope scope b e [] h = ground arith
count_in_scope scope b e (item ∷ items) h = ground (
  arith,
  eq_iff_lem item.branch scope,
  eq_iff_lem item.branch b,
  eq_iff_lem scope b,
  count_in_scope scope b e items (ground arith),
)

count-filter-le :
    (p q : AttendanceItem → Bool) (items : List AttendanceItem)
    → count p (filter q items) ≤ count p items
count-filter-le p q [] = omega arith
count-filter-le p q (item ∷ items) = ground (arith, count-filter-le p q items)

select_new-in_scope :
    (scope : String) (g : Gateway) (items : List AttendanceItem)
    → out_of_scope_count scope items ≡ 0
    → out_of_scope_count scope (select_new g items) ≡ 0
unfolding select_new
select_new-in_scope scope g items h =
    omega (arith, count-filter-le (λ item. not (item.branch == scope)) _ items)

-- Every counter is the number of the rows of its branch and event.
pub record IsConsistent (g : Gateway) : Type 0 where
  pub counts : (b e : String) → aggregate g b (some e) ≡ count (is_row b e) g.inserted_items

record_new-IsConsistent :
    (scope : String) (items : List AttendanceItem) (g : Gateway)
    → out_of_scope_count scope items ≡ 0
    → IsConsistent g
    → IsConsistent (record_new scope items g)
unfolding record_new aggregate total
record_new-IsConsistent scope items g h c = record {
  counts = λ b e. ground (
    arith,
    c.counts b e,
    counter-increment_all scope (by_event items) (bulk_insert g items) b e,
    counter-bulk_insert g items b e,
    total-count_into [] (events_of items) e,
    count_in_scope scope b e items h,
    ap (count (is_row b e)) (rows-increment_all scope (by_event items) (bulk_insert g items)),
    ap (count (is_row b e)) (rows-bulk_insert g items),
    count-append (is_row b e) g.inserted_items items,
  );
}

seed_aggregate-IsConsistent :
    (scope : String) (events : List String) (g : Gateway)
    → IsConsistent g
    → IsConsistent (seed_aggregate scope events g)
unfolding aggregate
seed_aggregate-IsConsistent scope events g c = record {
  counts = λ b e.
      counter-seed scope events g b e
      ∙ c.counts b e
      ∙ ap (count (is_row b e)) (sym (rows-seed scope events g));
}

accept-IsConsistent :
    (items : List AttendanceItem) (scope batch_id : String) (g : Gateway)
    → out_of_scope_count scope items ≡ 0
    → IsConsistent g
    → IsConsistent (accept items scope batch_id g).1
accept-IsConsistent items scope batch_id g h c =
    let r =
      record_new-IsConsistent scope (select_new g items) g (select_new-in_scope scope g items h)
        c in
    record { counts = λ b e. unfold accept emit_all aggregate in r.counts b e }

-- Whatever the batch, `submit` keeps every counter equal to the number of its rows.
pub submit-IsConsistent :
    (items : List AttendanceItem) (scope batch_id : String) (g : Gateway)
    → IsConsistent g
    → IsConsistent (submit items scope batch_id g).1
unfolding submit
submit-IsConsistent items scope batch_id g c =
    elim (Bool-cases (nat_beq (out_of_scope_count scope items) 0)) [
      | inl inside ↦ rw inside (
          accept-IsConsistent items scope batch_id (seed_aggregate scope (events_of items) g)
            (ground arith) (seed_aggregate-IsConsistent scope (events_of items) g c))
      | inr outside ↦
          rw outside (record { counts = λ b e. unfold reject emit aggregate in c.counts b e })
    ]

-- The new, empty gateway is consistent.
pub new_gateway-IsConsistent : IsConsistent new_gateway
unfolding aggregate
new_gateway-IsConsistent = record { counts = λ b e. refl }
