-- ===== src/Realtime/Shards.antt =====
-- The shards of a room and those of some attendees, as ascending lists.
use flock_os.Realtime.{Runtime, insert_shard, range_from, shard_for, shards_for}
use flock_os.Base.{
  ℕ, zero, suc, ◌+◌, ◌<◌, ◌≤◌, ◌≡◌, refl, ap, String, string_eq, ◌==◌, eq_of_beq, beq_self,
  Bool-cases, true, ◌||◌, inl, inr, List, [], ◌∷◌, All, contains, ltb, nat_beq, nat_eq, arith,
}

-- Numbers in ascending order, each once.
pub Ascending : List ℕ → Type 0
Ascending [] = Unit {0}
Ascending (n ∷ ns) = All (λ k. n < k) ns × Ascending ns

All-weaken : (m n : ℕ) (ns : List ℕ) → m < n → All (λ k. n < k) ns → All (λ k. m < k) ns
All-weaken m n [] h all = tt
All-weaken m n (k ∷ ns) h all = (omega (arith, h, all.0), All-weaken m n ns h all.1)

All-insert_shard :
    (P : ℕ → Type 0) (k : ℕ) (ns : List ℕ) → P k → All P ns → All P (insert_shard k ns)
unfolding insert_shard
All-insert_shard P k [] p all = (p, tt)
All-insert_shard P k (n ∷ ns) p all = elim (Bool-cases (ltb k n)) [
  | inl below ↦ rw below (p, all)
  | inr above ↦ elim (Bool-cases (nat_beq k n)) [
    | inl same ↦ rw (above, same) all
    | inr apart ↦ rw (above, apart) (all.0, All-insert_shard P k ns p all.1)
  ]
]

insert_shard-Ascending : (k : ℕ) (ns : List ℕ) → Ascending ns → Ascending (insert_shard k ns)
unfolding insert_shard Ascending
insert_shard-Ascending k [] h = (tt, tt)
insert_shard-Ascending k (n ∷ ns) h = elim (Bool-cases (ltb k n)) [
  | inl below ↦
      let lt : k < n = ground (arith, below) in rw below ((lt, All-weaken k n ns lt h.0), h)
  | inr above ↦ elim (Bool-cases (nat_beq k n)) [
    | inl same ↦ rw (above, same) h
    | inr apart ↦
        let gt : n < k = ground (arith, above, apart) in
        rw (above, apart)
          (All-insert_shard (λ j. n < j) k ns gt h.0, insert_shard-Ascending k ns h.1)
  ]
]

contains-insert_shard :
    (k : ℕ) (ns : List ℕ) (j : ℕ) → contains (insert_shard k ns) j ≡ (k == j || contains ns j)
unfolding insert_shard
contains-insert_shard k [] j = refl
contains-insert_shard k (n ∷ ns) j = ground (arith, contains-insert_shard k ns j)

module _ (py : Runtime) (shard_count : ℕ) where
  pub shards_for-Ascending : (refs : List String) → Ascending (shards_for py refs shard_count)
  unfolding shards_for Ascending
  shards_for-Ascending [] = tt
  shards_for-Ascending (ref ∷ refs) =
      insert_shard-Ascending (shard_for py ref shard_count) (shards_for py refs shard_count)
        (shards_for-Ascending refs)

  pub shards_for-within :
      0 < shard_count
      → (refs : List String) → All (λ k. k < shard_count) (shards_for py refs shard_count)
  unfolding shards_for shard_for
  shards_for-within some_shard [] = tt
  shards_for-within some_shard (ref ∷ refs) =
      All-insert_shard (λ k. k < shard_count) (shard_for py ref shard_count)
        (shards_for py refs shard_count) (omega (arith, some_shard))
        (shards_for-within some_shard refs)

  pub contains-shards_for :
      (refs : List String) (ref : String)
      → contains refs ref ≡ true
      → contains (shards_for py refs shard_count) (shard_for py ref shard_count) ≡ true
  unfolding shards_for
  contains-shards_for [] ref h = cc
  contains-shards_for (first ∷ refs) ref h =
      rw
        (contains-insert_shard (shard_for py first shard_count) (shards_for py refs shard_count)
          (shard_for py ref shard_count))
        (elim (Bool-cases (first == ref)) [
          | inl same ↦
              let e = ap (λ r. shard_for py r shard_count) (eq_of_beq {a = first} {b = ref} same) in
              rw e (ground (arith))
          | inr apart ↦ ground (arith, contains-shards_for refs ref (ground (arith, h, apart)))
        ])

  pub shards_for-listed :
      (refs : List String) (k : ℕ)
      → contains (shards_for py refs shard_count) k ≡ true
      → (ref : String) × (contains refs ref ≡ true) × (shard_for py ref shard_count ≡ k)
  unfolding shards_for
  shards_for-listed [] k h = cc
  shards_for-listed (first ∷ refs) k h = elim (Bool-cases (shard_for py first shard_count == k)) [
    | inl same ↦
        (first, ground (arith, beq_self first), eq_of_beq {a = shard_for py first shard_count} same)
    | inr apart ↦
        let told =
          contains-insert_shard (shard_for py first shard_count) (shards_for py refs shard_count)
            k in
        let (ref, there, is) = shards_for-listed refs k (ground (arith, told, h, apart)) in
        (ref, ground (arith, there), is)
  ]

-- The shards of a room: all of them, in order.
range_from-above : (bound start n : ℕ) → bound < start → All (λ k. bound < k) (range_from start n)
unfolding range_from
range_from-above bound start zero h = tt
range_from-above bound start (suc n) h =
    (h, range_from-above bound (suc start) n (omega (arith, h)))

pub range_from-below : (top start n : ℕ) → start + n ≤ top → All (λ k. k < top) (range_from start n)
unfolding range_from
range_from-below top start zero h = tt
range_from-below top start (suc n) h =
    (omega (arith, h), range_from-below top (suc start) n (omega (arith, h)))

pub range_from-Ascending : (start n : ℕ) → Ascending (range_from start n)
unfolding range_from Ascending
range_from-Ascending start zero = tt
range_from-Ascending start (suc n) =
    (range_from-above start (suc start) n (omega arith), range_from-Ascending (suc start) n)

pub contains-range_from :
    (start n k : ℕ) → start ≤ k → k < start + n → contains (range_from start n) k ≡ true
unfolding range_from
contains-range_from start zero k h j = absurd (omega (arith, h, j))
contains-range_from start (suc n) k h j = elim (Bool-cases (nat_beq start k)) [
  | inl same ↦ ground (arith, same)
  | inr apart ↦
      let above : suc start ≤ k = ground (arith, apart, h) in
      ground (arith, contains-range_from (suc start) n k above (omega (arith, j)))
]
