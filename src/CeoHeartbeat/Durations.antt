-- ===== src/CeoHeartbeat/Durations.antt =====
-- The percentiles and the durations that they are taken from.
use flock_os.CeoHeartbeat.{
  HeartbeatRun, durations_of, sort_durations, rank_of, CompletionStats, compute_completion_stats,
  sum,
}
use flock_os.Base.{
  ℕ, zero, suc, ◌-◌, ◌*◌, subst, ltb, ◌≤◌, ◌<◌, ◌≡◌, refl, false, List, [], ◌∷◌, some, length,
  get_elem?, count, leb, nat_eq, ◌==◌, All, arith,
}
use flock_os.CeoHeartbeat.Sorting.{IsAscending, length-sort, count-sort, sum-sort, sort-IsAscending}

-- The value of which less than a percentage of the numbers are below, and at least that percentage
-- are not above: the number at the nearest rank.
pub record IsPercentile (percent : ℕ) (xs : List ℕ) (y : ℕ) : Type 0 where
  pub enough : percent * length xs ≤ 100 * count (λ x. leb x y) xs
  pub fewer_below : 100 * count (λ x. ltb x y) xs < percent * length xs

-- The durations in order, and the percentiles of the durations of the window; the maximum is the
-- hundredth.
pub record IsSummary (runs : List HeartbeatRun) (stats : CompletionStats) : Type 0 where
  pub ascending : IsAscending stats.durations
  pub same_count :
      (d : ℕ) → count (λ x. x == d) stats.durations ≡ count (λ x. x == d) (durations_of runs)
  pub same_length : stats.count ≡ length (durations_of runs)
  pub same_total : stats.total ≡ sum (durations_of runs)
  pub p50_value : ℕ
  pub p95_value : ℕ
  pub max_value : ℕ
  pub p50_is : stats.p50 ≡ some p50_value
  pub p95_is : stats.p95 ≡ some p95_value
  pub max_is : stats.max_duration ≡ some max_value
  pub median : IsPercentile 50 (durations_of runs) p50_value
  pub ninety_fifth : IsPercentile 95 (durations_of runs) p95_value
  pub maximal : IsPercentile 100 (durations_of runs) max_value
  pub p50_below : p50_value ≤ p95_value
  pub p95_below : p95_value ≤ max_value

-- The entry at a position.
at : (xs : List ℕ) (i : ℕ) → i < length xs → (y : ℕ) × (get_elem? xs i ≡ some y)
at [] i h = absurd (omega (arith, h))
at (x ∷ xs) zero h = (x, refl)
at (x ∷ xs) (suc i) h = at xs i (omega (arith, h))

All-at :
    (low : ℕ) (xs : List ℕ) (i y : ℕ) → All (λ z. low ≤ z) xs → get_elem? xs i ≡ some y → low ≤ y
All-at low [] i y h e = absurd (ground (arith, e))
All-at low (x ∷ xs) zero y h e = ground (arith, e, h.0)
All-at low (x ∷ xs) (suc i) y h e = All-at low xs i y h.1 e

ordered :
    (xs : List ℕ) (i j y z : ℕ)
    → IsAscending xs
    → i ≤ j
    → get_elem? xs i ≡ some y
    → get_elem? xs j ≡ some z
    → y ≤ z
ordered [] i j y z h le e f = absurd (ground (arith, e))
ordered (x ∷ xs) zero zero y z h le e f = ground (arith, e, f)
ordered (x ∷ xs) zero (suc j) y z h le e f =
    let same : x ≡ y = ground (arith, e) in omega (arith, same, All-at x xs j z h.0 f)
ordered (x ∷ xs) (suc i) zero y z h le e f = absurd (omega (arith, le))
ordered (x ∷ xs) (suc i) (suc j) y z h le e f = ordered xs i j y z h.1 (omega (arith, le)) e f

-- At a position of an ascending list, the entries up to it are not above, and only earlier ones below.
not_above :
    (xs : List ℕ) (i y : ℕ)
    → IsAscending xs
    → get_elem? xs i ≡ some y
    → suc i ≤ count (λ x. leb x y) xs
not_above [] i y h e = absurd (ground (arith, e))
not_above (x ∷ xs) zero y h e = ground (arith, e)
not_above (x ∷ xs) (suc i) y h e =
    let low = All-at x xs i y h.0 e in ground (arith, low, not_above xs i y h.1 e)

none_below : (low : ℕ) (xs : List ℕ) → All (λ z. low ≤ z) xs → count (λ x. ltb x low) xs ≡ 0
none_below low [] h = refl
none_below low (x ∷ xs) h = ground (arith, h.0, none_below low xs h.1)

below_at :
    (xs : List ℕ) (i y : ℕ) → IsAscending xs → get_elem? xs i ≡ some y → count (λ x. ltb x y) xs ≤ i
below_at [] i y h e = absurd (ground (arith, e))
below_at (x ∷ xs) zero y h e =
    let same : x ≡ y = ground (arith, e) in
    subst (λ z. count (λ k. ltb k z) (x ∷ xs) ≤ 0) same (ground (arith, none_below x xs h.0))
below_at (x ∷ xs) (suc i) y h e = ground (arith, below_at xs i y h.1 e)

-- The entry of the sorted list at a rank is the percentile of the list.
at-IsPercentile :
    (percent i y : ℕ) (xs : List ℕ)
    → get_elem? (sort_durations xs) i ≡ some y
    → percent * length xs ≤ 100 * suc i
    → 100 * i < percent * length xs
    → IsPercentile percent xs y
at-IsPercentile percent i y xs e enough few =
    let sorted = sort-IsAscending xs in
    record {
      enough =
          omega (
            arith,
            not_above (sort_durations xs) i y sorted e,
            count-sort (λ x. leb x y) xs,
            enough,
          );
      fewer_below =
          omega
            (arith, below_at (sort_durations xs) i y sorted e, count-sort (λ x. ltb x y) xs, few);
    }

-- The rank of a percentage is the least number that reaches it.
nearest :
    (n : ℕ)
    → 0 < n
    → (50 * n ≤ 100 * suc (rank_of 50 n - 1))
      × (100 * (rank_of 50 n - 1) < 50 * n)
      × (95 * n ≤ 100 * suc (rank_of 95 n - 1))
      × (100 * (rank_of 95 n - 1) < 95 * n)
unfolding rank_of
nearest n h = ground arith

ranks :
    (n : ℕ)
    → 0 < n
    → (rank_of 50 n - 1 < n)
      × (rank_of 95 n - 1 < n)
      × (rank_of 50 n - 1 ≤ rank_of 95 n - 1)
      × (rank_of 95 n - 1 ≤ n - 1)
unfolding rank_of
ranks n h = ground arith

-- Where a run counts, the statistics list the durations in ascending order, each as often as in the
-- window and with their number and their sum; the median, the 95th percentile and the maximum are the 50th,
-- the 95th and the 100th percentile of the window: less than that percentage of the durations are
-- below it, and at least that percentage are not above; none is above the next.
pub compute_completion_stats-IsSummary :
    (runs : List HeartbeatRun)
    → 0 < length (durations_of runs)
    → IsSummary runs (compute_completion_stats runs)
unfolding compute_completion_stats
compute_completion_stats-IsSummary runs h =
    let ds = sort_durations (durations_of runs) in
    let n = length ds in
    let some_run : 0 < n = omega (arith, h, length-sort (durations_of runs)) in
    let given : (n == 0) ≡ false = ground (arith, some_run) in
    let (in50, in95, low, high) = ranks n some_run in
    let (a, is_a) = at ds (rank_of 50 n - 1) in50 in
    let (b, is_b) = at ds (rank_of 95 n - 1) in95 in
    let (c, is_c) = at ds (n - 1) (omega (arith, some_run)) in
    let sorted = sort-IsAscending (durations_of runs) in
    let as_many : n ≡ length (durations_of runs) = length-sort (durations_of runs) in
    let (up50, low50, up95, low95) = nearest n some_run in
    record {
      ascending = sorted;
      same_count = λ d. count-sort (λ x. x == d) (durations_of runs);
      same_length = as_many;
      same_total = sum-sort (durations_of runs);
      p50_value = a;
      p95_value = b;
      max_value = c;
      p50_is = rw given is_a;
      p95_is = rw given is_b;
      max_is = rw given is_c;
      median =
          at-IsPercentile 50 (rank_of 50 n - 1) a (durations_of runs) is_a
            (omega (arith, as_many, up50)) (omega (arith, as_many, low50));
      ninety_fifth =
          at-IsPercentile 95 (rank_of 95 n - 1) b (durations_of runs) is_b
            (omega (arith, as_many, up95)) (omega (arith, as_many, low95));
      maximal =
          at-IsPercentile 100 (n - 1) c (durations_of runs) is_c (omega (arith, as_many, some_run))
            (omega (arith, as_many, some_run));
      p50_below = ordered ds (rank_of 50 n - 1) (rank_of 95 n - 1) a b sorted low is_a is_b;
      p95_below = ordered ds (rank_of 95 n - 1) (n - 1) b c sorted high is_b is_c;
    }
